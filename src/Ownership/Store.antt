-- ===== src/Ownership/Store.antt =====
-- src/ownership.c, the end of emuroot_owner_set: what recording an owner does to the other files.
use emuroot.Base.{
  ℕ, zero, suc, ◌+◌, ◌≡◌, refl, sym, ◌∙◌, ap, ◌≢◌, ◌⊎◌, inl, inr, Bool, true, false, some, List, [],
  ◌∷◌, ltb, ◌*◌, ◌<◌, ◌==◌, set, Bool-cases, Option-cases, some-injective, ==_iff, arith,
  get_or-set_ne, get_or-set_self, length, ==_refl, ◌^◌,
}
use emuroot.Ownership.{
  Entry, Db, zero_entry, entry_at, is_slot_for, probe, find_slot, emuroot_owner_lookup, store,
  set_in,
}
use emuroot.Ownership.Search.{find_slot_total}

pub entry_cases :
    (slots : List Entry) (i s : ℕ) (v : Entry)
    → (entry_at (set slots i v) s ≡ v) ⊎ (entry_at (set slots i v) s ≡ entry_at slots s)
entry_cases [] i s v = inr refl
entry_cases (e ∷ slots) zero zero v = inl refl
entry_cases (e ∷ slots) zero (suc s) v = inr refl
entry_cases (e ∷ slots) (suc i) zero v = inr refl
entry_cases (e ∷ slots) (suc i) (suc s) v = entry_cases slots i s v

probe-matches :
    (slots : List Entry) (mask dev ino fuel s j : ℕ)
    → probe slots mask dev ino fuel s ≡ some j
    → is_slot_for (entry_at slots j) dev ino ≡ true
unfolding probe
probe-matches slots mask dev ino zero s j e = cc e
probe-matches slots mask dev ino (suc fuel) s j e =
    elim (Bool-cases (is_slot_for (entry_at slots s) dev ino)) [
      | inl m ↦ let z : s ≡ j = some-injective (rw m at e) in rw (sym z) m
      | inr m ↦ probe-matches slots mask dev ino fuel _ j (rw m at e)
    ]

pub probe-set :
    (slots : List Entry) (mask dev ino fuel s i j : ℕ) (v : Entry)
    → is_slot_for v dev ino ≡ false
    → i ≢ j
    → probe slots mask dev ino fuel s ≡ some j
    → probe (set slots i v) mask dev ino fuel s ≡ some j
unfolding probe
probe-set slots mask dev ino zero s i j v f apart e = cc e
probe-set slots mask dev ino (suc fuel) s i j v f apart e =
    elim (Bool-cases (is_slot_for (entry_at slots s) dev ino)) [
      | inl m ↦
          let z : s ≡ j = some-injective (rw m at e) in
          let here : entry_at (set slots i v) s ≡ entry_at slots s =
            rw z (get_or-set_ne slots i j v zero_entry apart) in
          rw here (rw m (ap some z))
      | inr m ↦
          let later = probe-set slots mask dev ino fuel _ i j v f apart (rw m at e) in
          let passed : is_slot_for (entry_at (set slots i v) s) dev ino ≡ false =
            elim (entry_cases slots i s v) [ inl h ↦ rw h f | inr h ↦ rw h m ] in
          rw passed later
    ]

-- A used slot that a search may stop at is that of its file.
pub same_file :
    (e : Entry) (dev ino : ℕ)
    → e.used ≡ true
    → is_slot_for e dev ino ≡ true
    → (e.dev ≡ dev) × (e.ino ≡ ino)
unfolding is_slot_for
same_file e dev ino u m = ground (arith, ==_iff e.dev dev, ==_iff e.ino ino)

-- A slot that holds a file is passed by the search for another.
pub other_file :
    (e : Entry) (dev ino : ℕ)
    → e.used ≡ true
    → (e.dev ≢ dev) ⊎ (e.ino ≢ ino)
    → is_slot_for e dev ino ≡ false
unfolding is_slot_for
other_file e dev ino u n = ground arith

-- What a lookup that answers has found, at the index j.
record Found (db : Db) (dev ino : ℕ) (o : ℕ × ℕ) : Type 0 where
  j : ℕ
  some_used : (db.count == 0) ≡ false
  at_slot : find_slot db.slots db.cap dev ino ≡ some j
  used : (entry_at db.slots j).used ≡ true
  owner : ((entry_at db.slots j).uid, (entry_at db.slots j).gid) ≡ o

lookup-Found :
    (db : Db) (dev ino : ℕ) (o : ℕ × ℕ)
    → emuroot_owner_lookup (some db) dev ino ≡ some o
    → Found db dev ino o
unfolding emuroot_owner_lookup
lookup-Found db dev ino o e = elim (Bool-cases (db.count == 0)) [
  | inl z ↦ cc (rw z at e)
  | inr z ↦
      let e' = rw z at e in
      elim (Option-cases (find_slot db.slots db.cap dev ino)) [
        | inl n ↦ cc (rw (n, emuroot_owner_lookup) at e')
        | inr (j, n) ↦
            let e2 = rw (n, emuroot_owner_lookup) at e' in
            elim (Bool-cases (entry_at db.slots j).used) [
              | inr u ↦ cc (rw u at e2)
              | inl u ↦ record {
                j = j;
                some_used = z;
                at_slot = n;
                used = u;
                owner = some-injective (rw u at e2);
              }
            ]
      ]
]

Found-lookup :
    (db : Db) (dev ino : ℕ) (o : ℕ × ℕ)
    → Found db dev ino o
    → emuroot_owner_lookup (some db) dev ino ≡ some o
unfolding emuroot_owner_lookup
Found-lookup db dev ino o f =
    rw f.some_used (rw (f.at_slot, emuroot_owner_lookup) (rw f.used (ap some f.owner)))

pub find_slot-matches :
    (slots : List Entry) (cap dev ino j : ℕ)
    → find_slot slots cap dev ino ≡ some j
    → is_slot_for (entry_at slots j) dev ino ≡ true
unfolding find_slot
find_slot-matches slots cap dev ino j e = probe-matches slots _ dev ino cap _ j e

-- The slot that a file is written to is not the one that another file is found in.
slots_apart :
    (db : Db) (dev ino dev' ino' i j : ℕ)
    → (dev ≢ dev') ⊎ (ino ≢ ino')
    → find_slot db.slots db.cap dev ino ≡ some i
    → find_slot db.slots db.cap dev' ino' ≡ some j
    → (entry_at db.slots j).used ≡ true
    → i ≢ j
slots_apart db dev ino dev' ino' i j n ei ej u same =
    let mj = same_file _ dev' ino' u (find_slot-matches db.slots db.cap dev' ino' j ej) in
    let mi = same_file _ dev ino u (rw same at (find_slot-matches db.slots db.cap dev ino i ei)) in
    elim n [ inl d ↦ d (sym mi.0 ∙ mj.0) | inr d ↦ d (sym mi.1 ∙ mj.1) ]

store-Found :
    (db : Db) (dev ino uid gid dev' ino' : ℕ) (o : ℕ × ℕ)
    → (dev ≢ dev') ⊎ (ino ≢ ino')
    → Found db dev' ino' o
    → Found (store db dev ino uid gid) dev' ino' o
unfolding store find_slot
store-Found db dev ino uid gid dev' ino' o n f =
    elim (Option-cases (find_slot db.slots db.cap dev ino)) [
      | inl e ↦ rw (e, store) f
      | inr (i, e) ↦
          let v : Entry = record { dev = dev; ino = ino; uid = uid; gid = gid; used = true } in
          let apart = slots_apart db dev ino dev' ino' i f.j n e f.at_slot f.used in
          let same : entry_at (set db.slots i v) f.j ≡ entry_at db.slots f.j =
            get_or-set_ne db.slots i f.j v zero_entry apart in
          rw (e, store)
            (record {
              j = f.j;
              some_used = ground (arith, f.some_used);
              at_slot =
                  probe-set db.slots _ dev' ino' db.cap _ i f.j v (other_file v dev' ino' refl n)
                    apart f.at_slot;
              used = rw same f.used;
              owner = rw same f.owner;
            })
    ]

-- Recording an owner where the table does not grow changes the recorded owner of no other file,
-- whatever the table holds.
pub lookup-set_in :
    (db : Db) (room : Bool) (dev ino uid gid dev' ino' : ℕ) (o : ℕ × ℕ)
    → ltb db.cap ((db.count + 1) * 2) ≡ false
    → (dev ≢ dev') ⊎ (ino ≢ ino')
    → emuroot_owner_lookup (some db) dev' ino' ≡ some o
    → emuroot_owner_lookup (some (set_in db room dev ino uid gid)) dev' ino' ≡ some o
unfolding set_in
lookup-set_in db room dev ino uid gid dev' ino' o fits n e = rw fits (
    Found-lookup (store db dev ino uid gid) dev' ino' o
      (store-Found db dev ino uid gid dev' ino' o n (lookup-Found db dev' ino' o e)))

-- A table of a power of two slots, with a free one, that counts its used ones.
pub record HasFree (db : Db) : Type 0 where
  pub k : ℕ
  pub power : db.cap ≡ 2 ^ k
  pub in_array : length db.slots ≡ db.cap
  pub f : ℕ
  pub in_table : f < 2 ^ k
  pub free : (entry_at db.slots f).used ≡ false
  pub counted : (j : ℕ) → (entry_at db.slots j).used ≡ true → db.count ≢ 0

pub probe-set_self :
    (slots : List Entry) (mask dev ino fuel s i : ℕ) (v : Entry)
    → is_slot_for v dev ino ≡ true
    → i < length slots
    → probe slots mask dev ino fuel s ≡ some i
    → probe (set slots i v) mask dev ino fuel s ≡ some i
unfolding probe
probe-set_self slots mask dev ino zero s i v f l e = cc e
probe-set_self slots mask dev ino (suc fuel) s i v f l e =
    elim (Bool-cases (is_slot_for (entry_at slots s) dev ino)) [
      | inl m ↦
          let z : s ≡ i = some-injective (rw m at e) in
          let here : entry_at (set slots i v) s ≡ v =
            rw z (get_or-set_self slots i v zero_entry l) in
          rw here (rw f (ap some z))
      | inr m ↦
          let found = probe-matches slots mask dev ino fuel _ i (rw m at e) in
          let apart : i ≢ s = λ q. cc (sym m ∙ (rw q at found)) in
          let same : entry_at (set slots i v) s ≡ entry_at slots s =
            get_or-set_ne slots i s v zero_entry apart in
          let later = probe-set_self slots mask dev ino fuel _ i v f l (rw m at e) in
          rw same (rw m later)
    ]

pub own_slot :
    (dev ino uid gid : ℕ)
    → is_slot_for (record { dev = dev; ino = ino; uid = uid; gid = gid; used = true }) dev ino
      ≡ true
unfolding is_slot_for
own_slot dev ino uid gid = rw (==_refl dev, ==_refl ino) refl

store-Found_self :
    (db : Db) (dev ino uid gid : ℕ)
    → HasFree db
    → Found (store db dev ino uid gid) dev ino (uid, gid)
unfolding store find_slot
store-Found_self db dev ino uid gid h =
    let (i, l, e) = find_slot_total db.slots h.k dev ino h.f h.in_table h.free in
    let e' : find_slot db.slots db.cap dev ino ≡ some i = rw h.power e in
    let v : Entry = record { dev = dev; ino = ino; uid = uid; gid = gid; used = true } in
    let inside : i < length db.slots = rw (h.in_array, h.power) l in
    let here : entry_at (set db.slots i v) i ≡ v = get_or-set_self db.slots i v zero_entry inside in
    let n = h.counted i in
    rw (e', store)
      (record {
        j = i;
        some_used = ground (arith, n);
        at_slot =
            probe-set_self db.slots _ dev ino db.cap _ i v (own_slot dev ino uid gid) inside e';
        used = rw here refl;
        owner = rw here refl;
      })

-- In a table of a power of two slots with a free one, whose count is not zero where a slot is used:
-- what is recorded for a file, where the table does not grow, is what is looked up for it.
pub lookup-set_in_self :
    (db : Db) (room : Bool) (dev ino uid gid : ℕ)
    → HasFree db
    → ltb db.cap ((db.count + 1) * 2) ≡ false
    → emuroot_owner_lookup (some (set_in db room dev ino uid gid)) dev ino ≡ some (uid, gid)
unfolding set_in
lookup-set_in_self db room dev ino uid gid h fits = rw fits (
    Found-lookup (store db dev ino uid gid) dev ino (uid, gid)
      (store-Found_self db dev ino uid gid h))
