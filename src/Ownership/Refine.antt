-- ===== src/Ownership/Refine.antt =====
-- src/ownership.c: what the hash table promises its clients, a map from files to owners.
use Prim.Native.Nat.pow
use emuroot.Base.{
  ℕ, zero, suc, ◌+◌, ◌*◌, ◌^◌, ◌≤◌, ◌<◌, ◌≡◌, refl, sym, ◌∙◌, ap, ◌≢◌, ◌⊎◌, inl, inr, true, false,
  ◌&&◌, Option, none, some, List, [], ◌∷◌, ◌==◌, if◌then◌else◌, length, replicate, Bool-cases,
  Option-cases, ==_iff, arith,
}
use emuroot.Ownership.{
  Entry, Db, zero_entry, empty_db, entry_at, find_slot, rehash, emuroot_owner_lookup, grow, store,
}
use emuroot.Ownership.Search.{find_slot_total}
use emuroot.Ownership.Arrays.{
  used_in, owner_in, IsTable, free_slot, used_in-set, owner_found, owner_in-set, set-IsTable,
}
use emuroot.Ownership.Growth.{grown_lem, replicate-IsTable, used_in-replicate, owner_in-replicate}

-- A table of 2^k slots, at most half of them used, in which each used slot is the one its file is
-- searched to.
pub record IsSound (db : Db) (k : ℕ) : Type 0 where
  pub power : db.cap ≡ 2 ^ k
  pub table : IsTable db.slots k
  pub counted : used_in db.slots ≤ db.count
  pub half : db.count * 2 ≤ db.cap

-- What emuroot_owner_set leaves: a table that holds nothing, or a sound one.
abbrev pub IsValid : Db → Type 0
IsValid db = (db ≡ empty_db) ⊎ ((k : ℕ) × IsSound db k)

-- Where the entry is used, the count is not zero.
used_in-entry : (slots : List Entry) (j : ℕ) → (entry_at slots j).used ≡ true → 0 < used_in slots
unfolding used_in
used_in-entry [] j u = cc u
used_in-entry (e ∷ slots) zero u = rw u (omega arith)
used_in-entry (e ∷ slots) (suc j) u = let later = used_in-entry slots j u in ground (arith, later)

pub lookup-owner_in :
    (db : Db) (k dev ino : ℕ)
    → IsSound db k
    → emuroot_owner_lookup (some db) dev ino ≡ owner_in db.slots (2 ^ k) dev ino
unfolding emuroot_owner_lookup owner_in
lookup-owner_in db k dev ino s = elim (Bool-cases (db.count == 0)) [
  | inr z ↦ rw (z, s.power) refl
  | inl z ↦ rw z (
      sym (elim (Option-cases (owner_in db.slots (2 ^ k) dev ino)) [
        | inl e ↦ e
        | inr (o, e) ↦
            let (j, u, _, _, _) = owner_found db.slots (2 ^ k) dev ino o e in
            let some_used = used_in-entry db.slots j u in
            absurd (omega (arith, some_used, s.counted, (==_iff db.count 0).0 z))
      ]))
]

-- The map with one more owner.
abbrev pub with_owner : (ℕ → ℕ → Option (ℕ × ℕ)) → ℕ → ℕ → ℕ → ℕ → ℕ → ℕ → Option (ℕ × ℕ)
with_owner owner dev ino uid gid dev' ino' =
    if dev == dev' && ino == ino' then some (uid, gid) else owner dev' ino'

-- What a table is, and what it records.
abbrev pub IsStored : Db → (ℕ → ℕ → Option (ℕ × ℕ)) → Type 0
IsStored db owner =
    ((k : ℕ) × IsSound db k)
    × ((dev ino : ℕ) → emuroot_owner_lookup (some db) dev ino ≡ owner dev ino)

store_at :
    (db : Db) (k i dev ino uid gid : ℕ)
    → IsSound db k
    → (db.count + 1) * 2 ≤ db.cap
    → i < length db.slots
    → find_slot db.slots (2 ^ k) dev ino ≡ some i
    → IsSound (store db dev ino uid gid) k
      × ((dev' ino' : ℕ)
          → owner_in (store db dev ino uid gid).slots (2 ^ k) dev' ino'
            ≡ with_owner (owner_in db.slots (2 ^ k)) dev ino uid gid dev' ino')
unfolding store
store_at db k i dev ino uid gid s fits l found =
    let v : Entry = record { dev = dev; ino = ino; uid = uid; gid = gid; used = true } in
    let at_cap : find_slot db.slots db.cap dev ino ≡ some i = rw s.power found in
    rw (at_cap, store)
      (
        record {
          power = s.power;
          table = set-IsTable db.slots k i v s.table refl l found;
          counted = ground (arith, used_in-set db.slots i v, s.counted);
          half = ground (arith, fits);
        },
        λ dev' ino'. owner_in-set db.slots k i v dev' ino' s.table refl l found,
      )

pub store_lem :
    (db : Db) (k dev ino uid gid : ℕ)
    → IsSound db k
    → (db.count + 1) * 2 ≤ db.cap
    → IsStored (store db dev ino uid gid) (with_owner (owner_in db.slots (2 ^ k)) dev ino uid gid)
store_lem db k dev ino uid gid s fits =
    let (f, lf, free) =
      free_slot db.slots (omega (arith, s.power, s.table.full, s.counted, fits)) in
    let (i, li, found) =
      find_slot_total db.slots k dev ino f (omega (arith, lf, s.table.full)) free in
    let (s', r) = store_at db k i dev ino uid gid s fits (omega (arith, li, s.table.full)) found in
    ((k, s'), λ dev' ino'. lookup-owner_in _ k dev' ino' s' ∙ r dev' ino')

-- The table that is grown into 2^k slots.
abbrev pub grown : Db → ℕ → Db
grown db k = record {
  slots = rehash db.slots (replicate (2 ^ k) zero_entry) (2 ^ k);
  cap = 2 ^ k;
  count = db.count;
}

pub grow_lem :
    (db : Db) (k : ℕ) → db.cap ≡ 2 ^ k → db.cap ≢ 0 → grow db true ≡ some (grown db (suc k))
unfolding grow
grow_lem db k power some_cap =
    let doubled : db.cap * 2 ≡ 2 ^ suc k = omega (arith, pow.suc 2 k, power) in
    let no : (db.cap == 0) ≡ false = ground (arith, some_cap) in rw (no, doubled) refl

-- A sound table that is grown, and the owner stored in it.
pub set_grown :
    (db : Db) (k dev ino uid gid : ℕ)
    → IsSound db k
    → db.cap ≢ 0
    → IsStored
        (store (grown db (suc k)) dev ino uid gid)
        (with_owner (owner_in db.slots (2 ^ k)) dev ino uid gid)
set_grown db k dev ino uid gid s some_cap =
    let wider = pow.suc 2 k in
    let (t, b, r) =
      grown_lem db.slots k (suc k) s.table
        (omega (arith, wider, s.power, s.counted, s.half, some_cap)) in
    let sound : IsSound (grown db (suc k)) (suc k) = record {
      power = refl;
      table = t;
      counted = omega (arith, b, s.counted);
      half = omega (arith, wider, s.power, s.half);
    } in
    let fits : (db.count + 1) * 2 ≤ 2 ^ suc k = omega (arith, wider, s.power, s.half, some_cap) in
    let (sound', r') = store_lem (grown db (suc k)) (suc k) dev ino uid gid sound fits in
    (
      sound',
      λ dev' ino'.
          r' dev' ino'
          ∙ ap (λ o. if dev == dev' && ino == ino' then some (uid, gid) else o) (r dev' ino'),
    )

-- The first owner stored.
pub set_first :
    (dev ino uid gid : ℕ)
    → IsStored
        (store (grown empty_db 10) dev ino uid gid)
        (with_owner (λ dev' ino'. none) dev ino uid gid)
unfolding rehash
set_first dev ino uid gid =
    let unused = used_in-replicate (2 ^ 10) in
    let sound : IsSound (grown empty_db 10) 10 = record {
      power = refl;
      table = replicate-IsTable 10;
      counted = omega (arith, unused);
      half = omega arith;
    } in
    let (sound', r) = store_lem (grown empty_db 10) 10 dev ino uid gid sound (omega arith) in
    (
      sound',
      λ dev' ino'.
          r dev' ino'
          ∙ ap (λ o. if dev == dev' && ino == ino' then some (uid, gid) else o)
              (owner_in-replicate 10 dev' ino'),
    )
