-- ===== src/Ownership/Growth.antt =====
-- src/ownership.c: moving the entries to a larger array loses none.
use emuroot.Base.{
  ℕ, zero, suc, ◌+◌, ◌^◌, ◌≤◌, ◌<◌, ◌≡◌, refl, sym, ◌∙◌, ap, inl, inr, true, false, ◌&&◌, Option,
  none, some, List, [], ◌∷◌, if◌then◌else◌, length, replicate, Bool-cases, Option-cases, ==_refl,
  arith, get_or-replicate, length-replicate,
}
use emuroot.Ownership.{Entry, zero_entry, entry_at, find_slot, put_slot, rehash}
use emuroot.Ownership.Search.{find_slot_total}
use emuroot.Ownership.Arrays.{
  used_in, owner_in, IsTable, free_slot, used_in-set, owner_at, owner_found, is_key, key_cases,
  set-IsTable, owner_in-set,
}

-- What an array records for every file.
abbrev pub Records : List Entry → ℕ → (ℕ → ℕ → Option (ℕ × ℕ)) → Type 0
Records slots k owner = (dev ino : ℕ) → owner_in slots (2 ^ k) dev ino ≡ owner dev ino

-- What putting an entry into an array makes of it.
abbrev pub Put : List Entry → ℕ → Entry → List Entry → Type 0
Put slots k v new =
    IsTable new k
    × (used_in new ≤ used_in slots + 1)
    × Records new k (λ dev ino.
      if is_key v dev ino then some (v.uid, v.gid) else owner_in slots (2 ^ k) dev ino)

put_at_lem :
    (slots : List Entry) (k i : ℕ) (v : Entry)
    → IsTable slots k
    → v.used ≡ true
    → i < length slots
    → find_slot slots (2 ^ k) v.dev v.ino ≡ some i
    → Put slots k v (put_slot slots (2 ^ k) v)
unfolding put_slot
put_at_lem slots k i v t uv l found =
    rw (found, put_slot)
      (
        set-IsTable slots k i v t uv l found,
        ground (arith, used_in-set slots i v),
        λ dev ino. owner_in-set slots k i v dev ino t uv l found,
      )

pub put_slot_lem :
    (slots : List Entry) (k : ℕ) (v : Entry)
    → IsTable slots k
    → v.used ≡ true
    → used_in slots < 2 ^ k
    → Put slots k v (put_slot slots (2 ^ k) v)
put_slot_lem slots k v t uv room =
    let (f, lf, free) = free_slot slots (omega (arith, room, t.full)) in
    let (i, li, found) = find_slot_total slots k v.dev v.ino f (omega (arith, lf, t.full)) free in
    put_at_lem slots k i v t uv (omega (arith, li, t.full)) found

-- What the entries of an array leave of an owner, the later ones over the earlier.
unfoldable pub scan : List Entry → ℕ → ℕ → Option (ℕ × ℕ) → Option (ℕ × ℕ)
scan [] dev ino owner = owner
scan (e ∷ old) dev ino owner =
    scan old dev ino (if e.used && is_key e dev ino then some (e.uid, e.gid) else owner)

-- What moving the entries to another array makes of it.
abbrev pub Moved : List Entry → List Entry → ℕ → List Entry → Type 0
Moved old slots k new =
    IsTable new k
    × (used_in new ≤ used_in slots + used_in old)
    × Records new k (λ dev ino. scan old dev ino (owner_in slots (2 ^ k) dev ino))

rehash-unused :
    (e : Entry) (old slots : List Entry) (k : ℕ)
    → e.used ≡ false
    → Moved old slots k (rehash old slots (2 ^ k))
    → Moved (e ∷ old) slots k (rehash (e ∷ old) slots (2 ^ k))
unfolding rehash scan used_in
rehash-unused e old slots k u (t, b, r) = rw u (t, b, r)

rehash-used :
    (e : Entry) (old slots : List Entry) (k : ℕ)
    → e.used ≡ true
    → Put slots k e (put_slot slots (2 ^ k) e)
    → Moved old (put_slot slots (2 ^ k) e) k (rehash old (put_slot slots (2 ^ k) e) (2 ^ k))
    → Moved (e ∷ old) slots k (rehash (e ∷ old) slots (2 ^ k))
unfolding rehash scan used_in
rehash-used e old slots k u (t, b, r) (t2, b2, r2) =
    simp u (t2, omega (arith, b, b2), λ dev ino. r2 dev ino ∙ ap (scan old dev ino) (r dev ino))

pub rehash_lem :
    (old slots : List Entry) (k : ℕ)
    → IsTable slots k
    → used_in slots + used_in old < 2 ^ k
    → Moved old slots k (rehash old slots (2 ^ k))
unfolding rehash scan used_in
rehash_lem [] slots k t room = (t, omega arith, λ dev ino. refl)
rehash_lem (e ∷ old) slots k t room = elim (Bool-cases e.used) [
  | inr u ↦ rehash-unused e old slots k u (rehash_lem old slots k t (rw u at room))
  | inl u ↦
      let more : used_in slots + suc (used_in old) < 2 ^ k = rw u at room in
      let put = put_slot_lem slots k e t u (omega (arith, more)) in
      let fits : used_in (put_slot slots (2 ^ k) e) + used_in old < 2 ^ k =
        omega (arith, more, put.1) in
      rehash-used e old slots k u put (rehash_lem old (put_slot slots (2 ^ k) e) k put.0 fits)
]

-- If each used entry of the file has the owner t, and it is what there was before, it stays.
scan_same :
    (old : List Entry) (dev ino : ℕ) (owner t : Option (ℕ × ℕ))
    → ((j : ℕ)
        → (entry_at old j).used ≡ true
        → is_key (entry_at old j) dev ino ≡ true
        → t ≡ some ((entry_at old j).uid, (entry_at old j).gid))
    → owner ≡ t
    → scan old dev ino owner ≡ t
unfolding scan
scan_same [] dev ino owner t all e = e
scan_same (x ∷ old) dev ino owner t all e = elim (Bool-cases (x.used && is_key x dev ino)) [
  | inr n ↦ rw n (scan_same old dev ino owner t (λ j. all (suc j)) e)
  | inl n ↦
      let hit : t ≡ some (x.uid, x.gid) = all 0 (ground arith) (ground arith) in
      rw n (scan_same old dev ino (some (x.uid, x.gid)) t (λ j. all (suc j)) (sym hit))
]

-- The same, where there is such an entry.
scan_hit :
    (old : List Entry) (dev ino i : ℕ) (owner t : Option (ℕ × ℕ))
    → ((j : ℕ)
        → (entry_at old j).used ≡ true
        → is_key (entry_at old j) dev ino ≡ true
        → t ≡ some ((entry_at old j).uid, (entry_at old j).gid))
    → (entry_at old i).used ≡ true
    → is_key (entry_at old i) dev ino ≡ true
    → scan old dev ino owner ≡ t
unfolding scan
scan_hit [] dev ino i owner t all u n = cc u
scan_hit (x ∷ old) dev ino zero owner t all u n =
    rw (u, n) (scan_same old dev ino _ t (λ j. all (suc j)) (sym (all 0 u n)))
scan_hit (x ∷ old) dev ino (suc i) owner t all u n =
    scan_hit old dev ino i _ t (λ j. all (suc j)) u n

-- An array of free slots.
pub replicate-IsTable : (k : ℕ) → IsTable (replicate (2 ^ k) zero_entry) k
replicate-IsTable k = record {
  full = length-replicate (2 ^ k) zero_entry;
  placed = λ j u. cc (rw (get_or-replicate (2 ^ k) j zero_entry) at u);
}

pub used_in-replicate : (n : ℕ) → used_in (replicate n zero_entry) ≡ 0
unfolding used_in replicate
used_in-replicate zero = refl
used_in-replicate (suc n) = used_in-replicate n

pub owner_in-replicate :
    (k dev ino : ℕ) → owner_in (replicate (2 ^ k) zero_entry) (2 ^ k) dev ino ≡ none
owner_in-replicate k dev ino =
    elim (Option-cases (owner_in (replicate (2 ^ k) zero_entry) (2 ^ k) dev ino)) [
      | inl e ↦ e
      | inr (o, e) ↦
          let (j, u, d, n, same) = owner_found _ (2 ^ k) dev ino o e in
          cc (rw (get_or-replicate (2 ^ k) j zero_entry) at u)
    ]

-- The used entries of a file, in an array, have the owner that the array records.
key-owner_in :
    (slots : List Entry) (k dev ino j : ℕ)
    → IsTable slots k
    → (entry_at slots j).used ≡ true
    → is_key (entry_at slots j) dev ino ≡ true
    → owner_in slots (2 ^ k) dev ino ≡ some ((entry_at slots j).uid, (entry_at slots j).gid)
key-owner_in slots k dev ino j t u n = elim (key_cases (entry_at slots j) dev ino) [
  | inr (f, differ) ↦ cc (sym f ∙ n)
  | inl (s, d, i) ↦ rw (d, i) at (owner_at slots k j t u)
]

-- What the entries of an array leave is what the array records.
pub scan-owner_in :
    (slots : List Entry) (k dev ino : ℕ)
    → IsTable slots k
    → scan slots dev ino none ≡ owner_in slots (2 ^ k) dev ino
scan-owner_in slots k dev ino t = elim (Option-cases (owner_in slots (2 ^ k) dev ino)) [
  | inl e ↦ scan_same slots dev ino none _ (λ j u n. key-owner_in slots k dev ino j t u n) (sym e)
  | inr (o, e) ↦
      let (j, u, d, n, same) = owner_found slots (2 ^ k) dev ino o e in
      scan_hit slots dev ino j none _ (λ j' u' n'. key-owner_in slots k dev ino j' t u' n') u
        (rw (d, n) (rw (==_refl dev, ==_refl ino) refl))
]

-- Moving an array's entries to a larger, empty one changes no owner.
pub grown_lem :
    (old : List Entry) (k k' : ℕ)
    → IsTable old k
    → used_in old < 2 ^ k'
    → IsTable (rehash old (replicate (2 ^ k') zero_entry) (2 ^ k')) k'
      × (used_in (rehash old (replicate (2 ^ k') zero_entry) (2 ^ k')) ≤ used_in old)
      × Records
          (rehash old (replicate (2 ^ k') zero_entry) (2 ^ k'))
          k'
          (λ dev ino. owner_in old (2 ^ k) dev ino)
grown_lem old k k' t room =
    let none_used = used_in-replicate (2 ^ k') in
    let (t', b, r) =
      rehash_lem old (replicate (2 ^ k') zero_entry) k' (replicate-IsTable k')
        (omega (arith, room, none_used)) in
    (
      t',
      omega (arith, b, none_used),
      λ dev ino.
          r dev ino
          ∙ ap (scan old dev ino) (owner_in-replicate k' dev ino)
          ∙ scan-owner_in old k dev ino t,
    )
