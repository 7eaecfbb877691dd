-- ===== src/Ownership/Arrays.antt =====
-- src/ownership.c: what a hash array records, and what putting an entry into it does.
use emuroot.Base.{
  ℕ, zero, suc, ◌+◌, ◌^◌, ◌≤◌, ◌<◌, ◌≡◌, refl, sym, ◌∙◌, ap, ◌≢◌, ◌⊎◌, inl, inr, Bool, true, false,
  not, ◌&&◌, Option, none, some, List, [], ◌∷◌, ◌==◌, if◌then◌else◌, length, set, Bool-cases,
  Option-cases, some-injective, ==_iff, ==_refl, arith, get_or-set_ne, get_or-set_self, length-set,
}
use emuroot.Ownership.{Entry, zero_entry, entry_at, is_slot_for, find_slot}
use emuroot.Ownership.Store.{probe-set, probe-set_self, same_file, other_file, find_slot-matches}

-- How many slots are used.
unfoldable pub used_in : List Entry → ℕ
used_in [] = 0
used_in (e ∷ slots) = if e.used then suc (used_in slots) else used_in slots

-- The owner that the array records for a file.
unfoldable pub owner_in : List Entry → ℕ → ℕ → ℕ → Option (ℕ × ℕ)
owner_in slots cap dev ino = elim (find_slot slots cap dev ino) [
  | none ↦ none
  | some i ↦ let e = entry_at slots i in if not e.used then none else some (e.uid, e.gid)
]

-- An array of 2^k slots in which each used slot is the one that its file is searched to.
pub record IsTable (slots : List Entry) (k : ℕ) : Type 0 where
  pub full : length slots ≡ 2 ^ k
  pub placed :
      (j : ℕ)
      → (entry_at slots j).used ≡ true
      → find_slot slots (2 ^ k) (entry_at slots j).dev (entry_at slots j).ino ≡ some j

pub free_slot :
    (slots : List Entry)
    → used_in slots < length slots
    → (f : ℕ) × (f < length slots) × ((entry_at slots f).used ≡ false)
unfolding used_in
free_slot [] h = absurd (omega arith)
free_slot (e ∷ slots) h = elim (Bool-cases e.used) [
  | inr u ↦ (0, omega arith, u)
  | inl u ↦
      let fewer = rw u at h in
      let (f, l, free) = free_slot slots (omega (arith, fewer)) in (suc f, omega (arith, l), free)
]

pub used_in-set :
    (slots : List Entry) (i : ℕ) (v : Entry)
    → used_in (set slots i v) ≤ used_in slots + (if (entry_at slots i).used then 0 else 1)
unfolding used_in
used_in-set [] i v = omega arith
used_in-set (e ∷ slots) zero v = ground arith
used_in-set (e ∷ slots) (suc i) v = ground (arith, used_in-set slots i v)

-- A used slot is what its file is looked up to.
pub owner_at :
    (slots : List Entry) (k j : ℕ)
    → IsTable slots k
    → (entry_at slots j).used ≡ true
    → owner_in slots (2 ^ k) (entry_at slots j).dev (entry_at slots j).ino
      ≡ some ((entry_at slots j).uid, (entry_at slots j).gid)
unfolding owner_in
owner_at slots k j t u = rw (t.placed j u, owner_in) (rw u refl)

-- What a lookup answers is in a used slot of the file.
pub owner_found :
    (slots : List Entry) (cap dev ino : ℕ) (o : ℕ × ℕ)
    → owner_in slots cap dev ino ≡ some o
    → (j : ℕ) × ((entry_at slots j).used ≡ true)
      × ((entry_at slots j).dev ≡ dev)
      × ((entry_at slots j).ino ≡ ino)
      × (((entry_at slots j).uid, (entry_at slots j).gid) ≡ o)
unfolding owner_in
owner_found slots cap dev ino o e = elim (Option-cases (find_slot slots cap dev ino)) [
  | inl n ↦ cc (rw (n, owner_in) at e)
  | inr (j, n) ↦
      let e' = rw (n, owner_in) at e in
      elim (Bool-cases (entry_at slots j).used) [
        | inr u ↦ cc (rw u at e')
        | inl u ↦
            let (d, i) = same_file _ dev ino u (find_slot-matches slots cap dev ino j n) in
            (j, u, d, i, some-injective (rw u at e'))
      ]
]

own_key : (v : Entry) → is_slot_for v v.dev v.ino ≡ true
unfolding is_slot_for
own_key v = ground (arith, ==_refl v.dev, ==_refl v.ino)

-- Whether an entry is that of a file.
abbrev pub is_key : Entry → ℕ → ℕ → Bool
is_key v dev ino = v.dev == dev && v.ino == ino

pub key_cases :
    (v : Entry) (dev ino : ℕ)
    → ((is_key v dev ino ≡ true) × (v.dev ≡ dev) × (v.ino ≡ ino))
      ⊎ ((is_key v dev ino ≡ false) × ((v.dev ≢ dev) ⊎ (v.ino ≢ ino)))
key_cases v dev ino = elim (Bool-cases (v.dev == dev)) [
  | inr d ↦ inr (rw d refl, inl (λ e. cc (sym d ∙ (==_iff v.dev dev).1 e)))
  | inl d ↦ elim (Bool-cases (v.ino == ino)) [
    | inr i ↦ inr (rw (d, i) refl, inr (λ e. cc (sym i ∙ (==_iff v.ino ino).1 e)))
    | inl i ↦ inl (rw (d, i) refl, (==_iff v.dev dev).0 d, (==_iff v.ino ino).0 i)
  ]
]

-- Each used slot other than the one written keeps its place.
set-placed_ne :
    (slots : List Entry) (k i j : ℕ) (v : Entry)
    → IsTable slots k
    → v.used ≡ true
    → find_slot slots (2 ^ k) v.dev v.ino ≡ some i
    → i ≢ j
    → (entry_at slots j).used ≡ true
    → find_slot (set slots i v) (2 ^ k) (entry_at slots j).dev (entry_at slots j).ino ≡ some j
unfolding find_slot
set-placed_ne slots k i j v t uv found apart u =
    let e = entry_at slots j in
    let there = t.placed j u in
    elim (key_cases v e.dev e.ino) [
      | inr (n, differ) ↦
          probe-set slots _ e.dev e.ino (2 ^ k) _ i j v (other_file v e.dev e.ino uv differ) apart
            there
      | inl (s, d, n) ↦
          let same : find_slot slots (2 ^ k) v.dev v.ino ≡ some j = rw (d, n) there in
          absurd (apart (some-injective (sym found ∙ same)))
    ]

pub set-IsTable :
    (slots : List Entry) (k i : ℕ) (v : Entry)
    → IsTable slots k
    → v.used ≡ true
    → i < length slots
    → find_slot slots (2 ^ k) v.dev v.ino ≡ some i
    → IsTable (set slots i v) k
unfolding find_slot
set-IsTable slots k i v t uv l found = record {
  full = length-set slots i v ∙ t.full;
  placed = λ j u. elim (Bool-cases (i == j)) [
    | inl e ↦
        let same : i ≡ j = (==_iff i j).0 e in
        let here : entry_at (set slots i v) i ≡ v = get_or-set_self slots i v zero_entry l in
        rw (sym same)
          (rw here (probe-set_self slots _ v.dev v.ino (2 ^ k) _ i v (own_key v) l found))
    | inr e ↦
        let apart : i ≢ j = λ q. cc (sym e ∙ (==_iff i j).1 q) in
        let kept : entry_at (set slots i v) j ≡ entry_at slots j =
          get_or-set_ne slots i j v zero_entry apart in
        rw kept (set-placed_ne slots k i j v t uv found apart (rw kept at u))
  ];
}

-- The slot that is written is not that of a file with another key.
apart_from :
    (slots : List Entry) (cap i j dev ino : ℕ) (v : Entry)
    → find_slot slots cap v.dev v.ino ≡ some i
    → (v.dev ≢ dev) ⊎ (v.ino ≢ ino)
    → (entry_at slots j).used ≡ true
    → (entry_at slots j).dev ≡ dev
    → (entry_at slots j).ino ≡ ino
    → i ≢ j
apart_from slots cap i j dev ino v found n u d e same =
    let m = find_slot-matches slots cap v.dev v.ino i found in
    let (vd, vi) = same_file (entry_at slots j) v.dev v.ino u (rw same at m) in
    elim n [ inl h ↦ h (sym vd ∙ d) | inr h ↦ h (sym vi ∙ e) ]

-- Writing an entry to its slot changes what is recorded for its file, and for no other.
pub owner_in-set :
    (slots : List Entry) (k i : ℕ) (v : Entry) (dev ino : ℕ)
    → IsTable slots k
    → v.used ≡ true
    → i < length slots
    → find_slot slots (2 ^ k) v.dev v.ino ≡ some i
    → owner_in (set slots i v) (2 ^ k) dev ino
      ≡ (if is_key v dev ino then some (v.uid, v.gid) else owner_in slots (2 ^ k) dev ino)
owner_in-set slots k i v dev ino t uv l found = elim (key_cases v dev ino) [
  | inl (s, d, n) ↦
      let here : entry_at (set slots i v) i ≡ v = get_or-set_self slots i v zero_entry l in
      let own = owner_at (set slots i v) k i t' (rw here uv) in
      rw s (rw (sym d, sym n) (rw here at own))
  | inr (s, differ) ↦ rw s (elim (Option-cases (owner_in slots (2 ^ k) dev ino)) [
    | inr (o, e) ↦
        let (j, u, d, n, same) = owner_found slots (2 ^ k) dev ino o e in
        let apart = apart_from slots (2 ^ k) i j dev ino v found differ u d n in
        let kept : entry_at (set slots i v) j ≡ entry_at slots j =
          get_or-set_ne slots i j v zero_entry apart in
        let own = rw kept at (owner_at (set slots i v) k j t' (rw kept u)) in
        rw e ((rw (d, n) at own) ∙ ap some same)
    | inl e ↦ elim (Option-cases (owner_in (set slots i v) (2 ^ k) dev ino)) [
      | inl e' ↦ e' ∙ sym e
      | inr (o, e') ↦
          let (j, u, d, n, same) = owner_found (set slots i v) (2 ^ k) dev ino o e' in
          absurd (elim (Bool-cases (i == j)) [
            | inl q ↦
                let w : entry_at (set slots i v) j ≡ v =
                  rw (sym ((==_iff i j).0 q)) (get_or-set_self slots i v zero_entry l) in
                elim differ [ inl h ↦ h (rw w at d) | inr h ↦ h (rw w at n) ]
            | inr q ↦
                let kept : entry_at (set slots i v) j ≡ entry_at slots j =
                  get_or-set_ne slots i j v zero_entry (λ p. cc (sym q ∙ (==_iff i j).1 p)) in
                let own = owner_at slots k j t (rw kept at u) in
                let own' = rw (rw kept at d, rw kept at n) at own in cc (sym e ∙ own')
          ])
    ]
  ])
]
  where
    t' : IsTable (set slots i v) k
    t' = set-IsTable slots k i v t uv l found
