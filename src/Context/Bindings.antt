-- ===== src/Context/Bindings.antt =====
-- src/emuroot.c: the binding table of a context, seen as the list of its live entries.
use emuroot.Base.{
  ℕ, zero, suc, ◌+◌, ◌-◌, ◌≤◌, ◌<◌, ◌≡◌, refl, ap, ◌∙◌, sym, ◌≢◌, ◌↔◌, ◌⊎◌, inl, inr, true, false,
  none, some, List, [], ◌∷◌, ◌++◌, length, get_or, set, take, drop, arith, Bool-cases, Option-cases,
  lt_suc_cases, length-set, length-append, length-take, length-drop, take-append, take_around,
  get_or-set_self,
}
use mathlib.Core.List.{append-nil}
use emuroot.Cstring.{str_eq}
use emuroot.Cstring.Laws.{str_eq→eq, str_ne, str_eq_refl}
use emuroot.Context.{
  Binding, no_binding, Ctx, binding_at, max_bindings, path_len, copy_path, bind_paths, emuroot_bind,
  emuroot_unbind, find_guest, close_gap, emuroot_ok, emuroot_err_nomem,
}

-- The entries in use, oldest first.
abbrev pub live : Ctx → List Binding
live c = take c.nbindings c.bindings

-- The array has its 128 places, and the entries in use are among them.
pub record IsValid (c : Ctx) : Type 0 where
  pub places : length c.bindings ≡ max_bindings
  pub used : c.nbindings ≤ max_bindings

take-set : {A : Type 0} (xs : List A) (n : ℕ) (v : A) → take n (set xs n v) ≡ take n xs
take-set [] n v = refl
take-set (x ∷ xs) zero v = refl
take-set (x ∷ xs) (suc n) v = ap (◌∷◌ x) (take-set xs n v)

take-set_end :
    {A : Type 0} (xs : List A) (n : ℕ) (v : A)
    → n < length xs
    → take (suc n) (set xs n v) ≡ take n xs ++ v ∷ []
take-set_end [] n v h = elim h [ ]
take-set_end (x ∷ xs) zero v h = refl
take-set_end (x ∷ xs) (suc n) v h = ap (◌∷◌ x) (take-set_end xs n v (omega arith))

-- The entry that a bind writes to the place at the end of the live ones.
abbrev bound : Ctx → List ℕ → List ℕ → Binding
bound c host guest = record (binding_at c c.nbindings) {
  host = host;
  guest = guest;
  guest_len = length guest;
}

bind_ok :
    (c : Ctx) (host guest : List ℕ)
    → (emuroot_bind c (some host) (some guest)).1 ≡ emuroot_ok
    → (c.nbindings < max_bindings)
      × (length host < path_len)
      × (length guest < path_len)
      × ((emuroot_bind c (some host) (some guest)).0 ≡ record c {
        bindings = set c.bindings c.nbindings (bound c host guest);
        nbindings = suc c.nbindings;
      })
unfolding emuroot_bind bind_paths copy_path
bind_ok c host guest h = ground arith

-- A bind succeeds exactly when there is a free place and both paths, with their NUL, fit their
-- buffers; when the table is full it answers EMUROOT_ERR_NOMEM, and whenever it fails the live
-- entries stay what they were.
pub bind_results :
    (c : Ctx) (host guest : List ℕ)
    → let r = emuroot_bind c (some host) (some guest) in
      ((r.1 ≡ emuroot_ok)
        ↔ ((c.nbindings < max_bindings) × (length host < path_len) × (length guest < path_len)))
      × (max_bindings ≤ c.nbindings → r.1 ≡ emuroot_err_nomem)
      × (r.1 ≢ emuroot_ok → live r.0 ≡ live c)
unfolding emuroot_bind bind_paths copy_path
bind_results c host guest = (
  (λ h. ground arith, λ h. ground arith),
  λ h. ground arith,
  λ h.
      ground (
        arith,
        take-set c.bindings c.nbindings (record (binding_at c c.nbindings) { host = host }),
      ),
)

-- A bind that succeeds adds its paths as the newest live entry, whatever the free place held before,
-- and changes no other entry.
pub live-bind :
    (c : Ctx) (host guest : List ℕ)
    → IsValid c
    → (emuroot_bind c (some host) (some guest)).1 ≡ emuroot_ok
    → (b : Binding) × (live (emuroot_bind c (some host) (some guest)).0 ≡ live c ++ b ∷ [])
      × (b.host ≡ host)
      × (b.guest ≡ guest)
      × (b.guest_len ≡ length guest)
live-bind c host guest v h =
    let (room, _, _, e) = bind_ok c host guest h in
    (
      bound c host guest,
      rw e (take-set_end c.bindings c.nbindings _ (rw v.places room)),
      refl,
      refl,
      refl,
    )

pub bind-IsValid :
    (c : Ctx) (host guest : List ℕ)
    → IsValid c
    → IsValid (emuroot_bind c (some host) (some guest)).0
unfolding emuroot_bind bind_paths copy_path
bind-IsValid c host guest v = ground (
  arith,
  length-set c.bindings c.nbindings (record (binding_at c c.nbindings) { host = host }),
  length-set c.bindings c.nbindings (bound c host guest),
)

-- No entry of the list is bound at `guest`.
abbrev pub NotBound : List ℕ → List Binding → Type 0
NotBound guest [] = Unit {0}
NotBound guest (b ∷ bs) = (b.guest ≢ guest) × NotBound guest bs

drop-nil : {A : Type 0} (n : ℕ) → drop {A = A} n [] ≡ []
drop-nil zero = refl
drop-nil (suc n) = refl

find_guest-some :
    (c : Ctx) (guest : List ℕ) (n i : ℕ)
    → find_guest c guest n ≡ some i
    → (i < n)
      × ((binding_at c i).guest ≡ guest)
      × ((j : ℕ) → i < j → j < n → (binding_at c j).guest ≢ guest)
unfolding find_guest
find_guest-some c guest zero i h = ground arith
find_guest-some c guest (suc n) i h = elim (Bool-cases (str_eq (binding_at c n).guest guest)) [
  | inl e ↦
      let p : n ≡ i = ground arith in
      (omega arith, rw (← p) (str_eq→eq _ guest e), λ j a b. absurd (omega arith))
  | inr e ↦
      let (low, same, later) = find_guest-some c guest n i (rw e at h) in
      (
        omega arith,
        same,
        λ j a b. elim (lt_suc_cases j n b) [
          | inl p ↦ rw p (str_ne _ guest e)
          | inr p ↦ later j a p
        ],
      )
]

find_guest-none :
    (c : Ctx) (guest : List ℕ) (n : ℕ)
    → find_guest c guest n ≡ none
    → (j : ℕ) → j < n
    → (binding_at c j).guest ≢ guest
unfolding find_guest
find_guest-none c guest zero h j l = ground arith
find_guest-none c guest (suc n) h j l = elim (Bool-cases (str_eq (binding_at c n).guest guest)) [
  | inl e ↦ let x : none ≡ some n = sym (rw e at h) in cc
  | inr e ↦ elim (lt_suc_cases j n l) [
    | inl p ↦ rw p (str_ne _ guest e)
    | inr p ↦ find_guest-none c guest n (rw e at h) j p
  ]
]

NotBound-slice :
    (guest : List ℕ) (k m : ℕ) (bs : List Binding)
    → ((j : ℕ) → m ≤ j → j < m + k → (get_or bs j no_binding).guest ≢ guest)
    → NotBound guest (take k (drop m bs))
NotBound-slice guest zero m bs h = tt
NotBound-slice guest (suc k) m [] h = rw drop-nil tt
NotBound-slice guest (suc k) zero (b ∷ bs) h = (
  h 0 (omega arith) (omega arith),
  NotBound-slice guest k 0 bs (λ j p q. h (suc j) (omega arith) (omega arith)),
)
NotBound-slice guest (suc k) (suc m) (b ∷ bs) h =
    NotBound-slice guest (suc k) m bs (λ j p q. h (suc j) (omega arith) (omega arith))

-- The live entries after the entry i is taken out.
take-close_gap :
    (bs : List Binding) (i n : ℕ)
    → i < n
    → n ≤ length bs
    → take (n - 1) (close_gap bs i n) ≡ take i bs ++ take (n - i - 1) (drop (suc i) bs)
unfolding close_gap
take-close_gap bs i n h l =
    let e : i + 1 ≡ suc i = omega arith in
    let kept = take i bs ++ take (n - i - 1) (drop (suc i) bs) in
    let size : n - 1 ≡ length kept = omega (
      arith,
      length-append (take i bs) (take (n - i - 1) (drop (suc i) bs)),
      length-take i bs,
      length-take (n - i - 1) (drop (suc i) bs),
      length-drop (suc i) bs,
    ) in
    rw e (take-append (n - 1) kept (drop (n - 1) bs) size)

-- An unbind that finds its path takes out the newest live entry of that path, and only that one,
-- keeping the order of the others; one that finds none, because no live entry has the path, changes
-- nothing.
pub live-unbind :
    (c : Ctx) (guest : List ℕ)
    → IsValid c
    → let r = emuroot_unbind c guest in
      ((r.1 ≡ false) × (r.0 ≡ c) × NotBound guest (live c))
      ⊎ ((before : List Binding) × (b : Binding) × (after : List Binding) × (r.1 ≡ true)
          × (live c ≡ before ++ b ∷ after)
          × (b.guest ≡ guest)
          × NotBound guest after
          × (live r.0 ≡ before ++ after))
unfolding emuroot_unbind
live-unbind c guest v = elim (Option-cases (find_guest c guest c.nbindings)) [
  | inl e ↦
      let none_live =
        NotBound-slice guest c.nbindings 0 c.bindings
          (λ j p q. find_guest-none c guest c.nbindings e j (omega arith)) in
      inl (rw (e, emuroot_unbind), rw (e, emuroot_unbind), none_live)
  | inr (i, e) ↦
      let (low, same, later) = find_guest-some c guest c.nbindings i e in
      let after = take (c.nbindings - i - 1) (drop (suc i) c.bindings) in
      let none_after =
        NotBound-slice guest (c.nbindings - i - 1) (suc i) c.bindings
          (λ j p q. later j (omega arith) (omega arith)) in
      inr (
        take i c.bindings,
        binding_at c i,
        after,
        rw (e, emuroot_unbind),
        take_around c.nbindings i c.bindings no_binding low (omega arith),
        same,
        none_after,
        rw (e, emuroot_unbind) (take-close_gap c.bindings i c.nbindings low (omega arith)),
      )
]

length-close_gap :
    (bs : List Binding) (i n : ℕ) → i < n → n ≤ length bs → length (close_gap bs i n) ≡ length bs
unfolding close_gap
length-close_gap bs i n h l = omega (
  arith,
  length-append (take i bs ++ take (n - i - 1) (drop (i + 1) bs)) (drop (n - 1) bs),
  length-append (take i bs) (take (n - i - 1) (drop (i + 1) bs)),
  length-take i bs,
  length-take (n - i - 1) (drop (i + 1) bs),
  length-drop (i + 1) bs,
  length-drop (n - 1) bs,
)

pub unbind-IsValid : (c : Ctx) (guest : List ℕ) → IsValid c → IsValid (emuroot_unbind c guest).0
unfolding emuroot_unbind
unbind-IsValid c guest v = elim (Option-cases (find_guest c guest c.nbindings)) [
  | inl e ↦ rw (e, emuroot_unbind) v
  | inr (i, e) ↦
      let (low, _, _) = find_guest-some c guest c.nbindings i e in
      let same = length-close_gap c.bindings i c.nbindings low (omega arith) in
      rw (e, emuroot_unbind) (record { places = same ∙ v.places; used = omega arith })
]

find_guest-bound :
    (c : Ctx) (host guest : List ℕ)
    → c.nbindings < length c.bindings
    → let d = record c {
      bindings = set c.bindings c.nbindings (bound c host guest);
      nbindings = suc c.nbindings;
    } in
      find_guest d guest (suc c.nbindings) ≡ some c.nbindings
unfolding find_guest
find_guest-bound c host guest room =
    rw (
      get_or-set_self c.bindings c.nbindings (bound c host guest) no_binding room,
      str_eq_refl guest,
    )

-- Unbinding the path of a bind that succeeded finds that new binding and gives back exactly the
-- entries that were live before the bind.
pub unbind-bind :
    (c : Ctx) (host guest : List ℕ)
    → IsValid c
    → (emuroot_bind c (some host) (some guest)).1 ≡ emuroot_ok
    → let r = emuroot_unbind (emuroot_bind c (some host) (some guest)).0 guest in
      (r.1 ≡ true) × (live r.0 ≡ live c)
unfolding emuroot_unbind
unbind-bind c host guest v h =
    let (low, _, _, e) = bind_ok c host guest h in
    let n = c.nbindings in
    let bs = set c.bindings n (bound c host guest) in
    let room : n < length c.bindings = omega arith in
    let gone : suc n - n - 1 ≡ 0 = omega arith in
    let rest : take (suc n - 1) (close_gap bs n (suc n)) ≡ take n c.bindings =
      take-close_gap bs n (suc n) (omega arith)
        (omega (arith, length-set c.bindings n (bound c host guest)))
      ∙ rw (gone, append-nil) (take-set c.bindings n (bound c host guest)) in
    rw e (rw (find_guest-bound c host guest room, emuroot_unbind) (refl, rest))
