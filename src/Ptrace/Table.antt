-- ===== src/Ptrace/Table.antt =====
-- src/ptrace.c: the table of traced processes has each process once.
use emuroot.Base.{
  ℕ, zero, suc, ◌+◌, ◌-◌, ◌<◌, ◌≡◌, refl, sym, ◌∙◌, ap, ◌≢◌, ◌⊎◌, inl, inr, Bool, true, false,
  Option, none, some, List, [], ◌∷◌, ◌++◌, ◌==◌, length, set, take, Bool-cases, Option-cases,
  ==_iff, arith, length-set, length-append, length-take, get_or-set_ne, get_or-set_self,
}
use emuroot.Context.{Ctx}
use emuroot.Tracee.{
  Tracee, zero_tracee, tracee_find, tracee_at, tracee_inherit, new_tracee, tracee_add,
  tracee_remove, fork_event,
}

abbrev pub pid_at : List Tracee → ℕ → ℕ
pid_at tab i = (tracee_at tab i).pid

-- No process stands in the table twice.
abbrev pub IsOnce : List Tracee → Type 0
IsOnce tab = (i j : ℕ) → i < length tab → j < length tab → pid_at tab i ≡ pid_at tab j → i ≡ j

pub pid_at-set :
    (tab : List Tracee) (i j : ℕ) (v : Tracee)
    → v.pid ≡ pid_at tab i
    → pid_at (set tab i v) j ≡ pid_at tab j
pid_at-set [] i j v e = refl
pid_at-set (t ∷ tab) zero zero v e = e
pid_at-set (t ∷ tab) zero (suc j) v e = refl
pid_at-set (t ∷ tab) (suc i) zero v e = refl
pid_at-set (t ∷ tab) (suc i) (suc j) v e = pid_at-set tab i j v e

-- A process that is changed where it stands.
pub set-IsOnce :
    (tab : List Tracee) (i : ℕ) (v : Tracee)
    → v.pid ≡ pid_at tab i
    → IsOnce tab
    → IsOnce (set tab i v)
set-IsOnce tab i v e once = λ a b la lb same.
    once a b (rw (length-set tab i v) at la) (rw (length-set tab i v) at lb)
      (sym (pid_at-set tab i a v e) ∙ same ∙ pid_at-set tab i b v e)

-- What is not found is nowhere.
pub find-none :
    (tab : List Tracee) (pid i : ℕ)
    → tracee_find tab pid ≡ none
    → i < length tab
    → pid_at tab i ≢ pid
unfolding tracee_find
find-none [] pid i e l = absurd (omega (arith, l))
find-none (t ∷ tab) pid zero e l = elim (Bool-cases (t.pid == pid)) [
  | inl h ↦ cc (rw h at e)
  | inr h ↦ λ same. cc (sym h ∙ (==_iff t.pid pid).1 same)
]
find-none (t ∷ tab) pid (suc i) e l = elim (Bool-cases (t.pid == pid)) [
  | inl h ↦ cc (rw h at e)
  | inr h ↦ elim (Option-cases (tracee_find tab pid)) [
    | inr (j, n) ↦ cc (rw (h, n, tracee_find) at e)
    | inl n ↦ find-none tab pid i n (omega (arith, l))
  ]
]

get_or-append_left :
    (tab : List Tracee) (v : Tracee) (i : ℕ)
    → i < length tab
    → tracee_at (tab ++ (v ∷ [])) i ≡ tracee_at tab i
get_or-append_left [] v i l = absurd (omega (arith, l))
get_or-append_left (t ∷ tab) v zero l = refl
get_or-append_left (t ∷ tab) v (suc i) l = get_or-append_left tab v i (omega (arith, l))

get_or-append_last : (tab : List Tracee) (v : Tracee) → tracee_at (tab ++ (v ∷ [])) (length tab) ≡ v
get_or-append_last [] v = refl
get_or-append_last (t ∷ tab) v = get_or-append_last tab v

-- A place of the longer table is one of the shorter, or the last.
place_cases :
    (tab : List Tracee) (v : Tracee) (i : ℕ)
    → i < length (tab ++ (v ∷ []))
    → ((i < length tab) × (tracee_at (tab ++ (v ∷ [])) i ≡ tracee_at tab i))
      ⊎ ((i ≡ length tab) × (tracee_at (tab ++ (v ∷ [])) i ≡ v))
place_cases tab v i l = elim (lt_or_eq i (length tab) (rw (length-append tab (v ∷ [])) at l)) [
  | inl s ↦ inl (s, get_or-append_left tab v i s)
  | inr e ↦ inr (e, rw e (get_or-append_last tab v))
]
  where
    lt_or_eq : (a n : ℕ) → a < n + 1 → (a < n) ⊎ (a ≡ n)
    lt_or_eq a n h = ground (arith, h)

pids : {t t' v v' : Tracee} → t ≡ v → t.pid ≡ t'.pid → t' ≡ v' → v.pid ≡ v'.pid
pids e same e' = ap (λ (t : Tracee). t.pid) (sym e) ∙ same ∙ ap (λ (t : Tracee). t.pid) e'

append-IsOnce :
    (tab : List Tracee) (v : Tracee)
    → tracee_find tab v.pid ≡ none
    → IsOnce tab
    → IsOnce (tab ++ (v ∷ []))
append-IsOnce tab v n once a b la lb same = elim (place_cases tab v a la) [
  | inl (sa, ea) ↦ elim (place_cases tab v b lb) [
    | inl (sb, eb) ↦ once a b sa sb (pids ea same eb)
    | inr (zb, eb) ↦ absurd (find-none tab v.pid a n sa (pids ea same eb))
  ]
  | inr (za, ea) ↦ elim (place_cases tab v b lb) [
    | inl (sb, eb) ↦ absurd (find-none tab v.pid b n sb (sym (pids ea same eb)))
    | inr (zb, eb) ↦ za ∙ sym zb
  ]
]

get_or-take : (tab : List Tracee) (n i : ℕ) → i < n → tracee_at (take n tab) i ≡ tracee_at tab i
get_or-take tab zero i l = absurd (omega (arith, l))
get_or-take [] (suc n) i l = refl
get_or-take (t ∷ tab) (suc n) zero l = refl
get_or-take (t ∷ tab) (suc n) (suc i) l = get_or-take tab n i (omega (arith, l))

-- Where what stands at a place of the shorter table comes from.
pub removed_cases :
    (tab : List Tracee) (i a : ℕ)
    → a < length tab - 1
    → (a ≢ i) × (tracee_at (tracee_remove tab i) a ≡ tracee_at tab a)
      ⊎ (a ≡ i) × (tracee_at (tracee_remove tab i) a ≡ tracee_at tab (length tab - 1))
unfolding tracee_remove
removed_cases tab i a l =
    let n = length tab - 1 in
    let last = tracee_at tab n in
    let shorter = get_or-take (set tab i last) n a l in
    elim (Bool-cases (i == a)) [
      | inl e ↦
          let same : i ≡ a = (==_iff i a).0 e in
          let here : tracee_at (set tab i last) i ≡ last =
            get_or-set_self tab i last zero_tracee (omega (arith, l, same)) in
          inr (sym same, shorter ∙ ap (tracee_at (set tab i last)) (sym same) ∙ here)
      | inr e ↦
          let apart : i ≢ a = λ q. cc (sym e ∙ (==_iff i a).1 q) in
          inl (λ q. apart (sym q), shorter ∙ get_or-set_ne tab i a last zero_tracee apart)
    ]

pub length-tracee_remove :
    (tab : List Tracee) (i : ℕ) → length (tracee_remove tab i) ≡ length tab - 1
unfolding tracee_remove
length-tracee_remove tab i =
    let n = length tab - 1 in
    let last = tracee_at tab n in
    omega (arith, length-take n (set tab i last), length-set tab i last)

pub length-remove :
    (tab : List Tracee) (i a : ℕ) → a < length (tracee_remove tab i) → a < length tab - 1
length-remove tab i a l = omega (arith, l, length-tracee_remove tab i)

pub remove-IsOnce : (tab : List Tracee) (i : ℕ) → IsOnce tab → IsOnce (tracee_remove tab i)
remove-IsOnce tab i once a b la lb same =
    let sa = length-remove tab i a la in
    let sb = length-remove tab i b lb in
    elim (removed_cases tab i a sa) [
      | inl (na, ea) ↦ elim (removed_cases tab i b sb) [
        | inl (nb, eb) ↦ once a b (omega (arith, sa)) (omega (arith, sb)) (pids ea same eb)
        | inr (zb, eb) ↦
            let z =
              once a (length tab - 1) (omega (arith, sa)) (omega (arith, sa)) (pids ea same eb) in
            absurd (omega (arith, sa, z))
      ]
      | inr (za, ea) ↦ elim (removed_cases tab i b sb) [
        | inl (nb, eb) ↦
            let z =
              once (length tab - 1) b (omega (arith, sb)) (omega (arith, sb)) (pids ea same eb) in
            absurd (omega (arith, sb, z))
        | inr (zb, eb) ↦ za ∙ sym zb
      ]
    ]

new_tracee-pid :
    (ctx : Ctx) (pid : ℕ) (parent : Option Tracee) → (new_tracee ctx pid parent).pid ≡ pid
unfolding new_tracee tracee_inherit
new_tracee-pid ctx pid none = refl
new_tracee-pid ctx pid (some p) = refl

pub add-IsOnce :
    (tab : List Tracee) (ctx : Ctx) (pid : ℕ) (parent : Option Tracee) (room : Bool)
    → tracee_find tab pid ≡ none
    → IsOnce tab
    → IsOnce (tracee_add tab ctx pid parent room)
unfolding tracee_add
add-IsOnce tab ctx pid parent true n once =
    append-IsOnce tab (new_tracee ctx pid parent) (rw (new_tracee-pid ctx pid parent) n) once
add-IsOnce tab ctx pid parent false n once = once

pub fork_event-IsOnce :
    (tab : List Tracee) (ctx : Ctx) (i child : ℕ) (room : Bool)
    → IsOnce tab
    → IsOnce (fork_event tab ctx i child room)
unfolding fork_event tracee_inherit
fork_event-IsOnce tab ctx i child room once = elim (Option-cases (tracee_find tab child)) [
  | inl n ↦ rw (n, fork_event) (add-IsOnce tab ctx child _ room n once)
  | inr (j, n) ↦ rw (n, fork_event) (set-IsOnce tab j _ refl once)
]
