-- ===== src/Tracee/Fork.antt =====
-- src/ptrace.c: what a forked child starts with.
use emuroot.Base.{
  ℕ, suc, ◌<◌, ◌≡◌, refl, sym, ◌≢◌, inl, inr, true, Option, none, some, List, [], ◌∷◌, ◌++◌, ◌==◌,
  if◌then◌else◌, length, set, Bool-cases, Option-cases, ==_iff, arith, some-injective,
}
use emuroot.Context.{Ctx}
use emuroot.Tracee.{
  Tracee, tracee_find, tracee_at, tracee_inherit, new_tracee, tracee_add, fork_event,
}

-- The tracee that tracee_find answers.
unfoldable pub tracee_of : List Tracee → ℕ → Option Tracee
tracee_of tab pid = elim (tracee_find tab pid) [ none ↦ none | some i ↦ some (tracee_at tab i) ]

tracee_of-cons :
    (t : Tracee) (tab : List Tracee) (q : ℕ)
    → tracee_of (t ∷ tab) q ≡ (if t.pid == q then some t else tracee_of tab q)
unfolding tracee_of tracee_find
tracee_of-cons t tab q = elim (Bool-cases (t.pid == q)) [
  | inl e ↦ rw (e, tracee_find, tracee_of) refl
  | inr e ↦ elim (Option-cases (tracee_find tab q)) [
    | inl n ↦ rw (e, n, tracee_find, tracee_of) refl
    | inr (i, n) ↦ rw (e, n, tracee_find, tracee_of) refl
  ]
]

pub find-pid :
    (tab : List Tracee) (q j : ℕ)
    → tracee_find tab q ≡ some j
    → ((tracee_at tab j).pid ≡ q) × (j < length tab)
unfolding tracee_find
find-pid [] q j e = cc e
find-pid (t ∷ tab) q j e = elim (Bool-cases (t.pid == q)) [
  | inl h ↦ let z : 0 ≡ j = some-injective (rw h at e) in rw (sym z) ((==_iff _ _).0 h, omega arith)
  | inr h ↦ elim (Option-cases (tracee_find tab q)) [
    | inl n ↦ cc (rw (h, n, tracee_find) at e)
    | inr (i, n) ↦
        let z : suc i ≡ j = some-injective (rw (h, n, tracee_find) at e) in
        let (p, l) = find-pid tab q i n in rw (sym z) (p, omega arith)
  ]
]

tracee_of-set :
    (tab : List Tracee) (j : ℕ) (v : Tracee) (q : ℕ)
    → tracee_find tab v.pid ≡ some j
    → tracee_of (set tab j v) q ≡ (if v.pid == q then some v else tracee_of tab q)
unfolding tracee_find
tracee_of-set [] j v q e = cc e
tracee_of-set (t ∷ tab) j v q e = elim (Bool-cases (t.pid == v.pid)) [
  | inl h ↦
      let z : 0 ≡ j = some-injective (rw h at e) in
      let same : t.pid ≡ v.pid = (==_iff _ _).0 h in
      rw (sym z) (rw (tracee_of-cons v tab q, tracee_of-cons t tab q, same) (ground arith))
  | inr h ↦ elim (Option-cases (tracee_find tab v.pid)) [
    | inl n ↦ cc (rw (h, n, tracee_find) at e)
    | inr (i, n) ↦
        let z : suc i ≡ j = some-injective (rw (h, n, tracee_find) at e) in
        let later = tracee_of-set tab i v q n in
        rw (sym z)
          (rw (tracee_of-cons t (set tab i v) q, tracee_of-cons t tab q, later) (ground arith))
  ]
]

tracee_of-append :
    (tab : List Tracee) (v : Tracee) (q : ℕ)
    → tracee_find tab v.pid ≡ none
    → tracee_of (tab ++ (v ∷ [])) q ≡ (if v.pid == q then some v else tracee_of tab q)
unfolding tracee_find
tracee_of-append [] v q e = rw (tracee_of-cons v [] q) refl
tracee_of-append (t ∷ tab) v q e = elim (Bool-cases (t.pid == v.pid)) [
  | inl h ↦ cc (rw h at e)
  | inr h ↦ elim (Option-cases (tracee_find tab v.pid)) [
    | inr (i, n) ↦ cc (rw (h, n, tracee_find) at e)
    | inl n ↦
        let later = tracee_of-append tab v q n in
        rw (tracee_of-cons t (tab ++ (v ∷ [])) q, tracee_of-cons t tab q, later) (ground arith)
  ]
]

new_pid : (ctx : Ctx) (child : ℕ) (t : Tracee) → (new_tracee ctx child (some t)).pid ≡ child
unfolding new_tracee
new_pid ctx child t = refl

Child : Tracee → ℕ → List Tracee → List Tracee → Type 0
Child t child tab tab' =
    ((c : Tracee) × (tracee_of tab' child ≡ some c)
      × (c.pid ≡ child)
      × (c.creds ≡ t.creds)
      × (c.exe ≡ t.exe)
      × (c.root ≡ t.root))
    × ((q : ℕ) → q ≢ child → tracee_of tab' q ≡ tracee_of tab q)

put-Child :
    (t v : Tracee) (child : ℕ) (tab tab' : List Tracee)
    → ((q : ℕ) → tracee_of tab' q ≡ (if v.pid == q then some v else tracee_of tab q))
    → v.pid ≡ child
    → (v.creds ≡ t.creds) × (v.exe ≡ t.exe) × (v.root ≡ t.root)
    → Child t child tab tab'
unfolding Child
put-Child t v child tab tab' at_q p same =
    let here : tracee_of tab' child ≡ some v = ground (arith, at_q child) in
    ((v, here, p, same.0, same.1, same.2), λ q apart. ground (arith, at_q q))

-- After a fork event of the tracee at `i`, when there is room, the child is found with its parent's
-- credentials, program and root, whether its initial stop was seen before the event or not, and every
-- other pid is found as before.
pub fork_inherits :
    (tab : List Tracee) (ctx : Ctx) (i child : ℕ)
    → let tab' = fork_event tab ctx i child true in
      let t = tracee_at tab i in
      ((c : Tracee) × (tracee_of tab' child ≡ some c)
        × (c.pid ≡ child)
        × (c.creds ≡ t.creds)
        × (c.exe ≡ t.exe)
        × (c.root ≡ t.root))
      × ((q : ℕ) → q ≢ child → tracee_of tab' q ≡ tracee_of tab q)
unfolding fork_event tracee_add tracee_inherit new_tracee Child
fork_inherits tab ctx i child = elim (Option-cases (tracee_find tab child)) [
  | inl n ↦
      let t = tracee_at tab i in
      let v = new_tracee ctx child (some t) in
      let p = new_pid ctx child t in
      let missing : tracee_find tab v.pid ≡ none = rw p n in
      rw (n, fork_event)
        (put-Child t v child tab (tab ++ (v ∷ [])) (λ q. tracee_of-append tab v q missing) p
          (refl, refl, refl))
  | inr (j, n) ↦
      let t = tracee_at tab i in
      let v = tracee_inherit (tracee_at tab j) t in
      let p : v.pid ≡ child = (find-pid tab child j n).0 in
      let there : tracee_find tab v.pid ≡ some j = rw p n in
      rw (n, fork_event)
        (put-Child t v child tab (set tab j v) (λ q. tracee_of-set tab j v q there) p
          (refl, refl, refl))
]
