-- ===== src/Ptrace/Ends.antt =====
-- src/ptrace.c: a process that ends leaves the table, and no other does.
use emuroot.Base.{
  ℕ, ◌-◌, ◌<◌, ◌≡◌, refl, sym, ◌∙◌, ap, ◌≢◌, inl, inr, Bool, false, none, some, List, ◌==◌,
  if◌then◌else◌, length, Bool-cases, Option-cases, ==_iff, arith, pos,
}
use emuroot.Tracee.{Tracee, tracee_find, tracee_at, tracee_remove}
use emuroot.Tracee.Fork.{tracee_of, find-pid}
use emuroot.Kernel.{Kernel}
use emuroot.Ptrace.{Engine, exited, go, known, with_known, ended, turn}
use emuroot.Ptrace.Order.{known-found}
use emuroot.Ptrace.Table.{
  pid_at, IsOnce, find-none, removed_cases, length-remove, length-tracee_remove, remove-IsOnce,
}

-- A process that stands once is found where it stands.
find_self :
    (tab : List Tracee) (j : ℕ)
    → IsOnce tab
    → j < length tab
    → tracee_find tab (pid_at tab j) ≡ some j
find_self tab j once l = elim (Option-cases (tracee_find tab (pid_at tab j))) [
  | inl n ↦ absurd (find-none tab (pid_at tab j) j n l refl)
  | inr (i, n) ↦
      let (same, li) = find-pid tab (pid_at tab j) i n in n ∙ ap some (once i j li l same)
]

tracee_of-at :
    (tab : List Tracee) (j q : ℕ)
    → IsOnce tab
    → j < length tab
    → pid_at tab j ≡ q
    → tracee_of tab q ≡ some (tracee_at tab j)
unfolding tracee_of
tracee_of-at tab j q once l same = rw (sym same) (rw (find_self tab j once l, tracee_of) refl)

tracee_of-nowhere :
    (tab : List Tracee) (q : ℕ)
    → ((j : ℕ) → j < length tab → pid_at tab j ≢ q)
    → tracee_of tab q ≡ none
unfolding tracee_of
tracee_of-nowhere tab q nowhere = elim (Option-cases (tracee_find tab q)) [
  | inl n ↦ rw (n, tracee_of) refl
  | inr (j, n) ↦ let (same, l) = find-pid tab q j n in absurd (nowhere j l same)
]

-- What stands in the shorter table stood in the longer one, at another place than the one removed.
stood :
    (tab : List Tracee) (i a : ℕ)
    → i < length tab
    → a < length (tracee_remove tab i)
    → (j : ℕ) × (j < length tab) × (j ≢ i) × (tracee_at (tracee_remove tab i) a ≡ tracee_at tab j)
stood tab i a li la =
    let l = length-remove tab i a la in
    elim (removed_cases tab i a l) [
      | inl (apart, e) ↦ (a, omega (arith, l), apart, e)
      | inr (z, e) ↦ (length tab - 1, omega (arith, l), λ q. omega (arith, l, z, q), e)
    ]

-- And what stood at another place still stands.
stands :
    (tab : List Tracee) (i j : ℕ)
    → i < length tab
    → j < length tab
    → j ≢ i
    → (a : ℕ) × (a < length (tracee_remove tab i))
      × (tracee_at (tracee_remove tab i) a ≡ tracee_at tab j)
stands tab i j li lj apart =
    let kept = length-tracee_remove tab i in
    elim (Bool-cases (j == length tab - 1)) [
      | inl e ↦
          let last = (==_iff j (length tab - 1)).0 e in
          elim (removed_cases tab i i (omega (arith, li, lj, last, apart))) [
            | inl (other, _) ↦ absurd (other refl)
            | inr (_, here) ↦
                (i, omega (arith, li, lj, last, apart, kept), here ∙ ap (tracee_at tab) (sym last))
          ]
      | inr e ↦
          let inner : j ≢ length tab - 1 = λ q. cc (sym e ∙ (==_iff j (length tab - 1)).1 q) in
          elim (removed_cases tab i j (omega (arith, lj, inner))) [
            | inl (_, here) ↦ (j, omega (arith, lj, inner, kept), here)
            | inr (z, _) ↦ absurd (apart z)
          ]
    ]

-- Where a process is removed, it alone is no longer found.
tracee_remove_lem :
    (tab : List Tracee) (i q : ℕ)
    → IsOnce tab
    → i < length tab
    → tracee_of (tracee_remove tab i) q ≡ (if pid_at tab i == q then none else tracee_of tab q)
unfolding tracee_of
tracee_remove_lem tab i q once li = elim (Bool-cases (pid_at tab i == q)) [
  | inl e ↦ rw e (
      tracee_of-nowhere (tracee_remove tab i) q (λ a la same.
        let (j, lj, apart, here) = stood tab i a li la in
        apart
          (once j i lj li (ap (λ (t : Tracee). t.pid) (sym here) ∙ same ∙ sym ((==_iff _ q).0 e)))))
  | inr e ↦ rw e (elim (Option-cases (tracee_find tab q)) [
    | inl n ↦
        tracee_of-nowhere (tracee_remove tab i) q (λ a la same.
          let (j, lj, apart, here) = stood tab i a li la in
          find-none tab q j n lj (ap (λ (t : Tracee). t.pid) (sym here) ∙ same))
        ∙ sym (tracee_of-nowhere tab q (λ j lj. find-none tab q j n lj))
    | inr (j, n) ↦
        let (same, lj) = find-pid tab q j n in
        let apart : j ≢ i = λ z. cc (sym e ∙ (==_iff _ q).1 (ap (pid_at tab) (sym z) ∙ same)) in
        let (a, la, here) = stands tab i j li lj apart in
        tracee_of-at (tracee_remove tab i) a q (remove-IsOnce tab i once) la
          (ap (λ (t : Tracee). t.pid) here ∙ same)
        ∙ ap some here
        ∙ sym (tracee_of-at tab j q once lj same)
  ])
]

module _ {W : Type 0} (k : Kernel W) where
  -- Where each process stands once in the table, and a process of it exits that is not the first one:
  -- the loop goes on without it, and finds every other process as before, in the same state.
  pub turn_exited :
      (root_pid : ℕ) (mode : Bool) (e : Engine W) (pid i code : ℕ)
      → IsOnce e.tab
      → tracee_find e.tab pid ≡ some i
      → pid ≢ root_pid
      → (e' : Engine W) × (turn k root_pid mode e (exited pid code) ≡ go e' none)
        × ((q : ℕ) → tracee_of e'.tab q ≡ (if pid == q then none else tracee_of e.tab q))
  unfolding turn ended
  turn_exited root_pid mode e pid i code once n apart =
      let (same, l) = find-pid e.tab pid i n in
      let stays : known k e pid ≡ e = known-found k e pid i n in
      let found : tracee_find (known k e pid).tab pid ≡ some i = rw stays n in
      let other : (pid == root_pid) ≡ false = ground (arith, apart) in
      let round : with_known k e pid (λ e' j. ended k e' j root_pid pid (pos code))
          ≡ go (record e { tab = tracee_remove e.tab i }) none =
        rw (found, with_known) (rw stays (rw other refl)) in
      (_, round, λ q. rw (sym same) (tracee_remove_lem e.tab i q once l))
