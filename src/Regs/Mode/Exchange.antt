-- ===== src/Regs/Mode/Exchange.antt =====
-- src/regs.c: what regs_get answers in each mode, and what regs_set changes.
use emuroot.Base.{
  ℕ, ◌≤◌, ◌≡◌, refl, ◌∙◌, sym, ap, subst, ◌≢◌, true, Bool-cases, Option, List, if◌then◌else◌,
  length, get_or, take, inl, inr, arith,
}
use emuroot.Guest.Peek.{memcpy}
use emuroot.Guest.Peek.Copy.{length-memcpy, get_or-memcpy, memcpy_all, take-memcpy}
use emuroot.Regs.Mode.{
  Mode, undecided, regset, getregs, Reply, done, failed, Requests, IsLawful, mode_now, get_whole,
  regs_get, regs_set,
}

module _ (R : Requests) (law : IsLawful R) (forced : Option (List ℕ)) where
  get_whole_lem :
      (t : R.Thread) (regs : List ℕ)
      → length regs ≤ length (R.user t)
      → get_whole R forced t regs
        ≡ (if R.alive t then done (take (length regs) (R.user t)) else failed 3)
  unfolding get_whole
  get_whole_lem t regs h = elim (Bool-cases (R.alive t)) [
    | inl e ↦ rw (law.get_regs_lem t, get_whole) (rw e (ap done (memcpy_all regs (R.user t) h)))
    | inr e ↦ rw (law.get_regs_lem t, get_whole) (rw e refl)
  ]

  abbrev Got : R.Thread → List ℕ → Mode × Reply (List ℕ) → Type 0
  Got t regs r =
      (r.1 ≡ (if R.alive t then done (take (length regs) (R.user t)) else failed 3))
      × (R.alive t ≡ true → r.0 ≡ regset → R.has_regsets t ≡ true)

  -- A struct no longer than the kernel's: regs_get answers the front of the kernel's struct for a
  -- process that is there and ESRCH for one that is not, whatever the mode before and whether or not
  -- the kernel has regsets. For a process that is there, the mode is PTRACE_GETREGSET afterwards only
  -- if the kernel has it.
  pub regs_get_lem :
      (mode : Mode) (t : R.Thread) (regs : List ℕ)
      → length regs ≤ length (R.user t)
      → let (mode', reply) = regs_get R forced mode t regs in
        (reply ≡ (if R.alive t then done (take (length regs) (R.user t)) else failed 3))
        × (R.alive t ≡ true → mode' ≡ regset → R.has_regsets t ≡ true)
  unfolding regs_get
  regs_get_lem mode t regs h = go (mode_now forced mode) refl
    where
      whole : (m : Mode) → m ≢ regset → Got t regs (m, get_whole R forced t regs)
      whole m other = (get_whole_lem t regs h, λ live e. absurd (other e))

      go : (m : Mode) → mode_now forced mode ≡ m → Got t regs (regs_get R forced mode t regs)
      go undecided e = subst (Got t regs) (sym (rw (e, regs_get) refl)) (whole undecided (λ q. cc))
      go getregs e = subst (Got t regs) (sym (rw (e, regs_get) refl)) (whole getregs (λ q. cc))
      go regset e = elim (Bool-cases (R.alive t)) [
        | inr dead ↦
            let asked : R.get_regset t (length regs) ≡ failed 3 =
              law.get_regset_lem t (length regs) ∙ rw dead in
            let r : regs_get R forced mode t regs ≡ (regset, failed 3) =
              rw (e, regs_get) (rw asked) in
            subst (Got t regs) (sym r) (rw dead, λ live q. cc)
        | inl live ↦ elim (Bool-cases (R.has_regsets t)) [
          | inl has ↦
              let asked : R.get_regset t (length regs) ≡ done (take (length regs) (R.user t)) =
                law.get_regset_lem t (length regs) ∙ rw (live, has) in
              let r : regs_get R forced mode t regs
                  ≡ (regset, done (take (length regs) (R.user t))) =
                rw (e, regs_get) (rw asked) in
              subst (Got t regs) (sym r) (rw live, λ l q. has)
          | inr has ↦
              let asked : R.get_regset t (length regs) ≡ failed 5 =
                law.get_regset_lem t (length regs) ∙ rw (live, has) in
              let r : regs_get R forced mode t regs ≡ (getregs, get_whole R forced t regs) =
                rw (e, regs_get) (rw asked) in
              subst (Got t regs) (sym r) (whole getregs (λ q. cc))
        ]
      ]

  abbrev Stored : R.Thread → List ℕ → Reply R.Thread → Type 0
  Stored t regs reply =
      (t' : R.Thread)
      → reply ≡ done t'
      → (R.user t' ≡ memcpy (R.user t) 0 regs 0 (length regs)) × (R.alive t' ≡ R.alive t)

  regs_set-Stored :
      (mode : Mode) (t : R.Thread) (regs : List ℕ)
      → length regs ≤ length (R.user t)
      → R.alive t ≡ true
      → Stored t regs (regs_set R forced mode t regs).1
  unfolding regs_set
  regs_set-Stored mode t regs h live = go (mode_now forced mode) refl
    where
      full : R.get_regs t ≡ done (R.user t)
      full = law.get_regs_lem t ∙ rw live

      whole : Stored t regs (R.set_regs t (memcpy (R.user t) 0 regs 0 (length regs)))
      whole t' e =
          let k =
            law.set_regs_lem t t' (memcpy (R.user t) 0 regs 0 (length regs)) e
              (length-memcpy (R.user t) 0 regs 0 (length regs)) in
          (k.0, k.1)

      go : (m : Mode) → mode_now forced mode ≡ m → Stored t regs (regs_set R forced mode t regs).1
      go undecided e =
          let q : (regs_set R forced mode t regs).1
              ≡ R.set_regs t (memcpy (R.user t) 0 regs 0 (length regs)) =
            rw (e, regs_set) (rw full) in
          subst (Stored t regs) (sym q) whole
      go getregs e =
          let q : (regs_set R forced mode t regs).1
              ≡ R.set_regs t (memcpy (R.user t) 0 regs 0 (length regs)) =
            rw (e, regs_set) (rw full) in
          subst (Stored t regs) (sym q) whole
      go regset e =
          let q : (regs_set R forced mode t regs).1 ≡ R.set_regset t regs = rw (e, regs_set) in
          subst (Stored t regs) (sym q)
            (λ t' s. let k = law.set_regset_lem t t' regs s h in (k.0, k.1))

  -- Where regs_set has stored a struct no longer than the kernel's, regs_get answers it, in whichever
  -- mode either call is and into whatever struct of its size, and the rest of the kernel's struct is
  -- as it was.
  pub regs_get-regs_set :
      (mode mode' : Mode) (t t' : R.Thread) (regs old : List ℕ)
      → length regs ≤ length (R.user t)
      → length old ≡ length regs
      → R.alive t ≡ true
      → (regs_set R forced mode t regs).1 ≡ done t'
      → ((regs_get R forced mode' t' old).1 ≡ done regs)
        × (length (R.user t') ≡ length (R.user t))
        × ((i : ℕ) → length regs ≤ i → get_or (R.user t') i 0 ≡ get_or (R.user t) i 0)
  regs_get-regs_set mode mode' t t' regs old h same live e =
      let s = regs_set-Stored mode t regs h live t' e in
      let sized : length (R.user t') ≡ length (R.user t) =
        ap length s.0 ∙ length-memcpy (R.user t) 0 regs 0 (length regs) in
      let got = (regs_get_lem mode' t' old (omega arith)).0 in
      let front : take (length old) (R.user t') ≡ regs =
        rw (same, s.0) (take-memcpy (R.user t) regs h) in
      (
        got ∙ rw (s.1, live) (ap done front),
        sized,
        λ i l.
            rw s.0 (get_or-memcpy (R.user t) 0 regs 0 (length regs) i (omega arith) ∙ ground arith),
      )
