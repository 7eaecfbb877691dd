-- ===== src/Regs/Mode/Tests.antt =====
-- A process of five registers' bytes, on a kernel with regsets or on an old one without them.
use emuroot.Base.{
  ℕ, ◌≤◌, ◌≡◌, refl, sym, ◌∙◌, ap, Bool, true, false, none, List, [], ◌∷◌, if◌then◌else◌, length,
  get_or, take, Bool-cases, inl, inr, arith,
}
use emuroot.Guest.Peek.{memcpy}
use emuroot.Regs.Mode.{
  undecided, regset, getregs, Reply, done, failed, Requests, IsLawful, mode_now, regs_get, regs_set,
}
use emuroot.Regs.Mode.Exchange.{regs_get_lem, regs_get-regs_set}

abbrev machine : Requests
machine = record {
  Thread = Bool × List ℕ;
  get_regset = λ t n. if t.0 then done (take n t.1) else failed 5;
  set_regset = λ t regs. if t.0 then done (t.0, memcpy t.1 0 regs 0 (length regs)) else failed 5;
  get_regs = λ t. done t.1;
  set_regs = λ t full. done (t.0, full);
  alive = λ t. true;
  has_regsets = λ t. t.0;
  user = λ t. t.1;
}

-- The process that a request has answered, or another one
abbrev process_of : Bool × List ℕ → Reply (Bool × List ℕ) → Bool × List ℕ
process_of t (done t') = t'
process_of t (failed err) = t

machine_regset :
    (t t' : Bool × List ℕ) (regs : List ℕ)
    → machine.set_regset t regs ≡ done t'
    → (t'.1 ≡ memcpy t.1 0 regs 0 (length regs)) × (t'.0 ≡ t.0)
machine_regset t t' regs h = elim (Bool-cases t.0) [
  | inl e ↦
      let k = ap (process_of t) (rw e at h) in
      (sym (ap (λ (p : Bool × List ℕ). p.1) k), sym (ap (λ (p : Bool × List ℕ). p.0) k) ∙ sym e)
  | inr e ↦ cc (rw e at h)
]

machine-IsLawful : IsLawful machine
machine-IsLawful = record {
  get_regset_lem = λ t n. refl;
  get_regs_lem = λ t. refl;
  set_regset_lem =
      λ t t' regs h l. ((machine_regset t t' regs h).0, refl, (machine_regset t t' regs h).1);
  set_regs_lem = λ t t' full h l.
      (sym (ap (λ r. (process_of t r).1) h), refl, sym (ap (λ r. (process_of t r).0) h));
}

abbrev thread : Bool → Bool × List ℕ
thread regsets = (regsets, 1 ∷ 2 ∷ 3 ∷ 4 ∷ 5 ∷ [])

regs_get_lem_example :
    let (mode', reply) = regs_get machine none undecided (thread false) (0 ∷ 0 ∷ 0 ∷ []) in
    (reply ≡ done (1 ∷ 2 ∷ 3 ∷ [])) × (true ≡ true → mode' ≡ regset → false ≡ true)
regs_get_lem_example =
    regs_get_lem machine machine-IsLawful none undecided (thread false) (0 ∷ 0 ∷ 0 ∷ [])
      (omega arith)

abbrev changed : List ℕ
changed = 7 ∷ 8 ∷ 9 ∷ 4 ∷ 5 ∷ []

regs_get-regs_set_example :
    ((regs_get machine none undecided (false, changed) (0 ∷ 0 ∷ 0 ∷ [])).1 ≡ done (7 ∷ 8 ∷ 9 ∷ []))
    × (length changed ≡ length (thread false).1)
    × ((i : ℕ) → 3 ≤ i → get_or changed i 0 ≡ get_or (thread false).1 i 0)
unfolding regs_set mode_now memcpy
regs_get-regs_set_example =
    regs_get-regs_set machine machine-IsLawful none getregs undecided (thread false)
      (false, changed) (7 ∷ 8 ∷ 9 ∷ []) (0 ∷ 0 ∷ 0 ∷ []) (omega arith) refl refl refl
