-- ===== src/Seccomp/Exact.antt =====
-- src/seccomp.c: the calls at which the filter stops a process.
use emuroot.Base.{
  ℕ, suc, ◌+◌, ◌%◌, ◌^◌, ◌≤◌, ◌≡◌, refl, ◌∙◌, ap, ◌≢◌, inl, inr, Bool, false, ◌&&◌, ◌||◌, some,
  List, [], ◌∷◌, ◌++◌, ◌==◌, if◌then◌else◌, length, drop, Bool-cases, arith,
}
use emuroot.Seccomp.{
  Insn, load_nr, jeq, ret, Request, Machine, ret_allow, ret_trace, tests, program,
  emuroot_seccomp_trace,
}

-- `nr` is one of the numbers, taken to 32 bits.
unfoldable pub listed : List ℕ → ℕ → Bool
listed [] nr = false
listed (n ∷ nrs) nr = nr == n % 2 ^ 32 || listed nrs nr

abbrev pub verdict : Bool → ℕ
verdict b = if b then ret_trace else ret_allow

abbrev ending : List Insn
ending = ret ret_allow ∷ ret ret_trace ∷ []

length-tests : (nrs : List ℕ) → length (tests nrs) ≡ length nrs
unfolding tests
length-tests [] = refl
length-tests (n ∷ nrs) = ap suc (length-tests nrs)

drop_past :
    {A : Type 0} (xs : List A) (y : A) (ys : List A) → drop (length xs + 1) (xs ++ (y ∷ ys)) ≡ ys
drop_past [] y ys = refl
drop_past (x ∷ xs) y ys =
    let e : suc (length xs) + 1 ≡ suc (length xs + 1) = omega arith in rw e (drop_past xs y ys)

-- From a test that matches, the jump leads to the TRACE.
jump_trace :
    (nrs : List ℕ)
    → length nrs ≤ 250
    → drop ((length nrs + 1) % 2 ^ 8) (tests nrs ++ ending) ≡ ret ret_trace ∷ []
jump_trace nrs l =
    let e : (length nrs + 1) % 2 ^ 8 ≡ length (tests nrs) + 1 = omega (arith, length-tests nrs) in
    rw e (drop_past (tests nrs) (ret ret_allow) (ret ret_trace ∷ []))

exec-tests :
    (m : Machine) (d : Request) (nrs : List ℕ)
    → length nrs ≤ 250
    → m.exec d d.nr (tests nrs ++ ending) ≡ some (verdict (listed nrs d.nr))
unfolding tests listed
exec-tests m d [] l = m.on_ret d d.nr ret_allow _
exec-tests m d (n ∷ nrs) l =
    let first = m.on_jeq d d.nr (n % 2 ^ 32) ((length nrs + 1) % 2 ^ 8) 0 (tests nrs ++ ending) in
    let fewer : length nrs ≤ 250 = omega arith in
    elim (Bool-cases (d.nr == n % 2 ^ 32)) [
      | inl e ↦ rw (first, e) (rw (jump_trace nrs fewer) (m.on_ret d d.nr ret_trace []))
      | inr e ↦ rw (first, e) (exec-tests m d nrs fewer)
    ]

exec-program :
    (m : Machine) (audit_arch : ℕ) (nrs : List ℕ) (d : Request)
    → length nrs ≤ 250
    → m.exec d 0 (program audit_arch nrs) ≡ some (verdict (d.arch == audit_arch && listed nrs d.nr))
unfolding program
exec-program m audit_arch nrs d l =
    let rest = load_nr ∷ (tests nrs ++ ending) in
    let loaded = m.on_load_arch d 0 (jeq audit_arch 1 0 ∷ ret ret_allow ∷ rest) in
    let compared = m.on_jeq d d.arch audit_arch 1 0 (ret ret_allow ∷ rest) in
    elim (Bool-cases (d.arch == audit_arch)) [
      | inl e ↦
          loaded
          ∙ rw (compared, e) (m.on_load_nr d d.arch (tests nrs ++ ending) ∙ exec-tests m d nrs l)
      | inr e ↦ loaded ∙ rw (compared, e) (m.on_ret d d.arch ret_allow rest)
    ]

-- The filter stops a process exactly at the listed system calls (as 32-bit numbers) of the
-- architecture it is built for, and lets every other call run, on a machine that executes the four
-- instructions as documented; there is such a filter for every list of 1 to 250 numbers.
pub seccomp_exact :
    (m : Machine) (audit_arch : ℕ) (nrs : List ℕ) (d : Request)
    → length nrs ≢ 0
    → length nrs ≤ 250
    → (prog : List Insn) × (emuroot_seccomp_trace audit_arch nrs ≡ some prog)
      × (m.exec d 0 prog ≡ some (verdict (d.arch == audit_arch && listed nrs d.nr)))
unfolding emuroot_seccomp_trace
seccomp_exact m audit_arch nrs d n l =
    (program audit_arch nrs, ground arith, exec-program m audit_arch nrs d l)
