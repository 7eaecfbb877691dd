-- ===== src/Seccomp/Handled.antt =====
-- src/ptrace.c and src/seccomp.c: the filter that is made for the traced calls, and the calls that the
-- handlers have a part in.
use emuroot.Base.{
  ℕ, ◌%◌, ◌^◌, ◌<◌, ◌≡◌, refl, sym, ◌≢◌, ◌∙◌, ap, Bool, true, false, ◌&&◌, some, List, [], ◌∷◌,
  ◌==◌, ==_refl, ==_iff, ltb, length, arith, inl, inr, if◌then◌else◌, Bool-cases, Option-cases,
  &&-eq-true,
}
use emuroot.Syscalls.{Abi, Name, is_call, traced_syscalls, nr_execve, nr_execveat}
use emuroot.Syscalls.Index.{name_index}
use emuroot.Syscalls.Tables.{Elem, HasDistinctNumbers, length-traced_syscalls}
use emuroot.Syscalls.Traced.{IsHandled, by_execve, handled_traced, execveat_not_traced}
use emuroot.Seccomp.{Insn, Machine, emuroot_seccomp_trace, ret_trace, ret_allow}
use emuroot.Seccomp.Exact.{listed, verdict, seccomp_exact}

listed_of : (n : ℕ) (nrs : List ℕ) → n < 2 ^ 32 → Elem n nrs → listed nrs n ≡ true
unfolding listed
listed_of n [] l m = elim m [ ]
listed_of n (x ∷ nrs) l (inl e) =
    let small : x % 2 ^ 32 ≡ n = omega (arith, e) in rw (small, ==_refl n)
listed_of n (x ∷ nrs) l (inr m) = rw (listed_of n nrs l m) (ground arith)

Elem-ne-zero : (n : ℕ) (nrs : List ℕ) → Elem n nrs → length nrs ≢ 0
Elem-ne-zero n [] m = absurd m
Elem-ne-zero n (x ∷ nrs) m = omega arith

-- All numbers are 32-bit ones.
unfoldable pub all_small : List ℕ → Bool
all_small [] = true
all_small (x ∷ xs) = ltb x (2 ^ 32) && all_small xs

number_of-is_call :
    (abi : Abi) (name : Name) (n : ℕ) → is_call abi name n ≡ true → abi.number name ≡ some n
unfolding is_call
number_of-is_call abi name n h = elim (Option-cases (abi.number name)) [
  | inl e ↦ cc (rw (e, is_call) at h)
  | inr (m, e) ↦ e ∙ ap some (sym ((==_iff n m).0 (rw (e, is_call) at h)))
]

listed_not : (n : ℕ) (nrs : List ℕ) → all_small nrs ≡ true → ¬ Elem n nrs → listed nrs n ≡ false
unfolding listed all_small
listed_not n [] small out = refl
listed_not n (x ∷ nrs) small out =
    let (first, later) = &&-eq-true (ltb x (2 ^ 32)) (all_small nrs) small in
    let same : x % 2 ^ 32 ≡ x = ground (arith, first) in
    let rest = listed_not n nrs later (λ m. out (inr m)) in
    elim (Bool-cases (n == x)) [
      | inl e ↦ absurd (out (inl ((==_iff n x).0 e)))
      | inr apart ↦ rw (same, apart, rest) refl
    ]

execve_apart :
    (abi : Abi) (execve : ℕ)
    → HasDistinctNumbers abi
    → abi.number nr_execve ≡ some execve
    → is_call abi nr_execveat execve ≡ false
unfolding name_index
execve_apart abi execve distinct e = elim (Bool-cases (is_call abi nr_execveat execve)) [
  | inr other ↦ other
  | inl at ↦
      let same = distinct nr_execve nr_execveat execve e (number_of-is_call abi nr_execveat _ at) in
      let clash : name_index nr_execve ≡ name_index nr_execveat = ap name_index same in
      absurd (omega (arith, clash))
]

execve_traced :
    (abi : Abi) (execve : ℕ)
    → HasDistinctNumbers abi
    → abi.number nr_execve ≡ some execve
    → Elem execve (traced_syscalls abi)
unfolding is_call
execve_traced abi execve distinct e =
    let found : is_call abi nr_execve execve ≡ true = rw (e, is_call) (==_refl execve) in
    handled_traced abi execve (by_execve found) (execve_apart abi execve distinct e)

-- Of the system calls that the handlers look up or name, on a target that has execve and whose calls
-- have distinct numbers, 32-bit ones where they are traced, exactly execveat does not stop the process
-- in seccomp mode. The filter for the calls that the engine traces is made; it answers the number of
-- every other such call, under the target's architecture, with a stop, and the number of execveat,
-- whose path the entry handler would rewrite, with leave to run.
pub filter_stops_handled :
    (m : Machine) (abi : Abi) (audit_arch n execve : ℕ)
    → IsHandled abi n
    → abi.number nr_execve ≡ some execve
    → HasDistinctNumbers abi
    → all_small (traced_syscalls abi) ≡ true
    → n < 2 ^ 32
    → (prog : List Insn) × (emuroot_seccomp_trace audit_arch (traced_syscalls abi) ≡ some prog)
      × (m.exec (record { arch = audit_arch; nr = n }) 0 prog
          ≡ some (if is_call abi nr_execveat n then ret_allow else ret_trace))
filter_stops_handled m abi audit_arch n execve h has distinct small l =
    let nrs = traced_syscalls abi in
    let (prog, made, answer) =
      seccomp_exact m audit_arch nrs (record { arch = audit_arch; nr = n })
        (Elem-ne-zero execve nrs (execve_traced abi execve distinct has))
        (omega (arith, length-traced_syscalls abi)) in
    let verdict_of : verdict (audit_arch == audit_arch && listed nrs n)
        ≡ (if is_call abi nr_execveat n then ret_allow else ret_trace) =
      elim (Bool-cases (is_call abi nr_execveat n)) [
        | inl at ↦
            let out = execveat_not_traced abi n distinct (number_of-is_call abi nr_execveat n at) in
            rw (at, ==_refl audit_arch, listed_not n nrs small out) refl
        | inr other ↦
            rw (other, ==_refl audit_arch, listed_of n nrs l (handled_traced abi n h other)) refl
      ] in
    (prog, made, answer ∙ ap some verdict_of)
