-- ===== src/Seccomp/Examples.antt =====
-- A machine for the four instructions, and a filter for two system calls.
use emuroot.Base.{
  ℕ, zero, suc, ◌≡◌, refl, true, ◌&&◌, Option, none, some, List, [], ◌∷◌, ◌==◌, if◌then◌else◌, drop,
  arith,
}
use emuroot.Kernel.Sample.{target}
use emuroot.Syscalls.{
  traced_syscalls, is_call, path_syscalls, action_syscalls, defined_paths, defined_actions,
  path_entries, action_entries, defined_number,
}
use emuroot.Syscalls.Index.{name_index}
use emuroot.Syscalls.Traced.{by_execve}
use emuroot.Seccomp.Handled.{all_small, filter_stops_handled}
use emuroot.Syscalls.Examples.{target-HasDistinctNumbers}
use emuroot.Seccomp.{
  Insn, load_arch, load_nr, jeq, ret, Request, Machine, emuroot_seccomp_trace, ret_trace,
}
use emuroot.Seccomp.Exact.{listed, verdict, seccomp_exact}

-- Runs the instructions behind the first `skip`.
unfoldable run : Request → ℕ → ℕ → List Insn → Option ℕ
run d acc skip [] = none
run d acc (suc skip) (i ∷ rest) = run d acc skip rest
run d acc zero (load_arch ∷ rest) = run d d.arch 0 rest
run d acc zero (load_nr ∷ rest) = run d d.nr 0 rest
run d acc zero (jeq value jt jf ∷ rest) = run d acc (if acc == value then jt else jf) rest
run d acc zero (ret value ∷ rest) = some value

run-drop :
    (d : Request) (acc skip : ℕ) (rest : List Insn)
    → run d acc skip rest ≡ run d acc 0 (drop skip rest)
unfolding run
run-drop d acc zero rest = refl
run-drop d acc (suc skip) [] = refl
run-drop d acc (suc skip) (i ∷ rest) = run-drop d acc skip rest

unfoldable machine : Machine
unfolding run
machine = record {
  exec = λ d acc prog. run d acc 0 prog;
  on_load_arch = λ d acc rest. refl;
  on_load_nr = λ d acc rest. refl;
  on_jeq = λ d acc value jt jf rest. run-drop d acc _ rest;
  on_ret = λ d acc value rest. refl;
}

-- openat of x86-64, under a filter for open and openat
abbrev request : Request
request = record { arch = 0xC000003E; nr = 257 }

seccomp_exact_example :
    (prog : List Insn) × (emuroot_seccomp_trace 0xC000003E (2 ∷ 257 ∷ []) ≡ some prog)
    × (machine.exec request 0 prog
        ≡ some (verdict (request.arch == 0xC000003E && listed (2 ∷ 257 ∷ []) request.nr)))
seccomp_exact_example =
    seccomp_exact machine 0xC000003E (2 ∷ 257 ∷ []) request (omega arith) (omega arith)

-- Every call has a number below 2^32.
small_numbers : all_small (traced_syscalls target) ≡ true
unfolding all_small traced_syscalls path_syscalls action_syscalls defined_paths defined_actions
    path_entries action_entries defined_number name_index
small_numbers = refl

-- execve
filter_stops_handled_example :
    (prog : List Insn) × (emuroot_seccomp_trace 0xC000003E (traced_syscalls target) ≡ some prog)
    × (machine.exec (record { arch = 0xC000003E; nr = 96 }) 0 prog ≡ some ret_trace)
unfolding name_index is_call
filter_stops_handled_example =
    filter_stops_handled machine target 0xC000003E 96 96 (by_execve refl) refl
      target-HasDistinctNumbers small_numbers (omega arith)
