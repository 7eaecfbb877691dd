-- ===== src/Ptrace/Examples.antt =====
-- A process 7 that makes a child 8, which is seen before the fork is.
use emuroot.Base.{if◌then◌else◌, ◌==◌, ℕ, ◌≡◌, refl, true, false, some, none, List, [], ◌∷◌, arith}
use emuroot.Context.{emuroot_create}
use emuroot.Tracee.{tracee_find, tracee_add, new_tracee}
use emuroot.Kernel.Sample.{sample, tracee, args_of}
use emuroot.Ptrace.{Engine, Info, Event, interrupted, exited, stopped, go, syscall_stop, turn, loop}
use emuroot.Ptrace.Table.{IsOnce, add-IsOnce}
use emuroot.Ptrace.Ends.{turn_exited}
use emuroot.Tracee.Fork.{tracee_of}
use emuroot.Ptrace.Rounds.{engine_of, loop-IsOnce}
use emuroot.Ptrace.Report.{report_seccomp_kill}

abbrev engine : Engine (List ℕ)
engine = record { world = []; ctx = emuroot_create; owners = none; loaders = []; tab = tracee ∷ [] }

abbrev at_stop : Info
at_stop = record {
  regs = some (record { nr = 1; sp = 131072; ret = 0; args = args_of 4096 });
  child = 8;
}

abbrev events : List Event
events =
    stopped 8 19 0 at_stop
    ∷ stopped 7 5 1 at_stop
    ∷ interrupted
    ∷ stopped 7 syscall_stop 0 at_stop
    ∷ exited 8 0
    ∷ []

engine-IsOnce : IsOnce engine.tab
engine-IsOnce i j li lj same = omega (arith, li, lj)

loop-IsOnce_example : IsOnce (engine_of (loop sample 7 false engine events)).tab
loop-IsOnce_example = loop-IsOnce sample 7 false engine events engine-IsOnce

-- The table with the child.
abbrev both : Engine (List ℕ)
both = record engine { tab = tracee_add engine.tab engine.ctx 8 none true }

missing : tracee_find engine.tab 8 ≡ none
unfolding tracee tracee_find
missing = refl

both-IsOnce : IsOnce both.tab
both-IsOnce = add-IsOnce engine.tab engine.ctx 8 none true missing engine-IsOnce

child_found : tracee_find both.tab 8 ≡ some 1
unfolding tracee tracee_find tracee_add new_tracee
child_found = refl

turn_exited_example :
    (e' : Engine (List ℕ)) × (turn sample 7 false both (exited 8 0) ≡ go e' none)
    × ((q : ℕ) → tracee_of e'.tab q ≡ (if 8 == q then none else tracee_of both.tab q))
turn_exited_example = turn_exited sample 7 false both 8 1 0 both-IsOnce child_found (omega arith)

-- A SIGSYS of a filter on a 64-bit machine, for call 439; the address of the call stands before.
abbrev sample_info : List ℕ
sample_info =
    31 ∷ 0 ∷ 0 ∷ 0 ∷ 0 ∷ 0 ∷ 0 ∷ 0 ∷ 1 ∷ 0 ∷ 0 ∷ 0 ∷ 0 ∷ 0 ∷ 0 ∷ 0 ∷ 9 ∷ 9 ∷ 9 ∷ 9 ∷ 9 ∷ 9 ∷ 9 ∷ 9
    ∷ 183 ∷ 1 ∷ 0 ∷ 0 ∷ []

reported : report_seccomp_kill 8 (some sample_info) ≡ some 439
unfolding report_seccomp_kill
reported = refl
