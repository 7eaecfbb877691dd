-- ===== src/Ptrace/Setup/Tests.antt =====
-- A first process 7 on a kernel before 3.8, and one on a kernel that cannot follow forks.
use emuroot.Base.{ℕ, ◌≡◌, refl, true, false, none, some, List, [], ◌∷◌, ◌++◌, leb, pos, negsuc}
use emuroot.Cstring.{str_eq}
use emuroot.Context.{emuroot_create}
use emuroot.Kernel.Sample.{sample, args_of}
use emuroot.Ptrace.{Info, Event, interrupted, exited, signaled, stopped, syscall_stop}
use emuroot.Ptrace.Prepare.{prepare, canonical_root, canonical, attach}
use emuroot.Ptrace.Setup.{
  Child, Host, child_answer, options, follows, mode_of, Run, trace, emuroot_run_ptrace,
}
use emuroot.Ptrace.Setup.Whole.{is_quiet, run_exited}

abbrev child : Child
child = record { traceme = true; same_parent = true; chdir = true; installs = false; writes = true }

-- The options that a kernel takes: all below the number
abbrev host : ℕ → Host
host below = record {
  realpath = λ path. none;
  supported = true;
  no_seccomp = false;
  no_exitkill = false;
  pipe = true;
  fork = some 7;
  child = child;
  sets_options = λ o. leb o below;
  opens_ids_file = true;
}

abbrev at_stop : Info
at_stop = record {
  regs = some (record { nr = 39; sp = 131072; ret = 0; args = args_of 4096 });
  child = 0;
}

abbrev before : List Event
before = stopped 7 syscall_stop 0 at_stop ∷ interrupted ∷ exited 8 1 ∷ signaled 9 11 ∷ []

run_exited_example :
    (r : Run (List ℕ)) × (emuroot_run_ptrace sample
        (host 255)
        []
        emuroot_create
        true
        true
        (some [])
        (before ++ (exited 7 3 ∷ []))
      ≡ some r)
    × (r.status ≡ pos 3)
unfolding follows options mode_of child_answer prepare canonical_root canonical attach is_quiet
    str_eq emuroot_create
run_exited_example =
    run_exited sample (host 255) [] emuroot_create true true (some []) 7 3 before [] refl refl refl
      refl (refl, (refl, (refl, (refl, tt))))

not_followed :
    emuroot_run_ptrace sample (host 0) [] emuroot_create true true (some []) []
    ≡ some (record { world = []; status = negsuc 2; killed = 7 ∷ []; owners = none; saved = none })
unfolding emuroot_run_ptrace trace follows options mode_of child_answer prepare canonical_root
    canonical attach str_eq emuroot_create
not_followed = refl
