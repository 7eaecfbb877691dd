-- ===== src/Exit/Examples.antt =====
-- A process that has dropped root's ids and asks for them again.
use emuroot.Base.{ℕ, true, replicate, List, arith}
use emuroot.Creds.{Creds}
use emuroot.Creds.Confine.{Confined, HasDropped}
use emuroot.Context.{emuroot_create}
use emuroot.Syscalls.{nr_setresuid}
use emuroot.Syscalls.Index.{name_index}
use emuroot.Kernel.{Stop}
use emuroot.Kernel.Sample.{sample, tracee, at_call, args_of}
use emuroot.Exit.Handler.{emuroot_on_exit}
use emuroot.Exit.Confined.{on_exit-Confined}

abbrev user : Creds
user = record {
  uid = record { real = 1000; effective = 1000; saved = 1001 };
  gid = record { real = 100; effective = 100; saved = 100 };
  fsuid = 1000;
  fsgid = 100;
  groups = replicate 32 0;
  ngroups = 1;
}

-- The exit of setresuid(0, 0, 0) from such a process, where ids are faked
abbrev asking : Stop (List ℕ)
asking =
    let s = at_call 0 0 in
    record s {
      ctx = record emuroot_create { has_fake_ids = true };
      t = record tracee { creds = user; sysno = name_index nr_setresuid; args = args_of 0 };
    }

on_exit-Confined_example :
    let after = (emuroot_on_exit sample asking).t.creds in Confined user after × HasDropped after
on_exit-Confined_example =
    on_exit-Confined sample asking
      (record { real = omega arith; effective = omega arith; saved = omega arith })
