-- ===== src/Ptrace/Fast.antt =====
-- src/ptrace.c: a handled system call in seccomp mode, from the stop at its entry to the one at its exit.
use emuroot.Base.{ℕ, true, false, Option}
use emuroot.Tracee.{Tracee}
use emuroot.Kernel.{Kernel, Registers}
use emuroot.Entry.{emuroot_on_entry}
use emuroot.Exit.Handler.{emuroot_on_exit}
use emuroot.Ptrace.{Engine, handle, awaiting, update}

module _ {W : Type 0} (k : Kernel W) where
  abbrev at_entry : Engine W → ℕ → Option Registers → Engine W
  at_entry e i regs = update k (handle k (emuroot_on_entry k) e i regs).0 i (awaiting k true)

  abbrev at_exit : Engine W → ℕ → Option Registers → Engine W
  at_exit e i regs = update k (handle k (emuroot_on_exit k) e i regs).0 i (awaiting k false)
