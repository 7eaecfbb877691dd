-- ===== src/Tracee/Frame.antt =====
-- What the handlers of a stop leave of a tracee: who it is, and what the engine keeps of its stops.
use emuroot.Base.{ℕ, Bool}
use emuroot.Tracee.{Tracee}

-- The pid, and the state of the tracee's system call.
pub record Marks : Type 0 where
  pub pid : ℕ
  pub in_syscall : Bool
  pub awaiting_exit : Bool
  pub fresh : Bool
  pub last_entry : ℕ

abbrev pub marks : Tracee → Marks
marks t = record {
  pid = t.pid;
  in_syscall = t.in_syscall;
  awaiting_exit = t.awaiting_exit;
  fresh = t.fresh;
  last_entry = t.last_entry;
}
