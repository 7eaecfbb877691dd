-- ===== src/Entry.antt =====
-- src/rewrite.c, emuroot_on_entry: a traced system call is about to run.
pub mod Frame
use emuroot.Base.{
  ℕ, zero, suc, ◌+◌, ◌-◌, ◌%◌, ◌^◌, Bool, true, false, not, ◌&&◌, Option, none, some, List, [],
  ◌==◌, if◌then◌else◌, ℤ, pos, negsuc,
}
use emuroot.Syscalls.{
  PathSyscall, is_call, nr_execve, nr_execveat, nr_bind, nr_connect, nr_sendto, emuroot_action_of,
  emuroot_find_path_syscall,
}
use emuroot.Kernel.{Kernel, Stop}
use emuroot.Rewrite.Paths.{rewrite_path_arg}
use emuroot.Rewrite.Sockets.{rewrite_sockaddr}
use emuroot.Identity.Notes.{follows, note_creation, emuroot_identity_entry}
use emuroot.Mounts.{emuroot_emulate_mounts}
use emuroot.Exec.Block.{emuroot_rewrite_exec}

abbrev pub scratch_margin : ℕ
scratch_margin = 512

abbrev pub is_zero : ℤ → Bool
is_zero (pos zero) = true
is_zero (pos (suc n)) = false
is_zero (negsuc n) = false

module _ {W : Type 0} (k : Kernel W) where
  -- What is forgotten of the last call and remembered of this one.
  unfoldable pub begin : Stop W → Stop W
  begin s =
      let below = (s.regs.sp + 2 ^ 64 - scratch_margin) % 2 ^ 64 in
      record s {
        t = record s.t {
          sysno = s.regs.nr;
          scratch_top = below - below % 16;
          proc_link = false;
          proc_link_exe = false;
          pending_exe = [];
          chown_valid = false;
          created = [];
          pending_root = [];
          mount_handled = false;
          args = s.regs.args;
        };
      }

  -- The part for a fake identity: the stop, and whether the call is emulated.
  unfoldable pub identity_part : Stop W → Stop W × Bool
  identity_part s =
      let action = emuroot_action_of k.abi s.regs.nr in
      if s.ctx.has_fake_ids
      then emuroot_emulate_mounts k (emuroot_identity_entry k s s.regs.nr action) s.regs.nr action
      else (s, false)

  -- A call of the path table.
  unfoldable pub rewrite_paths : Stop W → ℕ → PathSyscall → Stop W
  rewrite_paths s sysno d =
      let s1 = note_creation k s sysno d in
      let s2 = rewrite_path_arg k s1 sysno d.slot1 (follows k s1 d) 0 in
      rewrite_path_arg k s2 sysno d.slot2 false 1

  -- What follows the sockets.
  unfoldable pub path_part : Stop W → ℕ → Stop W
  path_part s sysno = elim (emuroot_find_path_syscall k.abi sysno) [
    | some d ↦ rewrite_paths s sysno d
    | none ↦
        if is_call k.abi nr_execve sysno
        then rewrite_path_arg k s sysno 1 true 0
        else if is_call k.abi nr_execveat sysno
        then rewrite_path_arg k s sysno 2 true 0
        else s
  ]

  -- What follows the mounts and execve.
  unfoldable pub rewrite_part : Stop W → ℕ → Stop W
  rewrite_part s sysno =
      if is_call k.abi nr_bind sysno
      then rewrite_sockaddr k s 2 3
      else if is_call k.abi nr_connect sysno
      then rewrite_sockaddr k s 2 3
      else if is_call k.abi nr_sendto sysno
      then rewrite_sockaddr k s 5 6
      else path_part s sysno

  -- The rest of a call that has not been emulated.
  unfoldable pub redirect : Stop W → ℕ → Stop W
  redirect s sysno =
      let (s', result) = emuroot_rewrite_exec k s 1 2 in
      if is_call k.abi nr_execve sysno
      then if is_zero result then rewrite_part s' sysno else s'
      else rewrite_part s sysno

  unfoldable pub emuroot_on_entry : Stop W → Stop W
  emuroot_on_entry s =
      let (s', emulated) = identity_part (begin s) in if emulated then s' else redirect s' s.regs.nr
