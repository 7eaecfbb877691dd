-- ===== src/Exit/Frame.antt =====
-- src/fake.c: the exit handler leaves the marks of the tracee.
use emuroot.Base.{ℕ, refl, ◌∙◌, false, List, [], ◌∷◌, Option-cases, inl, inr, if◌then◌else◌, arith}
use emuroot.Kernel.{Kernel, Stop, StatLayout}
use emuroot.Syscalls.{
  Action, emuroot_action_of, a_getcwd, a_execve, a_chroot, a_mount, a_umount, a_readlink, a_uname,
  a_chown, a_stat_2, a_stat_3, a_statx,
}
use emuroot.Rewrite.Frame.{Keeps}
use emuroot.Exit.Owner.{write_to, fake_owner, map_proc_link, statx_layout}
use emuroot.Exit.Handler.{
  note_created, exit_getcwd, exit_uname, exit_chown, write_runs, exit_call, exit_ids, exit_action,
  emuroot_on_exit,
}

module _ {W : Type 0} (k : Kernel W) where
  write_to-Keeps : (s : Stop W) (addr : ℕ) (text : List ℕ) → Keeps s (write_to k s addr text).0
  write_to-Keeps s addr text = refl

  fake_owner-Keeps : (s : Stop W) (buf : ℕ) (l : StatLayout) → Keeps s (fake_owner k s buf l)
  unfolding fake_owner
  fake_owner-Keeps s buf l = ground arith

  map_proc_link-Keeps : (s : Stop W) (len : ℕ) → Keeps s (map_proc_link k s len)
  unfolding map_proc_link
  map_proc_link-Keeps s len = ground arith

  note_created-Keeps : (s : Stop W) → Keeps s (note_created k s)
  unfolding note_created
  note_created-Keeps s = ground arith

  exit_getcwd-Keeps : (s : Stop W) → Keeps s (exit_getcwd k s)
  unfolding exit_getcwd
  exit_getcwd-Keeps s = ground arith

  exit_uname-Keeps : (s : Stop W) → Keeps s (exit_uname k s)
  unfolding exit_uname
  exit_uname-Keeps s = ground arith

  exit_chown-Keeps : (s : Stop W) → Keeps s (exit_chown k s)
  unfolding exit_chown
  exit_chown-Keeps s = ground arith

  write_runs-Keeps : (runs : List (ℕ × List ℕ)) (s : Stop W) → Keeps s (write_runs k s runs)
  unfolding write_runs
  write_runs-Keeps [] s = refl
  write_runs-Keeps ((addr, ids) ∷ runs) s = write_runs-Keeps runs _

  exit_call-Keeps : (s : Stop W) (action : Action) → Keeps s (exit_call k s action)
  unfolding exit_call
  exit_call-Keeps s action = write_runs-Keeps _ s

  exit_ids-Keeps : (s : Stop W) (action : Action) → Keeps s (exit_ids k s action)
  unfolding exit_ids
  exit_ids-Keeps s a_chown = exit_chown-Keeps s
  exit_ids-Keeps s a_stat_2 = ground (arith, fake_owner-Keeps s s.t.args.arg2 k.stat_layout)
  exit_ids-Keeps s a_stat_3 = ground (arith, fake_owner-Keeps s s.t.args.arg3 k.stat_layout)
  exit_ids-Keeps s a_statx = ground (arith, fake_owner-Keeps s s.t.args.arg5 statx_layout)
  exit_ids-Keeps s action = exit_call-Keeps s action

  -- The switch for a fake identity, where there is one.
  ids-Keeps :
      (s : Stop W) (action : Action)
      → Keeps s (if s.ctx.has_fake_ids then exit_ids k s action else s)
  ids-Keeps s action = ground (arith, exit_ids-Keeps s action)

  exit_action-Keeps : (s : Stop W) (action : Action) → Keeps s (exit_action k s action)
  unfolding exit_action
  exit_action-Keeps s a_getcwd = exit_getcwd-Keeps s
  exit_action-Keeps s a_execve = ground arith
  exit_action-Keeps s a_chroot = ground (arith, ids-Keeps s a_chroot)
  exit_action-Keeps s a_mount = ground (arith, ids-Keeps s a_mount)
  exit_action-Keeps s a_umount = ground (arith, ids-Keeps s a_umount)
  exit_action-Keeps s a_readlink = ground (arith, map_proc_link-Keeps s s.regs.ret)
  exit_action-Keeps s a_uname = exit_uname-Keeps s
  exit_action-Keeps s action = ids-Keeps s action

  pub on_exit-Keeps : (s : Stop W) → Keeps s (emuroot_on_exit k s)
  unfolding emuroot_on_exit
  on_exit-Keeps s =
      let s1 : Stop W = record s { t = record s.t { logged = false } } in
      let s' = note_created k s1 in
      let noted = note_created-Keeps s1 in
      elim (Option-cases (emuroot_action_of k.abi s'.t.sysno)) [
        | inl n ↦ rw (n, emuroot_on_exit) noted
        | inr (action, n) ↦ rw (n, emuroot_on_exit) (exit_action-Keeps s' action ∙ noted)
      ]
