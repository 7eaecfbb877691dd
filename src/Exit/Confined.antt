-- ===== src/Exit/Confined.antt =====
-- src/fake.c, emuroot_on_exit: what the handler as a whole does to a process's fake ids.
use emuroot.Base.{
  ℕ, ◌≡◌, refl, subst, false, List, [], Option-cases, inl, inr, if◌then◌else◌, arith, Bool, true,
  length, ◌==◌,
}
use emuroot.Kernel.{Kernel, Stop, StatLayout}
use emuroot.Creds.{Creds}
use emuroot.Creds.Calls.{Call, run}
use emuroot.Creds.Confine.{Confined, HasDropped, run-Confined}
use emuroot.Syscalls.{
  Action, emuroot_action_of, a_getcwd, a_execve, a_chroot, a_mount, a_umount, a_readlink, a_uname,
  a_chown, a_stat_2, a_stat_3, a_statx,
}
use emuroot.Exit.Owner.{fake_owner, map_proc_link, statx_layout}
use emuroot.Exit.Effects.{exit_creds-run}
use emuroot.Exit.{to_long}
use emuroot.Exit.Handler.{
  note_created, exit_getcwd, exit_uname, exit_chown, exit_call, exit_ids, exit_action,
  emuroot_on_exit,
}

module _ {W : Type 0} (k : Kernel W) where
  -- The fake ids are those that credential calls make of the ones before.
  Runs : Creds → Stop W → Type 0
  Runs c s = (ks : List Call) × (s.t.creds ≡ run c ks)

  -- The fake ids are as they were.
  stays : (c : Creds) (s : Stop W) → s.t.creds ≡ c → Runs c s
  unfolding Runs run
  stays c s e = ([], e)

  fake_owner-creds :
      (s : Stop W) (buf : ℕ) (l : StatLayout) → (fake_owner k s buf l).t.creds ≡ s.t.creds
  unfolding fake_owner
  fake_owner-creds s buf l = ground arith

  map_proc_link-creds : (s : Stop W) (len : ℕ) → (map_proc_link k s len).t.creds ≡ s.t.creds
  unfolding map_proc_link
  map_proc_link-creds s len = ground arith

  note_created-creds : (s : Stop W) → (note_created k s).t.creds ≡ s.t.creds
  unfolding note_created
  note_created-creds s = ground arith

  exit_getcwd-creds : (s : Stop W) → (exit_getcwd k s).t.creds ≡ s.t.creds
  unfolding exit_getcwd
  exit_getcwd-creds s = ground arith

  exit_uname-creds : (s : Stop W) → (exit_uname k s).t.creds ≡ s.t.creds
  unfolding exit_uname
  exit_uname-creds s = ground arith

  exit_chown-creds : (s : Stop W) → (exit_chown k s).t.creds ≡ s.t.creds
  unfolding exit_chown
  exit_chown-creds s = ground arith

  exit_call-Runs : (s : Stop W) (action : Action) → Runs s.t.creds (exit_call k s action)
  unfolding exit_call Runs
  exit_call-Runs s action = exit_creds-run _ s.t.creds action s.t.args (to_long s.regs.ret)

  exit_ids-Runs : (s : Stop W) (action : Action) → Runs s.t.creds (exit_ids k s action)
  unfolding exit_ids
  exit_ids-Runs s a_chown = stays _ _ (exit_chown-creds s)
  exit_ids-Runs s a_stat_2 =
      stays _ _ (ground (arith, fake_owner-creds s s.t.args.arg2 k.stat_layout))
  exit_ids-Runs s a_stat_3 =
      stays _ _ (ground (arith, fake_owner-creds s s.t.args.arg3 k.stat_layout))
  exit_ids-Runs s a_statx =
      stays _ _ (ground (arith, fake_owner-creds s s.t.args.arg5 statx_layout))
  exit_ids-Runs s action = exit_call-Runs s action

  either-Runs :
      (c : Creds) (b : Bool) (s s' : Stop W) → Runs c s → Runs c s' → Runs c (if b then s else s')
  either-Runs c true s s' p q = p
  either-Runs c false s s' p q = q

  -- The switch for a fake identity, where there is one.
  ids-Runs :
      (s : Stop W) (action : Action)
      → Runs s.t.creds (if s.ctx.has_fake_ids then exit_ids k s action else s)
  ids-Runs s action =
      either-Runs s.t.creds s.ctx.has_fake_ids _ _ (exit_ids-Runs s action) (stays _ s refl)

  exit_action-Runs : (s : Stop W) (action : Action) → Runs s.t.creds (exit_action k s action)
  unfolding exit_action
  exit_action-Runs s a_getcwd = stays _ _ (exit_getcwd-creds s)
  exit_action-Runs s a_execve = stays _ _ (ground arith)
  exit_action-Runs s a_chroot =
      either-Runs s.t.creds (length s.t.pending_root == 0) _ _ (ids-Runs s a_chroot)
        (stays _ _ refl)
  exit_action-Runs s a_mount =
      either-Runs s.t.creds s.t.mount_handled _ _ (stays _ _ refl) (ids-Runs s a_mount)
  exit_action-Runs s a_umount =
      either-Runs s.t.creds s.t.mount_handled _ _ (stays _ _ refl) (ids-Runs s a_umount)
  exit_action-Runs s a_readlink = stays _ _ (ground (arith, map_proc_link-creds s s.regs.ret))
  exit_action-Runs s a_uname = stays _ _ (exit_uname-creds s)
  exit_action-Runs s action = ids-Runs s action

  on_exit-Runs : (s : Stop W) → Runs s.t.creds (emuroot_on_exit k s)
  unfolding emuroot_on_exit
  on_exit-Runs s =
      let s1 : Stop W = record s { t = record s.t { logged = false } } in
      let s' = note_created k s1 in
      let noted : s'.t.creds ≡ s.t.creds = note_created-creds s1 in
      elim (Option-cases (emuroot_action_of k.abi s'.t.sysno)) [
        | inl n ↦ rw (n, emuroot_on_exit) (stays _ _ noted)
        | inr (action, n) ↦
            rw (n, emuroot_on_exit)
              (subst (λ c. Runs c (exit_action k s' action)) noted (exit_action-Runs s' action))
      ]

  -- Whatever system call of a process returns, with whatever result, arguments and memory, and with or
  -- without a fake identity, a process none of whose real, effective and saved user ids is 0 keeps to
  -- the ids it has over the whole exit handler: each user and group id after it is one of the three
  -- before it, a file-system id is one of these or unchanged, its groups stay, and no user id becomes 0.
  pub on_exit-Confined :
      (s : Stop W)
      → HasDropped s.t.creds
      → let after = (emuroot_on_exit k s).t.creds in Confined s.t.creds after × HasDropped after
  unfolding Runs
  on_exit-Confined s d = let (ks, e) = on_exit-Runs s in rw e (run-Confined s.t.creds ks d)
