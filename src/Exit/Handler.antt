-- ===== src/Exit/Handler.antt =====
-- src/fake.c, emuroot_on_exit: a traced system call has just run.
use emuroot.Base.{
  ℕ, zero, suc, ◌+◌, ◌-◌, ◌*◌, ◌%◌, ◌^◌, Bool, false, not, ◌&&◌, ◌||◌, Option, none, some, List, [],
  ◌∷◌, ◌++◌, ◌==◌, if◌then◌else◌, length, take, drop, ℤ, pos, negsuc, is_negative,
}
use emuroot.Context.{path_len}
use emuroot.Creds.{noid, eperm, einval}
use emuroot.Path.{host_to_guest}
use emuroot.Syscalls.{
  Action, emuroot_action_of, a_getcwd, a_execve, a_chroot, a_mount, a_umount, a_readlink, a_uname,
  a_chown, a_stat_2, a_stat_3, a_statx,
}
use emuroot.Ownership.{emuroot_owner_set}
use emuroot.Kernel.{Kernel, Stop, le, le_bytes}
use emuroot.Rewrite.Paths.{arg_of, text_at}
use emuroot.Exit.{to_long, exit_creds}
use emuroot.Exit.Owner.{write_to, set_ret, fake_owner, map_proc_link, statx_layout}

-- `(unsigned long)result`
unfoldable pub to_ulong : ℤ → ℕ
to_ulong (pos n) = n % 2 ^ 64
to_ulong (negsuc n) = 2 ^ 64 - (n + 1)

abbrev is_zero_ret : ℕ → Bool
is_zero_ret ret = ret == 0

-- `ret == -EPERM || ret == -EINVAL`
unfoldable pub refused_chown : ℕ → Bool
refused_chown ret = ret == 2 ^ 64 - eperm || ret == 2 ^ 64 - einval

abbrev pub utsname_size : ℕ
utsname_size = 390

-- snprintf into a field of a structure: what is behind the NUL stays.
unfoldable pub set_field : List ℕ → ℕ → List ℕ → List ℕ
set_field u at text = take at u ++ text ++ (0 ∷ drop (at + length text + 1) u)

-- The ids in four bytes each.
unfoldable pub ids_in : ℕ → List ℕ → List ℕ
ids_in zero bytes = []
ids_in (suc n) bytes = le (take 4 bytes) ∷ ids_in n (drop 4 bytes)

unfoldable pub id_bytes : List ℕ → List ℕ
id_bytes [] = []
id_bytes (i ∷ ids) = le_bytes 4 i ++ id_bytes ids

module _ {W : Type 0} (k : Kernel W) where
  -- The owner of a file that the call has made.
  unfoldable pub note_created : Stop W → Stop W
  note_created s =
      let done = record s { t = record s.t { created = [] } } in
      if length s.t.created == 0
      then s
      else if is_negative (to_long s.regs.ret)
      then done
      else elim (k.lstat s.world s.t.created) [
        | none ↦ done
        | some f ↦ record done {
          owners =
              emuroot_owner_set s.owners k.fresh k.room f.dev f.ino s.t.creds.fsuid s.t.creds.fsgid;
        }
      ]

  -- `ret <= 0`
  abbrev no_bytes : Stop W → Bool
  no_bytes s = s.regs.ret == 0 || is_negative (to_long s.regs.ret)

  unfoldable pub exit_getcwd : Stop W → Stop W
  exit_getcwd s =
      let buf = arg_of k s 1 in
      if no_bytes s then s else elim (text_at k s buf path_len) [
        | none ↦ s
        | some cwd ↦ elim (host_to_guest s.ctx s.t.root cwd path_len) [
          | none ↦ s
          | some guest ↦
              let (s', done) = write_to k s buf (guest ++ (0 ∷ [])) in
              if done then set_ret k s' (length guest + 1) else s'
        ]
      ]

  unfoldable pub exit_uname : Stop W → Stop W
  exit_uname s =
      let buf = arg_of k s 1 in
      let u = k.read s.world s.t.pid buf utsname_size in
      let u1 = set_field u 0 s.ctx.uname_sysname in
      let u2 = set_field u1 130 s.ctx.uname_release in
      let u3 = set_field u2 260 s.ctx.uname_machine in
      if not s.ctx.has_fake_uname || not (s.regs.ret == 0) || not (length u == utsname_size)
      then s
      else (write_to k s buf u3).0

  -- The owner that a chown is remembered by, and the success that the guest is told.
  unfoldable pub exit_chown : Stop W → Stop W
  exit_chown s =
      let uid = if s.t.chown_uid == noid then s.t.chown_cur_uid else s.t.chown_uid in
      let gid = if s.t.chown_gid == noid then s.t.chown_cur_gid else s.t.chown_gid in
      let ret = s.regs.ret in
      let s' =
        if s.t.chown_valid && (ret == 0 || refused_chown ret)
        then record s {
          owners = emuroot_owner_set s.owners k.fresh k.room s.t.chown_dev s.t.chown_ino uid gid;
        }
        else s in
      if refused_chown ret then set_ret k s' 0 else s'

  -- What guest_read fills an array of n ids with.
  abbrev ids_at : Stop W → ℕ → ℕ → Option (List ℕ)
  ids_at s addr n =
      let got = k.read s.world s.t.pid addr (n * 4) in
      if length got == n * 4 then some (ids_in n got) else none

  unfoldable pub write_runs : Stop W → List (ℕ × List ℕ) → Stop W
  write_runs s [] = s
  write_runs s ((addr, ids) ∷ runs) = write_runs (write_to k s addr (id_bytes ids)).0 runs

  -- A credential call, or any other that keeps its result.
  unfoldable pub exit_call : Stop W → Action → Stop W
  exit_call s action =
      let seen = exit_creds (ids_at s) s.t.creds action s.t.args (to_long s.regs.ret) in
      let s' = write_runs s seen.writes in
      set_ret k (record s' { t = record s'.t { creds = seen.creds } }) (to_ulong seen.result)

  -- The switch, for a fake identity.
  unfoldable pub exit_ids : Stop W → Action → Stop W
  exit_ids s a_chown = exit_chown s
  exit_ids s a_stat_2 = if s.regs.ret == 0 then fake_owner k s s.t.args.arg2 k.stat_layout else s
  exit_ids s a_stat_3 = if s.regs.ret == 0 then fake_owner k s s.t.args.arg3 k.stat_layout else s
  exit_ids s a_statx = if s.regs.ret == 0 then fake_owner k s s.t.args.arg5 statx_layout else s
  exit_ids s action = exit_call s action

  abbrev with_ids : Stop W → Action → Stop W
  with_ids s action = if s.ctx.has_fake_ids then exit_ids s action else s

  unfoldable pub exit_action : Stop W → Action → Stop W
  exit_action s a_getcwd = exit_getcwd s
  exit_action s a_execve =
      if s.regs.ret == 0 then record s { t = record s.t { exe = s.t.pending_exe } } else s
  exit_action s a_chroot =
      if length s.t.pending_root == 0
      then with_ids s a_chroot
      else set_ret k (record s { t = record s.t { root = s.t.pending_root; pending_root = [] } }) 0
  exit_action s a_mount = if s.t.mount_handled then set_ret k s 0 else with_ids s a_mount
  exit_action s a_umount = if s.t.mount_handled then set_ret k s 0 else with_ids s a_umount
  exit_action s a_readlink =
      if not s.t.proc_link || no_bytes s then s else map_proc_link k s s.regs.ret
  exit_action s a_uname = exit_uname s
  exit_action s action = with_ids s action

  unfoldable pub emuroot_on_exit : Stop W → Stop W
  emuroot_on_exit s =
      let s' = note_created (record s { t = record s.t { logged = false } }) in
      elim (emuroot_action_of k.abi s'.t.sysno) [ none ↦ s' | some action ↦ exit_action s' action ]
