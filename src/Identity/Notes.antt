-- ===== src/Identity/Notes.antt =====
-- src/identity.c at the entry of a call: the chown that is about to happen, and the file that may be
-- created.
use emuroot.Base.{
  ℕ, ◌+◌, ◌%◌, ◌^◌, Bool, true, false, Option, none, some, List, ◌==◌, if◌then◌else◌,
}
use emuroot.Syscalls.{Action, PathSyscall, is_call, nr_fchownat, a_chown, emuroot_find_path_syscall}
use emuroot.Ownership.{emuroot_owner_lookup}
use emuroot.Kernel.{Kernel, Stop, File, le}
use emuroot.Rewrite.{emuroot_follow_last}
use emuroot.Rewrite.Paths.{arg_of, emuroot_host_path_arg}
use emuroot.Identity.{neutralize_id_change, emuroot_note_creation}

module _ {W : Type 0} (k : Kernel W) where
  -- emuroot_follow_last at a stop
  abbrev pub follows : Stop W → PathSyscall → Bool
  follows s d =
      emuroot_follow_last k.flags (λ addr. le (k.read s.world s.t.pid addr 8)) s.regs.args d

  -- The file that is to be given away: the path's, or else the descriptor's.
  unfoldable pub chowned_file : Stop W → ℕ → Option PathSyscall → Option File
  chowned_file s sysno none = k.proc_stat s.world s.t.pid (arg_of k s 1 % 2 ^ 32)
  chowned_file s sysno (some d) =
      let follow = follows s d in
      elim (emuroot_host_path_arg k s sysno d.slot1 follow) [
        | some host ↦ if follow then k.stat s.world host else k.lstat s.world host
        | none ↦ k.proc_stat s.world s.t.pid (arg_of k s 1 % 2 ^ 32)
      ]

  -- The owner that the guest sees now.
  unfoldable pub current_owner : Stop W → File → ℕ × ℕ
  current_owner s f = elim (emuroot_owner_lookup s.owners f.dev f.ino) [
    | some owner ↦ owner
    | none ↦ (
      if f.stat.uid == k.euid then s.ctx.fake_uid else f.stat.uid,
      if f.gid == k.egid then s.ctx.fake_gid else f.gid,
    )
  ]

  unfoldable pub note_chown : Stop W → ℕ → Option PathSyscall → Stop W
  note_chown s sysno d =
      let uid_arg = if is_call k.abi nr_fchownat sysno then 3 else 2 in
      elim (chowned_file s sysno d) [
        | none ↦ s
        | some f ↦
            let (cur_uid, cur_gid) = current_owner s f in
            record s {
              t = record s.t {
                chown_valid = true;
                chown_dev = f.dev;
                chown_ino = f.ino;
                chown_cur_uid = cur_uid;
                chown_cur_gid = cur_gid;
                chown_uid = arg_of k s uid_arg % 2 ^ 32;
                chown_gid = arg_of k s (uid_arg + 1) % 2 ^ 32;
              };
            }
      ]

  -- emuroot_note_creation at a stop
  unfoldable pub note_creation : Stop W → ℕ → PathSyscall → Stop W
  note_creation s sysno d =
      let exists : List ℕ → Bool =
        λ path. elim (k.lstat s.world path) [ none ↦ false | some f ↦ true ] in
      let host = emuroot_host_path_arg k s sysno d.slot1 false in
      record s {
        t = record s.t {
          created =
              emuroot_note_creation k.abi k.flags s.ctx s.t.creds s.regs.args sysno host exists
                s.t.created;
        };
      }

  unfoldable pub emuroot_identity_entry : Stop W → ℕ → Option Action → Stop W
  emuroot_identity_entry s sysno none = s
  emuroot_identity_entry s sysno (some action) =
      let s' = record s {
        regs = record s.regs { args = neutralize_id_change k.euid k.egid s.regs.args action };
      } in
      elim action [ a_chown ↦ note_chown s' sysno (emuroot_find_path_syscall k.abi sysno) | _ ↦ s' ]
