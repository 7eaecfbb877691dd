-- ===== src/Entry/Frame.antt =====
-- src/rewrite.c: the entry handler leaves the marks of the tracee.
use emuroot.Base.{ℕ, refl, ◌∙◌, true, false, Option-cases, inl, inr, arith}
use emuroot.Kernel.{Kernel, Stop}
use emuroot.Syscalls.{PathSyscall, emuroot_action_of, emuroot_find_path_syscall}
use emuroot.Rewrite.Paths.{rewrite_path_arg}
use emuroot.Rewrite.Frame.{Keeps, rewrite_path_arg-Keeps, rewrite_sockaddr-Keeps}
use emuroot.Identity.Notes.{follows, note_creation, emuroot_identity_entry}
use emuroot.Mounts.Frame.{emulate_mounts-Keeps, identity_entry-Keeps, note_creation-Keeps}
use emuroot.Exec.Block.{emuroot_rewrite_exec}
use emuroot.Exec.Frame.{rewrite_exec-Keeps}
use emuroot.Entry.{
  begin, identity_part, rewrite_paths, path_part, rewrite_part, redirect, emuroot_on_entry,
}

module _ {W : Type 0} (k : Kernel W) where
  begin-Keeps : (s : Stop W) → Keeps s (begin k s)
  unfolding begin
  begin-Keeps s = refl

  identity_part-Keeps : (s : Stop W) → Keeps s (identity_part k s).0
  unfolding identity_part
  identity_part-Keeps s =
      let action = emuroot_action_of k.abi s.regs.nr in
      let noted = identity_entry-Keeps k s s.regs.nr action in
      let emulated =
        emulate_mounts-Keeps k (emuroot_identity_entry k s s.regs.nr action) s.regs.nr action
        ∙ noted in
      ground (arith, emulated)

  rewrite_paths-Keeps :
      (s : Stop W) (sysno : ℕ) (d : PathSyscall) → Keeps s (rewrite_paths k s sysno d)
  unfolding rewrite_paths
  rewrite_paths-Keeps s sysno d =
      let s1 = note_creation k s sysno d in
      let s2 = rewrite_path_arg k s1 sysno d.slot1 (follows k s1 d) 0 in
      rewrite_path_arg-Keeps k s2 sysno d.slot2 false 1
      ∙ rewrite_path_arg-Keeps k s1 sysno d.slot1 (follows k s1 d) 0
      ∙ note_creation-Keeps k s sysno d

  path_part-Keeps : (s : Stop W) (sysno : ℕ) → Keeps s (path_part k s sysno)
  unfolding path_part
  path_part-Keeps s sysno = elim (Option-cases (emuroot_find_path_syscall k.abi sysno)) [
    | inl n ↦
        rw (n, path_part)
          (ground (
            arith,
            rewrite_path_arg-Keeps k s sysno 1 true 0,
            rewrite_path_arg-Keeps k s sysno 2 true 0,
          ))
    | inr (d, n) ↦ rw (n, path_part) (rewrite_paths-Keeps s sysno d)
  ]

  rewrite_part-Keeps : (s : Stop W) (sysno : ℕ) → Keeps s (rewrite_part k s sysno)
  unfolding rewrite_part
  rewrite_part-Keeps s sysno = ground (
    arith,
    rewrite_sockaddr-Keeps k s 2 3,
    rewrite_sockaddr-Keeps k s 5 6,
    path_part-Keeps s sysno,
  )

  redirect-Keeps : (s : Stop W) (sysno : ℕ) → Keeps s (redirect k s sysno)
  unfolding redirect
  redirect-Keeps s sysno =
      let run = rewrite_exec-Keeps k s 1 2 in
      let behind = rewrite_part-Keeps (emuroot_rewrite_exec k s 1 2).0 sysno ∙ run in
      ground (arith, run, behind, rewrite_part-Keeps s sysno)

  pub on_entry-Keeps : (s : Stop W) → Keeps s (emuroot_on_entry k s)
  unfolding emuroot_on_entry
  on_entry-Keeps s =
      let emulated = identity_part-Keeps (begin k s) ∙ begin-Keeps s in
      let behind = redirect-Keeps (identity_part k (begin k s)).0 s.regs.nr ∙ emulated in
      ground (arith, emulated, behind)
