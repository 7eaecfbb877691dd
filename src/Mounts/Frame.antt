-- ===== src/Mounts/Frame.antt =====
-- src/mounts.c and src/identity.c: emulating a call of a root leaves the marks of the tracee.
use emuroot.Base.{
  ℕ, refl, Bool, true, false, Option, none, some, [], ◌∷◌, ◌++◌, Option-cases, Bool-cases, inl, inr,
  arith,
}
use emuroot.Cstring.{bytes}
use emuroot.Kernel.{Kernel, Stop}
use emuroot.Syscalls.{Action, PathSyscall, emuroot_find_path_syscall}
use emuroot.Rewrite.Paths.{emuroot_host_path_arg, emuroot_guest_path_arg}
use emuroot.Rewrite.Frame.{Keeps, to_scratch-Keeps}
use emuroot.Mounts.{
  guest_dir_exists, neutralize, emulate_chroot, emulate_mount, emulate_umount, emulate,
  emuroot_emulate_mounts,
}
use emuroot.Identity.{neutralize_id_change}
use emuroot.Identity.Notes.{note_chown, note_creation, emuroot_identity_entry}

module _ {W : Type 0} (k : Kernel W) where
  neutralize-Keeps :
      (s : Stop W) (slot : ℕ) (to_root : Bool) → Keeps s (neutralize k s slot to_root)
  unfolding neutralize
  neutralize-Keeps s slot to_root = ground (arith, to_scratch-Keeps k s (bytes "/" ++ (0 ∷ [])))

  emulate_chroot-Keeps :
      (s : Stop W) (sysno : ℕ) (d : Option PathSyscall) → Keeps s (emulate_chroot k s sysno d)
  unfolding emulate_chroot
  emulate_chroot-Keeps s sysno none = refl
  emulate_chroot-Keeps s sysno (some d) =
      elim (Option-cases (emuroot_host_path_arg k s sysno d.slot1 true)) [
        | inl n ↦ rw (n, emulate_chroot) refl
        | inr (host, n) ↦ elim (Bool-cases (guest_dir_exists k s host)) [
          | inl e ↦ rw (n, emulate_chroot) (rw e (neutralize-Keeps _ d.slot1 true))
          | inr e ↦ rw (n, emulate_chroot) (rw e refl)
        ]
      ]

  emulate_mount-Keeps : (s : Stop W) (sysno : ℕ) → Keeps s (emulate_mount k s sysno)
  unfolding emulate_mount
  emulate_mount-Keeps s sysno = elim (Option-cases (emuroot_guest_path_arg k s sysno 2)) [
    | inl n ↦ rw (n, emulate_mount) refl
    | inr (target, n) ↦ rw (n, emulate_mount) (neutralize-Keeps _ 2 false)
  ]

  emulate_umount-Keeps : (s : Stop W) (sysno : ℕ) → Keeps s (emulate_umount k s sysno)
  unfolding emulate_umount
  emulate_umount-Keeps s sysno = elim (Option-cases (emuroot_guest_path_arg k s sysno 1)) [
    | inl n ↦ rw (n, emulate_umount) refl
    | inr (target, n) ↦ rw (n, emulate_umount) (neutralize-Keeps _ 1 false)
  ]

  pub emulate_mounts-Keeps :
      (s : Stop W) (sysno : ℕ) (action : Option Action)
      → Keeps s (emuroot_emulate_mounts k s sysno action).0
  unfolding emuroot_emulate_mounts emulate
  emulate_mounts-Keeps s sysno none = refl
  emulate_mounts-Keeps s sysno (some action) = ground (
    arith,
    emulate_chroot-Keeps s sysno (emuroot_find_path_syscall k.abi sysno),
    emulate_mount-Keeps s sysno,
    emulate_umount-Keeps s sysno,
  )

  note_chown-Keeps :
      (s : Stop W) (sysno : ℕ) (d : Option PathSyscall) → Keeps s (note_chown k s sysno d)
  unfolding note_chown
  note_chown-Keeps s sysno d = ground arith

  pub identity_entry-Keeps :
      (s : Stop W) (sysno : ℕ) (action : Option Action)
      → Keeps s (emuroot_identity_entry k s sysno action)
  unfolding emuroot_identity_entry
  identity_entry-Keeps s sysno none = refl
  identity_entry-Keeps s sysno (some action) =
      let s' : Stop W = record s {
        regs = record s.regs { args = neutralize_id_change k.euid k.egid s.regs.args action };
      } in
      ground (arith, note_chown-Keeps s' sysno (emuroot_find_path_syscall k.abi sysno))

  pub note_creation-Keeps :
      (s : Stop W) (sysno : ℕ) (d : PathSyscall) → Keeps s (note_creation k s sysno d)
  unfolding note_creation
  note_creation-Keeps s sysno d = refl
