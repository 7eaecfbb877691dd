-- ===== src/Mounts.antt =====
-- src/mounts.c: chroot, mount and umount, emulated for a privileged fake root.
pub mod Frame
use emuroot.Base.{
  ℕ, zero, suc, ◌-◌, Bool, true, false, not, ◌&&◌, Option, none, some, List, [], ◌∷◌, ◌++◌, ◌==◌,
  if◌then◌else◌, length, set, ℤ, pos, negsuc, bit_or,
}
use emuroot.Cstring.{bytes, snprintf, str_eq}
use emuroot.Context.{Ctx, Binding, path_len, binding_at, emuroot_bind, emuroot_unbind}
use emuroot.Dac.{has}
use emuroot.Syscalls.{Action, PathSyscall, emuroot_find_path_syscall, a_chroot, a_mount, a_umount}
use emuroot.Kernel.{Kernel, Stop, File}
use emuroot.Rewrite.Paths.{
  arg_of, put_arg, text_at, to_scratch, emuroot_host_path_arg, emuroot_guest_path_arg,
}

abbrev pub ms_remount : ℕ
ms_remount = 32

abbrev pub ms_bind : ℕ
ms_bind = 4096

abbrev pub ms_move : ℕ
ms_move = 8192

-- What the host can provide for a file system type.
unfoldable pub provided : List ℕ → Option (List ℕ)
provided fstype =
    if str_eq fstype (bytes "proc")
    then some (bytes "/proc")
    else if str_eq fstype (bytes "sysfs")
    then some (bytes "/sys")
    else if str_eq fstype (bytes "devtmpfs")
    then some (bytes "/dev")
    else if str_eq fstype (bytes "devpts")
    then some (bytes "/dev/pts")
    else none

-- emuroot_bind, and the mount point of the binding that it adds.
unfoldable pub bind_at : Ctx → List ℕ → List ℕ → List ℕ → Ctx
bind_at c host guest mount =
    let (c', result) = emuroot_bind c (some host) (some guest) in
    let m = snprintf path_len mount in
    let i = c'.nbindings - 1 in
    elim result [
      | pos zero ↦ record c' {
        bindings = set c'.bindings i (record (binding_at c' i) { mount = m; mount_len = length m });
      }
      | pos (suc n) ↦ c'
      | negsuc n ↦ c'
    ]

module _ {W : Type 0} (k : Kernel W) where
  -- The argument becomes NULL, or a "/" in scratch memory where there is room for it.
  unfoldable pub neutralize : Stop W → ℕ → Bool → Stop W
  neutralize s slot to_root =
      let (s', at) = to_scratch k s (bytes "/" ++ (0 ∷ [])) in
      let addr : ℕ = elim at [ none ↦ 0 | some addr ↦ addr ] in
      if to_root then put_arg k s' slot addr else put_arg k s slot 0

  unfoldable pub guest_dir_exists : Stop W → List ℕ → Bool
  guest_dir_exists s host = elim (k.stat s.world host) [ none ↦ false | some f ↦ f.stat.is_dir ]

  -- `realpath(host, canon) ? canon : host`
  abbrev pub canonical : Stop W → List ℕ → List ℕ
  canonical s host = elim (k.realpath s.world host) [ none ↦ host | some canon ↦ canon ]

  -- `d` is found for every chroot, which has an entry of the path table.
  unfoldable pub emulate_chroot : Stop W → ℕ → Option PathSyscall → Stop W
  emulate_chroot s sysno none = s
  emulate_chroot s sysno (some d) = elim (emuroot_host_path_arg k s sysno d.slot1 true) [
    | none ↦ s
    | some host ↦
        let s' = record s {
          t = record s.t { pending_root = snprintf path_len (canonical s host) };
        } in
        if guest_dir_exists s host then neutralize s' d.slot1 true else s
  ]

  -- Where the mount comes from, if it becomes a binding.
  unfoldable pub mount_source : Stop W → ℕ → Option (List ℕ)
  mount_source s sysno =
      let flags = arg_of k s 4 in
      if has flags (bit_or ms_remount ms_move)
      then none
      else if has flags ms_bind
      then emuroot_host_path_arg k s sysno 1 true
      else if arg_of k s 3 == 0
      then none
      else elim (text_at k s (arg_of k s 3) 64) [ none ↦ none | some fstype ↦ provided fstype ]

  unfoldable pub emulate_mount : Stop W → ℕ → Stop W
  emulate_mount s sysno = elim (emuroot_guest_path_arg k s sysno 2) [
    | none ↦ s
    | some (guest_target, host_target) ↦
        let ctx : Ctx = elim (mount_source s sysno) [
          | none ↦ s.ctx
          | some host ↦ bind_at s.ctx (canonical s host) guest_target host_target
        ] in
        neutralize (record s { ctx = ctx; t = record s.t { mount_handled = true } }) 2 false
  ]

  unfoldable pub emulate_umount : Stop W → ℕ → Stop W
  emulate_umount s sysno = elim (emuroot_guest_path_arg k s sysno 1) [
    | none ↦ s
    | some (guest_target, host_target) ↦
        let ctx = (emuroot_unbind s.ctx guest_target).0 in
        neutralize (record s { ctx = ctx; t = record s.t { mount_handled = true } }) 1 false
  ]

  -- The calls of a root, by their action; none for another.
  unfoldable pub emulate : Stop W → ℕ → Action → Option (Stop W × Bool)
  emulate s sysno a_chroot =
      let s' = emulate_chroot s sysno (emuroot_find_path_syscall k.abi sysno) in
      some (s', not (length s'.t.pending_root == 0))
  emulate s sysno a_mount = some (emulate_mount s sysno, true)
  emulate s sysno a_umount = some (emulate_umount s sysno, true)
  emulate s sysno action = none

  -- Whether the call is emulated, with nothing more to rewrite. `action` is none where there is none.
  unfoldable pub emuroot_emulate_mounts : Stop W → ℕ → Option Action → Stop W × Bool
  emuroot_emulate_mounts s sysno none = (s, false)
  emuroot_emulate_mounts s sysno (some action) =
      if not (s.t.creds.uid.effective == 0)
      then (s, false)
      else elim (emulate s sysno action) [ none ↦ (s, false) | some r ↦ r ]
