-- ===== src/Rewrite.antt =====
-- src/rewrite.c: what the entry handler needs to know of a call's path arguments. The guest's memory
-- and its /proc links are arguments.
pub mod Scratch
pub mod Paths
pub mod Sockets
pub mod Closed
pub mod Contained
pub mod Frame
mod Examples
use emuroot.Base.{
  ℕ, zero, suc, ◌+◌, ◌-◌, ◌*◌, ◌%◌, ◌^◌, Bool, true, false, not, ◌&&◌, ◌||◌, Option, none, some,
  List, [], ◌∷◌, ◌++◌, ltb, ◌==◌, if◌then◌else◌, bit_and, bit_or,
}
use emuroot.Cstring.{slash, bytes, char_at, snprintf}
use emuroot.Context.{Ctx, path_len}
use emuroot.Path.{or_empty, host_to_guest}
use emuroot.Regs.{Args, reg_arg}
use emuroot.Dac.{OpenFlags, has}
use emuroot.Syscalls.{
  Abi, PathSyscall, FollowMode, m_follow, m_nofollow, m_open, m_openat2, m_at, m_linkat, is_call,
  nr_symlink, nr_inotify_add_watch, nr_openat2, nr_readlink, nr_readlinkat,
}

-- The new top of the scratch memory and the address, which is 0 when there is no room; registers
-- have 64 bits.
unfoldable pub emuroot_scratch : ℕ → ℕ → ℕ × ℕ
emuroot_scratch top len =
    let below = (top + 2 ^ 64 - len) % 2 ^ 64 in
    let addr = below - below % 16 in if ltb top addr then (top, 0) else (addr, addr)

abbrev pub at_symlink_nofollow : ℕ
at_symlink_nofollow = 0x100

abbrev pub at_symlink_follow : ℕ
at_symlink_follow = 0x400

-- `how_flags` is the first word that the guest has at an address, or 0.
unfoldable pub emuroot_follow_last : OpenFlags → (ℕ → ℕ) → Args → PathSyscall → Bool
emuroot_follow_last f how_flags regs d =
    let flags = if d.flag_slot == 0 then 0 else reg_arg regs d.flag_slot in
    let both = bit_or f.o_creat f.o_excl in
    elim d.mode [
      | m_follow ↦ true
      | m_nofollow ↦ false
      | m_open ↦ not (has flags f.o_nofollow) && not (bit_and flags both == both)
      | m_at ↦ not (has flags at_symlink_nofollow)
      | m_linkat ↦ has flags at_symlink_follow
      | m_openat2 ↦ not (has (how_flags flags) f.o_nofollow)
    ]

-- 0 where the call has no directory descriptor for the path.
unfoldable pub dirfd_slot : Abi → ℕ → ℕ → ℕ
dirfd_slot abi sysno slot =
    if ltb slot 2
    then 0
    else if is_call abi nr_symlink sysno || is_call abi nr_inotify_add_watch sysno
    then 0
    else slot - 1

-- What a path starts from: the working directory, or a descriptor.
pub data Start : Type 0 where
  at_cwd : Start
  at_fd : ℕ → Start

-- `(int)*reg_arg(...)`, where -100 is AT_FDCWD
unfoldable pub start_of : Args → ℕ → Start
start_of regs fd_slot =
    if fd_slot == 0
    then at_cwd
    else let fd = reg_arg regs fd_slot % 2 ^ 32 in if fd == 2 ^ 32 - 100 then at_cwd else at_fd fd

-- `link` is what the link in /proc of a start says, if it can be read and is not empty; `size` is
-- that of the answer's buffer. None where the C function returns 0.
unfoldable pub absolute_guest_path :
    Ctx → List ℕ → (Start → Option (List ℕ)) → Args → ℕ → List ℕ → ℕ → Option (List ℕ)
absolute_guest_path ctx root link regs fd_slot path size =
    if char_at path 0 == slash
    then some (snprintf size path)
    else elim (link (start_of regs fd_slot)) [
      | none ↦ none
      | some base ↦ elim (host_to_guest ctx root (snprintf path_len base) path_len) [
        | none ↦ none
        | some guest_base ↦ some (snprintf size (or_empty guest_base ++ (slash ∷ path)))
      ]
    ]

-- `resolve` is the third word that the guest has at an address, or 0.
unfoldable pub strict_openat2 : Abi → (ℕ → ℕ) → Args → ℕ → ℕ → Bool
strict_openat2 abi resolve regs sysno slot =
    is_call abi nr_openat2 sysno && slot == 2 && not (resolve (reg_arg regs 3) == 0)

unfoldable pub is_readlink : Abi → ℕ → Bool
is_readlink abi sysno = is_call abi nr_readlink sysno || is_call abi nr_readlinkat sysno
