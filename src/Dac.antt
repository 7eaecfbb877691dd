-- ===== src/Dac.antt =====
-- src/dac.c: the permission bits that the fake root is given. The open flags are those of the
-- target's <fcntl.h>, and the host's files and identity are parameters.
pub mod Grants
mod Examples
use emuroot.Base.{
  ℕ, zero, suc, ◌+◌, Bool, true, false, not, ◌&&◌, ◌||◌, Option, none, some, List, [], ◌∷◌, ◌==◌,
  if◌then◌else◌, take, bit_and, bit_or,
}
use emuroot.Cstring.{slash, strrchr, snprintf}
use emuroot.Context.{path_len}
use emuroot.Regs.{Args, reg_arg}
use emuroot.Syscalls.{
  Abi, Name, is_call, nr_open, nr_openat, nr_openat2, nr_creat, nr_truncate, nr_truncate64,
  nr_mkdir, nr_mkdirat, nr_mknod, nr_mknodat, nr_symlink, nr_symlinkat, nr_unlink, nr_unlinkat,
  nr_rmdir, nr_rename, nr_renameat, nr_renameat2, nr_link, nr_linkat,
}

-- `enum dac`
pub data Dac : Type 0 where
  dac_none dac_parent_w dac_read dac_rw : Dac

-- The constants of <fcntl.h>.
pub record OpenFlags : Type 0 where
  pub o_creat : ℕ
  pub o_excl : ℕ
  pub o_trunc : ℕ
  pub o_accmode : ℕ
  pub o_rdonly : ℕ
  pub o_nofollow : ℕ

-- `flags & bit`, as a condition
unfoldable pub has : ℕ → ℕ → Bool
has flags bit = not (bit_and flags bit == 0)

-- After the label `open_like`.
unfoldable pub open_like : OpenFlags → ℕ → Dac
open_like f flags =
    if has flags f.o_creat
    then dac_parent_w
    else if not (bit_and flags f.o_accmode == f.o_rdonly) || has flags f.o_trunc
    then dac_rw
    else dac_read

-- The switch over the calls, for the calls that need `need`; a call without a number is none of them.
unfoldable pub is_any : Abi → List Name → ℕ → Bool
is_any abi [] sysno = false
is_any abi (n ∷ ns) sysno = is_call abi n sysno || is_any abi ns sysno

unfoldable pub parent_calls : List Name
parent_calls =
    nr_creat ∷ nr_mkdir ∷ nr_mkdirat ∷ nr_mknod ∷ nr_mknodat ∷ nr_symlink ∷ nr_symlinkat ∷ nr_unlink
    ∷ nr_unlinkat ∷ nr_rmdir ∷ nr_rename ∷ nr_renameat ∷ nr_renameat2 ∷ []

unfoldable pub destination_calls : List Name
destination_calls = nr_rename ∷ nr_renameat ∷ nr_renameat2 ∷ nr_link ∷ nr_linkat ∷ []

unfoldable pub dac_for : Abi → OpenFlags → ℕ → Args → ℕ → Dac
dac_for abi f sysno regs which =
    if which == 0
    then if is_call abi nr_open sysno
      then open_like f (reg_arg regs 2)
      else if is_call abi nr_openat sysno
      then open_like f (reg_arg regs 3)
      else if is_call abi nr_openat2 sysno
      then dac_read
      else if is_any abi (nr_truncate ∷ nr_truncate64 ∷ []) sysno
      then dac_rw
      else if is_any abi parent_calls sysno
      then dac_parent_w
      else dac_none
    else if is_any abi destination_calls sysno
    then dac_parent_w
    else dac_none

-- What stat tells of a path.
pub record Stat : Type 0 where
  pub uid : ℕ
  pub mode : ℕ
  pub is_dir : Bool

-- The host as this part of the program sees it: its files, and who runs it.
pub record Host : Type 0 where
  pub stat : List ℕ → Option Stat
  pub euid : ℕ

-- A chmod: the path and the new mode.
pub record Chmod : Type 0 where
  pub path : List ℕ
  pub mode : ℕ

unfoldable pub grant_owner : Host → List ℕ → ℕ → Option Chmod
grant_owner h path bits = elim (h.stat path) [
  | none ↦ none
  | some st ↦
      if not (st.uid == h.euid) || bit_and st.mode bits == bits
      then none
      else some (record { path = path; mode = bit_or st.mode bits })
]

-- The directory that holds the path's last component; none for a path without a '/'.
unfoldable pub parent_dir : List ℕ → Option (List ℕ)
parent_dir host =
    let dir = snprintf path_len host in
    elim (strrchr dir slash) [
      | none ↦ none
      | some zero ↦ some (take 1 dir)
      | some (suc i) ↦ some (take (suc i) dir)
    ]

-- The bits that DAC_READ and DAC_RW ask for; a directory must be searchable too.
unfoldable pub file_bits : Host → List ℕ → ℕ → ℕ
file_bits h host bits = elim (h.stat host) [
  | none ↦ bits
  | some st ↦ if st.is_dir then bit_or bits 0o100 else bits
]

-- The chmod that is made, if one is.
unfoldable pub ensure_dac : Host → List ℕ → Dac → Option Chmod
ensure_dac h host dac_none = none
ensure_dac h host dac_parent_w =
    if h.euid == 0
    then none
    else elim (parent_dir host) [ none ↦ none | some dir ↦ grant_owner h dir 0o300 ]
ensure_dac h host dac_read =
    if h.euid == 0 then none else grant_owner h host (file_bits h host 0o400)
ensure_dac h host dac_rw = if h.euid == 0 then none else grant_owner h host (file_bits h host 0o600)

unfoldable pub emuroot_grant_access : Abi → OpenFlags → Host → ℕ → Args → ℕ → List ℕ → Option Chmod
emuroot_grant_access abi f h sysno regs which host =
    ensure_dac h host (dac_for abi f sysno regs which)
