-- ===== src/Dac/Grants.antt =====
-- src/dac.c: what a chmod that the fake root is given may do.
use emuroot.Base.{ℕ, ◌≡◌, ◌≢◌, ◌⊎◌, true, some, List, [], ◌∷◌, bit_or, bit_and}
use emuroot.Syscalls.{
  Abi, Name, is_call, nr_open, nr_openat, nr_openat2, nr_creat, nr_truncate, nr_truncate64,
  nr_mkdir, nr_mkdirat, nr_mknod, nr_mknodat, nr_symlink, nr_symlinkat, nr_unlink, nr_unlinkat,
  nr_rmdir, nr_rename, nr_renameat, nr_renameat2, nr_link, nr_linkat,
}
use emuroot.Regs.{Args}
use emuroot.Dac.{
  Dac, dac_parent_w, dac_read, dac_rw, OpenFlags, Stat, Host, Chmod, parent_dir, file_bits,
}

-- The chmod adds `bits` to a file of the user's own that lacks some of them.
pub record Adds (h : Host) (path : List ℕ) (bits : ℕ) (c : Chmod) : Type 0 where
  pub same_path : c.path ≡ path
  pub file : Stat
  pub found : h.stat path ≡ some file
  pub own : file.uid ≡ h.euid
  pub lacks : bit_and file.mode bits ≢ bits
  pub adds : c.mode ≡ bit_or file.mode bits

-- What a grant is: it is made for someone who is not root, and it adds to the path's own bits, or to
-- those of the directory that holds it, what the kind of access asks for.
pub data IsGrant (h : Host) (host : List ℕ) (c : Chmod) : Dac → Type 0 where
  in_parent :
      (dir : List ℕ)
      → h.euid ≢ 0
      → parent_dir host ≡ some dir
      → Adds h dir 0o300 c
      → IsGrant h host c dac_parent_w
  to_read : h.euid ≢ 0 → Adds h host (file_bits h host 0o400) c → IsGrant h host c dac_read
  to_write : h.euid ≢ 0 → Adds h host (file_bits h host 0o600) c → IsGrant h host c dac_rw

-- The call is one of those named.
abbrev pub IsOneOf : Abi → List Name → ℕ → Type 0
IsOneOf abi [] sysno = ⊥
IsOneOf abi (name ∷ names) sysno = (is_call abi name sysno ≡ true) ⊎ IsOneOf abi names sysno

-- What the flags of an open ask for.
pub data OpensFor (f : OpenFlags) (flags : ℕ) : Dac → Type 0 where
  to_create : bit_and flags f.o_creat ≢ 0 → OpensFor f flags dac_parent_w
  to_see :
      bit_and flags f.o_creat ≡ 0
      → bit_and flags f.o_accmode ≡ f.o_rdonly
      → bit_and flags f.o_trunc ≡ 0
      → OpensFor f flags dac_read
  to_change :
      bit_and flags f.o_creat ≡ 0
      → (bit_and flags f.o_accmode ≢ f.o_rdonly) ⊎ (bit_and flags f.o_trunc ≢ 0)
      → OpensFor f flags dac_rw

-- The kind of access that a call needs to its first path, or to its second one.
pub data Needs (abi : Abi) (f : OpenFlags) (sysno : ℕ) (regs : Args) : ℕ → Dac → Type 0 where
  opens :
      (need : Dac)
      → is_call abi nr_open sysno ≡ true
      → OpensFor f regs.arg2 need
      → Needs abi f sysno regs 0 need
  opens_at :
      (need : Dac)
      → is_call abi nr_openat sysno ≡ true
      → OpensFor f regs.arg3 need
      → Needs abi f sysno regs 0 need
  opens_how : is_call abi nr_openat2 sysno ≡ true → Needs abi f sysno regs 0 dac_read
  truncates : IsOneOf abi (nr_truncate ∷ nr_truncate64 ∷ []) sysno → Needs abi f sysno regs 0 dac_rw
  changes_names :
      IsOneOf abi
        (nr_creat ∷ nr_mkdir ∷ nr_mkdirat ∷ nr_mknod ∷ nr_mknodat ∷ nr_symlink ∷ nr_symlinkat
          ∷ nr_unlink ∷ nr_unlinkat ∷ nr_rmdir ∷ nr_rename ∷ nr_renameat ∷ nr_renameat2 ∷ [])
        sysno
      → Needs abi f sysno regs 0 dac_parent_w
  moves :
      (which : ℕ)
      → which ≢ 0
      → IsOneOf abi (nr_rename ∷ nr_renameat ∷ nr_renameat2 ∷ nr_link ∷ nr_linkat ∷ []) sysno
      → Needs abi f sysno regs which dac_parent_w
