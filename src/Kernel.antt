-- ===== src/Kernel.antt =====
-- What the handlers of a stop see: the kernel and the C library as a record of parameters, and the
-- state that they change. W stands for the world, which is the guest's memory and the host's files;
-- a register and a pointer have 64 bits, and words are stored with the lowest byte first.
pub mod Sample
use emuroot.Base.{ℕ, zero, suc, ◌+◌, ◌*◌, ◌/◌, ◌%◌, Bool, Option, List, [], ◌∷◌}
use emuroot.Syscalls.{Abi}
use emuroot.Regs.{Args}
use emuroot.Dac.{OpenFlags, Stat}
use emuroot.Context.{Ctx}
use emuroot.Ownership.{Db}
use emuroot.Tracee.{Tracee}
use emuroot.Rewrite.{Start}

-- What stat tells of a file.
pub record File : Type 0 where
  pub dev : ℕ
  pub ino : ℕ
  pub gid : ℕ
  pub stat : Stat

-- src/fake.c, `struct stat_layout`: where a stat buffer keeps what identifies a file and its owner.
pub record StatLayout : Type 0 where
  pub uid : ℕ
  pub gid : ℕ
  pub dev : ℕ
  pub ino : ℕ
  pub statx : Bool

-- `stat_layout` is that of the C library. `read w pid addr n` is the bytes that guest_read gets, none where it fails, and `fault` whether the
-- errno of a failure at that address is EFAULT. `write` is what guest_write makes of the world, and
-- whether all is written. `proc_link` is the text of the link of a process in /proc, where it can be
-- read and is not empty, and `proc_stat` the file behind a descriptor. `contents` is what a file that
-- can be opened holds. `fresh` is what calloc answers for the ownership table, `room` for an array.
pub record Kernel (W : Type 0) : Type 0 where
  pub abi : Abi
  pub flags : OpenFlags
  pub euid : ℕ
  pub egid : ℕ
  pub stat_layout : StatLayout
  pub read : W → ℕ → ℕ → ℕ → List ℕ
  pub fault : W → ℕ → ℕ → Bool
  pub write : W → ℕ → ℕ → List ℕ → W × Bool
  pub stat : W → List ℕ → Option File
  pub lstat : W → List ℕ → Option File
  pub readlink : W → List ℕ → Option (List ℕ)
  pub realpath : W → List ℕ → Option (List ℕ)
  pub contents : W → List ℕ → Option (List ℕ)
  pub proc_link : W → ℕ → Start → Option (List ℕ)
  pub proc_stat : W → ℕ → ℕ → Option File
  pub chmod : W → List ℕ → ℕ → W
  pub fresh : Bool
  pub room : Bool

-- src/arch.h: the roles of a register set. Where a machine gives the result and the first argument
-- one place, `ret` and `args.arg1` are the same number in what the kernel hands over at an exit.
pub record Registers : Type 0 where
  pub nr : ℕ
  pub sp : ℕ
  pub ret : ℕ
  pub args : Args

-- A tracee at a stop: `t`, its registers, and what all tracees share. `loaders` is the cache of
-- loader_has_argv0.
pub record Stop (W : Type 0) : Type 0 where
  pub world : W
  pub ctx : Ctx
  pub owners : Option Db
  pub loaders : List (List ℕ × Bool)
  pub t : Tracee
  pub regs : Registers

-- The number that some bytes hold, the lowest first.
unfoldable pub le : List ℕ → ℕ
le [] = 0
le (b ∷ s) = b + 256 * le s

-- A number in n bytes, the lowest first.
unfoldable pub le_bytes : ℕ → ℕ → List ℕ
le_bytes zero x = []
le_bytes (suc n) x = x % 256 ∷ le_bytes n (x / 256)
