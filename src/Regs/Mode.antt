-- ===== src/Regs/Mode.antt =====
-- src/regs.c: the registers of a stopped process, by PTRACE_GETREGSET or, on a kernel without it, by
-- the whole struct of PTRACE_GETREGS. The four requests are an argument.
pub mod Exchange
mod Tests
use emuroot.Base.{
  ℕ, ◌≤◌, ◌≡◌, Bool, true, false, not, ◌&&◌, Option, none, some, List, ◌==◌, if◌then◌else◌, length,
  take,
}
use emuroot.Cstring.{bytes, str_eq}
use emuroot.Guest.Peek.{memcpy}

-- `UNDECIDED`, `REGSET` and `GETREGS`
pub data Mode : Type 0 where
  undecided regset getregs : Mode

-- What a request answers, or errno.
pub data Reply (A : Type 0) : Type 0 where
  done : A → Reply A
  failed : ℕ → Reply A

-- The requests on a stopped process: the short struct of a regset, and the kernel's whole struct.
pub record Requests : Type 1 where
  pub Thread : Type 0
  pub get_regset : Thread → ℕ → Reply (List ℕ)
  pub set_regset : Thread → List ℕ → Reply Thread
  pub get_regs : Thread → Reply (List ℕ)
  pub set_regs : Thread → List ℕ → Reply Thread
  -- whether the process is there, whether its kernel has regsets, and its registers
  pub alive : Thread → Bool
  pub has_regsets : Thread → Bool
  pub user : Thread → List ℕ

-- What ptrace(2) documents: each request moves the registers of a process that is there, a regset
-- from the front of the struct; a kernel without regsets answers EIO.
pub record IsLawful (R : Requests) : Type 0 where
  pub get_regset_lem :
      (t : R.Thread) (n : ℕ)
      → R.get_regset t n ≡ (
          if R.alive t
          then (if R.has_regsets t then done (take n (R.user t)) else failed 5)
          else failed 3)
  pub get_regs_lem :
      (t : R.Thread) → R.get_regs t ≡ (if R.alive t then done (R.user t) else failed 3)
  pub set_regset_lem :
      (t t' : R.Thread) (regs : List ℕ)
      → R.set_regset t regs ≡ done t'
      → length regs ≤ length (R.user t)
      → (R.user t' ≡ memcpy (R.user t) 0 regs 0 (length regs))
        × (R.alive t' ≡ R.alive t)
        × (R.has_regsets t' ≡ R.has_regsets t)
  pub set_regs_lem :
      (t t' : R.Thread) (full : List ℕ)
      → R.set_regs t full ≡ done t'
      → length full ≡ length (R.user t)
      → (R.user t' ≡ full) × (R.alive t' ≡ R.alive t) × (R.has_regsets t' ≡ R.has_regsets t)

abbrev is_text : Option (List ℕ) → List ℕ → Bool
is_text none t = false
is_text (some s) t = str_eq s t

-- The mode in use; the first call decides it by EMUROOT_REGS.
unfoldable pub mode_now : Option (List ℕ) → Mode → Mode
mode_now forced undecided = if is_text forced (bytes "getregs") then getregs else regset
mode_now forced regset = regset
mode_now forced getregs = getregs

module _ (R : Requests) (forced : Option (List ℕ)) where
  open R use {Thread, get_regset, set_regset, get_regs, set_regs}

  -- The registers from the front of the whole struct.
  unfoldable pub get_whole : Thread → List ℕ → Reply (List ℕ)
  get_whole t regs = elim (get_regs t) [
    | failed err ↦ failed err
    | done full ↦ done (memcpy regs 0 full 0 (length regs))
  ]

  -- The mode afterwards, and the struct or an error. `regs` is the struct before.
  unfoldable pub regs_get : Mode → Thread → List ℕ → Mode × Reply (List ℕ)
  regs_get mode t regs = elim (mode_now forced mode) [
    | regset ↦ elim (get_regset t (length regs)) [
      | done new ↦ (regset, done new)
      | failed err ↦
          if not (err == 5) && not (err == 22) && not (err == 38)
          then (regset, failed err)
          else (getregs, get_whole t regs)
    ]
    | other ↦ (other, get_whole t regs)
  ]

  -- The mode afterwards, and the process or an error.
  unfoldable pub regs_set : Mode → Thread → List ℕ → Mode × Reply Thread
  regs_set mode t regs = elim (mode_now forced mode) [
    | regset ↦ (regset, set_regset t regs)
    | other ↦ (
      other,
      elim (get_regs t) [
        | failed err ↦ failed err
        | done full ↦ set_regs t (memcpy full 0 regs 0 (length regs))
      ],
    )
  ]
