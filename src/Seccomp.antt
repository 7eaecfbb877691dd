-- ===== src/Seccomp.antt =====
-- src/seccomp.c: the filter program for the kernel. The kernel's machine for such programs is a
-- parameter, with what is documented of the four instructions that the program uses.
pub mod Exact
pub mod Handled
mod Examples
use emuroot.Base.{
  ℕ, zero, suc, ◌+◌, ◌-◌, ◌%◌, ◌^◌, ◌<◌, ◌≡◌, Bool, true, false, not, ◌&&◌, ◌||◌, Option, none,
  some, List, [], ◌∷◌, ◌++◌, ltb, ◌==◌, if◌then◌else◌, length, drop,
}

-- The instructions: load the number of the architecture or of the system call, jump over `jt` or `jf`
-- instructions, and return.
pub data Insn : Type 0 where
  load_arch load_nr : Insn
  jeq : (value : ℕ) → (jt : ℕ) → (jf : ℕ) → Insn
  ret : ℕ → Insn

-- What a filter is asked about.
pub record Request : Type 0 where
  pub arch : ℕ
  pub nr : ℕ

-- `exec d acc prog` is what the kernel makes of the instructions `prog` that are still before it, with
-- the accumulator `acc`.
pub record Machine : Type 0 where
  pub exec : Request → ℕ → List Insn → Option ℕ
  pub on_load_arch :
      (d : Request) (acc : ℕ) (rest : List Insn)
      → exec d acc (load_arch ∷ rest) ≡ exec d d.arch rest
  pub on_load_nr :
      (d : Request) (acc : ℕ) (rest : List Insn) → exec d acc (load_nr ∷ rest) ≡ exec d d.nr rest
  pub on_jeq :
      (d : Request) (acc value jt jf : ℕ) (rest : List Insn)
      → exec d acc (jeq value jt jf ∷ rest)
        ≡ exec d acc (drop (if acc == value then jt else jf) rest)
  pub on_ret :
      (d : Request) (acc value : ℕ) (rest : List Insn) → exec d acc (ret value ∷ rest) ≡ some value

abbrev pub ret_allow : ℕ
ret_allow = 0x7fff0000

abbrev pub ret_trace : ℕ
ret_trace = 0x7ff00000

abbrev pub max_filtered : ℕ
max_filtered = 250

-- The tests for the numbers: a match jumps over the rest of them and the ALLOW. `(unsigned)nrs[i]` has
-- 32 bits, and a jump 8.
unfoldable pub tests : List ℕ → List Insn
tests [] = []
tests (nr ∷ nrs) = jeq (nr % 2 ^ 32) ((length nrs + 1) % 2 ^ 8) 0 ∷ tests nrs

unfoldable pub program : ℕ → List ℕ → List Insn
program audit_arch nrs =
    load_arch
    ∷ jeq audit_arch 1 0
    ∷ ret ret_allow
    ∷ load_nr
    ∷ (tests nrs ++ (ret ret_allow ∷ ret ret_trace ∷ []))

-- The program that is installed; none where the function gives up before.
unfoldable pub emuroot_seccomp_trace : ℕ → List ℕ → Option (List Insn)
emuroot_seccomp_trace audit_arch nrs =
    if length nrs == 0 || ltb max_filtered (length nrs) then none else some (program audit_arch nrs)

-- Whether a release `major.minor` has the order of stops that the engine relies on.
unfoldable pub emuroot_seccomp_supported : ℕ → ℕ → Bool
emuroot_seccomp_supported major minor = ltb 4 major || (major == 4 && not (ltb minor 8))

-- Whether a filter can be installed at all; the two requests of prctl are arguments.
unfoldable pub emuroot_seccomp_installable : Bool → Bool → Bool
emuroot_seccomp_installable no_new_privs installs = no_new_privs && installs
