-- ===== src/Probe.antt =====
-- src/probe.c: the report of what the kernel permits. What the mechanisms answer when they are tried
-- on a child that is traced is an argument.
pub mod Report
mod Examples
use emuroot.Base.{
  ℕ, ◌+◌, ◌-◌, ◌%◌, ◌^◌, Bool, true, false, ◌&&◌, ◌||◌, Option, none, some, List, [], ◌∷◌, ◌++◌,
  ◌==◌, if◌then◌else◌, length, replicate,
}
use emuroot.Cstring.{bytes, snprintf}
use emuroot.Guest.{Attempt, moved, failed, emuroot_process_vm}
use emuroot.Start.{Ended, exited, killed, otherwise}

-- What the requests on the stopped child answer, and the number that each way of access has read.
pub record Child : Type 0 where
  pub get_regset : Bool
  pub get_regs : Bool
  pub has_call : Bool
  pub process_vm : Attempt
  pub vm_value : ℕ
  pub opened : Bool
  pub pread : Attempt
  pub mem_value : ℕ
  pub peek_value : ℕ
  pub peek_errno : ℕ
  pub set_base : Bool
  pub set_exitkill : Bool

-- The flags that the report shows.
pub record Flags : Type 0 where
  pub traced : Bool
  pub regset : Bool
  pub getregs : Bool
  pub vm : Bool
  pub procmem : Bool
  pub peek : Bool
  pub follow : Bool
  pub exitkill : Bool

abbrev pub probe_value : ℕ
probe_value = 0x5a5a1234

abbrev has_moved : ℕ → Attempt → Bool
has_moved n (moved m) = m == n
has_moved n (failed err) = false

-- The flags, where a long has `size` bytes; none is a child that has not been made or not stopped.
unfoldable pub flags : ℕ → Option Child → Flags
flags size none = record {
  traced = false;
  regset = false;
  getregs = false;
  vm = false;
  procmem = false;
  peek = false;
  follow = false;
  exitkill = false;
}
flags size (some c) = record {
  traced = true;
  regset = c.get_regset;
  getregs = c.get_regs;
  vm = has_moved size (emuroot_process_vm c.has_call c.process_vm) && c.vm_value == probe_value;
  procmem = c.opened && has_moved size c.pread && c.mem_value == probe_value;
  peek = c.peek_value == probe_value && c.peek_errno == 0;
  follow = c.set_base;
  exitkill = c.set_exitkill;
}

-- The second child, which tries to install a filter; none is one that has not been made or waited for.
unfoldable pub seccomp_flag : Option Ended → Bool
seccomp_flag none = false
seccomp_flag (some (exited code)) = code == 0
seccomp_flag (some (killed sig)) = false
seccomp_flag (some otherwise) = false

unfoldable pub usable : Flags → Bool
usable f = f.traced && f.follow && (f.regset || f.getregs) && (f.vm || f.procmem || f.peek)

-- `sizeof out`
abbrev pub out_size : ℕ
out_size = 2048

-- The text of the report and `n`, the bytes that it would have; the room that is left for a further
-- text is a size_t.
unfoldable pub say : List ℕ × ℕ → List ℕ → List ℕ × ℕ
say (out, n) text =
    let room = (out_size + 2 ^ 64 - n) % 2 ^ 64 in
    (if n == length out then out ++ snprintf room text else out, n + length text)

-- "%-28s"
abbrev padded : List ℕ → List ℕ
padded name = name ++ replicate (28 - length name) 32

-- `ROW`
unfoldable pub row : List ℕ → Bool → List ℕ → List ℕ
row name ok note =
    bytes "  "
    ++ padded name
    ++ bytes " "
    ++ (if ok then bytes "yes" else bytes "no ")
    ++ (if length note == 0 then [] else bytes "  - ")
    ++ note
    ++ bytes "\n"

-- The texts that are said in turn: the head, the rows and the last line.
unfoldable pub texts : (arch : List ℕ) → (release : List ℕ) → Flags → Bool → Bool → List (List ℕ)
texts arch release f seccomp supported =
    (bytes "emuroot 0.1.0 on " ++ arch ++ bytes ", Linux " ++ release ++ bytes "\n")
    ∷ row (bytes "trace a child (ptrace)") f.traced
        (if f.traced then [] else bytes "full emulation unavailable; env-only fallback is used")
    ∷ row (bytes "follow fork/clone") f.follow []
    ∷ row (bytes "registers: GETREGSET") f.regset (
        if f.regset
        then []
        else if f.getregs
        then bytes "older kernel; PTRACE_GETREGS is used"
        else [])
    ∷ row (bytes "registers: GETREGS") f.getregs []
    ∷ row (bytes "guest memory: process_vm") f.vm
        (if f.vm then [] else bytes "denied here; the next method is used")
    ∷ row (bytes "guest memory: /proc/PID/mem") f.procmem []
    ∷ row (bytes "guest memory: PEEK/POKE") f.peek (bytes "always allowed for a tracer")
    ∷ row (bytes "kill guests if we die") f.exitkill
        (if f.exitkill then [] else bytes "kernel before 3.8; emuroot does it itself")
    ∷ row (bytes "seccomp fast path") (seccomp && supported) (
        if seccomp
        then (if supported then [] else bytes "kernel before 4.8; every syscall is traced")
        else bytes "not permitted here; every syscall is traced")
    ∷ (bytes "=> "
        ++ (if usable f
            then bytes "full emulation available"
            else bytes "degraded: env-only fallback")
        ++ bytes "\n")
    ∷ []

unfoldable pub say_all : List ℕ × ℕ → List (List ℕ) → List ℕ × ℕ
say_all s [] = s
say_all s (text ∷ ts) = say_all (say s text) ts

-- The text in a buffer of `len` bytes, and the answer.
unfoldable pub emuroot_diagnose :
    (arch : List ℕ) → (release : List ℕ) → ℕ → Option Child → Option Ended → Bool → ℕ → List ℕ × ℕ
emuroot_diagnose arch release size child second supported len =
    let f = flags size child in
    let (out, n) = say_all ([], 0) (texts arch release f (seccomp_flag second) supported) in
    (snprintf len out, if usable f then 0 else 1)
