-- ===== src/Probe/Report.antt =====
-- src/probe.c: the report fits in the buffer that it is made in.
use mathlib.Core.List.{append_assoc, append-nil}
use emuroot.Base.{
  ℕ, ◌+◌, ◌-◌, ◌^◌, ◌%◌, ◌≤◌, ◌<◌, ◌≡◌, refl, ◌∙◌, Bool, ◌&&◌, Option, List, [], ◌∷◌, ◌++◌, ◌==◌,
  ==_refl, if◌then◌else◌, length, length-append, length-replicate, take_all, arith,
}
use emuroot.Cstring.{bytes, snprintf}
use emuroot.Start.{Ended}
use emuroot.Probe.{
  Child, Flags, flags, seccomp_flag, usable, out_size, say, row, texts, say_all, emuroot_diagnose,
}

-- The texts one behind another
abbrev pub concat : List (List ℕ) → List ℕ
concat [] = []
concat (t ∷ ts) = t ++ concat ts

-- A text that the buffer has room for is appended whole.
say_fits :
    (out text : List ℕ)
    → length out + length text < out_size
    → say (out, length out) text ≡ (out ++ text, length (out ++ text))
unfolding say
say_fits out text h =
    let room : (out_size + 2 ^ 64 - length out) % 2 ^ 64 ≡ out_size - length out = omega arith in
    let whole : snprintf (out_size - length out) text ≡ text =
      take_all (out_size - length out - 1) text (omega arith) in
    rw (==_refl (length out), room) (cc (whole, length-append out text))

say_all_fits :
    (out : List ℕ) (ts : List (List ℕ))
    → length out + length (concat ts) < out_size
    → say_all (out, length out) ts ≡ (out ++ concat ts, length (out ++ concat ts))
unfolding say_all
say_all_fits out [] h = rw (append-nil out)
say_all_fits out (t ∷ ts) h =
    let l = length-append t (concat ts) in
    let l' = length-append out t in
    rw (say_fits out t (omega arith))
      (say_all_fits (out ++ t) ts (omega arith) ∙ rw (append_assoc out t (concat ts)))

length-choice :
    (b : Bool) (s t : List ℕ) (n : ℕ)
    → length s ≤ n
    → length t ≤ n
    → length (if b then s else t) ≤ n
length-choice b s t n h k = ground arith

-- A row is as long as its note and 39 bytes more at most.
length-row :
    (name : List ℕ) (ok : Bool) (note : List ℕ) (n : ℕ)
    → length name ≤ 28
    → length note ≤ n
    → length (row name ok note) ≤ 39 + n
unfolding row
length-row name ok note n h k = simp (length-append) (
    omega (
      arith,
      length-replicate {A = ℕ} (28 - length name) 32,
      length-choice ok (bytes "yes") (bytes "no ") 3 (omega arith) (omega arith),
      length-choice (length note == 0) [] (bytes "  - ") 4 (omega arith) (omega arith),
    ))

short_row :
    (name : List ℕ) (ok : Bool) (note : List ℕ)
    → length name ≤ 28
    → length note ≤ 56
    → length (row name ok note) ≤ 95
short_row name ok note h k = length-row name ok note 56 h k

-- The texts one behind another fit, where the kernel's release is no longer than utsname has room for
-- and the architecture's name no longer than the longest.
length-texts :
    (arch release : List ℕ) (f : Flags) (seccomp supported : Bool)
    → length arch ≤ 11
    → length release ≤ 64
    → length (concat (texts arch release f seccomp supported)) < out_size
unfolding texts
length-texts arch release f seccomp supported h k = simp (length-append) (
    omega (
      arith,
      short_row (bytes "trace a child (ptrace)") f.traced
          (if f.traced then [] else bytes "full emulation unavailable; env-only fallback is used")
          (omega arith) (length-choice f.traced _ _ 56 (omega arith) (omega arith)),
      short_row (bytes "follow fork/clone") f.follow [] (omega arith) (omega arith),
      short_row (bytes "registers: GETREGSET") f.regset
          (if f.regset
            then []
            else if f.getregs
            then bytes "older kernel; PTRACE_GETREGS is used"
            else [])
          (omega arith)
          (length-choice f.regset _ _ 56 (omega arith)
            (length-choice f.getregs _ _ 56 (omega arith) (omega arith))),
      short_row (bytes "registers: GETREGS") f.getregs [] (omega arith) (omega arith),
      short_row (bytes "guest memory: process_vm") f.vm
          (if f.vm then [] else bytes "denied here; the next method is used") (omega arith)
          (length-choice f.vm _ _ 56 (omega arith) (omega arith)),
      short_row (bytes "guest memory: /proc/PID/mem") f.procmem [] (omega arith) (omega arith),
      short_row (bytes "guest memory: PEEK/POKE") f.peek (bytes "always allowed for a tracer")
          (omega arith) (omega arith),
      short_row (bytes "kill guests if we die") f.exitkill
          (if f.exitkill then [] else bytes "kernel before 3.8; emuroot does it itself")
          (omega arith) (length-choice f.exitkill _ _ 56 (omega arith) (omega arith)),
      short_row (bytes "seccomp fast path") (seccomp && supported)
          (if seccomp
            then (if supported then [] else bytes "kernel before 4.8; every syscall is traced")
            else bytes "not permitted here; every syscall is traced")
          (omega arith)
          (length-choice seccomp _ _ 56 (length-choice supported _ _ 56 (omega arith) (omega arith))
            (omega arith)),
      length-choice (usable f) (bytes "full emulation available")
          (bytes "degraded: env-only fallback") 27 (omega arith) (omega arith),
    ))

-- The report is whole: where the architecture's name and the kernel's release are not longer than 11
-- and 64 bytes, each of the texts is there, one behind another, in as many bytes as the caller's
-- buffer has room for, and the bytes counted at the end are fewer than those of the buffer in which
-- the report is made. The answer is 0 where the flags say that full emulation is available, and 1 else.
pub emuroot_diagnose_lem :
    (arch release : List ℕ) (size : ℕ) (child : Option Child) (second : Option Ended)
    (supported : Bool) (len : ℕ)
    → length arch ≤ 11
    → length release ≤ 64
    → let f = flags size child in
      let ts = texts arch release f (seccomp_flag second) supported in
      (emuroot_diagnose arch release size child second supported len
        ≡ (snprintf len (concat ts), if usable f then 0 else 1))
      × ((say_all ([], 0) ts).1 < out_size)
unfolding emuroot_diagnose
emuroot_diagnose_lem arch release size child second supported len h k =
    let f = flags size child in
    let ts = texts arch release f (seccomp_flag second) supported in
    let l = length-texts arch release f (seccomp_flag second) supported h k in
    let s = say_all_fits [] ts (omega (arith, l)) in rw s (refl, l)
