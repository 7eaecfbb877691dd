-- ===== src/Ptrace/Report.antt =====
-- src/ptrace.c, report_seccomp_kill: which system call the system's own filter has refused.
use emuroot.Base.{ℕ, ◌+◌, ◌*◌, Option, none, some, List, ◌==◌, if◌then◌else◌, get_or}

-- The int at an offset, lowest byte first
abbrev int_at : List ℕ → ℕ → ℕ
int_at info i =
    get_or info i 0
    + get_or info (i + 1) 0 * 0x100
    + get_or info (i + 2) 0 * 0x10000
    + get_or info (i + 3) 0 * 0x1000000

-- `size` is sizeof(long), and sizeof(void *) too; `answer` is the siginfo that PTRACE_GETSIGINFO gives,
-- none where it fails. The number that is reported, if one is.
unfoldable pub report_seccomp_kill : (size : ℕ) → (answer : Option (List ℕ)) → Option ℕ
report_seccomp_kill size none = none
report_seccomp_kill size (some info) =
    if int_at info 8 == 1 then some (int_at info ((if size == 8 then 16 else 12) + size)) else none
