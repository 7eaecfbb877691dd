-- ===== src/Syscalls.antt =====
-- src/syscalls.h and src/syscalls.c: which calls emuroot handles, and how. A call is named by its
-- __NR_ macro; what number the target's <sys/syscall.h> gives it, if any, is the parameter `Abi`.
pub mod Index
pub mod Tables
pub mod Traced
pub mod Examples
use emuroot.Base.{
  not, ◌&&◌, ℕ, Bool, true, false, Option, none, some, List, [], ◌∷◌, ◌++◌, ◌==◌, if◌then◌else◌,
  map,
}

-- The macros __NR_… that the sources test.
pub data Name : Type 0 where
  nr_chroot nr_open nr_creat nr_stat nr_stat64 nr_lstat nr_lstat64 nr_access nr_readlink nr_chdir
        nr_rmdir nr_unlink nr_mkdir nr_chmod nr_chown nr_chown32 nr_lchown nr_lchown32 nr_truncate
        nr_truncate64 nr_utime nr_utimes nr_mknod nr_statfs nr_statfs64 nr_getxattr nr_lgetxattr
        nr_setxattr nr_lsetxattr nr_listxattr nr_llistxattr nr_removexattr nr_lremovexattr nr_rename
        nr_link nr_symlink nr_openat nr_openat2 nr_mkdirat nr_unlinkat nr_newfstatat nr_fstatat64
        nr_statx nr_readlinkat nr_fchmodat nr_fchmodat2 nr_fchownat nr_utimensat nr_futimesat
        nr_faccessat nr_faccessat2 nr_mknodat nr_renameat nr_renameat2 nr_linkat nr_symlinkat
        nr_inotify_add_watch nr_getuid nr_getuid32 nr_geteuid nr_geteuid32 nr_getgid nr_getgid32
        nr_getegid nr_getegid32 nr_getresuid nr_getresuid32 nr_getresgid nr_getresgid32 nr_getgroups
        nr_getgroups32 nr_setuid nr_setuid32 nr_setgid nr_setgid32 nr_setreuid nr_setreuid32
        nr_setregid nr_setregid32 nr_setresuid nr_setresuid32 nr_setresgid nr_setresgid32
        nr_setgroups nr_setgroups32 nr_setfsuid nr_setfsuid32 nr_setfsgid nr_setfsgid32 nr_fchown
        nr_fchown32 nr_fstat nr_fstat64 nr_mount nr_umount nr_umount2 nr_execve nr_getcwd nr_uname
        nr_bind nr_connect nr_sendto nr_execveat :
      Name

-- The target: the number that <sys/syscall.h> defines for a macro, or none, and whether __LP64__ is.
pub record Abi : Type 0 where
  pub number : Name → Option ℕ
  pub lp64 : Bool

-- `enum follow_mode`
pub data FollowMode : Type 0 where
  m_follow m_nofollow m_open m_openat2 m_at m_linkat : FollowMode

pub record PathSyscall : Type 0 where
  pub sysno : ℕ
  pub slot1 : ℕ
  pub slot2 : ℕ
  pub mode : FollowMode
  pub flag_slot : ℕ

-- `enum action`
pub data Action : Type 0 where
  a_getuid a_geteuid a_getgid a_getegid a_getresuid a_getresgid a_getgroups a_setuid a_setgid
        a_setreuid a_setregid a_setresuid a_setresgid a_setgroups a_setfsuid a_setfsgid a_chown
        a_stat_2 a_stat_3 a_statx a_getcwd a_chroot a_mount a_umount a_readlink a_execve a_uname :
      Action

pub record ActionSyscall : Type 0 where
  pub sysno : ℕ
  pub action : Action

-- An entry of the path table before the preprocessor: its macro and the rest of its fields.
pub record PathEntry : Type 0 where
  pub name : Name
  pub slot1 : ℕ
  pub slot2 : ℕ
  pub mode : FollowMode
  pub flag_slot : ℕ

-- An entry of the action table; `needs_lp64` where its condition names __LP64__ too.
pub record ActionEntry : Type 0 where
  pub name : Name
  pub action : Action
  pub needs_lp64 : Bool

abbrev at : Name → ℕ → ℕ → FollowMode → ℕ → PathEntry
at name slot1 slot2 mode flag_slot = record {
  name = name;
  slot1 = slot1;
  slot2 = slot2;
  mode = mode;
  flag_slot = flag_slot;
}

abbrev does : Name → Action → ActionEntry
does name action = record { name = name; action = action; needs_lp64 = false }

abbrev does_lp64 : Name → Action → ActionEntry
does_lp64 name action = record { name = name; action = action; needs_lp64 = true }

unfoldable pub path_entries : List PathEntry
path_entries =
    at nr_chroot 1 0 m_follow 0
    ∷ at nr_open 1 0 m_open 2
    ∷ at nr_creat 1 0 m_follow 0
    ∷ at nr_stat 1 0 m_follow 0
    ∷ at nr_stat64 1 0 m_follow 0
    ∷ at nr_lstat 1 0 m_nofollow 0
    ∷ at nr_lstat64 1 0 m_nofollow 0
    ∷ at nr_access 1 0 m_follow 0
    ∷ at nr_readlink 1 0 m_nofollow 0
    ∷ at nr_chdir 1 0 m_follow 0
    ∷ at nr_rmdir 1 0 m_nofollow 0
    ∷ at nr_unlink 1 0 m_nofollow 0
    ∷ at nr_mkdir 1 0 m_nofollow 0
    ∷ at nr_chmod 1 0 m_follow 0
    ∷ at nr_chown 1 0 m_follow 0
    ∷ at nr_chown32 1 0 m_follow 0
    ∷ at nr_lchown 1 0 m_nofollow 0
    ∷ at nr_lchown32 1 0 m_nofollow 0
    ∷ at nr_truncate 1 0 m_follow 0
    ∷ at nr_truncate64 1 0 m_follow 0
    ∷ at nr_utime 1 0 m_follow 0
    ∷ at nr_utimes 1 0 m_follow 0
    ∷ at nr_mknod 1 0 m_nofollow 0
    ∷ at nr_statfs 1 0 m_follow 0
    ∷ at nr_statfs64 1 0 m_follow 0
    ∷ at nr_getxattr 1 0 m_follow 0
    ∷ at nr_lgetxattr 1 0 m_nofollow 0
    ∷ at nr_setxattr 1 0 m_follow 0
    ∷ at nr_lsetxattr 1 0 m_nofollow 0
    ∷ at nr_listxattr 1 0 m_follow 0
    ∷ at nr_llistxattr 1 0 m_nofollow 0
    ∷ at nr_removexattr 1 0 m_follow 0
    ∷ at nr_lremovexattr 1 0 m_nofollow 0
    ∷ at nr_rename 1 2 m_nofollow 0
    ∷ at nr_link 1 2 m_nofollow 0
    ∷ at nr_symlink 2 0 m_nofollow 0
    ∷ at nr_openat 2 0 m_open 3
    ∷ at nr_openat2 2 0 m_openat2 3
    ∷ at nr_mkdirat 2 0 m_nofollow 0
    ∷ at nr_unlinkat 2 0 m_nofollow 0
    ∷ at nr_newfstatat 2 0 m_at 4
    ∷ at nr_fstatat64 2 0 m_at 4
    ∷ at nr_statx 2 0 m_at 3
    ∷ at nr_readlinkat 2 0 m_nofollow 0
    ∷ at nr_fchmodat 2 0 m_follow 0
    ∷ at nr_fchmodat2 2 0 m_at 4
    ∷ at nr_fchownat 2 0 m_at 5
    ∷ at nr_utimensat 2 0 m_at 4
    ∷ at nr_futimesat 2 0 m_follow 0
    ∷ at nr_faccessat 2 0 m_follow 0
    ∷ at nr_faccessat2 2 0 m_at 4
    ∷ at nr_mknodat 2 0 m_nofollow 0
    ∷ at nr_renameat 2 4 m_nofollow 0
    ∷ at nr_renameat2 2 4 m_nofollow 0
    ∷ at nr_linkat 2 4 m_linkat 5
    ∷ at nr_symlinkat 3 0 m_nofollow 0
    ∷ at nr_inotify_add_watch 2 0 m_follow 0
    ∷ []

unfoldable pub action_entries : List ActionEntry
action_entries =
    does nr_getuid a_getuid
    ∷ does nr_getuid32 a_getuid
    ∷ does nr_geteuid a_geteuid
    ∷ does nr_geteuid32 a_geteuid
    ∷ does nr_getgid a_getgid
    ∷ does nr_getgid32 a_getgid
    ∷ does nr_getegid a_getegid
    ∷ does nr_getegid32 a_getegid
    ∷ does nr_getresuid a_getresuid
    ∷ does nr_getresuid32 a_getresuid
    ∷ does nr_getresgid a_getresgid
    ∷ does nr_getresgid32 a_getresgid
    ∷ does nr_getgroups a_getgroups
    ∷ does nr_getgroups32 a_getgroups
    ∷ does nr_setuid a_setuid
    ∷ does nr_setuid32 a_setuid
    ∷ does nr_setgid a_setgid
    ∷ does nr_setgid32 a_setgid
    ∷ does nr_setreuid a_setreuid
    ∷ does nr_setreuid32 a_setreuid
    ∷ does nr_setregid a_setregid
    ∷ does nr_setregid32 a_setregid
    ∷ does nr_setresuid a_setresuid
    ∷ does nr_setresuid32 a_setresuid
    ∷ does nr_setresgid a_setresgid
    ∷ does nr_setresgid32 a_setresgid
    ∷ does nr_setgroups a_setgroups
    ∷ does nr_setgroups32 a_setgroups
    ∷ does nr_setfsuid a_setfsuid
    ∷ does nr_setfsuid32 a_setfsuid
    ∷ does nr_setfsgid a_setfsgid
    ∷ does nr_setfsgid32 a_setfsgid
    ∷ does nr_chown a_chown
    ∷ does nr_chown32 a_chown
    ∷ does nr_lchown a_chown
    ∷ does nr_lchown32 a_chown
    ∷ does nr_fchown a_chown
    ∷ does nr_fchown32 a_chown
    ∷ does nr_fchownat a_chown
    ∷ does_lp64 nr_stat a_stat_2
    ∷ does_lp64 nr_lstat a_stat_2
    ∷ does_lp64 nr_fstat a_stat_2
    ∷ does_lp64 nr_newfstatat a_stat_3
    ∷ does nr_stat64 a_stat_2
    ∷ does nr_lstat64 a_stat_2
    ∷ does nr_fstat64 a_stat_2
    ∷ does nr_fstatat64 a_stat_3
    ∷ does nr_statx a_statx
    ∷ does nr_chroot a_chroot
    ∷ does nr_mount a_mount
    ∷ does nr_umount a_umount
    ∷ does nr_umount2 a_umount
    ∷ does nr_readlink a_readlink
    ∷ does nr_readlinkat a_readlink
    ∷ does nr_execve a_execve
    ∷ does nr_getcwd a_getcwd
    ∷ does nr_uname a_uname
    ∷ []

-- The tables that the preprocessor leaves.
unfoldable pub defined_paths : Abi → List PathEntry → List PathSyscall
defined_paths abi [] = []
defined_paths abi (e ∷ es) = elim (abi.number e.name) [
  | none ↦ defined_paths abi es
  | some n ↦
      record { sysno = n; slot1 = e.slot1; slot2 = e.slot2; mode = e.mode; flag_slot = e.flag_slot }
      ∷ defined_paths abi es
]

unfoldable pub defined_actions : Abi → List ActionEntry → List ActionSyscall
defined_actions abi [] = []
defined_actions abi (e ∷ es) =
    let rest = defined_actions abi es in
    if e.needs_lp64 && not abi.lp64 then rest else elim (abi.number e.name) [
      | none ↦ rest
      | some n ↦ record { sysno = n; action = e.action } ∷ rest
    ]

unfoldable pub path_syscalls : Abi → List PathSyscall
path_syscalls abi = defined_paths abi path_entries

unfoldable pub action_syscalls : Abi → List ActionSyscall
action_syscalls abi = defined_actions abi action_entries

pub first_action : List ActionSyscall → ℕ → Option Action
first_action [] sysno = none
first_action (e ∷ es) sysno = if e.sysno == sysno then some e.action else first_action es sysno

-- None stands for -1.
unfoldable pub emuroot_action_of : Abi → ℕ → Option Action
emuroot_action_of abi sysno = first_action (action_syscalls abi) sysno

pub first_path : List PathSyscall → ℕ → Option PathSyscall
first_path [] sysno = none
first_path (d ∷ ds) sysno = if d.sysno == sysno then some d else first_path ds sysno

-- rewrite.c
unfoldable pub emuroot_find_path_syscall : Abi → ℕ → Option PathSyscall
emuroot_find_path_syscall abi sysno = first_path (path_syscalls abi) sysno

-- `#ifdef __NR_name … sysno == __NR_name`
unfoldable pub is_call : Abi → Name → ℕ → Bool
is_call abi name sysno = elim (abi.number name) [ none ↦ false | some n ↦ sysno == n ]

-- `#ifdef __NR_name out[n++] = __NR_name; #endif`
unfoldable pub defined_number : Abi → Name → List ℕ
defined_number abi name = elim (abi.number name) [ none ↦ [] | some n ↦ n ∷ [] ]

-- src/ptrace.c: the numbers that the seccomp filter stops at.
unfoldable pub traced_syscalls : Abi → List ℕ
traced_syscalls abi =
    map (λ (d : PathSyscall). d.sysno) (path_syscalls abi)
    ++ (map (λ (a : ActionSyscall). a.sysno) (action_syscalls abi)
        ++ (defined_number abi nr_execve
            ++ (defined_number abi nr_bind
                ++ (defined_number abi nr_connect ++ defined_number abi nr_sendto))))
