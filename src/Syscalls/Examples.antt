-- ===== src/Syscalls/Examples.antt =====
-- The tables on a target that defines every call, each with a number of its own.
use emuroot.Base.{some-injective, ◌≡◌, refl, sym, ◌∙◌, ap, true, false, some, List, [], ◌∷◌, get_or}
use emuroot.Syscalls.{
  Name, Abi, ActionEntry, a_getuid, nr_chroot, nr_open, nr_creat, nr_stat, nr_stat64, nr_lstat,
  nr_lstat64, nr_access, nr_readlink, nr_chdir, nr_rmdir, nr_unlink, nr_mkdir, nr_chmod, nr_chown,
  nr_chown32, nr_lchown, nr_lchown32, nr_truncate, nr_truncate64, nr_utime, nr_utimes, nr_mknod,
  nr_statfs, nr_statfs64, nr_getxattr, nr_lgetxattr, nr_setxattr, nr_lsetxattr, nr_listxattr,
  nr_llistxattr, nr_removexattr, nr_lremovexattr, nr_rename, nr_link, nr_symlink, nr_openat,
  nr_openat2, nr_mkdirat, nr_unlinkat, nr_newfstatat, nr_fstatat64, nr_statx, nr_readlinkat,
  nr_fchmodat, nr_fchmodat2, nr_fchownat, nr_utimensat, nr_futimesat, nr_faccessat, nr_faccessat2,
  nr_mknodat, nr_renameat, nr_renameat2, nr_linkat, nr_symlinkat, nr_inotify_add_watch, nr_getuid,
  nr_getuid32, nr_geteuid, nr_geteuid32, nr_getgid, nr_getgid32, nr_getegid, nr_getegid32,
  nr_getresuid, nr_getresuid32, nr_getresgid, nr_getresgid32, nr_getgroups, nr_getgroups32,
  nr_setuid, nr_setuid32, nr_setgid, nr_setgid32, nr_setreuid, nr_setreuid32, nr_setregid,
  nr_setregid32, nr_setresuid, nr_setresuid32, nr_setresgid, nr_setresgid32, nr_setgroups,
  nr_setgroups32, nr_setfsuid, nr_setfsuid32, nr_setfsgid, nr_setfsgid32, nr_fchown, nr_fchown32,
  nr_fstat, nr_fstat64, nr_mount, nr_umount, nr_umount2, nr_execve, nr_getcwd, nr_uname, nr_bind,
  nr_connect, nr_sendto, nr_execveat,
}
use emuroot.Syscalls.Index.{name_index}
use emuroot.Syscalls.Tables.{HasDistinctNumbers}

abbrev names : List Name
names =
    nr_chroot ∷ nr_open ∷ nr_creat ∷ nr_stat ∷ nr_stat64 ∷ nr_lstat ∷ nr_lstat64 ∷ nr_access
    ∷ nr_readlink ∷ nr_chdir ∷ nr_rmdir ∷ nr_unlink ∷ nr_mkdir ∷ nr_chmod ∷ nr_chown ∷ nr_chown32
    ∷ nr_lchown ∷ nr_lchown32 ∷ nr_truncate ∷ nr_truncate64 ∷ nr_utime ∷ nr_utimes ∷ nr_mknod
    ∷ nr_statfs ∷ nr_statfs64 ∷ nr_getxattr ∷ nr_lgetxattr ∷ nr_setxattr ∷ nr_lsetxattr
    ∷ nr_listxattr ∷ nr_llistxattr ∷ nr_removexattr ∷ nr_lremovexattr ∷ nr_rename ∷ nr_link
    ∷ nr_symlink ∷ nr_openat ∷ nr_openat2 ∷ nr_mkdirat ∷ nr_unlinkat ∷ nr_newfstatat ∷ nr_fstatat64
    ∷ nr_statx ∷ nr_readlinkat ∷ nr_fchmodat ∷ nr_fchmodat2 ∷ nr_fchownat ∷ nr_utimensat
    ∷ nr_futimesat ∷ nr_faccessat ∷ nr_faccessat2 ∷ nr_mknodat ∷ nr_renameat ∷ nr_renameat2
    ∷ nr_linkat ∷ nr_symlinkat ∷ nr_inotify_add_watch ∷ nr_getuid ∷ nr_getuid32 ∷ nr_geteuid
    ∷ nr_geteuid32 ∷ nr_getgid ∷ nr_getgid32 ∷ nr_getegid ∷ nr_getegid32 ∷ nr_getresuid
    ∷ nr_getresuid32 ∷ nr_getresgid ∷ nr_getresgid32 ∷ nr_getgroups ∷ nr_getgroups32 ∷ nr_setuid
    ∷ nr_setuid32 ∷ nr_setgid ∷ nr_setgid32 ∷ nr_setreuid ∷ nr_setreuid32 ∷ nr_setregid
    ∷ nr_setregid32 ∷ nr_setresuid ∷ nr_setresuid32 ∷ nr_setresgid ∷ nr_setresgid32 ∷ nr_setgroups
    ∷ nr_setgroups32 ∷ nr_setfsuid ∷ nr_setfsuid32 ∷ nr_setfsgid ∷ nr_setfsgid32 ∷ nr_fchown
    ∷ nr_fchown32 ∷ nr_fstat ∷ nr_fstat64 ∷ nr_mount ∷ nr_umount ∷ nr_umount2 ∷ nr_execve
    ∷ nr_getcwd ∷ nr_uname ∷ nr_bind ∷ nr_connect ∷ nr_sendto ∷ nr_execveat ∷ []

-- The target's numbers are the macros' positions.
abbrev target : Abi
target = record { number = λ name. some (name_index name); lp64 = true }

names-index : (a : Name) → get_or names (name_index a) nr_chroot ≡ a
unfolding name_index
names-index nr_chroot = refl
names-index nr_open = refl
names-index nr_creat = refl
names-index nr_stat = refl
names-index nr_stat64 = refl
names-index nr_lstat = refl
names-index nr_lstat64 = refl
names-index nr_access = refl
names-index nr_readlink = refl
names-index nr_chdir = refl
names-index nr_rmdir = refl
names-index nr_unlink = refl
names-index nr_mkdir = refl
names-index nr_chmod = refl
names-index nr_chown = refl
names-index nr_chown32 = refl
names-index nr_lchown = refl
names-index nr_lchown32 = refl
names-index nr_truncate = refl
names-index nr_truncate64 = refl
names-index nr_utime = refl
names-index nr_utimes = refl
names-index nr_mknod = refl
names-index nr_statfs = refl
names-index nr_statfs64 = refl
names-index nr_getxattr = refl
names-index nr_lgetxattr = refl
names-index nr_setxattr = refl
names-index nr_lsetxattr = refl
names-index nr_listxattr = refl
names-index nr_llistxattr = refl
names-index nr_removexattr = refl
names-index nr_lremovexattr = refl
names-index nr_rename = refl
names-index nr_link = refl
names-index nr_symlink = refl
names-index nr_openat = refl
names-index nr_openat2 = refl
names-index nr_mkdirat = refl
names-index nr_unlinkat = refl
names-index nr_newfstatat = refl
names-index nr_fstatat64 = refl
names-index nr_statx = refl
names-index nr_readlinkat = refl
names-index nr_fchmodat = refl
names-index nr_fchmodat2 = refl
names-index nr_fchownat = refl
names-index nr_utimensat = refl
names-index nr_futimesat = refl
names-index nr_faccessat = refl
names-index nr_faccessat2 = refl
names-index nr_mknodat = refl
names-index nr_renameat = refl
names-index nr_renameat2 = refl
names-index nr_linkat = refl
names-index nr_symlinkat = refl
names-index nr_inotify_add_watch = refl
names-index nr_getuid = refl
names-index nr_getuid32 = refl
names-index nr_geteuid = refl
names-index nr_geteuid32 = refl
names-index nr_getgid = refl
names-index nr_getgid32 = refl
names-index nr_getegid = refl
names-index nr_getegid32 = refl
names-index nr_getresuid = refl
names-index nr_getresuid32 = refl
names-index nr_getresgid = refl
names-index nr_getresgid32 = refl
names-index nr_getgroups = refl
names-index nr_getgroups32 = refl
names-index nr_setuid = refl
names-index nr_setuid32 = refl
names-index nr_setgid = refl
names-index nr_setgid32 = refl
names-index nr_setreuid = refl
names-index nr_setreuid32 = refl
names-index nr_setregid = refl
names-index nr_setregid32 = refl
names-index nr_setresuid = refl
names-index nr_setresuid32 = refl
names-index nr_setresgid = refl
names-index nr_setresgid32 = refl
names-index nr_setgroups = refl
names-index nr_setgroups32 = refl
names-index nr_setfsuid = refl
names-index nr_setfsuid32 = refl
names-index nr_setfsgid = refl
names-index nr_setfsgid32 = refl
names-index nr_fchown = refl
names-index nr_fchown32 = refl
names-index nr_fstat = refl
names-index nr_fstat64 = refl
names-index nr_mount = refl
names-index nr_umount = refl
names-index nr_umount2 = refl
names-index nr_execve = refl
names-index nr_getcwd = refl
names-index nr_uname = refl
names-index nr_bind = refl
names-index nr_connect = refl
names-index nr_sendto = refl
names-index nr_execveat = refl

pub target-HasDistinctNumbers : HasDistinctNumbers target
target-HasDistinctNumbers a b n ea eb =
    sym (names-index a)
    ∙ (ap (λ i. get_or names i nr_chroot)
          (some-injective {a = name_index a} {b = name_index b} (ea ∙ sym eb))
        ∙ names-index b)

abbrev getuid_entry : ActionEntry
getuid_entry = record { name = nr_getuid; action = a_getuid; needs_lp64 = false }
