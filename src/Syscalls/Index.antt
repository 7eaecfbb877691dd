-- ===== src/Syscalls/Index.antt =====
-- A number for each system-call macro, by which the tables are compared.
use emuroot.Base.{ℕ}
use emuroot.Syscalls.{
  Name, nr_chroot, nr_open, nr_creat, nr_stat, nr_stat64, nr_lstat, nr_lstat64, nr_access,
  nr_readlink, nr_chdir, nr_rmdir, nr_unlink, nr_mkdir, nr_chmod, nr_chown, nr_chown32, nr_lchown,
  nr_lchown32, nr_truncate, nr_truncate64, nr_utime, nr_utimes, nr_mknod, nr_statfs, nr_statfs64,
  nr_getxattr, nr_lgetxattr, nr_setxattr, nr_lsetxattr, nr_listxattr, nr_llistxattr, nr_removexattr,
  nr_lremovexattr, nr_rename, nr_link, nr_symlink, nr_openat, nr_openat2, nr_mkdirat, nr_unlinkat,
  nr_newfstatat, nr_fstatat64, nr_statx, nr_readlinkat, nr_fchmodat, nr_fchmodat2, nr_fchownat,
  nr_utimensat, nr_futimesat, nr_faccessat, nr_faccessat2, nr_mknodat, nr_renameat, nr_renameat2,
  nr_linkat, nr_symlinkat, nr_inotify_add_watch, nr_getuid, nr_getuid32, nr_geteuid, nr_geteuid32,
  nr_getgid, nr_getgid32, nr_getegid, nr_getegid32, nr_getresuid, nr_getresuid32, nr_getresgid,
  nr_getresgid32, nr_getgroups, nr_getgroups32, nr_setuid, nr_setuid32, nr_setgid, nr_setgid32,
  nr_setreuid, nr_setreuid32, nr_setregid, nr_setregid32, nr_setresuid, nr_setresuid32,
  nr_setresgid, nr_setresgid32, nr_setgroups, nr_setgroups32, nr_setfsuid, nr_setfsuid32,
  nr_setfsgid, nr_setfsgid32, nr_fchown, nr_fchown32, nr_fstat, nr_fstat64, nr_mount, nr_umount,
  nr_umount2, nr_execve, nr_getcwd, nr_uname, nr_bind, nr_connect, nr_sendto, nr_execveat,
}

-- The macros in the order of their type.
unfoldable pub name_index : Name → ℕ
name_index nr_chroot = 0
name_index nr_open = 1
name_index nr_creat = 2
name_index nr_stat = 3
name_index nr_stat64 = 4
name_index nr_lstat = 5
name_index nr_lstat64 = 6
name_index nr_access = 7
name_index nr_readlink = 8
name_index nr_chdir = 9
name_index nr_rmdir = 10
name_index nr_unlink = 11
name_index nr_mkdir = 12
name_index nr_chmod = 13
name_index nr_chown = 14
name_index nr_chown32 = 15
name_index nr_lchown = 16
name_index nr_lchown32 = 17
name_index nr_truncate = 18
name_index nr_truncate64 = 19
name_index nr_utime = 20
name_index nr_utimes = 21
name_index nr_mknod = 22
name_index nr_statfs = 23
name_index nr_statfs64 = 24
name_index nr_getxattr = 25
name_index nr_lgetxattr = 26
name_index nr_setxattr = 27
name_index nr_lsetxattr = 28
name_index nr_listxattr = 29
name_index nr_llistxattr = 30
name_index nr_removexattr = 31
name_index nr_lremovexattr = 32
name_index nr_rename = 33
name_index nr_link = 34
name_index nr_symlink = 35
name_index nr_openat = 36
name_index nr_openat2 = 37
name_index nr_mkdirat = 38
name_index nr_unlinkat = 39
name_index nr_newfstatat = 40
name_index nr_fstatat64 = 41
name_index nr_statx = 42
name_index nr_readlinkat = 43
name_index nr_fchmodat = 44
name_index nr_fchmodat2 = 45
name_index nr_fchownat = 46
name_index nr_utimensat = 47
name_index nr_futimesat = 48
name_index nr_faccessat = 49
name_index nr_faccessat2 = 50
name_index nr_mknodat = 51
name_index nr_renameat = 52
name_index nr_renameat2 = 53
name_index nr_linkat = 54
name_index nr_symlinkat = 55
name_index nr_inotify_add_watch = 56
name_index nr_getuid = 57
name_index nr_getuid32 = 58
name_index nr_geteuid = 59
name_index nr_geteuid32 = 60
name_index nr_getgid = 61
name_index nr_getgid32 = 62
name_index nr_getegid = 63
name_index nr_getegid32 = 64
name_index nr_getresuid = 65
name_index nr_getresuid32 = 66
name_index nr_getresgid = 67
name_index nr_getresgid32 = 68
name_index nr_getgroups = 69
name_index nr_getgroups32 = 70
name_index nr_setuid = 71
name_index nr_setuid32 = 72
name_index nr_setgid = 73
name_index nr_setgid32 = 74
name_index nr_setreuid = 75
name_index nr_setreuid32 = 76
name_index nr_setregid = 77
name_index nr_setregid32 = 78
name_index nr_setresuid = 79
name_index nr_setresuid32 = 80
name_index nr_setresgid = 81
name_index nr_setresgid32 = 82
name_index nr_setgroups = 83
name_index nr_setgroups32 = 84
name_index nr_setfsuid = 85
name_index nr_setfsuid32 = 86
name_index nr_setfsgid = 87
name_index nr_setfsgid32 = 88
name_index nr_fchown = 89
name_index nr_fchown32 = 90
name_index nr_fstat = 91
name_index nr_fstat64 = 92
name_index nr_mount = 93
name_index nr_umount = 94
name_index nr_umount2 = 95
name_index nr_execve = 96
name_index nr_getcwd = 97
name_index nr_uname = 98
name_index nr_bind = 99
name_index nr_connect = 100
name_index nr_sendto = 101
name_index nr_execveat = 102
