-- ===== src/Kernel/Sample.antt =====
-- A kernel to run the handlers with: a guest that has a text at 4096 and a file tree without links.
use emuroot.Base.{ℕ, ◌==◌, true, false, none, some, List, [], if◌then◌else◌, take}
use emuroot.Cstring.{bytes}
use emuroot.Syscalls.{Abi}
use emuroot.Syscalls.Index.{name_index}
use emuroot.Dac.{OpenFlags}
use emuroot.Context.{emuroot_create}
use emuroot.Regs.{Args}
use emuroot.Tracee.{Tracee, zero_tracee}
use emuroot.Kernel.{StatLayout, Kernel, Stop}

abbrev pub target : Abi
target = record { number = λ name. some (name_index name); lp64 = true }

abbrev linux_flags : OpenFlags
linux_flags = record {
  o_creat = 0o100;
  o_excl = 0o200;
  o_trunc = 0o1000;
  o_accmode = 3;
  o_rdonly = 0;
  o_nofollow = 0o400000;
}

abbrev x86_stat : StatLayout
x86_stat = record { uid = 28; gid = 32; dev = 0; ino = 8; statx = false }

abbrev pub path_addr : ℕ
path_addr = 4096

-- The world is what has been written last.
abbrev pub sample : Kernel (List ℕ)
sample = record {
  abi = target;
  flags = linux_flags;
  euid = 1000;
  egid = 1000;
  stat_layout = x86_stat;
  read = λ w pid addr n. if addr == path_addr then take n (bytes "/etc/x\0y") else [];
  fault = λ w pid addr. false;
  write = λ w pid addr text. (text, true);
  stat = λ w path. none;
  lstat = λ w path. none;
  readlink = λ w path. none;
  realpath = λ w path. none;
  contents = λ w path. none;
  proc_link = λ w pid start. none;
  proc_stat = λ w pid fd. none;
  chmod = λ w path mode. w;
  fresh = true;
  room = true;
}

abbrev pub args_of : ℕ → Args
args_of a = record { arg1 = a; arg2 = 0; arg3 = 0; arg4 = 0; arg5 = 0; arg6 = 0 }

-- A process under /srv at a call with one argument.
unfoldable pub tracee : Tracee
unfolding zero_tracee
tracee = record zero_tracee { pid = 7; root = bytes "/srv"; scratch_top = 65536 }

unfoldable pub at_call : ℕ → ℕ → Stop (List ℕ)
at_call nr a = record {
  world = [];
  ctx = emuroot_create;
  owners = none;
  loaders = [];
  t = tracee;
  regs = record { nr = nr; sp = 131072; ret = 0; args = args_of a };
}
