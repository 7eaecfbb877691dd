-- ===== src/Dac/Examples.antt =====
-- A read-only directory that a fake root makes a file in.
use emuroot.Base.{ℕ, true, Option, none, some, List, if◌then◌else◌}
use emuroot.Cstring.{bytes, str_eq}
use emuroot.Syscalls.{Abi}
use emuroot.Regs.{Args}
use emuroot.Dac.{Dac, OpenFlags, Stat, Host, Chmod}
use emuroot.Syscalls.Index.{name_index}

abbrev target : Abi
target = record { number = λ name. some (name_index name); lp64 = true }

abbrev linux_flags : OpenFlags
linux_flags = record {
  o_creat = 0o100;
  o_excl = 0o200;
  o_trunc = 0o1000;
  o_accmode = 3;
  o_rdonly = 0;
  o_nofollow = 0o400000;
}

unfoldable stat_of : List ℕ → Option Stat
stat_of p =
    if str_eq p (bytes "/srv")
    then some (record { uid = 1000; mode = 0o555; is_dir = true })
    else none

abbrev host : Host
host = record { stat = stat_of; euid = 1000 }

-- mkdir("/srv/a"), which is number 12 here
abbrev mkdir_args : Args
mkdir_args = record { arg1 = 4096; arg2 = 0o755; arg3 = 0; arg4 = 0; arg5 = 0; arg6 = 0 }

abbrev made : Chmod
made = record { path = bytes "/srv"; mode = 0o755 }
