-- ===== src/Identity.antt =====
-- src/identity.c: the arguments of credential calls that the kernel gets, and the file that a call
-- may create. The effective ids of the tracer, and lstat, are arguments.
pub mod Notes
use emuroot.Base.{
  ℕ, zero, suc, ◌-◌, ◌^◌, Bool, true, false, not, ◌&&◌, ◌||◌, Option, none, some, List, [], ◌∷◌,
  ◌==◌, if◌then◌else◌,
}
use emuroot.Context.{Ctx}
use emuroot.Creds.{Creds, noid}
use emuroot.Regs.{Args, reg_arg, set_arg}
use emuroot.Dac.{OpenFlags, has, is_any}
use emuroot.Syscalls.{
  Abi, Name, Action, a_setuid, a_setgid, a_setreuid, a_setregid, a_setresuid, a_setresgid,
  a_setfsuid, a_setfsgid, is_call, nr_open, nr_openat, nr_creat, nr_mkdir, nr_mkdirat, nr_mknod,
  nr_mknodat, nr_symlink, nr_symlinkat,
}

unfoldable pub neutralize_id_change : ℕ → ℕ → Args → Action → Args
neutralize_id_change euid egid regs a_setuid = set_arg regs 1 euid
neutralize_id_change euid egid regs a_setgid = set_arg regs 1 egid
neutralize_id_change euid egid regs a_setreuid = set_arg (set_arg regs 2 noid) 1 noid
neutralize_id_change euid egid regs a_setregid = set_arg (set_arg regs 2 noid) 1 noid
neutralize_id_change euid egid regs a_setresuid =
    set_arg (set_arg (set_arg regs 3 noid) 2 noid) 1 noid
neutralize_id_change euid egid regs a_setresgid =
    set_arg (set_arg (set_arg regs 3 noid) 2 noid) 1 noid
neutralize_id_change euid egid regs a_setfsuid = set_arg regs 1 noid
neutralize_id_change euid egid regs a_setfsgid = set_arg regs 1 noid
neutralize_id_change euid egid regs action = regs

unfoldable pub creating_calls : List Name
creating_calls =
    nr_creat ∷ nr_mkdir ∷ nr_mkdirat ∷ nr_mknod ∷ nr_mknodat ∷ nr_symlink ∷ nr_symlinkat ∷ []

unfoldable pub creates_file : Abi → OpenFlags → Args → ℕ → Bool
creates_file abi f regs sysno =
    if is_call abi nr_open sysno
    then has (reg_arg regs 2) f.o_creat
    else if is_call abi nr_openat sysno
    then has (reg_arg regs 3) f.o_creat
    else is_any abi creating_calls sysno

-- What becomes of the tracee's `created`, where `host` is what emuroot_host_path_arg answers and
-- `exists` whether lstat finds that path.
unfoldable pub emuroot_note_creation :
    Abi → OpenFlags → Ctx → Creds → Args → ℕ → Option (List ℕ) → (List ℕ → Bool) → List ℕ → List ℕ
emuroot_note_creation abi f ctx c regs sysno host exists created =
    if not ctx.has_fake_ids || (c.fsuid == ctx.fake_uid && c.fsgid == ctx.fake_gid)
    then created
    else if not (creates_file abi f regs sysno)
    then created
    else elim host [ none ↦ [] | some path ↦ if exists path then [] else path ]
