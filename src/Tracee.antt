-- ===== src/Tracee.antt =====
-- src/tracee.h and the table of traced processes in src/ptrace.c. A pointer to a tracee is its
-- position in the table; what realloc and calloc answer is one argument, `room`.
pub mod Fork
pub mod Frame
mod Examples
use emuroot.Base.{
  ℕ, zero, suc, ◌-◌, Bool, true, false, Option, none, some, List, [], ◌∷◌, ◌++◌, ◌==◌,
  if◌then◌else◌, length, get_or, set, take,
}
use emuroot.Cstring.{snprintf}
use emuroot.Context.{Ctx, path_len}
use emuroot.Creds.{Creds, creds_init}
use emuroot.Regs.{Args}

-- The context that `ctx` points to is an argument of the operations.
pub record Tracee : Type 0 where
  pub pid : ℕ
  pub root : List ℕ
  pub in_syscall : Bool
  pub awaiting_exit : Bool
  pub fresh : Bool
  pub logged : Bool
  pub sysno : ℕ
  pub last_entry : ℕ
  pub args : Args
  pub creds : Creds
  pub scratch_top : ℕ
  pub exe : List ℕ
  pub pending_exe : List ℕ
  pub chown_valid : Bool
  pub chown_dev : ℕ
  pub chown_ino : ℕ
  pub chown_cur_uid : ℕ
  pub chown_cur_gid : ℕ
  pub chown_uid : ℕ
  pub chown_gid : ℕ
  pub created : List ℕ
  pub pending_root : List ℕ
  pub mount_handled : Bool
  pub proc_link : Bool
  pub proc_link_exe : Bool

-- What calloc leaves, before creds_init or tracee_inherit set `creds`.
unfoldable pub zero_tracee : Tracee
zero_tracee = record {
  pid = 0;
  root = [];
  in_syscall = false;
  awaiting_exit = false;
  fresh = false;
  logged = false;
  sysno = 0;
  last_entry = 0;
  args = record { arg1 = 0; arg2 = 0; arg3 = 0; arg4 = 0; arg5 = 0; arg6 = 0 };
  creds = record (creds_init 0 0) { ngroups = 0 };
  scratch_top = 0;
  exe = [];
  pending_exe = [];
  chown_valid = false;
  chown_dev = 0;
  chown_ino = 0;
  chown_cur_uid = 0;
  chown_cur_gid = 0;
  chown_uid = 0;
  chown_gid = 0;
  created = [];
  pending_root = [];
  mount_handled = false;
  proc_link = false;
  proc_link_exe = false;
}

-- The position of the first tracee with the pid, or none for NULL.
unfoldable pub tracee_find : List Tracee → ℕ → Option ℕ
tracee_find [] pid = none
tracee_find (t ∷ tab) pid =
    let rest = tracee_find tab pid in
    if t.pid == pid then some 0 else elim rest [ none ↦ none | some i ↦ some (suc i) ]

abbrev pub tracee_at : List Tracee → ℕ → Tracee
tracee_at tab i = get_or tab i zero_tracee

unfoldable pub tracee_inherit : Tracee → Tracee → Tracee
tracee_inherit child parent = record child {
  creds = parent.creds;
  exe = parent.exe;
  root = parent.root;
}

-- The tracee that tracee_add sets up.
unfoldable pub new_tracee : Ctx → ℕ → Option Tracee → Tracee
unfolding tracee_inherit
new_tracee ctx pid parent =
    let t = record zero_tracee { pid = pid; root = snprintf path_len ctx.root; fresh = true } in
    elim parent [
      | some p ↦ tracee_inherit t p
      | none ↦ record t { creds = creds_init ctx.fake_uid ctx.fake_gid }
    ]

unfoldable pub tracee_add : List Tracee → Ctx → ℕ → Option Tracee → Bool → List Tracee
tracee_add tab ctx pid parent room = if room then tab ++ (new_tracee ctx pid parent ∷ []) else tab

-- The last pointer takes the place of the one at `i`.
unfoldable pub tracee_remove : List Tracee → ℕ → List Tracee
tracee_remove tab i = let n = length tab - 1 in take n (set tab i (tracee_at tab n))

-- handle_stop at a fork, vfork or clone event of the tracee at `i`: the child is known already when
-- its initial stop was seen first.
unfoldable pub fork_event : List Tracee → Ctx → ℕ → ℕ → Bool → List Tracee
fork_event tab ctx i child room =
    let t = tracee_at tab i in
    elim (tracee_find tab child) [
      | some j ↦ set tab j (tracee_inherit (tracee_at tab j) t)
      | none ↦ tracee_add tab ctx child (some t) room
    ]
