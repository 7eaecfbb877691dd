-- ===== src/Ptrace/Setup.antt =====
-- src/ptrace.c, emuroot_run_ptrace: from the configuration to the first process that is traced, the
-- loop, and what is done behind it. What the kernel answers on the way is an argument.
pub mod Whole
mod Tests
use emuroot.Base.{
  ℕ, ◌+◌, Bool, true, false, not, ◌&&◌, Option, none, some, List, [], ◌∷◌, ◌==◌, if◌then◌else◌,
  length, ℤ, negsuc,
}
use emuroot.Context.{Ctx}
use emuroot.Ownership.{Db, emuroot_owners_load, emuroot_owners_save}
use emuroot.Kernel.{Kernel}
use emuroot.Ptrace.{Engine, Event, Outcome, go, done, started, loop, left_behind}
use emuroot.Ptrace.Prepare.{prepare}

-- What the kernel answers to the child before it runs the program.
pub record Child : Type 0 where
  pub traceme : Bool
  pub same_parent : Bool
  pub chdir : Bool
  pub installs : Bool
  pub writes : Bool

-- The byte that the child writes into the pipe, none where it exits before.
unfoldable pub child_answer : Child → List ℕ → Bool → Option Bool
child_answer c root want_seccomp =
    if not c.traceme
    then none
    else if not c.same_parent
    then none
    else if not (length root == 0) && not c.chdir
    then none
    else if c.writes
    then some (want_seccomp && c.installs)
    else none

-- PTRACE_O_TRACESYSGOOD, _TRACEFORK, _TRACEVFORK, _TRACECLONE, and _TRACESECCOMP
unfoldable pub options : Bool → ℕ
options seccomp_mode = 0x0f + (if seccomp_mode then 0x80 else 0)

-- What the kernel answers to the tracer.
pub record Host : Type 0 where
  pub realpath : List ℕ → Option (List ℕ)
  pub supported : Bool
  pub no_seccomp : Bool
  pub no_exitkill : Bool
  pub pipe : Bool
  pub fork : Option ℕ
  pub child : Child
  pub sets_options : ℕ → Bool
  pub opens_ids_file : Bool

-- Whether the options are set: with PTRACE_O_EXITKILL, or without it.
unfoldable pub follows : Host → Bool → Bool
follows h seccomp_mode =
    if not h.no_exitkill && h.sets_options (options seccomp_mode + 0x100000)
    then true
    else h.sets_options (options seccomp_mode)

-- What a run comes to: its status, the processes that are killed at its end, the table of owners, and
-- the text that is written to the file of owners.
pub record Run (W : Type 0) : Type 0 where
  pub world : W
  pub status : ℤ
  pub killed : List ℕ
  pub owners : Option Db
  pub saved : Option (List ℕ)

module _ {W : Type 0} (k : Kernel W) (h : Host) where
  abbrev pub failing : W → ℤ → List ℕ → Option Db → Run W
  failing w rc pids db = record { world = w; status = rc; killed = pids; owners = db; saved = none }

  abbrev pub saved_by : Engine W → Option (List ℕ)
  saved_by e =
      if length e.ctx.ids_file == 0 then none else emuroot_owners_save e.owners h.opens_ids_file

  -- Behind the loop: all processes that are left are killed. The list of what waitpid tells has ended
  -- where the loop has not.
  unfoldable pub finish : Outcome W → Option (Run W)
  finish (go e resume) = none
  finish (done e rc) = some (record {
    world = e.world;
    status = rc;
    killed = left_behind k e;
    owners = e.owners;
    saved = saved_by e;
  })

  -- The mode, as the child's answer gives it.
  unfoldable pub mode_of : Ctx → Bool
  mode_of c = elim (child_answer h.child c.root (h.supported && not h.no_seccomp)) [
    | none ↦ false
    | some installed ↦ installed
  ]

  -- The tracer from the first stop on, with the table of owners.
  unfoldable pub trace : W → Ctx → Option Db → ℕ → List Event → Option (Run W)
  trace w c db root_pid events =
      let mode = mode_of c in
      let e : Engine W = record { world = w; ctx = c; owners = db; loaders = []; tab = [] } in
      if not (follows h mode)
      then some (failing w (negsuc 2) (root_pid ∷ []) db)
      else elim (started k e root_pid) [
        | none ↦ some (failing w (negsuc 3) [] db)
        | some e' ↦ finish (loop k root_pid mode e' events)
      ]

  -- `ids_text` is the text that the file of owners holds, if it can be opened, and `w` the world once the child has stopped.
  unfoldable pub emuroot_run_ptrace :
      W → Ctx → Bool → Bool → Option (List ℕ) → List Event → Option (Run W)
  emuroot_run_ptrace w ctx fresh room ids_text events =
      let c = prepare h.realpath ctx in
      let db =
        if length c.ids_file == 0 then none else emuroot_owners_load none fresh room ids_text in
      if not h.pipe then some (failing w (negsuc 3) [] db) else elim h.fork [
        | none ↦ some (failing w (negsuc 3) [] db)
        | some root_pid ↦ trace w c db root_pid events
      ]
