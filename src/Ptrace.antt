-- ===== src/Ptrace.antt =====
-- src/ptrace.c: the engine that waits for the stops of all traced processes. What waitpid and the
-- kernel tell at each round of its loop is an event; what it asks of the kernel is a result.
pub mod Prepare
pub mod Table
pub mod Rounds
pub mod Order
pub mod Fast
pub mod Setup
pub mod Report
pub mod Ends
mod Examples
use emuroot.Base.{
  ℕ, zero, suc, ◌+◌, ◌-◌, Bool, true, false, not, ◌&&◌, ◌||◌, Option, none, some, List, [], ◌∷◌,
  ◌++◌, ◌==◌, if◌then◌else◌, length, set, ℤ, pos, negsuc, map,
}
use emuroot.Context.{Ctx}
use emuroot.Ownership.{Db}
use emuroot.Tracee.{
  Tracee, tracee_find, tracee_at, tracee_add, new_tracee, tracee_remove, fork_event,
}
use emuroot.Kernel.{Kernel, Registers, Stop}
use emuroot.Entry.{emuroot_on_entry}
use emuroot.Exit.Handler.{emuroot_on_exit}

-- What the engine keeps between two rounds.
pub record Engine (W : Type 0) : Type 0 where
  pub world : W
  pub ctx : Ctx
  pub owners : Option Db
  pub loaders : List (List ℕ × Bool)
  pub tab : List Tracee

-- What can be asked of a stopped process: its registers, if they can be read, and the message of a
-- fork event.
pub record Info : Type 0 where
  pub regs : Option Registers
  pub child : ℕ

-- What waitpid answers. A stop has its signal, and the event in the high half of its status.
pub data Event : Type 0 where
  told_to_stop : ℕ → Event
  interrupted wait_failed : Event
  exited : (pid : ℕ) → (code : ℕ) → Event
  signaled : (pid : ℕ) → (sig : ℕ) → Event
  stopped : (pid : ℕ) → (sig : ℕ) → (event : ℕ) → Info → Event
  other : (pid : ℕ) → Event

abbrev pub sigtrap : ℕ
sigtrap = 5

abbrev pub sigstop : ℕ
sigstop = 19

-- SIGTRAP | 0x80
abbrev pub syscall_stop : ℕ
syscall_stop = 0x85

-- PTRACE_EVENT_SECCOMP
abbrev pub event_seccomp : ℕ
event_seccomp = 7

-- PTRACE_EVENT_FORK, PTRACE_EVENT_VFORK or PTRACE_EVENT_CLONE
unfoldable pub is_fork : ℕ → Bool
is_fork event = event == 1 || event == 2 || event == 3

-- What the stopped process is resumed with: until its next system call or not, and the signal.
pub record Resume : Type 0 where
  pub pid : ℕ
  pub to_syscall : Bool
  pub signal : ℕ
  pub regs : Option Registers

-- A round goes on, perhaps with a resumption, or ends the loop with a status.
pub data Outcome (W : Type 0) : Type 0 where
  go : Engine W → Option Resume → Outcome W
  done : Engine W → ℤ → Outcome W

module _ {W : Type 0} (k : Kernel W) where
  -- A handler of one tracee at its place in the table, with the registers it leaves.
  unfoldable pub with_tracee :
      (Stop W → Stop W) → Engine W → ℕ → Registers → Engine W × Option Registers
  with_tracee handler e i regs =
      let s : Stop W = record {
        world = e.world;
        ctx = e.ctx;
        owners = e.owners;
        loaders = e.loaders;
        t = tracee_at e.tab i;
        regs = regs;
      } in
      let s' = handler s in
      (
        record {
          world = s'.world;
          ctx = s'.ctx;
          owners = s'.owners;
          loaders = s'.loaders;
          tab = set e.tab i s'.t;
        },
        some s'.regs,
      )

  -- The handler runs where the registers can be read.
  unfoldable pub handle :
      (Stop W → Stop W) → Engine W → ℕ → Option Registers → Engine W × Option Registers
  handle handler e i none = (e, none)
  handle handler e i (some regs) = with_tracee handler e i regs

  abbrev pub update : Engine W → ℕ → (Tracee → Tracee) → Engine W
  update e i f = record e { tab = set e.tab i (f (tracee_at e.tab i)) }

  abbrev pub toggle : Tracee → Tracee
  toggle t = record t { in_syscall = not t.in_syscall }

  abbrev pub awaiting : Bool → Tracee → Tracee
  awaiting b t = record t { awaiting_exit = b }

  abbrev pub entered : Registers → Tracee → Tracee
  entered regs t = record t { last_entry = regs.nr }

  -- An entry in plain tracing is noted in `last_entry` too.
  unfoldable pub plain_entry : Stop W → Stop W
  plain_entry s = emuroot_on_entry k (record s { t = entered s.regs s.t })

  -- A stop at the entry or the exit of a system call.
  unfoldable pub syscall_part : Engine W → ℕ → Info → Bool → Engine W × Option Registers
  syscall_part e i info seccomp_mode =
      let t = tracee_at e.tab i in
      let (ex, rx) = handle (emuroot_on_exit k) e i info.regs in
      let (en, rn) = handle plain_entry e i info.regs in
      if not seccomp_mode
      then if t.in_syscall then (update ex i toggle, rx) else (update en i toggle, rn)
      else if t.awaiting_exit
      then (update ex i (awaiting false), rx)
      else (e, none)

  -- handle_stop of the tracee at `i`: the engine, the registers that are set, and the signal that is
  -- delivered.
  unfoldable pub handle_stop : Engine W → ℕ → ℕ → ℕ → Info → Bool → Engine W × Option Registers × ℕ
  handle_stop e i sig event info seccomp_mode =
      let (es, rs) = syscall_part e i info seccomp_mode in
      let (en, rn) = handle (emuroot_on_entry k) e i info.regs in
      if sig == syscall_stop
      then (es, rs, 0)
      else if event == event_seccomp
      then (update en i (awaiting true), rn, 0)
      else if is_fork event
      then (record e { tab = fork_event e.tab e.ctx i info.child k.room }, none, 0)
      else if sig == sigstop && (tracee_at e.tab i).fresh
      then (update e i (λ t. record t { fresh = false }), none, 0)
      else if not (sig == sigtrap)
      then (e, none, sig)
      else (e, none, 0)

  -- The table with a tracee of the pid: a child may be seen before its parent's fork event.
  unfoldable pub known : Engine W → ℕ → Engine W
  known e pid = elim (tracee_find e.tab pid) [
    | some i ↦ e
    | none ↦ record e { tab = tracee_add e.tab e.ctx pid none k.room }
  ]

  -- The end of a process: the loop ends with the first one's, and another leaves the table.
  unfoldable pub ended : Engine W → ℕ → ℕ → ℕ → ℤ → Outcome W
  ended e i root_pid pid rc =
      if pid == root_pid then done e rc else go (record e { tab = tracee_remove e.tab i }) none

  -- A process stands at `i`.
  unfoldable pub resumed : Engine W → ℕ → ℕ → ℕ → ℕ → Info → Bool → Outcome W
  resumed e i pid sig event info seccomp_mode =
      let (e', regs, signal) = handle_stop e i sig event info seccomp_mode in
      go e' (
        some (record {
          pid = pid;
          to_syscall = not (seccomp_mode && not (tracee_at e'.tab i).awaiting_exit);
          signal = signal;
          regs = regs;
        }))

  -- What a round does with a process, none where there is no memory to know it.
  abbrev pub with_known : Engine W → ℕ → (Engine W → ℕ → Outcome W) → Outcome W
  with_known e pid f =
      let e' = known e pid in elim (tracee_find e'.tab pid) [ none ↦ go e' none | some i ↦ f e' i ]

  -- A round of the loop in emuroot_run_ptrace.
  unfoldable pub turn : ℕ → Bool → Engine W → Event → Outcome W
  turn root_pid seccomp_mode e (told_to_stop sig) = done e (pos (128 + sig))
  turn root_pid seccomp_mode e interrupted = go e none
  turn root_pid seccomp_mode e wait_failed = done e (negsuc 3)
  turn root_pid seccomp_mode e (exited pid code) =
      with_known e pid (λ e' i. ended e' i root_pid pid (pos code))
  turn root_pid seccomp_mode e (signaled pid sig) =
      with_known e pid (λ e' i. ended e' i root_pid pid (pos (128 + sig)))
  turn root_pid seccomp_mode e (stopped pid sig event info) =
      with_known e pid (λ e' i. resumed e' i pid sig event info seccomp_mode)
  turn root_pid seccomp_mode e (other pid) = with_known e pid (λ e' i. go e' none)

  -- The loop over what waitpid answers, as long as there are answers.
  unfoldable pub loop : ℕ → Bool → Engine W → List Event → Outcome W
  loop root_pid seccomp_mode e [] = go e none
  loop root_pid seccomp_mode e (event ∷ events) = elim (turn root_pid seccomp_mode e event) [
    | go e' resume ↦ loop root_pid seccomp_mode e' events
    | done e' rc ↦ done e' rc
  ]

  -- The engine with the first process, none where there is no memory.
  unfoldable pub started : Engine W → ℕ → Option (Engine W)
  started e root_pid =
      let first = record (new_tracee e.ctx root_pid none) { fresh = false } in
      if k.room then some (record e { tab = first ∷ [] }) else none

  -- The processes that are killed behind the loop.
  unfoldable pub left_behind : Engine W → List ℕ
  left_behind e = map (λ (t : Tracee). t.pid) e.tab
