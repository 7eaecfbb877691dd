-- ===== src/Ptrace/Rounds.antt =====
-- src/ptrace.c: what a round of the loop does to the table.
use emuroot.Base.{
  ℕ, ◌≡◌, refl, ap, inl, inr, Bool, true, false, ◌&&◌, Option, none, some, List, [], ◌∷◌, ◌==◌,
  Bool-cases, Option-cases, ℤ, pos, ◌+◌,
}
use emuroot.Tracee.{tracee_find, tracee_at}
use emuroot.Tracee.Frame.{Marks}
use emuroot.Kernel.{Kernel, Registers, Stop}
use emuroot.Entry.{emuroot_on_entry}
use emuroot.Entry.Frame.{on_entry-Keeps}
use emuroot.Exit.Handler.{emuroot_on_exit}
use emuroot.Exit.Frame.{on_exit-Keeps}
use emuroot.Ptrace.{
  Engine, Info, Event, told_to_stop, interrupted, wait_failed, exited, signaled, stopped, other,
  Outcome, go, done, with_tracee, handle, plain_entry, syscall_part, handle_stop, known, with_known,
  ended, resumed, turn, loop, syscall_stop, event_seccomp, is_fork, sigstop, sigtrap,
}
use emuroot.Ptrace.Table.{IsOnce, set-IsOnce, remove-IsOnce, add-IsOnce, fork_event-IsOnce}

-- The engine behind a round, whether or not the loop goes on.
abbrev pub engine_of : {W : Type 0} → Outcome W → Engine W
engine_of (go e resume) = e
engine_of (done e rc) = e

module _ {W : Type 0} (k : Kernel W) where
  plain_entry-pid : (s : Stop W) → (plain_entry k s).t.pid ≡ s.t.pid
  unfolding plain_entry
  plain_entry-pid s = ap (λ (m : Marks). m.pid) (on_entry-Keeps k _)

  -- A handler that leaves the pid leaves the processes of the table.
  handle-IsOnce :
      (handler : Stop W → Stop W) (e : Engine W) (i : ℕ) (regs : Option Registers)
      → ((s : Stop W) → (handler s).t.pid ≡ s.t.pid)
      → IsOnce e.tab
      → IsOnce (handle k handler e i regs).0.tab
  unfolding handle with_tracee
  handle-IsOnce handler e i none same once = once
  handle-IsOnce handler e i (some regs) same once = set-IsOnce e.tab i _ (same _) once

  syscall_part-IsOnce :
      (e : Engine W) (i : ℕ) (info : Info) (mode : Bool)
      → IsOnce e.tab
      → IsOnce (syscall_part k e i info mode).0.tab
  unfolding syscall_part
  syscall_part-IsOnce e i info mode once =
      let pid_kept : (s : Stop W) → (emuroot_on_exit k s).t.pid ≡ s.t.pid =
        λ s. ap (λ (m : Marks). m.pid) (on_exit-Keeps k s) in
      let left = handle-IsOnce (emuroot_on_exit k) e i info.regs pid_kept once in
      let entered = handle-IsOnce (plain_entry k) e i info.regs plain_entry-pid once in
      elim mode as (λ mode. IsOnce (syscall_part k e i info mode).0.tab) [
        | false ↦ elim (Bool-cases (tracee_at e.tab i).in_syscall) [
          | inl b ↦ rw b (set-IsOnce _ i _ refl left)
          | inr b ↦ rw b (set-IsOnce _ i _ refl entered)
        ]
        | true ↦ elim (Bool-cases (tracee_at e.tab i).awaiting_exit) [
          | inl b ↦ rw b (set-IsOnce _ i _ refl left)
          | inr b ↦ rw b once
        ]
      ]

  handle_stop-IsOnce :
      (e : Engine W) (i sig event : ℕ) (info : Info) (mode : Bool)
      → IsOnce e.tab
      → IsOnce (handle_stop k e i sig event info mode).0.tab
  unfolding handle_stop
  handle_stop-IsOnce e i sig event info mode once =
      let pid_kept : (s : Stop W) → (emuroot_on_entry k s).t.pid ≡ s.t.pid =
        λ s. ap (λ (m : Marks). m.pid) (on_entry-Keeps k s) in
      let entered = handle-IsOnce (emuroot_on_entry k) e i info.regs pid_kept once in
      elim (Bool-cases (sig == syscall_stop)) [
        | inl c ↦ rw c (syscall_part-IsOnce e i info mode once)
        | inr c ↦ elim (Bool-cases (event == event_seccomp)) [
          | inl c2 ↦ rw (c, c2) (set-IsOnce _ i _ refl entered)
          | inr c2 ↦ elim (Bool-cases (is_fork event)) [
            | inl c3 ↦ rw (c, c2, c3) (fork_event-IsOnce e.tab e.ctx i info.child k.room once)
            | inr c3 ↦ elim (Bool-cases (sig == sigstop && (tracee_at e.tab i).fresh)) [
              | inl c4 ↦ rw (c, c2, c3, c4) (set-IsOnce e.tab i _ refl once)
              | inr c4 ↦ elim (Bool-cases (sig == sigtrap)) [
                | inl c5 ↦ rw (c, c2, c3, c4, c5) once
                | inr c5 ↦ rw (c, c2, c3, c4, c5) once
              ]
            ]
          ]
        ]
      ]

  known-IsOnce : (e : Engine W) (pid : ℕ) → IsOnce e.tab → IsOnce (known k e pid).tab
  unfolding known
  known-IsOnce e pid once = elim (Option-cases (tracee_find e.tab pid)) [
    | inl n ↦ rw (n, known) (add-IsOnce e.tab e.ctx pid none k.room n once)
    | inr (i, n) ↦ rw (n, known) once
  ]

  ended-IsOnce :
      (e : Engine W) (i root_pid pid : ℕ) (rc : ℤ)
      → IsOnce e.tab
      → IsOnce (engine_of (ended k e i root_pid pid rc)).tab
  unfolding ended
  ended-IsOnce e i root_pid pid rc once = elim (Bool-cases (pid == root_pid)) [
    | inl c ↦ rw c once
    | inr c ↦ rw c (remove-IsOnce e.tab i once)
  ]

  with_known-IsOnce :
      (e : Engine W) (pid : ℕ) (f : Engine W → ℕ → Outcome W)
      → IsOnce e.tab
      → ((e' : Engine W) (i : ℕ) → IsOnce e'.tab → IsOnce (engine_of (f e' i)).tab)
      → IsOnce (engine_of (with_known k e pid f)).tab
  with_known-IsOnce e pid f once kept =
      let seen = known-IsOnce e pid once in
      elim (Option-cases (tracee_find (known k e pid).tab pid)) [
        | inl n ↦ rw (n, engine_of) seen
        | inr (i, n) ↦ rw (n, engine_of) (kept (known k e pid) i seen)
      ]

  turn-IsOnce :
      (root_pid : ℕ) (mode : Bool) (e : Engine W) (event : Event)
      → IsOnce e.tab
      → IsOnce (engine_of (turn k root_pid mode e event)).tab
  unfolding turn resumed
  turn-IsOnce root_pid mode e (told_to_stop sig) once = once
  turn-IsOnce root_pid mode e interrupted once = once
  turn-IsOnce root_pid mode e wait_failed once = once
  turn-IsOnce root_pid mode e (exited pid code) once =
      with_known-IsOnce e pid (λ e' i. ended k e' i root_pid pid (pos code)) once
        (λ e' i. ended-IsOnce e' i root_pid pid (pos code))
  turn-IsOnce root_pid mode e (signaled pid sig) once =
      with_known-IsOnce e pid (λ e' i. ended k e' i root_pid pid (pos (128 + sig))) once
        (λ e' i. ended-IsOnce e' i root_pid pid (pos (128 + sig)))
  turn-IsOnce root_pid mode e (stopped pid sig event info) once =
      with_known-IsOnce e pid (λ e' i. resumed k e' i pid sig event info mode) once
        (λ e' i. handle_stop-IsOnce e' i sig event info mode)
  turn-IsOnce root_pid mode e (other pid) once =
      with_known-IsOnce e pid (λ e' i. go e' none) once (λ e' i kept. kept)

  -- Whatever waitpid answers, in whatever order, and whatever the handlers find in the kernel: a table
  -- in which each process stands once stays one, up to the end of the loop. No process is entered
  -- twice when a child is seen before its parent's fork event.
  pub loop-IsOnce :
      (root_pid : ℕ) (mode : Bool) (e : Engine W) (events : List Event)
      → IsOnce e.tab
      → IsOnce (engine_of (loop k root_pid mode e events)).tab
  unfolding loop
  loop-IsOnce root_pid mode e [] once = once
  loop-IsOnce root_pid mode e (event ∷ events) once =
      elim (turn k root_pid mode e event)
          as (λ o.
            IsOnce (engine_of o).tab
            → IsOnce
                (engine_of (elim o [
                  | go e' resume ↦ loop k root_pid mode e' events
                  | done e' rc ↦ done e' rc
                ])).tab) [
                  | go e' resume ↦ λ kept. loop-IsOnce root_pid mode e' events kept
                  | done e' rc ↦ λ kept. kept
                ]
        (turn-IsOnce root_pid mode e event once)
