-- ===== src/Ptrace/Order.antt =====
-- src/ptrace.c: what a stop of a traced process leads to.
use emuroot.Base.{
  ℕ, ◌<◌, ◌≡◌, refl, ◌∙◌, ap, ◌≢◌, Bool, not, ◌&&◌, Option, none, some, length, arith,
  get_or-set_self, get_or-set_ne, length-set,
}
use emuroot.Tracee.{Tracee, zero_tracee, tracee_find, tracee_at}
use emuroot.Kernel.{Kernel, Registers, Stop}
use emuroot.Ptrace.{
  Engine, Info, stopped, Resume, go, with_tracee, handle, known, with_known, resumed, turn, update,
}

module _ {W : Type 0} (k : Kernel W) where
  -- Where a process is known, its place is the one it is found at.
  pub known-found : (e : Engine W) (pid i : ℕ) → tracee_find e.tab pid ≡ some i → known k e pid ≡ e
  unfolding known
  known-found e pid i n = rw (n, known) refl

  -- A round at a stop of a known process.
  pub turn-stopped :
      (root_pid : ℕ) (mode : Bool) (e : Engine W) (pid sig event i : ℕ) (info : Info)
      → tracee_find e.tab pid ≡ some i
      → turn k root_pid mode e (stopped pid sig event info) ≡ resumed k e i pid sig event info mode
  unfolding turn
  turn-stopped root_pid mode e pid sig event i info n =
      let same = known-found e pid i n in
      let found : tracee_find (known k e pid).tab pid ≡ some i = rw same n in
      let round : with_known k e pid (λ e' i. resumed k e' i pid sig event info mode)
          ≡ resumed k e i pid sig event info mode =
        rw (found, with_known) (rw same refl) in
      round

  -- What a handler leaves of every tracee, it leaves of the table's.
  pub handle-at :
      {A : Type 0} (f : Tracee → A) (handler : Stop W → Stop W) (e : Engine W) (i : ℕ)
      (regs : Option Registers)
      → ((s : Stop W) → f (handler s).t ≡ f s.t)
      → i < length e.tab
      → f (tracee_at (handle k handler e i regs).0.tab i) ≡ f (tracee_at e.tab i)
  unfolding handle with_tracee
  handle-at f handler e i none kept l = refl
  handle-at f handler e i (some regs) kept l =
      ap f (get_or-set_self e.tab i _ zero_tracee l) ∙ kept _

  handle-others :
      (handler : Stop W → Stop W) (e : Engine W) (i j : ℕ) (regs : Option Registers)
      → i ≢ j
      → tracee_at (handle k handler e i regs).0.tab j ≡ tracee_at e.tab j
  unfolding handle with_tracee
  handle-others handler e i j none apart = refl
  handle-others handler e i j (some regs) apart = get_or-set_ne e.tab i j _ zero_tracee apart

  pub handle-length :
      (handler : Stop W → Stop W) (e : Engine W) (i : ℕ) (regs : Option Registers)
      → length (handle k handler e i regs).0.tab ≡ length e.tab
  unfolding handle with_tracee
  handle-length handler e i none = refl
  handle-length handler e i (some regs) = length-set e.tab i _

  -- A tracee is handled, and then a field of it is set.
  pub handled_then :
      {A : Type 0} (f : Tracee → A) (g : Tracee → Tracee) (h : A → A) (handler : Stop W → Stop W)
      (e : Engine W) (i : ℕ) (regs : Option Registers)
      → ((s : Stop W) → f (handler s).t ≡ f s.t)
      → ((t : Tracee) → f (g t) ≡ h (f t))
      → i < length e.tab
      → let e' = update k (handle k handler e i regs).0 i g in
        (f (tracee_at e'.tab i) ≡ h (f (tracee_at e.tab i)))
        × ((j : ℕ) → i ≢ j → tracee_at e'.tab j ≡ tracee_at e.tab j)
  handled_then f g h handler e i regs kept sets l =
      let en = (handle k handler e i regs).0 in
      let inside : i < length en.tab = omega (arith, l, handle-length handler e i regs) in
      (
        ap f (get_or-set_self en.tab i (g (tracee_at en.tab i)) zero_tracee inside)
            ∙ sets _
            ∙ ap h (handle-at f handler e i regs kept l),
        λ j apart.
            get_or-set_ne en.tab i j (g (tracee_at en.tab i)) zero_tracee apart
            ∙ handle-others handler e i j regs apart,
      )

  -- Every stop of a known process, whatever it is, is answered: the loop goes on, and that process is
  -- resumed, in seccomp mode up to its next system call just where the exit of one is awaited, and else
  -- always. No process is left standing.
  pub turn_resumes :
      (root_pid : ℕ) (mode : Bool) (e : Engine W) (pid sig event i : ℕ) (info : Info)
      → tracee_find e.tab pid ≡ some i
      → (e' : Engine W) × (r : Resume) × (turn k root_pid mode e (stopped pid sig event info)
          ≡ go e' (some r))
        × (r.pid ≡ pid)
        × (r.to_syscall ≡ not (mode && not (tracee_at e'.tab i).awaiting_exit))
  unfolding resumed
  turn_resumes root_pid mode e pid sig event i info n =
      (_, _, turn-stopped root_pid mode e pid sig event i info n, refl, refl)
