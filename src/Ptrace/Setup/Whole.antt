-- ===== src/Ptrace/Setup/Whole.antt =====
-- src/ptrace.c: a whole run answers how its first process has ended.
use emuroot.Base.{
  ℕ, suc, ◌+◌, ◌≡◌, refl, Bool, true, false, not, Option, none, some, List, [], ◌∷◌, ◌++◌, ◌==◌,
  ==_refl, Bool-cases, Option-cases, inl, inr, ℤ, pos, if◌then◌else◌, length,
}
use emuroot.Context.{Ctx}
use emuroot.Ownership.{Db, emuroot_owners_load}
use emuroot.Tracee.{Tracee, tracee_find, tracee_add, tracee_remove, new_tracee}
use emuroot.Kernel.{Kernel}
use emuroot.Ptrace.{
  Engine, Event, told_to_stop, interrupted, wait_failed, exited, signaled, stopped, other, Resume,
  Outcome, go, done, known, with_known, ended, resumed, turn, loop, started, left_behind,
}
use emuroot.Ptrace.Order.{known-found}
use emuroot.Ptrace.Prepare.{prepare}
use emuroot.Ptrace.Setup.{Host, follows, mode_of, saved_by, Run, finish, trace, emuroot_run_ptrace}

-- An event that does not end the run of the first process.
unfoldable pub is_quiet : ℕ → Event → Bool
is_quiet root_pid (told_to_stop sig) = false
is_quiet root_pid interrupted = true
is_quiet root_pid wait_failed = false
is_quiet root_pid (exited pid code) = not (pid == root_pid)
is_quiet root_pid (signaled pid sig) = not (pid == root_pid)
is_quiet root_pid (stopped pid sig event info) = true
is_quiet root_pid (other pid) = true

abbrev pub AllQuiet : ℕ → List Event → Type 0
AllQuiet root_pid [] = Unit {0}
AllQuiet root_pid (ev ∷ evs) = (is_quiet root_pid ev ≡ true) × AllQuiet root_pid evs

-- A table to which a process has been added has it.
find-append :
    (tab : List Tracee) (v : Tracee) → (i : ℕ) × (tracee_find (tab ++ (v ∷ [])) v.pid ≡ some i)
unfolding tracee_find
find-append [] v = (0, rw (==_refl v.pid))
find-append (t ∷ tab) v = elim (Bool-cases (t.pid == v.pid)) [
  | inl e ↦ (0, rw e)
  | inr e ↦ let (i, h) = find-append tab v in (suc i, rw e (rw h refl))
]

find-add :
    (tab : List Tracee) (ctx : Ctx) (pid : ℕ)
    → (i : ℕ) × (tracee_find (tracee_add tab ctx pid none true) pid ≡ some i)
unfolding tracee_add new_tracee
find-add tab ctx pid = find-append tab (new_tracee ctx pid none)

module _ {W : Type 0} (k : Kernel W) (root_pid : ℕ) (mode : Bool) where
  abbrev Goes : Outcome W → Type 0
  Goes o = (e : Engine W) × (r : Option Resume) × (o ≡ go e r)

  with_known-Goes :
      (e : Engine W) (pid : ℕ) (f : Engine W → ℕ → Outcome W)
      → ((e' : Engine W) (i : ℕ) → Goes (f e' i))
      → Goes (with_known k e pid f)
  with_known-Goes e pid f goes = elim (Option-cases (tracee_find (known k e pid).tab pid)) [
    | inl n ↦ rw (n, with_known) (known k e pid, none, refl)
    | inr (i, n) ↦ rw (n, with_known) (goes (known k e pid) i)
  ]

  -- The end of a process that is not the first.
  ended-Goes :
      (e : Engine W) (i pid : ℕ) (rc : ℤ)
      → not (pid == root_pid) ≡ true
      → Goes (ended k e i root_pid pid rc)
  unfolding ended
  ended-Goes e i pid rc q = elim (Bool-cases (pid == root_pid)) [
    | inl is ↦ cc (rw is at q)
    | inr is ↦ (record e { tab = tracee_remove e.tab i }, none, rw is)
  ]

  turn-Goes :
      (e : Engine W) (ev : Event) → is_quiet root_pid ev ≡ true → Goes (turn k root_pid mode e ev)
  unfolding turn is_quiet resumed
  turn-Goes e (told_to_stop sig) q = cc
  turn-Goes e interrupted q = (e, none, refl)
  turn-Goes e wait_failed q = cc
  turn-Goes e (exited pid code) q =
      with_known-Goes e pid (λ e' i. ended k e' i root_pid pid (pos code))
        (λ e' i. ended-Goes e' i pid _ q)
  turn-Goes e (signaled pid sig) q =
      with_known-Goes e pid (λ e' i. ended k e' i root_pid pid (pos (128 + sig)))
        (λ e' i. ended-Goes e' i pid _ q)
  turn-Goes e (stopped pid sig event info) q =
      with_known-Goes e pid (λ e' i. resumed k e' i pid sig event info mode) (λ e' i. (_, _, refl))
  turn-Goes e (other pid) q = with_known-Goes e pid (λ e' i. go e' none) (λ e' i. (e', none, refl))

  known-finds :
      (e : Engine W) (pid : ℕ)
      → k.room ≡ true
      → (i : ℕ) × (tracee_find (known k e pid).tab pid ≡ some i)
  known-finds e pid room = elim (Option-cases (tracee_find e.tab pid)) [
    | inr (i, n) ↦ (i, rw (known-found k e pid i n) n)
    | inl n ↦
        let (i, h) = find-add e.tab e.ctx pid in
        let added : (known k e pid).tab ≡ tracee_add e.tab e.ctx pid none true =
          unfold known in rw (n, known) (rw room refl) in
        (i, rw added h)
  ]

  -- The end of the first process, where there is memory to know it.
  turn_root :
      (e : Engine W) (code : ℕ)
      → k.room ≡ true
      → turn k root_pid mode e (exited root_pid code) ≡ done (known k e root_pid) (pos code)
  unfolding turn ended
  turn_root e code room =
      let (i, n) = known-finds e root_pid room in rw (n, with_known) (rw (==_refl root_pid))

  loop-exited :
      (e : Engine W) (before after : List Event) (code : ℕ)
      → k.room ≡ true
      → AllQuiet root_pid before
      → (e' : Engine W) × (loop k root_pid mode e (before ++ (exited root_pid code ∷ after))
          ≡ done e' (pos code))
  unfolding loop
  loop-exited e [] after code room q = (known k e root_pid, rw (turn_root e code room, loop))
  loop-exited e (ev ∷ before) after code room q =
      let (e', r, h) = turn-Goes e ev q.0 in
      let (e'', rest) = loop-exited e' before after code room q.1 in (e'', rw (h, loop) rest)

trace_exited :
    {W : Type 0} (k : Kernel W) (h : Host) (w : W) (c : Ctx) (db : Option Db) (root_pid code : ℕ)
    (before after : List Event)
    → k.room ≡ true
    → follows h (mode_of k h c) ≡ true
    → AllQuiet root_pid before
    → (r : Run W) × (trace k h w c db root_pid (before ++ (exited root_pid code ∷ after)) ≡ some r)
      × (r.status ≡ pos code)
unfolding trace finish
trace_exited {W} k h w c db root_pid code before after memory set quiet =
    let e : Engine W = record { world = w; ctx = c; owners = db; loaders = []; tab = [] } in
    let first : Tracee = record (new_tracee c root_pid none) { fresh = false } in
    let e0 : Engine W = record e { tab = first ∷ [] } in
    let begun : started k e root_pid ≡ some e0 = unfold started in rw memory in
    let (e', l) = loop-exited k root_pid (mode_of k h c) e0 before after code memory quiet in
    (
      record {
        world = e'.world;
        status = pos code;
        killed = left_behind k e';
        owners = e'.owners;
        saved = saved_by k h e';
      },
      rw (set, trace) (rw (begun, trace) (rw (l, finish))),
      refl,
    )

-- Where the first process is made, its system calls can be followed and there is memory, a run that
-- is told of its exit ends with that exit code, whatever it is told before of the stops and the ends
-- of other processes, interrupted waits included, and whatever it would be told afterwards: no signal
-- has told it to stop before, and no wait has failed.
pub run_exited :
    {W : Type 0} (k : Kernel W) (h : Host) (w : W) (ctx : Ctx) (fresh room : Bool)
    (ids_text : Option (List ℕ)) (root_pid code : ℕ) (before after : List Event)
    → k.room ≡ true
    → h.pipe ≡ true
    → h.fork ≡ some root_pid
    → follows h (mode_of k h (prepare h.realpath ctx)) ≡ true
    → AllQuiet root_pid before
    → (r : Run W) × (emuroot_run_ptrace k h w ctx fresh room ids_text
          (before ++ (exited root_pid code ∷ after))
        ≡ some r)
      × (r.status ≡ pos code)
unfolding emuroot_run_ptrace
run_exited k h w ctx fresh room ids_text root_pid code before after memory pipe fork set quiet =
    let c = prepare h.realpath ctx in
    let db =
      if length c.ids_file == 0 then none else emuroot_owners_load none fresh room ids_text in
    let (r, e, same) = trace_exited k h w c db root_pid code before after memory set quiet in
    (r, rw (pipe, emuroot_run_ptrace) (rw (fork, emuroot_run_ptrace) e), same)
