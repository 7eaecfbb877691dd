-- ===== src/Tracee/Examples.antt =====
-- A process that forks a child whose initial stop has been seen already.
use emuroot.Base.{ℕ, ◌≡◌, ◌≢◌, true, some, [], ◌∷◌}
use emuroot.Context.{emuroot_create}
use emuroot.Tracee.{Tracee, zero_tracee, fork_event}
use emuroot.Tracee.Fork.{tracee_of, fork_inherits}

unfoldable forker : Tracee
forker = record zero_tracee { pid = 10; root = 47 ∷ 114 ∷ [] }

unfoldable early : Tracee
early = record zero_tracee { pid = 11; fresh = true }

fork_inherits_example :
    let tab' = fork_event (forker ∷ early ∷ []) emuroot_create 0 11 true in
    ((c : Tracee) × (tracee_of tab' 11 ≡ some c)
      × (c.pid ≡ 11)
      × (c.creds ≡ forker.creds)
      × (c.exe ≡ forker.exe)
      × (c.root ≡ forker.root))
    × ((q : ℕ) → q ≢ 11 → tracee_of tab' q ≡ tracee_of (forker ∷ early ∷ []) q)
fork_inherits_example = fork_inherits (forker ∷ early ∷ []) emuroot_create 0 11
