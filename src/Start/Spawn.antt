-- ===== src/Start/Spawn.antt =====
-- src/spawn.c: the supervisor's descriptors, signals and arguments. The open descriptors stand in the
-- order in which /proc/self/fd lists them, the listing's own among them at its place.
pub mod Closing
mod Tests
use emuroot.Start.{supervisor_code}
use emuroot.Base.{
  ℕ, zero, suc, ◌+◌, ◌-◌, Bool, true, false, not, ◌&&◌, ◌||◌, Option, none, some, List, [], ◌∷◌,
  ◌++◌, ltb, ◌==◌, if◌then◌else◌, ℤ, pos, negsuc, is_negative,
}

-- `fds[1024]`
abbrev pub batch : ℕ
batch = 1024

-- `fd > 2 && fd != self`
unfoldable pub closes : ℕ → ℕ → Bool
closes self fd = ltb 2 fd && not (fd == self)

-- A walk over the listing, with room for so many descriptors: those collected, and whether an entry
-- has been read that is not looked at.
unfoldable pub collect : ℕ → ℕ → List ℕ → List ℕ × Bool
collect self room [] = ([], false)
collect self zero (fd ∷ fds) = ([], true)
collect self (suc room) (fd ∷ fds) =
    let (found, more) = collect self (if closes self fd then room else suc room) fds in
    (if closes self fd then fd ∷ found else found, more)

-- `close(fd)`
unfoldable pub close : ℕ → List ℕ → List ℕ
close fd [] = []
close fd (x ∷ open_fds) = if x == fd then open_fds else x ∷ close fd open_fds

unfoldable pub close_each : List ℕ → List ℕ → List ℕ
close_each [] open_fds = open_fds
close_each (fd ∷ fds) open_fds = close_each fds (close fd open_fds)

-- What `atoi` makes of the names that are listed: "." and "..", and the open descriptors.
abbrev pub listing : List ℕ → List ℕ
listing open_fds = 0 ∷ 0 ∷ open_fds

-- The loop over the walks, with fuel; none when that runs out.
unfoldable pub close_walks : ℕ → ℕ → List ℕ → Option (List ℕ)
close_walks self zero open_fds = none
close_walks self (suc fuel) open_fds =
    let (found, more) = collect self batch (listing open_fds) in
    let left = close_each found open_fds in
    let rest = close_walks self fuel left in if more then rest else some left

-- `sysconf(_SC_OPEN_MAX)`, as the fallback takes it
unfoldable pub open_max : ℤ → ℕ
open_max (negsuc n) = 65536
open_max (pos n) = if ltb 65536 n then 65536 else n

-- `for (fd = 3; fd < max; fd++) close(fd)`
unfoldable pub close_below : ℕ → List ℕ → List ℕ
close_below max [] = []
close_below max (fd ∷ fds) =
    let rest = close_below max fds in if ltb 2 fd && ltb fd max then rest else fd ∷ rest

-- The descriptors that are open afterwards, none when the fuel runs out. `self` is the listing's own,
-- none where it cannot be opened.
unfoldable pub close_inherited_fds : Option ℕ → ℤ → ℕ → List ℕ → Option (List ℕ)
close_inherited_fds (some self) sysconf fuel fds = elim (close_walks self fuel fds) [
  | none ↦ none
  | some left ↦ some (close self left)
]
close_inherited_fds none sysconf fuel fds = some (close_below (open_max sysconf) fds)

-- Whether a signal is set to its default, from 1 to 31.
unfoldable pub resets : ℕ → Bool
resets sig = not (sig == 9) && not (sig == 19)

-- `emuroot_spawn_opts_t`
pub record Opts : Type 0 where
  pub stdin_fd : ℤ
  pub stdout_fd : ℤ
  pub stderr_fd : ℤ
  pub die_with_parent : Bool

-- What is used where the caller passes no options.
unfoldable pub opts_or_default : Option Opts → Opts
opts_or_default (some o) = o
opts_or_default none = record {
  stdin_fd = negsuc 0;
  stdout_fd = negsuc 0;
  stderr_fd = negsuc 0;
  die_with_parent = true;
}

-- `fd >= 0 && dup2(fd, to) < 0`, where dup2 answers whether it fails
unfoldable pub fails : (ℕ → ℕ → Bool) → ℤ → ℕ → Bool
fails dup2_fails (negsuc n) to = false
fails dup2_fails (pos fd) to = dup2_fails fd to

-- What emuroot_spawn comes to: -1 and an errno, the answer of fork in the caller, or the code that the
-- supervisor exits with.
pub data Spawned : Type 0 where
  refused : (err : ℕ) → Spawned
  returned : (pid : ℤ) → Spawned
  exits : (code : ℕ) → Spawned

-- `rc` is what emuroot_run answers in the supervisor.
unfoldable pub supervisor : (ℕ → ℕ → Bool) → Opts → ℤ → ℕ
supervisor dup2_fails o rc =
    if fails dup2_fails o.stdin_fd 0
      || fails dup2_fails o.stdout_fd 1
      || fails dup2_fails o.stderr_fd 2
    then 127
    else supervisor_code rc

unfoldable pub emuroot_spawn : Bool → ℤ → (ℕ → ℕ → Bool) → Option Opts → ℤ → Spawned
emuroot_spawn has_argv fork dup2_fails opts rc = if not has_argv then refused 22 else elim fork [
  | pos zero ↦ exits (supervisor dup2_fails (opts_or_default opts) rc)
  | other ↦ returned other
]
