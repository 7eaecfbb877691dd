-- ===== src/Start/Status.antt =====
-- src/spawn.c: the status of a guest behind its supervisor.
use emuroot.Base.{
  ℕ, zero, suc, ◌<◌, ◌%◌, ◌≡◌, refl, ◌∙◌, ap, Option, none, some, List, [], ◌∷◌, ◌++◌, replicate,
  pos, arith,
}
use emuroot.Start.{Ended, exited, supervisor_code, emuroot_wait}

-- Interrupted waits change nothing.
wait-interrupted :
    (k : ℕ) (answers : List (Option Ended))
    → emuroot_wait (replicate k none ++ answers) ≡ emuroot_wait answers
unfolding emuroot_wait replicate
wait-interrupted zero answers = refl
wait-interrupted (suc k) answers = wait-interrupted k answers

-- What emuroot_run answers for a guest, an exit code or 128 and a signal, is what emuroot_wait answers
-- to the caller of emuroot_spawn, however often the wait is interrupted before.
pub wait-supervised :
    (k n : ℕ)
    → n < 256
    → emuroot_wait (replicate k none ++ (some (exited (supervisor_code (pos n))) ∷ [])) ≡ pos n
unfolding supervisor_code emuroot_wait
wait-supervised k n l =
    let whole : n % 256 ≡ n = omega (arith, l) in wait-interrupted k _ ∙ ap pos whole
