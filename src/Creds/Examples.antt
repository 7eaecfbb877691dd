-- ===== src/Creds/Examples.antt =====
-- Runs of the credential calls at concrete inputs, and the theorems at them.
use emuroot.Base.{◌≡◌, refl, length-replicate, List, [], ◌∷◌, replicate, pos, arith}
use emuroot.Creds.{
  Creds, creds_init, creds_setuid, creds_setresuid, creds_setreuid, creds_setgroups, refused,
  refused_real, saved_for, noid,
}
use emuroot.Creds.Calls.{Call, setuid, setresuid, setreuid, setgroups, call, run}
use emuroot.Creds.Confine.{Confined, HasDropped, run-Confined}
use emuroot.Creds.Results.{IsValid, run-IsValid}

root_creds : Creds
unfolding creds_init replicate
root_creds = creds_init 0 0

-- A daemon that runs as user 1000, with a spare identity 1001.
abbrev daemon : Creds
daemon = record {
  uid = record { real = 1000; effective = 1000; saved = 1001 };
  gid = record { real = 100; effective = 100; saved = 100 };
  fsuid = 1000;
  fsgid = 100;
  groups = replicate 32 0;
  ngroups = 1;
}

abbrev regain : List Call
regain = setuid 0 ∷ setreuid noid 1001 ∷ setresuid 0 0 0 ∷ setgroups [] (pos 0) ∷ []

regain_runs : (run daemon regain).uid ≡ record { real = 1000; effective = 1001; saved = 1001 }
unfolding run call creds_setuid creds_setresuid creds_setreuid creds_setgroups refused refused_real
    saved_for
regain_runs = refl

run-Confined_example : Confined daemon (run daemon regain) × HasDropped (run daemon regain)
run-Confined_example = run-Confined daemon regain (omega arith)

daemon-IsValid : IsValid daemon
daemon-IsValid = record {
  uids = omega arith;
  gids = omega arith;
  fsuid = omega arith;
  fsgid = omega arith;
  array = length-replicate 32 0;
  count = omega arith;
}

run-IsValid_example : IsValid (run daemon regain)
run-IsValid_example = run-IsValid daemon regain (omega arith) daemon-IsValid
