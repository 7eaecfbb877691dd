-- ===== src/Creds/Calls.antt =====
-- src/creds.c: the nine credential calls as one type, and runs of them.
use emuroot.Base.{ℕ, List, [], ◌∷◌, ℤ}
use emuroot.Creds.{
  Creds, creds_setuid, creds_setgid, creds_setresuid, creds_setresgid, creds_setreuid,
  creds_setregid, creds_setgroups, creds_setfsuid, creds_setfsgid,
}

pub data Call : Type 0 where
  setuid setgid setfsuid setfsgid : ℕ → Call
  setreuid setregid : ℕ → ℕ → Call
  setresuid setresgid : ℕ → ℕ → ℕ → Call
  setgroups : List ℕ → ℤ → Call

unfoldable pub call : Creds → Call → Creds × ℤ
unfolding creds_setuid creds_setgid creds_setresuid creds_setresgid creds_setreuid creds_setregid
    creds_setgroups creds_setfsuid creds_setfsgid
call c (setuid u) = creds_setuid c u
call c (setgid g) = creds_setgid c g
call c (setfsuid u) = creds_setfsuid c u
call c (setfsgid g) = creds_setfsgid c g
call c (setreuid r e) = creds_setreuid c r e
call c (setregid r e) = creds_setregid c r e
call c (setresuid r e s) = creds_setresuid c r e s
call c (setresgid r e s) = creds_setresgid c r e s
call c (setgroups list n) = creds_setgroups c list n

unfoldable pub run : Creds → List Call → Creds
run c [] = c
run c (k ∷ ks) = run (call c k).0 ks
