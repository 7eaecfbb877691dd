-- ===== src/Exit.antt =====
-- src/fake.c, the credential calls in emuroot_on_exit: what the guest sees of its fake ids, and how
-- a call changes them. The guest's memory is read by an argument; what is written is a result.
pub mod Effects
pub mod Owner
pub mod Handler
pub mod Frame
pub mod Confined
mod Examples
use emuroot.Base.{
  ℕ, zero, suc, ◌-◌, ◌%◌, ◌^◌, Bool, true, false, not, ◌&&◌, Option, none, some, List, [], ◌∷◌, ltb,
  leb, ◌==◌, if◌then◌else◌, take, ℤ, pos, negsuc, neg,
}
use emuroot.Creds.{
  Creds, Ids, creds_max_groups, einval, creds_setuid, creds_setgid, creds_setreuid, creds_setregid,
  creds_setresuid, creds_setresgid, creds_setgroups, creds_setfsuid, creds_setfsgid,
}
use emuroot.Regs.{Args}
use emuroot.Syscalls.{
  Action, a_getuid, a_geteuid, a_getgid, a_getegid, a_getresuid, a_getresgid, a_getgroups, a_setuid,
  a_setgid, a_setreuid, a_setregid, a_setresuid, a_setresgid, a_setgroups, a_setfsuid, a_setfsgid,
}

abbrev pub efault : ℕ
efault = 14

-- `(uint32_t)a`
abbrev pub to_u32 : ℕ → ℕ
to_u32 a = a % 2 ^ 32

-- `(long)a` of a 64-bit register
unfoldable pub to_long : ℕ → ℤ
to_long a = if ltb a (2 ^ 63) then pos a else neg (2 ^ 64 - a)

-- The credentials after the call, its result for the guest, and the ids that are written to the
-- guest: at each address, a run of them.
pub record Seen : Type 0 where
  pub creds : Creds
  pub result : ℤ
  pub writes : List (ℕ × List ℕ)

abbrev pub answer : Creds → ℤ → Seen
answer c result = record { creds = c; result = result; writes = [] }

abbrev pub called : Creds × ℤ → Seen
called (c, result) = answer c result

abbrev pub write_ids : Creds → Ids → Args → Seen
write_ids c ids a = record {
  creds = c;
  result = pos 0;
  writes = (a.arg1, ids.real ∷ []) ∷ (a.arg2, ids.effective ∷ []) ∷ (a.arg3, ids.saved ∷ []) ∷ [];
}

-- `(long)a < n`
unfoldable pub long_below : ℕ → ℕ → Bool
long_below a n = elim (to_long a) [ pos m ↦ ltb m n | negsuc m ↦ true ]

unfoldable pub exit_getgroups : Creds → Args → Seen
exit_getgroups c a =
    if not (a.arg1 == 0) && long_below a.arg1 c.ngroups then answer c (neg einval) else record {
      creds = c;
      result = pos c.ngroups;
      writes = if a.arg1 == 0 then [] else (a.arg2, take c.ngroups c.groups) ∷ [];
    }

-- `read addr n` is what guest_read fills an array of n ids with, or none when it gets less.
unfoldable pub exit_setgroups : (ℕ → ℕ → Option (List ℕ)) → Creds → Args → Seen
exit_setgroups read c a = elim (to_long a.arg1) [
  | negsuc m ↦ called (creds_setgroups c [] (negsuc m))
  | pos n ↦
      if ltb 0 n && leb n creds_max_groups
      then elim (read a.arg2 n) [
        | none ↦ answer c (neg efault)
        | some list ↦ called (creds_setgroups c list (pos n))
      ]
      else called (creds_setgroups c [] (pos n))
]

-- The cases of the switch that are about credentials; a call of another action keeps the kernel's
-- result `ret`.
unfoldable pub exit_creds : (ℕ → ℕ → Option (List ℕ)) → Creds → Action → Args → ℤ → Seen
exit_creds read c a_getuid a ret = answer c (pos c.uid.real)
exit_creds read c a_geteuid a ret = answer c (pos c.uid.effective)
exit_creds read c a_getgid a ret = answer c (pos c.gid.real)
exit_creds read c a_getegid a ret = answer c (pos c.gid.effective)
exit_creds read c a_getresuid a ret = write_ids c c.uid a
exit_creds read c a_getresgid a ret = write_ids c c.gid a
exit_creds read c a_getgroups a ret = exit_getgroups c a
exit_creds read c a_setuid a ret = called (creds_setuid c (to_u32 a.arg1))
exit_creds read c a_setgid a ret = called (creds_setgid c (to_u32 a.arg1))
exit_creds read c a_setreuid a ret = called (creds_setreuid c (to_u32 a.arg1) (to_u32 a.arg2))
exit_creds read c a_setregid a ret = called (creds_setregid c (to_u32 a.arg1) (to_u32 a.arg2))
exit_creds read c a_setresuid a ret =
    called (creds_setresuid c (to_u32 a.arg1) (to_u32 a.arg2) (to_u32 a.arg3))
exit_creds read c a_setresgid a ret =
    called (creds_setresgid c (to_u32 a.arg1) (to_u32 a.arg2) (to_u32 a.arg3))
exit_creds read c a_setfsuid a ret = called (creds_setfsuid c (to_u32 a.arg1))
exit_creds read c a_setfsgid a ret = called (creds_setfsgid c (to_u32 a.arg1))
exit_creds read c a_setgroups a ret = exit_setgroups read c a
exit_creds read c action a ret = answer c ret
