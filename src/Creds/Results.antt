-- ===== src/Creds/Results.antt =====
-- src/creds.c: what each call answers, and what it leaves alone.
use emuroot.Base.{
  length, ◌^◌, ◌<◌, ◌≤◌, length-append, length-take, length-drop, take, drop, List, [], ◌∷◌, true,
  ◌≢◌, ◌↔◌, ℕ, ◌≡◌, ◌⊎◌, false, arith, pos, negsuc, neg,
}
use emuroot.Creds.{
  Ids, noid, saved_for, replace_ids, apply_uid, apply_gid, refused, refused_real, Creds, eperm,
  einval, privileged, creds_setuid, creds_setgid, creds_setresuid, creds_setresgid, creds_setreuid,
  creds_setregid, creds_setgroups, creds_setfsuid, creds_setfsgid,
}
use emuroot.Creds.Calls.{
  Call, setuid, setgid, setfsuid, setfsgid, setreuid, setregid, setresuid, setresgid, setgroups,
  call, run,
}

-- A call that answers with an error, -EPERM or -EINVAL, changes nothing, and only an unprivileged
-- process gets -EPERM.
pub call_error :
    (c : Creds) (k : Call) (n : ℕ)
    → (call c k).1 ≡ negsuc n
    → ((call c k).0 ≡ c)
      × (((negsuc n ≡ neg eperm) × (privileged c ≡ false)) ⊎ (negsuc n ≡ neg einval))
unfolding call creds_setuid creds_setgid creds_setresuid creds_setresgid creds_setreuid
    creds_setregid creds_setgroups creds_setfsuid creds_setfsgid
call_error c (setuid u) n h = ground arith
call_error c (setgid g) n h = ground arith
call_error c (setfsuid u) n h = ground arith
call_error c (setfsgid g) n h = ground arith
call_error c (setreuid r e) n h = ground arith
call_error c (setregid r e) n h = ground arith
call_error c (setresuid r e s) n h = ground arith
call_error c (setresgid r e s) n h = ground arith
call_error c (setgroups list (pos m)) n h = ground arith
call_error c (setgroups list (negsuc m)) n h = ground arith

pub record Fits (ids : Ids) : Type 0 where
  pub real : ids.real < 2 ^ 32
  pub effective : ids.effective < 2 ^ 32
  pub saved : ids.saved < 2 ^ 32

-- The invariant of a process's credentials: ids are 32-bit, the group array has its 32 places, and
-- `ngroups` stays within it.
pub record IsValid (c : Creds) : Type 0 where
  pub uids : Fits c.uid
  pub gids : Fits c.gid
  pub fsuid : c.fsuid < 2 ^ 32
  pub fsgid : c.fsgid < 2 ^ 32
  pub array : length c.groups ≡ 32
  pub count : c.ngroups ≤ 32

-- The arguments of a call as the exit handler hands them over: 32-bit ids, and a list that holds
-- what the call copies.
abbrev pub IsCall : Call → Type 0
IsCall (setuid u) = u < 2 ^ 32
IsCall (setgid g) = g < 2 ^ 32
IsCall (setfsuid u) = u < 2 ^ 32
IsCall (setfsgid g) = g < 2 ^ 32
IsCall (setreuid r e) = (r < 2 ^ 32) × (e < 2 ^ 32)
IsCall (setregid r e) = (r < 2 ^ 32) × (e < 2 ^ 32)
IsCall (setresuid r e s) = (r < 2 ^ 32) × (e < 2 ^ 32) × (s < 2 ^ 32)
IsCall (setresgid r e s) = (r < 2 ^ 32) × (e < 2 ^ 32) × (s < 2 ^ 32)
IsCall (setgroups list (pos n)) = (n ≤ 32) → (n ≤ length list)
IsCall (setgroups list (negsuc n)) = Unit {0}

replace_ids-Fits :
    (ids : Ids) (r e s : ℕ)
    → Fits ids
    → r < 2 ^ 32
    → e < 2 ^ 32
    → s < 2 ^ 32
    → Fits (replace_ids ids r e s)
unfolding replace_ids
replace_ids-Fits ids r e s f p q t = ground arith

saved_for-lt : (ids : Ids) (r e : ℕ) → Fits ids → e < 2 ^ 32 → saved_for ids r e < 2 ^ 32
unfolding saved_for
saved_for-lt ids r e f h = ground arith

setreuid-IsValid :
    (c : Creds) (r e : ℕ) → r < 2 ^ 32 → e < 2 ^ 32 → IsValid c → IsValid (creds_setreuid c r e).0
unfolding creds_setreuid apply_uid
setreuid-IsValid c r e p q v = ground (
  arith,
  replace_ids-Fits c.uid r e (saved_for c.uid r e) v.uids p q (saved_for-lt c.uid r e v.uids q),
)

setregid-IsValid :
    (c : Creds) (r e : ℕ) → r < 2 ^ 32 → e < 2 ^ 32 → IsValid c → IsValid (creds_setregid c r e).0
unfolding creds_setregid apply_gid
setregid-IsValid c r e p q v = ground (
  arith,
  replace_ids-Fits c.gid r e (saved_for c.gid r e) v.gids p q (saved_for-lt c.gid r e v.gids q),
)

call-IsValid : (c : Creds) (k : Call) → IsCall k → IsValid c → IsValid (call c k).0
unfolding call creds_setuid creds_setgid creds_setresuid creds_setresgid creds_setreuid
    creds_setregid creds_setgroups creds_setfsuid creds_setfsgid
call-IsValid c (setuid u) a v = ground arith
call-IsValid c (setgid g) a v = ground arith
call-IsValid c (setfsuid u) a v = ground arith
call-IsValid c (setfsgid g) a v = ground arith
call-IsValid c (setreuid r e) a v = setreuid-IsValid c r e a.0 a.1 v
call-IsValid c (setregid r e) a v = setregid-IsValid c r e a.0 a.1 v
call-IsValid c (setresuid r e s) a v = ground arith
call-IsValid c (setresgid r e s) a v = ground arith
call-IsValid c (setgroups list (pos n)) a v = ground (
  arith,
  length-append (take n list) (drop n c.groups),
  length-take n list,
  length-drop n c.groups,
)
call-IsValid c (setgroups list (negsuc n)) a v = ground arith

-- Every call in a sequence has arguments of the right sizes.
abbrev pub AreCalls : List Call → Type 0
AreCalls [] = Unit {0}
AreCalls (k ∷ ks) = IsCall k × AreCalls ks

-- From valid credentials, whatever sequence of calls is made (32-bit ids, and lists as long as
-- setgroups says), the ids stay 32-bit, the group array keeps its 32 places, and ngroups stays at
-- most 32, so that getgroups never reads past the array.
pub run-IsValid : (c : Creds) (ks : List Call) → AreCalls ks → IsValid c → IsValid (run c ks)
unfolding run
run-IsValid c [] a v = v
run-IsValid c (k ∷ ks) a v = run-IsValid (call c k).0 ks a.1 (call-IsValid c k a.0 v)

-- The calls other than setfsuid and setfsgid.
abbrev pub KeepsFsids : List Call → Type 0
KeepsFsids [] = Unit {0}
KeepsFsids (setfsuid u ∷ ks) = ⊥
KeepsFsids (setfsgid g ∷ ks) = ⊥
KeepsFsids (k ∷ ks) = KeepsFsids ks

-- setreuid succeeds exactly when the process is privileged, or asks (beside no change) for a real
-- id among its real and effective ones and for an effective id among its three.
pub creds_setreuid_permits :
    (c : Creds) (r e : ℕ)
    → ((creds_setreuid c r e).1 ≡ pos 0) ↔ (
        (privileged c ≡ true)
        ⊎ (((r ≡ noid) ⊎ (r ≡ c.uid.real) ⊎ (r ≡ c.uid.effective))
            × ((e ≡ noid) ⊎ (e ≡ c.uid.real) ⊎ (e ≡ c.uid.effective) ⊎ (e ≡ c.uid.saved))))
unfolding creds_setreuid refused refused_real
creds_setreuid_permits c r e = (λ h. ground arith, λ h. ground arith)

-- The ids after a setreuid that succeeds, of a process whose effective id is not (uint32_t)-1:
-- those asked for; the saved id is the new effective id if a real id was given, or an effective id
-- other than the old real id, and else the old saved id; the file-system id is the effective id.
pub creds_setreuid_saved :
    (c : Creds) (r e : ℕ)
    → c.uid.effective ≢ noid
    → (creds_setreuid c r e).1 ≡ pos 0
    → let d = (creds_setreuid c r e).0 in
      (r ≢ noid → d.uid.real ≡ r)
      × (e ≢ noid → d.uid.effective ≡ e)
      × (((r ≢ noid) ⊎ ((e ≢ noid) × (e ≢ c.uid.real))) → d.uid.saved ≡ d.uid.effective)
      × (r ≡ noid → (e ≡ noid) ⊎ (e ≡ c.uid.real) → d.uid.saved ≡ c.uid.saved)
      × (d.fsuid ≡ d.uid.effective)
unfolding creds_setreuid apply_uid replace_ids saved_for
creds_setreuid_saved c r e n h =
    (λ p. ground arith, λ p. ground arith, λ p. ground arith, λ p q. ground arith, ground arith)
