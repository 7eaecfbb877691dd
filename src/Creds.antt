-- ===== src/Creds.antt =====
-- src/creds.c: the fake credentials of one traced process. The arrays uid[3] and gid[3] are records
-- {real, effective, saved}; ids are 32-bit numbers; a call returns the new state and the C result.
pub mod Calls
pub mod Confine
pub mod Results
mod Examples
use emuroot.Base.{
  ℕ, ◌-◌, ◌^◌, Bool, not, ◌&&◌, ◌||◌, List, ◌∷◌, ◌++◌, ltb, ◌==◌, if◌then◌else◌, take, drop,
  replicate, ℤ, pos, negsuc, neg,
}

pub record Ids : Type 0 where
  pub real : ℕ
  pub effective : ℕ
  pub saved : ℕ

pub record Creds : Type 0 where
  pub uid : Ids
  pub gid : Ids
  pub fsuid : ℕ
  pub fsgid : ℕ
  pub groups : List ℕ
  pub ngroups : ℕ

-- `(uint32_t)-1`
abbrev pub noid : ℕ
noid = 2 ^ 32 - 1

abbrev pub creds_max_groups : ℕ
creds_max_groups = 32

abbrev pub eperm : ℕ
eperm = 1

abbrev pub einval : ℕ
einval = 22

unfoldable pub creds_init : ℕ → ℕ → Creds
creds_init u g = record {
  uid = record { real = u; effective = u; saved = u };
  gid = record { real = g; effective = g; saved = g };
  fsuid = u;
  fsgid = g;
  groups = g ∷ replicate 31 0;
  ngroups = 1;
}

unfoldable pub in3 : Ids → ℕ → Bool
in3 ids v = v == ids.real || v == ids.effective || v == ids.saved

unfoldable pub privileged : Creds → Bool
privileged c = c.uid.effective == 0

-- The three assignments that the two `apply` functions make.
unfoldable pub replace_ids : Ids → ℕ → ℕ → ℕ → Ids
replace_ids ids r e s = record {
  real = if r == noid then ids.real else r;
  effective = if e == noid then ids.effective else e;
  saved = if s == noid then ids.saved else s;
}

unfoldable pub apply_uid : Creds → ℕ → ℕ → ℕ → Creds
unfolding replace_ids
apply_uid c r e s =
    let ids = replace_ids c.uid r e s in record c { uid = ids; fsuid = ids.effective }

unfoldable pub apply_gid : Creds → ℕ → ℕ → ℕ → Creds
unfolding replace_ids
apply_gid c r e s =
    let ids = replace_ids c.gid r e s in record c { gid = ids; fsgid = ids.effective }

unfoldable pub creds_setuid : Creds → ℕ → Creds × ℤ
unfolding privileged apply_uid
creds_setuid c u =
    if privileged c
    then (apply_uid c u u u, pos 0)
    else if u == c.uid.real || u == c.uid.saved
    then (apply_uid c noid u noid, pos 0)
    else (c, neg eperm)

unfoldable pub creds_setgid : Creds → ℕ → Creds × ℤ
unfolding privileged apply_gid
creds_setgid c g =
    if privileged c
    then (apply_gid c g g g, pos 0)
    else if g == c.gid.real || g == c.gid.saved
    then (apply_gid c noid g noid, pos 0)
    else (c, neg eperm)

-- `v != NOID && !in3(ids, v)`
unfoldable pub refused : Ids → ℕ → Bool
unfolding in3
refused ids v = not (v == noid) && not (in3 ids v)

unfoldable pub creds_setresuid : Creds → ℕ → ℕ → ℕ → Creds × ℤ
unfolding privileged refused apply_uid
creds_setresuid c r e s =
    if not (privileged c) && (refused c.uid r || refused c.uid e || refused c.uid s)
    then (c, neg eperm)
    else (apply_uid c r e s, pos 0)

unfoldable pub creds_setresgid : Creds → ℕ → ℕ → ℕ → Creds × ℤ
unfolding privileged refused apply_gid
creds_setresgid c r e s =
    if not (privileged c) && (refused c.gid r || refused c.gid e || refused c.gid s)
    then (c, neg eperm)
    else (apply_gid c r e s, pos 0)

-- `r != NOID && r != ids[0] && r != ids[1]`
unfoldable pub refused_real : Ids → ℕ → Bool
refused_real ids r = not (r == noid) && (not (r == ids.real) && not (r == ids.effective))

-- The saved id that setreuid and setregid hand to `apply`.
unfoldable pub saved_for : Ids → ℕ → ℕ → ℕ
saved_for ids r e =
    let new_e : ℕ = if e == noid then ids.effective else e in
    if not (r == noid) || (not (e == noid) && not (e == ids.real)) then new_e else noid

unfoldable pub creds_setreuid : Creds → ℕ → ℕ → Creds × ℤ
creds_setreuid c r e =
    if not (privileged c) && (refused_real c.uid r || refused c.uid e)
    then (c, neg eperm)
    else (apply_uid c r e (saved_for c.uid r e), pos 0)

unfoldable pub creds_setregid : Creds → ℕ → ℕ → Creds × ℤ
creds_setregid c r e =
    if not (privileged c) && (refused_real c.gid r || refused c.gid e)
    then (c, neg eperm)
    else (apply_gid c r e (saved_for c.gid r e), pos 0)

-- `list` holds at least the n ids that the call copies; the rest of the array stays as it was.
unfoldable pub creds_setgroups : Creds → List ℕ → ℤ → Creds × ℤ
unfolding privileged
creds_setgroups c list (pos n) =
    if not (privileged c)
    then (c, neg eperm)
    else if ltb creds_max_groups n
    then (c, neg einval)
    else (record c { groups = take n list ++ drop n c.groups; ngroups = n }, pos 0)
creds_setgroups c list (negsuc n) = if not (privileged c) then (c, neg eperm) else (c, neg einval)

unfoldable pub creds_setfsuid : Creds → ℕ → Creds × ℤ
unfolding privileged in3
creds_setfsuid c u =
    if not (u == noid) && (privileged c || (u == c.fsuid || in3 c.uid u))
    then (record c { fsuid = u }, pos c.fsuid)
    else (c, pos c.fsuid)

unfoldable pub creds_setfsgid : Creds → ℕ → Creds × ℤ
unfolding privileged in3
creds_setfsgid c g =
    if not (g == noid) && (privileged c || (g == c.fsgid || in3 c.gid g))
    then (record c { fsgid = g }, pos c.fsgid)
    else (c, pos c.fsgid)
