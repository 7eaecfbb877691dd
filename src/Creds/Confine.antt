-- ===== src/Creds/Confine.antt =====
-- src/creds.c: what a process that has given up its privilege can still become.
use emuroot.Base.{
  ℕ, ◌≡◌, refl, ◌≢◌, ◌⊎◌, inl, inr, false, ◌||◌, ◌∙◌, Bool-cases, List, [], ◌∷◌, arith, pos, negsuc,
}
use emuroot.Creds.{
  privileged, apply_uid, apply_gid, creds_setuid, creds_setgid, creds_setresuid, creds_setresgid,
  creds_setreuid, creds_setregid, creds_setgroups, creds_setfsuid, creds_setfsgid, Creds, Ids, noid,
  replace_ids, refused, refused_real, saved_for,
}
use emuroot.Creds.Calls.{
  Call, setuid, setgid, setfsuid, setfsgid, setreuid, setregid, setresuid, setresgid, setgroups,
  call, run,
}

-- `v` is one of the three ids.
abbrev pub Among : Ids → ℕ → Type 0
Among ids v = (v ≡ ids.real) ⊎ (v ≡ ids.effective) ⊎ (v ≡ ids.saved)

-- Each of the three ids is one of `old`.
pub record Within (old ids : Ids) : Type 0 where
  pub real : Among old ids.real
  pub effective : Among old ids.effective
  pub saved : Among old ids.saved

-- None of the three user ids is root's.
pub record HasDropped (c : Creds) : Type 0 where
  pub real : c.uid.real ≢ 0
  pub effective : c.uid.effective ≢ 0
  pub saved : c.uid.saved ≢ 0

-- From the ids `old` on: every id of `c` is an old one, and the file-system ids are too, or have
-- not changed; the supplementary groups are the old ones.
pub record Confined (old c : Creds) : Type 0 where
  pub uids : Within old.uid c.uid
  pub gids : Within old.gid c.gid
  pub fsuid : (c.fsuid ≡ old.fsuid) ⊎ Among old.uid c.fsuid
  pub fsgid : (c.fsgid ≡ old.fsgid) ⊎ Among old.gid c.fsgid
  pub groups : c.groups ≡ old.groups
  pub ngroups : c.ngroups ≡ old.ngroups

Within-HasDropped : (old c : Creds) → Within old.uid c.uid → HasDropped old → HasDropped c
Within-HasDropped old c w d = ground arith

Within-refl : (ids : Ids) → Within ids ids
Within-refl ids = record { real = inl refl; effective = inr (inl refl); saved = inr (inr refl) }

Within-trans : (a b c : Ids) → Within a b → Within b c → Within a c
Within-trans a b c v w = ground arith

-- What an unprivileged call lets through: no change, or an id that the process has.
abbrev Accepts : Ids → ℕ → Type 0
Accepts ids v = (v ≡ noid) ⊎ Among ids v

replace_ids-Within :
    (ids : Ids) (r e s : ℕ)
    → Accepts ids r
    → Accepts ids e
    → Accepts ids s
    → Within ids (replace_ids ids r e s)
unfolding replace_ids
replace_ids-Within ids r e s p q t = ground arith

refused-Accepts : (ids : Ids) (v : ℕ) → refused ids v ≡ false → Accepts ids v
unfolding refused
refused-Accepts ids v h = ground arith

refused_real-Accepts : (ids : Ids) (v : ℕ) → refused_real ids v ≡ false → Accepts ids v
unfolding refused_real
refused_real-Accepts ids v h = ground arith

saved_for-Accepts : (ids : Ids) (r e : ℕ) → Accepts ids e → Accepts ids (saved_for ids r e)
unfolding saved_for
saved_for-Accepts ids r e h = ground arith

setre-Within :
    (ids : Ids) (r e : ℕ)
    → (refused_real ids r || refused ids e) ≡ false
    → Within ids (replace_ids ids r e (saved_for ids r e))
setre-Within ids r e h =
    let p : refused_real ids r ≡ false = ground arith in
    let q : refused ids e ≡ false = ground arith in
    replace_ids-Within ids r e _ (refused_real-Accepts ids r p) (refused-Accepts ids e q)
      (saved_for-Accepts ids r e (refused-Accepts ids e q))

dropped-unprivileged : (c : Creds) → HasDropped c → privileged c ≡ false
unfolding privileged
dropped-unprivileged c d = ground arith

Confined-refl : (c : Creds) → Confined c c
Confined-refl c = record {
  uids = Within-refl c.uid;
  gids = Within-refl c.gid;
  fsuid = inl refl;
  fsgid = inl refl;
  groups = refl;
  ngroups = refl;
}

uid-Confined :
    (c : Creds) (ids : Ids)
    → Within c.uid ids
    → Confined c (record c { uid = ids; fsuid = ids.effective })
uid-Confined c ids w = record {
  uids = w;
  gids = Within-refl c.gid;
  fsuid = inr w.effective;
  fsgid = inl refl;
  groups = refl;
  ngroups = refl;
}

gid-Confined :
    (c : Creds) (ids : Ids)
    → Within c.gid ids
    → Confined c (record c { gid = ids; fsgid = ids.effective })
gid-Confined c ids w = record {
  uids = Within-refl c.uid;
  gids = w;
  fsuid = inl refl;
  fsgid = inr w.effective;
  groups = refl;
  ngroups = refl;
}

creds_setreuid-Confined : (c : Creds) (r e : ℕ) → HasDropped c → Confined c (creds_setreuid c r e).0
unfolding creds_setreuid apply_uid
creds_setreuid-Confined c r e d = elim (Bool-cases (refused_real c.uid r || refused c.uid e)) [
  | inl h ↦ rw (dropped-unprivileged c d, h) (Confined-refl c)
  | inr h ↦ rw (dropped-unprivileged c d, h) (uid-Confined c _ (setre-Within c.uid r e h))
]

creds_setregid-Confined : (c : Creds) (r e : ℕ) → HasDropped c → Confined c (creds_setregid c r e).0
unfolding creds_setregid apply_gid
creds_setregid-Confined c r e d = elim (Bool-cases (refused_real c.gid r || refused c.gid e)) [
  | inl h ↦ rw (dropped-unprivileged c d, h) (Confined-refl c)
  | inr h ↦ rw (dropped-unprivileged c d, h) (gid-Confined c _ (setre-Within c.gid r e h))
]

-- One call of a process that has dropped its privilege.
call-Confined : (c : Creds) (k : Call) → HasDropped c → Confined c (call c k).0
unfolding call creds_setuid creds_setgid creds_setresuid creds_setresgid creds_setgroups
    creds_setfsuid creds_setfsgid
call-Confined c (setuid u) d = ground arith
call-Confined c (setgid g) d = ground arith
call-Confined c (setfsuid u) d = ground arith
call-Confined c (setfsgid g) d = ground arith
call-Confined c (setreuid r e) d = creds_setreuid-Confined c r e d
call-Confined c (setregid r e) d = creds_setregid-Confined c r e d
call-Confined c (setresuid r e s) d = ground arith
call-Confined c (setresgid r e s) d = ground arith
call-Confined c (setgroups list (pos n)) d = ground arith
call-Confined c (setgroups list (negsuc n)) d = ground arith

Confined-trans : (a b c : Creds) → Confined a b → Confined b c → Confined a c
Confined-trans a b c v w = record {
  uids = Within-trans a.uid b.uid c.uid v.uids w.uids;
  gids = Within-trans a.gid b.gid c.gid v.gids w.gids;
  fsuid = ground arith;
  fsgid = ground arith;
  groups = w.groups ∙ v.groups;
  ngroups = w.ngroups ∙ v.ngroups;
}

-- A process none of whose real, effective and saved user ids is 0 stays confined through every
-- sequence of credential calls: each user id and each group id it ever has is one of the three it
-- had, a file-system id is one of these or unchanged, its groups stay, and no user id becomes 0.
pub run-Confined :
    (c : Creds) (ks : List Call) → HasDropped c → Confined c (run c ks) × HasDropped (run c ks)
unfolding run
run-Confined c [] d = (Confined-refl c, d)
run-Confined c (k ∷ ks) d =
    let one = call-Confined c k d in
    let (rest, low) = run-Confined (call c k).0 ks (Within-HasDropped c _ one.uids d) in
    (Confined-trans c (call c k).0 _ one rest, low)

setuid_root :
    (c : Creds) (u : ℕ)
    → c.uid.effective ≡ 0
    → u ≢ noid
    → (creds_setuid c u).0
      ≡ record c { uid = record { real = u; effective = u; saved = u }; fsuid = u }
unfolding creds_setuid
setuid_root c u root n = ground arith

-- When root calls setuid(u), for a u that is neither 0 nor (uint32_t)-1, every later sequence of
-- credential calls leaves all three user ids and the file-system user id at u.
pub setuid_permanent :
    (c : Creds) (u : ℕ) (ks : List Call)
    → c.uid.effective ≡ 0
    → u ≢ 0
    → u ≢ noid
    → let d = run c (setuid u ∷ ks) in
      (d.uid ≡ record { real = u; effective = u; saved = u }) × (d.fsuid ≡ u)
unfolding run call
setuid_permanent c u ks root h n =
    let d : Creds = record c { uid = record { real = u; effective = u; saved = u }; fsuid = u } in
    let e : (creds_setuid c u).0 ≡ d = setuid_root c u root n in
    let f = (run-Confined d ks (record { real = h; effective = h; saved = h })).0 in
    rw (e, run) (ground arith)
