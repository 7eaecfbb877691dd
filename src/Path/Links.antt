-- ===== src/Path/Links.antt =====
-- src/path.c: the limit on symlinks, and paths without symlinks.
use emuroot.Base.{
  ℕ, zero, suc, ◌-◌, ◌≤◌, ◌<◌, ◌≡◌, subst, ◌⊎◌, inl, inr, Bool, some, List, [], ◌++◌, ltb,
  if◌then◌else◌, length, arith, Bool-cases, Option-cases, List-cases,
}
use emuroot.Cstring.{bytes, snprintf, skip_slashes}
use emuroot.Context.{path_len}
use emuroot.Path.{
  Walk, Round, again, stop, Job, follow_link, look_up, enter, take_component, round, walk,
  walk_fuel, start, map_to_host, max_symlink_hops,
}

-- The loop goes on within the limit; where it leaves with more links than that, `cur` is a symlink.
LeavesLink : Job → Round → Type 0
LeavesLink j (again w) = w.hops ≤ 40
LeavesLink j (stop w) =
    (w.hops ≤ 40)
    ⊎ ((link : List ℕ) × (j.readlink (map_to_host j.ctx j.root w.cur path_len) ≡ some link))

follow_link-LeavesLink :
    (j : Job) (w : Walk) (link : List ℕ)
    → j.readlink (map_to_host j.ctx j.root w.cur path_len) ≡ some link
    → LeavesLink j (follow_link w link)
unfolding follow_link LeavesLink
follow_link-LeavesLink j w link e = elim (Bool-cases (ltb max_symlink_hops (suc w.hops))) [
  | inl h ↦ rw h (inr (link, e))
  | inr h ↦ rw h (ground arith)
]

look_up-LeavesLink :
    (j : Job) (w : Walk) (is_last : Bool) → w.hops ≤ 40 → LeavesLink j (look_up j w is_last)
unfolding look_up LeavesLink
look_up-LeavesLink j w is_last l =
    let host = map_to_host j.ctx j.root w.cur path_len in
    elim (Option-cases (j.readlink host)) [
      | inl e ↦ ground arith
      | inr (link, e) ↦ ground (arith, follow_link-LeavesLink j w link e)
    ]

enter-LeavesLink :
    (j : Job) (w : Walk) (comp next : List ℕ) (is_last : Bool)
    → w.hops ≤ 40
    → LeavesLink j (enter j w comp next is_last)
unfolding enter LeavesLink
enter-LeavesLink j w comp next is_last l =
    let sep = if ltb 1 (length w.cur) then bytes "/" else [] in
    let cur = w.cur ++ snprintf (path_len - length w.cur) (sep ++ comp) in
    ground (arith, look_up-LeavesLink j (record w { rest = next; cur = cur }) is_last)

round-LeavesLink : (j : Job) (w : Walk) → w.hops ≤ 40 → LeavesLink j (round j w)
unfolding round take_component LeavesLink
round-LeavesLink j w l = elim (List-cases (skip_slashes w.rest)) [
  | inl e ↦ rw (e, round) (inl l)
  | inr (x, p, e) ↦ rw (e, round) (enter-LeavesLink j w _ _ _ l)
]

walk-hops :
    (j : Job) (fuel : ℕ) (w v : Walk) → w.hops ≤ 40 → walk j fuel w ≡ some v → LeavesLink j (stop v)
unfolding walk
walk-hops j zero w v l e = cc
walk-hops j (suc fuel) w v l e =
    go (round j w) (round-LeavesLink j w l) (λ u. walk-hops j fuel u v) e
  where
    go :
        (r : Round)
        → LeavesLink j r
        → ((u : Walk) → u.hops ≤ 40 → walk j fuel u ≡ some v → LeavesLink j (stop v))
        → (elim r [ again u ↦ walk j fuel u | stop u ↦ some u ]) ≡ some v
        → LeavesLink j (stop v)
    go (again u) p ih q = ih u (unfold LeavesLink in p) q
    go (stop u) p ih q = let same : u ≡ v = cc in subst (λ x. LeavesLink j (stop x)) same p

-- Where the walk of a path ends with more than 40 symlinks, the host path of the guest path that it has
-- reached is a symlink.
pub walk_over_limit :
    (j : Job) (path : List ℕ) (w : Walk)
    → walk j walk_fuel (start path) ≡ some w
    → 40 < w.hops
    → (link : List ℕ) × (j.readlink (map_to_host j.ctx j.root w.cur path_len) ≡ some link)
unfolding LeavesLink start
walk_over_limit j path w e over =
    ground (arith, walk-hops j walk_fuel (start path) w (omega arith) e)
