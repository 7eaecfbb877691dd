-- ===== src/Path/Total.antt =====
-- src/path.c: the loop of translate_path_ex ends, within the fuel that the model gives it.
use emuroot.Base.{
  ℕ, zero, suc, ◌+◌, ◌-◌, ◌*◌, ◌≤◌, ◌<◌, ◌≡◌, refl, ◌⊎◌, inl, inr, Bool, not, ◌&&◌, ◌||◌, ◌≢◌, some,
  List, [], ◌∷◌, ◌++◌, ltb, leb, ◌==◌, if◌then◌else◌, length, take, drop, arith, Bool-cases,
  Option-cases, List-cases, ap, length-take, length-drop,
}
use emuroot.Cstring.{slash, bytes, snprintf, skip_slashes, segment_len}
use emuroot.Cstring.Laws.{length-skip_slashes-le, skip_slashes_head, segment_len-pos}
use emuroot.Context.{path_len}
use emuroot.Path.{
  Walk, Round, again, stop, Job, follow_link, look_up, enter, take_component, round, walk,
  walk_fuel, start, map_to_host, max_symlink_hops, all_slashes,
}

-- `P` of the variables with which the loop goes on.
abbrev pub Again : (Walk → Type 0) → Round → Type 0
Again P (again w) = P w
Again P (stop w) = Unit {0}

-- After a round from `hops`: no link was followed and at most n bytes are left, or one was, within
-- the limit, and what is left fits the buffer `rest`.
abbrev Progress : ℕ → ℕ → Walk → Type 0
Progress n hops w =
    ((w.hops ≡ hops) × (length w.rest ≤ n))
    ⊎ ((w.hops ≡ suc hops) × (w.hops ≤ 40) × (length w.rest < 8192))

follow_link-Progress :
    (w : Walk) (link : List ℕ) (n : ℕ) → Again (Progress n w.hops) (follow_link w link)
unfolding follow_link
follow_link-Progress w link n = elim (Bool-cases (ltb max_symlink_hops (suc w.hops))) [
  | inl e ↦ rw e tt
  | inr e ↦
      let size = length-take 8191 (take (path_len - 1) link ++ w.rest) in
      rw e (inr (refl, ground arith, omega (arith, size)))
]

look_up-Progress :
    (j : Job) (w : Walk) (is_last : Bool)
    → Again (Progress (length w.rest) w.hops) (look_up j w is_last)
unfolding look_up
look_up-Progress j w is_last =
    let host = map_to_host j.ctx j.root w.cur path_len in
    elim (Option-cases (j.readlink host)) [
      | inl e ↦ ground arith
      | inr (link, e) ↦ ground (arith, follow_link-Progress w link (length w.rest))
    ]

Progress-mono :
    (m n hops : ℕ) (r : Round) → m ≤ n → Again (Progress m hops) r → Again (Progress n hops) r
Progress-mono m n hops (again w) h p = ground arith
Progress-mono m n hops (stop w) h p = tt

enter-Progress :
    (j : Job) (w : Walk) (comp next : List ℕ) (is_last : Bool)
    → Again (Progress (length next) w.hops) (enter j w comp next is_last)
unfolding enter
enter-Progress j w comp next is_last =
    let sep = if ltb 1 (length w.cur) then bytes "/" else [] in
    let cur = w.cur ++ snprintf (path_len - length w.cur) (sep ++ comp) in
    ground (arith, look_up-Progress j (record w { rest = next; cur = cur }) is_last)

take_component-Progress :
    (j : Job) (w : Walk) (x n : ℕ) (s : List ℕ)
    → x ≢ slash
    → length s ≤ n
    → Again (Progress n w.hops) (take_component j w (x ∷ s))
unfolding take_component
take_component-Progress j w x n s h l =
    let len = segment_len (x ∷ s) in
    let next = drop len (x ∷ s) in
    let last = all_slashes next && (not w.trailing_slash || length next == 0) in
    let shorter : length next ≤ n = omega (arith, length-drop len (x ∷ s), segment_len-pos x s h) in
    Progress-mono (length next) n w.hops _ shorter
      (enter-Progress j w (take (if leb 256 len then 255 else len) (x ∷ s)) next last)

round-Progress :
    (j : Job) (w : Walk) (n : ℕ) → length w.rest ≤ suc n → Again (Progress n w.hops) (round j w)
unfolding round
round-Progress j w n h = elim (List-cases (skip_slashes w.rest)) [
  | inl e ↦ rw (e, round) tt
  | inr (x, s, e) ↦
      let size : suc (length s) ≤ length w.rest =
        omega (arith, length-skip_slashes-le w.rest, ap length e) in
      rw (e, round)
        (take_component-Progress j w x n s (skip_slashes_head w.rest x s e) (omega arith))
]

-- What falls in every round: the links still allowed, and the bytes left.
measure : Walk → ℕ
measure w = (40 - w.hops) * 8192 + length w.rest

Progress-measure :
    (w w' : Walk) (n : ℕ)
    → w.hops ≤ 40
    → length w.rest ≡ suc n
    → Progress n w.hops w'
    → (w'.hops ≤ 40) × (measure w' < measure w)
unfolding measure
Progress-measure w w' n h l (inl p) = (omega arith, omega arith)
Progress-measure w w' n h l (inr p) = (omega arith, omega arith)

Again-map : (P Q : Walk → Type 0) (r : Round) → ((w : Walk) → P w → Q w) → Again P r → Again Q r
Again-map P Q (again w) f p = f w p
Again-map P Q (stop w) f p = tt

-- The loop can go on, and is nearer its end.
abbrev Nearer : Walk → Walk → Type 0
Nearer w w' = (w'.hops ≤ 40) × (measure w' < measure w)

round-Nearer : (j : Job) (w : Walk) → w.hops ≤ 40 → Again (Nearer w) (round j w)
unfolding round skip_slashes
round-Nearer j w h = elim (List-cases w.rest) [
  | inl e ↦ rw (e, round) tt
  | inr (x, s, e) ↦
      let size : length w.rest ≡ suc (length s) = ap length e in
      Again-map (Progress (length s) w.hops) (Nearer w) (round j w)
        (λ w' p. Progress-measure w w' (length s) h size p)
        (round-Progress j w (length s) (omega arith))
]

walk_total-fuel :
    (j : Job) (fuel : ℕ) (w : Walk)
    → w.hops ≤ 40
    → measure w < fuel
    → (w' : Walk) × (walk j fuel w ≡ some w')
unfolding walk
walk_total-fuel j zero w h m = absurd (omega arith)
walk_total-fuel j (suc fuel) w h m =
    go (round j w) (round-Nearer j w h) (λ v. walk_total-fuel j fuel v)
  where
    go :
        (r : Round)
        → Again (Nearer w) r
        → ((v : Walk) → v.hops ≤ 40 → measure v < fuel → (w' : Walk) × (walk j fuel v ≡ some w'))
        → (w' : Walk) × ((elim r [ again v ↦ walk j fuel v | stop v ↦ some v ]) ≡ some w')
    go (again v) p ih = ih v p.0 (omega arith)
    go (stop v) p ih = (v, refl)

-- The loop of translate_path_ex ends for every path, every set of bindings and every answer of
-- readlink, symlink cycles included: the model's fuel is never used up.
pub walk_total :
    (j : Job) (guest_path : List ℕ) → (w : Walk) × (walk j walk_fuel (start guest_path) ≡ some w)
unfolding start measure
walk_total j guest_path =
    walk_total-fuel j walk_fuel (start guest_path) (omega arith)
      (omega (arith, length-take 8191 guest_path))
