-- ===== src/Path/Contain.antt =====
-- src/path.c: what the resolved path can be, whatever the symlinks are.
use emuroot.Base.{
  ℕ, zero, suc, ◌+◌, ◌-◌, ◌*◌, ◌≤◌, ◌<◌, ◌≡◌, refl, subst, ◌≢◌, ap, inl, inr, Bool, some, List, [],
  ◌∷◌, ◌++◌, ltb, leb, ◌==◌, if◌then◌else◌, length, take, drop, arith, Bool-cases, Option-cases,
  List-cases, length-append, length-take, length-drop, take_all,
}
use emuroot.Cstring.{slash, bytes, char_at, last_char, str_eq, snprintf, skip_slashes, segment_len}
use emuroot.Cstring.Laws.{
  NoSlash, str_ne, skip_slashes_head, segment_len-pos, take-segment-NoSlash, length-skip_slashes-le,
}
use emuroot.Context.{path_len}
use emuroot.Path.{
  Walk, Round, again, stop, Job, follow_link, look_up, enter, take_component, round, walk, start,
  map_to_host, max_symlink_hops, pop_component,
}
use emuroot.Path.Stack.{
  joined, IsComponent, Components, path_of, parent, parent-Components, pop-path_of, push-path_of,
}

-- `P` of the variables that a round leaves, however it ends.
abbrev pub Leaves : (Walk → Type 0) → Round → Type 0
Leaves P (again w) = P w
Leaves P (stop w) = P w

-- `cur` is the path of a stack of components, and the two buffers hold their texts.
pub record IsSound (w : Walk) : Type 0 where
  pub stack : List (List ℕ)
  pub components : Components stack
  pub resolved : w.cur ≡ path_of stack
  pub cur_fits : length w.cur < path_len
  pub rest_fits : length w.rest < 2 * path_len

length-pop-le : (cs : List (List ℕ)) → length (path_of (parent cs)) ≤ length (path_of cs)
length-pop-le [] = omega arith
length-pop-le (c ∷ []) = omega arith
length-pop-le (c ∷ d ∷ ds) = omega (arith, length-append (joined (d ∷ ds)) (slash ∷ c))

pop-IsSound :
    (w : Walk) (rest : List ℕ) (trailing : Bool) (hops : ℕ)
    → IsSound w
    → length rest < 2 * path_len
    → IsSound
        (record { rest = rest; cur = pop_component w.cur; trailing_slash = trailing; hops = hops })
pop-IsSound w rest trailing hops s l = record {
  stack = parent s.stack;
  components = parent-Components s.stack s.components;
  resolved = rw s.resolved (pop-path_of s.stack s.components);
  cur_fits = omega (
    arith,
    length-pop-le s.stack,
    ap length (pop-path_of s.stack s.components),
    ap (λ x. length (pop_component x)) s.resolved,
    ap length s.resolved,
  );
  rest_fits = l;
}

follow_link-IsSound : (w : Walk) (link : List ℕ) → IsSound w → Leaves IsSound (follow_link w link)
unfolding follow_link
follow_link-IsSound w link s =
    let target = take (path_len - 1) link in
    let tail = snprintf (2 * path_len) (target ++ w.rest) in
    let size : length tail < 2 * path_len = omega (arith, length-take 8191 (target ++ w.rest)) in
    elim (Bool-cases (ltb max_symlink_hops (suc w.hops))) [
      | inl e ↦ rw e (record {
        stack = s.stack;
        components = s.components;
        resolved = s.resolved;
        cur_fits = s.cur_fits;
        rest_fits = s.rest_fits;
      })
      | inr e ↦ elim (Bool-cases (char_at target 0 == slash)) [
        | inl abs ↦
            rw (e, abs)
              (record {
                stack = [];
                components = tt;
                resolved = refl;
                cur_fits = omega arith;
                rest_fits = size;
              })
        | inr rel ↦ rw (e, rel) (pop-IsSound w tail (last_char tail == slash) (suc w.hops) s size)
      ]
    ]

look_up-IsSound :
    (j : Job) (w : Walk) (is_last : Bool) → IsSound w → Leaves IsSound (look_up j w is_last)
unfolding look_up
look_up-IsSound j w is_last s =
    let host = map_to_host j.ctx j.root w.cur path_len in
    elim (Option-cases (j.readlink host)) [
      | inl e ↦ ground arith
      | inr (link, e) ↦ ground (arith, follow_link-IsSound w link s)
    ]

-- The bytes that `enter` adds to `cur`.
abbrev extended : Walk → List ℕ → List ℕ
extended w comp =
    w.cur
    ++ snprintf (path_len - length w.cur) ((if ltb 1 (length w.cur) then bytes "/" else []) ++ comp)

extend-IsSound :
    (w : Walk) (comp next : List ℕ)
    → IsComponent comp
    → IsSound w
    → length w.cur + 1 + length comp < path_len
    → length next < 2 * path_len
    → IsSound (record w { rest = next; cur = extended w comp })
extend-IsSound w comp next c s room l =
    let sep = if ltb 1 (length w.cur) then bytes "/" else [] in
    let short : length sep ≤ 1 = ground arith in
    let whole : snprintf (path_len - length w.cur) (sep ++ comp) ≡ sep ++ comp =
      take_all _ (sep ++ comp) (omega (arith, length-append sep comp)) in
    record {
      stack = comp ∷ s.stack;
      components = (c, s.components);
      resolved = rw (whole, s.resolved) (push-path_of s.stack comp s.components);
      cur_fits =
          rw whole (omega (arith, length-append w.cur (sep ++ comp), length-append sep comp));
      rest_fits = l;
    }

take-nonempty : (n x : ℕ) (s : List ℕ) → 0 < n → take n (x ∷ s) ≢ []
take-nonempty zero x s h = elim h [ ]
take-nonempty (suc n) x s h = λ e. cc

enter-IsSound :
    (j : Job) (w : Walk) (comp next : List ℕ) (is_last : Bool)
    → NoSlash comp
    → comp ≢ []
    → length next < 2 * path_len
    → IsSound w
    → Leaves IsSound (enter j w comp next is_last)
unfolding enter
enter-IsSound j w comp next is_last plain nonempty l s =
    let kept : IsSound (record w { rest = next }) = record {
      stack = s.stack;
      components = s.components;
      resolved = s.resolved;
      cur_fits = s.cur_fits;
      rest_fits = l;
    } in
    elim (Bool-cases (str_eq comp (bytes "."))) [
      | inl e ↦ rw e kept
      | inr e ↦ elim (Bool-cases (str_eq comp (bytes ".."))) [
        | inl f ↦ rw (e, f) (pop-IsSound w next w.trailing_slash w.hops s l)
        | inr f ↦ elim (Bool-cases (leb path_len (length w.cur + 1 + length comp))) [
          | inl g ↦ rw (e, f, g) kept
          | inr g ↦
              let part : IsComponent comp = record {
                nonempty = nonempty;
                plain = plain;
                not_dot = str_ne comp (bytes ".") e;
                not_dotdot = str_ne comp (bytes "..") f;
              } in
              rw (e, f, g)
                (look_up-IsSound j (record w { rest = next; cur = extended w comp }) is_last
                  (extend-IsSound w comp next part s (ground arith) l))
        ]
      ]
    ]

round-IsSound : (j : Job) (w : Walk) → IsSound w → Leaves IsSound (round j w)
unfolding round take_component
round-IsSound j w s = elim (List-cases (skip_slashes w.rest)) [
  | inl e ↦
      rw (e, round)
        (record {
          stack = s.stack;
          components = s.components;
          resolved = s.resolved;
          cur_fits = s.cur_fits;
          rest_fits = omega arith;
        })
  | inr (x, p, e) ↦
      let head = skip_slashes_head w.rest x p e in
      let len = segment_len (x ∷ p) in
      let n = if leb 256 len then 255 else len in
      let few : n ≤ len = ground arith in
      let some_byte : 0 < n = ground (arith, segment_len-pos x p head) in
      let left : length (drop len (x ∷ p)) < 2 * path_len =
        omega (
          arith,
          length-drop len (x ∷ p),
          length-skip_slashes-le w.rest,
          ap length e,
          s.rest_fits,
        ) in
      rw (e, round)
        (enter-IsSound j w (take n (x ∷ p)) (drop len (x ∷ p)) _
          (take-segment-NoSlash n (x ∷ p) few) (take-nonempty n x p some_byte) left s)
]

pub walk-IsSound :
    (j : Job) (fuel : ℕ) (w v : Walk) → IsSound w → walk j fuel w ≡ some v → IsSound v
unfolding walk
walk-IsSound j zero w v s e = cc
walk-IsSound j (suc fuel) w v s e =
    go (round j w) (round-IsSound j w s) (λ u. walk-IsSound j fuel u v) e
  where
    go :
        (r : Round)
        → Leaves IsSound r
        → ((u : Walk) → IsSound u → walk j fuel u ≡ some v → IsSound v)
        → (elim r [ again u ↦ walk j fuel u | stop u ↦ some u ]) ≡ some v
        → IsSound v
    go (again u) p ih q = ih u p q
    go (stop u) p ih q = let same : u ≡ v = cc in subst IsSound same p

pub start-IsSound : (guest_path : List ℕ) → IsSound (start guest_path)
unfolding start
start-IsSound guest_path = record {
  stack = [];
  components = tt;
  resolved = refl;
  cur_fits = omega arith;
  rest_fits = omega (arith, length-take 8191 guest_path);
}
