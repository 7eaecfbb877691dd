-- ===== src/Path/Root.antt =====
-- src/path.c: the results of translate_path_ex.
use emuroot.Base.{
  ℕ, ◌+◌, ◌≤◌, ◌<◌, ◌≡◌, refl, ◌≢◌, ap, ◌∙◌, ◌⊎◌, inl, inr, false, not, ◌&&◌, some, List, [], ◌∷◌,
  ◌++◌, ltb, ◌==◌, length, arith, Bool-cases, length-append, take_all,
}
use emuroot.Cstring.{slash, bytes, char_at, str_eq, snprintf}
use emuroot.Context.{path_len, Ctx}
use emuroot.Path.{
  Walk, Job, walk, walk_fuel, start, map_to_host, finish, translate_path_ex, pick_down,
  through_mount, ends_with_slash, Translation,
}
use emuroot.Path.Stack.{Components, path_of}
use emuroot.Path.Total.{walk_total}
use emuroot.Path.Contain.{walk-IsSound, start-IsSound}

-- There is something to translate: an emulated root, or a binding.
abbrev pub IsActive : Job → Type 0
IsActive j = (j.root ≢ []) ⊎ (j.ctx.nbindings ≢ 0)

abbrev pub IsAbsolute : List ℕ → Type 0
IsAbsolute path = char_at path 0 ≡ slash

active-test : (root : List ℕ) (n : ℕ) → (root ≢ []) ⊎ (n ≢ 0) → (length root == 0 && n == 0) ≡ false
active-test [] n (inl h) = absurd (h refl)
active-test [] n (inr h) = ground arith
active-test (x ∷ root) n h = ground arith

pub translate-walk :
    (j : Job) (path : List ℕ) (w : Walk)
    → IsActive j
    → IsAbsolute path
    → walk j walk_fuel (start path) ≡ some w
    → translate_path_ex j path ≡ record {
      out = snprintf path_len (finish j w);
      guest_out = snprintf path_len w.cur;
      differs = not (str_eq (finish j w) path);
    }
unfolding translate_path_ex
translate-walk j path w a b e = rw (b, active-test j.root j.ctx.nbindings a, e, translate_path_ex)

-- Whatever the symlinks are, the guest path that an absolute path resolves to is "/", or components
-- each behind one '/', none of them empty, "." or "..".
pub translate-guest_out :
    (j : Job) (path : List ℕ)
    → IsActive j
    → IsAbsolute path
    → (cs : List (List ℕ)) × Components cs × ((translate_path_ex j path).guest_out ≡ path_of cs)
translate-guest_out j path a b =
    let (w, e) = walk_total j path in
    let s = walk-IsSound j walk_fuel (start path) w (start-IsSound path) e in
    (
      s.stack,
      s.components,
      rw (translate-walk j path w a b e) (take_all 4095 w.cur (omega arith) ∙ s.resolved),
    )

pub map_to_host-no_bindings :
    (c : Ctx) (root guest : List ℕ)
    → c.nbindings ≡ 0
    → length root + length guest < path_len
    → map_to_host c root guest path_len ≡ root ++ guest
unfolding map_to_host through_mount pick_down
map_to_host-no_bindings c root guest n l =
    rw n (take_all 4095 (root ++ guest) (omega (arith, length-append root guest)))

finish-walked :
    (j : Job) (w : Walk)
    → w.rest ≡ []
    → let host = map_to_host j.ctx j.root w.cur path_len in
      (finish j w ≡ host) ⊎ ((finish j w ≡ host ++ bytes "/") × (length host + 1 < path_len))
unfolding finish
finish-walked j w e =
    let host = map_to_host j.ctx j.root w.cur path_len in
    let adds = w.trailing_slash && (not (ends_with_slash host) && ltb (length host + 1) path_len) in
    elim (Bool-cases adds) [ inl p ↦ inr (rw (e, p), ground arith) | inr p ↦ inl (rw (e, p)) ]

-- With no binding, the host path of an absolute path whose components were all walked (no stop at
-- /proc/, at the limit on links or at a full buffer) lies under the root, whatever the symlinks
-- are: it is the root followed by a normalized guest path with no ".." in it, and perhaps a '/'.
pub translate_contained :
    (j : Job) (path : List ℕ) (w : Walk)
    → j.root ≢ []
    → j.ctx.nbindings ≡ 0
    → IsAbsolute path
    → walk j walk_fuel (start path) ≡ some w
    → w.rest ≡ []
    → length j.root + length w.cur < path_len
    → (cs : List (List ℕ)) × Components cs
      × (((translate_path_ex j path).out ≡ j.root ++ path_of cs)
          ⊎ ((translate_path_ex j path).out ≡ j.root ++ path_of cs ++ bytes "/"))
translate_contained j path w r n b e done l =
    let s = walk-IsSound j walk_fuel (start path) w (start-IsSound path) e in
    let mapped = map_to_host-no_bindings j.ctx j.root w.cur n l in
    let host = j.root ++ w.cur in
    let under : host ≡ j.root ++ path_of s.stack = ap (◌++◌ j.root) s.resolved in
    let size = length-append j.root w.cur in
    let written = ap (λ (t : Translation). t.out) (translate-walk j path w (inl r) b e) in
    (
      s.stack,
      s.components,
      elim (finish-walked j w done) [
        | inl p ↦ inl (written ∙ rw (p, mapped) (take_all 4095 host (omega (arith, size)) ∙ under))
        | inr (p, room) ↦
            let room' : length host + 1 < path_len = rw mapped at room in
            let fits : length (host ++ bytes "/") ≤ 4095 =
              omega (arith, length-append host (bytes "/")) in
            inr (written ∙ rw (p, mapped) (take_all 4095 _ fits ∙ ap (λ t. t ++ bytes "/") under))
      ],
    )
