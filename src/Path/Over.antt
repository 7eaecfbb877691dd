-- ===== src/Path/Over.antt =====
-- src/path.c, translate_path_ex: what a call is given where a path has too many symlinks.
use emuroot.Base.{
  ℕ, zero, suc, ◌-◌, ◌≤◌, ◌<◌, ◌≡◌, refl, ap, ◌∙◌, inl, inr, Bool, true, false, some, List, [], ◌∷◌,
  ◌++◌, ◌==◌, if◌then◌else◌, length, take, arith, Bool-cases, take_all,
}
use mathlib.Core.List.{append_assoc, append-nil}
use emuroot.Cstring.{slash, bytes, snprintf, skip_slashes}
use emuroot.Context.{path_len}
use emuroot.Path.{
  Walk, Job, walk, walk_fuel, start, map_to_host, finish, translate_path_ex, ends_with_slash,
  Translation,
}
use emuroot.Path.Links.{walk_over_limit}
use emuroot.Path.Root.{IsActive, IsAbsolute, translate-walk}

-- The path is `host`, or goes on behind it with a further component.
pub data IsThrough (host path : List ℕ) : Type 0 where
  at_end : path ≡ host → IsThrough host path
  below : (s : List ℕ) → path ≡ host ++ (slash ∷ s) → IsThrough host path
  below_slash : (s : List ℕ) → ends_with_slash host ≡ true → path ≡ host ++ s → IsThrough host path

take-host :
    (n : ℕ) (host s : List ℕ)
    → length host ≤ n
    → take n (host ++ s) ≡ host ++ take (n - length host) s
take-host n [] s l = ap (λ (m : ℕ). take m s) (omega arith)
take-host zero (x ∷ host) s l = absurd (omega arith)
take-host (suc n) (x ∷ host) s l =
    ap (λ t. x ∷ t)
      (take-host n host s (omega arith) ∙ ap (λ (m : ℕ). host ++ take m s) (omega arith))

take-IsThrough :
    (n : ℕ) (host path : List ℕ)
    → length host ≤ n
    → IsThrough host path
    → IsThrough host (take n path)
take-IsThrough n host path l (at_end e) = at_end (ap (take n) e ∙ take_all n host l)
take-IsThrough n host path l (below s e) =
    let cut = ap (take n) e ∙ take-host n host (slash ∷ s) l in go (n - length host) cut
  where
    go : (m : ℕ) → take n path ≡ host ++ take m (slash ∷ s) → IsThrough host (take n path)
    go zero q = at_end (q ∙ append-nil host)
    go (suc m) q = below (take m s) q
take-IsThrough n host path l (below_slash s b e) =
    below_slash _ b (ap (take n) e ∙ take-host n host s l)

slash-IsThrough : (host path : List ℕ) → IsThrough host path → IsThrough host (path ++ bytes "/")
slash-IsThrough host path (at_end e) = below [] (ap (λ t. t ++ bytes "/") e)
slash-IsThrough host path (below s e) =
    below (s ++ bytes "/") (ap (λ t. t ++ bytes "/") e ∙ append_assoc host (slash ∷ s) (bytes "/"))
slash-IsThrough host path (below_slash s b e) =
    below_slash (s ++ bytes "/") b (ap (λ t. t ++ bytes "/") e ∙ append_assoc host s (bytes "/"))

either-IsThrough :
    (host p q : List ℕ) (b : Bool)
    → IsThrough host p
    → IsThrough host q
    → IsThrough host (if b then p else q)
either-IsThrough host p q true l r = l
either-IsThrough host p q false l r = r

-- What is left of the guest path is put behind the host path of what has been walked.
finish-IsThrough :
    (j : Job) (w : Walk)
    → let host = map_to_host j.ctx j.root w.cur path_len in
      length host < path_len → IsThrough host (finish j w)
unfolding finish
finish-IsThrough j w l =
    let host = map_to_host j.ctx j.root w.cur path_len in
    let more = skip_slashes w.rest in
    let joined : IsThrough host (host ++ (if ends_with_slash host then [] else bytes "/") ++ more) =
      elim (Bool-cases (ends_with_slash host)) [
        | inl b ↦ rw b (below_slash more b (ap (λ t. t ++ more) (append-nil host)))
        | inr b ↦ rw b (below more (append_assoc host (bytes "/") more))
      ] in
    let out =
      either-IsThrough host host
        (snprintf path_len (host ++ (if ends_with_slash host then [] else bytes "/") ++ more))
        (length w.rest == 0) (at_end refl) (take-IsThrough 4095 host _ (omega arith) joined) in
    either-IsThrough host _ _ _ (slash-IsThrough host _ out) out

-- Where the walk of an absolute path, under an emulated root or bindings, gives up on the limit of 40
-- symlinks, the guest path that it has reached is a symlink that was not followed, and the path that
-- the call is given is that symlink's host path, or goes on behind it with a further component,
-- whether or not the call follows its last component. The condition is that the symlink's host path
-- fits in its buffer.
pub translate_over_limit :
    (j : Job) (path : List ℕ) (w : Walk)
    → IsActive j
    → IsAbsolute path
    → walk j walk_fuel (start path) ≡ some w
    → 40 < w.hops
    → length (map_to_host j.ctx j.root w.cur path_len) < path_len
    → let host = map_to_host j.ctx j.root w.cur path_len in
      (link : List ℕ) × (j.readlink host ≡ some link)
      × IsThrough host (translate_path_ex j path).out
translate_over_limit j path w active absolute e over fits =
    let host = map_to_host j.ctx j.root w.cur path_len in
    let (link, found) = walk_over_limit j path w e over in
    let written = ap (λ (t : Translation). t.out) (translate-walk j path w active absolute e) in
    (link, found, rw written (take-IsThrough 4095 host _ (omega arith) (finish-IsThrough j w fits)))
