-- ===== src/Path/Inverse.antt =====
-- src/path.c: host_to_guest, and that it undoes map_to_host.
use emuroot.Base.{
  ℕ, ◌+◌, ◌<◌, ◌≡◌, refl, ◌≢◌, ◌↔◌, ap, ◌∙◌, inl, inr, true, false, ◌||◌, none, some, List, [], ◌∷◌,
  ◌++◌, ◌==◌, length, drop, arith, Bool-cases, &&-eq-true, take_all, drop-append,
}
use emuroot.Cstring.{slash, char_at, snprintf}
use emuroot.Cstring.Laws.{
  strn_eq-append, strn_eq→append, char_at-append, IsCstring, drop-IsCstring, char_at-drop,
}
use emuroot.Context.{path_len, Ctx}
use emuroot.Path.{has_prefix, pick_up, host_to_guest, map_to_host, or_slash}
use emuroot.Path.Stack.{path_of, joined}
use emuroot.Path.Root.{map_to_host-no_bindings}

-- What stands behind a prefix that has_prefix accepts: nothing, or a '/' and more.
abbrev pub IsRest : List ℕ → Type 0
IsRest [] = Unit {0}
IsRest (x ∷ s) = x ≡ slash

has_prefix-append :
    (root rest : List ℕ) → IsRest rest → has_prefix (root ++ rest) root (length root) ≡ true
unfolding has_prefix
has_prefix-append root [] h = rw (strn_eq-append root [], char_at-append root [])
has_prefix-append root (x ∷ s) h = rw (strn_eq-append root (x ∷ s), char_at-append root (x ∷ s), h)

-- The guest path of what stands behind the root.
abbrev pub guest_of_rest : List ℕ → List ℕ
guest_of_rest rest = or_slash (snprintf path_len rest)

host_to_guest-append :
    (c : Ctx) (root rest : List ℕ)
    → c.nbindings ≡ 0
    → root ≢ []
    → IsRest rest
    → host_to_guest c root (root ++ rest) path_len ≡ some (guest_of_rest rest)
unfolding host_to_guest pick_up
host_to_guest-append c [] rest n r h = absurd (r refl)
host_to_guest-append c (x ∷ root) rest n r h =
    rw
      (n, has_prefix-append (x ∷ root) rest h, drop-append (length (x ∷ root)) (x ∷ root) rest refl)
      (ground arith)

joined_head : (c : List ℕ) (cs : List (List ℕ)) → (t : List ℕ) × (joined (c ∷ cs) ≡ slash ∷ t)
joined_head c [] = (c, refl)
joined_head c (d ∷ ds) =
    let (t, e) = joined_head d ds in (t ++ slash ∷ c, ap (λ x. x ++ slash ∷ c) e)

path_of_head : (cs : List (List ℕ)) → (t : List ℕ) × (path_of cs ≡ slash ∷ t)
path_of_head [] = ([], refl)
path_of_head (c ∷ cs) = joined_head c cs

-- With no binding, the host path that map_to_host gives a normalized guest path is reported back to
-- the guest as that same path, where the host path fits its buffer.
pub host_to_guest-map_to_host :
    (c : Ctx) (root : List ℕ) (cs : List (List ℕ))
    → c.nbindings ≡ 0
    → root ≢ []
    → length root + length (path_of cs) < path_len
    → host_to_guest c root (map_to_host c root (path_of cs) path_len) path_len ≡ some (path_of cs)
unfolding or_slash
host_to_guest-map_to_host c root cs n r l =
    let (t, e) = path_of_head cs in
    let rest : IsRest (path_of cs) = rw e refl in
    let back = host_to_guest-append c root (path_of cs) n r rest in
    let same : guest_of_rest (path_of cs) ≡ path_of cs =
      rw (take_all 4095 (path_of cs) (omega arith), e) in
    rw (map_to_host-no_bindings c root (path_of cs) n l) (back ∙ ap some same)

tail-IsRest :
    (rest : List ℕ)
    → IsCstring rest
    → (char_at rest 0 == slash || char_at rest 0 == 0) ≡ true
    → IsRest rest
tail-IsRest [] s h = tt
tail-IsRest (x ∷ rest) s h = ground arith

host_to_guest-outside :
    (c : Ctx) (root host : List ℕ)
    → c.nbindings ≡ 0
    → has_prefix host root (length root) ≡ false
    → host_to_guest c root host path_len ≡ none
unfolding host_to_guest pick_up
host_to_guest-outside c root host n h = rw (n, h) (ground arith)

has_prefix-IsRest :
    (root host : List ℕ)
    → IsCstring host
    → has_prefix host root (length root) ≡ true
    → (rest : List ℕ) × IsRest rest × (host ≡ root ++ rest)
unfolding has_prefix
has_prefix-IsRest root host s h =
    let (same, next) = &&-eq-true _ _ h in
    let n = length root in
    (
      drop n host,
      tail-IsRest (drop n host) (drop-IsCstring n host s) (rw char_at-drop at next),
      strn_eq→append host root same,
    )

-- With no binding, host_to_guest answers exactly for the host paths under the root: the root itself,
-- or the root and a '/' and more. (A sibling such as /srv/root2 of /srv/root is not under it.)
pub host_to_guest_lem :
    (c : Ctx) (root host : List ℕ)
    → c.nbindings ≡ 0
    → root ≢ []
    → IsCstring host
    → ((host_to_guest c root host path_len ≢ none)
        ↔ ((rest : List ℕ) × IsRest rest × (host ≡ root ++ rest)))
host_to_guest_lem c root host n r s = (
  λ h. elim (Bool-cases (has_prefix host root (length root))) [
    | inl e ↦ has_prefix-IsRest root host s e
    | inr e ↦ absurd (h (host_to_guest-outside c root host n e))
  ],
  λ (rest, p, e) q. cc (host_to_guest-append c root rest n r p),
)
