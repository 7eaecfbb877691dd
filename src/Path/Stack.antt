-- ===== src/Path/Stack.antt =====
-- src/path.c: the guest path `cur` as a stack of components, the last component on top.
use emuroot.Base.{
  ℕ, zero, suc, ◌<◌, ◌≡◌, refl, ◌≢◌, ◌∙◌, true, some, List, [], ◌∷◌, ◌++◌, ltb, if◌then◌else◌,
  length, take, arith, length-append, take-append,
}
use emuroot.Cstring.{slash, bytes, strrchr}
use emuroot.Cstring.Laws.{NoSlash, strrchr-append}
use emuroot.Path.{pop_component}

-- A component of a normalized path.
pub record IsComponent (c : List ℕ) : Type 0 where
  pub nonempty : c ≢ []
  pub plain : NoSlash c
  pub not_dot : c ≢ bytes "."
  pub not_dotdot : c ≢ bytes ".."

abbrev pub Components : List (List ℕ) → Type 0
Components [] = Unit {0}
Components (c ∷ cs) = IsComponent c × Components cs

abbrev pub joined : List (List ℕ) → List ℕ
joined [] = []
joined (c ∷ cs) = joined cs ++ slash ∷ c

-- The absolute path of a stack.
abbrev pub path_of : List (List ℕ) → List ℕ
path_of [] = slash ∷ []
path_of (c ∷ cs) = joined (c ∷ cs)

abbrev pub parent : List (List ℕ) → List (List ℕ)
parent [] = []
parent (c ∷ cs) = cs

pub parent-Components : (cs : List (List ℕ)) → Components cs → Components (parent cs)
parent-Components [] h = tt
parent-Components (c ∷ cs) h = h.1

pop_at :
    (path : List ℕ) (n : ℕ) → strrchr path slash ≡ some n → 0 < n → pop_component path ≡ take n path
unfolding pop_component
pop_at path zero e h = absurd (omega arith)
pop_at path (suc n) e h = rw (e, pop_component)

length-nonempty : (c : List ℕ) → c ≢ [] → 0 < length c
length-nonempty [] h = absurd (h refl)
length-nonempty (x ∷ c) h = omega arith

-- `pop_component` takes the top of the stack off; at the root it stays there.
pub pop-path_of :
    (cs : List (List ℕ)) → Components cs → pop_component (path_of cs) ≡ path_of (parent cs)
unfolding pop_component strrchr
pop-path_of [] h = refl
pop-path_of (c ∷ []) h = rw (strrchr-append [] c h.0.plain, pop_component)
pop-path_of (c ∷ d ∷ ds) h =
    let front = joined (d ∷ ds) in
    let pos : 0 < length front = omega (arith, length-append (joined ds) (slash ∷ d)) in
    pop_at (front ++ slash ∷ c) (length front) (strrchr-append front c h.0.plain) pos
    ∙ take-append (length front) front (slash ∷ c) refl

-- Extending `cur` by a component pushes it.
pub push-path_of :
    (cs : List (List ℕ)) (c : List ℕ)
    → Components cs
    → path_of cs ++ ((if ltb 1 (length (path_of cs)) then bytes "/" else []) ++ c)
      ≡ path_of (c ∷ cs)
push-path_of [] c h = refl
push-path_of (d ∷ ds) c h =
    let long : ltb 1 (length (joined (d ∷ ds))) ≡ true =
      ground (arith, length-append (joined ds) (slash ∷ d), length-nonempty d h.0.nonempty) in
    rw long
