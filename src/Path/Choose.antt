-- ===== src/Path/Choose.antt =====
-- src/path.c: which binding the loop of map_to_host chooses.
use emuroot.Base.{
  ℕ, zero, suc, ◌≤◌, ◌<◌, ◌≡◌, refl, ◌⊎◌, inl, inr, Bool, true, false, ◌&&◌, Option, none, some,
  List, ◌++◌, ltb, if◌then◌else◌, drop, arith, Bool-cases, ltb→lt,
}
use emuroot.Cstring.{bytes, str_eq, snprintf}
use emuroot.Context.{Ctx, Binding, binding_at, path_len}
use emuroot.Path.{pick_down, beats, matches_guest, map_to_host, or_slash, or_empty}

module _ (c : Ctx) (fits : Binding → Bool) (size : Binding → ℕ) where
  -- Among the bindings from lo up to hi, the one at i fits, no fitting one is longer, and those after
  -- it that fit are shorter.
  record IsBest (lo hi : ℕ) (b : Binding) : Type 0 where
    pub index : ℕ
    pub above : lo ≤ index
    pub below : index < hi
    pub is_at : binding_at c index ≡ b
    pub fitting : fits b ≡ true
    pub longest :
        (k : ℕ) → lo ≤ k → k < hi → fits (binding_at c k) ≡ true → size (binding_at c k) ≤ size b
    pub newest :
        (k : ℕ) → index < k → k < hi → fits (binding_at c k) ≡ true → size (binding_at c k) < size b

  abbrev Best : ℕ → ℕ → Option Binding → Type 0
  Best lo hi none = (k : ℕ) → lo ≤ k → k < hi → fits (binding_at c k) ≡ false
  Best lo hi (some b) = IsBest lo hi b

  le_cases : (i k : ℕ) → i ≤ k → (k ≡ i) ⊎ (suc i ≤ k)
  le_cases i k h = grind arith

  first-Best :
      (i hi : ℕ)
      → i < hi
      → Best (suc i) hi none
      → fits (binding_at c i) ≡ true
      → IsBest i hi (binding_at c i)
  first-Best i hi l h e = record {
    index = i;
    above = omega arith;
    below = l;
    is_at = refl;
    fitting = e;
    longest =
        λ k p q f. elim (le_cases i k p) [ inl s ↦ rw s (omega arith) | inr s ↦ cc (h k s q) ];
    newest = λ k p q f. cc (h k p q);
  }

  longer-Best :
      (i hi : ℕ) (best : Binding)
      → i < hi
      → IsBest (suc i) hi best
      → fits (binding_at c i) ≡ true
      → size best < size (binding_at c i)
      → IsBest i hi (binding_at c i)
  longer-Best i hi best l h e more = record {
    index = i;
    above = omega arith;
    below = l;
    is_at = refl;
    fitting = e;
    longest = λ k p q f. elim (le_cases i k p) [
      | inl s ↦ rw s (omega arith)
      | inr s ↦ omega (arith, h.longest k s q f)
    ];
    newest = λ k p q f. omega (arith, h.longest k p q f);
  }

  keep-Best :
      (i hi : ℕ) (best : Binding)
      → IsBest (suc i) hi best
      → (fits (binding_at c i) ≡ true → size (binding_at c i) ≤ size best)
      → IsBest i hi best
  keep-Best i hi best h small = record {
    index = h.index;
    above = omega (arith, h.above);
    below = h.below;
    is_at = h.is_at;
    fitting = h.fitting;
    longest = λ k p q f. elim (le_cases i k p) [
      | inl s ↦ rw s (small (rw s at f))
      | inr s ↦ h.longest k s q f
    ];
    newest = h.newest;
  }

  next-Best :
      (i hi : ℕ) (best : Option Binding)
      → i < hi
      → Best (suc i) hi best
      → let b = binding_at c i in Best i hi (if fits b && beats best size b then some b else best)
  unfolding beats
  next-Best i hi none l h = elim (Bool-cases (fits (binding_at c i))) [
    | inl e ↦ rw e (first-Best i hi l h e)
    | inr e ↦ rw e (λ k p q. elim (le_cases i k p) [ inl s ↦ rw s e | inr s ↦ h k s q ])
  ]
  next-Best i hi (some best) l h =
      let b = binding_at c i in
      elim (Bool-cases (fits b)) [
        | inr e ↦ rw e (keep-Best i hi best h (λ f. cc))
        | inl e ↦ elim (Bool-cases (ltb (size best) (size b))) [
          | inl m ↦ rw (e, m) (longer-Best i hi best l h e (ltb→lt _ _ m))
          | inr m ↦ rw (e, m) (keep-Best i hi best h (λ f. ground arith))
        ]
      ]

  pick_down-Best :
      (n hi : ℕ) (best : Option Binding)
      → n ≤ hi
      → Best n hi best
      → Best 0 hi (pick_down c fits size n best)
  unfolding pick_down
  pick_down-Best zero hi best l h = h
  pick_down-Best (suc i) hi best l h = pick_down-Best i hi _ (omega arith) (next-Best i hi best l h)

-- The guest path goes through the binding at i: it fits, no fitting binding has a longer guest path,
-- none added later has one as long, and the host path is the binding's with the rest behind it.
pub record GoesThrough (c : Ctx) (root guest : List ℕ) (i : ℕ) : Type 0 where
  pub is_live : i < c.nbindings
  pub fitting : matches_guest guest (binding_at c i) ≡ true
  pub longest :
      (m : ℕ)
      → m < c.nbindings
      → matches_guest guest (binding_at c m) ≡ true
      → ((binding_at c m).guest_len ≤ (binding_at c i).guest_len)
        × (i < m → (binding_at c m).guest_len < (binding_at c i).guest_len)
  pub written :
      map_to_host c root guest path_len
      ≡ or_slash (
          snprintf path_len (
            or_empty (binding_at c i).host
            ++ (if str_eq (binding_at c i).guest (bytes "/")
                then guest
                else drop (binding_at c i).guest_len guest)))

chosen-GoesThrough :
    (c : Ctx) (root guest : List ℕ) (k : ℕ) (o : Option Binding)
    → k < c.nbindings
    → matches_guest guest (binding_at c k) ≡ true
    → pick_down c (matches_guest guest) (λ b. b.guest_len) c.nbindings none ≡ o
    → Best c (matches_guest guest) (λ b. b.guest_len) 0 c.nbindings o
    → (i : ℕ) × GoesThrough c root guest i
unfolding map_to_host
chosen-GoesThrough c root guest k none l f e best = cc (best k (omega arith) l)
chosen-GoesThrough c root guest k (some b) l f e best = (
  best.index,
  record {
    is_live = best.below;
    fitting = rw best.is_at best.fitting;
    longest = λ m p q. rw best.is_at (best.longest m (omega arith) p q, λ r. best.newest m r p q);
    written = rw (e, map_to_host, best.is_at);
  },
)

-- Where some binding fits a guest path (its guest path is "/", or a prefix of it up to a '/' or its
-- end), map_to_host sends it through a fitting binding with the longest guest path, the one added
-- last among those.
pub map_to_host-GoesThrough :
    (c : Ctx) (root guest : List ℕ) (k : ℕ)
    → k < c.nbindings
    → matches_guest guest (binding_at c k) ≡ true
    → (i : ℕ) × GoesThrough c root guest i
map_to_host-GoesThrough c root guest k l f =
    let none_yet : Best c (matches_guest guest) (λ b. b.guest_len) c.nbindings c.nbindings none =
      λ m p q. absurd (omega arith) in
    chosen-GoesThrough c root guest k _ l f refl (
      pick_down-Best c (matches_guest guest) (λ b. b.guest_len) c.nbindings c.nbindings none
        (omega arith) none_yet)
