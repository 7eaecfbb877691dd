-- ===== src/Cstring/Laws.antt =====
-- Laws of the C string operations.
use emuroot.Base.{
  ℕ, zero, suc, ◌≤◌, ◌<◌, ◌≡◌, refl, ap, ◌≢◌, true, false, none, some, List, [], ◌∷◌, ◌++◌, length,
  take, drop, arith,
}
use emuroot.Cstring.{slash, char_at, str_eq, strn_eq, strrchr, skip_slashes, segment_len}

pub str_eq→eq : (s t : List ℕ) → str_eq s t ≡ true → s ≡ t
unfolding str_eq
str_eq→eq [] [] h = refl
str_eq→eq [] (b ∷ t) h = ground arith
str_eq→eq (a ∷ s) [] h = ground arith
str_eq→eq (a ∷ s) (b ∷ t) h = ground (arith, str_eq→eq s t)

pub str_eq_refl : (s : List ℕ) → str_eq s s ≡ true
unfolding str_eq
str_eq_refl [] = refl
str_eq_refl (a ∷ s) = ground (arith, str_eq_refl s)

pub str_ne : (s t : List ℕ) → str_eq s t ≡ false → s ≢ t
str_ne s t h e = let r = str_eq_refl t in cc (ap (λ x. str_eq x t) e)

-- A string begins with itself followed by anything.
pub strn_eq-append : (s t : List ℕ) → strn_eq (s ++ t) s (length s) ≡ true
unfolding strn_eq
strn_eq-append [] t = refl
strn_eq-append (a ∷ s) t = ground (arith, strn_eq-append s t)

pub strn_eq→append : (s t : List ℕ) → strn_eq s t (length t) ≡ true → s ≡ t ++ drop (length t) s
unfolding strn_eq
strn_eq→append s [] h = refl
strn_eq→append [] (b ∷ t) h = ground arith
strn_eq→append (a ∷ s) (b ∷ t) h = ground (arith, strn_eq→append s t)

-- No byte of the string is a '/'.
abbrev pub NoSlash : List ℕ → Type 0
NoSlash [] = Unit {0}
NoSlash (x ∷ s) = (x ≢ slash) × NoSlash s

pub strrchr-NoSlash : (s : List ℕ) → NoSlash s → strrchr s slash ≡ none
unfolding strrchr
strrchr-NoSlash [] h = refl
strrchr-NoSlash (x ∷ s) h = ground (arith, strrchr-NoSlash s h.1)

pub strrchr-append : (s t : List ℕ) → NoSlash t → strrchr (s ++ slash ∷ t) slash ≡ some (length s)
unfolding strrchr
strrchr-append [] t h = ground (arith, strrchr-NoSlash t h)
strrchr-append (x ∷ s) t h = ground (arith, strrchr-append s t h)

pub length-skip_slashes-le : (s : List ℕ) → length (skip_slashes s) ≤ length s
unfolding skip_slashes
length-skip_slashes-le [] = omega arith
length-skip_slashes-le (x ∷ s) = ground (arith, length-skip_slashes-le s)

-- What is left after the slashes does not begin with one.
pub skip_slashes_head : (s : List ℕ) (x : ℕ) (t : List ℕ) → skip_slashes s ≡ x ∷ t → x ≢ slash
unfolding skip_slashes
skip_slashes_head [] x t h = ground arith
skip_slashes_head (y ∷ s) x t h = ground (arith, skip_slashes_head s x t)

pub segment_len-pos : (x : ℕ) (s : List ℕ) → x ≢ slash → 0 < segment_len (x ∷ s)
unfolding segment_len
segment_len-pos x s h = ground arith

pub take-segment-NoSlash : (n : ℕ) (s : List ℕ) → n ≤ segment_len s → NoSlash (take n s)
unfolding segment_len
take-segment-NoSlash zero s h = tt
take-segment-NoSlash (suc n) [] h = tt
take-segment-NoSlash (suc n) (x ∷ s) h = ground (arith, take-segment-NoSlash n s)

pub char_at-append : (s t : List ℕ) → char_at (s ++ t) (length s) ≡ char_at t 0
char_at-append [] t = refl
char_at-append (x ∷ s) t = char_at-append s t

-- The bytes of a C string: none is the NUL.
abbrev pub IsCstring : List ℕ → Type 0
IsCstring [] = Unit {0}
IsCstring (x ∷ s) = (x ≢ 0) × IsCstring s

pub drop-IsCstring : (n : ℕ) (s : List ℕ) → IsCstring s → IsCstring (drop n s)
drop-IsCstring zero s h = h
drop-IsCstring (suc n) [] h = tt
drop-IsCstring (suc n) (x ∷ s) h = drop-IsCstring n s h.1

pub char_at-drop : (n : ℕ) (s : List ℕ) → char_at s n ≡ char_at (drop n s) 0
char_at-drop zero s = refl
char_at-drop (suc n) [] = refl
char_at-drop (suc n) (x ∷ s) = char_at-drop n s
