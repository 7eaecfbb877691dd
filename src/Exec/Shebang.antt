-- ===== src/Exec/Shebang.antt =====
-- src/exec.c, parse_shebang: the line of a script is read back as it was written.
use emuroot.Base.{
  ℕ, suc, ◌+◌, ◌≤◌, ◌≡◌, refl, ap, inl, inr, ◌⊎◌, Bool, true, false, not, ◌&&◌, ◌||◌, some, List,
  [], ◌∷◌, ◌++◌, ◌==◌, length, take, drop, Bool-cases, take_all, take-append, drop-append,
  length-append, arith,
}
use emuroot.Exec.{
  is_blank, skip_blanks, token_len, first_line, all_trailing, trim_end, split_at, parse_line,
  parse_shebang,
}

-- Neither a newline nor a NUL is in it.
unfoldable pub is_line : List ℕ → Bool
is_line [] = true
is_line (x ∷ s) = not (x == b'\n' || x == 0) && is_line s

-- No blank is in it.
unfoldable pub is_word : List ℕ → Bool
is_word [] = true
is_word (x ∷ s) = not (is_blank x) && is_word s

first_line-line : (s body : List ℕ) → is_line s ≡ true → first_line (s ++ (b'\n' ∷ body)) ≡ s
unfolding first_line is_line
first_line-line [] body h = refl
first_line-line (x ∷ s) body h = elim (Bool-cases (x == b'\n' || x == 0)) [
  | inl e ↦ cc (rw e at h)
  | inr e ↦ rw e (ap (λ t. x ∷ t) (first_line-line s body (rw e at h)))
]

is_line-append : (s t : List ℕ) → is_line s ≡ true → is_line t ≡ true → is_line (s ++ t) ≡ true
unfolding is_line
is_line-append [] t h k = k
is_line-append (x ∷ s) t h k = elim (Bool-cases (x == b'\n' || x == 0)) [
  | inl e ↦ cc (rw e at h)
  | inr e ↦ rw e (is_line-append s t (rw e at h) k)
]

skip_blanks-word : (x : ℕ) (s : List ℕ) → is_blank x ≡ false → skip_blanks (x ∷ s) ≡ x ∷ s
unfolding skip_blanks
skip_blanks-word x s h = rw h refl

skip_one : (y : ℕ) (s : List ℕ) → is_blank y ≡ false → skip_blanks (b' ' ∷ y ∷ s) ≡ y ∷ s
unfolding skip_blanks is_blank
skip_one y s h = rw h refl

token_len-word : (s t : List ℕ) → is_word s ≡ true → token_len (s ++ (b' ' ∷ t)) ≡ length s
unfolding token_len is_word is_blank
token_len-word [] t h = refl
token_len-word (x ∷ s) t h = elim (Bool-cases (is_blank x)) [
  | inl e ↦ cc (rw e at h)
  | inr e ↦ rw e (ap suc (token_len-word s t (rw e at h)))
]

-- A blank or a carriage return
abbrev IsPad : ℕ → Type 0
IsPad x = (x ≡ b' ') ⊎ ((x ≡ b'\t') ⊎ (x ≡ b'\r'))

abbrev pub AllPad : List ℕ → Type 0
AllPad [] = Unit {0}
AllPad (x ∷ s) = IsPad x × AllPad s

-- The last byte is neither a blank nor a carriage return.
abbrev pub EndsSolid : List ℕ → Type 0
EndsSolid [] = ⊥
EndsSolid (x ∷ []) = ¬ IsPad x
EndsSolid (x ∷ y ∷ s) = EndsSolid (y ∷ s)

all_trailing-pad : (pad : List ℕ) → AllPad pad → all_trailing pad ≡ true
unfolding all_trailing is_blank
all_trailing-pad [] p = refl
all_trailing-pad (x ∷ pad) p = ground (arith, p.0, all_trailing-pad pad p.1)

is_line-pad : (pad : List ℕ) → AllPad pad → is_line pad ≡ true
unfolding is_line
is_line-pad [] p = refl
is_line-pad (x ∷ pad) p = ground (arith, p.0, is_line-pad pad p.1)

all_trailing-solid : (s pad : List ℕ) → EndsSolid s → all_trailing (s ++ pad) ≡ false
unfolding all_trailing is_blank
all_trailing-solid [] pad h = absurd h
all_trailing-solid (x ∷ []) pad h = ground (arith, h)
all_trailing-solid (x ∷ y ∷ s) pad h = ground (arith, all_trailing-solid (y ∷ s) pad h)

trim_end-pad : (pad : List ℕ) → AllPad pad → trim_end pad ≡ []
unfolding trim_end
trim_end-pad [] p = refl
trim_end-pad (x ∷ pad) p = rw (all_trailing-pad (x ∷ pad) p)

-- What is taken off an end is the blanks and carriage returns behind the last other byte.
trim_end-solid : (s pad : List ℕ) → EndsSolid s → AllPad pad → trim_end (s ++ pad) ≡ s
unfolding trim_end
trim_end-solid [] pad h p = absurd h
trim_end-solid (x ∷ []) pad h p =
    rw (all_trailing-solid (x ∷ []) pad h) (ap (λ t. x ∷ t) (trim_end-pad pad p))
trim_end-solid (x ∷ y ∷ s) pad h p =
    rw (all_trailing-solid (x ∷ y ∷ s) pad h) (ap (λ t. x ∷ t) (trim_end-solid (y ∷ s) pad h p))

split_at-words :
    (x y : ℕ) (interp arg pad : List ℕ)
    → is_blank y ≡ false
    → EndsSolid (y ∷ arg)
    → AllPad pad
    → split_at ((x ∷ interp) ++ (b' ' ∷ y ∷ (arg ++ pad))) (length (x ∷ interp))
      ≡ some (x ∷ interp, some (y ∷ arg))
unfolding split_at
split_at-words x y interp arg pad ny solid p =
    let t : take (length interp) (interp ++ (b' ' ∷ y ∷ (arg ++ pad))) ≡ interp =
      take-append (length interp) interp _ refl in
    let d : drop (length interp) (interp ++ (b' ' ∷ y ∷ (arg ++ pad))) ≡ b' ' ∷ y ∷ (arg ++ pad) =
      drop-append (length interp) interp _ refl in
    let trimmed : trim_end (y ∷ (arg ++ pad)) ≡ y ∷ arg = trim_end-solid (y ∷ arg) pad solid p in
    rw (t, d) (rw (skip_one y (arg ++ pad) ny) (rw trimmed (ground arith)))

word_head : (x : ℕ) (s : List ℕ) → is_word (x ∷ s) ≡ true → is_blank x ≡ false
unfolding is_word is_blank
word_head x s h = elim (Bool-cases (is_blank x)) [ inl e ↦ cc (rw e at h) | inr e ↦ e ]

parse_line-words :
    (x y : ℕ) (interp arg pad : List ℕ)
    → is_word (x ∷ interp) ≡ true
    → is_blank x ≡ false
    → is_blank y ≡ false
    → EndsSolid (y ∷ arg)
    → AllPad pad
    → parse_line ((x ∷ interp) ++ (b' ' ∷ y ∷ (arg ++ pad))) ≡ some (x ∷ interp, some (y ∷ arg))
unfolding parse_line
parse_line-words x y interp arg pad w nx ny solid p =
    rw (skip_blanks-word x (interp ++ (b' ' ∷ y ∷ (arg ++ pad))) nx) (
      rw (token_len-word (x ∷ interp) (y ∷ (arg ++ pad)) w)
        (split_at-words x y interp arg pad ny solid p))

-- A line of at most 255 bytes "interp arg", where the interpreter is not empty and has no blank, and
-- the argument is not empty, does not begin with a blank and does not end with a blank or a carriage
-- return, and neither has a newline or a NUL; blanks, tabs and carriage returns may follow on the
-- line. The parser reads back that interpreter and that one argument, blanks and carriage returns
-- inside it included and those behind it not, whatever follows the line.
pub shebang_round_trip :
    (x y : ℕ) (interp arg pad body : List ℕ)
    → is_word (x ∷ interp) ≡ true
    → is_line (x ∷ interp) ≡ true
    → is_line (y ∷ arg) ≡ true
    → is_blank y ≡ false
    → EndsSolid (y ∷ arg)
    → AllPad pad
    → length (x ∷ interp) + 1 + length (y ∷ arg) + length pad ≤ 255
    → parse_shebang (b'#' ∷ b'!' ∷ (((x ∷ interp) ++ (b' ' ∷ y ∷ (arg ++ pad))) ++ (b'\n' ∷ body)))
      ≡ some (x ∷ interp, some (y ∷ arg))
unfolding parse_shebang is_line
shebang_round_trip x y interp arg pad body w l1 l2 nb solid p fits =
    let line = (x ∷ interp) ++ (b' ' ∷ y ∷ (arg ++ pad)) in
    let l3 : is_line ((y ∷ arg) ++ pad) ≡ true =
      is_line-append (y ∷ arg) pad l2 (is_line-pad pad p) in
    let l : is_line line ≡ true = is_line-append (x ∷ interp) (b' ' ∷ y ∷ (arg ++ pad)) l1 l3 in
    let f : first_line (line ++ (b'\n' ∷ body)) ≡ line = first_line-line line body l in
    let n : length line ≤ 255 =
      omega (
        arith,
        fits,
        length-append (x ∷ interp) (b' ' ∷ y ∷ (arg ++ pad)),
        length-append arg pad,
      ) in
    let words = parse_line-words x y interp arg pad w (word_head x interp w) nb solid p in
    rw (f) (rw (take_all 255 line n) (rw words (ground arith)))
