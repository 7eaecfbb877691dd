-- ===== src/Ownership/Text/Digits.antt =====
-- src/ownership.c: a number that has been printed is scanned.
use emuroot.Base.{
  ℕ, zero, suc, ◌+◌, ◌-◌, ◌*◌, ◌/◌, ◌%◌, ◌^◌, ◌≤◌, ◌<◌, ◌≡◌, refl, ◌∙◌, ap, inl, inr, true, false,
  some, List, [], ◌∷◌, ◌++◌, ltb, Bool-cases, arith,
}
use native.Mathlib.Nat.{pow-succ', mod-eq_of_lt}
use emuroot.Ownership.Text.{
  print_digits, print_unsigned, is_space, is_digit, skip_spaces, take_sign, scan_digits,
  starts_digit, in_range, scan_unsigned,
}

-- All bytes are digits.
abbrev AllDigits : List ℕ → Type 0
AllDigits [] = Unit {0}
AllDigits (c ∷ s) = (48 ≤ c) × (c ≤ 57) × AllDigits s

-- What digits make of the number before them.
value : ℕ → List ℕ → ℕ
value n [] = n
value n (c ∷ s) = value (n * 10 + (c - 48)) s

AllDigits-append : (s : List ℕ) (c : ℕ) → AllDigits s → 48 ≤ c → c ≤ 57 → AllDigits (s ++ (c ∷ []))
AllDigits-append [] c h l u = (l, u, tt)
AllDigits-append (x ∷ s) c h l u = (h.0, h.1, AllDigits-append s c h.2 l u)

value-append : (n : ℕ) (s : List ℕ) (c : ℕ) → value n (s ++ (c ∷ [])) ≡ value n s * 10 + (c - 48)
unfolding value
value-append n [] c = refl
value-append n (x ∷ s) c = value-append (n * 10 + (x - 48)) s c

print_digits-AllDigits : (fuel n : ℕ) → AllDigits (print_digits fuel n)
unfolding print_digits
print_digits-AllDigits zero n = tt
print_digits-AllDigits (suc fuel) n = elim (Bool-cases (ltb n 10)) [
  | inl e ↦ let small : n < 10 = ground arith in rw e (omega arith, omega arith, tt)
  | inr e ↦ rw e (
      AllDigits-append (print_digits fuel (n / 10)) (48 + n % 10)
        (print_digits-AllDigits fuel (n / 10)) (omega arith) (omega arith))
]

-- The digits that are printed make the number, where there is room for all of them.
value-print_digits : (fuel n : ℕ) → n < 10 ^ fuel → value 0 (print_digits fuel n) ≡ n
unfolding print_digits value
value-print_digits zero n h = omega arith
value-print_digits (suc fuel) n h = elim (Bool-cases (ltb n 10)) [
  | inl e ↦ rw e (omega arith)
  | inr e ↦
      let small : n / 10 < 10 ^ fuel = omega (arith, pow-succ' 10 fuel) in
      let before = value-print_digits fuel (n / 10) small in
      rw e (value-append 0 (print_digits fuel (n / 10)) (48 + n % 10) ∙ omega arith)
]

-- The input does not begin with a digit.
abbrev pub NoDigit : List ℕ → Type 0
NoDigit [] = Unit {0}
NoDigit (c ∷ s) = is_digit c ≡ false

scan_digits-value :
    (n : ℕ) (s rest : List ℕ)
    → AllDigits s
    → NoDigit rest
    → scan_digits n (s ++ rest) ≡ (value n s, rest)
unfolding scan_digits value
scan_digits-value n [] [] h e = refl
scan_digits-value n [] (c ∷ rest) h e = rw e
scan_digits-value n (x ∷ s) rest h e =
    let digit : is_digit x ≡ true = unfold is_digit in ground (arith, h.0, h.1) in
    rw digit (scan_digits-value (n * 10 + (x - 48)) s rest h.2 e)

-- A number's first byte is a digit.
pub print_digits-first :
    (fuel n : ℕ)
    → (c : ℕ) × (s : List ℕ) × (print_digits (suc fuel) n ≡ c ∷ s) × (48 ≤ c) × (c ≤ 57)
unfolding print_digits
print_digits-first zero n = elim (Bool-cases (ltb n 10)) [
  | inl e ↦ let small : n < 10 = ground arith in (48 + n, [], rw e, omega arith, omega arith)
  | inr e ↦ (48 + n % 10, [], rw e, omega arith, omega arith)
]
print_digits-first (suc fuel) n = elim (Bool-cases (ltb n 10)) [
  | inl e ↦ let small : n < 10 = ground arith in (48 + n, [], rw e, omega arith, omega arith)
  | inr e ↦
      let (c, s, p, l, u) = print_digits-first fuel (n / 10) in
      (c, s ++ ((48 + n % 10) ∷ []), rw e (ap (λ t. t ++ ((48 + n % 10) ∷ [])) p), l, u)
]

-- A conversion reads what has been printed, of a number that fits, where no digit follows.
scan_unsigned-digits :
    (bits n c : ℕ) (s rest : List ℕ)
    → 48 ≤ c
    → c ≤ 57
    → scan_digits 0 (c ∷ s) ≡ (n, rest)
    → n < 2 ^ bits
    → n < 2 ^ 64
    → scan_unsigned bits (c ∷ s) ≡ some (n, rest)
unfolding scan_unsigned
scan_unsigned-digits bits n c s rest l u e fits range =
    let front : skip_spaces (c ∷ s) ≡ c ∷ s = unfold skip_spaces is_space in ground arith in
    let plain : take_sign (c ∷ s) ≡ (false, c ∷ s) = unfold take_sign in ground arith in
    let digit : starts_digit (c ∷ s) ≡ true = unfold starts_digit is_digit in ground arith in
    let same : in_range false n ≡ n = unfold in_range in ground arith in
    rw front (rw plain (rw digit (rw e (rw same (rw (mod-eq_of_lt fits) refl)))))

-- A conversion reads a number that has been printed, where it fits and no digit follows.
pub scan_unsigned-print_unsigned :
    (bits n : ℕ) (rest : List ℕ)
    → NoDigit rest
    → n < 2 ^ bits
    → n < 2 ^ 64
    → scan_unsigned bits (print_unsigned n ++ rest) ≡ some (n, rest)
scan_unsigned-print_unsigned bits n rest ends fits range =
    let (c, s, p, l, u) = print_digits-first 19 n in
    let scanned : scan_digits 0 (print_unsigned n ++ rest) ≡ (n, rest) =
      scan_digits-value 0 (print_unsigned n) rest (print_digits-AllDigits 20 n) ends
      ∙ ap (λ v. (v, rest)) (value-print_digits 20 n (omega arith)) in
    rw p (scan_unsigned-digits bits n c (s ++ rest) rest l u (rw p at scanned) fits range)

-- White space before a number is skipped.
pub scan_unsigned-space :
    (bits c : ℕ) (text : List ℕ)
    → is_space c ≡ true
    → scan_unsigned bits (c ∷ text) ≡ scan_unsigned bits text
unfolding scan_unsigned skip_spaces
scan_unsigned-space bits c text e = rw e refl
