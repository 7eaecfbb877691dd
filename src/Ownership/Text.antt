-- ===== src/Ownership/Text.antt =====
-- src/ownership.c: the text of the file of owners, as `fprintf` writes "%llu %llu %u %u\n" and as
-- `fscanf` reads "%llu %llu %u %u", with a number out of range read as a 64-bit glibc does.
pub mod Digits
pub mod Rows
use emuroot.Base.{
  ℕ, zero, suc, ◌+◌, ◌-◌, ◌*◌, ◌/◌, ◌%◌, ◌^◌, Bool, true, false, ◌&&◌, ◌||◌, Option, none, some,
  List, [], ◌∷◌, ◌++◌, ltb, leb, ◌==◌, if◌then◌else◌, length,
}

-- "dev ino uid gid"
abbrev pub Row : Type 0
Row = ℕ × ℕ × ℕ × ℕ

-- The decimal digits of a number below 10 ^ fuel.
unfoldable pub print_digits : ℕ → ℕ → List ℕ
print_digits zero n = []
print_digits (suc fuel) n =
    let rest = print_digits fuel (n / 10) in
    if ltb n 10 then (48 + n) ∷ [] else rest ++ ((48 + n % 10) ∷ [])

-- `%llu` and `%u`: a 64-bit number has at most 20 digits.
abbrev pub print_unsigned : ℕ → List ℕ
print_unsigned n = print_digits 20 n

-- The line of an entry, without its newline.
unfoldable pub row_text : Row → List ℕ
row_text (dev, ino, uid, gid) =
    print_unsigned dev
    ++ (b' ' ∷ (print_unsigned ino ++ (b' ' ∷ (print_unsigned uid ++ (b' ' ∷ print_unsigned gid)))))

unfoldable pub print_rows : List Row → List ℕ
print_rows [] = []
print_rows (row ∷ rows) = row_text row ++ (b'\n' ∷ print_rows rows)

-- `isspace`
unfoldable pub is_space : ℕ → Bool
is_space c = c == b' ' || leb 9 c && leb c 13

unfoldable pub is_digit : ℕ → Bool
is_digit c = leb 48 c && leb c 57

unfoldable pub skip_spaces : List ℕ → List ℕ
skip_spaces [] = []
skip_spaces (c ∷ s) = let rest = skip_spaces s in if is_space c then rest else c ∷ s

-- The sign that a number may have, and what is behind it
unfoldable pub take_sign : List ℕ → Bool × List ℕ
take_sign [] = (false, [])
take_sign (c ∷ s) =
    if c == b'-' then (true, s) else if c == b'+' then (false, s) else (false, c ∷ s)

-- The digits in front, and what they and the number before them make.
unfoldable pub scan_digits : ℕ → List ℕ → ℕ × List ℕ
scan_digits n [] = (n, [])
scan_digits n (c ∷ s) =
    let more = scan_digits (n * 10 + (c - 48)) s in if is_digit c then more else (n, c ∷ s)

unfoldable pub starts_digit : List ℕ → Bool
starts_digit [] = false
starts_digit (c ∷ s) = is_digit c

-- `strtoull`: a number that does not fit is the largest one, and a sign negates.
unfoldable pub in_range : Bool → ℕ → ℕ
in_range negative n =
    if leb (2 ^ 64) n then 2 ^ 64 - 1 else if negative then (2 ^ 64 - n) % 2 ^ 64 else n

-- A conversion into an unsigned number of so many bits, and the input that is left; none where the
-- input has no number.
unfoldable pub scan_unsigned : ℕ → List ℕ → Option (ℕ × List ℕ)
scan_unsigned bits text =
    let (negative, s) = take_sign (skip_spaces text) in
    let (n, rest) = scan_digits 0 s in
    if starts_digit s then some (in_range negative n % 2 ^ bits, rest) else none

infixl 1 ◌>>=◌
abbrev ◌>>=◌ : {A B : Type 0} → Option A → (A → Option B) → Option B
none >>= f = none
some a >>= f = f a

-- `fscanf(f, "%llu %llu %u %u", &dev, &ino, &uid, &gid) == 4`. A blank in the format takes what white
-- space there is, which the conversion behind it would skip as well.
unfoldable pub scan_row : List ℕ → Option (Row × List ℕ)
scan_row text = do
  (dev, s1) ← scan_unsigned 64 text
  (ino, s2) ← scan_unsigned 64 s1
  (uid, s3) ← scan_unsigned 32 s2
  (gid, s4) ← scan_unsigned 32 s3
  some ((dev, ino, uid, gid), s4)

-- The loop over the lines, behind `skip` bytes that have been read already. It ends at the first line
-- that is not read in full.
unfoldable pub scan_rows : ℕ → List ℕ → List Row
scan_rows skip [] = []
scan_rows (suc skip) (c ∷ s) = scan_rows skip s
scan_rows zero (c ∷ s) = elim (scan_row (c ∷ s)) [
  | none ↦ []
  | some (row, rest) ↦ row ∷ scan_rows (length s - length rest) s
]
