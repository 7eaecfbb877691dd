-- ===== src/Ownership/Text/Rows.antt =====
-- src/ownership.c: the lines of the file of owners are read back as they were written.
use emuroot.Base.{
  ℕ, zero, suc, ◌-◌, ◌^◌, ◌<◌, ◌≡◌, refl, ◌∙◌, ap, false, some, List, [], ◌∷◌, ◌++◌, drop, length,
  length-append, drop-append, arith,
}
use mathlib.Core.List.{append_assoc}
use emuroot.Ownership.Text.{
  Row, print_unsigned, row_text, print_rows, is_space, is_digit, skip_spaces, take_sign,
  starts_digit, scan_unsigned, scan_row, scan_rows,
}
use emuroot.Ownership.Text.Digits.{
  print_digits-first, scan_unsigned-print_unsigned, scan_unsigned-space,
}

-- The numbers are those of the entry's fields: 64 bits for a file, 32 for an owner.
abbrev pub Fits : Row → Type 0
Fits (dev, ino, uid, gid) = (dev < 2 ^ 64) × (ino < 2 ^ 64) × (uid < 2 ^ 32) × (gid < 2 ^ 32)

abbrev pub AllFit : List Row → Type 0
AllFit [] = Unit {0}
AllFit (row ∷ rows) = Fits row × AllFit rows

-- A number behind a blank
scan_next :
    (bits n c : ℕ) (text : List ℕ)
    → is_digit c ≡ false
    → n < 2 ^ bits
    → n < 2 ^ 64
    → scan_unsigned bits (b' ' ∷ (print_unsigned n ++ (c ∷ text))) ≡ some (n, c ∷ text)
unfolding is_space
scan_next bits n c text e fits range =
    scan_unsigned-space bits b' ' (print_unsigned n ++ (c ∷ text)) refl
    ∙ scan_unsigned-print_unsigned bits n (c ∷ text) e fits range

scan_row-row_text :
    (row : Row) (text : List ℕ)
    → Fits row
    → scan_row (row_text row ++ (b'\n' ∷ text)) ≡ some (row, b'\n' ∷ text)
unfolding scan_row row_text is_digit
scan_row-row_text (dev, ino, uid, gid) text (fd, fi, fu, fg) =
    let gids = b' ' ∷ (print_unsigned gid ++ (b'\n' ∷ text)) in
    let uids = b' ' ∷ (print_unsigned uid ++ gids) in
    let inos = b' ' ∷ (print_unsigned ino ++ uids) in
    let s1 : scan_unsigned 64 (print_unsigned dev ++ inos) ≡ some (dev, inos) =
      scan_unsigned-print_unsigned 64 dev inos refl fd fd in
    let s2 : scan_unsigned 64 inos ≡ some (ino, uids) = scan_next 64 ino _ _ refl fi fi in
    let s3 : scan_unsigned 32 uids ≡ some (uid, gids) =
      scan_next 32 uid _ _ refl fu (omega arith) in
    let s4 : scan_unsigned 32 gids ≡ some (gid, b'\n' ∷ text) =
      scan_next 32 gid _ _ refl fg (omega arith) in
    let line : row_text (dev, ino, uid, gid) ++ (b'\n' ∷ text) ≡ print_unsigned dev ++ inos =
      simp append_assoc in
    rw line (rw (s1, scan_row) (rw (s2, scan_row) (rw (s3, scan_row) (rw (s4, scan_row) refl))))

-- The newline of the line before is skipped.
scan_row-newline : (text : List ℕ) → scan_row (b'\n' ∷ text) ≡ scan_row text
unfolding scan_row is_space
scan_row-newline text = rw (scan_unsigned-space 64 b'\n' text refl) refl

scan_rows-drop : (skip : ℕ) (text : List ℕ) → scan_rows skip text ≡ scan_rows 0 (drop skip text)
unfolding scan_rows
scan_rows-drop zero text = refl
scan_rows-drop (suc skip) [] = refl
scan_rows-drop (suc skip) (c ∷ text) = scan_rows-drop skip text

-- A line that is read, and the loop from what is left of it
scan_rows-next :
    (c : ℕ) (s rest : List ℕ) (row : Row)
    → scan_row (c ∷ (s ++ rest)) ≡ some (row, rest)
    → scan_rows 0 (c ∷ (s ++ rest)) ≡ row ∷ scan_rows 0 rest
unfolding scan_rows
scan_rows-next c s rest row e =
    let taken : length (s ++ rest) - length rest ≡ length s = omega (arith, length-append s rest) in
    rw (e, scan_rows)
      (ap (λ t. row ∷ t)
        (scan_rows-drop (length (s ++ rest) - length rest) (s ++ rest)
          ∙ ap (λ n. scan_rows 0 (drop n (s ++ rest))) taken
          ∙ ap (scan_rows 0) (drop-append (length s) s rest refl)))

-- The loop behind a newline reads all lines that follow.
scan_rows-newline : (rows : List Row) → AllFit rows → scan_rows 0 (b'\n' ∷ print_rows rows) ≡ rows
unfolding print_rows
scan_rows-newline [] fits =
    unfold scan_rows scan_row scan_unsigned skip_spaces is_space take_sign starts_digit in refl
scan_rows-newline (row ∷ rows) (f, fits) =
    let rest = b'\n' ∷ print_rows rows in
    scan_rows-next b'\n' (row_text row) rest row
      (scan_row-newline (row_text row ++ rest) ∙ scan_row-row_text row (print_rows rows) f)
    ∙ ap (λ t. row ∷ t) (scan_rows-newline rows fits)

row_text-first : (row : Row) → (c : ℕ) × (s : List ℕ) × (row_text row ≡ c ∷ s)
unfolding row_text
row_text-first (dev, ino, uid, gid) =
    let (c, s, p, _, _) = print_digits-first 19 dev in
    let tail =
      b' ' ∷ (print_unsigned ino ++ (b' ' ∷ (print_unsigned uid ++ (b' ' ∷ print_unsigned gid)))) in
    (c, s ++ tail, ap (λ t. t ++ tail) p)

-- Lines of numbers that fit, written as text, are read back: the same lines in the same order.
pub scan_rows-print_rows : (rows : List Row) → AllFit rows → scan_rows 0 (print_rows rows) ≡ rows
unfolding print_rows
scan_rows-print_rows [] fits = unfold scan_rows in refl
scan_rows-print_rows (row ∷ rows) (f, fits) =
    let rest = b'\n' ∷ print_rows rows in
    let (c, s, p) = row_text-first row in
    let read = scan_row-row_text row (print_rows rows) f in
    rw p (scan_rows-next c s rest row (rw p at read))
    ∙ ap (λ t. row ∷ t) (scan_rows-newline rows fits)
