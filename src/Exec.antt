-- ===== src/Exec.antt =====
-- src/exec.c: the first line of a script, a search in a program's bytes, and the head of an argument
-- vector. A made-up argument is a string, one of the guest's own a pointer.
pub mod Shebang
pub mod Elf
pub mod Launch
pub mod Block
pub mod Pointers
pub mod Frame
mod Examples
use emuroot.Base.{
  ℕ, zero, suc, ◌+◌, ◌-◌, Bool, true, false, not, ◌&&◌, ◌||◌, Option, none, some, List, [], ◌∷◌,
  ◌++◌, ltb, leb, ◌==◌, if◌then◌else◌, length, take, drop,
}
use emuroot.Cstring.{bytes, char_at, strn_eq}

pub data Earg : Type 0 where
  made : List ℕ → Earg
  guest : ℕ → Earg

abbrev made_all : List (List ℕ) → List Earg
made_all [] = []
made_all (s ∷ strs) = made s ∷ made_all strs

-- `drop <= nargs`
unfoldable pub replace_head : List Earg → ℕ → List (List ℕ) → List Earg
replace_head args count strs = made_all strs ++ drop count args

unfoldable pub is_blank : ℕ → Bool
is_blank x = x == b' ' || x == b'\t'

-- `p + strspn(p, " \t")`
unfoldable pub skip_blanks : List ℕ → List ℕ
skip_blanks [] = []
skip_blanks (x ∷ s) = if is_blank x then skip_blanks s else x ∷ s

-- `strcspn(p, " \t")`
unfoldable pub token_len : List ℕ → ℕ
token_len [] = 0
token_len (x ∷ s) = if is_blank x then 0 else suc (token_len s)

-- The bytes before the first newline, as a C string: the text ends at a NUL too.
unfoldable pub first_line : List ℕ → List ℕ
first_line [] = []
first_line (x ∷ s) = if x == b'\n' || x == 0 then [] else x ∷ first_line s

unfoldable pub all_trailing : List ℕ → Bool
all_trailing [] = true
all_trailing (x ∷ s) = (is_blank x || x == b'\r') && all_trailing s

-- Cuts the blanks and carriage returns at the end.
unfoldable pub trim_end : List ℕ → List ℕ
trim_end [] = []
trim_end (x ∷ s) = if all_trailing (x ∷ s) then [] else x ∷ trim_end s

-- The interpreter `p` of `tok` bytes, and its argument.
unfoldable pub split_at : List ℕ → ℕ → Option (List ℕ × Option (List ℕ))
split_at p tok =
    let rest = trim_end (skip_blanks (drop tok p)) in
    if length p == 0 then none else some (take tok p, if length rest == 0 then none else some rest)

-- parse_shebang once it has the line.
unfoldable pub parse_line : List ℕ → Option (List ℕ × Option (List ℕ))
parse_line line = let p = skip_blanks line in split_at p (token_len p)

-- The interpreter and its argument in the first bytes of a file, or none where the C function
-- returns 0.
unfoldable pub parse_shebang : List ℕ → Option (List ℕ × Option (List ℕ))
parse_shebang head =
    if ltb (length head) 3 || not (char_at head 0 == b'#') || not (char_at head 1 == b'!')
    then none
    else parse_line (take 255 (first_line (drop 2 head)))

-- memmem, for a needle that is not empty
unfoldable pub contains : List ℕ → List ℕ → Bool
contains [] needle = false
contains (x ∷ hay) needle =
    (x == char_at needle 0 && strn_eq (x ∷ hay) needle (length needle)) || contains hay needle
