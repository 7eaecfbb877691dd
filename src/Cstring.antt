-- ===== src/Cstring.antt =====
-- C strings as lists of bytes without the closing NUL, and the C library's operations on them that
-- the sources call. A byte read past the end is the NUL.
pub mod Laws
use Prim.Native.Char.{code}
use Prim.Native.String.{String}
use emuroot.Base.{
  ℕ, zero, suc, ◌-◌, Bool, true, false, ◌&&◌, Option, none, some, List, [], ◌∷◌, ◌++◌, ◌==◌,
  if◌then◌else◌, length, get_or, take,
}

-- The bytes of an ASCII literal.
abbrev pub bytes : String → List ℕ
bytes String.[] = []
bytes (String.◌∷◌ c s) = code c ∷ bytes s

abbrev pub slash : ℕ
slash = b'/'

abbrev pub dot : ℕ
dot = b'.'

-- `s[i]`
abbrev pub char_at : List ℕ → ℕ → ℕ
char_at s i = get_or s i 0

-- `s[strlen(s) - 1]`
abbrev pub last_char : List ℕ → ℕ
last_char [] = 0
last_char (x ∷ []) = x
last_char (x ∷ y ∷ s) = last_char (y ∷ s)

-- `strcmp(s, t) == 0`
unfoldable pub str_eq : List ℕ → List ℕ → Bool
str_eq [] [] = true
str_eq [] (b ∷ t) = false
str_eq (a ∷ s) [] = false
str_eq (a ∷ s) (b ∷ t) = a == b && str_eq s t

-- `strncmp(s, t, n) == 0`
unfoldable pub strn_eq : List ℕ → List ℕ → ℕ → Bool
strn_eq s t zero = true
strn_eq [] [] (suc n) = true
strn_eq [] (b ∷ t) (suc n) = false
strn_eq (a ∷ s) [] (suc n) = false
strn_eq (a ∷ s) (b ∷ t) (suc n) = a == b && strn_eq s t n

-- The index of the last `c`, or none for strrchr's NULL.
unfoldable pub strrchr : List ℕ → ℕ → Option ℕ
strrchr [] c = none
strrchr (x ∷ s) c = elim (strrchr s c) [
  | some i ↦ some (suc i)
  | none ↦ if x == c then some 0 else none
]

-- What `snprintf` into a buffer of `size` bytes leaves of the text.
abbrev pub snprintf : ℕ → List ℕ → List ℕ
snprintf size s = take (size - 1) s

-- `s + strspn(s, "/")`
unfoldable pub skip_slashes : List ℕ → List ℕ
skip_slashes [] = []
skip_slashes (x ∷ s) = if x == slash then skip_slashes s else x ∷ s

-- The bytes before the first '/', or before the end.
unfoldable pub segment_len : List ℕ → ℕ
segment_len [] = 0
segment_len (x ∷ s) = if x == slash then 0 else suc (segment_len s)
