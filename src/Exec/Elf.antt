-- ===== src/Exec/Elf.antt =====
-- src/exec.c, elf_interp: the interpreter that a program file names. Files are those of a machine that
-- stores the lowest byte first, and ELF's offsets are those of <elf.h>.
use emuroot.Base.{
  ℕ, zero, suc, ◌+◌, ◌*◌, ◌%◌, ◌^◌, not, ◌||◌, Option, none, some, List, [], ◌∷◌, leb, ◌==◌,
  if◌then◌else◌, length, take, drop,
}
use emuroot.Cstring.{char_at, str_eq}
use emuroot.Guest.{c_string}
use emuroot.Kernel.{le}

-- `pread(fd, …, n, at)`: all n bytes, or none.
unfoldable pub pread : List ℕ → ℕ → ℕ → Option (List ℕ)
pread file n at = let got = take n (drop at file) in if length got == n then some got else none

-- A field of a structure that has been read.
abbrev pub field : List ℕ → ℕ → ℕ → ℕ
field bytes at n = le (take n (drop at bytes))

-- Where a header or a program header keeps what is read of it, by the class of the file.
pub record Layout : Type 0 where
  pub ehdr_size : ℕ
  pub phoff : ℕ × ℕ
  pub phentsize : ℕ
  pub phnum : ℕ
  pub phdr_size : ℕ
  pub offset : ℕ × ℕ
  pub filesz : ℕ × ℕ

abbrev pub elf64 : Layout
elf64 = record {
  ehdr_size = 64;
  phoff = (32, 8);
  phentsize = 54;
  phnum = 56;
  phdr_size = 56;
  offset = (8, 8);
  filesz = (32, 8);
}

abbrev pub elf32 : Layout
elf32 = record {
  ehdr_size = 52;
  phoff = (28, 4);
  phentsize = 42;
  phnum = 44;
  phdr_size = 32;
  offset = (4, 4);
  filesz = (16, 4);
}

-- What a PT_INTERP entry leads to: the text, or none where it is empty, too long or cut off.
unfoldable pub interp_at : List ℕ → ℕ → ℕ → ℕ → Option (List ℕ)
interp_at file size off filesz =
    if filesz == 0 || leb size filesz
    then none
    else elim (pread file filesz off) [ none ↦ none | some text ↦ some (c_string text) ]

-- The loop over the program headers from the i-th on, with `left` of them to go.
unfoldable pub find_interp : List ℕ → Layout → ℕ → ℕ → ℕ → ℕ → ℕ → Option (List ℕ)
find_interp file l size phoff phentsize i zero = none
find_interp file l size phoff phentsize i (suc left) =
    let rest = find_interp file l size phoff phentsize (suc i) left in
    elim (pread file l.phdr_size ((phoff + i * phentsize) % 2 ^ 64)) [
      | none ↦ none
      | some ph ↦
          if field ph 0 4 == 3
          then interp_at file size (field ph l.offset.0 l.offset.1) (field ph l.filesz.0 l.filesz.1)
          else rest
    ]

unfoldable pub interp_by : List ℕ → Layout → ℕ → Option (List ℕ)
interp_by file l size = elim (pread file l.ehdr_size 0) [
  | none ↦ none
  | some h ↦
      find_interp file l size (field h l.phoff.0 l.phoff.1) (field h l.phentsize 2) 0
        (field h l.phnum 2)
]

abbrev pub magic : List ℕ
magic = 0x7f ∷ b'E' ∷ b'L' ∷ b'F' ∷ []

-- None where the C function returns 0; `size` is that of the buffer for the text.
unfoldable pub elf_interp : List ℕ → ℕ → Option (List ℕ)
elf_interp file size = elim (pread file 16 0) [
  | none ↦ none
  | some id ↦
      if not (str_eq (take 4 id) magic) || not (char_at id 5 == 1)
      then none
      else if char_at id 4 == 2
      then interp_by file elf64 size
      else if char_at id 4 == 1
      then interp_by file elf32 size
      else none
]
