-- ===== src/Guest/Peek.antt =====
-- src/guest.c, peek_poke: memory read and written a word at a time by PTRACE_PEEKDATA and
-- PTRACE_POKEDATA, whose answers and effect are an argument.
pub mod Copy
pub mod Loop
pub mod Trip
pub mod Session
mod Examples
use emuroot.Base.{
  ℕ, zero, suc, ◌+◌, ◌-◌, ◌%◌, ◌^◌, ◌≤◌, ◌<◌, ◌≡◌, Bool, true, false, ◌&&◌, List, ltb, leb, ◌==◌,
  if◌then◌else◌, length, get_or, set,
}
use emuroot.Guest.{Attempt, moved, failed}

-- What PTRACE_PEEKDATA answers: the bytes of the word in memory order, or errno.
pub data Peeked : Type 0 where
  word : List ℕ → Peeked
  refused : ℕ → Peeked

abbrev pub is_word : Peeked → Bool
is_word (word ws) = true
is_word (refused err) = false

-- What PTRACE_POKEDATA does: the memory afterwards, or errno.
pub data Poked (M : Type 0) : Type 0 where
  stored : M → Poked M
  unstored : ℕ → Poked M

-- The two requests on a stopped process's memory, and sizeof(long).
pub record Cells : Type 1 where
  pub M : Type 0
  pub size : ℕ
  pub peek : M → ℕ → Peeked
  pub poke : M → ℕ → List ℕ → Poked M
  -- the byte at an address, which both requests are about
  pub byte : M → ℕ → ℕ

-- What ptrace(2) documents: a word read is the bytes of its cell, and a word stored changes these
-- bytes and does not unmap memory.
pub record IsLawful (C : Cells) : Type 0 where
  pub size_pos : 0 < C.size
  pub length-peek : (m : C.M) (a : ℕ) (ws : List ℕ) → C.peek m a ≡ word ws → length ws ≡ C.size
  pub get_or-peek :
      (m : C.M) (a : ℕ) (ws : List ℕ) (i : ℕ)
      → C.peek m a ≡ word ws
      → i < C.size
      → get_or ws i 0 ≡ C.byte m (a + i)
  pub byte-poke :
      (m : C.M) (a : ℕ) (ws : List ℕ) (m' : C.M) (x : ℕ)
      → C.poke m a ws ≡ stored m'
      → length ws ≡ C.size
      → C.byte m' x ≡ (if leb a x && ltb x (a + C.size) then get_or ws (x - a) 0 else C.byte m x)
  pub peek-poke :
      (m : C.M) (a : ℕ) (ws : List ℕ) (m' : C.M) (b : ℕ)
      → C.poke m a ws ≡ stored m'
      → is_word (C.peek m b) ≡ true
      → is_word (C.peek m' b) ≡ true

-- `memcpy(dst + at, src + from, n)`
unfoldable pub memcpy : List ℕ → ℕ → List ℕ → ℕ → ℕ → List ℕ
memcpy dst at src from zero = dst
memcpy dst at src from (suc n) = set (memcpy dst at src from n) (at + n) (get_or src (from + n) 0)

-- An address is an unsigned long.
unfoldable pub address : ℕ → ℕ → ℕ
address size a = a % 256 ^ size

-- `a & ~(w - 1)`: w is a power of two.
unfoldable pub cell_of : ℕ → ℕ → ℕ
cell_of size a = a - a % size

-- `w - off < len - done ? w - off : len - done`
unfoldable pub chunk_of : ℕ → ℕ → ℕ → ℕ
chunk_of size off left = if ltb (size - off) left then size - off else left

-- The variables of the loop, the memory among them, and the errno that has ended it.
pub record Moving (M : Type 0) : Type 0 where
  pub memory : M
  pub buf : List ℕ
  pub done : ℕ
  pub errno : ℕ

abbrev pub start : {M : Type 0} → M → List ℕ → Moving M
start m buf = record { memory = m; buf = buf; done = 0; errno = 0 }

module _ (C : Cells) (write_it : Bool) (addr len : ℕ) where
  open C use {M, size, peek, poke}

  -- The rest of a round after the cell at `at` has been read.
  unfoldable pub move_chunk : Moving M → ℕ → ℕ → ℕ → List ℕ → Moving M × Bool
  move_chunk s at off chunk cell =
      if write_it
      then elim (poke s.memory at (memcpy cell off s.buf s.done chunk)) [
        | stored m ↦ (record s { memory = m; done = s.done + chunk; errno = 0 }, true)
        | unstored err ↦ (record s { errno = err }, false)
      ]
      else (
        record s { buf = memcpy s.buf s.done cell off chunk; done = s.done + chunk; errno = 0 },
        true,
      )

  -- One round: the variables, and whether the loop goes on.
  unfoldable pub move_word : Moving M → Moving M × Bool
  move_word s =
      let a = address size (addr + s.done) in
      let at = cell_of size a in
      let off = a - at in
      let chunk = chunk_of size off (len - s.done) in
      elim (peek s.memory at) [
        | word cell ↦ move_chunk s at off chunk cell
        | refused err ↦ (record s { errno = err }, false)
      ]

  -- The loop, with fuel
  unfoldable pub move_words : ℕ → Moving M → Moving M
  move_words zero s = s
  move_words (suc fuel) s =
      let (s', more) = move_word s in
      let rest = move_words fuel s' in if ltb s.done len then (if more then rest else s') else s

  -- The memory and the buffer afterwards, and the answer: -1 if nothing has been moved.
  unfoldable pub peek_poke : M → List ℕ → M × List ℕ × Attempt
  peek_poke m buf =
      let s = move_words len (start m buf) in
      (s.memory, s.buf, if s.done == 0 && ltb 0 len then failed s.errno else moved s.done)
