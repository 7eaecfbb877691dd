-- ===== src/Guest/Peek/Examples.antt =====
-- A process with a page of memory, whose words the two requests read and store, and no other.
use emuroot.Base.{
  ℕ, zero, suc, ◌+◌, ◌-◌, ◌<◌, ◌≡◌, refl, true, false, ◌&&◌, some, List, [], ◌∷◌, ltb, leb,
  if◌then◌else◌, length, get_or, Bool-cases, inl, inr, ap, sym, ◌⊎◌, arith,
}
use emuroot.Guest.{
  moved, failed, Method, attempts, guest_read, guest_write, transfer, round, denied,
  emuroot_process_vm, proc_mem_access,
}
use emuroot.Guest.Ways.{is_denied}
use emuroot.Guest.Peek.Session.{guest_read-guest_write}
use emuroot.Guest.Peek.{
  Cells, word, refused, stored, unstored, IsLawful, memcpy, address, cell_of, chunk_of, move_words,
  move_word, move_chunk, peek_poke,
}
use emuroot.Guest.Peek.Copy.{within}
use emuroot.Guest.Peek.Loop.Writes.{Unwritten}
use emuroot.Guest.Peek.Trip.{count, short, peek_poke_reads, peek_poke_writes}

bytes_from : (ℕ → ℕ) → ℕ → ℕ → List ℕ
bytes_from m a zero = []
bytes_from m a (suc n) = m a ∷ bytes_from m (suc a) n

length-bytes_from : (m : ℕ → ℕ) (a n : ℕ) → length (bytes_from m a n) ≡ n
unfolding bytes_from
length-bytes_from m a zero = refl
length-bytes_from m a (suc n) = omega (arith, length-bytes_from m (suc a) n)

get_or-bytes_from : (m : ℕ → ℕ) (a n i : ℕ) → i < n → get_or (bytes_from m a n) i 0 ≡ m (a + i)
unfolding bytes_from
get_or-bytes_from m a zero i h = elim h [ ]
get_or-bytes_from m a (suc n) zero h = ground arith
get_or-bytes_from m a (suc n) (suc i) h =
    ground (arith, get_or-bytes_from m (suc a) n i (omega arith))

-- EIO
abbrev page : Cells
page = record {
  M = ℕ → ℕ;
  size = 8;
  peek = λ m a. if ltb a 4096 then word (bytes_from m a 8) else refused 5;
  poke = λ m a ws.
      if ltb a 4096
      then stored (λ x. if leb a x && ltb x (a + 8) then get_or ws (x - a) 0 else m x)
      else unstored 5;
  byte = λ m x. m x;
}

peeked : (m : ℕ → ℕ) (a : ℕ) (ws : List ℕ) → page.peek m a ≡ word ws → ws ≡ bytes_from m a 8
peeked m a ws h = ground arith

poked :
    (m : ℕ → ℕ) (a : ℕ) (ws : List ℕ) (m' : ℕ → ℕ) (x : ℕ)
    → page.poke m a ws ≡ stored m'
    → m' x ≡ (if leb a x && ltb x (a + 8) then get_or ws (x - a) 0 else m x)
poked m a ws m' x h = elim (Bool-cases (ltb a 4096)) [
  | inl e ↦ ap (λ p. elim p [ stored k ↦ k x | unstored err ↦ 0 ]) (sym (rw e at h))
  | inr e ↦ cc (rw e at h)
]

page-IsLawful : IsLawful page
page-IsLawful = record {
  size_pos = omega arith;
  length-peek = λ m a ws h. rw (peeked m a ws h) (length-bytes_from m a 8);
  get_or-peek = λ m a ws i h l. rw (peeked m a ws h) (get_or-bytes_from m a 8 i l);
  byte-poke = λ m a ws m' x h l. poked m a ws m' x h;
  peek-poke = λ m a ws m' b h r. ground arith;
}

-- Seven bytes from the middle of a word into the next one
abbrev text : List ℕ
text = 65 ∷ 66 ∷ 67 ∷ 68 ∷ 69 ∷ 70 ∷ 71 ∷ []

abbrev blank : List ℕ
blank = 0 ∷ 0 ∷ 0 ∷ 0 ∷ 0 ∷ 0 ∷ 0 ∷ []

abbrev ones : ℕ → ℕ
ones x = 1

written_all : (peek_poke page true 1029 7 ones text).2 ≡ moved 7
unfolding peek_poke move_words move_word move_chunk memcpy address cell_of chunk_of bytes_from
written_all = refl

-- Only three of the bytes lie in the page.
written_part : (peek_poke page true 4093 7 ones text).2 ≡ moved 3
unfolding peek_poke move_words move_word move_chunk memcpy address cell_of chunk_of bytes_from
written_part = refl

read_none : (peek_poke page false 4096 7 ones blank).2 ≡ failed 5
unfolding peek_poke move_words move_word move_chunk memcpy address cell_of chunk_of bytes_from
read_none = refl

peek_poke_reads_example :
    let (m', buf', answer) = peek_poke page false 4093 7 ones blank in
    (m' ≡ ones)
    × ((i : ℕ) → get_or buf' i 0 ≡ (if ltb i (count answer) then 1 else get_or blank i 0))
    × ((answer ≡ moved 7)
        ⊎ ((err : ℕ) × (page.peek ones (cell_of 8 (address 8 (4093 + count answer))) ≡ refused err)
            × (answer ≡ short (count answer) err)))
peek_poke_reads_example = peek_poke_reads page page-IsLawful 4093 7 (omega arith) ones blank refl

peek_poke_writes_example :
    let (m', buf', answer) = peek_poke page true 4093 7 ones text in
    (buf' ≡ text)
    × ((x : ℕ) → m' x ≡ (if within 4093 (count answer) x then get_or text (x - 4093) 0 else 1))
    × ((answer ≡ moved 7)
        ⊎ ((err : ℕ) × Unwritten page page-IsLawful 4093 7
              (omega arith)
              ones
              text
              refl
              (record { memory = m'; buf = buf'; done = count answer; errno = err })
            × (answer ≡ short (count answer) err)))
peek_poke_writes_example = peek_poke_writes page page-IsLawful 4093 7 (omega arith) ones text refl

-- ENOSYS from the first way, EACCES from the second
guest_read-guest_write_example :
    let (m', buf', stored_n) = peek_poke page true 1029 7 ones text in
    let method' =
      (guest_write (attempts false (moved 0) (some 13) (moved 0) stored_n) Method.process_vm 7).0 in
    let (m'', new, read_n) = peek_poke page false 1029 7 m' blank in
    (guest_read (attempts false (moved 0) (some 13) (moved 0) read_n) method'
      ≡ (Method.peek_poke, moved 7))
    × (new ≡ text)
unfolding is_denied denied emuroot_process_vm proc_mem_access guest_write transfer round attempts
    peek_poke move_words move_word move_chunk memcpy address cell_of chunk_of bytes_from
guest_read-guest_write_example =
    guest_read-guest_write page page-IsLawful 1029 7 (omega arith) ones text blank Method.process_vm
      false (moved 0) (moved 0) (some 13) refl refl refl refl refl
