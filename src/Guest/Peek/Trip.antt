-- ===== src/Guest/Peek/Trip.antt =====
-- src/guest.c, peek_poke: what the whole routine answers and leaves, against the bytes of the memory.
use emuroot.Base.{
  ℕ, ◌+◌, ◌-◌, ◌^◌, ◌≤◌, ◌<◌, ◌≡◌, ◌∙◌, sym, ap, true, false, ◌&&◌, List, ltb, ◌==◌, if◌then◌else◌,
  length, get_or, Bool-cases, ltb→lt, ◌⊎◌, inl, inr, arith,
}
use emuroot.Guest.{Attempt, moved, failed}
use emuroot.Guest.Peek.{
  Cells, is_word, refused, IsLawful, address, cell_of, move_words, start, peek_poke,
}
use emuroot.Guest.Peek.Copy.{within, address_lem, eq_of_get_or}
use emuroot.Guest.Peek.Loop.Reads.{reads}
use emuroot.Guest.Peek.Loop.Writes.{Unwritten, writes}

-- The bytes that an answer counts
abbrev pub count : Attempt → ℕ
count (moved n) = n
count (failed err) = 0

-- The answer of a move that `err` has ended after n bytes
abbrev pub short : ℕ → ℕ → Attempt
short n err = if n == 0 then failed err else moved n

-- The answer that the last line of the routine makes.
abbrev answer_of : ℕ → ℕ → ℕ → Attempt
answer_of len done errno = if done == 0 && ltb 0 len then failed errno else moved done

count-answer_of : (len done errno : ℕ) → count (answer_of len done errno) ≡ done
count-answer_of len done errno = ground arith

answer_of_all :
    (len done errno : ℕ) → done ≤ len → len ≤ done → answer_of len done errno ≡ moved len
answer_of_all len done errno h k = ground arith

answer_of-short : (len done errno : ℕ) → done < len → answer_of len done errno ≡ short done errno
answer_of-short len done errno h = ground arith

module _ (C : Cells) (law : IsLawful C) (addr len : ℕ) (fits : addr + len ≤ 256 ^ C.size) (m : C.M)
    (buf : List ℕ) (room : length buf ≡ len) where
  -- A read of len bytes by PTRACE_PEEKDATA, into a buffer of that size and from a range of addresses,
  -- leaves the memory alone. As many bytes as the answer counts are the memory's, the others of the
  -- buffer are as before. The answer is len, or less where the request refuses the word of the next
  -- byte: then the count of the bytes, or the error if there is none.
  pub peek_poke_reads :
      let (m', buf', answer) = peek_poke C false addr len m buf in
      (m' ≡ m)
      × ((i : ℕ)
          → get_or buf' i 0
            ≡ (if ltb i (count answer) then C.byte m (addr + i) else get_or buf i 0))
      × ((answer ≡ moved len)
          ⊎ ((err : ℕ) × (C.peek m (cell_of C.size (address C.size (addr + count answer)))
                ≡ refused err)
              × (answer ≡ short (count answer) err)))
  unfolding peek_poke
  peek_poke_reads =
      let r = reads C law addr len fits m buf room in
      let s = move_words C false addr len len (start m buf) in
      let e : count (answer_of len s.done s.errno) ≡ s.done = count-answer_of len s.done s.errno in
      (
        r.0.same,
        (λ i. rw e (r.0.bytes i)),
        rw e (elim (Bool-cases (ltb s.done len)) [
          | inr all ↦ inl (answer_of_all len s.done s.errno r.0.in_len (ground arith))
          | inl part ↦ elim r.1 [
            | inl all ↦ absurd (ground arith)
            | inr u ↦ inr (s.errno, u, answer_of-short len s.done s.errno (ltb→lt _ _ part))
          ]
        ]),
      )

  -- A write of len bytes by PTRACE_POKEDATA, from a buffer of that size and to a range of addresses,
  -- leaves the buffer alone. In the memory, as many bytes as the answer counts are the buffer's, and
  -- every other byte is as before, those of the same words included. The answer is len, or less where
  -- one of the two requests refuses the word of the next byte, as it is with the bytes written so
  -- far: then the count of the bytes, or the error if there is none.
  pub peek_poke_writes :
      let (m', buf', answer) = peek_poke C true addr len m buf in
      (buf' ≡ buf)
      × ((x : ℕ)
          → C.byte m' x
            ≡ (if within addr (count answer) x then get_or buf (x - addr) 0 else C.byte m x))
      × ((answer ≡ moved len)
          ⊎ ((err : ℕ) × Unwritten C law addr len fits m buf room
                (record { memory = m'; buf = buf'; done = count answer; errno = err })
              × (answer ≡ short (count answer) err)))
  unfolding peek_poke
  peek_poke_writes =
      let w = writes C law addr len fits m buf room in
      let s = move_words C true addr len len (start m buf) in
      let e : count (answer_of len s.done s.errno) ≡ s.done = count-answer_of len s.done s.errno in
      (
        w.0.same,
        (λ x. rw e (w.0.bytes x)),
        rw e (elim (Bool-cases (ltb s.done len)) [
          | inr all ↦ inl (answer_of_all len s.done s.errno w.0.in_len (ground arith))
          | inl part ↦ elim w.1 [
            | inl all ↦ absurd (ground arith)
            | inr u ↦ inr (s.errno, u, answer_of-short len s.done s.errno (ltb→lt _ _ part))
          ]
        ]),
      )

  -- The bytes that a read has moved, where no word of the range is refused
  read_back :
      (old : List ℕ) (full : length old ≡ len)
      → ((i : ℕ) → i < len → C.byte m (addr + i) ≡ get_or buf i 0)
      → ((i : ℕ) → i < len → is_word (C.peek m (cell_of C.size (addr + i))) ≡ true)
      → peek_poke C false addr len m old ≡ (m, buf, moved len)
  unfolding peek_poke
  read_back old full equal readable =
      let r = reads C law addr len fits m old full in
      let s = move_words C false addr len len (start m old) in
      let all : len ≤ s.done = elim r.1 [
        | inl e ↦ e
        | inr u ↦ elim (Bool-cases (ltb s.done len)) [
          | inr more ↦ ground arith
          | inl part ↦
              let lt : s.done < len = ltb→lt _ _ part in
              let plain : address C.size (addr + s.done) ≡ addr + s.done =
                address_lem C.size (addr + s.done) (omega arith) in
              cc (rw plain at (ap is_word u), readable s.done lt)
        ]
      ] in
      let same : s.buf ≡ buf =
        eq_of_get_or s.buf buf (r.0.sized ∙ sym room)
          (λ i l. r.0.bytes i ∙ ground (arith, equal i (omega (arith, r.0.sized)))) in
      let ans : answer_of len s.done s.errno ≡ moved len =
        answer_of_all len s.done s.errno r.0.in_len all in
      cc (r.0.same, same, ans)

-- What a write of the whole buffer has stored is read back by a read of the same range: it moves all
-- of the bytes, into whatever buffer, and changes no memory.
pub peek_poke_round_trip :
    (C : Cells) (law : IsLawful C) (addr len : ℕ) (fits : addr + len ≤ 256 ^ C.size) (m : C.M)
    (buf old : List ℕ)
    → length buf ≡ len
    → length old ≡ len
    → (peek_poke C true addr len m buf).2 ≡ moved len
    → let m' = (peek_poke C true addr len m buf).0 in
      peek_poke C false addr len m' old ≡ (m', buf, moved len)
unfolding peek_poke
peek_poke_round_trip C law addr len fits m buf old room full all =
    let w = (writes C law addr len fits m buf room).0 in
    let s = move_words C true addr len len (start m buf) in
    let e : s.done ≡ len = sym (count-answer_of len s.done s.errno) ∙ ap count all in
    read_back C law addr len fits s.memory buf room old full
      (λ i l.
        rw (w.bytes (addr + i))
          (rw e (let k : addr + i - addr ≡ i = omega arith in rw k (ground arith))))
      (λ i l. w.readable i (rw e l))
