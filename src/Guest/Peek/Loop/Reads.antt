-- ===== src/Guest/Peek/Loop/Reads.antt =====
-- src/guest.c, peek_poke: a read copies the bytes of the memory, and ends early only at a word that
-- PTRACE_PEEKDATA refuses.
use emuroot.Base.{
  ℕ, ◌+◌, ◌-◌, ◌^◌, ◌≤◌, ◌<◌, ◌≡◌, refl, ◌∙◌, subst, sym, true, false, List, ltb, if◌then◌else◌,
  length, get_or, Bool-cases, ◌⊎◌, inl, inr, arith,
}
use emuroot.Guest.Peek.{
  Cells, Peeked, word, refused, IsLawful, Moving, memcpy, address, cell_of, chunk_of, move_chunk,
  move_word, move_words, start,
}
use emuroot.Guest.Peek.Copy.{
  length-memcpy, within, get_or-memcpy, IsChunk, part_of_cell, address_lem,
}
use emuroot.Guest.Peek.Loop.Steps.{Outcome, move_words_lem}

module _ (C : Cells) (law : IsLawful C) (addr len : ℕ) (fits : addr + len ≤ 256 ^ C.size) (m : C.M)
    (buf : List ℕ) (room : length buf ≡ len) where
  -- The variables after the first bytes of a read
  pub record Reads (s : Moving C.M) : Type 0 where
    pub same : s.memory ≡ m
    pub sized : length s.buf ≡ len
    pub in_len : s.done ≤ len
    pub bytes :
        (i : ℕ) → get_or s.buf i 0 ≡ (if ltb i s.done then C.byte m (addr + i) else get_or buf i 0)

  abbrev pub Unread : Moving C.M → Type 0
  Unread s = C.peek m (cell_of C.size (address C.size (addr + s.done))) ≡ refused s.errno

  -- The bytes of the buffer after the bytes of a cell have been copied to it.
  read_bytes :
      (s : Moving C.M) (at off chunk : ℕ) (cell : List ℕ) (i : ℕ)
      → Reads s
      → at + off ≡ addr + s.done
      → s.done + chunk ≤ len
      → off + chunk ≤ C.size
      → C.peek s.memory at ≡ word cell
      → get_or (memcpy s.buf s.done cell off chunk) i 0
        ≡ (if ltb i (s.done + chunk) then C.byte m (addr + i) else get_or buf i 0)
  read_bytes s at off chunk cell i r e le below h =
      rw (get_or-memcpy s.buf s.done cell off chunk i (omega (arith, r.sized)))
        (elim (Bool-cases (within s.done chunk i)) [
          | inl new ↦
              let k : at + (off + (i - s.done)) ≡ addr + i = ground arith in
              let old : get_or cell (off + (i - s.done)) 0 ≡ C.byte m (addr + i) =
                law.get_or-peek s.memory at cell (off + (i - s.done)) h (ground arith)
                ∙ rw (k, r.same) in
              rw (new, old) (ground arith)
          | inr old ↦ rw old (ground (arith, r.bytes i))
        ])

  read_round :
      (s : Moving C.M)
      → Reads s
      → s.done < len
      → Outcome Reads Unread s.done (move_word C false addr len s)
  unfolding move_word move_chunk
  read_round s r lt = go (C.peek s.memory (cell_of C.size (address C.size (addr + s.done)))) refl
    where
      c : IsChunk C.size (address C.size (addr + s.done)) (len - s.done)
      c = part_of_cell C.size (address C.size (addr + s.done)) (len - s.done) law.size_pos

      go :
          (p : Peeked)
          → C.peek s.memory (cell_of C.size (address C.size (addr + s.done))) ≡ p
          → Outcome Reads Unread s.done (move_word C false addr len s)
      go (refused err) h =
          let e : move_word C false addr len s ≡ (record s { errno = err }, false) =
            rw (h, move_word) in
          subst (Outcome Reads Unread s.done) (sym e) (
            record { same = r.same; sized = r.sized; in_len = r.in_len; bytes = r.bytes },
            subst (λ m'. C.peek m' (cell_of C.size (address C.size (addr + s.done))) ≡ refused err)
                r.same h,
          )
      go (word cell) h =
          let plain : address C.size (addr + s.done) ≡ addr + s.done =
            address_lem C.size (addr + s.done) (omega arith) in
          let a = address C.size (addr + s.done) in
          let off = a - cell_of C.size a in
          let n = chunk_of C.size off (len - s.done) in
          let e : move_word C false addr len s ≡ (
            record s { buf = memcpy s.buf s.done cell off n; done = s.done + n; errno = 0 },
            true,
          ) =
            rw (h, move_word) in
          subst (Outcome Reads Unread s.done) (sym e) (
            record {
              same = r.same;
              sized = length-memcpy s.buf s.done cell off n ∙ r.sized;
              in_len = omega (arith, c.in_left);
              bytes = λ i.
                  read_bytes s _ off n cell i r (c.cell ∙ plain) (omega (arith, c.in_left)) c.fits
                    h;
            },
            omega (arith, c.pos (omega arith)),
          )

  pub reads :
      Reads (move_words C false addr len len (start m buf))
      × ((len ≤ (move_words C false addr len len (start m buf)).done)
          ⊎ Unread (move_words C false addr len len (start m buf)))
  reads =
      move_words_lem C false addr len Reads Unread read_round len (start m buf) (omega arith)
        (record { same = refl; sized = room; in_len = omega arith; bytes = λ i. ground arith })
