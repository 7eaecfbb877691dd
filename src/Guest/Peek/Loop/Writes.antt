-- ===== src/Guest/Peek/Loop/Writes.antt =====
-- src/guest.c, peek_poke: a write stores the bytes of the buffer and no others, and ends early only
-- at a word that one of the two requests refuses.
use emuroot.Base.{
  ℕ, ◌+◌, ◌-◌, ◌^◌, ◌≤◌, ◌<◌, ◌≡◌, refl, ◌∙◌, subst, sym, true, false, List, ltb, ltb→lt, ap,
  if◌then◌else◌, length, get_or, Bool-cases, ◌⊎◌, inl, inr, arith,
}
use emuroot.Guest.Peek.{
  Cells, Peeked, is_word, word, refused, Poked, stored, unstored, IsLawful, Moving, memcpy, address,
  cell_of, chunk_of, move_chunk, move_word, move_words, start,
}
use emuroot.Guest.Peek.Copy.{
  length-memcpy, within, get_or-memcpy, IsChunk, part_of_cell, address_lem, cell_of-same,
}
use emuroot.Guest.Peek.Loop.Steps.{Outcome, move_words_lem}

module _ (C : Cells) (law : IsLawful C) (addr len : ℕ) (fits : addr + len ≤ 256 ^ C.size) (m : C.M)
    (buf : List ℕ) (room : length buf ≡ len) where
  -- The variables after the first bytes of a write
  pub record Writes (s : Moving C.M) : Type 0 where
    pub same : s.buf ≡ buf
    pub in_len : s.done ≤ len
    pub bytes :
        (x : ℕ)
        → C.byte s.memory x ≡ (if within addr s.done x then get_or buf (x - addr) 0 else C.byte m x)
    pub readable :
        (i : ℕ) → i < s.done → is_word (C.peek s.memory (cell_of C.size (addr + i))) ≡ true

  -- One of the two requests refuses the word of the next byte.
  abbrev pub Unwritten : Moving C.M → Type 0
  Unwritten s =
      let a = address C.size (addr + s.done) in
      let off = a - cell_of C.size a in
      (C.peek s.memory (cell_of C.size a) ≡ refused s.errno)
      ⊎ ((cell : List ℕ) × (C.peek s.memory (cell_of C.size a) ≡ word cell)
          × (C.poke s.memory (cell_of C.size a)
                (memcpy cell off s.buf s.done (chunk_of C.size off (len - s.done)))
              ≡ unstored s.errno))

  -- The bytes of the memory after a cell with some bytes of the buffer has been stored.
  write_bytes :
      (s : Moving C.M) (at off chunk : ℕ) (cell : List ℕ) (m' : C.M) (x : ℕ)
      → Writes s
      → at + off ≡ addr + s.done
      → s.done + chunk ≤ len
      → off + chunk ≤ C.size
      → C.peek s.memory at ≡ word cell
      → C.poke s.memory at (memcpy cell off s.buf s.done chunk) ≡ stored m'
      → C.byte m' x
        ≡ (if within addr (s.done + chunk) x then get_or buf (x - addr) 0 else C.byte m x)
  write_bytes s at off chunk cell m' x w e le below h k =
      let sized : length cell ≡ C.size = law.length-peek s.memory at cell h in
      rw
        (law.byte-poke s.memory at (memcpy cell off s.buf s.done chunk) m' x k
          (length-memcpy cell off s.buf s.done chunk ∙ sized))
        (elim (Bool-cases (within at C.size x)) [
          | inl inside ↦ rw inside (
              rw (get_or-memcpy cell off s.buf s.done chunk (x - at) (omega arith))
                (elim (Bool-cases (within off chunk (x - at))) [
                  | inl new ↦
                      let i : s.done + (x - at - off) ≡ x - addr = ground arith in
                      rw (new, i, w.same) (ground arith)
                  | inr old ↦
                      let i : at + (x - at) ≡ x = ground arith in
                      let same : get_or cell (x - at) 0 ≡ C.byte s.memory x =
                        law.get_or-peek s.memory at cell (x - at) h (ground arith) ∙ rw i in
                      rw (old, same) (ground (arith, w.bytes x))
                ]))
          | inr outside ↦ rw outside (ground (arith, w.bytes x))
        ])

  -- The words that have been read before are read after it too.
  write_readable :
      (s : Moving C.M) (at off chunk : ℕ) (cell ws : List ℕ) (m' : C.M) (i : ℕ)
      → Writes s
      → at + off ≡ addr + s.done
      → off + chunk ≤ C.size
      → cell_of C.size (addr + s.done) ≡ at
      → C.peek s.memory at ≡ word cell
      → C.poke s.memory at ws ≡ stored m'
      → i < s.done + chunk
      → is_word (C.peek m' (cell_of C.size (addr + i))) ≡ true
  write_readable s at off chunk cell ws m' i w e below c h k l =
      law.peek-poke s.memory at ws m' (cell_of C.size (addr + i)) k
        (elim (Bool-cases (ltb i s.done)) [
          | inl old ↦ w.readable i (ltb→lt _ _ old)
          | inr new ↦
              let later : s.done ≤ i = ground arith in
              let same : cell_of C.size (addr + i) ≡ at =
                cell_of-same C.size (addr + s.done) (addr + i) law.size_pos (rw c (omega arith))
                  (rw c (omega arith))
                ∙ c in
              rw same (rw h)
        ])

  write_round :
      (s : Moving C.M)
      → Writes s
      → s.done < len
      → Outcome Writes Unwritten s.done (move_word C true addr len s)
  unfolding move_word move_chunk
  write_round s w lt = go (C.peek s.memory (cell_of C.size (address C.size (addr + s.done)))) refl
    where
      c : IsChunk C.size (address C.size (addr + s.done)) (len - s.done)
      c = part_of_cell C.size (address C.size (addr + s.done)) (len - s.done) law.size_pos

      put :
          (cell : List ℕ) (p : Poked C.M)
          → C.peek s.memory (cell_of C.size (address C.size (addr + s.done))) ≡ word cell
          → (let a = address C.size (addr + s.done) in
              let off = a - cell_of C.size a in
              C.poke s.memory
                (cell_of C.size a)
                (memcpy cell off s.buf s.done (chunk_of C.size off (len - s.done)))
              ≡ p)
          → Outcome Writes Unwritten s.done (move_word C true addr len s)
      put cell (unstored err) h k =
          let e : move_word C true addr len s ≡ (record s { errno = err }, false) =
            rw (h, move_word) (rw k) in
          subst (Outcome Writes Unwritten s.done) (sym e) (
            record { same = w.same; in_len = w.in_len; bytes = w.bytes; readable = w.readable },
            inr (cell, h, k),
          )
      put cell (stored m') h k =
          let plain : address C.size (addr + s.done) ≡ addr + s.done =
            address_lem C.size (addr + s.done) (omega arith) in
          let a = address C.size (addr + s.done) in
          let off = a - cell_of C.size a in
          let n = chunk_of C.size off (len - s.done) in
          let e : move_word C true addr len s
              ≡ (record s { memory = m'; done = s.done + n; errno = 0 }, true) =
            rw (h, move_word) (rw k) in
          subst (Outcome Writes Unwritten s.done) (sym e) (
            record {
              same = w.same;
              in_len = omega (arith, c.in_left);
              bytes = λ x.
                  write_bytes s (cell_of C.size a) off n cell m' x w (c.cell ∙ plain)
                    (omega (arith, c.in_left)) c.fits h k;
              readable = λ i l.
                  write_readable s (cell_of C.size a) off n cell _ m' i w (c.cell ∙ plain) c.fits
                    (ap (cell_of C.size) (sym plain)) h k l;
            },
            omega (arith, c.pos (omega arith)),
          )

      go :
          (p : Peeked)
          → C.peek s.memory (cell_of C.size (address C.size (addr + s.done))) ≡ p
          → Outcome Writes Unwritten s.done (move_word C true addr len s)
      go (refused err) h =
          let e : move_word C true addr len s ≡ (record s { errno = err }, false) =
            rw (h, move_word) in
          subst (Outcome Writes Unwritten s.done) (sym e) (
            record { same = w.same; in_len = w.in_len; bytes = w.bytes; readable = w.readable },
            inl h,
          )
      go (word cell) h = put cell _ h refl

  pub writes :
      Writes (move_words C true addr len len (start m buf))
      × ((len ≤ (move_words C true addr len len (start m buf)).done)
          ⊎ Unwritten (move_words C true addr len len (start m buf)))
  writes =
      move_words_lem C true addr len Writes Unwritten write_round len (start m buf) (omega arith)
        (record {
          same = refl;
          in_len = omega arith;
          bytes = λ x. ground arith;
          readable = λ i h. elim h [ ];
        })
