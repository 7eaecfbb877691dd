-- ===== src/Guest/Texts.antt =====
-- src/guest.c, guest_read_str: the text at an address of a memory that can be read throughout.
use emuroot.Base.{
  ℕ, zero, suc, ◌+◌, ◌-◌, ◌≤◌, ◌<◌, ◌≡◌, refl, sym, ◌∙◌, ap, ◌≢◌, inl, inr, true, some, List, [],
  ◌∷◌, ◌++◌, ltb, ◌==◌, if◌then◌else◌, length, Bool-cases, arith,
}
use emuroot.Guest.{has_nul, c_string, chunk_len, after_chunk, read_chunks, guest_read_str}

-- The n bytes from the address a on.
unfoldable pub bytes_at : (ℕ → ℕ) → ℕ → ℕ → List ℕ
bytes_at mem a zero = []
bytes_at mem a (suc n) = mem a ∷ bytes_at mem (suc a) n

length-bytes_at : (mem : ℕ → ℕ) (a n : ℕ) → length (bytes_at mem a n) ≡ n
unfolding bytes_at
length-bytes_at mem a zero = refl
length-bytes_at mem a (suc n) = ap suc (length-bytes_at mem (suc a) n)

bytes_at-append :
    (mem : ℕ → ℕ) (a h n : ℕ) → bytes_at mem a h ++ bytes_at mem (a + h) n ≡ bytes_at mem a (h + n)
unfolding bytes_at
bytes_at-append mem a zero n =
    let e : a + 0 ≡ a = omega arith in let e2 : 0 + n ≡ n = omega arith in rw (e, e2) refl
bytes_at-append mem a (suc h) n =
    let e : a + suc h ≡ suc a + h = omega arith in
    let e2 : suc h + n ≡ suc (h + n) = omega arith in
    rw (e, e2) (ap (λ s. mem a ∷ s) (bytes_at-append mem (suc a) h n))

has_nul-append : (s t : List ℕ) → has_nul t ≡ true → has_nul (s ++ t) ≡ true
unfolding has_nul
has_nul-append [] t h = h
has_nul-append (x ∷ s) t h = ground (arith, has_nul-append s t h)

c_string-append : (s t : List ℕ) → has_nul s ≡ true → c_string (s ++ t) ≡ c_string s
unfolding has_nul c_string
c_string-append [] t h = cc h
c_string-append (x ∷ s) t h = elim (Bool-cases (x == 0)) [
  | inl e ↦ rw e refl
  | inr e ↦ rw e (ap (λ r. x ∷ r) (c_string-append s t (rw e at h)))
]

-- Once a NUL is among the bytes, the text is not changed by the bytes behind them.
c_string-bytes_at :
    (mem : ℕ → ℕ) (a h n : ℕ)
    → has_nul (bytes_at mem a h) ≡ true
    → h ≤ n
    → c_string (bytes_at mem a h) ≡ c_string (bytes_at mem a n)
c_string-bytes_at mem a h n nul l =
    let e : h + (n - h) ≡ n = omega arith in
    let s : bytes_at mem a h ++ bytes_at mem (a + h) (n - h) ≡ bytes_at mem a n =
      bytes_at-append mem a h (n - h) ∙ ap (bytes_at mem a) e in
    sym (c_string-append _ _ nul) ∙ ap c_string s

-- What the loop leaves: some bytes, and the text of all size - 1.
record Reads (mem : ℕ → ℕ) (addr size : ℕ) (buf : List ℕ) : Type 0 where
  some_bytes : length buf ≢ 0
  text : c_string buf ≡ c_string (bytes_at mem addr (size - 1))

chunk_len_lem : (left : ℕ) → 0 < left → (0 < chunk_len left) × (chunk_len left ≤ left)
unfolding chunk_len
chunk_len_lem left l = ground arith

-- A chunk that is read in full ends the loop only by a NUL in it.
after_chunk_full :
    (buf chunk : List ℕ) (want : ℕ) (rest : List ℕ)
    → length chunk ≡ want
    → 0 < want
    → after_chunk buf chunk want rest ≡ (if has_nul chunk then buf ++ chunk else rest)
unfolding after_chunk
after_chunk_full buf chunk want rest e p = ground arith

full-Reads :
    (mem : ℕ → ℕ) (addr size : ℕ) → 1 < size → Reads mem addr size (bytes_at mem addr (size - 1))
full-Reads mem addr size s = record {
  some_bytes = λ z. omega (arith, z, length-bytes_at mem addr (size - 1));
  text = refl;
}

nul-Reads :
    (mem : ℕ → ℕ) (addr size h w : ℕ)
    → h + w ≤ size - 1
    → 0 < w
    → has_nul (bytes_at mem (addr + h) w) ≡ true
    → Reads mem addr size (bytes_at mem addr h ++ bytes_at mem (addr + h) w)
nul-Reads mem addr size h w l p nul =
    let here : has_nul (bytes_at mem addr (h + w)) ≡ true =
      rw (sym (bytes_at-append mem addr h w)) (has_nul-append (bytes_at mem addr h) _ nul) in
    rw (bytes_at-append mem addr h w) (record {
      some_bytes = λ z. omega (arith, z, length-bytes_at mem addr (h + w));
      text = c_string-bytes_at mem addr (h + w) (size - 1) here l;
    })

-- The loop after h bytes.
read_chunks-Reads :
    (mem : ℕ → ℕ) (addr size fuel h : ℕ)
    → 1 < size
    → h < size
    → size ≤ fuel + h
    → Reads mem addr size (read_chunks (bytes_at mem) addr size fuel (bytes_at mem addr h))
unfolding read_chunks
read_chunks-Reads mem addr size zero h s l f = absurd (omega arith)
read_chunks-Reads mem addr size (suc fuel) h s l f =
    rw (length-bytes_at mem addr h) (elim (Bool-cases (ltb (h + 1) size)) [
      | inr full ↦
          let e : h ≡ size - 1 = ground arith in rw full (rw e (full-Reads mem addr size s))
      | inl more ↦
          let w = chunk_len (size - 1 - h) in
          let (p, q) = chunk_len_lem (size - 1 - h) (ground arith) in
          let chunk = bytes_at mem (addr + h) w in
          let later : Reads mem addr size
              (read_chunks (bytes_at mem) addr size fuel (bytes_at mem addr h ++ chunk)) =
            rw (bytes_at-append mem addr h w) (
              read_chunks-Reads mem addr size fuel (h + w) s (omega (arith, p, q, l))
                (omega (arith, p, f))) in
          rw more (
            rw
              (after_chunk_full (bytes_at mem addr h) chunk w
                (read_chunks (bytes_at mem) addr size fuel (bytes_at mem addr h ++ chunk))
                (length-bytes_at mem (addr + h) w) p)
              (elim (Bool-cases (has_nul chunk)) [
                | inl nul ↦ rw nul (nul-Reads mem addr size h w (omega (arith, p, q)) p nul)
                | inr none_ ↦ rw none_ later
              ]))
    ])

-- From a memory that can be read throughout, a buffer of at least two bytes is always filled, and
-- with the text at the address: the bytes before the first NUL, at most size - 1 of them. The chunks
-- of 128 bytes in which it is read make no difference.
pub guest_read_str_lem :
    (mem : ℕ → ℕ) (addr size : ℕ)
    → 1 < size
    → guest_read_str (bytes_at mem) addr size ≡ some (c_string (bytes_at mem addr (size - 1)))
unfolding guest_read_str bytes_at
guest_read_str_lem mem addr size s =
    let r = read_chunks-Reads mem addr size size 0 s (omega (arith, s)) (omega arith) in
    let n = r.some_bytes in rw (sym r.text) (ground (arith, n))
