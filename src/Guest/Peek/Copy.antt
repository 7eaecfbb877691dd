-- ===== src/Guest/Peek/Copy.antt =====
-- src/guest.c: what memcpy leaves in a buffer, and the arithmetic of a chunk.
use native.Mathlib.Nat.{mod-lt, mod-le, mod-eq_of_lt, div-add-mod, mul-add-mod_self_left}
use emuroot.Base.{
  ℕ, zero, suc, ◌+◌, ◌-◌, ◌*◌, ◌/◌, ◌%◌, ◌^◌, ◌≤◌, ◌<◌, ◌≡◌, ◌≢◌, refl, ◌∙◌, Bool, ◌&&◌, List, [],
  ◌∷◌, take, length-take, ltb, leb, if◌then◌else◌, length, get_or, length-set, get_or-set_self,
  get_or-set_ne, Bool-cases, inl, inr, arith,
}
use emuroot.Base.{==_iff, ◌==◌}
use emuroot.Guest.Peek.{memcpy, address, chunk_of, cell_of}

pub length-memcpy :
    (dst : List ℕ) (at : ℕ) (src : List ℕ) (from n : ℕ)
    → length (memcpy dst at src from n) ≡ length dst
unfolding memcpy
length-memcpy dst at src from zero = refl
length-memcpy dst at src from (suc n) =
    length-set (memcpy dst at src from n) (at + n) (get_or src (from + n) 0)
    ∙ length-memcpy dst at src from n

-- Whether the byte at `i` is one of the `n` that are copied to `at`.
abbrev pub within : ℕ → ℕ → ℕ → Bool
within at n i = leb at i && ltb i (at + n)

pub get_or-memcpy :
    (dst : List ℕ) (at : ℕ) (src : List ℕ) (from n i : ℕ)
    → at + n ≤ length dst
    → get_or (memcpy dst at src from n) i 0
      ≡ (if within at n i then get_or src (from + (i - at)) 0 else get_or dst i 0)
unfolding memcpy
get_or-memcpy dst at src from zero i h = ground arith
get_or-memcpy dst at src from (suc n) i h = elim (Bool-cases (at + n == i)) [
  | inl e ↦
      let last : at + n ≡ i = (==_iff _ _).0 e in
      let k : i - at ≡ n = omega arith in
      rw k (
        rw last (
          rw
            (get_or-set_self (memcpy dst at src from n) i (get_or src (from + n) 0) 0
              (omega (arith, length-memcpy dst at src from n)))
            (ground arith)))
  | inr e ↦
      let other : at + n ≢ i = λ q. cc ((==_iff _ _).1 q) in
      rw (get_or-set_ne (memcpy dst at src from n) (at + n) i (get_or src (from + n) 0) 0 other)
        (ground (arith, get_or-memcpy dst at src from n i (omega arith)))
]

pub eq_of_get_or :
    (xs ys : List ℕ)
    → length xs ≡ length ys
    → ((i : ℕ) → i < length xs → get_or xs i 0 ≡ get_or ys i 0)
    → xs ≡ ys
eq_of_get_or [] [] h e = refl
eq_of_get_or [] (y ∷ ys) h e = absurd (omega arith)
eq_of_get_or (x ∷ xs) [] h e = absurd (omega arith)
eq_of_get_or (x ∷ xs) (y ∷ ys) h e =
    cc (e 0 (omega arith), eq_of_get_or xs ys (omega arith) (λ i l. e (suc i) (omega arith)))

get_or-take : (n i : ℕ) (xs : List ℕ) → i < n → get_or (take n xs) i 0 ≡ get_or xs i 0
get_or-take zero i xs h = elim h [ ]
get_or-take (suc n) i [] h = refl
get_or-take (suc n) zero (x ∷ xs) h = refl
get_or-take (suc n) (suc i) (x ∷ xs) h = get_or-take n i xs (omega arith)

-- A copy that fills the buffer
pub memcpy_all :
    (dst src : List ℕ)
    → length dst ≤ length src
    → memcpy dst 0 src 0 (length dst) ≡ take (length dst) src
memcpy_all dst src h =
    eq_of_get_or (memcpy dst 0 src 0 (length dst)) (take (length dst) src)
      (omega (arith, length-memcpy dst 0 src 0 (length dst), length-take (length dst) src))
      (λ i l.
        let k : i < length dst = omega (arith, length-memcpy dst 0 src 0 (length dst)) in
        ground (
          arith,
          get_or-memcpy dst 0 src 0 (length dst) i (omega arith),
          get_or-take (length dst) i src k,
        ))

-- The front of a buffer into which a list has been copied
pub take-memcpy :
    (dst src : List ℕ)
    → length src ≤ length dst
    → take (length src) (memcpy dst 0 src 0 (length src)) ≡ src
take-memcpy dst src h =
    let new = memcpy dst 0 src 0 (length src) in
    let sized : length new ≡ length dst = length-memcpy dst 0 src 0 (length src) in
    eq_of_get_or (take (length src) new) src (omega (arith, length-take (length src) new)) (λ i l.
      let k : i < length src = omega (arith, length-take (length src) new) in
      ground (
        arith,
        get_or-memcpy dst 0 src 0 (length src) i (omega arith),
        get_or-take (length src) i new k,
      ))

-- The cell that holds an address, and the part of a move that lies in it.
pub record IsChunk (size a left : ℕ) : Type 0 where
  pub in_cell : a - cell_of size a < size
  pub cell : cell_of size a + (a - cell_of size a) ≡ a
  pub pos : 0 < left → 0 < chunk_of size (a - cell_of size a) left
  pub in_left : chunk_of size (a - cell_of size a) left ≤ left
  pub fits : a - cell_of size a + chunk_of size (a - cell_of size a) left ≤ size

pub part_of_cell : (size a left : ℕ) → 0 < size → IsChunk size a left
unfolding chunk_of cell_of
part_of_cell size a left h =
    let below : a % size < size = mod-lt a h in
    let le : a % size ≤ a = mod-le a size in
    record {
      in_cell = omega arith;
      cell = omega arith;
      pos = λ p. ground arith;
      in_left = ground arith;
      fits = ground arith;
    }

pub address_lem : (size a : ℕ) → a < 256 ^ size → address size a ≡ a
unfolding address
address_lem size a h = mod-eq_of_lt h

-- The addresses of one cell
pub cell_of-same :
    (size a b : ℕ)
    → 0 < size
    → cell_of size a ≤ b
    → b < cell_of size a + size
    → cell_of size b ≡ cell_of size a
unfolding cell_of
cell_of-same size a b h le lt =
    let base : size * (a / size) ≡ a - a % size = omega (arith, div-add-mod a size) in
    let k = b - (a - a % size) in
    let e : size * (a / size) + k ≡ b = omega arith in
    let same : (size * (a / size) + k) % size ≡ k % size =
      mul-add-mod_self_left size (a / size) k in
    let small : k % size ≡ k = mod-eq_of_lt (omega arith) in
    let last : b % size ≡ k = rw e at same ∙ small in rw last (omega arith)
