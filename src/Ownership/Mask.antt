-- ===== src/Ownership/Mask.antt =====
-- src/ownership.c: `& (cap - 1)` for a power of two, the step from a slot to the next.
use Prim.Native.Nat.pow
use Prim.Native.Nat.{digits, bit_and-bitwise, min}
use emuroot.Base.{
  ℕ, zero, suc, ◌+◌, ◌-◌, ◌*◌, ◌/◌, ◌%◌, ◌^◌, ◌≤◌, ◌<◌, ◌≡◌, refl, ◌∙◌, bit_and, arith, Bool-cases,
  inl, inr, ◌==◌, ==_iff, if◌then◌else◌,
}

-- k ones
unfoldable pub ones : ℕ → ℕ
ones zero = 0
ones (suc k) = 2 * ones k + 1

abbrev masked : ℕ → ℕ → ℕ → ℕ
masked n a b = digits (λ b. zero) min n a b

half_ones : (k : ℕ) → (ones (suc k) / 2 ≡ ones k) × (ones (suc k) % 2 ≡ 1)
unfolding ones
half_ones k = (omega arith, omega arith)

masked_bound : (n k a : ℕ) → masked n a (ones k) ≤ ones k
unfolding ones
masked_bound zero k a = omega arith
masked_bound (suc n) k zero = omega arith
masked_bound (suc n) zero (suc a) = omega (arith, masked_bound n zero (suc a / 2))
masked_bound (suc n) (suc k) (suc a) =
    rw ((half_ones k).0, (half_ones k).1) (omega (arith, masked_bound n k (suc a / 2)))

masked_small : (n k a : ℕ) → a ≤ n → a ≤ ones k → masked n a (ones k) ≡ a
unfolding ones
masked_small zero k a l h = omega arith
masked_small (suc n) k zero l h = refl
masked_small (suc n) zero (suc a) l h = absurd (omega arith)
masked_small (suc n) (suc k) (suc a) l h =
    rw ((half_ones k).0, (half_ones k).1)
      (omega (arith, masked_small n k (suc a / 2) (omega arith) (omega arith)))

masked_wrap : (n k a : ℕ) → a ≤ n → a ≡ ones k + 1 → masked n a (ones k) ≡ 0
unfolding ones
masked_wrap zero k a l h = refl
masked_wrap (suc n) k zero l h = refl
masked_wrap (suc n) zero (suc a) l h =
    omega (arith, masked_small n zero (suc a / 2) (omega arith) (omega arith))
masked_wrap (suc n) (suc k) (suc a) l h =
    rw ((half_ones k).0, (half_ones k).1)
      (omega (arith, masked_wrap n k (suc a / 2) (omega arith) (omega arith)))

power_ones : (k : ℕ) → 2 ^ k ≡ ones k + 1
unfolding ones
power_ones zero = refl
power_ones (suc k) = omega (arith, pow.suc 2 k, power_ones k)

mask_ones : (k : ℕ) → 2 ^ k - 1 ≡ ones k
mask_ones k = omega (arith, power_ones k)

-- The slot that a search begins at is in the table.
pub mask_bound : (k a : ℕ) → bit_and a (2 ^ k - 1) < 2 ^ k
mask_bound k a =
    rw (mask_ones k) (omega (arith, power_ones k, bit_and-bitwise a (ones k), masked_bound a k a))

-- The next slot is the one behind, or the first behind the last.
pub mask_step :
    (k i : ℕ) → i < 2 ^ k → bit_and (i + 1) (2 ^ k - 1) ≡ (if i + 1 == 2 ^ k then 0 else i + 1)
mask_step k i l = rw (mask_ones k) (elim (Bool-cases (i + 1 == 2 ^ k)) [
  | inl e ↦
      let at_end : i + 1 ≡ ones k + 1 = (==_iff _ _).0 e ∙ power_ones k in
      rw e (bit_and-bitwise (i + 1) (ones k) ∙ masked_wrap (i + 1) k (i + 1) (omega arith) at_end)
  | inr e ↦
      let inside : i + 1 ≤ ones k = ground (arith, power_ones k) in
      rw e (bit_and-bitwise (i + 1) (ones k) ∙ masked_small (i + 1) k (i + 1) (omega arith) inside)
])
