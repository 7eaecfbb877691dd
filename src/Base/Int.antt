-- ===== src/Base/Int.antt =====
-- Signed results of calls (C's `long`): zero, positive, or a negated errno.
use Prim.Native.Nat.{ℕ, ◌-◌}
use mathlib.Core.Bool.{Bool, true, false}

-- `negsuc n` is -(n + 1).
pub data ℤ : Type 0 where
  pos : ℕ → ℤ
  negsuc : ℕ → ℤ

-- The result `-e` for an errno `e` above zero.
abbrev pub neg : ℕ → ℤ
neg e = negsuc (e - 1)

abbrev pub is_negative : ℤ → Bool
is_negative (pos n) = false
is_negative (negsuc n) = true
