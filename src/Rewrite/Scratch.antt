-- ===== src/Rewrite/Scratch.antt =====
-- src/rewrite.c, emuroot_scratch: where the blocks that a call is given lie.
use emuroot.Base.{ℕ, ◌+◌, ◌-◌, ◌%◌, ◌^◌, ◌≤◌, ◌<◌, ◌≡◌, ◌⊎◌, inl, inr, arith}
use emuroot.Rewrite.{emuroot_scratch}

-- The wrapping difference, rounded down.
below_lem :
    (top len : ℕ)
    → top < 2 ^ 64
    → len ≤ 2 ^ 63
    → let below = (top + 2 ^ 64 - len) % 2 ^ 64 in
      ((top < len) × (top < below - below % 16)) ⊎ ((len ≤ top) × (below ≡ top - len))
below_lem top len t l = ground arith

-- A block of scratch memory, for a top within 64 bits and a length of at most 2^63 bytes: either there
-- is no room, the answer is 0 and the top stays; or the block is 16-byte aligned, ends at or below the old top, at
-- most 15 bytes below it, and its address is the new top.
pub scratch_lem :
    (top len : ℕ)
    → top < 2 ^ 64
    → len ≤ 2 ^ 63
    → let (top', addr) = emuroot_scratch top len in
      ((top < len) × (addr ≡ 0) × (top' ≡ top))
      ⊎ ((addr + len ≤ top) × (top < addr + len + 16) × (addr % 16 ≡ 0) × (top' ≡ addr))
unfolding emuroot_scratch
scratch_lem top len t l = elim (below_lem top len t l) [
  | inl (short, wraps) ↦ ground arith
  | inr (fits, e) ↦ rw e (ground arith)
]
