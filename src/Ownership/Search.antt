-- ===== src/Ownership/Search.antt =====
-- src/ownership.c, find_slot: the search ends where a slot is free, within the fuel.
use emuroot.Base.{
  ℕ, zero, suc, ◌+◌, ◌-◌, ◌^◌, ◌<◌, ◌≡◌, refl, sym, ◌∙◌, ◌≢◌, inl, inr, true, false, some, List,
  ltb, ◌==◌, if◌then◌else◌, bit_and, Bool-cases, arith,
}
use emuroot.Ownership.{Entry, entry_at, is_slot_for, probe, find_slot, hash_of}
use emuroot.Ownership.Mask.{mask_bound, mask_step}

-- How many steps lead from the slot s to the slot f.
steps : ℕ → ℕ → ℕ → ℕ
steps cap s f = if ltb f s then f + cap - s else f - s

after : ℕ → ℕ → ℕ
after cap s = if s + 1 == cap then 0 else s + 1

steps-after :
    (cap s f : ℕ)
    → s < cap
    → f < cap
    → s ≢ f
    → (after cap s < cap) × (steps cap s f ≡ suc (steps cap (after cap s) f))
unfolding steps after
steps-after cap s f ls lf n = ground arith

steps_bound : (cap s f : ℕ) → s < cap → f < cap → steps cap s f < cap
unfolding steps
steps_bound cap s f ls lf = ground arith

next_slot : (k s : ℕ) → s < 2 ^ k → bit_and (s + 1) (2 ^ k - 1) ≡ after (2 ^ k) s
unfolding after
next_slot k s l = mask_step k s l

free_fits : (e : Entry) (dev ino : ℕ) → e.used ≡ false → is_slot_for e dev ino ≡ true
unfolding is_slot_for
free_fits e dev ino u = rw u refl

probe_finds :
    (slots : List Entry) (k dev ino fuel s f : ℕ)
    → s < 2 ^ k
    → f < 2 ^ k
    → (entry_at slots f).used ≡ false
    → steps (2 ^ k) s f < fuel
    → (j : ℕ) × (j < 2 ^ k) × (probe slots (2 ^ k - 1) dev ino fuel s ≡ some j)
unfolding probe
probe_finds slots k dev ino zero s f ls lf u h = absurd (omega arith)
probe_finds slots k dev ino (suc fuel) s f ls lf u h =
    elim (Bool-cases (is_slot_for (entry_at slots s) dev ino)) [
      | inl m ↦ (s, ls, rw m refl)
      | inr m ↦
          let apart : s ≢ f = λ e. cc (sym m ∙ free_fits (entry_at slots s) dev ino (rw e u)) in
          let (l, d) = steps-after (2 ^ k) s f ls lf apart in
          let (j, b, e) =
            probe_finds slots k dev ino fuel (after (2 ^ k) s) f l lf u (omega (arith, d, h)) in
          let step : bit_and (s + 1) (2 ^ k - 1) ≡ after (2 ^ k) s = next_slot k s ls in
          (j, b, rw m (rw step e))
    ]

-- In a table of 2^k slots with a free one, the search for every file finds a slot of the table:
-- the fuel, one round for each slot, is never used up.
pub find_slot_total :
    (slots : List Entry) (k dev ino f : ℕ)
    → f < 2 ^ k
    → (entry_at slots f).used ≡ false
    → (j : ℕ) × (j < 2 ^ k) × (find_slot slots (2 ^ k) dev ino ≡ some j)
unfolding find_slot
find_slot_total slots k dev ino f lf u =
    let s = bit_and (hash_of dev ino) (2 ^ k - 1) in
    let ls = mask_bound k (hash_of dev ino) in
    probe_finds slots k dev ino (2 ^ k) s f ls lf u (steps_bound (2 ^ k) s f ls lf)
