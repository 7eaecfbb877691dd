-- ===== src/Guest/Peek/Loop/Steps.antt =====
-- src/guest.c, peek_poke: the rule for an invariant of the loop, and how the loop ends.
use emuroot.Base.{
  ℕ, zero, suc, ◌+◌, ◌≤◌, ◌<◌, Bool, true, false, ltb, ltb→lt, Bool-cases, ◌⊎◌, inl, inr, arith,
  if◌then◌else◌,
}
use emuroot.Guest.Peek.{Cells, Moving, move_word, move_words}

-- What one round leaves: the invariant, and a byte at least that has been moved or a reason to stop.
abbrev pub Outcome :
    {M : Type 0} → (Moving M → Type 0) → (Moving M → Type 0) → ℕ → Moving M × Bool → Type 0
Outcome P Blocked done (s, true) = P s × (done < s.done)
Outcome P Blocked done (s, false) = P s × Blocked s

module _ (C : Cells) (write_it : Bool) (addr len : ℕ) (P Blocked : Moving C.M → Type 0)
    (round : (s : Moving C.M)
      → P s
      → s.done < len
      → Outcome P Blocked s.done (move_word C write_it addr len s)) where
  abbrev Ended : Moving C.M → Type 0
  Ended s = P s × ((len ≤ s.done) ⊎ Blocked s)

  after :
      (done : ℕ) (r : Moving C.M × Bool) (rest : Moving C.M)
      → (P r.0 → done < r.0.done → Ended rest)
      → Outcome P Blocked done r
      → Ended (if r.1 then rest else r.0)
  after done (s, true) rest go o = go o.0 o.1
  after done (s, false) rest go o = (o.0, inr o.1)

  pub move_words_lem :
      (fuel : ℕ) (s : Moving C.M)
      → len ≤ s.done + fuel
      → P s
      → P (move_words C write_it addr len fuel s)
        × ((len ≤ (move_words C write_it addr len fuel s).done)
            ⊎ Blocked (move_words C write_it addr len fuel s))
  unfolding move_words
  move_words_lem zero s h p = (p, inl (omega arith))
  move_words_lem (suc fuel) s h p = elim (Bool-cases (ltb s.done len)) [
    | inl e ↦ rw e (
        after s.done (move_word C write_it addr len s)
          (move_words C write_it addr len fuel (move_word C write_it addr len s).0)
          (λ q lt. move_words_lem fuel (move_word C write_it addr len s).0 (omega arith) q)
          (round s p (ltb→lt _ _ e)))
    | inr e ↦ rw e (p, inl (ground arith))
  ]
