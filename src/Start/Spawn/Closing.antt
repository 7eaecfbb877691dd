-- ===== src/Start/Spawn/Closing.antt =====
-- src/spawn.c, close_inherited_fds: the loop ends, and which descriptors are open then.
use emuroot.Base.{
  ℕ, zero, suc, ◌+◌, ◌≤◌, ◌≡◌, refl, ◌∙◌, ap, true, false, Bool-cases, inl, inr, List, [], ◌∷◌,
  ◌++◌, ◌==◌, ==_refl, ==_iff, if◌then◌else◌, length, arith,
}
use emuroot.Base.{ltb, ◌≢◌, ℤ, some}
use emuroot.Start.Spawn.{
  close_inherited_fds, batch, listing, closes, collect, close, close_each, close_walks,
}

-- The descriptors that are to stay open
unfoldable pub kept : ℕ → List ℕ → List ℕ
kept self [] = []
kept self (fd ∷ fds) = if closes self fd then kept self fds else fd ∷ kept self fds

-- What one walk leaves of the listing
walk : ℕ → ℕ → List ℕ → List ℕ
walk self room [] = []
walk self zero (fd ∷ fds) = fd ∷ fds
walk self (suc room) (fd ∷ fds) =
    let rest = walk self (if closes self fd then room else suc room) fds in
    if closes self fd then rest else fd ∷ rest

abbrev AllClose : ℕ → List ℕ → Type 0
AllClose self [] = Unit {0}
AllClose self (fd ∷ fds) = (closes self fd ≡ true) × AllClose self fds

collect-AllClose : (self room : ℕ) (fds : List ℕ) → AllClose self (collect self room fds).0
unfolding collect
collect-AllClose self zero [] = tt
collect-AllClose self (suc room) [] = tt
collect-AllClose self zero (fd ∷ fds) = tt
collect-AllClose self (suc room) (fd ∷ fds) = elim (Bool-cases (closes self fd)) [
  | inl e ↦ rw e (e, collect-AllClose self room fds)
  | inr e ↦ rw e (collect-AllClose self (suc room) fds)
]

-- A descriptor that stays is not closed.
close_each_skip :
    (self : ℕ) (found : List ℕ) (x : ℕ) (fds : List ℕ)
    → AllClose self found
    → closes self x ≡ false
    → close_each found (x ∷ fds) ≡ x ∷ close_each found fds
unfolding close_each close
close_each_skip self [] x fds a h = refl
close_each_skip self (fd ∷ found) x fds a h = elim (Bool-cases (x == fd)) [
  | inl e ↦ let same : x ≡ fd = (==_iff x fd).0 e in cc (h, a.0, ap (closes self) same)
  | inr e ↦ rw e (close_each_skip self found x (close fd fds) a.1 h)
]

close_each_first :
    (fd : ℕ) (found fds : List ℕ) → close_each (fd ∷ found) (fd ∷ fds) ≡ close_each found fds
unfolding close_each close
close_each_first fd found fds = rw (==_refl fd)

close_each-collect :
    (self room : ℕ) (fds : List ℕ) → close_each (collect self room fds).0 fds ≡ walk self room fds
unfolding collect walk
close_each-collect self zero [] = unfold close_each in refl
close_each-collect self (suc room) [] = unfold close_each in refl
close_each-collect self zero (fd ∷ fds) = unfold close_each in refl
close_each-collect self (suc room) (fd ∷ fds) = elim (Bool-cases (closes self fd)) [
  | inl e ↦
      rw e (close_each_first fd (collect self room fds).0 fds ∙ close_each-collect self room fds)
  | inr e ↦ rw e (
      close_each_skip self (collect self (suc room) fds).0 fd fds
        (collect-AllClose self (suc room) fds) e
      ∙ ap (◌∷◌ fd) (close_each-collect self (suc room) fds))
]

-- A walk that has looked at every entry leaves those that stay, and another one has closed as many as
-- it has room for.
record Walked (self room : ℕ) (fds : List ℕ) : Type 0 where
  keeps : kept self (walk self room fds) ≡ kept self fds
  ends : (collect self room fds).1 ≡ false → walk self room fds ≡ kept self fds
  closed : (collect self room fds).1 ≡ true → length (walk self room fds) + room ≤ length fds

walk-Walked : (self room : ℕ) (fds : List ℕ) → Walked self room fds
unfolding collect walk kept
walk-Walked self zero [] = record { keeps = refl; ends = λ h. refl; closed = λ h. cc }
walk-Walked self (suc room) [] = record { keeps = refl; ends = λ h. refl; closed = λ h. cc }
walk-Walked self zero (fd ∷ fds) = record {
  keeps = refl;
  ends = λ h. cc;
  closed = λ h. omega arith;
}
walk-Walked self (suc room) (fd ∷ fds) = elim (Bool-cases (closes self fd)) [
  | inl e ↦
      let w = walk-Walked self room fds in
      record {
        keeps = rw e w.keeps;
        ends = rw e (λ h. w.ends h);
        closed = rw e (λ h. omega (arith, w.closed h));
      }
  | inr e ↦
      let w = walk-Walked self (suc room) fds in
      record {
        keeps = rw e (rw e (ap (◌∷◌ fd) w.keeps));
        ends = rw e (λ h. ap (◌∷◌ fd) (w.ends h));
        closed = rw e (λ h. omega (arith, w.closed h));
      }
]

-- The entries "." and ".." do not count.
collect-listing :
    (self : ℕ) (fds : List ℕ) → collect self batch (listing fds) ≡ collect self batch fds
unfolding collect closes
collect-listing self fds = refl

-- The loop ends after no more walks than there are open descriptors, and one more: then every
-- descriptor above 2 but the listing's own has been closed and the others have not, in the same order.
pub close_walks_lem :
    (self fuel : ℕ) (fds : List ℕ)
    → length fds ≤ fuel
    → close_walks self (suc fuel) fds ≡ some (kept self fds)
unfolding close_walks
close_walks_lem self zero fds h = elim (Bool-cases (collect self batch fds).1) [
  | inr last ↦
      rw (collect-listing self fds, last)
        (ap some (close_each-collect self batch fds ∙ (walk-Walked self batch fds).ends last))
  | inl more ↦ absurd (omega (arith, (walk-Walked self batch fds).closed more))
]
close_walks_lem self (suc fuel) fds h = elim (Bool-cases (collect self batch fds).1) [
  | inr last ↦
      rw (collect-listing self fds, last)
        (ap some (close_each-collect self batch fds ∙ (walk-Walked self batch fds).ends last))
  | inl more ↦
      let w = walk-Walked self batch fds in
      rw (collect-listing self fds, more)
        (ap (close_walks self (suc fuel)) (close_each-collect self batch fds)
          ∙ close_walks_lem self fuel (walk self batch fds) (omega (arith, w.closed more))
          ∙ ap some w.keeps)
]

-- The standard descriptors among those that are open
unfoldable pub standard : List ℕ → List ℕ
standard [] = []
standard (fd ∷ fds) = if ltb 2 fd then standard fds else fd ∷ standard fds

abbrev pub AllNe : ℕ → List ℕ → Type 0
AllNe self [] = Unit {0}
AllNe self (fd ∷ fds) = (fd ≢ self) × AllNe self fds

kept-standard : (self : ℕ) (fds : List ℕ) → AllNe self fds → kept self fds ≡ standard fds
unfolding kept standard closes
kept-standard self [] h = refl
kept-standard self (fd ∷ fds) h = ground (arith, h.0, kept-standard self fds h.1)

-- The listing's own descriptor is closed last, wherever it is listed.
close-kept :
    (self : ℕ) (before after : List ℕ)
    → AllNe self before
    → AllNe self after
    → close self (kept self (before ++ (self ∷ after))) ≡ standard (before ++ after)
unfolding kept standard close closes
close-kept self [] after b a =
    let stays : kept self (self ∷ after) ≡ self ∷ kept self after =
      rw (==_refl self) (ground arith) in
    let closed : close self (self ∷ kept self after) ≡ kept self after = rw (==_refl self) in
    ap (close self) stays ∙ closed ∙ kept-standard self after a
close-kept self (x ∷ before) after b a = ground (arith, b.0, close-kept self before after b.1 a)

-- Where /proc/self/fd can be opened, the loop over it ends, after no more walks than there are open
-- descriptors and one more; afterwards exactly those of the descriptors 0, 1 and 2 that were open are
-- open, in the same order, and not the listing's own, wherever that is listed among them.
pub close_inherited_fds_lem :
    (self fuel : ℕ) (sysconf : ℤ) (before after : List ℕ)
    → AllNe self before
    → AllNe self after
    → length (before ++ (self ∷ after)) ≤ fuel
    → close_inherited_fds (some self) sysconf (suc fuel) (before ++ (self ∷ after))
      ≡ some (standard (before ++ after))
unfolding close_inherited_fds
close_inherited_fds_lem self fuel sysconf before after b a h =
    let ended = close_walks_lem self fuel (before ++ (self ∷ after)) h in
    rw (ended, close_inherited_fds) (ap some (close-kept self before after b a))
