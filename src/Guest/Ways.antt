-- ===== src/Guest/Ways.antt =====
-- src/guest.c, transfer: which way of access is used.
use emuroot.Base.{◌≡◌, refl, sym, ◌⊎◌, inl, inr, Bool, true, false, Bool-cases}
use emuroot.Guest.{
  Method, process_vm, proc_mem, peek_poke, Attempt, moved, failed, denied, transfer, round,
}

-- The first way is one that comes before the second.
pub data Precedes : Method → Method → Type 0 where
  vm_mem : Precedes process_vm proc_mem
  vm_peek : Precedes process_vm peek_poke
  mem_peek : Precedes proc_mem peek_poke

-- Whether a way is still to be left for the next: it has answered an error that means "not this way".
unfoldable pub is_denied : Attempt → Bool
is_denied (moved n) = false
is_denied (failed err) = denied err

-- What a transfer promises of the way it ends at and of the answer, from the way m.
record Ends (try : Method → Attempt) (m : Method) (r : Method × Attempt) : Type 0 where
  own : r.1 ≡ try r.0
  left : (r.0 ≡ m) ⊎ (Precedes m r.0 × (is_denied (try m) ≡ true))
  settled : (r.0 ≡ peek_poke) ⊎ (is_denied (try r.0) ≡ false)

round-Ends :
    (try : Method → Attempt) (m m' : Method) (next : Method × Attempt)
    → Precedes m next.0
    → Ends try m' next
    → Ends try m (round try m next)
unfolding round is_denied
round-Ends try m m' next later e = go (try m) refl
  where
    go : (a : Attempt) → try m ≡ a → Ends try m (round try m next)
    go (moved n) h =
        rw (h, round)
          (record { own = sym h; left = inl refl; settled = inr (rw (h, is_denied) refl) })
    go (failed err) h = elim (Bool-cases (denied err)) [
      | inl d ↦
          rw (h, round)
            (rw d (record {
              own = e.own;
              left = inr (later, rw (h, is_denied) d);
              settled = e.settled;
            }))
      | inr d ↦
          rw (h, round)
            (rw d (record { own = sym h; left = inl refl; settled = inr (rw (h, is_denied) d) }))
    ]

last-Ends : (try : Method → Attempt) → Ends try peek_poke (peek_poke, try peek_poke)
last-Ends try = record { own = refl; left = inl refl; settled = inl refl }

mem-Ends :
    (try : Method → Attempt) → Ends try proc_mem (round try proc_mem (peek_poke, try peek_poke))
mem-Ends try = round-Ends try proc_mem peek_poke (peek_poke, try peek_poke) mem_peek (last-Ends try)

vm_first : (m : Method) → Precedes proc_mem m → Precedes process_vm m
vm_first m mem_peek = vm_peek

after_mem :
    (m : Method) {P : Type 0} → (m ≡ proc_mem) ⊎ (Precedes proc_mem m × P) → Precedes process_vm m
after_mem m (inl e) = rw e vm_mem
after_mem m (inr (b, p)) = vm_first m b

transfer-Ends : (try : Method → Attempt) (m : Method) → Ends try m (transfer try m)
unfolding transfer
transfer-Ends try peek_poke = last-Ends try
transfer-Ends try proc_mem = mem-Ends try
transfer-Ends try process_vm =
    let e = mem-Ends try in
    round-Ends try process_vm proc_mem (round try proc_mem (peek_poke, try peek_poke))
      (after_mem _ e.left) e

-- A transfer ends with the answer of the way that is current then. That is the way that was current,
-- unless that has answered an error that means "not this way": then it is a later one. And it is the
-- last way, or one that has not answered such an error.
pub transfer_lem :
    (try : Method → Attempt) (m : Method)
    → let (m', answer) = transfer try m in
      (answer ≡ try m')
      × ((m' ≡ m) ⊎ (Precedes m m' × (is_denied (try m) ≡ true)))
      × ((m' ≡ peek_poke) ⊎ (is_denied (try m') ≡ false))
transfer_lem try m = let e = transfer-Ends try m in (e.own, e.left, e.settled)

-- Where the first two ways answer such an error, the answer is that of the last.
pub transfer_peek :
    (try : Method → Attempt) (m : Method)
    → is_denied (try process_vm) ≡ true
    → is_denied (try proc_mem) ≡ true
    → transfer try m ≡ (peek_poke, try peek_poke)
transfer_peek try m vm mem = go (transfer try m) (transfer_lem try m)
  where
    go :
        (r : Method × Attempt)
        → (r.1 ≡ try r.0)
          × ((r.0 ≡ m) ⊎ (Precedes m r.0 × (is_denied (try m) ≡ true)))
          × ((r.0 ≡ peek_poke) ⊎ (is_denied (try r.0) ≡ false))
        → r ≡ (peek_poke, try peek_poke)
    go (process_vm, a) (own, left, inl e) = cc
    go (process_vm, a) (own, left, inr e) = cc
    go (proc_mem, a) (own, left, inl e) = cc
    go (proc_mem, a) (own, left, inr e) = cc
    go (peek_poke, a) (own, left, settled) = cc
