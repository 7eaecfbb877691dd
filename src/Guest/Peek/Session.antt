-- ===== src/Guest/Peek/Session.antt =====
-- src/guest.c: guest_write and then guest_read, where only the last way of access is permitted.
use emuroot.Base.{
  ℕ, ◌+◌, ◌^◌, ◌≤◌, ◌≡◌, refl, ap, Bool, true, false, Option, List, ◌==◌, ==_iff, length,
}
use emuroot.Guest.{
  Attempt, moved, failed, Method, emuroot_process_vm, proc_mem_access, attempts, guest_read,
  guest_write, transfer,
}
use emuroot.Guest.Ways.{is_denied, transfer_peek}
use emuroot.Guest.Peek.{Cells, IsLawful, peek_poke}
use emuroot.Guest.Peek.Trip.{peek_poke_round_trip}

moved_all :
    (a : Attempt) (len : ℕ)
    → elim a [ moved n ↦ n == len | failed err ↦ false ] ≡ true
    → a ≡ moved len
moved_all (moved n) len h = ap moved ((==_iff n len).0 h)
moved_all (failed err) len h = cc

-- Where the first two ways of access are not permitted, a guest_write that has worked is read back
-- by guest_read, from whatever way was current: it moves all of the bytes into the buffer.
pub guest_read-guest_write :
    (C : Cells) (law : IsLawful C) (addr len : ℕ) (fits : addr + len ≤ 256 ^ C.size) (m : C.M)
    (buf old : List ℕ) (method : Method) (has_call : Bool) (vm io : Attempt) (opened : Option ℕ)
    → length buf ≡ len
    → length old ≡ len
    → is_denied (emuroot_process_vm has_call vm) ≡ true
    → is_denied (proc_mem_access opened io) ≡ true
    → (guest_write
        (attempts has_call vm opened io (peek_poke C true addr len m buf).2)
        method
        len).1
      ≡ true
    → let (m', buf', stored_n) = peek_poke C true addr len m buf in
      let method' = (guest_write (attempts has_call vm opened io stored_n) method len).0 in
      let (m'', new, read_n) = peek_poke C false addr len m' old in
      (guest_read (attempts has_call vm opened io read_n) method' ≡ (Method.peek_poke, moved len))
      × (new ≡ buf)
unfolding guest_write guest_read attempts
guest_read-guest_write C law addr len fits m buf old method has_call vm io opened room full no_vm
      no_mem done =
    let w = peek_poke C true addr len m buf in
    let sent : transfer (attempts has_call vm opened io w.2) method ≡ (Method.peek_poke, w.2) =
      transfer_peek (attempts has_call vm opened io w.2) method no_vm no_mem in
    let all : w.2 ≡ moved len = moved_all w.2 len (rw (sent, guest_write) at done) in
    let back : peek_poke C false addr len w.0 old ≡ (w.0, buf, moved len) =
      peek_poke_round_trip C law addr len fits m buf old room full all in
    rw sent (
      rw back (
        transfer_peek (attempts has_call vm opened io (moved len)) Method.peek_poke no_vm no_mem,
        refl,
      ))
