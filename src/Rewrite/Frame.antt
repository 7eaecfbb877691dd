-- ===== src/Rewrite/Frame.antt =====
-- src/rewrite.c: rewriting the arguments of a call leaves the marks of the tracee.
use emuroot.Base.{
  ℕ, ◌≡◌, refl, ◌∙◌, Bool, true, List, [], ◌∷◌, ◌++◌, Option-cases, Bool-cases, inl, inr, not, ◌||◌,
  leb, length, take, drop, arith,
}
use emuroot.Tracee.Frame.{marks}
use emuroot.Cstring.{snprintf}
use emuroot.Context.{path_len}
use emuroot.Guest.{c_string}
use emuroot.Kernel.{Kernel, Stop}
use emuroot.Rewrite.Paths.{
  translate, fail_closed, to_scratch, place, grant, note_proc_link, readied, rewrite_guest,
  rewrite_given, rewrite_path_arg,
}
use emuroot.Rewrite.Sockets.{sun_path_size, with_path, rewrite_sun, rewrite_sockaddr}

-- The tracee of the second stop has the marks of the first one's.
abbrev pub Keeps : {W : Type 0} → Stop W → Stop W → Type 0
Keeps s s' = marks s'.t ≡ marks s.t

module _ {W : Type 0} (k : Kernel W) where
  pub to_scratch-Keeps : (s : Stop W) (text : List ℕ) → Keeps s (to_scratch k s text).0
  unfolding to_scratch
  to_scratch-Keeps s text = ground arith

  place-Keeps : (s : Stop W) (slot : ℕ) (host : List ℕ) → Keeps s (place k s slot host)
  unfolding place fail_closed
  place-Keeps s slot host = ground (arith, to_scratch-Keeps s (host ++ (0 ∷ [])))

  grant-Keeps :
      (s : Stop W) (sysno which : ℕ) (host : List ℕ) → Keeps s (grant k s sysno which host)
  unfolding grant
  grant-Keeps s sysno which host = ground arith

  readied-Keeps :
      (s : Stop W) (sysno which : ℕ) (host : List ℕ) → Keeps s (readied k s sysno which host)
  unfolding readied
  readied-Keeps s sysno which host = ground (arith, grant-Keeps s sysno which host)

  note_proc_link-Keeps :
      (s : Stop W) (sysno which : ℕ) (guest : List ℕ)
      → Keeps s (note_proc_link k s sysno which guest)
  unfolding note_proc_link
  note_proc_link-Keeps s sysno which guest = ground arith

  rewrite_guest-Keeps :
      (s : Stop W) (sysno slot : ℕ) (follow : Bool) (which : ℕ) (guest : List ℕ)
      → Keeps s (rewrite_guest k s sysno slot follow which guest)
  unfolding rewrite_guest
  rewrite_guest-Keeps s sysno slot follow which guest =
      let s1 = note_proc_link k s sysno which guest in
      let host = (translate k s1 follow guest).out in
      let ready = readied-Keeps s1 sysno which host ∙ note_proc_link-Keeps s sysno which guest in
      let placed = place-Keeps (readied k s1 sysno which host) slot host ∙ ready in
      ground (arith, ready, placed)

  rewrite_given-Keeps :
      (s : Stop W) (sysno slot : ℕ) (follow : Bool) (which : ℕ) (given : List ℕ)
      → Keeps s (rewrite_given k s sysno slot follow which given)
  unfolding rewrite_given
  rewrite_given-Keeps s sysno slot follow which given =
      grind (arith, rewrite_guest-Keeps s sysno slot follow which)

  pub rewrite_path_arg-Keeps :
      (s : Stop W) (sysno slot : ℕ) (follow : Bool) (which : ℕ)
      → Keeps s (rewrite_path_arg k s sysno slot follow which)
  unfolding rewrite_path_arg fail_closed
  rewrite_path_arg-Keeps s sysno slot follow which =
      grind (arith, rewrite_given-Keeps s sysno slot follow which)

  rewrite_sun-Keeps :
      (s : Stop W) (addr_slot len_slot : ℕ) (sun : List ℕ)
      → Keeps s (rewrite_sun k s addr_slot len_slot sun)
  unfolding rewrite_sun fail_closed
  rewrite_sun-Keeps s addr_slot len_slot sun =
      let r = translate k s true (snprintf path_len (c_string (take sun_path_size (drop 2 sun)))) in
      let kept = to_scratch-Keeps s (with_path sun r.out) in
      elim (Bool-cases (not r.differs || leb sun_path_size (length r.out))) [
        | inl e ↦ rw e refl
        | inr e ↦ rw e (elim (Option-cases (to_scratch k s (with_path sun r.out)).1) [
          | inl n ↦ rw (n, rewrite_sun) kept
          | inr (addr, n) ↦ rw (n, rewrite_sun) kept
        ])
      ]

  pub rewrite_sockaddr-Keeps :
      (s : Stop W) (addr_slot len_slot : ℕ) → Keeps s (rewrite_sockaddr k s addr_slot len_slot)
  unfolding rewrite_sockaddr
  rewrite_sockaddr-Keeps s addr_slot len_slot =
      grind (arith, rewrite_sun-Keeps s addr_slot len_slot)
