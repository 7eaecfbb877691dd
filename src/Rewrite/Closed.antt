-- ===== src/Rewrite/Closed.antt =====
-- src/rewrite.c, rewrite_path_arg: a path that is translated to another never reaches the kernel as
-- the guest gave it.
use emuroot.Base.{
  ℕ, ◌≡◌, refl, sym, ◌∙◌, ap, ◌⊎◌, inl, inr, Bool, true, false, not, ◌&&◌, ◌||◌, none, some, List,
  [], ◌∷◌, ◌++◌, ◌==◌, length, Bool-cases, ==_iff,
}
use emuroot.Cstring.{slash, char_at, bytes, strn_eq}
use emuroot.Dac.{emuroot_grant_access}
use emuroot.Context.{path_len}
use emuroot.Regs.Machines.{reg_arg-set_arg}
use emuroot.Kernel.{Kernel, Stop}
use emuroot.Rewrite.{emuroot_scratch, is_readlink, strict_openat2}
use emuroot.Rewrite.Paths.{
  arg_of, text_at, translate, absolute, fail_closed, to_scratch, place, dac_host, grant, readied,
  note_proc_link, rewrite_guest, resolve_word, rewrite_given, rewrite_path_arg,
}

module _ {W : Type 0} (k : Kernel W) where
  -- The argument of the call is null, or points to what has been written for it: the host path, in
  -- the memory of the tracee.
  abbrev pub IsRedirected : ℕ → Stop W → ℕ → List ℕ → Type 0
  IsRedirected pid s' slot host =
      (arg_of k s' slot ≡ 0)
      ⊎ ((w : W) × (k.write w pid (arg_of k s' slot) (host ++ (0 ∷ [])) ≡ (s'.world, true)))

  to_scratch_lem :
      (s : Stop W) (text : List ℕ)
      → let (s', at) = to_scratch k s text in
        (at ≡ none)
        ⊎ ((addr : ℕ) × (at ≡ some addr) × (k.write s.world s.t.pid addr text ≡ (s'.world, true)))
  unfolding to_scratch
  to_scratch_lem s text =
      let addr = (emuroot_scratch s.t.scratch_top (length text)).1 in
      elim (Bool-cases (addr == 0)) [
        | inl z ↦ inl (rw z refl)
        | inr z ↦ elim (Bool-cases (k.write s.world s.t.pid addr text).1) [
          | inr d ↦ inl (rw (z, d) refl)
          | inl d ↦
              inr (
                addr,
                rw (z, d) refl,
                rw z (ap (λ b. ((k.write s.world s.t.pid addr text).0, b)) d),
              )
        ]
      ]

  place_lem :
      (s : Stop W) (pid slot : ℕ) (host : List ℕ)
      → s.t.pid ≡ pid
      → IsRedirected pid (place k s slot host) slot host
  unfolding place fail_closed
  place_lem s pid slot host same =
      let s' = (to_scratch k s (host ++ (0 ∷ []))).0 in
      elim (to_scratch_lem s (host ++ (0 ∷ []))) [
        | inl n ↦ rw (n, place) (inl (reg_arg-set_arg s'.regs.args slot 0))
        | inr (addr, n, w) ↦
            rw (n, place)
              (inr (
                s.world,
                rw (reg_arg-set_arg s'.regs.args slot addr)
                    (ap (λ p. k.write s.world p addr (host ++ (0 ∷ []))) (sym same) ∙ w),
              ))
      ]

  -- Nothing of the call itself has changed.
  abbrev IsSameCall : Stop W → Stop W → Type 0
  IsSameCall s s' = (s'.regs ≡ s.regs) × (s'.t.pid ≡ s.t.pid)

  grant_same :
      (s : Stop W) (sysno which : ℕ) (host : List ℕ) → IsSameCall s (grant k s sysno which host)
  unfolding grant
  grant_same s sysno which host =
      elim (emuroot_grant_access k.abi k.flags (dac_host k s) sysno s.regs.args which host)
        as (λ c.
          IsSameCall s
            (elim c [ none ↦ s | some c ↦ record s { world = k.chmod s.world c.path c.mode } ])) [
              | none ↦ (refl, refl)
              | some c ↦ (refl, refl)
            ]

  readied_same :
      (s : Stop W) (sysno which : ℕ) (host : List ℕ) → IsSameCall s (readied k s sysno which host)
  unfolding readied
  readied_same s sysno which host =
      let g = grant_same s sysno which host in
      elim (Bool-cases (s.ctx.has_fake_ids && s.t.creds.uid.effective == 0)) [
        | inl r ↦ elim (Bool-cases (grant k s sysno which host).ctx.verbose) [
          | inl v ↦ rw (r, v) g
          | inr v ↦ rw (r, v) g
        ]
        | inr r ↦ elim (Bool-cases s.ctx.verbose) [
          | inl v ↦ rw (r, v) (refl, refl)
          | inr v ↦ rw (r, v) (refl, refl)
        ]
      ]

  note_proc_link_same :
      (s : Stop W) (sysno which : ℕ) (guest : List ℕ) (follow : Bool)
      → IsSameCall s (note_proc_link k s sysno which guest)
        × (translate k (note_proc_link k s sysno which guest) follow guest
            ≡ translate k s follow guest)
  unfolding note_proc_link
  note_proc_link_same s sysno which guest follow =
      elim (Bool-cases
        (strn_eq guest (bytes "/proc/") 6 && which == 0 && is_readlink k.abi sysno)) [
          | inl e ↦ rw e ((refl, refl), refl)
          | inr e ↦ rw e ((refl, refl), refl)
        ]

  guest_closed :
      (s : Stop W) (sysno slot : ℕ) (follow : Bool) (which : ℕ) (guest : List ℕ)
      → (translate k s follow guest).differs ≡ true
      → IsRedirected s.t.pid
          (rewrite_guest k s sysno slot follow which guest)
          slot
          (translate k s follow guest).out
  unfolding rewrite_guest
  guest_closed s sysno slot follow which guest d =
      let ((r1, p1), same) = note_proc_link_same s sysno which guest follow in
      let s1 = note_proc_link k s sysno which guest in
      let host = (translate k s follow guest).out in
      let (r2, p2) = readied_same s1 sysno which host in
      rw (same, d) (place_lem (readied k s1 sysno which host) s.t.pid slot host (p2 ∙ p1))

  guest_same :
      (s : Stop W) (sysno slot : ℕ) (follow : Bool) (which : ℕ) (guest : List ℕ)
      → (translate k s follow guest).differs ≡ false
      → (rewrite_guest k s sysno slot follow which guest).regs ≡ s.regs
  unfolding rewrite_guest
  guest_same s sysno slot follow which guest d =
      let ((r1, p1), same) = note_proc_link_same s sysno which guest follow in
      let (r2, p2) =
        readied_same (note_proc_link k s sysno which guest) sysno which
          (translate k s follow guest).out in
      rw (same, d) (r2 ∙ r1)

  -- What a path argument is where it is rewritten: it stands in a slot, under a root or bindings,
  -- and is not null; its text can be read and is an absolute path.
  pub record IsGiven (s : Stop W) (sysno slot : ℕ) (given guest : List ℕ) : Type 0 where
    pub in_slot : (slot == 0) ≡ false
    pub some_root : (length s.t.root == 0 && s.ctx.nbindings == 0) ≡ false
    pub not_null : (arg_of k s slot == 0) ≡ false
    pub read : text_at k s (arg_of k s slot) path_len ≡ some given
    pub not_empty : (length given == 0) ≡ false
    pub lenient :
        (not (char_at given 0 == slash)
          && strict_openat2 k.abi (resolve_word k s) s.regs.args sysno slot)
        ≡ false
    pub named : absolute k s sysno slot given ≡ some guest

  rewrite_path_arg-guest :
      (s : Stop W) (sysno slot : ℕ) (follow : Bool) (which : ℕ) (given guest : List ℕ)
      → IsGiven s sysno slot given guest
      → rewrite_path_arg k s sysno slot follow which
        ≡ rewrite_guest k s sysno slot follow which guest
  unfolding rewrite_path_arg rewrite_given
  rewrite_path_arg-guest s sysno slot follow which given guest g =
      rw (g.in_slot, g.some_root, g.not_null, g.read, rewrite_path_arg)
        (rw (g.not_empty, g.lenient, g.named, rewrite_given) refl)

  -- A path argument that can be read, under a root or bindings, and that is translated to another
  -- path: behind rewrite_path_arg it points to the host path that has been written for it in the
  -- memory of the tracee, or it is null. The kernel never sees the guest's own path.
  pub rewrite_path_arg_closed :
      (s : Stop W) (sysno slot : ℕ) (follow : Bool) (which : ℕ) (given guest : List ℕ)
      → IsGiven s sysno slot given guest
      → (translate k s follow guest).differs ≡ true
      → IsRedirected s.t.pid
          (rewrite_path_arg k s sysno slot follow which)
          slot
          (translate k s follow guest).out
  rewrite_path_arg_closed s sysno slot follow which given guest g d =
      rw (rewrite_path_arg-guest s sysno slot follow which given guest g)
        (guest_closed s sysno slot follow which guest d)

  -- A path argument that can be read, under a root or bindings, and that is translated to itself:
  -- rewrite_path_arg leaves all registers of the call.
  pub rewrite_path_arg_same :
      (s : Stop W) (sysno slot : ℕ) (follow : Bool) (which : ℕ) (given guest : List ℕ)
      → IsGiven s sysno slot given guest
      → (translate k s follow guest).differs ≡ false
      → (rewrite_path_arg k s sysno slot follow which).regs ≡ s.regs
  rewrite_path_arg_same s sysno slot follow which given guest g d =
      rw (rewrite_path_arg-guest s sysno slot follow which given guest g)
        (guest_same s sysno slot follow which guest d)

  -- A path argument that cannot be read, under a root or bindings, is null behind rewrite_path_arg,
  -- unless the failure is EFAULT, as it then is for the kernel: the stop is left as it was.
  pub rewrite_path_arg_unreadable :
      (s : Stop W) (sysno slot : ℕ) (follow : Bool) (which : ℕ)
      → (slot == 0 || (length s.t.root == 0 && s.ctx.nbindings == 0)) ≡ false
      → text_at k s (arg_of k s slot) path_len ≡ none
      → (arg_of k (rewrite_path_arg k s sysno slot follow which) slot ≡ 0)
        ⊎ ((k.fault s.world s.t.pid (arg_of k s slot) ≡ true)
            × (rewrite_path_arg k s sysno slot follow which ≡ s))
  unfolding rewrite_path_arg fail_closed
  rewrite_path_arg_unreadable s sysno slot follow which some_root unread =
      elim (Bool-cases (arg_of k s slot == 0)) [
        | inl z ↦ rw (some_root, z) (inl ((==_iff (arg_of k s slot) 0).0 z))
        | inr z ↦ elim (Bool-cases (k.fault s.world s.t.pid (arg_of k s slot))) [
          | inl f ↦ rw (some_root, z, unread, f, rewrite_path_arg) (inr (refl, refl))
          | inr f ↦
              rw (some_root, z, unread, f, rewrite_path_arg)
                (inl (reg_arg-set_arg s.regs.args slot 0))
        ]
      ]
