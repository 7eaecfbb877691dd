-- ===== src/Rewrite/Paths.antt =====
-- src/rewrite.c: path arguments, read from the guest, translated, and put back.
use emuroot.Base.{
  ℕ, ◌-◌, ◌*◌, Bool, true, not, ◌&&◌, ◌||◌, Option, none, some, List, [], ◌∷◌, ◌++◌, leb, ◌==◌,
  if◌then◌else◌, length, drop,
}
use emuroot.Cstring.{bytes, slash, char_at, snprintf, str_eq, strn_eq}
use emuroot.Context.{path_len}
use emuroot.Path.{Translation, translate_path_ex}
use emuroot.Regs.{reg_arg, set_arg}
use emuroot.Dac.{Host, emuroot_grant_access}
use emuroot.Guest.{guest_read_str}
use emuroot.Kernel.{Kernel, Stop, le}
use emuroot.Rewrite.{emuroot_scratch, dirfd_slot, absolute_guest_path, strict_openat2, is_readlink}

module _ {W : Type 0} (k : Kernel W) where
  -- The argument in a slot.
  abbrev pub arg_of : Stop W → ℕ → ℕ
  arg_of s slot = reg_arg s.regs.args slot

  -- `*reg_arg(regs, slot) = v`, and regs_set
  abbrev pub put_arg : Stop W → ℕ → ℕ → Stop W
  put_arg s slot v = record s { regs = record s.regs { args = set_arg s.regs.args slot v } }

  -- guest_read_str from the address
  abbrev pub text_at : Stop W → ℕ → ℕ → Option (List ℕ)
  text_at s addr size = guest_read_str (k.read s.world s.t.pid) addr size

  -- emuroot_translate_path for the tracee
  abbrev pub translate : Stop W → Bool → List ℕ → Translation
  translate s follow guest =
      translate_path_ex
        (record {
          ctx = s.ctx;
          root = s.t.root;
          follow_last = follow;
          readlink = k.readlink s.world;
        })
        guest

  abbrev pub absolute : Stop W → ℕ → ℕ → List ℕ → Option (List ℕ)
  absolute s sysno slot given =
      absolute_guest_path s.ctx s.t.root (k.proc_link s.world s.t.pid) s.regs.args
        (dirfd_slot k.abi sysno slot) given (2 * path_len)

  -- The path that an argument names, as the guest gives it, if it can be read and is not empty.
  unfoldable pub given_path : Stop W → ℕ → Option (List ℕ)
  given_path s slot =
      if arg_of s slot == 0 then none else elim (text_at s (arg_of s slot) path_len) [
        | none ↦ none
        | some [] ↦ none
        | some (x ∷ given) ↦ some (x ∷ given)
      ]

  -- None where the C function returns 0, here and below.
  unfoldable pub emuroot_host_path_arg : Stop W → ℕ → ℕ → Bool → Option (List ℕ)
  emuroot_host_path_arg s sysno slot follow = elim (given_path s slot) [
    | none ↦ none
    | some given ↦ elim (absolute s sysno slot given) [
      | none ↦ some (snprintf path_len given)
      | some guest ↦ some (translate s follow guest).out
    ]
  ]

  -- The guest path with its symlinks resolved, and the host path.
  unfoldable pub emuroot_guest_path_arg : Stop W → ℕ → ℕ → Option (List ℕ × List ℕ)
  emuroot_guest_path_arg s sysno slot = elim (given_path s slot) [
    | none ↦ none
    | some given ↦ elim (absolute s sysno slot given) [
      | none ↦ none
      | some guest ↦ let r = translate s true guest in some (r.guest_out, r.out)
    ]
  ]

  unfoldable pub fail_closed : Stop W → ℕ → Stop W
  fail_closed s slot = put_arg s slot 0

  -- Writes the bytes to new scratch memory: its address if that has worked.
  unfoldable pub to_scratch : Stop W → List ℕ → Stop W × Option ℕ
  to_scratch s text =
      let (top, addr) = emuroot_scratch s.t.scratch_top (length text) in
      let s' = record s { t = record s.t { scratch_top = top } } in
      if addr == 0
      then (s', none)
      else let (w, done) = k.write s'.world s'.t.pid addr text in
        (record s' { world = w }, if done then some addr else none)

  -- The end of rewrite_path_arg: the host path takes the place of the guest's.
  unfoldable pub place : Stop W → ℕ → List ℕ → Stop W
  place s slot host =
      let (s', at) = to_scratch s (host ++ (0 ∷ [])) in
      elim at [ none ↦ fail_closed s' slot | some addr ↦ put_arg s' slot addr ]

  abbrev pub dac_host : Stop W → Host
  dac_host s = record {
    stat = λ path. elim (k.stat s.world path) [ none ↦ none | some f ↦ some f.stat ];
    euid = k.euid;
  }

  -- emuroot_grant_access, and its chmod
  unfoldable pub grant : Stop W → ℕ → ℕ → List ℕ → Stop W
  grant s sysno which host =
      elim (emuroot_grant_access k.abi k.flags (dac_host s) sysno s.regs.args which host) [
        | none ↦ s
        | some c ↦ record s { world = k.chmod s.world c.path c.mode }
      ]

  -- `n >= 4 && strcmp(guest + n - 4, "/exe") == 0`
  unfoldable pub ends_in_exe : List ℕ → Bool
  ends_in_exe guest = leb 4 (length guest) && str_eq (drop (length guest - 4) guest) (bytes "/exe")

  unfoldable pub note_proc_link : Stop W → ℕ → ℕ → List ℕ → Stop W
  note_proc_link s sysno which guest =
      if strn_eq guest (bytes "/proc/") 6 && which == 0 && is_readlink k.abi sysno
      then record s { t = record s.t { proc_link = true; proc_link_exe = ends_in_exe guest } }
      else s

  -- The grant for an emulated root, and the note for the log.
  unfoldable pub readied : Stop W → ℕ → ℕ → List ℕ → Stop W
  readied s sysno which host =
      let s' =
        if s.ctx.has_fake_ids && s.t.creds.uid.effective == 0
        then grant s sysno which host
        else s in
      if s'.ctx.verbose then record s' { t = record s'.t { logged = true } } else s'

  -- rewrite_path_arg from the guest's absolute path on.
  unfoldable pub rewrite_guest : Stop W → ℕ → ℕ → Bool → ℕ → List ℕ → Stop W
  rewrite_guest s sysno slot follow which guest =
      let s1 = note_proc_link s sysno which guest in
      let r = translate s1 follow guest in
      let s2 = readied s1 sysno which r.out in if r.differs then place s2 slot r.out else s2

  -- The third word of the structure that openat2 is given.
  abbrev pub resolve_word : Stop W → ℕ → ℕ
  resolve_word s addr = le (drop 16 (k.read s.world s.t.pid addr 24))

  -- rewrite_path_arg once the path has been read.
  unfoldable pub rewrite_given : Stop W → ℕ → ℕ → Bool → ℕ → List ℕ → Stop W
  rewrite_given s sysno slot follow which given =
      if length given == 0
      then s
      else if not (char_at given 0 == slash)
          && strict_openat2 k.abi (resolve_word s) s.regs.args sysno slot
      then s
      else elim (absolute s sysno slot given) [
        | none ↦ s
        | some guest ↦ rewrite_guest s sysno slot follow which guest
      ]

  unfoldable pub rewrite_path_arg : Stop W → ℕ → ℕ → Bool → ℕ → Stop W
  rewrite_path_arg s sysno slot follow which =
      if slot == 0 || (length s.t.root == 0 && s.ctx.nbindings == 0)
      then s
      else if arg_of s slot == 0
      then s
      else elim (text_at s (arg_of s slot) path_len) [
        | none ↦ if k.fault s.world s.t.pid (arg_of s slot) then s else fail_closed s slot
        | some given ↦ rewrite_given s sysno slot follow which given
      ]
