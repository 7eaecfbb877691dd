-- ===== src/Exit/Owner.antt =====
-- src/fake.c, fake_owner and map_proc_link: the owner in a stat buffer, and the answer of a readlink in
-- /proc, as the guest is to see them.
use emuroot.Base.{
  ℕ, ◌+◌, ◌*◌, ◌/◌, ◌%◌, ◌^◌, Bool, true, not, ◌&&◌, ◌||◌, Option, none, some, List, ltb, leb, ◌==◌,
  if◌then◌else◌, length, take,
}
use emuroot.Context.{path_len}
use emuroot.Path.{host_to_guest}
use emuroot.Regs.{reg_arg}
use emuroot.Syscalls.{is_call, nr_readlinkat}
use emuroot.Ownership.{emuroot_owner_lookup}
use emuroot.Guest.{c_string}
use emuroot.Kernel.{Kernel, Stop, StatLayout, le, le_bytes}

abbrev pub statx_layout : StatLayout
statx_layout = record { uid = 20; gid = 24; dev = 136; ino = 32; statx = true }

-- glibc's makedev; the parts stand in bits of their own.
unfoldable pub makedev : ℕ → ℕ → ℕ
makedev major minor =
    major / 0x1000 * 0x1000 * 2 ^ 32
    + major % 0x1000 * 256
    + minor / 256 * 256 * 0x1000
    + minor % 256

module _ {W : Type 0} (k : Kernel W) where
  -- guest_write, and whether all is written
  abbrev pub write_to : Stop W → ℕ → List ℕ → Stop W × Bool
  write_to s addr text =
      let (w, done) = k.write s.world s.t.pid addr text in (record s { world = w }, done)

  -- `EMU_RET(*regs) = v`, and regs_set
  abbrev pub set_ret : Stop W → ℕ → Stop W
  set_ret s v = record s { regs = record s.regs { ret = v } }

  -- The number in n bytes of the guest, if all can be read.
  unfoldable pub word_at : Stop W → ℕ → ℕ → Option ℕ
  word_at s addr n =
      let got = k.read s.world s.t.pid addr n in if length got == n then some (le got) else none

  -- The device in a stat buffer; of the kernel's one, four bytes are enough.
  unfoldable pub device_at : Stop W → ℕ → StatLayout → Option ℕ
  device_at s buf l =
      let got = k.read s.world s.t.pid (buf + l.dev) 8 in
      if l.statx
      then elim (word_at s (buf + l.dev) 4) [
        | none ↦ none
        | some major ↦ elim (word_at s (buf + l.dev + 4) 4) [
          | none ↦ none
          | some minor ↦ some (makedev major minor)
        ]
      ]
      else if ltb (length got) 4
      then none
      else some (le got)

  -- What a stat buffer tells of the file: uid, gid, dev and ino.
  unfoldable pub identity_at : Stop W → ℕ → StatLayout → Option (ℕ × ℕ × ℕ × ℕ)
  identity_at s buf l = elim (word_at s (buf + l.uid) 4) [
    | none ↦ none
    | some uid ↦ elim (word_at s (buf + l.gid) 4) [
      | none ↦ none
      | some gid ↦ elim (word_at s (buf + l.ino) 8) [
        | none ↦ none
        | some ino ↦ elim (device_at s buf l) [ none ↦ none | some dev ↦ some (uid, gid, dev, ino) ]
      ]
    ]
  ]

  unfoldable pub fake_owner : Stop W → ℕ → StatLayout → Stop W
  fake_owner s buf l = if buf == 0 then s else elim (identity_at s buf l) [
    | none ↦ s
    | some (uid, gid, dev, ino) ↦ elim (emuroot_owner_lookup s.owners dev ino) [
      | some (u, g) ↦
          let s1 = (write_to s (buf + l.uid) (le_bytes 4 u)).0 in
          (write_to s1 (buf + l.gid) (le_bytes 4 g)).0
      | none ↦
          let s1 =
            if uid == k.euid then (write_to s (buf + l.uid) (le_bytes 4 s.ctx.fake_uid)).0 else s in
          if gid == k.egid then (write_to s1 (buf + l.gid) (le_bytes 4 s.ctx.fake_gid)).0 else s1
    ]
  ]

  -- The text that the link is to have for the guest.
  unfoldable pub link_answer : Stop W → List ℕ → Option (List ℕ)
  link_answer s host =
      if s.t.proc_link_exe && not (length s.t.exe == 0)
      then some s.t.exe
      else host_to_guest s.ctx s.t.root host path_len

  -- `len` is the kernel's answer, above zero.
  unfoldable pub map_proc_link : Stop W → ℕ → Stop W
  map_proc_link s len =
      let at = if is_call k.abi nr_readlinkat s.t.sysno then 1 else 0 in
      let buf = reg_arg s.t.args (2 + at) in
      let size = reg_arg s.t.args (3 + at) in
      let got = k.read s.world s.t.pid buf len in
      if leb path_len len || not (length got == len)
      then s
      else elim (link_answer s (c_string got)) [
        | none ↦ s
        | some answer ↦
            let (s', done) = write_to s buf (take size answer) in
            if done then set_ret s' (length (take size answer)) else s'
      ]
