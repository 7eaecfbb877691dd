-- ===== src/Rewrite/Sockets.antt =====
-- src/rewrite.c, rewrite_sockaddr: the path in the address of a unix socket. A sockaddr_un is two
-- bytes of family and 108 of path.
use emuroot.Base.{
  ℕ, ◌+◌, ◌-◌, true, not, ◌||◌, Option, none, some, List, ◌++◌, ltb, leb, ◌==◌, if◌then◌else◌,
  length, take, drop, replicate,
}
use emuroot.Cstring.{slash, char_at, snprintf}
use emuroot.Context.{path_len}
use emuroot.Guest.{c_string}
use emuroot.Kernel.{Kernel, Stop, le}
use emuroot.Rewrite.Paths.{arg_of, put_arg, translate, fail_closed, to_scratch}

abbrev pub sun_size : ℕ
sun_size = 110

abbrev pub sun_path_size : ℕ
sun_path_size = 108

-- `sun.sun_path` set to the text and zeros behind it
unfoldable pub with_path : List ℕ → List ℕ → List ℕ
with_path sun host = take 2 sun ++ host ++ replicate (sun_path_size - length host) 0

module _ {W : Type 0} (k : Kernel W) where
  -- The address that is read, padded with zeros; none where the function returns before it looks.
  unfoldable pub sockaddr_of : Stop W → ℕ → ℕ → Option (List ℕ)
  sockaddr_of s addr given =
      let len = if ltb given sun_size then given else sun_size in
      let got = k.read s.world s.t.pid addr len in
      let sun = got ++ replicate (sun_size - len) 0 in
      if addr == 0 || leb len 2
      then none
      else if not (length got == len) || not (le (take 2 sun) == 1) || not (char_at sun 2 == slash)
      then none
      else some sun

  unfoldable pub rewrite_sun : Stop W → ℕ → ℕ → List ℕ → Stop W
  rewrite_sun s addr_slot len_slot sun =
      let r = translate k s true (snprintf path_len (c_string (take sun_path_size (drop 2 sun)))) in
      if not r.differs || leb sun_path_size (length r.out)
      then s
      else let (s', at) = to_scratch k s (with_path sun r.out) in
        elim at [
          | none ↦ fail_closed k s' addr_slot
          | some addr ↦ put_arg k (put_arg k s' addr_slot addr) len_slot (2 + length r.out + 1)
        ]

  unfoldable pub rewrite_sockaddr : Stop W → ℕ → ℕ → Stop W
  rewrite_sockaddr s addr_slot len_slot =
      elim (sockaddr_of s (arg_of k s addr_slot) (arg_of k s len_slot)) [
        | none ↦ s
        | some sun ↦ rewrite_sun s addr_slot len_slot sun
      ]
