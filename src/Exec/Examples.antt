-- ===== src/Exec/Examples.antt =====
-- The line "#!/bin/sh -e", and the arguments of a program that is run by its loader.
use emuroot.Base.{◌≡◌, refl, some, List, [], ◌∷◌, arith}
use emuroot.Cstring.{bytes}
use emuroot.Exec.{Earg, made, guest, is_blank, parse_shebang}
use emuroot.Exec.Shebang.{is_word, is_line, shebang_round_trip}

-- The carriage return of a script with DOS line ends is not part of the argument.
shebang_round_trip_example :
    parse_shebang (bytes "#!/bin/sh -e\r\necho") ≡ some (bytes "/bin/sh", some (bytes "-e"))
unfolding is_word is_line is_blank
shebang_round_trip_example =
    shebang_round_trip b'/' b'-' (bytes "bin/sh") (bytes "e") (b'\r' ∷ []) (bytes "echo") refl refl
      refl refl (ground arith) (ground arith) (omega arith)

-- A loader, --argv0, and a pointer of the guest between two texts.
abbrev new_argv : List Earg
new_argv = made (bytes "/lib/ld.so") ∷ guest 4096 ∷ made (bytes "/bin/x") ∷ []
