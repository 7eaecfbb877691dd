-- ===== src/Regs/Examples.antt =====
-- The register sets of two machines.
use emuroot.Base.{ℕ, ◌≡◌, refl, true, false, List, replicate, arith}
use emuroot.Regs.{reg_arg, set_arg}
use emuroot.Regs.Machines.{x86_64, aarch64, places, args_in, write_arg, write_arg_lem, shares_ret}

-- The exit of a call finds its first argument in the registers on the one, and not on the other.
x86_64-shares_ret : shares_ret x86_64 ≡ false
unfolding shares_ret places
x86_64-shares_ret = refl

aarch64-shares_ret : shares_ret aarch64 ≡ true
unfolding shares_ret places
aarch64-shares_ret = refl

abbrev cleared : List ℕ
unfolding replicate
cleared = replicate 34 0

write_arg_lem_example :
    reg_arg (args_in aarch64 (write_arg aarch64 cleared 2 4096)) 2
    ≡ reg_arg (set_arg (args_in aarch64 cleared) 2 4096) 2
unfolding places cleared
write_arg_lem_example =
    write_arg_lem aarch64 cleared 2 2 4096 refl (omega arith) (omega arith) (omega arith)
      (omega arith)
