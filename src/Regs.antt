-- ===== src/Regs.antt =====
-- src/arch.h: the arguments of a system call in a register set, whatever the machine's layout is.
pub mod Machines
pub mod Mode
mod Examples
use emuroot.Base.{ℕ, ◌==◌, if◌then◌else◌}

-- The six arguments of a call, as `reg_arg` numbers them: 1 to 5, and any other number the sixth.
pub record Args : Type 0 where
  pub arg1 : ℕ
  pub arg2 : ℕ
  pub arg3 : ℕ
  pub arg4 : ℕ
  pub arg5 : ℕ
  pub arg6 : ℕ

unfoldable pub reg_arg : Args → ℕ → ℕ
reg_arg r n =
    if n == 1
    then r.arg1
    else if n == 2
    then r.arg2
    else if n == 3
    then r.arg3
    else if n == 4
    then r.arg4
    else if n == 5
    then r.arg5
    else r.arg6

-- `*reg_arg(r, n) = v`
unfoldable pub set_arg : Args → ℕ → ℕ → Args
set_arg r n v =
    if n == 1
    then record r { arg1 = v }
    else if n == 2
    then record r { arg2 = v }
    else if n == 3
    then record r { arg3 = v }
    else if n == 4
    then record r { arg4 = v }
    else if n == 5
    then record r { arg5 = v }
    else record r { arg6 = v }
