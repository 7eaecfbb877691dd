-- ===== src/Regs/Machines.antt =====
-- src/arch.h: where each machine's register set keeps the roles of a system call. A register set is
-- the list of its words, in the order of emuroot_regs_t.
use emuroot.Base.{
  ℕ, ◌+◌, ◌≤◌, ◌<◌, ◌≡◌, sym, ◌∙◌, ap, ◌≢◌, inl, inr, Bool, List, ◌==◌, length, get_or, set,
  Bool-cases, ==_iff, arith, get_or-set_self, get_or-set_ne,
}
use emuroot.Regs.{Args, reg_arg, set_arg}

pub data Machine : Type 0 where
  x86_64 i386 aarch64 arm riscv64 loongarch64 ppc64le s390x : Machine

-- The places of the roles in a register set of so many words.
pub record Places : Type 0 where
  pub words : ℕ
  pub sysno : ℕ
  pub ret : ℕ
  pub args : Args
  pub sp : ℕ

-- Six places one behind another.
abbrev row : ℕ → Args
row a = record { arg1 = a; arg2 = a + 1; arg3 = a + 2; arg4 = a + 3; arg5 = a + 4; arg6 = a + 5 }

unfoldable pub places : Machine → Places
places x86_64 = record {
  words = 20;
  sysno = 15;
  ret = 10;
  args = record { arg1 = 14; arg2 = 13; arg3 = 12; arg4 = 7; arg5 = 9; arg6 = 8 };
  sp = 19;
}
places i386 = record { words = 17; sysno = 11; ret = 6; args = row 0; sp = 15 }
places aarch64 = record { words = 34; sysno = 8; ret = 0; args = row 0; sp = 31 }
places arm = record { words = 18; sysno = 7; ret = 0; args = row 0; sp = 13 }
places riscv64 = record { words = 18; sysno = 17; ret = 10; args = row 10; sp = 2 }
places loongarch64 = record { words = 33; sysno = 11; ret = 4; args = row 4; sp = 3 }
places ppc64le = record { words = 16; sysno = 0; ret = 3; args = row 3; sp = 1 }
places s390x = record { words = 18; sysno = 3; ret = 4; args = row 4; sp = 17 }

-- The arguments that a register set holds.
unfoldable pub args_in : Machine → List ℕ → Args
args_in m raw =
    let p = (places m).args in
    record {
      arg1 = get_or raw p.arg1 0;
      arg2 = get_or raw p.arg2 0;
      arg3 = get_or raw p.arg3 0;
      arg4 = get_or raw p.arg4 0;
      arg5 = get_or raw p.arg5 0;
      arg6 = get_or raw p.arg6 0;
    }

-- `*reg_arg(regs, n) = v` in the register set itself
unfoldable pub write_arg : Machine → List ℕ → ℕ → ℕ → List ℕ
write_arg m raw n v = set raw (reg_arg (places m).args n) v

-- An argument that is set is read back.
pub reg_arg-set_arg : (r : Args) (n v : ℕ) → reg_arg (set_arg r n v) n ≡ v
unfolding reg_arg set_arg
reg_arg-set_arg r n v = ground arith

reg_arg-set_arg_ne :
    (r : Args) (n j v : ℕ)
    → n ≢ 0
    → j ≢ 0
    → n ≤ 6
    → j ≤ 6
    → n ≢ j
    → reg_arg (set_arg r n v) j ≡ reg_arg r j
unfolding reg_arg set_arg
reg_arg-set_arg_ne r n j v a b c d apart = ground arith

reg_arg-args_in :
    (m : Machine) (raw : List ℕ) (n : ℕ)
    → reg_arg (args_in m raw) n ≡ get_or raw (reg_arg (places m).args n) 0
unfolding args_in reg_arg
reg_arg-args_in m raw n = ground arith

place_inside : (m : Machine) (n : ℕ) → reg_arg (places m).args n < (places m).words
unfolding places reg_arg
place_inside x86_64 n = ground arith
place_inside i386 n = ground arith
place_inside aarch64 n = ground arith
place_inside arm n = ground arith
place_inside riscv64 n = ground arith
place_inside loongarch64 n = ground arith
place_inside ppc64le n = ground arith
place_inside s390x n = ground arith

places_apart :
    (m : Machine) (i j : ℕ)
    → i ≢ 0
    → j ≢ 0
    → i ≤ 6
    → j ≤ 6
    → i ≢ j
    → reg_arg (places m).args i ≢ reg_arg (places m).args j
unfolding places reg_arg
places_apart x86_64 i j a b c d e = ground arith
places_apart i386 i j a b c d e = ground arith
places_apart aarch64 i j a b c d e = ground arith
places_apart arm i j a b c d e = ground arith
places_apart riscv64 i j a b c d e = ground arith
places_apart loongarch64 i j a b c d e = ground arith
places_apart ppc64le i j a b c d e = ground arith
places_apart s390x i j a b c d e = ground arith

-- An argument that is written into a register set is what the model's Args make of it, on each machine:
-- it is read back, and every other argument is left.
pub write_arg_lem :
    (m : Machine) (raw : List ℕ) (n j v : ℕ)
    → length raw ≡ (places m).words
    → n ≢ 0
    → j ≢ 0
    → n ≤ 6
    → j ≤ 6
    → reg_arg (args_in m (write_arg m raw n v)) j ≡ reg_arg (set_arg (args_in m raw) n v) j
unfolding write_arg
write_arg_lem m raw n j v full a b c d =
    let at = reg_arg-args_in m (write_arg m raw n v) j in
    let inside : reg_arg (places m).args n < length raw = omega (arith, place_inside m n, full) in
    elim (Bool-cases (n == j)) [
      | inl e ↦
          let same = (==_iff n j).0 e in
          at
          ∙ ap (λ p. get_or (write_arg m raw n v) p 0) (ap (reg_arg (places m).args) (sym same))
          ∙ get_or-set_self raw _ v 0 inside
          ∙ sym (reg_arg-set_arg (args_in m raw) n v)
          ∙ ap (reg_arg (set_arg (args_in m raw) n v)) same
      | inr e ↦
          let apart : n ≢ j = λ q. cc (sym e ∙ (==_iff n j).1 q) in
          at
          ∙ get_or-set_ne raw _ _ v 0 (places_apart m n j a b c d apart)
          ∙ sym (reg_arg-args_in m raw j)
          ∙ sym (reg_arg-set_arg_ne (args_in m raw) n j v a b c d apart)
    ]

-- Whether the result of a call takes the place of its first argument.
unfoldable pub shares_ret : Machine → Bool
shares_ret m = (places m).ret == (places m).args.arg1
