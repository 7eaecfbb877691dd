-- ===== src/Exit/Effects.antt =====
-- src/fake.c, emuroot_on_exit: what the cases of the credential calls do to a process's fake ids.
use emuroot.Base.{
  ℕ, ◌≡◌, refl, inl, inr, not, ◌&&◌, Option, List, [], ◌∷◌, ltb, leb, ◌==◌, ℤ, pos, negsuc,
  Bool-cases, Option-cases,
}
use emuroot.Creds.{Creds, creds_max_groups}
use emuroot.Creds.Calls.{
  Call, call, run, setuid, setgid, setreuid, setregid, setresuid, setresgid, setgroups, setfsuid,
  setfsgid,
}
use emuroot.Regs.{Args}
use emuroot.Syscalls.{
  Action, a_getuid, a_geteuid, a_getgid, a_getegid, a_getresuid, a_getresgid, a_getgroups, a_setuid,
  a_setgid, a_setreuid, a_setregid, a_setresuid, a_setresgid, a_setgroups, a_setfsuid, a_setfsgid,
  a_chown, a_stat_2, a_stat_3, a_statx, a_getcwd, a_chroot, a_mount, a_umount, a_readlink, a_execve,
  a_uname,
}
use emuroot.Exit.{to_u32, to_long, long_below, exit_getgroups, exit_setgroups, exit_creds}

exit_getgroups_creds : (c : Creds) (a : Args) → (exit_getgroups c a).creds ≡ c
unfolding exit_getgroups
exit_getgroups_creds c a = elim (Bool-cases (not (a.arg1 == 0) && long_below a.arg1 c.ngroups)) [
  | inl e ↦ rw e refl
  | inr e ↦ rw e refl
]

exit_setgroups-run :
    (read : ℕ → ℕ → Option (List ℕ)) (c : Creds) (a : Args)
    → (ks : List Call) × ((exit_setgroups read c a).creds ≡ run c ks)
unfolding run call exit_setgroups
exit_setgroups-run read c a = go (to_long a.arg1) refl
  where
    go :
        (n : ℤ)
        → to_long a.arg1 ≡ n
        → (ks : List Call) × ((exit_setgroups read c a).creds ≡ run c ks)
    go (negsuc m) e = (setgroups [] (negsuc m) ∷ [], rw (e, exit_setgroups) refl)
    go (pos n) e = elim (Bool-cases (ltb 0 n && leb n creds_max_groups)) [
      | inr out ↦ (setgroups [] (pos n) ∷ [], rw (e, exit_setgroups) (rw out refl))
      | inl fits ↦ elim (Option-cases (read a.arg2 n)) [
        | inl fault ↦ ([], rw (e, exit_setgroups) (rw fits (rw (fault, exit_setgroups) refl)))
        | inr (list, got) ↦ (
          setgroups list (pos n) ∷ [],
          rw (e, exit_setgroups) (rw fits (rw (got, exit_setgroups) refl)),
        )
      ]
    ]

-- Whatever call returns, the process's credentials are those after a sequence of credential calls.
pub exit_creds-run :
    (read : ℕ → ℕ → Option (List ℕ)) (c : Creds) (action : Action) (a : Args) (ret : ℤ)
    → (ks : List Call) × ((exit_creds read c action a ret).creds ≡ run c ks)
unfolding exit_creds run call
exit_creds-run read c a_getuid a ret = ([], refl)
exit_creds-run read c a_geteuid a ret = ([], refl)
exit_creds-run read c a_getgid a ret = ([], refl)
exit_creds-run read c a_getegid a ret = ([], refl)
exit_creds-run read c a_getresuid a ret = ([], refl)
exit_creds-run read c a_getresgid a ret = ([], refl)
exit_creds-run read c a_getgroups a ret = ([], exit_getgroups_creds c a)
exit_creds-run read c a_setuid a ret = (setuid (to_u32 a.arg1) ∷ [], refl)
exit_creds-run read c a_setgid a ret = (setgid (to_u32 a.arg1) ∷ [], refl)
exit_creds-run read c a_setreuid a ret = (setreuid (to_u32 a.arg1) (to_u32 a.arg2) ∷ [], refl)
exit_creds-run read c a_setregid a ret = (setregid (to_u32 a.arg1) (to_u32 a.arg2) ∷ [], refl)
exit_creds-run read c a_setresuid a ret =
    (setresuid (to_u32 a.arg1) (to_u32 a.arg2) (to_u32 a.arg3) ∷ [], refl)
exit_creds-run read c a_setresgid a ret =
    (setresgid (to_u32 a.arg1) (to_u32 a.arg2) (to_u32 a.arg3) ∷ [], refl)
exit_creds-run read c a_setgroups a ret = exit_setgroups-run read c a
exit_creds-run read c a_setfsuid a ret = (setfsuid (to_u32 a.arg1) ∷ [], refl)
exit_creds-run read c a_setfsgid a ret = (setfsgid (to_u32 a.arg1) ∷ [], refl)
exit_creds-run read c a_chown a ret = ([], refl)
exit_creds-run read c a_stat_2 a ret = ([], refl)
exit_creds-run read c a_stat_3 a ret = ([], refl)
exit_creds-run read c a_statx a ret = ([], refl)
exit_creds-run read c a_getcwd a ret = ([], refl)
exit_creds-run read c a_chroot a ret = ([], refl)
exit_creds-run read c a_mount a ret = ([], refl)
exit_creds-run read c a_umount a ret = ([], refl)
exit_creds-run read c a_readlink a ret = ([], refl)
exit_creds-run read c a_execve a ret = ([], refl)
exit_creds-run read c a_uname a ret = ([], refl)
