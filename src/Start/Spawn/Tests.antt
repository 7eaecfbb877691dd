-- ===== src/Start/Spawn/Tests.antt =====
-- A supervisor with open descriptors, of which the listing's own is 5.
use emuroot.Base.{ℕ, ◌≡◌, refl, true, false, none, some, List, [], ◌∷◌, pos, negsuc, arith}
use emuroot.Start.{supervisor_code}
use emuroot.Start.Spawn.{
  closes, supervisor, emuroot_spawn, opts_or_default, fails, exits, refused, close_below,
  close_inherited_fds, open_max,
}
use emuroot.Start.Spawn.Closing.{kept, standard, close_inherited_fds_lem}

abbrev opened : List ℕ
opened = 0 ∷ 1 ∷ 2 ∷ 3 ∷ 5 ∷ 17 ∷ []

stay : kept 5 opened ≡ 0 ∷ 1 ∷ 2 ∷ 5 ∷ []
unfolding kept closes
stay = refl

close_inherited_fds_lem_example :
    close_inherited_fds (some 5) (pos 1024) 8 (0 ∷ 1 ∷ 2 ∷ 3 ∷ 5 ∷ 17 ∷ [])
    ≡ some (standard (0 ∷ 1 ∷ 2 ∷ 3 ∷ 17 ∷ []))
close_inherited_fds_lem_example =
    close_inherited_fds_lem 5 7 (pos 1024) (0 ∷ 1 ∷ 2 ∷ 3 ∷ []) (17 ∷ []) (omega arith)
      (omega arith) (omega arith)

standard_only : standard (0 ∷ 1 ∷ 2 ∷ 3 ∷ 17 ∷ []) ≡ 0 ∷ 1 ∷ 2 ∷ []
unfolding standard
standard_only = refl

-- Without /proc, descriptors at and above 65536 stay open.
unlisted : close_inherited_fds none (pos 100000) 0 (2 ∷ 3 ∷ 65536 ∷ []) ≡ some (2 ∷ 65536 ∷ [])
unfolding close_inherited_fds close_below open_max
unlisted = refl

failing_run : emuroot_spawn true (pos 0) (λ fd to. true) none (negsuc 3) ≡ exits 127
unfolding emuroot_spawn supervisor opts_or_default fails supervisor_code
failing_run = refl

no_arguments : emuroot_spawn false (pos 0) (λ fd to. true) none (pos 0) ≡ refused 22
unfolding emuroot_spawn
no_arguments = refl
