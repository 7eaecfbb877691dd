-- ===== src/Exec/Pointers.antt =====
-- src/exec.c, the end of emuroot_rewrite_exec: what stands at the pointers of the new argv.
use emuroot.Base.{ℕ, ◌≡◌, List, get_or}
use emuroot.Exec.{Earg, made, guest}

-- The i-th argument is a text that has been made up.
abbrev pub IsMade : List Earg → ℕ → List ℕ → Type 0
IsMade args i text = get_or args i (guest 0) ≡ made text
