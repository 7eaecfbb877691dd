-- ===== src/Guest/Examples.antt =====
-- A kernel that refuses the first two ways of access, and a memory with the text "hi" at 4096.
use emuroot.Base.{ℕ, ◌≡◌, some, ◌==◌, if◌then◌else◌, arith}
use emuroot.Guest.{
  Method, process_vm, proc_mem, peek_poke, Attempt, moved, failed, c_string, guest_read_str,
}
use emuroot.Guest.Texts.{bytes_at, guest_read_str_lem}

-- EPERM from the first two
unfoldable only_peek : Method → Attempt
only_peek process_vm = failed 1
only_peek proc_mem = failed 13
only_peek peek_poke = moved 8

unfoldable hi_at : ℕ → ℕ
hi_at a = if a == 4096 then b'h' else if a == 4097 then b'i' else 0

guest_read_str_lem_example :
    guest_read_str (bytes_at hi_at) 4096 4096 ≡ some (c_string (bytes_at hi_at 4096 4095))
guest_read_str_lem_example = guest_read_str_lem hi_at 4096 4096 (omega arith)
