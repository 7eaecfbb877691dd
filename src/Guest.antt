-- ===== src/Guest.antt =====
-- src/guest.c: access to a stopped process's memory. What each way of access answers is an argument.
pub mod Ways
pub mod Texts
pub mod Peek
mod Examples
use emuroot.Cstring.{bytes, str_eq}
use emuroot.Base.{
  ℕ, zero, suc, ◌+◌, ◌-◌, Bool, true, false, not, ◌&&◌, ◌||◌, Option, none, some, List, [], ◌∷◌,
  ◌++◌, ltb, ◌==◌, if◌then◌else◌, length,
}

-- `enum method`
pub data Method : Type 0 where
  process_vm proc_mem peek_poke : Method

-- What an attempt answers: the number of bytes, or -1 and an errno.
pub data Attempt : Type 0 where
  moved : ℕ → Attempt
  failed : ℕ → Attempt

abbrev is_text : Option (List ℕ) → List ℕ → Bool
is_text none t = false
is_text (some s) t = str_eq s t

unfoldable pub denied : ℕ → Bool
denied err = not (err == 14) && not (err == 3) && not (err == 5) && not (err == 22)

-- The system call where the C library knows its number, and ENOSYS where it does not.
unfoldable pub emuroot_process_vm : Bool → Attempt → Attempt
emuroot_process_vm has_call answer = if has_call then answer else failed 38

-- The method in use; the first call decides it by EMUROOT_GUEST_MEM and EMUROOT_NO_PROCESS_VM.
unfoldable pub current : Option (List ℕ) → Bool → Option Method → Method
current want no_process_vm (some method) = method
current want no_process_vm none =
    if is_text want (bytes "peek")
    then peek_poke
    else if no_process_vm || is_text want (bytes "procmem")
    then proc_mem
    else process_vm

-- What open answers, as an errno if it fails, and what pread or pwrite answers.
unfoldable pub proc_mem_access : Option ℕ → Attempt → Attempt
proc_mem_access none moved_n = moved_n
proc_mem_access (some err) moved_n = failed err

-- One round of the loop: the answer of a way, unless it is denied and there is a next one.
unfoldable pub round : (Method → Attempt) → Method → Method × Attempt → Method × Attempt
round try m next = elim (try m) [
  | moved n ↦ (m, moved n)
  | failed err ↦ if denied err then next else (m, failed err)
]

-- From the method that is current: the one that is current afterwards, and the answer.
unfoldable pub transfer : (Method → Attempt) → Method → Method × Attempt
transfer try peek_poke = (peek_poke, try peek_poke)
transfer try proc_mem = round try proc_mem (peek_poke, try peek_poke)
transfer try process_vm = round try process_vm (round try proc_mem (peek_poke, try peek_poke))

-- What the ways of access answer, as the loop calls them.
unfoldable pub attempts : Bool → Attempt → Option ℕ → Attempt → Attempt → Method → Attempt
attempts has_call vm opened io peeked process_vm = emuroot_process_vm has_call vm
attempts has_call vm opened io peeked proc_mem = proc_mem_access opened io
attempts has_call vm opened io peeked peek_poke = peeked

unfoldable pub guest_read : (Method → Attempt) → Method → Method × Attempt
guest_read try method = transfer try method

-- Whether the write has worked: all of it has been moved.
unfoldable pub guest_write : (Method → Attempt) → Method → ℕ → Method × Bool
guest_write try method len =
    let (method', result) = transfer try method in
    (method', elim result [ moved n ↦ n == len | failed err ↦ false ])

-- The bytes before the first NUL, and whether there is one.
unfoldable pub has_nul : List ℕ → Bool
has_nul [] = false
has_nul (x ∷ s) = if x == 0 then true else has_nul s

unfoldable pub c_string : List ℕ → List ℕ
c_string [] = []
c_string (x ∷ s) = if x == 0 then [] else x ∷ c_string s

-- `left < 128 ? left : 128`
unfoldable pub chunk_len : ℕ → ℕ
chunk_len left = if ltb left 128 then left else 128

-- What is in the buffer after a chunk of the `want` bytes asked for, where `rest` is what there is
-- when the loop goes on.
unfoldable pub after_chunk : List ℕ → List ℕ → ℕ → List ℕ → List ℕ
after_chunk buf chunk want rest =
    if length chunk == 0
    then buf
    else if has_nul chunk
    then buf ++ chunk
    else if ltb (length chunk) want
    then buf ++ chunk
    else rest

-- The loop of guest_read_str after the bytes `buf`, with fuel. `read addr n` is at most n bytes, and
-- no byte where guest_read has nothing or fails.
unfoldable pub read_chunks : (ℕ → ℕ → List ℕ) → ℕ → ℕ → ℕ → List ℕ → List ℕ
read_chunks read addr size zero buf = buf
read_chunks read addr size (suc fuel) buf =
    let want = chunk_len (size - 1 - length buf) in
    let chunk = read (addr + length buf) want in
    let rest = read_chunks read addr size fuel (buf ++ chunk) in
    if not (ltb (length buf + 1) size) then buf else after_chunk buf chunk want rest

-- None where the C function returns -1. A round that does not end the loop reads a byte at least.
unfoldable pub guest_read_str : (ℕ → ℕ → List ℕ) → ℕ → ℕ → Option (List ℕ)
guest_read_str read addr size =
    let buf = read_chunks read addr size size [] in
    if length buf == 0 then none else some (c_string buf)
