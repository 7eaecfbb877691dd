-- ===== src/Ownership.antt =====
-- src/ownership.c: the fake ownership table, open addressing over a power-of-two array. The fields
-- are 64-bit (dev, ino) and 32-bit (uid, gid) numbers. What calloc answers is an argument.
pub mod Mask
pub mod Search
pub mod Store
pub mod Arrays
pub mod Growth
pub mod Refine
pub mod Map
pub mod Text
mod Examples
use emuroot.Base.{
  ℕ, zero, suc, ◌+◌, ◌-◌, ◌*◌, ◌/◌, ◌%◌, ◌^◌, Bool, true, false, not, ◌&&◌, ◌||◌, Option, none,
  some, List, [], ◌∷◌, ltb, ◌==◌, if◌then◌else◌, get_or, set, replicate, bit_and, bit_xor,
}
use emuroot.Ownership.Text.{Row, scan_rows, print_rows}

pub record Entry : Type 0 where
  pub dev : ℕ
  pub ino : ℕ
  pub uid : ℕ
  pub gid : ℕ
  pub used : Bool

-- `cap` is the length of `slots`.
pub record Db : Type 0 where
  pub slots : List Entry
  pub cap : ℕ
  pub count : ℕ

-- What calloc leaves.
abbrev pub zero_entry : Entry
zero_entry = record { dev = 0; ino = 0; uid = 0; gid = 0; used = false }

abbrev pub empty_db : Db
empty_db = record { slots = []; cap = 0; count = 0 }

abbrev pub entry_at : List Entry → ℕ → Entry
entry_at slots i = get_or slots i zero_entry

-- `size_t` has 64 bits.
unfoldable pub hash_of : ℕ → ℕ → ℕ
hash_of dev ino =
    let h = bit_xor ((dev * 0x9E3779B97F4A7C15) % 2 ^ 64) ((ino * 0xC2B2AE3D27D4EB4F) % 2 ^ 64) in
    bit_xor h (h / 2 ^ 29)

-- `!e->used || (e->dev == dev && e->ino == ino)`
unfoldable pub is_slot_for : Entry → ℕ → ℕ → Bool
is_slot_for e dev ino = not e.used || (e.dev == dev && e.ino == ino)

-- The loop of find_slot from the index i, with fuel; none when that runs out.
unfoldable pub probe : List Entry → ℕ → ℕ → ℕ → ℕ → ℕ → Option ℕ
probe slots mask dev ino zero i = none
probe slots mask dev ino (suc fuel) i =
    let next = probe slots mask dev ino fuel (bit_and (i + 1) mask) in
    if is_slot_for (entry_at slots i) dev ino then some i else next

-- The index of the slot; the table's length is fuel enough while a slot is free.
unfoldable pub find_slot : List Entry → ℕ → ℕ → ℕ → Option ℕ
find_slot slots cap dev ino =
    probe slots (cap - 1) dev ino cap (bit_and (hash_of dev ino) (cap - 1))

-- `*find_slot(db, dev, ino) = e`
unfoldable pub put_slot : List Entry → ℕ → Entry → List Entry
put_slot slots cap e = elim (find_slot slots cap e.dev e.ino) [
  | none ↦ slots
  | some i ↦ set slots i e
]

-- The loop that moves the used entries of the old array.
unfoldable pub rehash : List Entry → List Entry → ℕ → List Entry
rehash [] slots cap = slots
rehash (e ∷ old) slots cap = rehash old (if e.used then put_slot slots cap e else slots) cap

-- The owner, or none where the C function returns 0.
unfoldable pub emuroot_owner_lookup : Option Db → ℕ → ℕ → Option (ℕ × ℕ)
emuroot_owner_lookup none dev ino = none
emuroot_owner_lookup (some db) dev ino =
    if db.count == 0 then none else elim (find_slot db.slots db.cap dev ino) [
      | none ↦ none
      | some i ↦ let e = entry_at db.slots i in if not e.used then none else some (e.uid, e.gid)
    ]

-- Doubles the array; none where calloc has no room for the new one.
unfoldable pub grow : Db → Bool → Option Db
grow db room =
    let cap = if db.cap == 0 then 1024 else db.cap * 2 in
    if room
    then some (record {
      slots = rehash db.slots (replicate cap zero_entry) cap;
      cap = cap;
      count = db.count;
    })
    else none

-- The end of emuroot_owner_set, once there is room.
unfoldable pub store : Db → ℕ → ℕ → ℕ → ℕ → Db
store db dev ino uid gid = elim (find_slot db.slots db.cap dev ino) [
  | none ↦ db
  | some i ↦
      let e : Entry = record { dev = dev; ino = ino; uid = uid; gid = gid; used = true } in
      record db {
        slots = set db.slots i e;
        count = if (entry_at db.slots i).used then db.count else db.count + 1;
      }
]

unfoldable pub set_in : Db → Bool → ℕ → ℕ → ℕ → ℕ → Db
set_in db room dev ino uid gid =
    if ltb db.cap ((db.count + 1) * 2)
    then elim (grow db room) [ none ↦ db | some db' ↦ store db' dev ino uid gid ]
    else store db dev ino uid gid

-- `fresh` is calloc's answer for the table itself, `room` for an array.
unfoldable pub emuroot_owner_set : Option Db → Bool → Bool → ℕ → ℕ → ℕ → ℕ → Option Db
emuroot_owner_set none fresh room dev ino uid gid =
    if fresh then some (set_in empty_db room dev ino uid gid) else none
emuroot_owner_set (some db) fresh room dev ino uid gid = some (set_in db room dev ino uid gid)

-- The loop of emuroot_owners_save: the lines that it prints, in the order of the slots.
unfoldable pub saved_rows : List Entry → List Row
saved_rows [] = []
saved_rows (e ∷ es) =
    let rest = saved_rows es in if e.used then (e.dev, e.ino, e.uid, e.gid) ∷ rest else rest

-- The loop of emuroot_owners_load over the lines that fscanf reads.
unfoldable pub load_rows : Option Db → Bool → Bool → List Row → Option Db
load_rows db fresh room [] = db
load_rows db fresh room ((dev, ino, uid, gid) ∷ rows) =
    load_rows (emuroot_owner_set db fresh room dev ino uid gid) fresh room rows

-- The file's text, none where it cannot be opened for reading
unfoldable pub emuroot_owners_load : Option Db → Bool → Bool → Option (List ℕ) → Option Db
emuroot_owners_load db fresh room none = db
emuroot_owners_load db fresh room (some text) = load_rows db fresh room (scan_rows 0 text)

-- The text that the file has afterwards, none where there is no table or the file cannot be opened for
-- writing: then it is left alone.
unfoldable pub emuroot_owners_save : Option Db → (opens : Bool) → Option (List ℕ)
emuroot_owners_save none opens = none
emuroot_owners_save (some db) opens =
    if opens then some (print_rows (saved_rows db.slots)) else none
