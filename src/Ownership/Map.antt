-- ===== src/Ownership/Map.antt =====
-- src/ownership.c: the operations of the hash table as operations on a map from files to owners.
use Prim.Native.Nat.pow
use emuroot.Base.{
  ℕ, zero, suc, ◌+◌, ◌*◌, ◌^◌, ◌≤◌, ◌≡◌, refl, sym, ◌∙◌, ap, ◌≢◌, ◌⊎◌, inl, inr, Bool, true, false,
  ◌&&◌, Option, none, some, List, [], ◌∷◌, ltb, ◌==◌, if◌then◌else◌, Bool-cases, arith,
  some-injective, subst,
}
use emuroot.Ownership.Text.{Row}
use emuroot.Ownership.Text.Rows.{Fits, AllFit, scan_rows-print_rows}
use emuroot.Ownership.{
  Entry, Db, empty_db, emuroot_owner_lookup, grow, set_in, emuroot_owner_set, saved_rows, load_rows,
  emuroot_owners_load, emuroot_owners_save,
}
use emuroot.Ownership.Arrays.{owner_in}
use emuroot.Ownership.Growth.{scan, scan-owner_in}
use emuroot.Ownership.Refine.{
  IsSound, IsValid, with_owner, IsStored, lookup-owner_in, store_lem, grow_lem, set_grown,
  set_first,
}

power_pos : (k : ℕ) → 2 ^ k ≢ 0
power_pos zero = omega arith
power_pos (suc k) = omega (arith, pow.suc 2 k, power_pos k)

-- What is recorded in a table that is grown or stored into without loss.
IsUpdated : Db → Db → ℕ → ℕ → ℕ → ℕ → Type 0
IsUpdated db db' dev ino uid gid =
    IsValid db'
    × ((dev' ino' : ℕ)
        → emuroot_owner_lookup (some db') dev' ino'
          ≡ with_owner (emuroot_owner_lookup (some db)) dev ino uid gid dev' ino')

stored_in :
    (db db' : Db) (k dev ino uid gid : ℕ)
    → IsSound db k
    → IsStored db' (with_owner (owner_in db.slots (2 ^ k)) dev ino uid gid)
    → IsUpdated db db' dev ino uid gid
unfolding IsUpdated
stored_in db db' k dev ino uid gid s (sound, r) = (
  inr sound,
  λ dev' ino'.
      r dev' ino'
      ∙ ap (λ o. if dev == dev' && ino == ino' then some (uid, gid) else o)
          (sym (lookup-owner_in db k dev' ino' s)),
)

set_sound :
    (db : Db) (k dev ino uid gid : ℕ)
    → IsSound db k
    → IsUpdated db (set_in db true dev ino uid gid) dev ino uid gid
unfolding set_in
set_sound db k dev ino uid gid s = elim (Bool-cases (ltb db.cap ((db.count + 1) * 2))) [
  | inr e ↦
      let fits : (db.count + 1) * 2 ≤ db.cap = ground arith in
      rw e (stored_in db _ k dev ino uid gid s (store_lem db k dev ino uid gid s fits))
  | inl e ↦
      let some_cap : db.cap ≢ 0 = λ z. power_pos k (sym s.power ∙ z) in
      rw (e, grow_lem db k s.power some_cap, set_in)
        (stored_in db _ k dev ino uid gid s (set_grown db k dev ino uid gid s some_cap))
]

set_empty :
    (dev ino uid gid : ℕ)
    → IsUpdated empty_db (set_in empty_db true dev ino uid gid) dev ino uid gid
unfolding IsUpdated set_in grow emuroot_owner_lookup
set_empty dev ino uid gid = let (s, r) = set_first dev ino uid gid in (inr s, r)

set_valid :
    (db : Db) (dev ino uid gid : ℕ)
    → IsValid db
    → IsUpdated db (set_in db true dev ino uid gid) dev ino uid gid
set_valid db dev ino uid gid (inl e) = rw e (set_empty dev ino uid gid)
set_valid db dev ino uid gid (inr (k, s)) = set_sound db k dev ino uid gid s

-- The tables that a context has: none yet, or a valid one.
abbrev pub IsOwners : Option Db → Type 0
IsOwners owners = (db : Db) → owners ≡ some db → IsValid db

-- Where there is memory, recording an owner leaves a valid table, and is what it is on a map: the
-- file has the new owner, and each other file what it had, recorded or not. This holds of the table
-- that a context has not yet, the empty one, and every valid one, grown or not.
pub emuroot_owner_set_lem :
    (owners : Option Db) (dev ino uid gid : ℕ)
    → IsOwners owners
    → IsOwners (emuroot_owner_set owners true true dev ino uid gid)
      × ((dev' ino' : ℕ)
          → emuroot_owner_lookup (emuroot_owner_set owners true true dev ino uid gid) dev' ino'
            ≡ with_owner (emuroot_owner_lookup owners) dev ino uid gid dev' ino')
unfolding emuroot_owner_set emuroot_owner_lookup IsUpdated
emuroot_owner_set_lem none dev ino uid gid valid =
    let (v, r) = set_empty dev ino uid gid in (λ db e. subst IsValid (some-injective e) v, r)
emuroot_owner_set_lem (some db) dev ino uid gid valid =
    let (v, r) = set_valid db dev ino uid gid (valid db refl) in
    (λ db e. subst IsValid (some-injective e) v, r)

-- Without memory, an array that must grow is left as it is.
set_in_room :
    (db : Db) (dev ino uid gid : ℕ)
    → (set_in db false dev ino uid gid ≡ db)
      ⊎ (set_in db false dev ino uid gid ≡ set_in db true dev ino uid gid)
unfolding set_in grow
set_in_room db dev ino uid gid = elim (Bool-cases (ltb db.cap ((db.count + 1) * 2))) [
  | inl e ↦ inl (rw e refl)
  | inr e ↦ inr (rw e refl)
]

-- Whatever calloc answers and whatever the table holds, recording an owner leaves every file's owner
-- as it was, or does exactly what it does with memory at hand: no entry is lost on the way.
pub emuroot_owner_set-memory :
    (owners : Option Db) (fresh room : Bool) (dev ino uid gid : ℕ)
    → ((dev' ino' : ℕ)
        → emuroot_owner_lookup (emuroot_owner_set owners fresh room dev ino uid gid) dev' ino'
          ≡ emuroot_owner_lookup owners dev' ino')
      ⊎ (emuroot_owner_set owners fresh room dev ino uid gid
          ≡ emuroot_owner_set owners true true dev ino uid gid)
unfolding emuroot_owner_set emuroot_owner_lookup
emuroot_owner_set-memory none false room dev ino uid gid = inl (λ dev' ino'. refl)
emuroot_owner_set-memory none true true dev ino uid gid = inr refl
emuroot_owner_set-memory none true false dev ino uid gid =
    elim (set_in_room empty_db dev ino uid gid) [
      | inl e ↦ inl (λ dev' ino'. ap (λ d. emuroot_owner_lookup (some d) dev' ino') e)
      | inr e ↦ inr (ap some e)
    ]
emuroot_owner_set-memory (some db) fresh true dev ino uid gid = inr refl
emuroot_owner_set-memory (some db) fresh false dev ino uid gid =
    elim (set_in_room db dev ino uid gid) [
      | inl e ↦ inl (λ dev' ino'. ap (λ d. emuroot_owner_lookup (some d) dev' ino') e)
      | inr e ↦ inr (ap some e)
    ]

-- What the lines of a saved table say of a file, the later ones over the earlier.
unfoldable pub said : List Row → ℕ → ℕ → Option (ℕ × ℕ) → Option (ℕ × ℕ)
said [] dev' ino' owner = owner
said ((dev, ino, uid, gid) ∷ rows) dev' ino' owner =
    said rows dev' ino' (if dev == dev' && ino == ino' then some (uid, gid) else owner)

-- Reading lines into a valid table, where there is memory, records for each file what the last line
-- about it says, or else what there was: the table is a map however often it has to grow.
pub load_rows_lem :
    (owners : Option Db) (rows : List Row) (dev' ino' : ℕ)
    → IsOwners owners
    → emuroot_owner_lookup (load_rows owners true true rows) dev' ino'
      ≡ said rows dev' ino' (emuroot_owner_lookup owners dev' ino')
unfolding load_rows said
load_rows_lem owners [] dev' ino' valid = refl
load_rows_lem owners ((dev, ino, uid, gid) ∷ rows) dev' ino' valid =
    let (v, r) = emuroot_owner_set_lem owners dev ino uid gid valid in
    load_rows_lem (emuroot_owner_set owners true true dev ino uid gid) rows dev' ino' v
    ∙ ap (said rows dev' ino') (r dev' ino')

said-saved_rows :
    (slots : List Entry) (dev ino : ℕ) (owner : Option (ℕ × ℕ))
    → said (saved_rows slots) dev ino owner ≡ scan slots dev ino owner
unfolding said saved_rows scan
said-saved_rows [] dev ino owner = refl
said-saved_rows (e ∷ slots) dev ino owner = elim (Bool-cases e.used) [
  | inl u ↦ simp u (said-saved_rows slots dev ino _)
  | inr u ↦ simp u (said-saved_rows slots dev ino owner)
]

saved_lem :
    (db : Db) (dev ino : ℕ)
    → IsValid db
    → said (saved_rows db.slots) dev ino none ≡ emuroot_owner_lookup (some db) dev ino
unfolding said saved_rows emuroot_owner_lookup
saved_lem db dev ino (inl e) = rw e refl
saved_lem db dev ino (inr (k, s)) =
    said-saved_rows db.slots dev ino none
    ∙ scan-owner_in db.slots k dev ino s.table
    ∙ sym (lookup-owner_in db k dev ino s)

load_rows-saved_rows :
    (db : Db) (dev ino : ℕ)
    → IsValid db
    → emuroot_owner_lookup (load_rows none true true (saved_rows db.slots)) dev ino
      ≡ emuroot_owner_lookup (some db) dev ino
unfolding emuroot_owner_lookup
load_rows-saved_rows db dev ino valid =
    load_rows_lem none (saved_rows db.slots) dev ino (λ d e. cc e) ∙ saved_lem db dev ino valid

-- The numbers of every slot are within their types.
abbrev pub InRange : List Entry → Type 0
InRange [] = Unit {0}
InRange (e ∷ slots) = Fits (e.dev, e.ino, e.uid, e.gid) × InRange slots

saved_rows-AllFit : (slots : List Entry) → InRange slots → AllFit (saved_rows slots)
unfolding saved_rows
saved_rows-AllFit [] fits = tt
saved_rows-AllFit (e ∷ slots) fits = elim (Bool-cases e.used) [
  | inl u ↦ rw u (fits.0, saved_rows-AllFit slots fits.1)
  | inr u ↦ rw u (saved_rows-AllFit slots fits.1)
]

-- A valid table, whose numbers are 64-bit for a file and 32-bit for an owner, is saved as text, one
-- line of four decimal numbers for each used slot. A later run that loads that text into no table yet,
-- where there is memory, records the same owner for every file, and none where none was recorded.
pub emuroot_owners_load-emuroot_owners_save :
    (db : Db) (dev ino : ℕ)
    → IsValid db
    → InRange db.slots
    → emuroot_owner_lookup
        (emuroot_owners_load none true true (emuroot_owners_save (some db) true))
        dev
        ino
      ≡ emuroot_owner_lookup (some db) dev ino
unfolding emuroot_owners_load emuroot_owners_save
emuroot_owners_load-emuroot_owners_save db dev ino valid fits =
    let read = scan_rows-print_rows (saved_rows db.slots) (saved_rows-AllFit db.slots fits) in
    rw read (load_rows-saved_rows db dev ino valid)
