-- ===== src/Ownership/Examples.antt =====
-- Tables of four slots, and tables grown from nothing.
use emuroot.Base.{
  List, none, [], ◌∷◌, ℕ, ◌≡◌, refl, true, some, replicate, subst, inr, some-injective, arith,
}
use emuroot.Cstring.{bytes}
use emuroot.Ownership.Growth.{replicate-IsTable, used_in-replicate}
use emuroot.Ownership.Text.{
  row_text, print_digits, print_rows, is_space, is_digit, skip_spaces, take_sign, scan_digits,
  starts_digit, in_range, scan_unsigned, scan_row, scan_rows,
}
use emuroot.Ownership.{
  Db, zero_entry, emuroot_owner_lookup, set_in, empty_db, emuroot_owner_set, load_rows, store,
  find_slot, probe, hash_of, is_slot_for, saved_rows, emuroot_owners_load, emuroot_owners_save,
}
use emuroot.Ownership.Map.{
  IsOwners, InRange, emuroot_owner_set_lem, said, load_rows_lem,
  emuroot_owners_load-emuroot_owners_save,
}
use emuroot.Ownership.Refine.{IsValid, with_owner}

abbrev fresh : Db
fresh = record { slots = replicate 4 zero_entry; cap = 4; count = 0 }

-- A table grown from nothing, with one owner.
abbrev first : Db
first = set_in empty_db true 1 2 7 8

first-IsOwners : IsOwners (some first)
unfolding emuroot_owner_set
first-IsOwners = (emuroot_owner_set_lem none 1 2 7 8 (λ db e. cc e)).0

emuroot_owner_set_lem_example :
    IsOwners (emuroot_owner_set (some first) true true 1 3 1000 1000)
    × ((dev' ino' : ℕ)
        → emuroot_owner_lookup (emuroot_owner_set (some first) true true 1 3 1000 1000) dev' ino'
          ≡ with_owner (emuroot_owner_lookup (some first)) 1 3 1000 1000 dev' ino')
emuroot_owner_set_lem_example = emuroot_owner_set_lem (some first) 1 3 1000 1000 first-IsOwners

-- Of two lines about a file, the later one is recorded.
later_line_wins :
    emuroot_owner_lookup
      (load_rows (some first) true true ((1, 3, 5, 5) ∷ (1, 2, 0, 9) ∷ (1, 3, 6, 6) ∷ []))
      1
      3
    ≡ some (6, 6)
unfolding said
later_line_wins =
    load_rows_lem (some first) ((1, 3, 5, 5) ∷ (1, 2, 0, 9) ∷ (1, 3, 6, 6) ∷ []) 1 3 first-IsOwners

-- Four slots, with one owner put in
abbrev saved : Db
saved = set_in fresh true 1 2 7 8

fresh-IsOwners : IsOwners (some fresh)
fresh-IsOwners = λ db e. subst IsValid (some-injective e) (
    inr (
      2,
      record {
        power = refl;
        table = replicate-IsTable 2;
        counted = omega (arith, used_in-replicate 4);
        half = omega arith;
      },
    ))

saved-IsOwners : IsOwners (some saved)
unfolding emuroot_owner_set
saved-IsOwners = (emuroot_owner_set_lem (some fresh) 1 2 7 8 fresh-IsOwners).0

saved-InRange : InRange saved.slots
unfolding set_in store find_slot probe hash_of is_slot_for replicate
saved-InRange = ground arith

emuroot_owners_load-emuroot_owners_save_example :
    emuroot_owner_lookup
      (emuroot_owners_load none true true (emuroot_owners_save (some saved) true))
      1
      2
    ≡ emuroot_owner_lookup (some saved) 1 2
emuroot_owners_load-emuroot_owners_save_example =
    emuroot_owners_load-emuroot_owners_save saved 1 2 (saved-IsOwners saved refl) saved-InRange

-- The text of that table
saved_text : emuroot_owners_save (some saved) true ≡ some (bytes "1 2 7 8\n")
unfolding emuroot_owners_save set_in store find_slot probe hash_of is_slot_for saved_rows print_rows
    row_text print_digits replicate
saved_text = refl

-- A file of which the loop stops at the second line
abbrev damaged_text : List ℕ
damaged_text = bytes "1 2 7 8\n1 x 0 0\n3 4 5 6\n"

damaged : scan_rows 0 damaged_text ≡ (1, 2, 7, 8) ∷ []
unfolding scan_rows scan_row scan_unsigned skip_spaces is_space take_sign starts_digit scan_digits
    is_digit in_range
damaged = refl
