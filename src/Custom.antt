-- ===== src/Custom.antt =====
-- The lists of custom fields: `fru__get_customlist`, `fru__find_reclist_entry`,
-- `fru__add_reclist_entry` and `fru__calc_checksum` of lib/fru_common.c, lib/fru_add_custom.c,
-- lib/fru_get_custom.c and lib/fru_delete_custom.c.
pub mod Checksum
pub mod Entries
pub mod Add
pub mod Laws
mod Tests
use frugen.Common.{
  ℕ, zero, suc, ◌+◌, ◌-◌, ◌%◌, ◌^◌, Bool, true, false, Option, some, none, List, [], ◌∷◌, ◌++◌,
  Bytes, ℤ, pos, negsuc, to_int, u8, minus_one,
}
use frugen.Errno.{
  FruErrno, Outcome, ok, fail, fault, Eff, ◌>>=◌, ◌>>◌, pure, guard, deref, non_null, fail_with,
  seterr, fegeneric, feareabadtype, feareanotsup, fenofield, ferr_loc_general, ferr_loc_caller,
}
use frugen.Field.{Field, FieldEnc, fe_empty, blank_field}
use frugen.Field.Encode.{setfield}
use frugen.Fru.{Fru, Reclist, is_valid_area, is_info_area, info_area, fieldcount}
use frugen.Area.{apos_auto, enable_area}

-- fru__calc_checksum
unfoldable pub sum_bytes : ℕ → Bytes → ℕ
sum_bytes checksum [] = checksum
sum_bytes checksum (b ∷ data_) = sum_bytes (u8 (checksum + b)) data_

unfoldable pub calc_checksum : Bytes → ℕ
calc_checksum data_ = u8 (256 - sum_bytes 0 data_)

-- fru__find_reclist_entry: the entries that it passes, and the list from the found entry on. The
-- found entry is the head of the second list, or NULL, and `prev` the last of the first one.
unfoldable pub find_reclist_entry {ℓ} : {A : Type ℓ} → List A → ℕ → List A × List A
find_reclist_entry [] index = ([], [])
find_reclist_entry (rec ∷ reclist) zero = ([], rec ∷ reclist)
find_reclist_entry (rec ∷ reclist) (suc index) =
    let (passed, rest) = find_reclist_entry reclist index in (rec ∷ passed, rest)

-- fru__add_reclist_entry with the list that it leaves; `entry` is what `calloc` and the caller make
-- of the new entry, and `allocated` whether `calloc` succeeds.
unfoldable pub insert_entry {ℓ} : {A : Type ℓ} → List A × List A → A → List A
insert_entry (passed, rest) entry = passed ++ entry ∷ rest

unfoldable pub add_reclist_entry {ℓ} : {A : Type ℓ} → Bool → List A → ℕ → A → Eff (List A)
add_reclist_entry false reclist index entry = fail_with fegeneric ferr_loc_general minus_one
add_reclist_entry true [] index entry = pure (entry ∷ [])
add_reclist_entry true (rec ∷ reclist) index entry =
    pure (insert_entry (find_reclist_entry (rec ∷ reclist) index) entry)

-- fru__get_customlist, and the list put back.
unfoldable pub get_customlist : Fru → ℕ → Eff Reclist
get_customlist fru (suc zero) = pure fru.chassis.chassis_cust
get_customlist fru (suc (suc zero)) = pure fru.board.board_cust
get_customlist fru (suc (suc (suc zero))) = pure fru.product.product_cust
get_customlist fru _ = deref none

unfoldable pub set_customlist : Fru → ℕ → Reclist → Fru
set_customlist fru (suc zero) cust = record fru {
  chassis = record fru.chassis { chassis_cust = cust };
}
set_customlist fru (suc (suc zero)) cust = record fru {
  board = record fru.board { board_cust = cust };
}
set_customlist fru (suc (suc (suc zero))) cust = record fru {
  product = record fru.product { product_cust = cust };
}
set_customlist fru _ cust = fru

-- The error index of a custom field.
abbrev pub custom_index : ℕ → ℕ → ℤ
custom_index atype index = to_int (fieldcount atype + index)

-- fru_get_custom, with the field that the pointer it returns points to, or none for NULL.
unfoldable pub found_custom : ℕ → ℕ → Reclist × Reclist → Eff (Option Field)
found_custom atype index (passed, []) = fail_with fenofield atype (custom_index atype index)
found_custom atype index (passed, rec ∷ rest) = pure rec

unfoldable pub get_custom : Option Fru → ℕ → ℕ → Eff (Option Field)
get_custom ptr atype index = do
  fru ← info_area ptr atype
  cust ← get_customlist fru atype
  found_custom atype index (find_reclist_entry cust index)

-- The checks that open fru_add_custom and fru_delete_custom, with the place that they report.
unfoldable pub custom_area : ℕ → Option Fru → ℕ → Eff Fru
custom_area where_ ptr atype = do
  fru ← non_null ptr where_
  guard (is_valid_area atype) feareabadtype where_ (pos atype)
  guard (is_info_area atype) feareanotsup where_ (pos atype)
  pure fru

-- The `int` that delete_reclist_entry takes, converted back to size_t.
abbrev pub size_of_int : ℤ → ℕ
size_of_int (pos n) = n
size_of_int (negsuc n) = 2 ^ 64 - 1 - n

-- delete_reclist_entry: the list without the entry, or none if there is no such entry.
unfoldable pub remove_found : Reclist × Reclist → Option Reclist
remove_found (passed, []) = none
remove_found (passed, rec ∷ rest) = some (passed ++ rest)

unfoldable pub delete_reclist_entry : Reclist → ℤ → Option Reclist
delete_reclist_entry reclist index = remove_found (find_reclist_entry reclist (size_of_int index))

-- fru_delete_custom
unfoldable pub delete_custom : Option Fru → ℕ → ℕ → Eff Fru
delete_custom ptr atype index = do
  fru ← custom_area ferr_loc_caller ptr atype
  cust ← get_customlist fru atype
  elim (delete_reclist_entry cust (to_int index)) [
    | none ↦ fail_with fenofield atype (custom_index atype index)
    | some cust' ↦ pure (set_customlist fru atype cust')
  ]

-- The encoding check of fru_add_custom: the field, or a failure that is blamed on the new entry.
unfoldable pub blame : ℕ → ℕ → Outcome (Option Field × Bool) → Outcome Field
blame atype index (ok (some field, true) e) = ok field e
blame atype index (ok (none, true) e) = fault
blame atype index (ok (field, false) e) =
    fail (record e { src = atype; index = custom_index atype index })
blame atype index (fail e) = fail e
blame atype index fault = fault

unfoldable pub new_field : ℕ → ℕ → FieldEnc → Option Bytes → Eff Field
new_field atype index fe_empty string = pure blank_field
new_field atype index encoding string =
    λ e. blame atype index (setfield (some blank_field) encoding string e)

-- The call whose result is ignored.
unfoldable pub try_enable : Fru → ℕ → Eff Fru
try_enable fru atype e = elim (enable_area (some fru) atype apos_auto e) [
  | ok fru' e' ↦ ok fru' e'
  | fail e' ↦ ok fru e'
  | fault ↦ fault
]

-- The end of fru_add_custom. When the second `calloc` fails, an entry that was linked behind
-- another one stays in the list with a NULL record; one at the head was linked to a copy of the
-- head only.
unfoldable pub orphan : Reclist → ℕ → Reclist → Reclist
orphan [] index linked = []
orphan (rec ∷ cust) zero linked = rec ∷ cust
orphan (rec ∷ cust) (suc index) linked = linked

-- fru_add_custom, with the outcomes of its two allocations: the FRU that it leaves, and whether it
-- returns the new field.
unfoldable pub add_custom :
    Bool → Bool → Option Fru → ℕ → ℕ → FieldEnc → Option Bytes → Eff (Fru × Bool)
add_custom entry_allocated rec_allocated ptr atype index encoding string = do
  fru ← custom_area ferr_loc_general ptr atype
  cust ← get_customlist fru atype
  field ← new_field atype index encoding string
  guard entry_allocated fegeneric atype (custom_index atype index)
  elim rec_allocated [
    | false ↦ do
      linked ← add_reclist_entry true cust index none
      seterr fegeneric atype (custom_index atype index)
      pure (set_customlist fru atype (orphan cust index linked), false)
    | true ↦ do
      linked ← add_reclist_entry true cust index (some field)
      enabled ← try_enable (set_customlist fru atype linked) atype
      pure (enabled, true)
  ]
