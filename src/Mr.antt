-- ===== src/Mr.antt =====
-- lib/fru_mr_ops.c and lib/fru_add_mr.c: the list of multirecord records.
pub mod Search
pub mod Laws
mod Tests
use frugen.Common.{
  ℕ, zero, suc, Bool, true, false, not, ◌||◌, Option, some, none, List, [], ◌∷◌, ◌++◌, pos, to_int,
  minus_one, leb, ◌==◌, get_elem?, if◌then◌else◌,
}
use frugen.Errno.{
  FruErrno, Outcome, ok, fail, fault, Eff, ◌>>=◌, ◌>>◌, pure, undefined, guard, deref, non_null,
  fail_with, seterr, fegeneric, feadisabled, femrnotsup, femrend, fenorec, ferr_loc_caller,
  ferr_loc_mr,
}
use frugen.Fru.{Fru, MrRec, MrBody, zeroed, fru_mr, fru_mr_any, fru_mr_empty, is_searchable}
use frugen.Area.{put}
use frugen.Custom.{add_reclist_entry}

-- An entry's pointer to its record.
abbrev pub Entry : Type 0
Entry = Option MrRec

-- fru__mr_op_t, with the record that replaces the found one, or none to delete it.
pub data MrOp : Type 0 where
  mr_op_find : MrOp
  mr_op_replace : Option MrRec → MrOp

-- The entry that the search stops at, with its index and the entries around it.
pub record Found : Type 0 where
  pub at : ℕ
  pub before : List Entry
  pub entry : Entry
  pub behind : List Entry

-- The condition of the search: any record at the index, or one of the type from the index on.
unfoldable pub is_at_index : ℕ → Option ℕ → ℕ → Eff Bool
is_at_index type_ index count =
    if type_ == fru_mr_any then (do i ← deref index; pure (count == i)) else pure false

unfoldable pub is_of_type : ℕ → ℕ → ℕ → Entry → Eff Bool
is_of_type type_ start_index count entry =
    if leb start_index count
    then (do rec ← deref entry; pure (type_ == rec.rec_type))
    else pure false

unfoldable pub matches : ℕ → Option ℕ → ℕ → ℕ → Entry → Eff Bool
matches type_ index start_index count entry = do
  hit ← is_at_index type_ index count
  elim hit [ true ↦ pure true | false ↦ is_of_type type_ start_index count entry ]

unfoldable pub passed_by : Entry → Option Found → Option Found
passed_by entry none = none
passed_by entry (some found) = some (record found { before = entry ∷ found.before })

-- The loop of mr_operation over the list, from the entry with index `count` on.
unfoldable pub search_mr : ℕ → Option ℕ → ℕ → ℕ → List Entry → Eff (Option Found)
search_mr type_ index start_index count [] = pure none
search_mr type_ index start_index count (entry ∷ rest) = do
  hit ← matches type_ index start_index count entry
  elim hit [
    | true ↦ pure (some (record { at = count; before = []; entry = entry; behind = rest }))
    | false ↦ do
      found ← search_mr type_ index start_index (suc count) rest
      pure (passed_by entry found)
  ]

-- `index ? *index : 0`
abbrev pub start_of : Option ℕ → ℕ
start_of none = 0
start_of (some i) = i

-- The error that tells the caller that the found entry is the last one.
unfoldable pub note_last : Found → Eff (Unit {0})
note_last found = elim found.behind [
  | [] ↦ seterr femrend ferr_loc_mr (to_int found.at)
  | entry ∷ rest ↦ pure tt
]

-- What an operation returns: the pointer to a record, with `*index`, or `true` as a pointer.
pub data MrResult : Type 0 where
  mr_rec : ℕ → Entry → MrResult
  mr_deleted : MrResult

abbrev pub is_nil {ℓ} : {A : Type ℓ} → List A → Bool
is_nil [] = true
is_nil (x ∷ xs) = false

-- The deletion of the found entry: the last one takes the presence of the area with it.
unfoldable pub unlink : Fru → Found → Eff Fru
unlink fru found =
    let mr' = found.before ++ found.behind in
    elim (is_nil mr') [
      | true ↦ do
        present' ← put fru.present fru_mr false
        pure (record fru { mr = mr'; present = present' })
      | false ↦ pure (record fru { mr = mr' })
    ]

unfoldable pub apply_op : Fru → MrOp → Option ℕ → Found → Eff (Fru × MrResult)
apply_op fru mr_op_find index found = do i ← deref index; pure (fru, mr_rec found.at found.entry)
apply_op fru (mr_op_replace (some rec)) index found = do
  old ← deref found.entry
  pure (record fru { mr = found.before ++ some rec ∷ found.behind }, mr_rec found.at (some rec))
apply_op fru (mr_op_replace none) index found = do fru' ← unlink fru found; pure (fru', mr_deleted)

unfoldable pub not_found : Option ℕ → Eff (Fru × MrResult)
not_found index = do i ← deref index; fail_with fenorec ferr_loc_mr (to_int i)

unfoldable pub with_found : Fru → MrOp → Option ℕ → Option Found → Eff (Fru × MrResult)
with_found fru op index none = not_found index
with_found fru op index (some found) = do note_last found; apply_op fru op index found

-- mr_operation
unfoldable pub mr_operation : Option Fru → MrOp → ℕ → Option ℕ → Eff (Fru × MrResult)
mr_operation ptr op type_ index = do
  fru ← non_null ptr ferr_loc_caller
  here ← deref (get_elem? fru.present fru_mr)
  guard here feadisabled ferr_loc_caller minus_one
  elim (is_searchable type_) [
    | false ↦ do i ← deref index; fail_with femrnotsup ferr_loc_caller (to_int i)
    | true ↦ do
      found ← search_mr type_ index (start_of index) 0 fru.mr
      with_found fru op index found
  ]

-- fru_delete_mr, fru_replace_mr, fru_find_mr and fru_get_mr. A failure is `false` or NULL; the last
-- two give the record, if there is one behind the pointer, and the index where it was found.
unfoldable pub delete_mr : Option Fru → ℕ → Eff Fru
delete_mr ptr index = do
  (fru, done) ← mr_operation ptr (mr_op_replace none) fru_mr_any (some index)
  pure fru

unfoldable pub replace_mr : Option Fru → ℕ → Option MrRec → Eff Fru
replace_mr ptr index rec = do
  (fru, done) ← mr_operation ptr (mr_op_replace rec) fru_mr_any (some index)
  pure fru

unfoldable pub record_of : MrResult → Eff (ℕ × Entry)
record_of (mr_rec i entry) = pure (i, entry)
record_of mr_deleted = undefined

unfoldable pub find_mr : Option Fru → ℕ → Option ℕ → Eff (ℕ × Entry)
find_mr ptr type_ index = do (fru, found) ← mr_operation ptr mr_op_find type_ index; record_of found

unfoldable pub get_mr : Option Fru → ℕ → Eff Entry
get_mr ptr index = do (i, entry) ← find_mr ptr fru_mr_any (some index); pure entry

-- The record that fru_add_mr makes.
abbrev pub new_rec : Option MrRec → MrRec
new_rec none = record { rec_type = fru_mr_empty; body = zeroed }
new_rec (some rec) = rec

unfoldable pub link_rec : Bool → List Entry → ℕ → Entry → Eff (List Entry)
link_rec allocated mr index entry e = elim (add_reclist_entry allocated mr index entry e) [
  | ok mr' e' ↦ ok mr' e'
  | fail e' ↦ fail_with fegeneric ferr_loc_mr (to_int index) e'
  | fault ↦ fault
]

-- fru_add_mr, with the outcomes of its two allocations: without the second one it writes to NULL.
unfoldable pub add_mr : Bool → Bool → Option Fru → ℕ → Option MrRec → Eff Fru
add_mr entry_allocated rec_allocated ptr index rec = do
  fru ← non_null ptr ferr_loc_caller
  mr' ← link_rec entry_allocated fru.mr index (some (new_rec rec))
  elim rec_allocated [
    | false ↦ undefined
    | true ↦ do
      present' ← put fru.present fru_mr true
      pure (record fru { mr = mr'; present = present' })
  ]
