-- ===== src/Mr/Laws.antt =====
-- What fru_get_mr and fru_delete_mr do behind fru_add_mr.
use frugen.Common.{
  ℕ, ◌≤◌, ◌<◌, ◌≡◌, ◌≢◌, refl, sym, ◌∙◌, Bool, true, false, Option, some, none, List, [], ◌∷◌, ◌++◌,
  length, take, drop, take-drop, length-take, set, get_elem?, get_elem?-set, arith, Bool-cases,
  to_int, lt→ltb, length-set, inl, inr, minus_one,
}
use frugen.Errno.{
  FruErrno, ok, fail, bind_outcome, with_error, femrend, fenorec, feadisabled, ferr_loc_mr,
  ferr_loc_caller,
}
use frugen.Fru.{Fru, MrRec, fru_mr, fru_mr_any, is_searchable}
use frugen.Area.{put}
use frugen.Custom.Entries.{add_reclist_entry_lem}
use frugen.Mr.{
  Entry, MrOp, mr_op_find, mr_op_replace, note_last, mr_operation, with_found, apply_op, unlink,
  record_of, find_mr, get_mr, delete_mr, add_mr, replace_mr, not_found, link_rec, new_rec, is_nil,
}
use frugen.Mr.Search.{search_mr_any, search_mr_any-none, search_mr_type, search_mr-none, Passes}

put_lem :
    (xs : List Bool) (v : Bool) (e : FruErrno)
    → fru_mr < length xs
    → put xs fru_mr v e ≡ ok (set xs fru_mr v) e
unfolding put
put_lem xs v e h = rw (lt→ltb fru_mr (length xs) h) refl

-- The error that an access to the record at `i` leaves, when `behind` are the records behind it.
abbrev pub noted : ℕ → List Entry → FruErrno → FruErrno
noted i [] e = with_error femrend ferr_loc_mr (to_int i) e
noted i (x ∷ behind) e = e

note_last_lem :
    (i : ℕ) (before : List Entry) (entry : Entry) (behind : List Entry) (e : FruErrno)
    → note_last (record { at = i; before = before; entry = entry; behind = behind }) e
      ≡ ok tt (noted i behind e)
unfolding note_last
note_last_lem i before entry [] e = refl
note_last_lem i before entry (x ∷ behind) e = refl

-- mr_operation on any record at an index of the list.
pub mr_operation_any :
    (fru : Fru) (op : MrOp) (i : ℕ) (before : List Entry) (entry : Entry) (behind : List Entry)
    (e : FruErrno)
    → get_elem? fru.present fru_mr ≡ some true
    → fru.mr ≡ before ++ entry ∷ behind
    → i ≡ length before
    → mr_operation (some fru) op fru_mr_any (some i) e
      ≡ apply_op fru op
          (some i)
          (record { at = i; before = before; entry = entry; behind = behind })
          (noted i behind e)
unfolding mr_operation with_found
mr_operation_any fru op i before entry behind e here split at =
    rw (here, bind_outcome)
      (rw (split, search_mr_any i 0 before entry behind e (omega arith), bind_outcome)
        (rw (note_last_lem i before entry behind e, bind_outcome) refl))

link_rec_lem :
    (l : List Entry) (index : ℕ) (entry : Entry) (e : FruErrno)
    → link_rec true l index entry e ≡ ok (take index l ++ entry ∷ drop index l) e
unfolding link_rec
link_rec_lem l index entry e = rw (add_reclist_entry_lem l index entry e, link_rec) refl

pub add_mr_lem :
    (fru : Fru) (index : ℕ) (rec : Option MrRec) (e : FruErrno)
    → fru_mr < length fru.present
    → add_mr true true (some fru) index rec e
      ≡ ok
          (record fru {
            mr = take index fru.mr ++ some (new_rec rec) ∷ drop index fru.mr;
            present = set fru.present fru_mr true;
          })
          e
unfolding add_mr
add_mr_lem fru index rec e h =
    rw (link_rec_lem fru.mr index (some (new_rec rec)) e, bind_outcome)
      (rw (put_lem fru.present true e h, bind_outcome) refl)

length-prefix : (index : ℕ) (l : List Entry) → index ≤ length l → length (take index l) ≡ index
length-prefix index l h = omega (arith, length-take index l)

-- A record that is added to the list, at an index up to its length and when memory is allocated, is
-- the one that fru_get_mr then gives at that index; a NULL record gives an empty one.
pub add_mr_get :
    (fru : Fru) (index : ℕ) (rec : Option MrRec) (e : FruErrno)
    → fru_mr < length fru.present
    → index ≤ length fru.mr
    → (fru' : Fru) × (e' : FruErrno) × (add_mr true true (some fru) index rec e ≡ ok fru' e)
      × (get_mr (some fru') index e ≡ ok (some (new_rec rec)) e')
unfolding get_mr find_mr apply_op record_of
add_mr_get fru index rec e flags short =
    let fru' = record fru {
      mr = take index fru.mr ++ some (new_rec rec) ∷ drop index fru.mr;
      present = set fru.present fru_mr true;
    } in
    let at = length-prefix index fru.mr short in
    (
      fru',
      noted index (drop index fru.mr) e,
      add_mr_lem fru index rec e flags,
      rw
          (
            mr_operation_any fru' mr_op_find index (take index fru.mr) (some (new_rec rec))
                (drop index fru.mr) e (get_elem?-set fru.present fru_mr true flags) refl (sym at),
            bind_outcome,
          )
          refl,
    )

nil_of_is_nil : (l : List Entry) → is_nil l ≡ false → l ≢ []
nil_of_is_nil [] h = cc
nil_of_is_nil (x ∷ l) h = cc

unlink_lem :
    (fru : Fru) (i : ℕ) (before : List Entry) (entry : Entry) (behind : List Entry) (e : FruErrno)
    → fru_mr < length fru.present
    → (fru' : Fru) × (unlink fru
          (record { at = i; before = before; entry = entry; behind = behind })
          e
        ≡ ok fru' e)
      × (fru'.mr ≡ before ++ behind)
      × (before ++ behind ≡ [] → get_elem? fru'.present fru_mr ≡ some false)
unfolding unlink
unlink_lem fru i before entry behind e flags = elim (Bool-cases (is_nil (before ++ behind))) [
  | inl last ↦ (
    record fru { mr = before ++ behind; present = set fru.present fru_mr false },
    rw (last, unlink) (rw (put_lem fru.present false e flags, bind_outcome) refl),
    refl,
    λ _. get_elem?-set fru.present fru_mr false flags,
  )
  | inr more ↦ (
    record fru { mr = before ++ behind },
    rw (more, unlink) refl,
    refl,
    λ empty. absurd (nil_of_is_nil (before ++ behind) more empty),
  )
]

-- When memory is allocated, fru_add_mr at an index up to the length of the list, followed by
-- fru_delete_mr at the same index, succeeds and leaves the list of records as it was before.
pub add_mr_delete :
    (fru : Fru) (index : ℕ) (rec : Option MrRec) (e : FruErrno)
    → fru_mr < length fru.present
    → index ≤ length fru.mr
    → (fru' : Fru) × (fru'' : Fru) × (e' : FruErrno) × (add_mr true true (some fru) index rec e
        ≡ ok fru' e)
      × (delete_mr (some fru') index e ≡ ok fru'' e')
      × (fru''.mr ≡ fru.mr)
unfolding delete_mr apply_op
add_mr_delete fru index rec e flags short =
    let fru' = record fru {
      mr = take index fru.mr ++ some (new_rec rec) ∷ drop index fru.mr;
      present = set fru.present fru_mr true;
    } in
    let at = length-prefix index fru.mr short in
    let size : fru_mr < length (set fru.present fru_mr true) =
      omega (arith, length-set fru.present fru_mr true) in
    let (fru'', run, split, emptied) =
      unlink_lem fru' index (take index fru.mr) (some (new_rec rec)) (drop index fru.mr)
        (noted index (drop index fru.mr) e) size in
    (
      fru',
      fru'',
      noted index (drop index fru.mr) e,
      add_mr_lem fru index rec e flags,
      rw
          (
            mr_operation_any fru' (mr_op_replace none) index (take index fru.mr)
                (some (new_rec rec)) (drop index fru.mr) e
                (get_elem?-set fru.present fru_mr true flags) refl (sym at),
            bind_outcome,
          )
          (rw (run, bind_outcome) refl),
      split ∙ take-drop index fru.mr,
    )

-- fru_find_mr for a type, from an index on: when the entry behind `before` is the first one from
-- the index on that has the type, the call succeeds with its position and its record.
pub find_mr_first :
    (fru : Fru) (type_ start : ℕ) (before : List Entry) (rec : MrRec) (behind : List Entry)
    (e : FruErrno)
    → get_elem? fru.present fru_mr ≡ some true
    → fru.mr ≡ before ++ some rec ∷ behind
    → is_searchable type_ ≡ true
    → type_ ≢ fru_mr_any
    → Passes type_ start 0 before
    → start ≤ length before
    → type_ ≡ rec.rec_type
    → find_mr (some fru) type_ (some start) e
      ≡ ok (length before, some rec) (noted (length before) behind e)
unfolding find_mr mr_operation with_found apply_op record_of
find_mr_first fru type_ start before rec behind e here split valid specific passes from same =
    rw (here, bind_outcome)
      (rw (valid, bind_outcome)
        (rw
          (
            split,
            search_mr_type type_ start (length before) 0 before rec behind e specific passes
                (omega arith) from same,
            bind_outcome,
          )
          (rw (note_last_lem (length before) before (some rec) behind e, bind_outcome) refl)))

-- fru_find_mr for a type that no entry from the index on has, and in a FRU without the area.
pub find_mr-none :
    (fru : Fru) (type_ start : ℕ) (e : FruErrno)
    → get_elem? fru.present fru_mr ≡ some true
    → is_searchable type_ ≡ true
    → type_ ≢ fru_mr_any
    → Passes type_ start 0 fru.mr
    → find_mr (some fru) type_ (some start) e
      ≡ fail (with_error fenorec ferr_loc_mr (to_int start) e)
unfolding find_mr mr_operation with_found not_found
find_mr-none fru type_ start e here valid specific passes =
    rw (here, bind_outcome)
      (rw (valid, bind_outcome)
        (rw (search_mr-none type_ start 0 fru.mr e specific passes, bind_outcome) refl))

pub find_mr_absent :
    (fru : Fru) (type_ start : ℕ) (e : FruErrno)
    → get_elem? fru.present fru_mr ≡ some false
    → find_mr (some fru) type_ (some start) e
      ≡ fail (with_error feadisabled ferr_loc_caller minus_one e)
unfolding find_mr mr_operation
find_mr_absent fru type_ start e absent = rw (absent, bind_outcome) refl

-- fru_replace_mr of the entry behind `before`.
pub replace_mr_lem :
    (fru : Fru) (i : ℕ) (before : List Entry) (old new : MrRec) (behind : List Entry) (e : FruErrno)
    → get_elem? fru.present fru_mr ≡ some true
    → fru.mr ≡ before ++ some old ∷ behind
    → i ≡ length before
    → replace_mr (some fru) i (some new) e
      ≡ ok (record fru { mr = before ++ some new ∷ behind }) (noted i behind e)
unfolding replace_mr apply_op
replace_mr_lem fru i before old new behind e here split at =
    rw
      (
        mr_operation_any fru (mr_op_replace (some new)) i before (some old) behind e here split at,
        bind_outcome,
      )
      refl

-- fru_get_mr at the position of an entry, and behind the last one.
pub get_mr_there :
    (fru : Fru) (before : List Entry) (rec : MrRec) (behind : List Entry) (e : FruErrno)
    → get_elem? fru.present fru_mr ≡ some true
    → fru.mr ≡ before ++ some rec ∷ behind
    → get_mr (some fru) (length before) e ≡ ok (some rec) (noted (length before) behind e)
unfolding get_mr find_mr apply_op record_of
get_mr_there fru before rec behind e here split =
    rw
      (
        mr_operation_any fru mr_op_find (length before) before (some rec) behind e here split refl,
        bind_outcome,
      )
      refl

pub get_mr-none :
    (fru : Fru) (index : ℕ) (e : FruErrno)
    → get_elem? fru.present fru_mr ≡ some true
    → length fru.mr ≤ index
    → get_mr (some fru) index e ≡ fail (with_error fenorec ferr_loc_mr (to_int index) e)
unfolding get_mr find_mr mr_operation with_found not_found
get_mr-none fru index e here behind =
    rw (here, bind_outcome)
      (rw (search_mr_any-none index 0 fru.mr e (omega arith), bind_outcome) refl)
