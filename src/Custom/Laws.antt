-- ===== src/Custom/Laws.antt =====
-- What fru_get_custom and fru_delete_custom do behind fru_add_custom.
use frugen.Common.{
  ℕ, ◌≤◌, ◌<◌, ◌^◌, ◌≡◌, refl, ap, Bool, true, Option, some, List, ◌∷◌, ◌++◌, Bytes, length, take,
  drop, take-drop, arith, pos, to_int,
}
use frugen.Errno.{FruErrno, ok, bind_outcome, ferr_loc_general, ferr_loc_caller}
use frugen.Field.{Field, FieldEnc}
use frugen.Fru.{Fru, Reclist}
use frugen.Area.Order.{WellFormed, Flag}
use frugen.Custom.{
  set_customlist, get_custom, found_custom, new_field, add_custom, delete_custom,
  delete_reclist_entry, remove_found,
}
use frugen.Custom.Entries.{find_inserted, add_reclist_entry_lem}
use frugen.Custom.Add.{
  custom_list, info_area_lem, custom_area_lem, get_customlist_lem, get-set_customlist,
  custom_list-set, try_enable_lem, set_customlist-WellFormed,
}

module _ (fru : Fru) (atype index : ℕ) (encoding : FieldEnc) (string : Option Bytes) (field : Field)
    (e e' : FruErrno) (low : 1 ≤ atype) (high : atype ≤ 3) (wf : WellFormed fru)
    (encoded : new_field atype index encoding string e ≡ ok field e') where
  abbrev pub linked : Reclist
  linked = take index (custom_list fru atype) ++ some field ∷ drop index (custom_list fru atype)

  pub add_custom_lem :
      (order' : List ℕ) × (present' : List Bool) × (e'' : FruErrno) × (add_custom true true
          (some fru)
          atype
          index
          encoding
          string
          e
        ≡ ok
            (record (set_customlist fru atype linked) { order = order'; present = present' }, true)
            e'')
      × Flag present' true atype
      × WellFormed (record (set_customlist fru atype linked) { order = order'; present = present' })
  unfolding add_custom
  add_custom_lem =
      let wf' = set_customlist-WellFormed fru linked atype low high wf in
      let (order', present', e'', run, here, wf'') =
        try_enable_lem (set_customlist fru atype linked) atype e' wf' (omega arith) in
      (
        order',
        present',
        e'',
        rw (custom_area_lem fru e ferr_loc_general atype low high, add_custom)
            (rw (get_customlist_lem fru e atype low high, bind_outcome)
              (rw (encoded, bind_outcome)
                (rw
                  (
                    add_reclist_entry_lem (custom_list fru atype) index (some field) e',
                    bind_outcome,
                  )
                  (rw (run, bind_outcome) refl)))),
        here,
        wf'',
      )

  -- A custom field that fru_add_custom accepts for an information area of a well-formed FRU, at
  -- an index up to the length of the area's list, is added when memory is allocated, whether or
  -- not the area was present, and fru_get_custom then finds it at that index.
  pub add_custom_get :
      index ≤ length (custom_list fru atype)
      → (fru' : Fru) × (e'' : FruErrno) × (add_custom true true
            (some fru)
            atype
            index
            encoding
            string
            e
          ≡ ok (fru', true) e'')
        × (get_custom (some fru') atype index e'' ≡ ok (some field) e'')
  unfolding get_custom
  add_custom_get short =
      let (order', present', e'', run, here, _) = add_custom_lem in
      let fru' = record (set_customlist fru atype linked) { order = order'; present = present' } in
      (
        fru',
        e'',
        run,
        rw (info_area_lem fru' e'' atype low high here, get_custom)
            (rw (get-set_customlist fru e'' linked order' present' atype low high, bind_outcome)
              (rw (find_inserted (custom_list fru atype) index (some field) short)
                (unfold found_custom in refl))),
      )

  -- When memory is allocated, and the index is at most the length of the list of custom fields
  -- and one that an `int` holds, fru_add_custom on an information area of a well-formed FRU, of a
  -- field that it accepts, followed by fru_delete_custom at the same index, succeeds and leaves
  -- the list as it was before.
  pub add_custom_delete :
      index ≤ length (custom_list fru atype)
      → index < 2 ^ 31
      → (fru' : Fru) × (fru'' : Fru) × (e'' : FruErrno) × (add_custom true true
            (some fru)
            atype
            index
            encoding
            string
            e
          ≡ ok (fru', true) e'')
        × (delete_custom (some fru') atype index e'' ≡ ok fru'' e'')
        × (custom_list fru'' atype ≡ custom_list fru atype)
  unfolding delete_custom
  add_custom_delete short fits =
      let (order', present', e'', run, here, _) = add_custom_lem in
      let fru' = record (set_customlist fru atype linked) { order = order'; present = present' } in
      let l = custom_list fru atype in
      let as_int : to_int index ≡ pos index = ground arith in
      let deleted : delete_reclist_entry linked (to_int index) ≡ some l = rw as_int (
        unfold delete_reclist_entry in
        rw (find_inserted l index (some field) short)
          (unfold remove_found in ap some (take-drop index l))) in
      (
        fru',
        set_customlist fru' atype l,
        e'',
        run,
        rw (custom_area_lem fru' e'' ferr_loc_caller atype low high, delete_custom)
            (rw (get-set_customlist fru e'' linked order' present' atype low high, bind_outcome)
              (rw deleted refl)),
        custom_list-set fru' l atype low high,
      )
