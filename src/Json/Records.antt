-- ===== src/Json/Records.antt =====
-- What add_mr_area_json does with the list of records.
use frugen.Common.{
  ℕ, zero, suc, ◌≡◌, refl, true, none, some, List, [], ◌∷◌, codes, get_elem?, minus_one,
}
use frugen.Errno.{FruErrno, ok, bind_outcome, with_error, fenone, ferr_loc_general}
use frugen.Fru.{Fru, MrRec, fru_mr}
use frugen.Mr.{Entry, mr_op_find, apply_op, get_mr, find_mr, record_of}
use frugen.Mr.Laws.{mr_operation_any, noted}
use frugen.Json.{JsonC}
use frugen.Json.Store.{
  add_records, record_at, is_last, add_mr_record_json, body_json, add_mr_area_json, with_records,
}

record_at_head :
    (json : JsonC) (fru : Fru) (rec : MrRec) (rest : List Entry) (e : FruErrno)
    → get_elem? fru.present fru_mr ≡ some true
    → fru.mr ≡ some rec ∷ rest
    → record_at json fru 0 e ≡ ok (some (some rec)) (noted 0 rest e)
unfolding record_at get_mr find_mr apply_op record_of
record_at_head json fru rec rest e here split =
    rw (mr_operation_any fru mr_op_find 0 [] (some rec) rest e here split refl, bind_outcome) refl

module _ (json : JsonC) (fru : Fru) (rec : MrRec) (js : json.Object)
    (here : get_elem? fru.present fru_mr ≡ some true)
    (written : (e : FruErrno) → body_json json rec.rec_type rec.body e ≡ ok js e) where
  open json use {Object, new_array, object_add, array_add}

  endless :
      (next : Entry) (rest : List Entry) (rounds count : ℕ) (js_mr : Object) (e : FruErrno)
      → fru.mr ≡ some rec ∷ next ∷ rest
      → (e' : FruErrno) × (add_records json rounds fru count js_mr e ≡ ok none e')
  unfolding add_records add_mr_record_json is_last
  endless next rest zero count js_mr e split = (e, refl)
  endless next rest (suc rounds) count js_mr e split =
      let e1 = with_error fenone ferr_loc_general minus_one e in
      let (e', run) = endless next rest rounds (suc count) (array_add js_mr js) e1 split in
      (
        e',
        rw (record_at_head json fru rec (next ∷ rest) e1 here split, bind_outcome)
            (rw (written e1, bind_outcome) run),
      )

  -- When the multirecord area is present and there are two records or more, of which the first
  -- one can be written, add_mr_area_json does not end, however many rounds its loop is given.
  pub add_mr_area_json_endless :
      (next : Entry) (rest : List Entry) (rounds : ℕ) (jso : Object) (e : FruErrno)
      → fru.mr ≡ some rec ∷ next ∷ rest
      → (e' : FruErrno) × (add_mr_area_json json rounds fru jso e ≡ ok none e')
  unfolding add_mr_area_json with_records
  add_mr_area_json_endless next rest rounds jso e split =
      let (e', run) = endless next rest rounds 0 new_array e split in
      (e', rw (run, bind_outcome) refl)

  -- When the multirecord area is present and holds a single record, which can be written,
  -- add_mr_area_json ends after one round, with a list of this record as the area.
  pub add_mr_area_json_single :
      (rounds : ℕ) (jso : Object) (e : FruErrno)
      → fru.mr ≡ some rec ∷ []
      → (e' : FruErrno) × (add_mr_area_json json (suc rounds) fru jso e
          ≡ ok (some (object_add jso (codes "multirecord") (array_add new_array js))) e')
  unfolding add_mr_area_json with_records add_records add_mr_record_json is_last
  add_mr_area_json_single rounds jso e split =
      let e1 = with_error fenone ferr_loc_general minus_one e in
      (
        noted 0 [] e1,
        rw (record_at_head json fru rec [] e1 here split, bind_outcome)
            (rw (written (noted 0 [] e1), bind_outcome) refl),
      )
