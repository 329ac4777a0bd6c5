-- ===== src/Json/Store.antt =====
-- The part of frugen-json.c that makes the JSON tree of a FRU. Allocations succeed; an assertion
-- that fails is undefined.
use frugen.Common.{to_int}
use frugen.Common.{
  ℕ, zero, suc, ◌-◌, Bool, true, false, Option, none, some, List, [], ◌∷◌, Bytes, codes, ◌==◌,
  get_or, get_elem?, pos, length, u8,
}
use frugen.Errno.{
  ErrorCode, ok, fail, Eff, ◌>>=◌, ◌>>◌, pure, deref, undefined, clearerr, fenofield, femrend,
}
use frugen.Field.{Field, FieldEnc, fe_auto}
use frugen.Fru.{
  Fru, MrRec, MrBody, zeroed, mgmt, raw, getfield, fru_internal_use, fru_chassis_info,
  fru_board_info, fru_mr, fru_mr_mgmt_access, fru_mr_raw, is_info_area,
}
use frugen.Custom.{get_custom}
use frugen.Custom.Add.{custom_list}
use frugen.Mr.{Entry, get_mr}
use frugen.Save.Record.{is_mgmt_subtype}
use frugen.Cli.{fatal, or_null, area_names, field_name, enc_name_by_val, mr_mgmt_name}
use frugen.Cli.SetField.{Calendar, tv_to_datestr}
use frugen.Json.{JsonC}

abbrev pub is_auto_enc : FieldEnc → Bool
is_auto_enc fe_auto = true
is_auto_enc _ = false

abbrev pub is_fenofield : ErrorCode → Bool
is_fenofield fenofield = true
is_fenofield _ = false

abbrev pub is_femrend : ErrorCode → Bool
is_femrend femrend = true
is_femrend _ = false

module _ (json : JsonC) where
  open json use {Object, new_string, new_int, new_object, new_array, object_add, array_add}

  -- add_iu_area_json
  unfoldable pub add_iu_area_json : Option Bytes → Object → Eff Object
  add_iu_area_json internal jso = do
    text ← deref internal
    pure (object_add jso (codes "internal") (new_string text))

  -- add_info_field: the entry, and the two places that it is added to.
  unfoldable pub field_entry : Field → Object
  field_entry field = elim (is_auto_enc field.enc) [
    | true ↦ new_string field.val
    | false ↦
        object_add (object_add new_object (codes "type") (new_string (enc_name_by_val field.enc)))
          (codes "data") (new_string field.val)
  ]

  unfoldable pub add_info_field : Object → Option Bytes → Field → Object
  add_info_field jso none field = array_add jso (field_entry field)
  add_info_field jso (some key) field = object_add jso key (field_entry field)

  -- The fields of add_info_area_json that are not strings. The section starts anew with the
  -- language, which is always the product's, and again with the date of a board, which is left
  -- out when its text is empty.
  unfoldable pub date_text : Calendar → Fru → Bytes
  date_text calendar fru = elim fru.board.tv_auto [
    | true ↦ codes "auto"
    | false ↦ tv_to_datestr calendar fru.board.tv false
  ]

  unfoldable pub lang_section : Fru → Object
  lang_section fru =
      object_add new_object (codes "lang") (new_int (to_int fru.product.product_lang))

  unfoldable pub board_section : Fru → Bytes → Object
  board_section fru [] = lang_section fru
  board_section fru (c ∷ date) =
      add_info_field new_object (some (codes "date")) (record { enc = fe_auto; val = c ∷ date })

  unfoldable pub first_section : Calendar → Fru → ℕ → Object
  first_section calendar fru atype = elim (atype == fru_chassis_info) [
    | true ↦ object_add new_object (codes "type") (new_int (pos fru.chassis.chassis_type))
    | false ↦ elim (atype == fru_board_info) [
      | true ↦ board_section fru (date_text calendar fru)
      | false ↦ lang_section fru
    ]
  ]

  -- Its loop over the standard fields, from index `i` on, and the one over the custom fields,
  -- with the rounds left: none when they are used up.
  unfoldable pub add_fields : Fru → ℕ → ℕ → List Bytes → Object → Eff Object
  add_fields fru atype i [] section = pure section
  add_fields fru atype i (name ∷ names) section = do
    field ← getfield (some fru) atype i
    add_fields fru atype (suc i) names (add_info_field section (some name) field)

  unfoldable pub custom_at : Fru → ℕ → ℕ → Eff (Option (Option Field))
  custom_at fru atype idx e = or_null (get_custom (some fru) atype idx e)

  unfoldable pub add_customs : ℕ → Fru → ℕ → ℕ → Object → Eff (ℕ × Object)
  add_customs zero fru atype idx custom_array = undefined
  add_customs (suc n) fru atype idx custom_array = do
    found ← custom_at fru atype idx
    elim found [
      | some (some field) ↦
          add_customs n fru atype (suc idx) (add_info_field custom_array none field)
      | _ ↦ pure (idx, custom_array)
    ]

  unfoldable pub require_nofield : Eff (Unit {0})
  require_nofield e = elim (is_fenofield e.code) [ true ↦ ok tt e | false ↦ fail e ]

  unfoldable pub with_customs : Object → ℕ × Object → Object
  with_customs section (zero, custom_array) = section
  with_customs section (suc idx, custom_array) = object_add section (codes "custom") custom_array

  -- add_info_area_json
  unfoldable pub add_info_area_json : Calendar → Fru → ℕ → Object → Eff Object
  add_info_area_json calendar fru atype jso = do
    section ← add_fields fru atype 0 (field_name atype) (first_section calendar fru atype)
    added ← add_customs (suc (length (custom_list fru atype))) fru atype 0 new_array
    require_nofield
    pure (object_add jso (get_or area_names atype []) (with_customs section added))

  -- add_mr_record_json: a record of another type is an empty object.
  unfoldable pub mgmt_json : ℕ → Bytes → Eff Object
  mgmt_json subtype text = elim (is_mgmt_subtype subtype) [
    | false ↦ fatal
    | true ↦
        let recname = get_or mr_mgmt_name (subtype - 1) [] in
        pure (
          object_add
            (object_add (object_add new_object (codes "type") (new_string (codes "management")))
              (codes "subtype") (new_string recname))
            recname (new_string text))
  ]

  unfoldable pub raw_json : ℕ → Bytes → Object
  raw_json raw_type text =
      object_add
        (object_add (object_add new_object (codes "type") (new_string (codes "custom")))
          (codes "custom_type") (new_int (pos (u8 raw_type))))
        (codes "data") (new_string text)

  unfoldable pub body_json : ℕ → MrBody → Eff Object
  body_json rec_type (mgmt subtype text) = elim (rec_type == fru_mr_mgmt_access) [
    | true ↦ mgmt_json subtype text
    | false ↦ elim (rec_type == fru_mr_raw) [ true ↦ undefined | false ↦ pure new_object ]
  ]
  body_json rec_type (raw raw_type enc text) = elim (rec_type == fru_mr_mgmt_access) [
    | true ↦ undefined
    | false ↦ elim (rec_type == fru_mr_raw) [
      | true ↦ pure (raw_json raw_type text)
      | false ↦ pure new_object
    ]
  ]
  body_json rec_type zeroed = elim (rec_type == fru_mr_mgmt_access) [
    | true ↦ mgmt_json 0 []
    | false ↦ elim (rec_type == fru_mr_raw) [
      | true ↦ pure (raw_json 0 [])
      | false ↦ pure new_object
    ]
  ]

  unfoldable pub add_mr_record_json : Object → MrRec → Eff Object
  add_mr_record_json jsa rec = do
    js_rec ← body_json rec.rec_type rec.body
    pure (array_add jsa js_rec)

  -- The loop of add_mr_area_json, with the rounds left: none when they are used up before the loop
  -- ends. Each round asks for the record at the head of the list.
  unfoldable pub record_at : Fru → ℕ → Eff (Option Entry)
  record_at fru index e = or_null (get_mr (some fru) index e)

  unfoldable pub is_last : Eff Bool
  is_last e = ok (is_femrend e.code) e

  unfoldable pub add_records : ℕ → Fru → ℕ → Object → Eff (Option (ℕ × Object))
  add_records zero fru count js_mr = pure none
  add_records (suc n) fru count js_mr = do
    clearerr
    rec ← record_at fru 0
    last ← is_last
    elim rec [
      | some (some r) ↦ do
        js_mr' ← add_mr_record_json js_mr r
        elim last [
          | true ↦ pure (some (suc count, js_mr'))
          | false ↦ add_records n fru (suc count) js_mr'
        ]
      | _ ↦ pure (some (count, js_mr))
    ]

  unfoldable pub with_records : Object → Option (ℕ × Object) → Option Object
  with_records jso none = none
  with_records jso (some (zero, js_mr)) = some jso
  with_records jso (some (suc count, js_mr)) = some (object_add jso (codes "multirecord") js_mr)

  unfoldable pub add_mr_area_json : ℕ → Fru → Object → Eff (Option Object)
  add_mr_area_json rounds fru jso = do
    added ← add_records rounds fru 0 new_array
    pure (with_records jso added)

  -- The loop of save_to_json_file over the order of the areas. With none the program has not left
  -- add_mr_area_json in the given number of rounds.
  unfoldable pub add_area_json : Calendar → ℕ → Fru → ℕ → Object → Eff (Option Object)
  add_area_json calendar rounds fru atype jso = elim (atype == fru_internal_use) [
    | true ↦ do jso' ← add_iu_area_json fru.internal jso; pure (some jso')
    | false ↦ elim (is_info_area atype) [
      | true ↦ do jso' ← add_info_area_json calendar fru atype jso; pure (some jso')
      | false ↦ elim (atype == fru_mr) [ true ↦ add_mr_area_json rounds fru jso | false ↦ fatal ]
    ]
  ]

  unfoldable pub add_areas_json : Calendar → ℕ → Fru → List ℕ → Object → Eff (Option Object)
  add_areas_json calendar rounds fru [] jso = pure (some jso)
  add_areas_json calendar rounds fru (atype ∷ order) jso = do
    here ← deref (get_elem? fru.present atype)
    added ← elim here [
      | true ↦ add_area_json calendar rounds fru atype jso
      | false ↦ pure (some jso)
    ]
    elim added [ none ↦ pure none | some jso' ↦ add_areas_json calendar rounds fru order jso' ]

  -- save_to_json_file, up to the tree that json_object_to_fd writes
  unfoldable pub save_to_json : Calendar → ℕ → Fru → Eff (Option Object)
  save_to_json calendar rounds fru = add_areas_json calendar rounds fru fru.order new_object
