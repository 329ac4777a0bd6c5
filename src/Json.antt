-- ===== src/Json.antt =====
-- The calls of json-c that frugen-json.c makes, and the part of frugen-json.c that loads fields. A
-- `false` of the loaders ends the program with `fatal`, like the failure of Eff here; what is only
-- printed is left out. Allocations succeed.
pub mod Load
pub mod Store
pub mod Records
pub mod Fields
pub mod ProductLang
pub mod LangKept
pub mod LangLoad
mod Tests
use frugen.Common.{
  ℕ, zero, suc, ◌+◌, Bool, true, false, not, Option, none, some, List, [], ◌∷◌, Bytes, codes, ◌==◌,
  ltb, take, ℤ, pos, negsuc, length, get_or, u8,
}
use frugen.Errno.{Outcome, ok, fail, fault, Eff, ◌>>=◌, ◌>>◌, pure, deref, undefined}
use frugen.Field.{Field, FieldEnc, fe_empty, fe_auto, fe_unknown}
use frugen.Field.Encode.{setfield}
use frugen.Fru.{
  Fru, MrRec, mgmt, raw, getfield, fru_internal_use, fru_chassis_info, fru_board_info,
  fru_product_info, fru_mr, fru_mr_mgmt_access, fru_mr_raw, is_info_area,
}
use frugen.Area.{enable_area, disable_area, apos_last, put}
use frugen.Custom.{add_custom}
use frugen.Internal.{set_internal_hexstring}
use frugen.Mr.{add_mr, is_nil}
use frugen.Save.Record.{is_mgmt_subtype, mgmt_maxdata}
use frugen.Cli.{
  fatal, or_null, same_string, list_tail, area_names, enc_by_name, mr_mgmt_type_by_name,
}
use frugen.Cli.FieldOpt.{require, require_some, is_unknown}
use frugen.Cli.SetField.{set_standard, stored, u8_of_int, Calendar, datestr_to_tv}

-- `Object` is the type `json_object *`, with NULL as a value. An object is built before it is added
-- to another one, and so the calls that add return the new value.
pub record JsonC : Type 1 where
  pub Object : Type 0
  -- json_object_object_get_ex: none for `false`
  pub object_get_ex : Object → Bytes → Option Object
  pub is_null : Object → Bool
  pub get_string : Object → Option Bytes
  -- json_object_get_int, and whether it sets `errno`
  pub get_int : Object → ℤ × Bool
  -- json_object_get_type compared with json_type_array
  pub is_array : Object → Bool
  pub array_length : Object → ℕ
  pub array_get_idx : Object → ℕ → Object
  pub new_string : Bytes → Object
  pub new_int : ℤ → Object
  pub new_object : Object
  pub new_array : Object
  pub object_add : Object → Bytes → Object → Object
  pub array_add : Object → Object → Object

-- The names of the fields in load_info_fields, by the area.
unfoldable pub jsnames : ℕ → List Bytes
jsnames atype =
    get_or
      ([]
        ∷ (codes "pn" ∷ codes "serial" ∷ [])
        ∷ (codes "mfg" ∷ codes "pname" ∷ codes "serial" ∷ codes "pn" ∷ codes "file" ∷ [])
        ∷ (codes "mfg"
            ∷ codes "pname"
            ∷ codes "pn"
            ∷ codes "ver"
            ∷ codes "serial"
            ∷ codes "atag"
            ∷ codes "file"
            ∷ [])
        ∷ [])
      atype []

unfoldable pub known_or_auto : FieldEnc → FieldEnc
known_or_auto fe_unknown = fe_auto
known_or_auto enc = enc

module _ (json : JsonC) where
  open json use {
    Object, object_get_ex, is_null, get_string, get_int, is_array, array_length, array_get_idx,
  }

  -- json_object_object_get_ex with the test of the object that it stores.
  unfoldable pub not_null : Option Object → Option Object
  not_null none = none
  not_null (some v) = elim (is_null v) [ true ↦ none | false ↦ some v ]

  unfoldable pub member : Object → Bytes → Option Object
  member jso key = not_null (object_get_ex jso key)

  -- The string that an object's member is to have.
  unfoldable pub string_member : Object → Bytes → Eff Bytes
  string_member jso key = do v ← require_some (member jso key); require_some (get_string v)

  -- load_single_field: an object with the encoding and the value, or a string.
  unfoldable pub plain_field : Object → Eff (FieldEnc × Option Bytes)
  plain_field jsfield = do s ← require_some (get_string jsfield); pure (fe_auto, some s)

  unfoldable pub typed_field : Object → Object → Eff (FieldEnc × Option Bytes)
  typed_field typefield valfield = do
    name ← deref (get_string typefield)
    pure (known_or_auto (enc_by_name name), get_string valfield)

  unfoldable pub field_parts : Object → Eff (FieldEnc × Option Bytes)
  field_parts jsfield = elim (object_get_ex jsfield (codes "type")) [
    | none ↦ plain_field jsfield
    | some typefield ↦ elim (object_get_ex jsfield (codes "data")) [
      | none ↦ plain_field jsfield
      | some valfield ↦ typed_field typefield valfield
    ]
  ]

  unfoldable pub load_single_field : Field → Object → Eff Field
  load_single_field field jsfield = do
    (encoding, val) ← field_parts jsfield
    done ← setfield (some field) encoding val
    stored done

  -- The loop of load_info_fields over the standard fields, from index `i` on. It ends when
  -- fru_getfield fails; an index behind the names is not read.
  unfoldable pub field_at : Fru → ℕ → ℕ → Eff (Option Field)
  field_at fru atype i e = or_null (getfield (some fru) atype i e)

  unfoldable pub load_field : Fru → ℕ → ℕ → Field → Option Object → Eff Fru
  load_field fru atype i field none = pure fru
  load_field fru atype i field (some jsfield) = do
    loaded ← load_single_field field jsfield
    pure (set_standard fru atype i loaded)

  unfoldable pub load_fields : ℕ → Object → ℕ → List Bytes → Fru → Eff Fru
  load_fields atype jso i [] fru = do
    found ← field_at fru atype i
    elim found [ none ↦ pure fru | some field ↦ undefined ]
  load_fields atype jso i (jsname ∷ names) fru = do
    found ← field_at fru atype i
    elim found [
      | none ↦ pure fru
      | some field ↦ do
        fru' ← load_field fru atype i field (object_get_ex jso jsname)
        load_fields atype jso (suc i) names fru'
    ]

  -- Its loop over the custom fields, with the rounds left. `uninit` is what the local variable
  -- `field` holds.
  unfoldable pub load_custom : Field → ℕ → Object → Fru → Eff Fru
  load_custom uninit atype item fru = elim (is_null item) [
    | true ↦ pure fru
    | false ↦ do
      field ← load_single_field uninit item
      (fru', added) ← add_custom true true (some fru) atype list_tail field.enc (some field.val)
      require added
      pure fru'
  ]

  unfoldable pub load_customs : Field → ℕ → Object → ℕ → ℕ → Fru → Eff Fru
  load_customs uninit atype jsfield zero i fru = pure fru
  load_customs uninit atype jsfield (suc n) i fru = do
    fru' ← load_custom uninit atype (array_get_idx jsfield i) fru
    load_customs uninit atype jsfield n (suc i) fru'

  unfoldable pub load_custom_list : Field → ℕ → Option Object → Fru → Eff Fru
  load_custom_list uninit atype none fru = pure fru
  load_custom_list uninit atype (some jsfield) fru = do
    require (is_array jsfield)
    load_customs uninit atype jsfield (array_length jsfield) 0 fru

  -- load_info_fields
  unfoldable pub load_info_fields : Field → ℕ → Object → Fru → Eff Fru
  load_info_fields uninit atype jso fru = do
    fru' ← load_fields atype jso 0 (jsnames atype) fru
    load_custom_list uninit atype (member jso (codes "custom")) fru'
