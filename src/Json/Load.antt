-- ===== src/Json/Load.antt =====
-- The part of frugen-json.c that loads records and areas, and frugen_loadfile_json.
use frugen.Custom.{size_of_int}
use frugen.Common.{◌%◌, ◌^◌}
use frugen.Common.{
  ℕ, zero, suc, Bool, true, false, Option, none, some, List, [], ◌∷◌, Bytes, codes, ◌==◌, ltb, take,
  ℤ, pos, negsuc,
}
use frugen.Errno.{Outcome, ok, fail, fault, Eff, ◌>>=◌, ◌>>◌, pure, deref}
use frugen.Field.{Field, fe_empty}
use frugen.Fru.{
  Fru, mgmt, raw, fru_internal_use, fru_chassis_info, fru_board_info, fru_mr, fru_mr_mgmt_access,
  fru_mr_raw, is_info_area,
}
use frugen.Area.{enable_area, disable_area, apos_last, put}
use frugen.Internal.{set_internal_hexstring}
use frugen.Mr.{add_mr, is_nil}
use frugen.Save.Record.{is_mgmt_subtype, mgmt_maxdata}
use frugen.Cli.{fatal, same_string, list_tail, area_names, mr_mgmt_type_by_name}
use frugen.Cli.FieldOpt.{require, require_some}
use frugen.Cli.SetField.{u8_of_int, Calendar, datestr_to_tv}
use frugen.Json.{JsonC, member, string_member, load_info_fields}

-- FRU_LANG_ENGLISH
abbrev pub lang_english : ℕ
lang_english = 25

-- FRU_MRR_RAW_MAXDATA, which is the size of `raw.data` less one
abbrev pub raw_maxdata : ℕ
raw_maxdata = 510

-- FRU_MR_IS_VALID_TYPE, on an int32_t
abbrev pub is_raw_type : ℤ → Bool
is_raw_type (pos n) = ltb n 256
is_raw_type (negsuc n) = false

abbrev pub nat_of : ℤ → ℕ
nat_of (pos n) = n
nat_of (negsuc n) = 0

-- fru_enable_area at the end, and fru_disable_area, whose results are not looked at.
unfoldable pub ignored : Fru → Outcome Fru → Outcome Fru
ignored fru (ok fru' e) = ok fru' e
ignored fru (fail e) = ok fru e
ignored fru fault = fault

unfoldable pub enable_last : Fru → ℕ → Eff Fru
enable_last fru atype e = ignored fru (enable_area (some fru) atype apos_last e)

unfoldable pub try_disable : Fru → ℕ → Eff Fru
try_disable fru atype e = ignored fru (disable_area (some fru) atype e)

module _ (json : JsonC) where
  open json use {
    Object, object_get_ex, is_null, get_string, get_int, is_array, array_length, array_get_idx,
  }

  -- load_mr_mgmt_record
  unfoldable pub load_mr_mgmt_record : Object → Fru → Eff Fru
  load_mr_mgmt_record item fru = do
    subtype ← string_member json item (codes "subtype")
    let subtype_id = mr_mgmt_type_by_name (some subtype)
    require (is_mgmt_subtype subtype_id)
    text ← string_member json item subtype
    add_mr true true (some fru) list_tail (
        some (record {
          rec_type = fru_mr_mgmt_access;
          body = mgmt subtype_id (take mgmt_maxdata text);
        }))

  -- load_mr_raw_record: a missing string is only warned about.
  unfoldable pub raw_string : Option Object → Option Bytes
  raw_string none = none
  raw_string (some ifield) = get_string ifield

  unfoldable pub load_mr_raw_record : Object → Fru → Eff Fru
  load_mr_raw_record item fru = do
    ifield ← require_some (member json item (codes "custom_type"))
    let custom_type = (get_int ifield).0
    require (is_raw_type custom_type)
    hexstr ← deref (raw_string (member json item (codes "data")))
    add_mr true true (some fru) list_tail (
        some (record {
          rec_type = fru_mr_raw;
          body = raw (nat_of custom_type) fe_empty (take raw_maxdata hexstr);
        }))

  -- load_mr_record
  unfoldable pub load_mr_record : Object → Fru → Eff Fru
  load_mr_record item fru = do
    type_ ← string_member json item (codes "type")
    elim (same_string type_ (codes "management")) [
      | true ↦ load_mr_mgmt_record item fru
      | false ↦ elim (same_string type_ (codes "custom")) [
        | true ↦ load_mr_raw_record item fru
        | false ↦ fatal
      ]
    ]

  -- load_mr_area, with its loop: an empty array is a failure.
  unfoldable pub load_mr_records : Object → ℕ → ℕ → Fru → Eff Fru
  load_mr_records jso zero i fru = pure fru
  load_mr_records jso (suc n) i fru = do
    fru' ← elim (is_null (array_get_idx jso i)) [
      | true ↦ pure fru
      | false ↦ load_mr_record (array_get_idx jso i) fru
    ]
    load_mr_records jso n (suc i) fru'

  unfoldable pub load_mr_area : Object → Fru → Eff Fru
  load_mr_area jso fru = do
    require (is_array jso)
    require (ltb 0 (array_length jso))
    load_mr_records jso (array_length jso) 0 fru

  -- load_info_area: the language of a product goes to the board, like that of a board.
  unfoldable pub load_type : Option Object → Fru → Fru
  load_type none fru = fru
  load_type (some jsfield) fru = record fru {
    chassis = record fru.chassis { chassis_type = u8_of_int (get_int jsfield).0 };
  }

  -- The language code is an enum of 32 bits.
  unfoldable pub lang_of : ℤ × Bool → ℕ
  lang_of (n, true) = lang_english
  lang_of (n, false) = size_of_int n % 2 ^ 32

  unfoldable pub load_lang : Option Object → Fru → Fru
  load_lang none fru = fru
  load_lang (some jsfield) fru = record fru {
    board = record fru.board { board_lang = lang_of (get_int jsfield) };
  }

  -- The flag that the text "auto" sets is overwritten, or lost when the text is no date.
  unfoldable pub load_date : Calendar → Option Object → Fru → Eff Fru
  load_date calendar none fru = pure fru
  load_date calendar (some jsfield) fru = do
    s ← deref (get_string jsfield)
    tv ← require_some (datestr_to_tv calendar s)
    present' ← put fru.present fru_board_info true
    pure (record fru { board = record fru.board { tv = tv; tv_auto = false }; present = present' })

  unfoldable pub load_info_area : Calendar → Field → ℕ → Object → Fru → Eff Fru
  load_info_area calendar uninit atype jso fru = do
    fru' ← load_info_fields json uninit atype jso fru
    elim (atype == fru_chassis_info) [
      | true ↦ pure (load_type (member json jso (codes "type")) fru')
      | false ↦ elim (atype == fru_board_info) [
        | true ↦
            load_date calendar (member json jso (codes "date"))
              (load_lang (member json jso (codes "lang")) fru')
        | false ↦ pure (load_lang (member json jso (codes "lang")) fru')
      ]
    ]

  -- One area of frugen_loadfile_json, and its loop.
  unfoldable pub load_internal : Calendar → Option Bytes → Fru → Eff Fru
  load_internal calendar none fru = pure fru
  load_internal calendar (some text) fru =
      set_internal_hexstring true calendar.new_byte (some fru) (some text)

  unfoldable pub load_records : Object → Fru → Eff Fru
  load_records jso fru = do
    fru' ← load_mr_area jso fru
    elim (is_nil fru'.mr) [ true ↦ try_disable fru' fru_mr | false ↦ pure fru' ]

  unfoldable pub load_area : Calendar → Field → ℕ → Option Object → Fru → Eff Fru
  load_area calendar uninit atype none fru = pure fru
  load_area calendar uninit atype (some jso) fru = do
    enabled ← enable_last fru atype
    elim (atype == fru_internal_use) [
      | true ↦ load_internal calendar (get_string jso) enabled
      | false ↦ elim (is_info_area atype) [
        | true ↦ load_info_area calendar uninit atype jso enabled
        | false ↦ load_records jso enabled
      ]
    ]

  unfoldable pub load_areas : Calendar → Field → Object → ℕ → List Bytes → Fru → Eff Fru
  load_areas calendar uninit jstree atype [] fru = pure fru
  load_areas calendar uninit jstree atype (name ∷ names) fru = do
    fru' ← load_area calendar uninit atype (object_get_ex jstree name) fru
    load_areas calendar uninit jstree (suc atype) names fru'

  -- frugen_loadfile_json, with what json_object_from_file returns
  unfoldable pub loadfile_json : Calendar → Field → Option Object → Fru → Eff Fru
  loadfile_json calendar uninit jstree fru = do
    tree ← require_some jstree
    load_areas calendar uninit tree 0 area_names fru
