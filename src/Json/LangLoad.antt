-- ===== src/Json/LangLoad.antt =====
-- What frugen_loadfile_json does to the language of the product.
use frugen.Common.{
  ℕ, zero, suc, ◌≡◌, refl, true, Option, none, some, List, [], ◌∷◌, Bytes, codes, ◌==◌, ltb,
}
use mathlib.Core.Path.{subst}
use frugen.Errno.{FruErrno, ok, pure, deref}
use frugen.Field.{Field}
use frugen.Fru.{Fru, is_info_area, fru_internal_use, fru_chassis_info, fru_board_info, fru_mr}
use frugen.Area.{put, enable_area, disable_area, apos_last}
use frugen.Internal.{set_internal_hexstring, hexcopy}
use frugen.Mr.{is_nil}
use frugen.Load.Frame.{AllOk, bind-AllOk, next-AllOk}
use frugen.Cli.{same_string, list_tail, area_names}
use frugen.Cli.FieldOpt.{require, require_some}
use frugen.Cli.SetField.{Calendar, datestr_to_tv}
use frugen.Json.{JsonC, member, string_member, load_info_fields}
use frugen.Json.Load.{
  enable_last, try_disable, load_mr_mgmt_record, load_mr_raw_record, load_mr_record,
  load_mr_records, load_mr_area, load_type, load_lang, load_date, load_info_area, load_internal,
  load_records, load_area, load_areas, loadfile_json, raw_string,
}
use frugen.Json.ProductLang.{
  Speaks, enable_area-Speaks, disable_area-Speaks, try_enable-Speaks, ignored-Speaks, add_mr-Speaks,
}
use frugen.Json.LangKept.{test-AllOk, load_info_fields-Speaks}

module _ (json : JsonC) (l : ℕ) where
  open json use {Object, object_get_ex, array_get_idx, is_null, is_array, array_length, get_string}

  -- The records.
  load_mr_record-Speaks :
      (item : Object) (fru : Fru) (e : FruErrno)
      → Speaks l fru
      → AllOk (Speaks l) (load_mr_record json item fru e)
  unfolding load_mr_record load_mr_mgmt_record load_mr_raw_record
  load_mr_record-Speaks item fru e h =
      next-AllOk (Speaks l) (string_member json item (codes "type") e) _ (λ type_ e1.
        test-AllOk (Speaks l) (same_string type_ (codes "management")) _ _ e1
          (next-AllOk (Speaks l) (string_member json item (codes "subtype") e1) _ (λ subtype e2.
            next-AllOk (Speaks l) (require _ e2) _ (λ _ e3.
              next-AllOk (Speaks l) (string_member json item subtype e3) _
                (λ text e4. add_mr-Speaks l fru list_tail _ e4 h))))
          (test-AllOk (Speaks l) (same_string type_ (codes "custom")) _ _ e1
            (next-AllOk (Speaks l) (require_some (member json item (codes "custom_type")) e1) _
              (λ ifield e2. next-AllOk (Speaks l) (require _ e2) _ (λ _ e3.
                next-AllOk (Speaks l) (deref (raw_string json (member json item (codes "data"))) e3)
                  _ (λ hexstr e4. add_mr-Speaks l fru list_tail _ e4 h))))
            tt))

  load_mr_records-Speaks :
      (jso : Object) (n i : ℕ) (fru : Fru) (e : FruErrno)
      → Speaks l fru
      → AllOk (Speaks l) (load_mr_records json jso n i fru e)
  unfolding load_mr_records
  load_mr_records-Speaks jso zero i fru e h = h
  load_mr_records-Speaks jso (suc n) i fru e h =
      bind-AllOk (Speaks l) (Speaks l) _ _
        (test-AllOk (Speaks l) (is_null (array_get_idx jso i)) (pure fru)
          (load_mr_record json (array_get_idx jso i) fru) e h
          (load_mr_record-Speaks (array_get_idx jso i) fru e h))
        (λ fru' e1 h'. load_mr_records-Speaks jso n (suc i) fru' e1 h')

  load_records-Speaks :
      (jso : Object) (fru : Fru) (e : FruErrno)
      → Speaks l fru
      → AllOk (Speaks l) (load_records json jso fru e)
  unfolding load_records load_mr_area try_disable
  load_records-Speaks jso fru e h =
      bind-AllOk (Speaks l) (Speaks l) (load_mr_area json jso fru e) _
        (next-AllOk (Speaks l) (require (is_array jso) e) _ (λ _ e1.
          next-AllOk (Speaks l) (require (ltb 0 (array_length jso)) e1) _
            (λ _ e2. load_mr_records-Speaks jso (array_length jso) 0 fru e2 h)))
        (λ fru' e1 h'.
          test-AllOk (Speaks l) (is_nil fru'.mr) (try_disable fru' fru_mr) (pure fru') e1
            (ignored-Speaks l fru' (disable_area (some fru') fru_mr e1) h'
              (disable_area-Speaks l fru' fru_mr e1 h'))
            h')

  -- The areas.
  load_type-Speaks :
      (js : Option Object) (fru : Fru) → Speaks l fru → Speaks l (load_type json js fru)
  unfolding load_type
  load_type-Speaks none fru h = h
  load_type-Speaks (some js) fru h = h

  load_lang-Speaks :
      (js : Option Object) (fru : Fru) → Speaks l fru → Speaks l (load_lang json js fru)
  unfolding load_lang
  load_lang-Speaks none fru h = h
  load_lang-Speaks (some js) fru h = h

  load_date-Speaks :
      (calendar : Calendar) (js : Option Object) (fru : Fru) (e : FruErrno)
      → Speaks l fru
      → AllOk (Speaks l) (load_date json calendar js fru e)
  unfolding load_date
  load_date-Speaks calendar none fru e h = h
  load_date-Speaks calendar (some js) fru e h =
      next-AllOk (Speaks l) (deref (get_string js) e) _ (λ s e1.
        next-AllOk (Speaks l) (require_some (datestr_to_tv calendar s) e1) _ (λ tv e2.
          next-AllOk (Speaks l) (put fru.present fru_board_info true e2) _ (λ present' e3. h)))

  load_info_area-Speaks :
      (calendar : Calendar) (uninit : Field) (atype : ℕ) (jso : Object) (fru : Fru) (e : FruErrno)
      → Speaks l fru
      → AllOk (Speaks l) (load_info_area json calendar uninit atype jso fru e)
  unfolding load_info_area
  load_info_area-Speaks calendar uninit atype jso fru e h =
      bind-AllOk (Speaks l) (Speaks l) (load_info_fields json uninit atype jso fru e) _
        (load_info_fields-Speaks json l uninit atype jso fru e h)
        (λ fru' e1 h'.
          let spoken = load_lang-Speaks (member json jso (codes "lang")) fru' h' in
          test-AllOk (Speaks l) (atype == fru_chassis_info) _ _ e1
            (load_type-Speaks (member json jso (codes "type")) fru' h')
            (test-AllOk (Speaks l) (atype == fru_board_info) _ _ e1
              (load_date-Speaks calendar (member json jso (codes "date"))
                (load_lang json (member json jso (codes "lang")) fru') e1 spoken)
              spoken))

  load_internal-Speaks :
      (calendar : Calendar) (text : Option Bytes) (fru : Fru) (e : FruErrno)
      → Speaks l fru
      → AllOk (Speaks l) (load_internal json calendar text fru e)
  unfolding load_internal set_internal_hexstring
  load_internal-Speaks calendar none fru e h = h
  load_internal-Speaks calendar (some text) fru e h =
      next-AllOk (Speaks l) (hexcopy true calendar.new_byte fru.internal text e) _ (λ hexstring e1.
        try_enable-Speaks l (record fru { internal = some hexstring }) fru_internal_use e1 h)

  load_area-Speaks :
      (calendar : Calendar) (uninit : Field) (atype : ℕ) (js : Option Object) (fru : Fru)
      (e : FruErrno)
      → Speaks l fru
      → AllOk (Speaks l) (load_area json calendar uninit atype js fru e)
  unfolding load_area enable_last
  load_area-Speaks calendar uninit atype none fru e h = h
  load_area-Speaks calendar uninit atype (some jso) fru e h =
      bind-AllOk (Speaks l) (Speaks l) (enable_last fru atype e) _
        (ignored-Speaks l fru (enable_area (some fru) atype apos_last e) h
          (enable_area-Speaks l fru atype apos_last e h))
        (λ enabled e1 h'.
          test-AllOk (Speaks l) (atype == fru_internal_use) _ _ e1
            (load_internal-Speaks calendar (get_string jso) enabled e1 h')
            (test-AllOk (Speaks l) (is_info_area atype) _ _ e1
              (load_info_area-Speaks calendar uninit atype jso enabled e1 h')
              (load_records-Speaks jso enabled e1 h')))

  load_areas-Speaks :
      (calendar : Calendar) (uninit : Field) (jstree : Object) (atype : ℕ) (names : List Bytes)
      (fru : Fru) (e : FruErrno)
      → Speaks l fru
      → AllOk (Speaks l) (load_areas json calendar uninit jstree atype names fru e)
  unfolding load_areas
  load_areas-Speaks calendar uninit jstree atype [] fru e h = h
  load_areas-Speaks calendar uninit jstree atype (name ∷ names) fru e h =
      bind-AllOk (Speaks l) (Speaks l)
        (load_area json calendar uninit atype (object_get_ex jstree name) fru e) _
        (load_area-Speaks calendar uninit atype (object_get_ex jstree name) fru e h)
        (λ fru' e1 h'. load_areas-Speaks calendar uninit jstree (suc atype) names fru' e1 h')

-- Whenever frugen_loadfile_json succeeds, whatever the JSON file holds and whatever json-c and the
-- calendar are, the language of the product is the one from before the call.
pub loadfile_json-product_lang :
    (json : JsonC) (calendar : Calendar) (uninit : Field) (jstree : Option json.Object)
    (fru fru' : Fru) (e e' : FruErrno)
    → loadfile_json json calendar uninit jstree fru e ≡ ok fru' e'
    → fru'.product.product_lang ≡ fru.product.product_lang
unfolding loadfile_json
loadfile_json-product_lang json calendar uninit jstree fru fru' e e' run =
    let kept = next-AllOk (Speaks fru.product.product_lang) (require_some jstree e) _ (λ tree e1.
      load_areas-Speaks json fru.product.product_lang calendar uninit tree 0 area_names fru e1
        refl) in
    subst (AllOk (Speaks fru.product.product_lang)) run kept
