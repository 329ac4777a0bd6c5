-- ===== src/Cli.antt =====
-- frugen.h and the names, the option `--set` and the option `--mr-uuid` of frugen.c. `fatal` and
-- `fru_fatal`, which print a message and end the program with exit(1), are the failure of Eff.
pub mod FieldOpt
pub mod SetField
pub mod Uuid
pub mod Upsert
pub mod UpdateUuid
pub mod Items
pub mod PrintMr
pub mod Print
pub mod Dump
pub mod Listing
pub mod Main
pub mod Cases
pub mod Parse
pub mod Assign
mod Sample
mod Tests
pub mod Names
use frugen.Common.{
  ℕ, zero, suc, ◌+◌, ◌-◌, Bool, true, false, Option, none, some, List, [], ◌∷◌, Bytes, codes, ltb,
  leb, ◌==◌, ◌&&◌, get_or, map,
}
use frugen.Errno.{Outcome, Eff, ok, fail, fault}
use frugen.Field.{
  FieldEnc, fe_empty, fe_binary, fe_bcdplus, fe_6bitascii, fe_text, fe_auto, fe_unknown,
}
use frugen.Save.Record.{is_mgmt_subtype}

-- fatal and fru_fatal
abbrev pub fatal {ℓ} : {A : Type ℓ} → Eff A
fatal e = fail e

-- A call that returns a pointer, where the code goes on: a failure is NULL.
abbrev pub or_null {ℓ} : {A : Type ℓ} → Outcome A → Outcome (Option A)
or_null (ok a e) = ok (some a) e
or_null (fail e) = ok none e
or_null fault = fault

-- `!strcmp(s, t)`
unfoldable pub same_string : Bytes → Bytes → Bool
same_string [] [] = true
same_string [] (d ∷ t) = false
same_string (c ∷ s) [] = false
same_string (c ∷ s) (d ∷ t) = c == d && same_string s t

-- FRU_LIST_TAIL
abbrev pub list_tail : ℕ
list_tail = 0x7fffffff

-- The names of areas in area_names, and those of fields in chassis_fields, board_fields and
-- product_fields: the member `json`.
abbrev pub area_names : List Bytes
area_names =
    codes "internal" ∷ codes "chassis" ∷ codes "board" ∷ codes "product" ∷ codes "multirecord" ∷ []

unfoldable pub field_name : ℕ → List Bytes
field_name atype =
    get_or
      ([]
        ∷ (codes "pn" ∷ codes "serial" ∷ [])
        ∷ (codes "mfg" ∷ codes "pname" ∷ codes "serial" ∷ codes "pn" ∷ codes "file" ∷ [])
        ∷ (codes "mfg"
            ∷ codes "pname"
            ∷ codes "pn"
            ∷ codes "version"
            ∷ codes "serial"
            ∷ codes "atag"
            ∷ codes "file"
            ∷ [])
        ∷ [])
      atype []

unfoldable pub field_max : ℕ → ℕ
field_max atype = get_or (0 ∷ 2 ∷ 5 ∷ 7 ∷ 0 ∷ []) atype 0

-- frugen_enc_name_by_val, with the table frugen_enc_names, which has no name for FRU_FE_UNKNOWN.
unfoldable pub enc_name_by_val : FieldEnc → Bytes
enc_name_by_val fe_empty = codes "empty"
enc_name_by_val fe_binary = codes "binary"
enc_name_by_val fe_bcdplus = codes "bcdplus"
enc_name_by_val fe_6bitascii = codes "6bitascii"
enc_name_by_val fe_text = codes "text"
enc_name_by_val fe_auto = codes "auto"
enc_name_by_val fe_unknown = codes "invalid"

-- frugen_enc_by_name: the loop over the encodings from FRU_FE_EMPTY to FRU_FE_AUTO.
unfoldable pub enc_search : Bytes → List FieldEnc → FieldEnc
enc_search name [] = fe_unknown
enc_search name (enc ∷ encs) = elim (same_string name (enc_name_by_val enc)) [
  | true ↦ enc
  | false ↦ enc_search name encs
]

abbrev pub named_encs : List FieldEnc
named_encs = fe_empty ∷ fe_binary ∷ fe_bcdplus ∷ fe_6bitascii ∷ fe_text ∷ fe_auto ∷ []

unfoldable pub enc_by_name : Bytes → FieldEnc
enc_by_name name = enc_search name named_encs

-- FRU_MR_MGMT_INVALID
abbrev pub mgmt_invalid : ℕ
mgmt_invalid = 0

-- The member `json` of frugen_mr_mgmt_name, by the index of the subtype, which is one less.
abbrev pub mr_mgmt_name : List Bytes
mr_mgmt_name =
    codes "surl"
    ∷ codes "sname"
    ∷ codes "spingaddr"
    ∷ codes "curl"
    ∷ codes "cname"
    ∷ codes "cpingaddr"
    ∷ codes "uuid"
    ∷ []

-- frugen_mr_mgmt_type_by_name: its loop, from the subtype `subtype` on.
unfoldable pub mgmt_search : Bytes → ℕ → List Bytes → ℕ
mgmt_search name subtype [] = mgmt_invalid
mgmt_search name subtype (known ∷ names) = elim (same_string known name) [
  | true ↦ subtype
  | false ↦ mgmt_search name (suc subtype) names
]

unfoldable pub mr_mgmt_type_by_name : Option Bytes → ℕ
mr_mgmt_type_by_name none = mgmt_invalid
mr_mgmt_type_by_name (some name) = mgmt_search name 1 mr_mgmt_name

-- frugen_mr_mgmt_name_by_type
unfoldable pub mr_mgmt_name_by_type : ℕ → Eff Bytes
mr_mgmt_name_by_type subtype = elim (is_mgmt_subtype subtype) [
  | true ↦ λ e. ok (get_or mr_mgmt_name (subtype - 1) []) e
  | false ↦ fatal
]
