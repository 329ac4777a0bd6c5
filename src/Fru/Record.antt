-- ===== src/Fru/Record.antt =====
-- fru_mr_rec_t and fru_mr_type_t of fru.h.in: a record of the multirecord area.
use frugen.Common.{ℕ, Bool, ◌||◌, leb, ◌==◌, Bytes}
use frugen.Field.{FieldEnc}

-- The members of the union that the library reads or writes; `zeroed` is the union that `calloc`
-- leaves. The data are C strings.
pub data MrBody : Type 0 where
  zeroed : MrBody
  mgmt : (subtype : ℕ) → Bytes → MrBody
  raw : (raw_type : ℕ) → FieldEnc → Bytes → MrBody

pub record MrRec : Type 0 where
  pub rec_type : ℕ
  pub body : MrBody

abbrev pub fru_mr_mgmt_access : ℕ
fru_mr_mgmt_access = 3

abbrev pub fru_mr_raw : ℕ
fru_mr_raw = 0x100

abbrev pub fru_mr_type_count : ℕ
fru_mr_type_count = 0x101

abbrev pub fru_mr_any : ℕ
fru_mr_any = 0x102

abbrev pub fru_mr_empty : ℕ
fru_mr_empty = 0x103

-- FRU_MR_IS_VALID_TYPE, and the two types that it leaves out and a search allows.
abbrev pub is_searchable : ℕ → Bool
is_searchable type_ = leb type_ 0xff || fru_mr_raw == type_ || fru_mr_any == type_
