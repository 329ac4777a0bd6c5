-- ===== src/Field.antt =====
-- The types of an information area's field, encoded and decoded, and the macros on the type/length
-- byte: fru.h.in and lib/fru-private.h.
pub mod Decode
pub mod Encode
pub mod Typelen
pub mod Bcd
pub mod Text
pub mod SixBit
pub mod RoundTrip
pub mod Safety
pub mod Prefix
pub mod Limits
pub mod Setfield
pub mod Binary
mod Tests
use frugen.Common.{
  ℕ, ◌+◌, ◌*◌, ◌/◌, ◌%◌, Bool, true, false, Bytes, u8, ◌<<<◌, ◌>>>◌, low_bits, bit_or, ◌==◌,
  if◌then◌else◌, [],
}

-- fru_field_enc_t. FRU_FE_PRESERVE is FRU_FE_UNKNOWN, and FRU_FE_BASE is FRU_FE_BINARY.
pub data FieldEnc : Type 0 where
  fe_empty fe_binary fe_bcdplus fe_6bitascii fe_text fe_auto fe_unknown : FieldEnc

-- FRU_FE_IS_REAL
abbrev pub is_real : FieldEnc → Bool
is_real fe_binary = true
is_real fe_bcdplus = true
is_real fe_6bitascii = true
is_real fe_text = true
is_real _ = false

-- fru_field_t, with `val` as the C string that it holds.
pub record Field : Type 0 where
  pub enc : FieldEnc
  pub val : Bytes

-- A zeroed fru_field_t.
abbrev pub blank_field : Field
blank_field = record { enc = fe_empty; val = [] }

-- fru__file_field_t: `payload` is the memory from `data` on, which may reach beyond the field.
pub record FileField : Type 0 where
  pub typelen : ℕ
  pub payload : Bytes

-- FRU__TYPE_BINARY to FRU__TYPE_TEXT
abbrev pub type_binary : ℕ
type_binary = 0

abbrev pub type_bcdplus : ℕ
type_bcdplus = 1

abbrev pub type_ascii_6bit : ℕ
type_ascii_6bit = 2

abbrev pub type_text : ℕ
type_text = 3

-- FRU__FIELDLEN: it clears bits 6 and 7 of a size, and no other.
abbrev pub fieldlen : ℕ → ℕ
fieldlen x = x / 256 * 256 + x % 64

-- FRU__FIELDMAXLEN
abbrev pub field_max_len : ℕ
field_max_len = 63

-- FRU__TYPELEN, stored into a byte: of the two operands of `|` that keeps the low 8 bits.
abbrev pub make_typelen : ℕ → ℕ → ℕ
make_typelen t l = bit_or (t <<< 6) (u8 (fieldlen l))

abbrev pub field_empty : ℕ
field_empty = 0xc0

abbrev pub field_terminator : ℕ
field_terminator = 0xc1

-- FRU__FIELD_ENC_T
abbrev pub enc_of_typelen : ℕ → FieldEnc
enc_of_typelen t =
    let type = low_bits t 8 >>> 6 in
    if type == type_binary
    then fe_binary
    else if type == type_bcdplus
    then fe_bcdplus
    else if type == type_ascii_6bit
    then fe_6bitascii
    else fe_text

-- `i % 4` in the loops of the 6-bit codec.
pub data Phase : Type 0 where
  first second third fourth : Phase

-- FRU__6BIT_LENGTH and FRU__6BIT_FULLLENGTH
abbrev pub six_bit_length : ℕ → ℕ
six_bit_length len = (len * 3 + 3) / 4

abbrev pub six_bit_full_length : ℕ → ℕ
six_bit_full_length l6 = l6 * 4 / 3
