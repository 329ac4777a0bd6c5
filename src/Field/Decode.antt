-- ===== src/Field/Decode.antt =====
-- lib/fru__decode.c. A read beyond the memory behind the field is the fault.
use frugen.Common.{some}
use frugen.Common.{
  ℕ, zero, suc, ◌+◌, true, false, not, ◌&&◌, Option, [], ◌∷◌, Bytes, u8, ◌<<<◌, ◌>>>◌, low_bits,
  bit_or, ltb, leb, ◌==◌, if◌then◌else◌, length, take, get_elem?, minus_one,
}
use frugen.Errno.{
  Eff, ◌>>=◌, ◌>>◌, pure, undefined, deref, guard, non_null, febadenc, ferr_loc_general,
}
use frugen.Hex.{decode_raw_binary}
use frugen.Field.{
  FieldEnc, fe_binary, fe_bcdplus, fe_6bitascii, fe_text, is_real, Field, FileField, enc_of_typelen,
  Phase, first, second, third, fourth, six_bit_full_length,
}

-- What is left of a C string when its trailing spaces are cut.
unfoldable pub cut_tail : Bytes → Bytes
cut_tail [] = []
cut_tail (c ∷ s) = elim (cut_tail s) [ [] ↦ if c == b' ' then [] else c ∷ [] | d ∷ t ↦ c ∷ d ∷ t ]

-- The C string at the start of a buffer.
unfoldable pub c_string : Bytes → Bytes
c_string [] = []
c_string (c ∷ s) = let rest = c_string s in if c == 0 then [] else c ∷ rest

-- The `len` bytes from `data` on.
unfoldable pub read_data : FileField → Eff Bytes
read_data field =
    let len = low_bits field.typelen 6 in
    if ltb (length field.payload) len then undefined else pure (take len field.payload)

-- decode_binary: `sizeof(out->val)` is 127.
unfoldable pub decode_binary : FileField → Eff Bytes
decode_binary field = do bytes ← read_data field; decode_raw_binary bytes (some []) 127

-- The character of a BCD+ nibble.
unfoldable pub bcd_char : ℕ → ℕ
bcd_char c =
    if c == 0xa
    then b' '
    else if c == 0xb
    then b'-'
    else if c == 0xc
    then b'.'
    else if leb 0xd c
    then b'?'
    else c + b'0'

unfoldable pub bcd_chars : Bytes → Bytes
bcd_chars [] = []
bcd_chars (b ∷ bs) = bcd_char (low_bits (b >>> 4) 4) ∷ bcd_char (low_bits b 4) ∷ bcd_chars bs

unfoldable pub decode_bcdplus : FileField → Eff Bytes
decode_bcdplus field = do bytes ← read_data field; pure (cut_tail (bcd_chars bytes))

-- What the 6-bit decoder makes of the bits that it has put together.
unfoldable pub six_char : ℕ → ℕ
six_char v = low_bits (u8 v) 6 + 0x20

-- The loop of decode_6bit with the rounds left, `i % 4`, `i6`, and the memory from `s6 + i6` on.
unfoldable pub unpack : ℕ → ℕ → Phase → ℕ → Bytes → Eff Bytes
unpack len6bit zero phase i6 s6 = pure []
unpack len6bit (suc n) phase i6 [] = if leb i6 len6bit then undefined else pure []
unpack len6bit (suc n) first i6 (x ∷ s6) = elim (leb i6 len6bit && not (x == 0)) [
  | false ↦ pure []
  | true ↦ do rest ← unpack len6bit n second i6 (x ∷ s6); pure (six_char (low_bits x 6) ∷ rest)
]
unpack len6bit (suc n) second i6 (x ∷ s6) = elim (leb i6 len6bit && not (x == 0)) [
  | false ↦ pure []
  | true ↦ do
    y ← deref (get_elem? s6 0)
    rest ← unpack len6bit n third (suc i6) s6
    pure (six_char (bit_or (x >>> 6) (y <<< 2)) ∷ rest)
]
unpack len6bit (suc n) third i6 (x ∷ s6) = elim (leb i6 len6bit && not (x == 0)) [
  | false ↦ pure []
  | true ↦ do
    y ← deref (get_elem? s6 0)
    rest ← unpack len6bit n fourth (suc i6) s6
    pure (six_char (bit_or (x >>> 4) (y <<< 4)) ∷ rest)
]
unpack len6bit (suc n) fourth i6 (x ∷ s6) = elim (leb i6 len6bit && not (x == 0)) [
  | false ↦ pure []
  | true ↦ do rest ← unpack len6bit n first (suc i6) s6; pure (six_char (x >>> 2) ∷ rest)
]

unfoldable pub decode_6bit : FileField → Eff Bytes
decode_6bit field = do
  let len6bit = low_bits field.typelen 6
  val ← unpack len6bit (six_bit_full_length len6bit) first 0 field.payload
  pure (cut_tail val)

unfoldable pub decode_text : FileField → Eff Bytes
decode_text field = do bytes ← read_data field; pure (c_string bytes)

-- The table of decoders.
unfoldable pub decode_as : FieldEnc → FileField → Eff Bytes
decode_as fe_binary field = decode_binary field
decode_as fe_bcdplus field = decode_bcdplus field
decode_as fe_6bitascii field = decode_6bit field
decode_as fe_text field = decode_text field
decode_as _ field = undefined

-- fru__decode_field
unfoldable pub decode_field : Option FileField → Eff Field
decode_field ptr = do
  field ← non_null ptr ferr_loc_general
  let enc = enc_of_typelen field.typelen
  guard (is_real enc) febadenc ferr_loc_general minus_one
  val ← decode_as enc field
  pure (record { enc = enc; val = val })
