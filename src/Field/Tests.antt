-- ===== src/Field/Tests.antt =====
-- Runs of the field codecs, and the witnesses of their theorems.
use frugen.Common.{
  true, ℕ, zero, suc, ◌≤◌, ◌≡◌, ◌≢◌, refl, some, [], ◌∷◌, arith, codes, Bytes, length, minus_one,
}
use frugen.Errno.{FruErrno, ok, fault, fru_errno_init, with_error, fe2big, ferr_loc_general, ◌>>=◌}
use frugen.Field.{
  blank_field, Field, FileField, fe_bcdplus, fe_6bitascii, fe_text, make_typelen, type_binary,
  enc_of_typelen, field_terminator,
}
use frugen.Field.Decode.{cut_tail, decode_field}
use frugen.Field.Encode.{
  encode_field, file_field, encode_string, encode_as, encode_text, truncate, text_typelen,
  copy_text, is_print,
}
use frugen.Field.Text.{cleared}
use frugen.Field.RoundTrip.{bcdplus_round_trip, text_round_trip}
use frugen.Field.RoundTrip.{binary_round_trip}
use frugen.Field.SixBit.RoundTrip.{six_bit_round_trip}
use frugen.Field.Binary.{setfield_binary, setfield_binary_overflow}
use frugen.Field.Safety.{decode_field_safe}
use frugen.Field.Limits.{bcdplus_overflow, text_truncation, encode_field-ne-terminator}

abbrev e0 : FruErrno
e0 = fru_errno_init

bcdplus_round_trip_example :
    (encode_field fe_bcdplus (some (codes "12-4")) >>= λ f. decode_field (some f)) e0
    ≡ ok (record { enc = fe_bcdplus; val = cut_tail (codes "12-4") }) e0
bcdplus_round_trip_example =
    bcdplus_round_trip (codes "12-4") e0 (cc) (omega arith) refl (omega arith)

text_round_trip_example :
    (encode_field fe_text (some (codes "abc")) >>= λ f. decode_field (some f)) e0
    ≡ ok (record { enc = fe_text; val = codes "abc" }) (cleared e0)
text_round_trip_example = text_round_trip (codes "abc") e0 (omega arith) (omega arith) (omega arith)

binary_round_trip_example :
    (decode_field (some (file_field (make_typelen type_binary 2) (0x13 ∷ 0x37 ∷ []))) >>= λ d.
    encode_field d.enc (some d.val))
      e0
    ≡ ok (file_field (make_typelen type_binary 2) (0x13 ∷ 0x37 ∷ [])) e0
binary_round_trip_example = binary_round_trip (0x13 ∷ 0x37 ∷ []) e0 (cc) (omega arith) (omega arith)

six_bit_round_trip_example :
    (encode_field fe_6bitascii (some (codes "IPMI 2.0")) >>= λ f. decode_field (some f)) e0
    ≡ ok (record { enc = fe_6bitascii; val = cut_tail (codes "IPMI 2.0") }) e0
six_bit_round_trip_example =
    six_bit_round_trip (codes "IPMI 2.0") e0 (cc) (omega arith) (omega arith) (omega arith)

abbrev two_bytes : FileField
two_bytes = record { typelen = 2; payload = 0x13 ∷ 0x37 ∷ 0xff ∷ [] }

decode_field_safe_example :
    (d : Field) × (decode_field (some two_bytes) e0 ≡ ok d e0)
    × (d.enc ≡ enc_of_typelen 2)
    × (length d.val ≤ 126)
decode_field_safe_example = decode_field_safe two_bytes e0 (omega arith)

abbrev digits : ℕ → Bytes
digits zero = []
digits (suc n) = b'1' ∷ digits n

bcdplus_overflow_example : encode_field fe_bcdplus (some (digits 127)) e0 ≡ fault
bcdplus_overflow_example = bcdplus_overflow (digits 127) e0 (omega arith) (omega arith)

-- 70 characters are cut to 6.
text_truncation_example :
    (encode_field fe_text (some (digits 70)) >>= λ f. decode_field (some f)) e0
    ≡ ok
        (record { enc = fe_text; val = codes "111111" })
        (with_error fe2big ferr_loc_general minus_one (cleared e0))
text_truncation_example =
    text_truncation (digits 70) e0 (omega arith) (omega arith) (omega arith) (omega arith)

abbrev two_chars : FileField
two_chars = file_field 0xc2 (codes "ab")

encode_two_chars : encode_field fe_text (some (codes "ab")) e0 ≡ ok two_chars (cleared e0)
unfolding encode_field encode_string encode_as encode_text truncate text_typelen copy_text is_print
encode_two_chars = refl

encode_field-ne-terminator_example : two_chars.typelen ≢ field_terminator
encode_field-ne-terminator_example =
    encode_field-ne-terminator fe_text (some (codes "ab")) e0 (cleared e0) two_chars
      encode_two_chars

setfield_binary_overflow_example :
    setfield_binary true (some blank_field) (some (digits 64)) e0 ≡ fault
setfield_binary_overflow_example = setfield_binary_overflow blank_field (digits 64) e0 (omega arith)

abbrev bcd_field : Field
bcd_field = record { enc = fe_bcdplus; val = codes "00" }
