-- ===== src/Field/Typelen.antt =====
-- The type/length byte: a field whose length fits is written with it and read back by it.
use frugen.Common.{
  ℕ, ◌+◌, ◌*◌, ◌%◌, ◌<◌, ◌≤◌, ◌≡◌, refl, arith, Bytes, length, take_all, bit_or_six, low_bits, u8,
  lt→ltb, ltb, true, false, some,
}
use frugen.Errno.{FruErrno, ok, pure, undefined}
use frugen.Field.{
  FieldEnc, is_real, FileField, field_max_len, fieldlen, make_typelen, enc_of_typelen, fe_binary,
  fe_bcdplus, fe_6bitascii, fe_text, type_binary, type_bcdplus, type_ascii_6bit, type_text,
}
use frugen.Field.Decode.{read_data, decode_as, decode_field}
use frugen.Field.Encode.{truncate, file_field, in_buffer}

pub make_typelen_lem : (t l : ℕ) → t < 4 → make_typelen t l ≡ t * 64 + l % 64
make_typelen_lem t l ht =
    let low : u8 (fieldlen l) ≡ l % 64 = omega arith in
    rw low (bit_or_six t (l % 64) ht (omega arith))

pub low_bits-make_typelen : (t l : ℕ) → t < 4 → l < 64 → low_bits (make_typelen t l) 6 ≡ l
low_bits-make_typelen t l ht hl = omega (arith, make_typelen_lem t l ht)

pub enc_of_text : (l : ℕ) → l < 64 → enc_of_typelen (make_typelen type_text l) ≡ fe_text
enc_of_text l h = ground (arith, make_typelen_lem type_text l (omega arith))

pub enc_of_bcdplus : (l : ℕ) → l < 64 → enc_of_typelen (make_typelen type_bcdplus l) ≡ fe_bcdplus
enc_of_bcdplus l h = ground (arith, make_typelen_lem type_bcdplus l (omega arith))

pub enc_of_6bit : (l : ℕ) → l < 64 → enc_of_typelen (make_typelen type_ascii_6bit l) ≡ fe_6bitascii
enc_of_6bit l h = ground (arith, make_typelen_lem type_ascii_6bit l (omega arith))

pub enc_of_binary : (l : ℕ) → l < 64 → enc_of_typelen (make_typelen type_binary l) ≡ fe_binary
enc_of_binary l h = ground (arith, make_typelen_lem type_binary l (omega arith))

pub truncate_lem : (len : ℕ) (e : FruErrno) → len < 64 → truncate len e ≡ ok len e
unfolding truncate
truncate_lem len e h = ground arith

-- The data of a field that an encoder wrote is read back.
pub read-file_field :
    (typelen : ℕ) (buf : Bytes) (e : FruErrno)
    → length buf ≡ low_bits typelen 6
    → read_data (file_field typelen buf) e ≡ ok buf e
unfolding read_data
read-file_field typelen buf e h =
    rw (take_all (low_bits typelen 6) buf (omega arith))
      (rw (take_all (low_bits typelen 6) buf (omega arith)) (ground arith))

-- A write inside the buffer.
pub in_buffer_lem : (i : ℕ) → i < field_max_len → in_buffer i ≡ pure tt
unfolding in_buffer
in_buffer_lem i h = rw (lt→ltb i field_max_len h) refl

-- A write beyond the buffer.
pub in_buffer_full : (i : ℕ) → field_max_len ≤ i → in_buffer i ≡ undefined
unfolding in_buffer
in_buffer_full i h = let full : ltb i field_max_len ≡ false = ground arith in rw full refl

-- A decoder that succeeds makes `fru__decode_field` succeed.
pub decode_field_lem :
    (f : FileField) (enc : FieldEnc) (val : Bytes) (e : FruErrno)
    → enc_of_typelen f.typelen ≡ enc
    → is_real enc ≡ true
    → decode_as enc f e ≡ ok val e
    → decode_field (some f) e ≡ ok (record { enc = enc; val = val }) e
unfolding decode_field
decode_field_lem f enc val e kind real run = rw kind (rw real (rw run refl))
