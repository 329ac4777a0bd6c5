-- ===== src/Field/SixBit/Spaces.antt =====
-- Strings that the 6-bit codec does not give back: text that packs into a zero byte, and control
-- characters.
use frugen.Common.{
  ℕ, zero, suc, leb, true, ◌+◌, ◌-◌, ◌*◌, ◌%◌, ◌<◌, ◌≤◌, ◌≡◌, refl, arith, some, [], ◌∷◌, Bytes,
  length, All, low_bits,
}
use frugen.Errno.{FruErrno, ok, ◌>>=◌}
use frugen.Field.{
  make_typelen, type_ascii_6bit, fe_6bitascii, fe_auto, first, six_bit_length, six_bit_full_length,
}
use frugen.Field.Decode.{cut_tail, decode_field, decode_as, decode_6bit, unpack, six_char}
use frugen.Field.Encode.{
  encode_6bit, encode_as, encode_string, encode_field, try_encs, pack, six_value, truncate,
  in_buffer,
}
use frugen.Field.Typelen.{enc_of_6bit, decode_field_lem}
use frugen.Field.SixBit.Pack.{IsSixBitChar, packed}
use frugen.Field.SixBit.RoundTrip.{encode_6bit_lem, encode_field_6bit, payload_lem}

-- Decoding stops at a zero byte, here the first.
unpack_zero :
    (len6bit n : ℕ) (t : Bytes) (e : FruErrno) → unpack len6bit n first 0 (0 ∷ t) e ≡ ok [] e
unfolding unpack
unpack_zero len6bit zero t e = refl
unpack_zero len6bit (suc n) t e = rw (leb_zero len6bit, unpack) refl
  where
    leb_zero : (m : ℕ) → leb 0 m ≡ true
    leb_zero m = ground arith

decode_zero :
    (typelen : ℕ) (t : Bytes) (e : FruErrno)
    → decode_6bit (record { typelen = typelen; payload = 0 ∷ t }) e ≡ ok [] e
unfolding decode_6bit cut_tail
decode_zero typelen t e =
    rw (unpack_zero (low_bits typelen 6) (six_bit_full_length (low_bits typelen 6)) t e) refl

-- A 6-bit ASCII string of up to 84 characters that starts with a space and a second character whose
-- code is a multiple of 4, such as another space, is encoded without an error and decoded to the
-- empty string, whatever follows.
pub six_bit_leading_space :
    (c : ℕ) (s : Bytes) (e : FruErrno)
    → All IsSixBitChar (c ∷ s)
    → c % 4 ≡ 0
    → length s ≤ 82
    → (encode_field fe_6bitascii (some (b' ' ∷ c ∷ s)) >>= λ f. decode_field (some f)) e
      ≡ ok (record { enc = fe_6bitascii; val = [] }) e
six_bit_leading_space c s e chars quarter short = rw (encode_field_6bit (b' ' ∷ c ∷ s) (cc)) (
    rw (encode_6bit_lem (b' ' ∷ c ∷ s) e ((omega arith, omega arith), chars) (omega arith))
      (rw (payload_lem (b' ' ∷ c ∷ s) (omega arith)) decoded))
  where
    len6bit : ℕ
    len6bit = six_bit_length (length (b' ' ∷ c ∷ s))

    zero_byte : (c - 32) % 4 * 64 + 0 ≡ 0
    zero_byte = omega arith

    decoded :
        decode_field
          (some (record {
            typelen = make_typelen type_ascii_6bit len6bit;
            payload = packed first 0 (b' ' ∷ c ∷ s);
          }))
          e
        ≡ ok (record { enc = fe_6bitascii; val = [] }) e
    decoded =
        decode_field_lem _ fe_6bitascii [] e (enc_of_6bit len6bit (omega arith)) refl
          (unfold decode_as in rw zero_byte (decode_zero _ _ e))

-- A string of one control character is stored, under automatic encoding, as the character 64 codes
-- above it, and no error is set.
pub six_bit_control :
    (c : ℕ) (e : FruErrno)
    → 1 ≤ c
    → c < 32
    → (encode_field fe_auto (some (c ∷ [])) >>= λ f. decode_field (some f)) e
      ≡ ok (record { enc = fe_6bitascii; val = (c + 64) ∷ [] }) e
unfolding encode_field encode_string try_encs encode_as encode_6bit truncate pack six_value
    in_buffer decode_field decode_as decode_6bit unpack six_char cut_tail
six_bit_control c e lo hi = ground arith
