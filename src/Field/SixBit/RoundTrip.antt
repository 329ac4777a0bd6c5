-- ===== src/Field/SixBit/RoundTrip.antt =====
-- A 6-bit ASCII field is decoded to the text that it was encoded from.
use frugen.Common.{
  ℕ, ◌≤◌, ◌≡◌, ◌≢◌, refl, ap, arith, some, [], ◌∷◌, Bytes, length, All, low_bits, take_all,
}
use frugen.Errno.{FruErrno, ok, ◌>>=◌}
use frugen.Field.{make_typelen, type_ascii_6bit, fe_6bitascii, first, six_bit_length}
use frugen.Field.Decode.{cut_tail, decode_field, decode_as, decode_6bit}
use frugen.Field.Encode.{file_field, encode_6bit, encode_as, encode_string, encode_field}
use frugen.Field.Typelen.{truncate_lem, low_bits-make_typelen, enc_of_6bit, decode_field_lem}
use frugen.Field.SixBit.Pack.{IsSixBitChar, packed, length-packed, pack_lem}
use frugen.Field.SixBit.Unpack.{NonZero, unpack_lem, cut_tail-filled}

-- The field that a text of up to 84 characters is encoded to.
pub encode_6bit_lem :
    (s : Bytes) (e : FruErrno)
    → All IsSixBitChar s
    → length s ≤ 84
    → encode_6bit s e
      ≡ ok
          (file_field (make_typelen type_ascii_6bit (six_bit_length (length s))) (packed first 0 s))
          e
unfolding encode_6bit
encode_6bit_lem s e chars short =
    let len6bit : ℕ = six_bit_length (length s) in
    rw (truncate_lem len6bit e (omega arith)) (
      rw
        (pack_lem len6bit (omega arith) s first 0 0 e chars (omega arith)
          (omega (arith, length-packed s)))
        refl)

-- Its data is all there is to read.
pub payload_lem :
    (s : Bytes)
    → length s ≤ 84
    → file_field (make_typelen type_ascii_6bit (six_bit_length (length s))) (packed first 0 s)
      ≡ record {
        typelen = make_typelen type_ascii_6bit (six_bit_length (length s));
        payload = packed first 0 s;
      }
payload_lem s short =
    let len6bit : ℕ = six_bit_length (length s) in
    let size = low_bits-make_typelen type_ascii_6bit len6bit (omega arith) (omega arith) in
    ap (λ p. record { typelen = make_typelen type_ascii_6bit len6bit; payload = p })
      (take_all _ (packed first 0 s) (omega (arith, length-packed s)))

pub encode_field_6bit : (s : Bytes) → s ≢ [] → encode_field fe_6bitascii (some s) ≡ encode_6bit s
unfolding encode_field encode_string encode_as
encode_field_6bit [] h = absurd (h refl)
encode_field_6bit (c ∷ s) h = refl

-- A string of 1 to 84 characters of 6-bit ASCII, none of whose packed bytes is zero, is encoded
-- without an error and decoded to itself, less its trailing spaces.
pub six_bit_round_trip :
    (s : Bytes) (e : FruErrno)
    → s ≢ []
    → All IsSixBitChar s
    → length s ≤ 84
    → NonZero (packed first 0 s)
    → (encode_field fe_6bitascii (some s) >>= λ f. decode_field (some f)) e
      ≡ ok (record { enc = fe_6bitascii; val = cut_tail s }) e
six_bit_round_trip s e ne chars short nz =
    rw (encode_field_6bit s ne)
      (rw (encode_6bit_lem s e chars short) (rw (payload_lem s short) decoded))
  where
    len6bit : ℕ
    len6bit = six_bit_length (length s)

    size : low_bits (make_typelen type_ascii_6bit len6bit) 6 ≡ len6bit
    size = low_bits-make_typelen type_ascii_6bit len6bit (omega arith) (omega arith)

    decoded :
        decode_field
          (some
            (record { typelen = make_typelen type_ascii_6bit len6bit; payload = packed first 0 s }))
          e
        ≡ ok (record { enc = fe_6bitascii; val = cut_tail s }) e
    decoded =
        decode_field_lem _ fe_6bitascii (cut_tail s) e (enc_of_6bit len6bit (omega arith)) refl (
          unfold decode_as decode_6bit in
          rw size
            (rw (unpack_lem len6bit s 0 e chars nz (omega arith)) (rw (cut_tail-filled s) refl)))
