-- ===== src/Field/Text.antt =====
-- The plain text and the binary codec.
use frugen.Common.{
  ℕ, zero, suc, ◌<◌, ◌≤◌, ◌≡◌, ◌≢◌, refl, sym, arith, some, [], ◌∷◌, Bytes, IsBytes, length,
  length-take, All-take, All, low_bits, minus_one, inr, take, true,
}
use frugen.Errno.{FruErrno, ok, fail, ◌>>=◌, with_error, fenone, fenonprint, ferr_loc_general}
use frugen.Hex.{HexMode, write_hex}
use frugen.Hex.Convert.{hexstr2bin-write_hex, decode_raw_lem}
use frugen.Field.{make_typelen, type_text, type_binary, fe_text, fe_binary}
use frugen.Field.Decode.{read_data, c_string, decode_text, decode_binary, decode_as, decode_field}
use frugen.Field.Encode.{
  is_print, copy_text, text_typelen, encode_text, encode_binary, file_field, truncate,
}
use frugen.Field.Typelen.{
  read-file_field, low_bits-make_typelen, make_typelen_lem, enc_of_text, enc_of_binary,
  decode_field_lem,
}

-- The printable characters of ASCII.
abbrev pub IsPrint : ℕ → Type 0
IsPrint c = (32 ≤ c) × (c ≤ 126)

-- Rounds that stay within the string copy its first characters.
copy_text-take :
    (n : ℕ) (s : Bytes) (e : FruErrno)
    → All IsPrint s
    → n ≤ length s
    → copy_text n s e ≡ ok (take n s) e
unfolding copy_text
copy_text-take zero s e h short = refl
copy_text-take (suc n) [] e h short = absurd (omega arith)
copy_text-take (suc n) (c ∷ s) e (hc, hs) short =
    let printable : is_print c ≡ true = unfold is_print in ground arith in
    rw printable (rw (copy_text-take n s e hs (omega arith)) refl)

c_string_lem : (s : Bytes) → All IsPrint s → c_string s ≡ s
unfolding c_string
c_string_lem [] h = refl
c_string_lem (c ∷ s) (hc, hs) = ground (arith, c_string_lem s hs)

text_typelen_lem : (l : ℕ) → l ≢ 1 → l < 64 → text_typelen l ≡ make_typelen type_text l
unfolding text_typelen
text_typelen_lem l ne hi = ground (arith, make_typelen_lem type_text l (omega arith))

-- The error after encode_text has cleared it.
abbrev pub cleared : FruErrno → FruErrno
cleared e = with_error fenone ferr_loc_general minus_one e

-- A text of which `l` characters are kept is written to a field, if `l` is not one.
module _ (s : Bytes) (l : ℕ) (chars : All IsPrint s) (small : l < 64) (ne : l ≢ 1)
    (short : l ≤ length s) where
  size : low_bits (make_typelen type_text l) 6 ≡ l
  size = low_bits-make_typelen type_text l (omega arith) small

  encode_text_lem :
      (e e' : FruErrno)
      → truncate (length s) (cleared e) ≡ ok l e'
      → encode_text s e ≡ ok (file_field (make_typelen type_text l) (take l s)) e'
  unfolding encode_text
  encode_text_lem e e' cut =
      rw cut (rw (text_typelen_lem l ne small, size, copy_text-take l s e' chars short) refl)

  decode_text_lem :
      (e : FruErrno)
      → decode_field (some (file_field (make_typelen type_text l) (take l s))) e
        ≡ ok (record { enc = fe_text; val = take l s }) e
  decode_text_lem e =
      let whole : length (take l s) ≡ low_bits (make_typelen type_text l) 6 =
        omega (arith, length-take l s, size) in
      decode_field_lem (file_field (make_typelen type_text l) (take l s)) fe_text (take l s) e
        (enc_of_text l small) refl
        (unfold decode_as decode_text in
          rw (read-file_field (make_typelen type_text l) (take l s) e whole)
            (rw (c_string_lem (take l s) (All-take IsPrint l s chars)) refl))

  pub decode-encode_text :
      (e e' : FruErrno)
      → truncate (length s) (cleared e) ≡ ok l e'
      → (encode_text s >>= λ f. decode_field (some f)) e
        ≡ ok (record { enc = fe_text; val = take l s }) e'
  decode-encode_text e e' cut = rw (encode_text_lem e e' cut) (decode_text_lem e')

-- A string of one character is refused by encode_text with FENONPRINT, whatever the character is.
pub encode_text_one :
    (c : ℕ) (e : FruErrno)
    → encode_text (c ∷ []) e ≡ fail (with_error fenonprint ferr_loc_general minus_one (cleared e))
unfolding encode_text truncate text_typelen copy_text is_print
encode_text_one c e = ground arith

-- The bytes of a binary field come back from the text that they are decoded to.
pub encode_binary-write_hex :
    (mode : HexMode) (bs : Bytes) (e : FruErrno)
    → IsBytes bs
    → length bs ≤ 63
    → encode_binary mode (write_hex bs) e
      ≡ ok (file_field (make_typelen type_binary (length bs)) bs) e
unfolding encode_binary
encode_binary-write_hex mode bs e hb short =
    rw (hexstr2bin-write_hex mode 63 bs e hb (inr short)) refl

pub decode_binary_lem :
    (bs : Bytes) (e : FruErrno)
    → length bs ≤ 63
    → decode_field (some (file_field (make_typelen type_binary (length bs)) bs)) e
      ≡ ok (record { enc = fe_binary; val = write_hex bs }) e
decode_binary_lem bs e short =
    decode_field_lem _ fe_binary _ e (enc_of_binary (length bs) (omega arith)) refl
      (unfold decode_as decode_binary in rw read (decode_raw_lem bs 127 e (omega arith)))
  where
    read : read_data (file_field (make_typelen type_binary (length bs)) bs) e ≡ ok bs e
    read =
        read-file_field _ bs e
          (sym (low_bits-make_typelen type_binary (length bs) (omega arith) (omega arith)))
