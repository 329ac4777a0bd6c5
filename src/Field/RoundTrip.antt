-- ===== src/Field/RoundTrip.antt =====
-- What `fru__encode_field` writes is what `fru__decode_field` reads, for each encoding.
use frugen.Common.{
  ℕ, ◌%◌, ◌≤◌, ◌≡◌, ◌≢◌, ◌∙◌, refl, ap, arith, some, [], ◌∷◌, ◌++◌, Bytes, IsBytes, length, All,
  minus_one, length-append, ne_nil_of_length, take_all,
}
use frugen.Errno.{FruErrno, ok, fail, ◌>>=◌, with_error, fenonprint, ferr_loc_general}
use frugen.Hex.{hex_relaxed, write_hex}
use frugen.Hex.Convert.{write_hex-ne-nil}
use frugen.Field.{make_typelen, type_binary, fe_text, fe_binary, fe_bcdplus}
use frugen.Field.Decode.{cut_tail, decode_field}
use frugen.Field.Encode.{file_field, encode_text, encode_binary, encode_bcdplus}
use frugen.Field.Encode.{encode_as, encode_string, encode_field}
use frugen.Field.Typelen.{truncate_lem}
use frugen.Field.Bcd.{IsBcdChar, paired_even, paired_odd, decode-encode_bcdplus}
use frugen.Field.Text.{IsPrint, cleared, decode-encode_text, encode_text_one}
use frugen.Field.Text.{encode_binary-write_hex, decode_binary_lem}

pub encode_field_text : (s : Bytes) → s ≢ [] → encode_field fe_text (some s) ≡ encode_text s
unfolding encode_field encode_string encode_as
encode_field_text [] h = absurd (h refl)
encode_field_text (c ∷ s) h = refl

pub encode_field_bcdplus :
    (s : Bytes) → s ≢ [] → encode_field fe_bcdplus (some s) ≡ encode_bcdplus s
unfolding encode_field encode_string encode_as
encode_field_bcdplus [] h = absurd (h refl)
encode_field_bcdplus (c ∷ s) h = refl

pub encode_field_binary :
    (s : Bytes) → s ≢ [] → encode_field fe_binary (some s) ≡ encode_binary hex_relaxed s
unfolding encode_field encode_string encode_as
encode_field_binary [] h = absurd (h refl)
encode_field_binary (c ∷ s) h = refl

-- A non-empty BCD+ string of even length, up to 126 characters, is encoded without an error and
-- decoded to itself, less its trailing spaces.
pub bcdplus_round_trip :
    (s : Bytes) (e : FruErrno)
    → s ≢ []
    → All IsBcdChar s
    → length s % 2 ≡ 0
    → length s ≤ 126
    → (encode_field fe_bcdplus (some s) >>= λ f. decode_field (some f)) e
      ≡ ok (record { enc = fe_bcdplus; val = cut_tail s }) e
bcdplus_round_trip s e ne chars even short =
    rw (encode_field_bcdplus s ne)
      (decode-encode_bcdplus s e chars short ∙ rw (paired_even b'0' s even) refl)

-- A BCD+ string of odd length, from 3 up to 125 characters, is encoded without an error, and
-- decoded to the string with its last character but one repeated at the end, less trailing
-- spaces: the spare nibble is not a space.
pub bcdplus_odd_length :
    (t : Bytes) (a b c : ℕ) (e : FruErrno)
    → All IsBcdChar (t ++ a ∷ b ∷ c ∷ [])
    → length t % 2 ≡ 0
    → length t ≤ 122
    → (encode_field fe_bcdplus (some (t ++ a ∷ b ∷ c ∷ [])) >>= λ f. decode_field (some f)) e
      ≡ ok (record { enc = fe_bcdplus; val = cut_tail (t ++ a ∷ b ∷ c ∷ b ∷ []) }) e
bcdplus_odd_length t a b c e chars even short =
    let size = length-append t (a ∷ b ∷ c ∷ []) in
    rw (encode_field_bcdplus _ (ne_nil_of_length (t ++ a ∷ b ∷ c ∷ []) (omega arith))) (
      decode-encode_bcdplus (t ++ a ∷ b ∷ c ∷ []) e chars (omega arith)
      ∙ rw (paired_odd b'0' t a b c even) refl)

-- A printable string of 2 to 63 characters is encoded as text and decoded to itself; the error is
-- cleared.
pub text_round_trip :
    (s : Bytes) (e : FruErrno)
    → All IsPrint s
    → 2 ≤ length s
    → length s ≤ 63
    → (encode_field fe_text (some s) >>= λ f. decode_field (some f)) e
      ≡ ok (record { enc = fe_text; val = s }) (cleared e)
text_round_trip s e chars long short = rw (encode_field_text s (ne_nil_of_length s (omega arith))) (
    decode-encode_text s (length s) chars (omega arith) (omega arith) (omega arith) e (cleared e)
      (truncate_lem (length s) (cleared e) (omega arith))
    ∙ ap (λ v. ok (record { enc = fe_text; val = v }) (cleared e))
        (take_all (length s) s (omega arith)))

-- A binary field of 1 to 63 bytes is decoded to a string that is encoded to the same field.
pub binary_round_trip :
    (bs : Bytes) (e : FruErrno)
    → bs ≢ []
    → IsBytes bs
    → length bs ≤ 63
    → (decode_field (some (file_field (make_typelen type_binary (length bs)) bs)) >>= λ d.
          encode_field d.enc (some d.val))
        e
      ≡ ok (file_field (make_typelen type_binary (length bs)) bs) e
binary_round_trip [] e ne hb short = absurd (ne refl)
binary_round_trip (b ∷ bs) e ne hb short = rw (decode_binary_lem (b ∷ bs) e short) (
    rw (encode_field_binary (write_hex (b ∷ bs)) (write_hex-ne-nil b bs))
      (encode_binary-write_hex hex_relaxed (b ∷ bs) e hb short))

-- A string of one character cannot be encoded as text, whatever the character is: the call fails
-- with FENONPRINT.
pub text_one_char :
    (c : ℕ) (e : FruErrno)
    → encode_field fe_text (some (c ∷ [])) e
      ≡ fail (with_error fenonprint ferr_loc_general minus_one e)
text_one_char c e = rw (encode_field_text (c ∷ []) (cc)) (encode_text_one c e)
