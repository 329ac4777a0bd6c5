-- ===== src/Field/Limits.antt =====
-- Strings that do not fit a field, and the type/length byte that is never written.
use native.Mathlib.Decide.{dec_lt}
use frugen.Common.{
  ℕ, suc, ◌+◌, ◌*◌, ◌/◌, ◌%◌, ◌<◌, ◌≤◌, ◌≡◌, ◌≢◌, refl, arith, some, none, Option, [], ◌∷◌, Bytes,
  length, All, low_bits, take, minus_one, ltb, List, ne_nil_of_length, Bool-cases, inl, inr,
}
use frugen.Errno.{
  FruErrno, ok, fail, fault, bind_outcome, ◌>>=◌, with_error, fe2big, ferr_loc_general, Outcome,
}
use frugen.Hex.{HexMode, hexstr2bin, hex_strict}
use frugen.Field.{
  FieldEnc, FileField, fe_empty, fe_binary, fe_bcdplus, fe_6bitascii, fe_text, fe_unknown,
  field_max_len, fieldlen, make_typelen, field_terminator, first, six_bit_length,
}
use frugen.Field.Decode.{decode_field}
use frugen.Field.Encode.{
  truncate, bcd_pack, encode_bcdplus, copy_text, text_typelen, encode_text, encode_binary,
  encode_6bit, encode_as, encode_string, encode_field, try_encs, or_else, auto_encs, pack,
}
use frugen.Field.Typelen.{make_typelen_lem, in_buffer_lem, in_buffer_full}
use frugen.Field.Bcd.{IsBcdChar, bcd_value_lem, nibble}
use frugen.Field.Text.{IsPrint, cleared, decode-encode_text}
use frugen.Field.RoundTrip.{encode_field_text, encode_field_bcdplus}

-- The loop of encode_bcdplus is not bounded by the length of the field.
bcd_pack_overflow :
    (s : Bytes) (k c1 : ℕ) (e : FruErrno)
    → All IsBcdChar s
    → k ≤ 63
    → 126 < 2 * k + length s
    → bcd_pack k c1 s e ≡ fault
unfolding bcd_pack
bcd_pack_overflow [] k c1 e h hk long = absurd (omega arith)
bcd_pack_overflow (a ∷ []) k c1 e (ha, _) hk long =
    rw (bcd_value_lem a e ha).0 (rw (in_buffer_full k (omega arith)) refl)
bcd_pack_overflow (a ∷ b ∷ s) k c1 e (ha, (hb, hs)) hk long = elim (dec_lt k 63) [
  | no full ↦ rw (bcd_value_lem a e ha).0 (rw (in_buffer_full k (omega arith)) refl)
  | yes inside ↦ rw (bcd_value_lem a e ha).0 (
      rw (in_buffer_lem k inside) (
        rw (bcd_value_lem b e hb).0
          (rw (bcd_pack_overflow s (suc k) (nibble b) e hs inside (omega arith)) refl)))
]

truncate_total : (len : ℕ) (e : FruErrno) → (l : ℕ) × (e' : FruErrno) × (truncate len e ≡ ok l e')
unfolding truncate
truncate_total len e = elim (Bool-cases (ltb (fieldlen len) len)) [
  | inl long ↦ (fieldlen len, with_error fe2big ferr_loc_general minus_one e, rw long refl)
  | inr fits ↦ (len, e, rw fits refl)
]

-- A BCD+ string of 127 characters or more makes `fru__encode_field` write beyond its buffer.
pub bcdplus_overflow :
    (s : Bytes) (e : FruErrno)
    → All IsBcdChar s
    → 127 ≤ length s
    → encode_field fe_bcdplus (some s) e ≡ fault
bcdplus_overflow s e chars long =
    let (l, e', cut) = truncate_total ((length s + 1) / 2) e in
    rw (encode_field_bcdplus s (ne_nil_of_length s (omega arith))) (
      unfold encode_bcdplus in
      rw cut (rw (bcd_pack_overflow s 0 0 e' chars (omega arith) (omega arith)) refl))

-- Text of 64 to 255 printable characters is not cut to the 63 that fit, but to its length modulo
-- 64, unless that is one; the code FE2BIG is set.
pub text_truncation :
    (s : Bytes) (e : FruErrno)
    → All IsPrint s
    → 64 ≤ length s
    → length s ≤ 255
    → length s % 64 ≢ 1
    → (encode_field fe_text (some s) >>= λ f. decode_field (some f)) e
      ≡ ok
          (record { enc = fe_text; val = take (length s % 64) s })
          (with_error fe2big ferr_loc_general minus_one (cleared e))
text_truncation s e chars long short ne =
    rw (encode_field_text s (ne_nil_of_length s (omega arith)))
      (decode-encode_text s (length s % 64) chars (omega arith) ne (omega arith) e _ cut)
  where
    cut :
        truncate (length s) (cleared e)
        ≡ ok (length s % 64) (with_error fe2big ferr_loc_general minus_one (cleared e))
    cut = unfold truncate in ground arith

-- No outcome but a field whose type/length byte is not the end of the fields.
data NoTerminator : Outcome FileField → Type 0 where
  good : {f : FileField} {e : FruErrno} → f.typelen ≢ field_terminator → NoTerminator (ok f e)
  failed : {e : FruErrno} → NoTerminator (fail e)
  faulted : NoTerminator fault

NoTerminator-bind {ℓ} :
    {A : Type ℓ} (o : Outcome A) (k : A → FruErrno → Outcome FileField)
    → ((a : A) (e : FruErrno) → NoTerminator (k a e))
    → NoTerminator (bind_outcome o k)
NoTerminator-bind (ok a e) k h = h a e
NoTerminator-bind (fail e) k h = failed
NoTerminator-bind fault k h = faulted

make_typelen-ne : (t l : ℕ) → t < 3 → make_typelen t l ≢ field_terminator
make_typelen-ne t l h = omega (arith, make_typelen_lem t l (omega arith))

text_typelen-ne : (l : ℕ) → text_typelen l ≢ field_terminator
unfolding text_typelen
text_typelen-ne l = ground arith

encode_as-NoTerminator :
    (enc : FieldEnc) (mode : HexMode) (s : Bytes) (e : FruErrno)
    → NoTerminator (encode_as enc mode s e)
unfolding encode_as encode_binary encode_bcdplus encode_6bit encode_text
encode_as-NoTerminator fe_binary mode s e =
    NoTerminator-bind (hexstr2bin mode field_max_len s e) _
      (λ bytes e'. good (make_typelen-ne 0 (length bytes) (omega arith)))
encode_as-NoTerminator fe_bcdplus mode s e =
    NoTerminator-bind (truncate ((length s + 1) / 2) e) _ λ l e'.
      NoTerminator-bind (bcd_pack 0 0 s e') _
        (λ (b : Bytes) e''. good (make_typelen-ne 1 l (omega arith)))
encode_as-NoTerminator fe_6bitascii mode s e =
    NoTerminator-bind (truncate (six_bit_length (length s)) e) _ λ l e'.
      NoTerminator-bind (pack l first 0 0 s e') _
        (λ (b : Bytes) e''. good (make_typelen-ne 2 l (omega arith)))
encode_as-NoTerminator fe_text mode s e =
    NoTerminator-bind (truncate (length s) (cleared e)) _ λ l e'.
      NoTerminator-bind (copy_text (low_bits (text_typelen l) 6) s e') _
        (λ (b : Bytes) e''. good (text_typelen-ne l))
encode_as-NoTerminator _ mode s e = faulted

or_else-NoTerminator :
    (o : Outcome FileField) (next : FruErrno → Outcome FileField)
    → NoTerminator o
    → ((e : FruErrno) → NoTerminator (next e))
    → NoTerminator (or_else o next)
or_else-NoTerminator (ok f e) next h n = h
or_else-NoTerminator (fail e) next h n = n e
or_else-NoTerminator fault next h n = faulted

try_encs-NoTerminator :
    (encs : List FieldEnc) (s : Bytes) (e : FruErrno) → NoTerminator (try_encs encs s e)
unfolding try_encs
try_encs-NoTerminator [] s e = failed
try_encs-NoTerminator (enc ∷ encs) s e =
    or_else-NoTerminator _ _ (encode_as-NoTerminator enc hex_strict s e)
      (try_encs-NoTerminator encs s)

encode_string-NoTerminator :
    (enc : FieldEnc) (s : Bytes) (e : FruErrno) → NoTerminator (encode_string enc s e)
unfolding encode_string
encode_string-NoTerminator enc [] e = good (omega arith)
encode_string-NoTerminator fe_binary (c ∷ s) e = encode_as-NoTerminator fe_binary _ _ e
encode_string-NoTerminator fe_bcdplus (c ∷ s) e = encode_as-NoTerminator fe_bcdplus _ _ e
encode_string-NoTerminator fe_6bitascii (c ∷ s) e = encode_as-NoTerminator fe_6bitascii _ _ e
encode_string-NoTerminator fe_text (c ∷ s) e = encode_as-NoTerminator fe_text _ _ e
encode_string-NoTerminator _ (c ∷ s) e = try_encs-NoTerminator auto_encs _ e

encode_field-NoTerminator :
    (enc : FieldEnc) (s : Option Bytes) (e : FruErrno) → NoTerminator (encode_field enc s e)
unfolding encode_field
encode_field-NoTerminator enc none e = failed
encode_field-NoTerminator fe_empty (some s) e = encode_string-NoTerminator fe_text [] e
encode_field-NoTerminator fe_unknown (some s) e = failed
encode_field-NoTerminator enc (some s) e = encode_string-NoTerminator enc s e

NoTerminator-ok :
    (o : Outcome FileField) (f : FileField) (e : FruErrno)
    → NoTerminator o
    → o ≡ ok f e
    → f.typelen ≢ field_terminator
NoTerminator-ok _ f e (good {f = g} h) eq = λ t. h (ground arith)
NoTerminator-ok _ f e failed eq = cc
NoTerminator-ok _ f e faulted eq = cc

-- No field that `fru__encode_field` returns, for any string and encoding, has the type/length byte
-- that ends an area's fields.
pub encode_field-ne-terminator :
    (enc : FieldEnc) (s : Option Bytes) (e e' : FruErrno) (f : FileField)
    → encode_field enc s e ≡ ok f e'
    → f.typelen ≢ field_terminator
encode_field-ne-terminator enc s e e' f h =
    NoTerminator-ok (encode_field enc s e) f e' (encode_field-NoTerminator enc s e) h
