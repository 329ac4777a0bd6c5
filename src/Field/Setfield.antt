-- ===== src/Field/Setfield.antt =====
-- `fru_setfield` of lib/fru_setfield.c.
use frugen.Common.{◌≡◌, ◌≢◌, refl, true, Option, some, Bytes}
use frugen.Errno.{FruErrno, ok, bind-eq-ok, ◌>>=◌}
use frugen.Field.{
  Field, FieldEnc, fe_empty, fe_binary, fe_bcdplus, fe_6bitascii, fe_text, fe_auto, fe_unknown,
  is_real,
}
use frugen.Field.Decode.{decode_field}
use frugen.Field.Encode.{encode_field, resolve_encoding, setfield}

resolve_other :
    (field : Option Field) (enc : FieldEnc) (e : FruErrno)
    → enc ≢ fe_unknown
    → resolve_encoding field enc e ≡ ok (field, enc) e
unfolding resolve_encoding
resolve_other field fe_empty e h = refl
resolve_other field fe_binary e h = refl
resolve_other field fe_bcdplus e h = refl
resolve_other field fe_6bitascii e h = refl
resolve_other field fe_text e h = refl
resolve_other field fe_auto e h = refl
resolve_other field fe_unknown e h = absurd (h refl)

resolve_preserve :
    (field : Field) (e : FruErrno)
    → is_real field.enc ≡ true
    → resolve_encoding (some field) fe_unknown e ≡ ok (some field, field.enc) e
unfolding resolve_encoding
resolve_preserve field e real = rw real refl

-- Once the encoding is known, the field becomes what its encoded string is decoded to.
setfield-stores :
    (field d : Field) (asked enc : FieldEnc) (s : Option Bytes) (e e' : FruErrno)
    → resolve_encoding (some field) asked e ≡ ok (some field, enc) e
    → (encode_field enc s >>= λ out. decode_field (some out)) e ≡ ok d e'
    → setfield (some field) asked s e ≡ ok (some d, true) e'
unfolding setfield
setfield-stores field d asked enc s e e' resolved round_trip =
    let (out, e1, encoded, decoded) =
      bind-eq-ok (encode_field enc s e) (λ out. decode_field (some out)) round_trip in
    rw resolved (rw encoded (rw decoded refl))

-- When a string is encoded with an encoding, other than FRU_FE_PRESERVE, and decoded without a
-- failure, fru_setfield with this encoding returns true, leaves in the field what is decoded, and
-- the error as the two calls leave it.
pub setfield-decode_field :
    (field d : Field) (enc : FieldEnc) (s : Option Bytes) (e e' : FruErrno)
    → enc ≢ fe_unknown
    → (encode_field enc s >>= λ out. decode_field (some out)) e ≡ ok d e'
    → setfield (some field) enc s e ≡ ok (some d, true) e'
setfield-decode_field field d enc s e e' known round_trip =
    setfield-stores field d enc enc s e e' (resolve_other (some field) enc e known) round_trip

-- For a field with a real encoding, fru_setfield with FRU_FE_PRESERVE does what it does with that
-- encoding, whenever a string is encoded with it and decoded without a failure.
pub setfield_preserve :
    (field d : Field) (s : Option Bytes) (e e' : FruErrno)
    → is_real field.enc ≡ true
    → (encode_field field.enc s >>= λ out. decode_field (some out)) e ≡ ok d e'
    → setfield (some field) fe_unknown s e ≡ ok (some d, true) e'
setfield_preserve field d s e e' real round_trip =
    setfield-stores field d fe_unknown field.enc s e e' (resolve_preserve field e real) round_trip
