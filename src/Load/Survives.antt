-- ===== src/Load/Survives.antt =====
-- Fields that are decoded to themselves.
use frugen.Common.{ℕ, ◌≤◌, ◌≡◌, ◌≢◌, refl, ap, ◌∙◌, some, List, [], ◌∷◌, Bytes, All, length}
use frugen.Errno.{FruErrno, ok, bind_outcome, ◌>>=◌}
use frugen.Field.{
  Field, FieldEnc, blank_field, fe_empty, fe_binary, fe_bcdplus, fe_6bitascii, fe_text, fe_auto,
  fe_unknown,
}
use frugen.Field.Decode.{decode_field}
use frugen.Field.Encode.{encode_field, setfield}
use frugen.Field.Setfield.{setfield-decode_field}
use frugen.Field.RoundTrip.{text_round_trip}
use frugen.Field.Text.{IsPrint, cleared}
use frugen.Custom.{new_field, blame}
use frugen.Load.Recoded.{Recoded}
use frugen.Load.FieldLoop.{AllRecoded, recoded_nil, recoded_cons}

-- A field with an encoding that fru_add_custom and fru_setfield take as it is, and a value that
-- the encoder and the decoder give back.
pub record Survives (field : Field) : Type 0 where
  pub filled : field.enc ≢ fe_empty
  pub known : field.enc ≢ fe_unknown
  pub back :
      (e : FruErrno)
      → (e' : FruErrno) × ((encode_field field.enc (some field.val) >>= λ f. decode_field (some f))
            e
          ≡ ok field e')

pub text-Survives :
    (s : Bytes)
    → All IsPrint s
    → 2 ≤ length s
    → length s ≤ 63
    → Survives (record { enc = fe_text; val = s })
text-Survives s chars long short = record {
  filled = λ h. cc;
  known = λ h. cc;
  back = λ e. (cleared e, text_round_trip s e chars long short);
}

Recoded-same : (field outfield : Field) → Survives field → Recoded field outfield → outfield ≡ field
Recoded-same field outfield s r =
    let (e', back) = s.back r.before in
    let decoded : decode_field (some r.encoded) r.after ≡ ok field e' =
      rw (r.encodes, bind_outcome) at back in
    let again = r.decodes r.after in cc

pub AllRecoded-same : (fs outs : List Field) → All Survives fs → AllRecoded fs outs → outs ≡ fs
AllRecoded-same [] _ survive recoded_nil = refl
AllRecoded-same (f ∷ fs) _ (s, survive) (recoded_cons {outfield = out} {outfields = outs} r all) =
    λ i. Recoded-same f out s r i ∷ AllRecoded-same fs outs survive all i

new_field_lem :
    (atype index : ℕ) (enc : FieldEnc) (s : Bytes) (e : FruErrno)
    → enc ≢ fe_empty
    → new_field atype index enc (some s) e
      ≡ blame atype index (setfield (some blank_field) enc (some s) e)
unfolding new_field
new_field_lem atype index fe_empty s e h = absurd (h refl)
new_field_lem atype index fe_binary s e h = refl
new_field_lem atype index fe_bcdplus s e h = refl
new_field_lem atype index fe_6bitascii s e h = refl
new_field_lem atype index fe_text s e h = refl
new_field_lem atype index fe_auto s e h = refl
new_field_lem atype index fe_unknown s e h = refl

pub new_field-Survives :
    (atype index : ℕ) (field : Field) (e : FruErrno)
    → Survives field
    → (e' : FruErrno) × (new_field atype index field.enc (some field.val) e ≡ ok field e')
unfolding blame
new_field-Survives atype index field e s =
    let (e', back) = s.back e in
    (
      e',
      new_field_lem atype index field.enc field.val e s.filled
          ∙ ap (blame atype index) (
              setfield-decode_field blank_field field field.enc (some field.val) e e' s.known back),
    )
