-- ===== src/Json/Fields.antt =====
-- A field that add_info_field writes, read by load_single_field.
use frugen.Common.{
  ℕ, arith, get_or, ◌≡◌, ◌≢◌, refl, true, false, none, some, Bytes, codes, ap, ◌∙◌, Bool-cases, inl,
  inr,
}
use frugen.Errno.{FruErrno, ok, ◌>>=◌, bind_outcome, deref, pure}
use frugen.Field.{
  Field, FieldEnc, fe_empty, fe_binary, fe_bcdplus, fe_6bitascii, fe_text, fe_auto, fe_unknown,
}
use frugen.Field.Encode.{setfield}
use frugen.Cli.{enc_by_name, enc_name_by_val}
use frugen.Cli.Names.{enc_by_name_iff}
use frugen.Cli.SetField.{stored}
use frugen.Json.{JsonC, load_single_field, field_parts, plain_field, typed_field, known_or_auto}
use frugen.Json.Store.{field_entry, is_auto_enc}

-- What json-c documents of strings and of the members of an object.
pub record Laws (json : JsonC) : Type 0 where
  pub get-new_string : (s : Bytes) → json.get_string (json.new_string s) ≡ some s
  pub member-string : (s key : Bytes) → json.object_get_ex (json.new_string s) key ≡ none
  pub member-add_same :
      (jso : json.Object) (key : Bytes) (v : json.Object)
      → json.object_get_ex (json.object_add jso key v) key ≡ some v
  pub member-add_other :
      (jso : json.Object) (key other : Bytes) (v : json.Object)
      → key ≢ other
      → json.object_get_ex (json.object_add jso other v) key ≡ json.object_get_ex jso key

known : (enc : FieldEnc) → enc ≢ fe_unknown → known_or_auto enc ≡ enc
unfolding known_or_auto
known fe_empty h = refl
known fe_binary h = refl
known fe_bcdplus h = refl
known fe_6bitascii h = refl
known fe_text h = refl
known fe_auto h = refl
known fe_unknown h = absurd (h refl)

is_auto_enc_lem : (enc : FieldEnc) → is_auto_enc enc ≡ true → enc ≡ fe_auto
is_auto_enc_lem fe_empty h = cc
is_auto_enc_lem fe_binary h = cc
is_auto_enc_lem fe_bcdplus h = cc
is_auto_enc_lem fe_6bitascii h = cc
is_auto_enc_lem fe_text h = cc
is_auto_enc_lem fe_auto h = refl
is_auto_enc_lem fe_unknown h = cc

keys_differ : codes "type" ≢ codes "data"
keys_differ h =
    let first_differs : ◌≡◌ {A = ℕ} 116 100 = ap (λ l. get_or l 0 0) h in absurd (omega arith)

module _ (json : JsonC) (laws : Laws json) (field : Field) (e : FruErrno) where
  open json use {object_get_ex, object_add, new_object, new_string, get_string}

  string_parts :
      field.enc ≡ fe_auto
      → field_parts json (field_entry json field) e ≡ ok (field.enc, some field.val) e
  unfolding field_entry field_parts plain_field
  string_parts auto =
      rw (auto, field_entry)
        (rw (laws.member-string field.val (codes "type"), field_parts)
          (rw (laws.get-new_string field.val, bind_outcome) refl))

  -- The members of the object that holds the encoding and the value.
  object_parts :
      is_auto_enc field.enc ≡ false
      → field.enc ≢ fe_unknown
      → field_parts json (field_entry json field) e ≡ ok (field.enc, some field.val) e
  unfolding field_entry field_parts typed_field
  object_parts not_auto known_enc =
      let name = new_string (enc_name_by_val field.enc) in
      let typed = object_add new_object (codes "type") name in
      let value = new_string field.val in
      let type_there : object_get_ex (object_add typed (codes "data") value) (codes "type")
          ≡ some name =
        laws.member-add_other typed (codes "type") (codes "data") value keys_differ
        ∙ laws.member-add_same new_object (codes "type") name in
      let data_there : object_get_ex (object_add typed (codes "data") value) (codes "data")
          ≡ some value =
        laws.member-add_same typed (codes "data") value in
      let enc_back : known_or_auto (enc_by_name (enc_name_by_val field.enc)) ≡ field.enc =
        ap known_or_auto ((enc_by_name_iff (enc_name_by_val field.enc) field.enc known_enc).1 refl)
        ∙ known field.enc known_enc in
      rw (not_auto, field_entry)
        (rw (type_there, field_parts)
          (rw (data_there, field_parts)
            (rw (laws.get-new_string (enc_name_by_val field.enc), bind_outcome, deref, pure)
              (rw (enc_back, laws.get-new_string field.val) refl))))

  parts :
      field.enc ≢ fe_unknown
      → field_parts json (field_entry json field) e ≡ ok (field.enc, some field.val) e
  parts known_enc = elim (Bool-cases (is_auto_enc field.enc)) [
    | inl auto ↦ string_parts (is_auto_enc_lem field.enc auto)
    | inr not_auto ↦ object_parts not_auto known_enc
  ]

  -- With what json-c documents of strings and members, load_single_field on the entry that
  -- add_info_field writes for a field, with an encoding other than FRU_FE_UNKNOWN, does what
  -- fru_setfield does with the encoding and the value of the field.
  pub load_single_field-entry :
      (old : Field)
      → field.enc ≢ fe_unknown
      → load_single_field json old (field_entry json field) e
        ≡ (setfield (some old) field.enc (some field.val) >>= stored) e
  unfolding load_single_field
  load_single_field-entry old known_enc = rw (parts known_enc, bind_outcome) refl
