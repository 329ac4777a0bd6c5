-- ===== src/Cli/Parse.antt =====
-- arg_to_fieldopt on the arguments that the help text of the option `--set` describes, and the
-- names of encodings and of management records.
use frugen.Common.{
  ℕ, ◌<◌, ◌≡◌, ◌≢◌, refl, true, false, none, some, [], ◌∷◌, ◌++◌, Bytes, get_or, ◌==◌, ℤ, pos,
  arith, Bool-cases, inl, inr, All,
}
use frugen.Errno.{FruErrno, ok, fail, bind_outcome}
use frugen.Field.{
  FieldEnc, fe_empty, fe_binary, fe_bcdplus, fe_6bitascii, fe_text, fe_auto, fe_unknown,
}
use frugen.Cli.{
  area_names, field_name, field_max, enc_name_by_val, enc_search, enc_by_name, same_string,
}
use frugen.Cli.Cases.{all_fields}
use frugen.Cli.FieldOpt.{
  FieldOpt, arg_to_fieldopt, split_at, split_enc, named_enc, split_area, search_area, split_value,
  find_field, search_field,
}

-- The text `<area>.<field>=<value>`.
abbrev pub assignment : ℕ → Bytes → Bytes → Bytes
assignment area field value = get_or area_names area [] ++ b'.' ∷ (field ++ b'=' ∷ value)

-- The parser without its first step.
abbrev pub as_standard : FieldEnc → ℕ → ℕ → Bytes → FieldOpt
as_standard enc area i value = record {
  enc = enc;
  area = area;
  field = some i;
  value = value;
  custom_index = pos 0;
  custom_insert = false;
}

module _ (atoi : Bytes → ℤ) (enc : FieldEnc) (arg value : Bytes) (e : FruErrno) where
  -- An argument that is cut after the encoding.
  Parses : ℕ → ℕ → Type 0
  Parses area i =
      split_enc arg e ≡ ok (enc, assignment area (get_or (field_name area) i []) value) e
      → arg_to_fieldopt atoi arg e ≡ ok (as_standard enc area i value) e

  parses_lem : (area i : ℕ) → i < field_max area → Parses area i
  unfolding arg_to_fieldopt Parses field_name field_max split_area search_area split_value
      find_field search_field split_at same_string
  parses_lem =
      all_fields Parses (λ h. rw (h, bind_outcome) refl) (λ h. rw (h, bind_outcome) refl)
        (λ h. rw (h, bind_outcome) refl) (λ h. rw (h, bind_outcome) refl)
        (λ h. rw (h, bind_outcome) refl) (λ h. rw (h, bind_outcome) refl)
        (λ h. rw (h, bind_outcome) refl) (λ h. rw (h, bind_outcome) refl)
        (λ h. rw (h, bind_outcome) refl) (λ h. rw (h, bind_outcome) refl)
        (λ h. rw (h, bind_outcome) refl) (λ h. rw (h, bind_outcome) refl)
        (λ h. rw (h, bind_outcome) refl) (λ h. rw (h, bind_outcome) refl)

-- The specifier of an encoding: a name and `:`.
split_enc_lem :
    (enc : FieldEnc) (rest : Bytes) (e : FruErrno)
    → enc ≢ fe_unknown
    → split_enc (enc_name_by_val enc ++ b':' ∷ rest) e ≡ ok (enc, rest) e
unfolding split_enc split_at enc_name_by_val named_enc enc_by_name enc_search same_string
split_enc_lem fe_empty rest e h = refl
split_enc_lem fe_binary rest e h = refl
split_enc_lem fe_bcdplus rest e h = refl
split_enc_lem fe_6bitascii rest e h = refl
split_enc_lem fe_text rest e h = refl
split_enc_lem fe_auto rest e h = refl
split_enc_lem fe_unknown rest e h = absurd (h refl)

-- The argument `<encoding>:<area>.<field>=<value>`, for an encoding other than FRU_FE_PRESERVE
-- and a standard field of an information area, is read back, whatever bytes the value has.
pub arg_to_fieldopt-named :
    (atoi : Bytes → ℤ) (enc : FieldEnc) (area i : ℕ) (value : Bytes) (e : FruErrno)
    → enc ≢ fe_unknown
    → i < field_max area
    → arg_to_fieldopt atoi
        (enc_name_by_val enc ++ b':' ∷ assignment area (get_or (field_name area) i []) value)
        e
      ≡ ok (as_standard enc area i value) e
arg_to_fieldopt-named atoi enc area i value e known settable =
    let rest = assignment area (get_or (field_name area) i []) value in
    unfold Parses in
    parses_lem atoi enc (enc_name_by_val enc ++ b':' ∷ rest) value e area i settable
      (split_enc_lem enc rest e known)

split_at-none : (c : ℕ) (s : Bytes) → All (λ d. d ≢ c) s → split_at c s ≡ none
unfolding split_at
split_at-none c [] h = refl
split_at-none c (d ∷ s) (differs, h) =
    let other : (d == c) ≡ false = ground arith in
    rw (other, split_at) (rw (split_at-none c s h) refl)

split_at-some :
    (c : ℕ) (before behind : Bytes)
    → (pre : Bytes) × (post : Bytes) × (split_at c (before ++ c ∷ behind) ≡ some (pre, post))
unfolding split_at
split_at-some c [] behind =
    let here : (c == c) ≡ true = ground arith in ([], behind, rw (here, split_at) refl)
split_at-some c (d ∷ before) behind = elim (Bool-cases (d == c)) [
  | inl here ↦ ([], before ++ c ∷ behind, rw (here, split_at) refl)
  | inr other ↦
      let (pre, post, found) = split_at-some c before behind in
      (d ∷ pre, post, rw (other, split_at) (rw found refl))
]

-- A `:` in the assignment of a standard field is one of the value.
module _ (value : Bytes) where
  Unnamed : ℕ → ℕ → Type 0
  Unnamed area i =
      split_at b':' value ≡ none
      → split_at b':' (assignment area (get_or (field_name area) i []) value) ≡ none

  unnamed_lem : (area i : ℕ) → i < field_max area → Unnamed area i
  unfolding Unnamed field_name split_at
  unnamed_lem =
      all_fields Unnamed (λ h. rw (h, split_at) refl) (λ h. rw (h, split_at) refl)
        (λ h. rw (h, split_at) refl) (λ h. rw (h, split_at) refl) (λ h. rw (h, split_at) refl)
        (λ h. rw (h, split_at) refl) (λ h. rw (h, split_at) refl) (λ h. rw (h, split_at) refl)
        (λ h. rw (h, split_at) refl) (λ h. rw (h, split_at) refl) (λ h. rw (h, split_at) refl)
        (λ h. rw (h, split_at) refl) (λ h. rw (h, split_at) refl) (λ h. rw (h, split_at) refl)

module _ (value pre post : Bytes) where
  Cut : ℕ → ℕ → Type 0
  Cut area i =
      split_at b':' value ≡ some (pre, post)
      → split_at b':' (assignment area (get_or (field_name area) i []) value)
        ≡ some (assignment area (get_or (field_name area) i []) pre, post)

  cut_lem : (area i : ℕ) → i < field_max area → Cut area i
  unfolding Cut field_name split_at
  cut_lem =
      all_fields Cut (λ h. rw (h, split_at) refl) (λ h. rw (h, split_at) refl)
        (λ h. rw (h, split_at) refl) (λ h. rw (h, split_at) refl) (λ h. rw (h, split_at) refl)
        (λ h. rw (h, split_at) refl) (λ h. rw (h, split_at) refl) (λ h. rw (h, split_at) refl)
        (λ h. rw (h, split_at) refl) (λ h. rw (h, split_at) refl) (λ h. rw (h, split_at) refl)
        (λ h. rw (h, split_at) refl) (λ h. rw (h, split_at) refl) (λ h. rw (h, split_at) refl)

-- What stands before it is not the name of an encoding.
module _ (pre : Bytes) (e : FruErrno) where
  NotNamed : ℕ → ℕ → Type 0
  NotNamed area i = named_enc (assignment area (get_or (field_name area) i []) pre) e ≡ fail e

  not_named : (area i : ℕ) → i < field_max area → NotNamed area i
  unfolding NotNamed field_name named_enc enc_by_name enc_search enc_name_by_val same_string
  not_named =
      all_fields NotNamed refl refl refl refl refl refl refl refl refl refl refl refl refl refl

-- Without an encoding, the argument asks for FRU_FE_PRESERVE when no byte of the value is a `:`.
pub arg_to_fieldopt-preserve :
    (atoi : Bytes → ℤ) (area i : ℕ) (value : Bytes) (e : FruErrno)
    → i < field_max area
    → All (λ d. d ≢ b':') value
    → arg_to_fieldopt atoi (assignment area (get_or (field_name area) i []) value) e
      ≡ ok (as_standard fe_unknown area i value) e
arg_to_fieldopt-preserve atoi area i value e settable quiet =
    let arg = assignment area (get_or (field_name area) i []) value in
    let whole : split_at b':' arg ≡ none =
      unfold Unnamed in unnamed_lem value area i settable (split_at-none b':' value quiet) in
    unfold Parses in
    parses_lem atoi fe_unknown arg value e area i settable
      (unfold split_enc in rw (whole, split_enc) refl)

-- Without an encoding, a value with a `:` in it ends the program: what stands before the first `:`
-- is taken for the name of an encoding.
pub arg_to_fieldopt_colon :
    (atoi : Bytes → ℤ) (area i : ℕ) (before behind : Bytes) (e : FruErrno)
    → i < field_max area
    → arg_to_fieldopt atoi
        (assignment area (get_or (field_name area) i []) (before ++ b':' ∷ behind))
        e
      ≡ fail e
arg_to_fieldopt_colon atoi area i before behind e settable =
    let value = before ++ b':' ∷ behind in
    let (pre, post, found) = split_at-some b':' before behind in
    let whole : split_at b':' (assignment area (get_or (field_name area) i []) value)
        ≡ some (assignment area (get_or (field_name area) i []) pre, post) =
      unfold Cut in cut_lem value pre post area i settable found in
    let refused : named_enc (assignment area (get_or (field_name area) i []) pre) e ≡ fail e =
      unfold NotNamed in not_named pre e area i settable in
    unfold arg_to_fieldopt split_enc in
    rw (whole, split_enc, bind_outcome) (rw (refused, bind_outcome) refl)
