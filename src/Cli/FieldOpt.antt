-- ===== src/Cli/FieldOpt.antt =====
-- arg_to_fieldopt of frugen.c, which splits the argument of the option `--set`, and the structure
-- fieldopt_t of frugen.h. `atoi` is the C library's.
use frugen.Common.{
  ℕ, zero, suc, ◌-◌, Bool, true, false, Option, none, some, List, [], ◌∷◌, Bytes, codes, ltb, leb,
  ◌==◌, ◌&&◌, ◌||◌, get_or, drop, take, if◌then◌else◌, ℤ, pos, minus_one, lt_int, length, not,
}
use frugen.Errno.{Eff, ◌>>=◌, ◌>>◌, pure}
use frugen.Field.{FieldEnc, fe_auto, fe_unknown}
use frugen.Fru.{is_info_area}
use frugen.Cli.{fatal, same_string, area_names, field_name, field_max, enc_by_name, list_tail}

-- `field.index` is none for FRU_FIELD_CUSTOM. The encoding FRU_FE_PRESERVE is fe_unknown.
pub record FieldOpt : Type 0 where
  pub enc : FieldEnc
  pub area : ℕ
  pub field : Option ℕ
  pub value : Bytes
  pub custom_index : ℤ
  pub custom_insert : Bool

-- `if (!test) fatal(...);`
abbrev pub require : Bool → Eff (Unit {0})
require true = pure tt
require false = fatal

-- `p = strchr(arg, c)` and `*p = 0`: the string before `c` and the one from `p + 1` on.
abbrev pub split_behind : ℕ → Option (Bytes × Bytes) → Option (Bytes × Bytes)
split_behind d none = none
split_behind d (some (before, behind)) = some (d ∷ before, behind)

unfoldable pub split_at : ℕ → Bytes → Option (Bytes × Bytes)
split_at c [] = none
split_at c (d ∷ s) = elim (d == c) [ true ↦ some ([], s) | false ↦ split_behind d (split_at c s) ]

abbrev pub is_unknown : FieldEnc → Bool
is_unknown fe_unknown = true
is_unknown _ = false

-- The encoding specifier, and the argument behind it: a bare `:` asks for FRU_FE_AUTO.
unfoldable pub named_enc : Bytes → Eff FieldEnc
named_enc [] = pure fe_auto
named_enc (c ∷ name) = do
  require (not (is_unknown (enc_by_name (c ∷ name))))
  pure (enc_by_name (c ∷ name))

unfoldable pub split_enc : Bytes → Eff (FieldEnc × Bytes)
split_enc arg = elim (split_at b':' arg) [
  | none ↦ pure (fe_unknown, arg)
  | some (name, rest) ↦ do enc ← named_enc name; pure (enc, rest)
]

-- The loop over the areas, from `atype` on: only an information area's name is compared.
unfoldable pub search_area : Bytes → ℕ → List Bytes → Option ℕ
search_area name atype [] = none
search_area name atype (known ∷ names) = elim (is_info_area atype && same_string name known) [
  | true ↦ some atype
  | false ↦ search_area name (suc atype) names
]

abbrev pub require_some {ℓ} : {A : Type ℓ} → Option A → Eff A
require_some none = fatal
require_some (some a) = pure a

unfoldable pub split_area : Bytes → Eff (ℕ × Bytes)
split_area arg = do
  (name, rest) ← require_some (split_at b'.' arg)
  require (ltb 0 (length name))
  area ← require_some (search_area name 0 area_names)
  pure (area, rest)

-- The name of the field and the value.
unfoldable pub split_value : Bytes → Eff (Bytes × Bytes)
split_value arg = do
  (name, value) ← require_some (split_at b'=' arg)
  require (ltb 0 (length name))
  pure (name, value)

-- The loop over the fields, from index `n` - 1 downwards.
unfoldable pub search_field : Bytes → List Bytes → ℕ → Option ℕ
search_field name names zero = none
search_field name names (suc i) = elim (same_string name (get_or names i [])) [
  | true ↦ some i
  | false ↦ search_field name names i
]

-- isdigit in the C locale, and toupper on the letters that the code compares with.
unfoldable pub is_digit : ℕ → Bool
is_digit c = leb b'0' c && leb c b'9'

unfoldable pub to_upper : ℕ → ℕ
to_upper c = if leb b'a' c && leb c b'z' then c - 32 else c

unfoldable pub custom_letter : ℕ → ℤ
custom_letter c =
    if c == b'F' || c == b'H' || c == b'S'
    then pos 0
    else if c == b'L' || c == b'T' || c == b'E'
    then pos list_tail
    else minus_one

module _ (atoi : Bytes → ℤ) where
  -- The index behind `custom.`, or -1.
  unfoldable pub custom_number : Bytes → ℤ
  custom_number p2 =
      if is_digit (get_or p2 0 0) then atoi p2 else custom_letter (to_upper (get_or p2 0 0))

  unfoldable pub custom_place : Bytes → Eff (ℤ × Bool)
  custom_place p2 = do
    let insert = get_or p2 0 0 == b'+'
    let index = custom_number (if insert then drop 1 p2 else p2)
    require (not (lt_int index (pos 0)))
    pure (index, insert)

  unfoldable pub custom_field : Bytes → Eff (ℤ × Bool)
  custom_field name = elim (split_at b'.' name) [
    | none ↦ pure (pos list_tail, false)
    | some (custom, p2) ↦ custom_place p2
  ]

  -- The field that a name stands for: a standard one, or one that begins with `custom`.
  unfoldable pub find_field : ℕ → Bytes → Eff (Option ℕ × ℤ × Bool)
  find_field area name = elim (search_field name (field_name area) (field_max area)) [
    | some index ↦ pure (some index, pos 0, false)
    | none ↦ do
      require (same_string (take 6 name) (codes "custom"))
      (index, insert) ← custom_field name
      pure (none, index, insert)
  ]

  -- arg_to_fieldopt
  unfoldable pub arg_to_fieldopt : Bytes → Eff FieldOpt
  arg_to_fieldopt arg = do
    (enc, area_arg) ← split_enc arg
    (area, field_arg) ← split_area area_arg
    (name, value) ← split_value field_arg
    require (ltb 0 (field_max area))
    (field, index, insert) ← find_field area name
    pure (record {
      enc = enc;
      area = area;
      field = field;
      value = value;
      custom_index = index;
      custom_insert = insert;
    })
