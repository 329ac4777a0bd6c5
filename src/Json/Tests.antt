-- ===== src/Json/Tests.antt =====
-- A json-c with values as a data type, and witnesses of the theorems on JSON.
use frugen.Common.{
  ℕ, zero, suc, ◌≡◌, ◌≢◌, refl, Bool, true, false, Option, none, some, [], ◌∷◌, Bytes, codes, ℤ,
  pos, set, Bool-cases, inl, inr,
}
use frugen.Errno.{FruErrno, ok, with_error, fenofield, ◌>>=◌, fru_errno_init}
use frugen.Field.{Field, fe_text, fe_unknown, blank_field}
use frugen.Field.Encode.{setfield}
use frugen.Fru.{
  Fru, MrRec, mgmt, default_fru, fru_mr_mgmt_access, getfield, info_area, fields, fieldcount,
}
use frugen.Cli.{same_string}
use frugen.Cli.Names.{same_string_refl, same_string_sound}
use frugen.Cli.SetField.{stored}
use frugen.Json.{
  JsonC, load_single_field, load_info_fields, load_fields, field_at, load_field, member, not_null,
  load_custom_list, jsnames,
}
use frugen.Cli.SetField.{Calendar}
use frugen.Json.Load.{
  loadfile_json, load_areas, load_area, enable_last, ignored, load_info_area, load_lang, lang_of,
}
use frugen.Json.LangLoad.{loadfile_json-product_lang}
use frugen.Json.Store.{add_mr_area_json, body_json, mgmt_json, field_entry}
use frugen.Json.Records.{add_mr_area_json_endless}
use frugen.Json.Fields.{Laws, load_single_field-entry}
use frugen.Area.{enable_area, enable, find_position, new_position, place, shift_left, put}

-- An array and an object are lists of values.
mutual
  data Value : Type 0 where
    null : Value
    string : Bytes → Value
    int : ℤ → Value
    array : Members → Value
    object : Members → Value

  data Members : Type 0 where
    empty : Members
    add : Bytes → Value → Members → Members

members_of : Value → Members
members_of (object members) = members
members_of _ = empty

find_member : Members → Bytes → Option Value
find_member empty key = none
find_member (add k v members) key = elim (same_string key k) [
  | true ↦ some v
  | false ↦ find_member members key
]

string_of : Value → Option Bytes
string_of (string s) = some s
string_of _ = none

int_of : Value → ℤ × Bool
int_of (int n) = (n, false)
int_of _ = (pos 0, true)

is_null_value : Value → Bool
is_null_value null = true
is_null_value _ = false

is_array_value : Value → Bool
is_array_value (array items) = true
is_array_value _ = false

items_of : Value → Members
items_of (array items) = items
items_of _ = empty

count_items : Members → ℕ
count_items empty = 0
count_items (add k v members) = suc (count_items members)

item_at : Members → ℕ → Value
item_at empty i = null
item_at (add k v members) zero = v
item_at (add k v members) (suc i) = item_at members i

append_item : Members → Value → Members
append_item empty v = add [] v empty
append_item (add k w members) v = add k w (append_item members v)

abbrev values : JsonC
values = record {
  Object = Value;
  object_get_ex = λ jso key. find_member (members_of jso) key;
  is_null = is_null_value;
  get_string = string_of;
  get_int = int_of;
  is_array = is_array_value;
  array_length = λ jso. count_items (items_of jso);
  array_get_idx = λ jso i. item_at (items_of jso) i;
  new_string = string;
  new_int = int;
  new_object = object empty;
  new_array = array empty;
  object_add = λ jso key v. object (add key v (members_of jso));
  array_add = λ jso v. array (append_item (items_of jso) v);
}

find_same :
    (key : Bytes) (v : Value) (members : Members) → find_member (add key v members) key ≡ some v
unfolding find_member
find_same key v members = rw (same_string_refl key, find_member) refl

find_other :
    (key other : Bytes) (v : Value) (members : Members)
    → key ≢ other
    → find_member (add other v members) key ≡ find_member members key
unfolding find_member
find_other key other v members differs = elim (Bool-cases (same_string key other)) [
  | inl same ↦ absurd (differs (same_string_sound key other same))
  | inr no_hit ↦ rw (no_hit, find_member) refl
]

values-Laws : Laws values
unfolding string_of members_of find_member
values-Laws = record {
  get-new_string = λ s. refl;
  member-string = λ s key. refl;
  member-add_same = λ jso key v. find_same key v (members_of jso);
  member-add_other = λ jso key other v h. find_other key other v (members_of jso) h;
}

abbrev text_field : Field
text_field = record { enc = fe_text; val = codes "abc" }

text_known : fe_text ≢ fe_unknown
text_known = cc

load_single_field-entry_example :
    load_single_field values blank_field (field_entry values text_field) fru_errno_init
    ≡ (setfield (some blank_field) fe_text (some (codes "abc")) >>= stored) fru_errno_init
load_single_field-entry_example =
    load_single_field-entry values values-Laws text_field fru_errno_init blank_field text_known

abbrev name_rec : MrRec
name_rec = record { rec_type = fru_mr_mgmt_access; body = mgmt 2 (codes "node0001") }

abbrev two_names : Fru
two_names = record default_fru {
  mr = some name_rec ∷ some name_rec ∷ [];
  present = set default_fru.present 4 true;
}

abbrev name_json : Value
name_json = object (
    add (codes "sname") (string (codes "node0001")) (
      add (codes "subtype") (string (codes "sname"))
        (add (codes "type") (string (codes "management")) empty)))

name_written : (e : FruErrno) → body_json values name_rec.rec_type name_rec.body e ≡ ok name_json e
unfolding body_json mgmt_json members_of
name_written e = refl

add_mr_area_json_endless_example :
    (e' : FruErrno) × (add_mr_area_json values 1000 two_names (object empty) fru_errno_init
      ≡ ok none e')
add_mr_area_json_endless_example =
    add_mr_area_json_endless values two_names name_rec name_json refl name_written (some name_rec)
      [] 1000 (object empty) fru_errno_init refl

abbrev no_calendar : Calendar
no_calendar = record {
  scan = λ s. none;
  mktime = λ tm. pos 0;
  timezone = pos 0;
  strftime = λ t zone. [];
  new_byte = 0;
}

-- The JSON text {"product": {"lang": 5}}.
abbrev product_lang_json : Value
product_lang_json =
    object (add (codes "product") (object (add (codes "lang") (int (pos 5)) empty)) empty)

abbrev loaded_fru : Fru
loaded_fru = record default_fru {
  order = 0 ∷ 1 ∷ 2 ∷ 4 ∷ 3 ∷ [];
  present = set default_fru.present 3 true;
  board = record default_fru.board { board_lang = 5 };
}

lang_loaded :
    loadfile_json values no_calendar blank_field (some product_lang_json) default_fru fru_errno_init
    ≡ ok loaded_fru (with_error fenofield 3 (pos 7) fru_errno_init)
unfolding loadfile_json load_areas load_area find_member members_of same_string enable_last ignored
    enable_area enable find_position new_position place shift_left put load_info_area
    load_info_fields load_fields field_at load_field member not_null load_custom_list jsnames
    load_lang lang_of getfield info_area fields fieldcount int_of is_null_value string_of
lang_loaded = refl

loadfile_json-product_lang_example :
    loaded_fru.product.product_lang ≡ default_fru.product.product_lang
loadfile_json-product_lang_example =
    loadfile_json-product_lang values no_calendar blank_field (some product_lang_json) default_fru
      loaded_fru fru_errno_init (with_error fenofield 3 (pos 7) fru_errno_init) lang_loaded
