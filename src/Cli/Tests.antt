-- ===== src/Cli/Tests.antt =====
-- Witnesses of the theorems on the command-line tool.
use frugen.Common.{
  All, length, ◌≤◌, false, ℕ, ◌-◌, ◌<◌, ◌≡◌, ◌≢◌, refl, true, some, List, [], ◌∷◌, ◌++◌, map, Bytes,
  codes, arith, set, get_elem?, ◌==◌, if◌then◌else◌, get_or, pos, inl, inr, ℤ,
}
use frugen.Errno.{FruErrno, ok, fail, fru_errno_init}
use frugen.Field.{Field, fe_text, fe_6bitascii, fe_unknown}
use frugen.Field.RoundTrip.{text_round_trip}
use frugen.Field.Text.{cleared}
use frugen.Field.Setfield.{setfield-decode_field}
use frugen.Fru.{
  Fru, MrRec, raw, mgmt, default_fru, fru_mr, fru_mr_raw, fru_mr_mgmt_access, fields, getfield,
}
use frugen.Area.Order.{Flag}
use frugen.Area.Init.{default_WellFormed}
use frugen.Custom.Add.{custom_list}
use frugen.Cli.{field_max, enc_name_by_val, field_name}
use frugen.Cli.FieldOpt.{arg_to_fieldopt}
use frugen.Cli.SetField.{set_field}
use frugen.Cli.Uuid.{update_uuid, uuid_rec}
use frugen.Cli.Upsert.{upsert}
use frugen.Cli.UpdateUuid.{update_uuid-upsert}
use frugen.Cli.Parse.{arg_to_fieldopt-named, arg_to_fieldopt_colon, assignment, as_standard}
use frugen.Hex.{write_hex}
use frugen.Cli.Items.{
  Item, fhexstrdump, area_title, record_title, printable, mgmt_subtype, mgmt_data,
}
use frugen.Cli.PrintMr.{
  print_mr_area, shown_type, mr_type_names, print_body, print_raw, mr_raw_dump, print_mgmt,
}
use frugen.Cli.Print.{print_area}
use frugen.Cli.Dump.{concat, fhexstrdump-write_hex}
use frugen.Cli.Listing.{Shown, shown_nil, shown_cons, print_area-number}
use frugen.Cli.Assign.{set_field_standard, standard_field}

abbrev uuid_text : Bytes
uuid_text = codes "0123456789abcdef0123456789abcdef"

abbrev raw_rec : MrRec
raw_rec = record { rec_type = fru_mr_raw; body = raw 0xc0 fe_text [] }

abbrev mgmt_recs : List MrRec
mgmt_recs =
    record { rec_type = fru_mr_mgmt_access; body = mgmt 2 (codes "node0001") }
    ∷ record { rec_type = fru_mr_mgmt_access; body = mgmt 7 (codes "old") }
    ∷ []

abbrev three_recs : List MrRec
three_recs = raw_rec ∷ mgmt_recs

abbrev with_recs : Fru
with_recs = record default_fru {
  mr = map some three_recs;
  present = set default_fru.present 4 true;
}

update_uuid-upsert_example :
    (fru' : Fru) × (e' : FruErrno) × (update_uuid true true with_recs uuid_text fru_errno_init
      ≡ ok fru' e')
    × (fru'.mr ≡ map some (upsert (uuid_rec uuid_text) three_recs))
    × (get_elem? fru'.present fru_mr ≡ some true)
update_uuid-upsert_example =
    update_uuid-upsert with_recs three_recs uuid_text fru_errno_init refl refl
      (inl (omega arith), (inr tt, (inr tt, tt))) (omega arith)

abbrev no_number : Bytes → ℤ
no_number s = pos 0

three_of_seven : 3 < field_max 3
unfolding field_max
three_of_seven = omega arith

one_of_five : 1 < field_max 2
unfolding field_max
one_of_five = omega arith

arg_to_fieldopt-named_example :
    arg_to_fieldopt no_number
      (enc_name_by_val fe_6bitascii
        ++ b':' ∷ assignment 3 (get_or (field_name 3) 3 []) (codes "1:2"))
      fru_errno_init
    ≡ ok (as_standard fe_6bitascii 3 3 (codes "1:2")) fru_errno_init
arg_to_fieldopt-named_example =
    arg_to_fieldopt-named no_number fe_6bitascii 3 3 (codes "1:2") fru_errno_init (cc)
      three_of_seven

arg_to_fieldopt_colon_example :
    arg_to_fieldopt no_number
      (assignment 2 (get_or (field_name 2) 1 []) (codes "X" ++ b':' ∷ codes "1"))
      fru_errno_init
    ≡ fail fru_errno_init
arg_to_fieldopt_colon_example =
    arg_to_fieldopt_colon no_number 2 1 (codes "X") (codes "1") fru_errno_init one_of_five

abbrev name_field : Field
name_field = record { enc = fe_text; val = codes "Board 1" }

text_known : fe_text ≢ fe_unknown
text_known = cc

set_field_standard_example :
    (fru' : Fru) × (e' : FruErrno) × (set_field true true
        (as_standard fe_text 2 1 (codes "Board 1"))
        default_fru
        fru_errno_init
      ≡ ok fru' e')
    × Flag fru'.present true 2
    × (getfield (some fru') 2 1 e' ≡ ok name_field e')
    × ((b : ℕ)
        → fields fru' b
          ≡ (if b == 2 - 1 then set (fields default_fru b) 1 name_field else fields default_fru b))
    × ((b : ℕ) → custom_list fru' b ≡ custom_list default_fru b)
set_field_standard_example =
    set_field_standard true true default_fru fe_text 2 1 (codes "Board 1") name_field fru_errno_init
      (cleared fru_errno_init) default_WellFormed one_of_five
      (setfield-decode_field (standard_field default_fru 2 1) name_field fe_text
        (some (codes "Board 1")) fru_errno_init (cleared fru_errno_init) text_known
        (text_round_trip (codes "Board 1") fru_errno_init (omega arith) (omega arith)
          (omega arith)))

fhexstrdump-write_hex_example :
    (lines : List Bytes) × (fhexstrdump (some (write_hex (0x13 ∷ 0x37 ∷ []))) fru_errno_init
      ≡ ok lines fru_errno_init)
    × (concat lines ≡ 0x13 ∷ 0x37 ∷ [])
    × All (λ line. length line ≤ 16) lines
fhexstrdump-write_hex_example =
    fhexstrdump-write_hex (0x13 ∷ 0x37 ∷ []) fru_errno_init (omega arith, (omega arith, tt)) (cc)

abbrev three_shown : List Item
three_shown =
    record_title 1 (codes "OEM") 0xc0 true
    ∷ printable []
    ∷ record_title 2 (codes "Management Access Record") 3 false
    ∷ mgmt_subtype 2 (codes "System Name") (codes "sname")
    ∷ mgmt_data (codes "node0001")
    ∷ record_title 3 (codes "Management Access Record") 3 false
    ∷ mgmt_subtype 7 (codes "System Unique ID") (codes "uuid")
    ∷ mgmt_data (codes "old")
    ∷ []

three_shown-Shown : Shown 1 three_recs three_shown
unfolding print_mr_area shown_type mr_type_names print_body print_raw mr_raw_dump print_mgmt
three_shown-Shown =
    shown_cons (record_title 1 (codes "OEM") 0xc0 true ∷ printable [] ∷ []) (λ e. (e, refl))
      (shown_cons _ (λ e. (e, refl)) (shown_cons _ (λ e. (e, refl)) shown_nil))

print_area-number_example :
    (e' : FruErrno) × (print_area with_recs 4 fru_errno_init ≡ ok (area_title 4 ∷ three_shown) e')
print_area-number_example =
    print_area-number with_recs raw_rec mgmt_recs three_shown fru_errno_init refl refl
      three_shown-Shown
