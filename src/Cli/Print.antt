-- ===== src/Cli/Print.antt =====
-- The loops of frugen.c that print a FRU as text: print_info_area, print_area and
-- save_to_text_file.
use frugen.Common.{u8}
use frugen.Common.{
  ℕ, zero, suc, true, false, some, List, [], ◌∷◌, ◌++◌, ◌==◌, get_elem?, length, if◌then◌else◌,
}
use frugen.Errno.{ErrorCode, fenone, ok, Eff, ◌>>=◌, ◌>>◌, pure, deref, undefined, clearerr}
use frugen.Fru.{Fru, getfield, fru_internal_use, fru_chassis_info, fru_board_info, is_info_area}
use frugen.Custom.{get_custom}
use frugen.Custom.Add.{custom_list}
use frugen.Mr.{get_mr}
use frugen.Cli.{or_null, field_max}
use frugen.Cli.Items.{
  Item, area_title, area_empty, frugen_bug, octets, chassis_type, language, date, standard_field,
  custom_field, fhexstrdump,
}
use frugen.Cli.PrintMr.{print_mr_area}

-- The loops of print_info_area over the standard fields, with the rounds left, and over the custom
-- fields, with the rounds left: the latter ends when fru_get_custom returns NULL.
unfoldable pub print_fields : ℕ → Fru → ℕ → ℕ → Eff (List Item)
print_fields zero fru atype i = pure []
print_fields (suc n) fru atype i = do
  field ← getfield (some fru) atype i
  rest ← print_fields n fru atype (suc i)
  pure (standard_field i field ∷ rest)

unfoldable pub print_customs : ℕ → Fru → ℕ → ℕ → Eff (List Item)
print_customs zero fru atype idx = undefined
print_customs (suc n) fru atype idx = do
  found ← (λ e. or_null (get_custom (some fru) atype idx e))
  elim found [
    | some (some field) ↦ do
      rest ← print_customs n fru atype (suc idx)
      pure (custom_field (suc idx) field ∷ rest)
    | _ ↦ pure []
  ]

-- The fields of an area that are not strings.
unfoldable pub print_special : Fru → ℕ → List Item
print_special fru atype =
    if atype == fru_chassis_info
    then chassis_type fru.chassis.chassis_type ∷ []
    else if atype == fru_board_info
    then language (u8 fru.board.board_lang) ∷ date fru.board.tv fru.board.tv_auto ∷ []
    else language (u8 fru.product.product_lang) ∷ []

-- print_info_area
unfoldable pub print_info_area : Fru → ℕ → Eff (List Item)
print_info_area fru atype = do
  fields ← print_fields (field_max atype) fru atype 0
  customs ← print_customs (suc (length (custom_list fru atype))) fru atype 0
  pure (print_special fru atype ++ fields ++ customs)

-- The loop of print_area over the records, with the rounds left: the index behind the last record,
-- and what is printed.
unfoldable pub print_records : ℕ → Fru → ℕ → Eff (ℕ × List Item)
print_records zero fru mr_index = undefined
print_records (suc n) fru mr_index = do
  found ← (λ e. or_null (get_mr (some fru) mr_index e))
  elim found [
    | some (some rec) ↦ do
      items ← print_mr_area (suc mr_index) rec
      (last, rest) ← print_records n fru (suc mr_index)
      pure (last, items ++ rest)
    | _ ↦ pure (mr_index, [])
  ]

-- What print_area says of an area without records.
abbrev pub empty_item : ErrorCode → Item
empty_item fenone = area_empty
empty_item code = frugen_bug

unfoldable pub print_empty : ℕ × List Item → Eff (List Item)
print_empty (mr_index, items) e = elim (mr_index == 0) [
  | true ↦ ok (empty_item e.code ∷ []) e
  | false ↦ ok items e
]

unfoldable pub print_mrs : Fru → Eff (List Item)
print_mrs fru = do
  clearerr
  printed ← print_records (suc (length fru.mr)) fru 0
  print_empty printed

-- print_area
unfoldable pub print_area : Fru → ℕ → Eff (List Item)
print_area fru atype = elim (atype == fru_internal_use) [
  | true ↦ do lines ← fhexstrdump fru.internal; pure (area_title atype ∷ octets lines ∷ [])
  | false ↦ elim (is_info_area atype) [
    | true ↦ do items ← print_info_area fru atype; pure (area_title atype ∷ items)
    | false ↦ do items ← print_mrs fru; pure (area_title atype ∷ items)
  ]
]

-- The loop of save_to_text_file over the types of areas.
unfoldable pub print_areas : Fru → List ℕ → Eff (List Item)
print_areas fru [] = pure []
print_areas fru (atype ∷ atypes) = do
  here ← deref (get_elem? fru.present atype)
  items ← elim here [ true ↦ print_area fru atype | false ↦ pure [] ]
  rest ← print_areas fru atypes
  pure (items ++ rest)

unfoldable pub save_to_text : Fru → Eff (List Item)
save_to_text fru = print_areas fru (0 ∷ 1 ∷ 2 ∷ 3 ∷ 4 ∷ [])
