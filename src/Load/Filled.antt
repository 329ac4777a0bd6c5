-- ===== src/Load/Filled.antt =====
-- What decode_info_area stores of an area in fru_t.
use frugen.Common.{
  ℕ, zero, suc, ◌+◌, ◌-◌, ◌≤◌, ◌≡◌, refl, ◌∙◌, List, [], ◌∷◌, Bytes, length, arith, take, drop, ℤ,
}
use frugen.Errno.{FruErrno, ok, bind_outcome}
use frugen.Field.{Field}
use frugen.Fru.{Fru, Board, fields, fieldcount}
use frugen.Custom.Add.{custom_list}
use frugen.Save.Area.{langtype}
use frugen.Save.Write.{read_out_lem}
use frugen.Common.{u8, ap}
use frugen.Load.Area.{with_low_byte, set_fields, set_langtype, decode_date, set_date}
use frugen.Load.Ends.{header_size}

-- The order of the areas, their presence, and the custom fields of an area are as they were.
pub record Untouched (fru : Fru) (atype : ℕ) (fru' : Fru) : Type 0 where
  pub same_order : fru'.order ≡ fru.order
  pub same_present : fru'.present ≡ fru.present
  pub same_customs : custom_list fru' atype ≡ custom_list fru atype

pub Untouched-trans :
    (atype : ℕ) (a b c : Fru) → Untouched a atype b → Untouched b atype c → Untouched a atype c
Untouched-trans atype a b c ab bc = record {
  same_order = bc.same_order ∙ ab.same_order;
  same_present = bc.same_present ∙ ab.same_present;
  same_customs = bc.same_customs ∙ ab.same_customs;
}

-- The mandatory fields are stored, and the language or type stays.
pub set_fields_lem :
    (atype : ℕ) (fru : Fru) (outs : List Field) (e : FruErrno)
    → 1 ≤ atype
    → atype ≤ 3
    → length outs ≡ fieldcount atype
    → (fru' : Fru) × (set_fields atype fru outs e ≡ ok fru' e)
      × (fields fru' (atype - 1) ≡ outs)
      × (langtype fru' (atype - 1) ≡ langtype fru (atype - 1))
      × Untouched fru atype fru'
unfolding set_fields fieldcount fields
set_fields_lem zero fru outs e low high size = absurd (omega arith)
set_fields_lem (suc zero) fru (a ∷ b ∷ []) e low high size =
    (_, refl, refl, refl, record { same_order = refl; same_present = refl; same_customs = refl })
set_fields_lem (suc zero) fru [] e low high size = absurd (omega arith)
set_fields_lem (suc zero) fru (a ∷ []) e low high size = absurd (omega arith)
set_fields_lem (suc zero) fru (a ∷ b ∷ c ∷ l) e low high size = absurd (omega arith)
set_fields_lem (suc (suc zero)) fru (a ∷ b ∷ c ∷ d ∷ f ∷ []) e low high size =
    (_, refl, refl, refl, record { same_order = refl; same_present = refl; same_customs = refl })
set_fields_lem (suc (suc zero)) fru [] e low high size = absurd (omega arith)
set_fields_lem (suc (suc zero)) fru (a ∷ []) e low high size = absurd (omega arith)
set_fields_lem (suc (suc zero)) fru (a ∷ b ∷ []) e low high size = absurd (omega arith)
set_fields_lem (suc (suc zero)) fru (a ∷ b ∷ c ∷ []) e low high size = absurd (omega arith)
set_fields_lem (suc (suc zero)) fru (a ∷ b ∷ c ∷ d ∷ []) e low high size = absurd (omega arith)
set_fields_lem (suc (suc zero)) fru (a ∷ b ∷ c ∷ d ∷ f ∷ g ∷ l) e low high size =
    absurd (omega arith)
set_fields_lem (suc (suc (suc zero))) fru (a ∷ b ∷ c ∷ d ∷ f ∷ g ∷ k ∷ []) e low high size =
    (_, refl, refl, refl, record { same_order = refl; same_present = refl; same_customs = refl })
set_fields_lem (suc (suc (suc zero))) fru [] e low high size = absurd (omega arith)
set_fields_lem (suc (suc (suc zero))) fru (a ∷ []) e low high size = absurd (omega arith)
set_fields_lem (suc (suc (suc zero))) fru (a ∷ b ∷ []) e low high size = absurd (omega arith)
set_fields_lem (suc (suc (suc zero))) fru (a ∷ b ∷ c ∷ []) e low high size = absurd (omega arith)
set_fields_lem (suc (suc (suc zero))) fru (a ∷ b ∷ c ∷ d ∷ []) e low high size =
    absurd (omega arith)
set_fields_lem (suc (suc (suc zero))) fru (a ∷ b ∷ c ∷ d ∷ f ∷ []) e low high size =
    absurd (omega arith)
set_fields_lem (suc (suc (suc zero))) fru (a ∷ b ∷ c ∷ d ∷ f ∷ g ∷ []) e low high size =
    absurd (omega arith)
set_fields_lem (suc (suc (suc zero))) fru (a ∷ b ∷ c ∷ d ∷ f ∷ g ∷ k ∷ x ∷ l) e low high size =
    absurd (omega arith)
set_fields_lem (suc (suc (suc (suc n)))) fru outs e low high size = absurd (omega arith)

set_date-lang :
    (base : ℤ) (board : Board) (date : Bytes)
    → (set_date base board date).board_lang ≡ board.board_lang
unfolding set_date
set_date-lang base board [] = refl
set_date-lang base board (a ∷ []) = refl
set_date-lang base board (a ∷ b ∷ []) = refl
set_date-lang base board (a ∷ b ∷ c ∷ rest) = ground arith

set_date-customs :
    (base : ℤ) (board : Board) (date : Bytes)
    → (set_date base board date).board_cust ≡ board.board_cust
unfolding set_date
set_date-customs base board [] = refl
set_date-customs base board (a ∷ []) = refl
set_date-customs base board (a ∷ b ∷ []) = refl
set_date-customs base board (a ∷ b ∷ c ∷ rest) = ground arith

low_byte_lem : (lang value : ℕ) → u8 (with_low_byte lang value) ≡ u8 value
low_byte_lem lang value = omega arith

-- The part of the header that depends on the type of the area.
pub decode_date_lem :
    (image : Bytes) (base : ℤ) (atype offset value : ℕ) (fru : Fru) (e : FruErrno)
    → 1 ≤ atype
    → atype ≤ 3
    → offset + 6 ≤ length image
    → (fru' : Fru) × (decode_date image base atype offset (set_langtype atype fru value) e
        ≡ ok (fru', header_size atype) e)
      × (langtype fru' (atype - 1) ≡ u8 value)
      × Untouched fru atype fru'
unfolding decode_date set_langtype
decode_date_lem image base zero offset value fru e low high fits = absurd (omega arith)
decode_date_lem image base (suc zero) offset value fru e low high fits =
    (_, refl, omega arith, record { same_order = refl; same_present = refl; same_customs = refl })
decode_date_lem image base (suc (suc zero)) offset value fru e low high fits =
    let date : Bytes = take 3 (drop (offset + 3) image) in
    let board : Board = record fru.board {
      board_lang = with_low_byte fru.board.board_lang value;
    } in
    (
      record fru { board = set_date base board date },
      rw (read_out_lem image (offset + 3) 3 e (omega arith), bind_outcome) refl,
      ap u8 (set_date-lang base board date) ∙ low_byte_lem fru.board.board_lang value,
      record {
        same_order = refl;
        same_present = refl;
        same_customs = set_date-customs base board date;
      },
    )
decode_date_lem image base (suc (suc (suc zero))) offset value fru e low high fits = (
  _,
  refl,
  low_byte_lem fru.product.product_lang value,
  record { same_order = refl; same_present = refl; same_customs = refl },
)
decode_date_lem image base (suc (suc (suc (suc n)))) offset value fru e low high fits =
    absurd (omega arith)
