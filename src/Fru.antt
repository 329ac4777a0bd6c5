-- ===== src/Fru.antt =====
-- fru.h.in (the decoded FRU), lib/fru_init.c and lib/fru_getfield.c.
mod Record
pub use Record.*
use frugen.Common.{
  ℕ, ◌-◌, Bool, true, false, ◌&&◌, Option, none, some, List, [], ◌∷◌, Bytes, leb, ltb, ℤ, pos,
  minus_one, to_int, get_elem?, get_or,
}
use frugen.Errno.{
  Eff, ◌>>=◌, ◌>>◌, pure, deref, guard, non_null, fail_with, fegeneric, feareabadtype, feareanotsup,
  feadisabled, fenofield, ferr_loc_caller, ferr_loc_general,
}
use frugen.Field.{Field, blank_field}

-- fru_area_type_t
abbrev pub fru_internal_use : ℕ
fru_internal_use = 0

abbrev pub fru_chassis_info : ℕ
fru_chassis_info = 1

abbrev pub fru_board_info : ℕ
fru_board_info = 2

abbrev pub fru_product_info : ℕ
fru_product_info = 3

abbrev pub fru_mr : ℕ
fru_mr = 4

-- FRU_IS_VALID_AREA and FRU_IS_INFO_AREA
abbrev pub is_valid_area : ℕ → Bool
is_valid_area atype = leb atype fru_mr

abbrev pub is_info_area : ℕ → Bool
is_info_area atype = leb fru_chassis_info atype && leb atype fru_product_info

-- fru__reclist_t, from its head on: an entry's `rec` may be NULL.
abbrev pub Reclist : Type 0
Reclist = List (Option Field)

-- struct timeval
pub record Timeval : Type 0 where
  pub tv_sec : ℤ
  pub tv_usec : ℤ

-- fru_chassis_t, fru_board_t and fru_product_t: a field's name carries its structure's.
pub record Chassis : Type 0 where
  pub chassis_type : ℕ
  pub chassis_pn : Field
  pub chassis_serial : Field
  pub chassis_cust : Reclist

pub record Board : Type 0 where
  pub board_lang : ℕ
  pub tv : Timeval
  pub tv_auto : Bool
  pub board_mfg : Field
  pub board_pname : Field
  pub board_serial : Field
  pub board_pn : Field
  pub board_file : Field
  pub board_cust : Reclist

pub record Product : Type 0 where
  pub product_lang : ℕ
  pub product_mfg : Field
  pub product_pname : Field
  pub product_pn : Field
  pub product_ver : Field
  pub product_serial : Field
  pub product_atag : Field
  pub product_file : Field
  pub product_cust : Reclist

-- fru_t: `internal` is a C string or NULL, and `mr` the list of records, each of which may be NULL.
pub record Fru : Type 0 where
  pub present : List Bool
  pub order : List ℕ
  pub internal : Option Bytes
  pub chassis : Chassis
  pub board : Board
  pub product : Product
  pub mr : List (Option MrRec)

-- The structure that fru_init leaves: `memset` to zero, and the defaults.
abbrev pub default_fru : Fru
default_fru = record {
  present = false ∷ false ∷ false ∷ false ∷ false ∷ [];
  order = fru_internal_use ∷ fru_chassis_info ∷ fru_board_info ∷ fru_product_info ∷ fru_mr ∷ [];
  internal = none;
  chassis = record {
    chassis_type = 0x17;
    chassis_pn = blank_field;
    chassis_serial = blank_field;
    chassis_cust = [];
  };
  board = record {
    board_lang = 0;
    tv = record { tv_sec = pos 0; tv_usec = pos 0 };
    tv_auto = true;
    board_mfg = blank_field;
    board_pname = blank_field;
    board_serial = blank_field;
    board_pn = blank_field;
    board_file = blank_field;
    board_cust = [];
  };
  product = record {
    product_lang = 0;
    product_mfg = blank_field;
    product_pname = blank_field;
    product_pn = blank_field;
    product_ver = blank_field;
    product_serial = blank_field;
    product_atag = blank_field;
    product_file = blank_field;
    product_cust = [];
  };
  mr = [];
}

-- The structure that is all zeros.
abbrev pub zeroed_fru : Fru
zeroed_fru = record default_fru {
  order = 0 ∷ 0 ∷ 0 ∷ 0 ∷ 0 ∷ [];
  chassis = record default_fru.chassis { chassis_type = 0 };
  board = record default_fru.board { tv_auto = false };
}

-- fru_wipe, on the structure behind its argument: the lists and strings that it frees are gone
-- with it.
abbrev pub wipe : Option Fru → Option Fru
wipe none = none
wipe (some fru) = some zeroed_fru

-- fru_init: for a NULL argument it allocates, and `allocated` says whether `malloc` succeeds.
unfoldable pub init : Option Fru → (allocated : Bool) → Eff Fru
init (some fru) allocated = pure default_fru
init none true = pure default_fru
init none false = fail_with fegeneric ferr_loc_general minus_one

-- fru__fieldcount
unfoldable pub fieldcount : ℕ → ℕ
fieldcount atype = get_or (0 ∷ 2 ∷ 5 ∷ 7 ∷ 0 ∷ []) atype 0

-- The table of fru_getfield, by the index of the information area.
unfoldable pub fields : Fru → ℕ → List Field
fields fru infoidx =
    get_or
      ((fru.chassis.chassis_pn ∷ fru.chassis.chassis_serial ∷ [])
        ∷ (fru.board.board_mfg ∷ fru.board.board_pname ∷ fru.board.board_serial ∷ fru.board.board_pn
            ∷ fru.board.board_file ∷ [])
        ∷ (fru.product.product_mfg ∷ fru.product.product_pname ∷ fru.product.product_pn
            ∷ fru.product.product_ver ∷ fru.product.product_serial ∷ fru.product.product_atag
            ∷ fru.product.product_file ∷ [])
        ∷ [])
      infoidx []

-- The checks that open fru_getfield and fru_get_custom.
unfoldable pub info_area : Option Fru → ℕ → Eff Fru
info_area ptr atype = do
  fru ← non_null ptr ferr_loc_caller
  guard (is_valid_area atype) feareabadtype ferr_loc_caller (pos atype)
  guard (is_info_area atype) feareanotsup ferr_loc_caller (pos atype)
  here ← deref (get_elem? fru.present atype)
  guard here feadisabled atype minus_one
  pure fru

-- fru_getfield, with what the pointer that it returns points to.
unfoldable pub getfield : Option Fru → ℕ → ℕ → Eff Field
getfield ptr atype index = do
  fru ← info_area ptr atype
  guard (ltb index (fieldcount atype)) fenofield atype (to_int index)
  deref (get_elem? (fields fru (atype - fru_chassis_info)) index)
