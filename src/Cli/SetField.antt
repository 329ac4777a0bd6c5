-- ===== src/Cli/SetField.antt =====
-- The options of `main` in frugen.c that change the decoded FRU: `--set`, `--chassis-type`,
-- `--board-date` and `--board-date-unspec`.
use frugen.Common.{
  ℕ, zero, suc, ◌-◌, Bool, true, false, Option, none, some, Bytes, ◌==◌, ◌||◌, ℤ, pos, negsuc, u8,
  length, set, get_elem?, ltb, if◌then◌else◌, ◌-ℤ◌, ◌+ℤ◌,
}
use frugen.Errno.{Eff, ◌>>=◌, pure, deref, undefined}
use frugen.Field.{Field, fe_empty}
use frugen.Field.Encode.{setfield}
use frugen.Fru.{Fru, Timeval, fields, fru_chassis_info, fru_board_info}
use frugen.Custom.{add_custom, get_custom, get_customlist, set_customlist, try_enable, size_of_int}
use frugen.Cli.{fatal, list_tail}
use frugen.Cli.FieldOpt.{FieldOpt}

-- Where the field stands that `field` points to: a standard one, or a custom one.
pub data Slot : Type 0 where
  standard : ℕ → Slot
  custom : ℕ → Slot

-- A write to the field at a place of the table `fields`.
unfoldable pub set_standard : Fru → ℕ → ℕ → Field → Fru
set_standard fru (suc zero) zero f = record fru { chassis = record fru.chassis { chassis_pn = f } }
set_standard fru (suc zero) (suc zero) f = record fru {
  chassis = record fru.chassis { chassis_serial = f };
}
set_standard fru (suc (suc zero)) zero f = record fru { board = record fru.board { board_mfg = f } }
set_standard fru (suc (suc zero)) (suc zero) f = record fru {
  board = record fru.board { board_pname = f };
}
set_standard fru (suc (suc zero)) (suc (suc zero)) f = record fru {
  board = record fru.board { board_serial = f };
}
set_standard fru (suc (suc zero)) (suc (suc (suc zero))) f = record fru {
  board = record fru.board { board_pn = f };
}
set_standard fru (suc (suc zero)) (suc (suc (suc (suc zero)))) f = record fru {
  board = record fru.board { board_file = f };
}
set_standard fru (suc (suc (suc zero))) zero f = record fru {
  product = record fru.product { product_mfg = f };
}
set_standard fru (suc (suc (suc zero))) (suc zero) f = record fru {
  product = record fru.product { product_pname = f };
}
set_standard fru (suc (suc (suc zero))) (suc (suc zero)) f = record fru {
  product = record fru.product { product_pn = f };
}
set_standard fru (suc (suc (suc zero))) (suc (suc (suc zero))) f = record fru {
  product = record fru.product { product_ver = f };
}
set_standard fru (suc (suc (suc zero))) (suc (suc (suc (suc zero)))) f = record fru {
  product = record fru.product { product_serial = f };
}
set_standard fru (suc (suc (suc zero))) (suc (suc (suc (suc (suc zero))))) f = record fru {
  product = record fru.product { product_atag = f };
}
set_standard fru (suc (suc (suc zero))) (suc (suc (suc (suc (suc (suc zero)))))) f = record fru {
  product = record fru.product { product_file = f };
}
set_standard fru _ _ f = fru

unfoldable pub put_field : Fru → ℕ → Slot → Field → Eff Fru
put_field fru area (standard index) f = pure (set_standard fru area index f)
put_field fru area (custom index) f = do
  cust ← get_customlist fru area
  pure (set_customlist fru area (set cust index (some f)))

-- A call that returns NULL or false, and `fru_fatal`.
abbrev pub non_null_field : Option Field → Eff Field
non_null_field none = fatal
non_null_field (some f) = pure f

-- fru_add_custom of an empty field. Its index is where the new entry then stands: an index beyond
-- the end of the list adds at the end. The arguments in front say which allocations succeed.
unfoldable pub append_custom : Bool → Bool → Fru → ℕ → ℕ → Eff (Fru × Slot)
append_custom entry_allocated rec_allocated fru area index = do
  (fru', added) ← add_custom entry_allocated rec_allocated (some fru) area index fe_empty none
  cust ← get_customlist fru area
  elim added [
    | true ↦ pure (fru', custom (if ltb index (length cust) then index else length cust))
    | false ↦ fatal
  ]

-- Whether a custom field is added at the head or at the end.
abbrev pub is_end : ℤ → Bool
is_end (pos n) = n == 0 || n == list_tail
is_end (negsuc n) = false

-- The custom field that the option names: one to be added at an end, or, by an index from 1 on, one
-- to be inserted or an old one.
unfoldable pub locate_custom : Bool → Bool → FieldOpt → Fru → Eff (Fru × Slot)
locate_custom entry_allocated rec_allocated opt fru =
    let index = size_of_int (opt.custom_index -ℤ pos 1) in
    elim (is_end opt.custom_index) [
      | true ↦
          append_custom entry_allocated rec_allocated fru opt.area (size_of_int opt.custom_index)
      | false ↦ elim opt.custom_insert [
        | true ↦ append_custom entry_allocated rec_allocated fru opt.area index
        | false ↦ do
          found ← get_custom (some fru) opt.area index
          f ← non_null_field found
          pure (fru, custom index)
      ]
    ]

unfoldable pub locate : Bool → Bool → FieldOpt → Fru → Eff (Fru × Slot)
locate entry_allocated rec_allocated opt fru = elim opt.field [
  | some index ↦ pure (fru, standard index)
  | none ↦ locate_custom entry_allocated rec_allocated opt fru
]

unfoldable pub field_at : Fru → ℕ → Slot → Eff Field
field_at fru area (standard index) = deref (get_elem? (fields fru (area - fru_chassis_info)) index)
field_at fru area (custom index) = do
  cust ← get_customlist fru area
  entry ← deref (get_elem? cust index)
  deref entry

-- `if (!fru_setfield(field, type, value)) fru_fatal(...);`
unfoldable pub stored : Option Field × Bool → Eff Field
stored (some f, true) = pure f
stored (none, true) = undefined
stored (f, false) = fatal

-- `case 's'`, behind arg_to_fieldopt
unfoldable pub set_field : Bool → Bool → FieldOpt → Fru → Eff Fru
set_field entry_allocated rec_allocated opt fru = do
  (fru1, slot) ← locate entry_allocated rec_allocated opt fru
  old ← field_at fru1 opt.area slot
  done ← setfield (some old) opt.enc (some opt.value)
  new ← stored done
  fru2 ← put_field fru1 opt.area slot new
  try_enable fru2 opt.area

-- `case 't'`: `strtol` with the base 16 is the C library's, and its result is cut to the 8 bits of
-- the type.
abbrev pub u8_of_int : ℤ → ℕ
u8_of_int n = u8 (size_of_int n)

unfoldable pub set_chassis_type : (strtol : Bytes → ℕ → ℤ) → Bytes → Fru → Eff Fru
set_chassis_type strtol optarg fru =
    try_enable
      (record fru { chassis = record fru.chassis { chassis_type = u8_of_int (strtol optarg 16) } })
      fru_chassis_info

-- struct tm, less what the code leaves zero, and -1 in `tm_isdst`.
pub record Tm : Type 0 where
  pub tm_mday : ℤ
  pub tm_mon : ℤ
  pub tm_year : ℤ
  pub tm_hour : ℤ
  pub tm_min : ℤ

-- What the C library gives: `sscanf` with "%d/%d/%d %d:%d" when it reads all five numbers,
-- `mktime`, the time zone that `tzset` finds, and the text that `localtime_r` and `strftime` make
-- of a time, with or without the name of the time zone; and the byte at the end of the memory
-- that `realloc` adds to a block.
pub record Calendar : Type 0 where
  pub scan : Bytes → Option (ℤ × ℤ × ℤ × ℤ × ℤ)
  pub mktime : Tm → ℤ
  pub timezone : ℤ
  pub strftime : ℤ → Bool → Bytes
  pub new_byte : ℕ

-- datestr_to_tv: none for `false`.
unfoldable pub tm_of : ℤ × ℤ × ℤ × ℤ × ℤ → Tm
tm_of (mday, mon, year, hour, min) = record {
  tm_mday = mday;
  tm_mon = mon -ℤ pos 1;
  tm_year = year -ℤ pos 1900;
  tm_hour = hour;
  tm_min = min;
}

unfoldable pub datestr_to_tv : Calendar → Bytes → Option Timeval
datestr_to_tv calendar datestr = elim (calendar.scan datestr) [
  | none ↦ none
  | some numbers ↦
      some
        (record { tv_sec = calendar.mktime (tm_of numbers) +ℤ calendar.timezone; tv_usec = pos 0 })
]

-- tv_to_datestr: the empty string of an unspecified time is overwritten like any other.
unfoldable pub tv_to_datestr : Calendar → Timeval → Bool → Bytes
tv_to_datestr calendar tv include_timezone =
    calendar.strftime (tv.tv_sec -ℤ calendar.timezone) include_timezone

-- `case 'u'`, and `case 'd'`, which falls through to it
unfoldable pub board_date_unspec : Fru → Fru
board_date_unspec fru = record fru { board = record fru.board { tv_auto = false } }

unfoldable pub set_board_date : Calendar → Bytes → Fru → Eff Fru
set_board_date calendar optarg fru = elim (datestr_to_tv calendar optarg) [
  | none ↦ fatal
  | some tv ↦ do
    fru' ← try_enable (record fru { board = record fru.board { tv = tv } }) fru_board_info
    pure (board_date_unspec fru')
]
