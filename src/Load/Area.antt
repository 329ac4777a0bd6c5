-- ===== src/Load/Area.antt =====
-- The decoders of the internal use area and of information areas in lib/fru_load.c. A count of
-- bytes that are left stops at 0, where C's goes on below, since the code only asks whether it is
-- above 0.
use frugen.Common.{u8}
use frugen.Common.{◌/◌}
use frugen.Common.{
  ℕ, zero, suc, ◌+◌, ◌-◌, ◌*◌, true, false, some, List, [], ◌∷◌, Bytes, low_bits, drop, leb, ltb,
  ◌==◌, if◌then◌else◌, minus_one, ℤ, pos, ◌+ℤ◌, to_int,
}
use frugen.Errno.{
  ok, fail, fault, Eff, ◌>>=◌, ◌>>◌, pure, undefined, guard, fe2small, fehdrver, fehdrbadptr,
  fedatacksum, fenoterm, ferr_loc_internal,
}
use frugen.Field.{Field, FileField, field_terminator}
use frugen.Field.Decode.{decode_field}
use frugen.Fru.{Fru, Board, Timeval, fieldcount, fru_chassis_info, fru_board_info}
use frugen.Custom.{calc_checksum, add_custom}
use frugen.Internal.{set_internal_binary}
use frugen.Save.{bytes_of, fru_ver, on_fail}
use frugen.Save.Area.{is_unspecified}
use frugen.Load.{Flags, byte_at, bytes_at, check}

-- A field in the image.
abbrev pub field_at : Bytes → ℕ → Eff FileField
field_at image offset = do
  typelen ← byte_at image offset
  pure (record { typelen = typelen; payload = drop (suc offset) image })

-- FRU__FIELDSIZE
abbrev pub field_size : FileField → ℕ
field_size field = low_bits field.typelen 6 + 1

-- FRU_LIST_TAIL
abbrev pub fru_list_tail : ℕ
fru_list_tail = 0x7fffffff

-- The loop of decode_custom_fields, with the rounds left: each takes a byte or more of `limit`. It
-- returns what is left of the limit. The allocations succeed, and the result of fru_add_custom is
-- ignored.
unfoldable pub keep_custom : Fru → ℕ → Field → Eff Fru
keep_custom fru atype field e =
    elim (add_custom true true (some fru) atype fru_list_tail field.enc (some field.val) e) [
      | ok added e' ↦ ok added.0 e'
      | fail e' ↦ ok fru e'
      | fault ↦ fault
    ]

unfoldable pub custom_loop :
    Bytes → ℕ → Fru → (offset limit index : ℕ) → (rounds : ℕ) → Eff (Fru × ℕ)
custom_loop image atype fru offset limit index zero = pure (fru, limit)
custom_loop image atype fru offset limit index (suc n) = elim (ltb 0 limit) [
  | false ↦ pure (fru, limit)
  | true ↦ do
    field ← field_at image offset
    elim (field.typelen == field_terminator) [
      | true ↦ pure (fru, limit)
      | false ↦ do
        outfield ←
            on_fail (λ e. record e { src = atype; index = to_int index })
              (decode_field (some field))
        fru' ← keep_custom fru atype outfield
        let size = field_size field
        custom_loop image atype fru' (offset + size) (limit - size) (suc index) n
    ]
]

-- decode_custom_fields
unfoldable pub decode_custom_fields : Bytes → ℕ → ℕ → ℕ → Flags → Fru → Eff Fru
decode_custom_fields image atype offset limit flags fru = do
  (fru', left) ← custom_loop image atype fru offset limit 0 limit
  check (ltb 0 left) flags.ign_aeof fenoterm atype
  pure fru'

-- decode_iu_area
unfoldable pub decode_iu_area : Bytes → ℕ → ℕ → Flags → Fru → Eff Fru
decode_iu_area image offset data_size flags fru = do
  ver ← byte_at image offset
  check (ver == fru_ver) flags.ign_aver fehdrver ferr_loc_internal
  bytes ← bytes_at image (suc offset) (data_size - 1)
  set_internal_binary true (some fru) (some bytes)

-- The loop over the mandatory fields, with the number of those that are left and the index of the
-- next one: the fields, and what is left behind them.
unfoldable pub decode_fields : Bytes → ℕ → ℕ → ℕ → ℕ → ℕ → Eff (List Field × ℕ × ℕ)
decode_fields image atype offset left i zero = pure ([], offset, left)
decode_fields image atype offset left i (suc n) = do
  field ← field_at image offset
  outfield ← on_fail (λ e. record e { src = atype; index = pos i }) (decode_field (some field))
  let size = field_size field
  (outfields, offset', left') ← decode_fields image atype (offset + size) (left - size) (suc i) n
  pure (outfield ∷ outfields, offset', left')

-- The mandatory fields of an area, in fru_t; there are as many as fru__fieldcount says.
abbrev pub set_chassis : Fru → List Field → Eff Fru
set_chassis fru (pn ∷ serial ∷ []) =
    pure (record fru { chassis = record fru.chassis { chassis_pn = pn; chassis_serial = serial } })
set_chassis fru _ = undefined

abbrev pub set_board : Fru → List Field → Eff Fru
set_board fru (mfg ∷ pname ∷ serial ∷ pn ∷ file ∷ []) = pure (record fru {
  board = record fru.board {
    board_mfg = mfg;
    board_pname = pname;
    board_serial = serial;
    board_pn = pn;
    board_file = file;
  };
})
set_board fru _ = undefined

abbrev pub set_product : Fru → List Field → Eff Fru
set_product fru (mfg ∷ pname ∷ pn ∷ ver ∷ serial ∷ atag ∷ file ∷ []) = pure (record fru {
  product = record fru.product {
    product_mfg = mfg;
    product_pname = pname;
    product_pn = pn;
    product_ver = ver;
    product_serial = serial;
    product_atag = atag;
    product_file = file;
  };
})
set_product fru _ = undefined

unfoldable pub set_fields : ℕ → Fru → List Field → Eff Fru
set_fields atype fru outfields =
    if atype == fru_chassis_info
    then set_chassis fru outfields
    else if atype == fru_board_info
    then set_board fru outfields
    else set_product fru outfields

-- The 32-bit language code with a new low byte, on a little-endian machine.
abbrev pub with_low_byte : ℕ → ℕ → ℕ
with_low_byte lang value = lang / 256 * 256 + u8 value

-- `area_out[infoidx]->langtype = file_area->langtype`, through a fru__info_area_t: it is the type
-- of the chassis, and the first byte of a language code, whose other bytes stay.
unfoldable pub set_langtype : ℕ → Fru → ℕ → Fru
set_langtype atype fru value =
    if atype == fru_chassis_info
    then record fru { chassis = record fru.chassis { chassis_type = u8 value } }
    else if atype == fru_board_info
    then record fru {
      board = record fru.board { board_lang = with_low_byte fru.board.board_lang value };
    }
    else record fru {
      product = record fru.product { product_lang = with_low_byte fru.product.product_lang value };
    }

-- The time of manufacture; the date is 24 bits wide, so that its seconds fit 32 bits.
unfoldable pub set_date : (datetime_base : ℤ) → Board → Bytes → Board
set_date datetime_base board (a ∷ b ∷ c ∷ _) =
    let tv : Timeval = record board.tv {
      tv_sec = datetime_base +ℤ pos (60 * (a + 256 * b + 65536 * c));
    } in
    if is_unspecified tv
    then record board { tv = tv }
    else record board { tv = tv; tv_auto = false }
set_date datetime_base board _ = board

-- The part of decode_info_area that depends on the type of the area: it returns the FRU and the
-- size of the area's header.
unfoldable pub decode_date : Bytes → ℤ → ℕ → ℕ → Fru → Eff (Fru × ℕ)
decode_date image datetime_base atype offset fru =
    if atype == fru_board_info
    then (do
      date ← bytes_at image (offset + 3) 3
      pure (record fru { board = set_date datetime_base fru.board date }, 6))
    else pure (fru, 3)

-- The checks of decode_info_area, which return the size that the area's header announces.
unfoldable pub check_info_area : Bytes → ℕ → ℕ → ℕ → Flags → Eff ℕ
check_info_area image atype offset data_size flags = do
  area_blocks ← byte_at image (offset + 1)
  let bytes_left = bytes_of area_blocks
  guard (leb 3 data_size) fe2small atype minus_one
  guard (leb bytes_left data_size) fehdrbadptr atype minus_one
  area ← bytes_at image offset bytes_left
  check (calc_checksum area == 0) flags.ign_acksum fedatacksum atype
  ver ← byte_at image offset
  check (ver == fru_ver) flags.ign_aver fehdrver atype
  pure bytes_left

-- decode_info_area
unfoldable pub decode_info_area : Bytes → ℤ → ℕ → ℕ → ℕ → Flags → Fru → Eff Fru
decode_info_area image datetime_base atype offset data_size flags fru = do
  bytes_left ← check_info_area image atype offset data_size flags
  value ← byte_at image (offset + 2)
  (dated, header) ← decode_date image datetime_base atype offset (set_langtype atype fru value)
  (outfields, offset', left) ←
      decode_fields image atype (offset + header) (bytes_left - header) 0 (fieldcount atype)
  filled ← set_fields atype dated outfields
  decode_custom_fields image atype offset' left flags filled
