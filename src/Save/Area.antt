-- ===== src/Save/Area.antt =====
-- The encoders of areas in lib/fru_save.c. Each is given the buffer and the offset of the area in
-- it, and returns the buffer and the area's size.
use frugen.Common.{
  ℕ, zero, suc, ◌+◌, ◌-◌, ◌*◌, ◌/◌, ◌%◌, Bool, true, false, not, ◌&&◌, some, none, List, [], ◌∷◌,
  Bytes, u8, low_bits, length, ◌==◌, if◌then◌else◌, get_or, minus_one, ℤ, pos, to_int, ◌+ℤ◌, ◌-ℤ◌,
  lt_int, minutes_u32,
}
use frugen.Errno.{
  Eff, ◌>>=◌, ◌>>◌, pure, deref, guard, fail_with, clearerr, febdate, fenorec, ferr_loc_internal,
  ferr_loc_mr,
}
use frugen.Hex.{hexstr2bin, hex_relaxed}
use frugen.Field.{Field, field_terminator}
use frugen.Field.Decode.{read_data}
use frugen.Field.Encode.{encode_field}
use frugen.Fru.{Fru, Reclist, Timeval, Board, fields, fru_chassis_info, fru_board_info}
use frugen.Mr.{Entry}
use frugen.Custom.{calc_checksum, custom_index, get_customlist}
use frugen.Save.{
  Buffer, blocks, block_align, bytes_of, fru_ver, zeros, write_out, read_out, on_fail,
}
use frugen.Save.Record.{encode_mr_record}

-- What the encoders ask the system for: gettimeofday, `timezone`, and fru__datetime_base, which
-- is a call of mktime.
pub record Clock : Type 0 where
  pub now : Timeval
  pub timezone : ℤ
  pub datetime_base : ℤ

-- FRU_DATETIME_MAX
abbrev pub datetime_max : Clock → ℤ
datetime_max clock = pos (0xffffff * 60) +ℤ clock.datetime_base

-- encode_iu_area. The `memset` counts from the data on and not from the area's start.
unfoldable pub encode_iu_area : Buffer → ℕ → Fru → Eff (Buffer × ℕ)
encode_iu_area out offset fru = do
  hexstr ← deref fru.internal
  bytes ← on_fail (λ e. record e { src = ferr_loc_internal }) (hexstr2bin hex_relaxed 0 hexstr)
  written ← write_out out (offset + 1) bytes
  versioned ← write_out written offset (fru_ver ∷ [])
  let size = block_align (length bytes + 1)
  padded ← write_out versioned (offset + 1 + length bytes) (zeros (size - length bytes))
  pure (padded, size)

-- add_field_to_area, with the area's offset and the number of bytes that are in the area
unfoldable pub add_field_to_area : Buffer → ℕ → ℕ → Field → Eff (Buffer × ℕ)
add_field_to_area out offset bytes field = do
  clearerr
  encoded ← encode_field field.enc (some field.val)
  payload ← read_data encoded
  out' ← write_out out (offset + bytes) (encoded.typelen ∷ payload)
  pure (out', bytes + (low_bits encoded.typelen 6 + 1))

-- The chassis type, or the low byte of the language code: each area in fru_t is read as a
-- fru__info_area_t, whose `langtype` is its first byte.
abbrev pub langtype : Fru → ℕ → ℕ
langtype fru info_atype = u8 (
    get_or (fru.chassis.chassis_type ∷ fru.board.board_lang ∷ fru.product.product_lang ∷ [])
      info_atype 0)

abbrev pub is_unspecified : Timeval → Bool
is_unspecified tv = is_zero tv.tv_sec && is_zero tv.tv_usec
  where
    is_zero : ℤ → Bool
    is_zero (pos zero) = true
    is_zero _ = false

-- The time of manufacture that encode_info_area takes, and its three bytes.
unfoldable pub time_to_set : Clock → Board → Eff Timeval
time_to_set clock board =
    if board.tv_auto
    then pure (record clock.now { tv_sec = clock.now.tv_sec +ℤ clock.timezone })
    else if lt_int board.tv.tv_sec clock.datetime_base
    then fail_with febdate fru_board_info minus_one
    else pure board.tv

unfoldable pub date_bytes : Clock → Board → Eff Bytes
date_bytes clock board = do
  tv ← time_to_set clock board
  guard (not (lt_int (datetime_max clock) tv.tv_sec)) febdate fru_board_info minus_one
  let minutes = if is_unspecified tv then 0 else minutes_u32 (tv.tv_sec -ℤ clock.datetime_base)
  pure (minutes % 256 ∷ minutes / 256 % 256 ∷ minutes / 65536 % 256 ∷ [])

-- The header of an information area: the size in blocks is left as it is, and the date follows for
-- the board area.
unfoldable pub encode_header : Clock → Buffer → ℕ → ℕ → Fru → Eff (Buffer × ℕ)
encode_header clock out offset atype fru = do
  versioned ← write_out out offset (fru_ver ∷ [])
  typed ← write_out versioned (offset + 2) (langtype fru (atype - fru_chassis_info) ∷ [])
  if atype == fru_board_info
      then (do
        date ← date_bytes clock fru.board
        dated ← write_out typed (offset + 3) date
        pure (dated, 6))
      else pure (typed, 3)

-- The loop over the mandatory fields, from index `i` on.
unfoldable pub encode_fields : Buffer → ℕ → ℕ → ℕ → ℕ → List Field → Eff (Buffer × ℕ)
encode_fields out offset bytes atype i [] = pure (out, bytes)
encode_fields out offset bytes atype i (field ∷ rest) = do
  (out', bytes') ←
      on_fail (λ e. record e { src = atype; index = pos i })
        (add_field_to_area out offset bytes field)
  encode_fields out' offset bytes' atype (suc i) rest

-- The loop over the custom fields: its index stays 0.
unfoldable pub encode_custom : Buffer → ℕ → ℕ → ℕ → Reclist → Eff (Buffer × ℕ)
encode_custom out offset bytes atype [] = pure (out, bytes)
encode_custom out offset bytes atype (rec ∷ rest) = do
  field ← deref rec
  (out', bytes') ←
      on_fail (λ e. record e { src = atype; index = custom_index atype 0 })
        (add_field_to_area out offset bytes field)
  encode_custom out' offset bytes' atype rest

-- What ends an area that holds `bytes` bytes: the terminator, the size, the padding, whose last
-- byte is the checksum.
abbrev pub padding_size : ℕ → ℕ
padding_size bytes = block_align (bytes + 1 + 1) - (bytes + 1)

unfoldable pub store_checksum : Buffer → ℕ → ℕ → Eff Buffer
store_checksum none offset size = pure none
store_checksum (some buf) offset size = do
  area ← read_out (some buf) offset size
  write_out (some buf) (offset + (size - 1)) (calc_checksum area ∷ [])

unfoldable pub finish_area : Buffer → ℕ → ℕ → Eff (Buffer × ℕ)
finish_area out offset bytes = do
  terminated ← write_out out (offset + bytes) (field_terminator ∷ [])
  sized ← write_out terminated (offset + 1) (u8 (blocks (bytes + 1 + 1)) ∷ [])
  padded ← write_out sized (offset + (bytes + 1)) (zeros (padding_size bytes))
  sealed ← store_checksum padded offset (bytes + 1 + padding_size bytes)
  pure (sealed, bytes + padding_size bytes + 1)

-- encode_info_area
unfoldable pub encode_info_area : Clock → Buffer → ℕ → ℕ → Fru → Eff (Buffer × ℕ)
encode_info_area clock out offset atype fru = do
  (headed, bytes) ← encode_header clock out offset atype fru
  (filled, bytes') ←
      encode_fields headed offset bytes atype 0 (fields fru (atype - fru_chassis_info))
  cust ← get_customlist fru atype
  (custom, bytes'') ← encode_custom filled offset bytes' atype cust
  finish_area custom offset bytes''

-- The loop of encode_mr_area, with the size so far and the index of the record.
unfoldable pub encode_recs : Buffer → ℕ → ℕ → ℕ → List Entry → Eff (Buffer × ℕ)
encode_recs out offset mr_size index [] = pure (out, mr_size)
encode_recs out offset mr_size index (entry ∷ rest) = do
  rec ← deref entry
  (out', entry_size) ←
      on_fail (λ e. record e { src = ferr_loc_mr; index = to_int index })
        (encode_mr_record out (offset + mr_size) rec (length rest == 0))
  encode_recs out' offset (mr_size + entry_size) (suc index) rest

-- encode_mr_area, on the list of records
unfoldable pub encode_mr_area : Buffer → ℕ → List Entry → Eff (Buffer × ℕ)
encode_mr_area out offset [] = fail_with fenorec ferr_loc_mr (pos 0)
encode_mr_area out offset (entry ∷ rest) = do
  (out', mr_size) ← encode_recs out offset 0 0 (entry ∷ rest)
  pure (out', bytes_of (blocks mr_size))
