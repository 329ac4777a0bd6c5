-- ===== src/Save/Record.antt =====
-- The encoders of multirecord records in lib/fru_save.c. Each is given the buffer, the offset of
-- the record in it, and returns the buffer and the record's size.
use frugen.Common.{
  ℕ, ◌+◌, ◌-◌, Bool, true, false, ◌&&◌, ◌||◌, some, none, List, [], ◌∷◌, Bytes, u8, bit_or, length,
  leb, ◌==◌, take, if◌then◌else◌, get_or, minus_one,
}
use frugen.Errno.{
  Eff, ◌>>=◌, ◌>>◌, pure, undefined, guard, fail_with, fe2big, fesize, femrmgmtbad, femrnotsup,
  ferr_loc_mr,
}
use frugen.Hex.{hexstr2bin, hex_relaxed}
use frugen.Field.{FieldEnc, fe_text}
use frugen.Fru.{MrRec, MrBody, mgmt, raw, zeroed, fru_mr_mgmt_access, fru_mr_raw, fru_mr_type_count}
use frugen.Custom.{calc_checksum}
use frugen.Save.{Buffer, write_out, read_out}

-- FRU__FILE_MRR_MAXDATA and FRU__FILE_MR_MGMT_MAXDATA
abbrev pub mrr_maxdata : ℕ
mrr_maxdata = 255

abbrev pub mgmt_maxdata : ℕ
mgmt_maxdata = 254

-- FRU__MR_VER and FRU__MR_EOL
abbrev pub mr_ver : ℕ
mr_ver = 2

abbrev pub mr_eol : ℕ
mr_eol = 0x80

-- sizeof(fru__file_mr_rec_t)
abbrev pub mr_header_size : ℕ
mr_header_size = 5

-- A record in the file, with the header checksum as given. The data checksum is over as many bytes
-- as the length byte says.
abbrev pub file_rec : ℕ → Bytes → ℕ → Bytes
file_rec type_ bytes hdr_checksum =
    u8 type_
    ∷ mr_ver
    ∷ u8 (length bytes)
    ∷ calc_checksum (take (u8 (length bytes)) bytes)
    ∷ hdr_checksum
    ∷ bytes

-- mr_blob2rec
unfoldable pub mr_blob2rec : Buffer → ℕ → Bytes → ℕ → Eff (Buffer × ℕ)
mr_blob2rec out offset blob type_ = do
  guard (leb (length blob) mrr_maxdata) fe2big ferr_loc_mr minus_one
  out' ← write_out out offset (file_rec type_ blob 0)
  pure (out', mr_header_size + length blob)

-- fru__mr_mgmt_minlen and fru__mr_mgmt_maxlen
abbrev pub mgmt_minlen : List ℕ
mgmt_minlen = 16 ∷ 8 ∷ 8 ∷ 16 ∷ 8 ∷ 8 ∷ 16 ∷ []

abbrev pub mgmt_maxlen : List ℕ
mgmt_maxlen = 256 ∷ 64 ∷ 64 ∷ 256 ∷ 256 ∷ 64 ∷ 16 ∷ []

-- FRU_MR_MGMT_SYS_UUID, and FRU_MR_MGMT_IS_SUBTYPE_VALID
abbrev pub mgmt_sys_uuid : ℕ
mgmt_sys_uuid = 7

abbrev pub is_mgmt_subtype : ℕ → Bool
is_mgmt_subtype subtype = leb 1 subtype && leb subtype mgmt_sys_uuid

abbrev pub mgmt_length_ok : ℕ → ℕ → Bool
mgmt_length_ok len subtype =
    leb (get_or mgmt_minlen (subtype - 1) 0) len
    && leb len (get_or mgmt_maxlen (subtype - 1) 0)
    && leb len mgmt_maxdata

-- mgmt_blob2rec, for a valid subtype
unfoldable pub mgmt_blob2rec : Buffer → ℕ → Bytes → ℕ → Eff (Buffer × ℕ)
mgmt_blob2rec out offset blob subtype = do
  guard (mgmt_length_ok (length blob) subtype) fesize ferr_loc_mr minus_one
  mr_blob2rec out offset (subtype ∷ blob) fru_mr_mgmt_access

-- The change of byte order of the first three members of a UUID. What fru__hexstr2bin does not fill
-- in is not initialized.
unfoldable pub swap_uuid : Bytes → Eff Bytes
swap_uuid (a ∷ b ∷ c ∷ d ∷ e ∷ f ∷ g ∷ h ∷ rest) =
    if length rest == 8 then pure (d ∷ c ∷ b ∷ a ∷ f ∷ e ∷ h ∷ g ∷ rest) else undefined
swap_uuid _ = undefined

-- uuid2rec
unfoldable pub uuid2rec : Buffer → ℕ → Bytes → Eff (Buffer × ℕ)
uuid2rec out offset str = do
  guard (length str == 36 || length str == 32) fesize ferr_loc_mr minus_one
  bytes ← hexstr2bin hex_relaxed 16 str
  uuid ← swap_uuid bytes
  mgmt_blob2rec out offset uuid mgmt_sys_uuid

-- encode_mr_mgmt_record, on the members of the union that it reads
unfoldable pub encode_mgmt : Buffer → ℕ → ℕ → Bytes → Eff (Buffer × ℕ)
encode_mgmt out offset subtype text = do
  guard (is_mgmt_subtype subtype) femrmgmtbad ferr_loc_mr minus_one
  if subtype == mgmt_sys_uuid
      then uuid2rec out offset text
      else mgmt_blob2rec out offset text subtype

unfoldable pub encode_mr_mgmt_record : Buffer → ℕ → MrBody → Eff (Buffer × ℕ)
encode_mr_mgmt_record out offset (mgmt subtype text) = encode_mgmt out offset subtype text
encode_mr_mgmt_record out offset zeroed = encode_mgmt out offset 0 []
encode_mr_mgmt_record out offset (raw type_ enc text) = undefined

-- The checksum of a header that encode_mr_raw_record stores; encode_mr_record stores it again.
abbrev pub header_checksum : ℕ → Bytes → ℕ
header_checksum type_ bytes =
    calc_checksum
      (u8 type_ ∷ mr_ver ∷ u8 (length bytes) ∷ calc_checksum (take (u8 (length bytes)) bytes) ∷ [])

-- encode_mr_raw_record: text is copied without a look at the pointer, and its size is left out.
unfoldable pub raw_text : Buffer → ℕ → ℕ → Bytes → Eff (Buffer × ℕ)
raw_text none offset type_ text = undefined
raw_text (some buf) offset type_ text = do
  out' ← write_out (some buf) offset (file_rec type_ text (header_checksum type_ text))
  pure (out', mr_header_size)

unfoldable pub raw_binary : Buffer → ℕ → ℕ → Bytes → Eff (Buffer × ℕ)
raw_binary out offset type_ text = do
  bytes ← hexstr2bin hex_relaxed 0 text
  out' ← write_out out offset (file_rec type_ bytes (header_checksum type_ bytes))
  pure (out', mr_header_size + length bytes)

abbrev pub is_text : FieldEnc → Bool
is_text fe_text = true
is_text _ = false

unfoldable pub encode_mr_raw_record : Buffer → ℕ → MrBody → Eff (Buffer × ℕ)
encode_mr_raw_record out offset (raw type_ enc text) =
    if is_text enc then raw_text out offset type_ text else raw_binary out offset type_ text
encode_mr_raw_record out offset zeroed = raw_binary out offset 0 []
encode_mr_raw_record out offset (mgmt subtype text) = undefined

-- The flag and the checksum that end encode_mr_record.
unfoldable pub seal_header : Buffer → ℕ → Bool → Eff Buffer
seal_header none offset last = pure none
seal_header (some buf) offset last = do
  eol_ver ← read_out (some buf) (offset + 1) 1
  flagged ←
      write_out (some buf) (offset + 1)
        (if last then bit_or (get_or eol_ver 0 0) mr_eol ∷ [] else eol_ver)
  hdr ← read_out flagged offset 4
  write_out flagged (offset + 4) (calc_checksum hdr ∷ [])

-- The table of encoders, which ends at FRU_MR_RAW.
unfoldable pub encode_rec : Buffer → ℕ → MrRec → Eff (Buffer × ℕ)
encode_rec out offset rec =
    if leb fru_mr_type_count rec.rec_type
    then undefined
    else if rec.rec_type == fru_mr_mgmt_access
    then encode_mr_mgmt_record out offset rec.body
    else if rec.rec_type == fru_mr_raw
    then encode_mr_raw_record out offset rec.body
    else fail_with femrnotsup ferr_loc_mr minus_one

-- encode_mr_record
unfoldable pub encode_mr_record : Buffer → ℕ → MrRec → Bool → Eff (Buffer × ℕ)
encode_mr_record out offset rec last = do
  (out', bytes) ← encode_rec out offset rec
  sealed ← seal_header out' offset last
  pure (sealed, bytes)
