-- ===== src/Load/Record.antt =====
-- The decoders of multirecord records in lib/fru_load.c.
use frugen.Common.{
  ℕ, zero, suc, ◌+◌, ◌-◌, Bool, true, ◌&&◌, some, none, List, [], ◌∷◌, Bytes, low_bits, leb, ltb,
  ◌==◌, if◌then◌else◌, get_or, minus_one, ℤ, pos, negsuc,
}
use frugen.Errno.{
  FruErrno, Outcome, ok, fail, fault, Eff, ◌>>=◌, ◌>>◌, pure, undefined, guard, fail_with,
  fail_errno, seterr, clearerr, fegeneric, fehdrver, fehdrcksum, fedatacksum, fenodata, febaddata,
  femrmgmtbad, femrnotsup, fesize, fenotempty, ferr_loc_mr,
}
use frugen.Hex.{write_hex, decode_raw_binary}
use frugen.Field.{fe_text, fe_binary}
use frugen.Field.Decode.{c_string}
use frugen.Field.Encode.{is_print}
use frugen.Fru.{Fru, MrRec, MrBody, mgmt, raw, fru_mr_mgmt_access, fru_mr_raw}
use frugen.Mr.{Entry, add_mr}
use frugen.Custom.{calc_checksum}
use frugen.Save.Record.{
  mr_header_size, mr_ver, mr_eol, mgmt_minlen, mgmt_maxlen, mgmt_sys_uuid, is_mgmt_subtype,
  swap_uuid,
}
use frugen.Load.{Flags, byte_at, bytes_at, check}
use frugen.Load.Area.{fru_list_tail}

-- `errno` ENOBUFS
abbrev enobufs : ℕ
enobufs = 105

-- FRU__MR_REC_SZ
abbrev pub rec_size : Bytes → ℕ → Eff ℕ
rec_size image offset = do len ← byte_at image (offset + 2); pure (mr_header_size + len)

-- is_mr_rec_valid, which is given a pointer that is not NULL
unfoldable pub is_mr_rec_valid : Bytes → ℕ → ℕ → Flags → Eff (Unit {0})
is_mr_rec_valid image offset limit flags = do
  guard (ltb mr_header_size limit) fenodata ferr_loc_mr minus_one
  eol_ver ← byte_at image (offset + 1)
  check (low_bits eol_ver 3 == mr_ver) flags.ign_rver fehdrver ferr_loc_mr
  hdr ← bytes_at image offset mr_header_size
  check (calc_checksum hdr == 0) flags.ign_rhcksum fehdrcksum ferr_loc_mr
  rec_sz ← rec_size image offset
  if ltb limit rec_sz then fail_errno fegeneric ferr_loc_mr minus_one enobufs else (do
    bytes ← bytes_at image (offset + mr_header_size) (rec_sz - mr_header_size)
    rec_checksum ← byte_at image (offset + 3)
    check (calc_checksum bytes == rec_checksum) flags.ign_rdcksum fedatacksum ferr_loc_mr)

-- decode_mr_mgmt_uuid, behind the header with the length `len`; the swap of the bytes is its own
-- inverse.
unfoldable pub decode_mr_mgmt_uuid : Bytes → ℕ → ℕ → Eff MrBody
decode_mr_mgmt_uuid image offset len = do
  guard (len == 17) febaddata ferr_loc_mr minus_one
  bytes ← bytes_at image (offset + mr_header_size + 1) 16
  uuid ← swap_uuid bytes
  pure (mgmt mgmt_sys_uuid (write_hex uuid))

abbrev pub mgmt_size_ok : ℕ → ℕ → Bool
mgmt_size_ok len subtype =
    leb (1 + get_or mgmt_minlen (subtype - 1) 0) len
    && leb len (1 + get_or mgmt_maxlen (subtype - 1) 0)

-- decode_mr_mgmt: the copy starts behind the subtype, and is as long as the data with it. The
-- string that the record holds ends with the first NUL.
unfoldable pub decode_mr_mgmt : Bytes → ℕ → Flags → Eff MrBody
decode_mr_mgmt image offset flags = do
  subtype ← byte_at image (offset + mr_header_size)
  guard (is_mgmt_subtype subtype) femrmgmtbad ferr_loc_mr minus_one
  len ← byte_at image (offset + 2)
  check (mgmt_size_ok len subtype) flags.ign_mrdatalen fesize ferr_loc_mr
  if subtype == mgmt_sys_uuid then decode_mr_mgmt_uuid image offset len else (do
    text ← bytes_at image (offset + mr_header_size + 1) len
    pure (mgmt subtype (c_string text)))

abbrev pub all_print : Bytes → Bool
all_print [] = true
all_print (c ∷ s) = is_print c && all_print s

-- decode_mr_raw: FRU_MRR_RAW_MAXDATA is 511.
unfoldable pub decode_mr_raw : Bytes → ℕ → Eff MrBody
decode_mr_raw image offset = do
  type_id ← byte_at image offset
  len ← byte_at image (offset + 2)
  bytes ← bytes_at image (offset + mr_header_size) len
  if all_print bytes
      then pure (raw type_id fe_text bytes)
      else (do hex ← decode_raw_binary bytes (some []) 510; pure (raw type_id fe_binary hex))

-- decode_mr_record
unfoldable pub decode_mr_record : Bytes → ℕ → Flags → Eff MrRec
decode_mr_record image offset flags = do
  seterr femrnotsup ferr_loc_mr minus_one
  type_id ← byte_at image offset
  if type_id == fru_mr_mgmt_access
      then (do
        body ← decode_mr_mgmt image offset flags
        pure (record { rec_type = type_id; body = body }))
      else (do
        body ← decode_mr_raw image offset
        pure (record { rec_type = fru_mr_raw; body = body }))

-- The record that was added last is filled in.
abbrev pub fill_last : List Entry → MrRec → List Entry
fill_last [] rec = []
fill_last (entry ∷ []) rec = some rec ∷ []
fill_last (entry ∷ next ∷ mr) rec = entry ∷ fill_last (next ∷ mr) rec

-- The number of records as decode_mr_area counts them: from -1 to 1, and on.
abbrev pub next_count : ℤ → ℤ
next_count (negsuc n) = pos 1
next_count (pos n) = pos (suc n)

-- A call that may fail, with what the loop does then.
abbrev pub on_result {ℓ} : {A B : Type ℓ} → Eff A → (FruErrno → Outcome B) → (A → Eff B) → Eff B
on_result call failed next e = elim (call e) [
  | ok a e' ↦ next a e'
  | fail e' ↦ failed e'
  | fault ↦ fault
]

-- The loop of decode_mr_area, with what happens when no rounds are left, which is no part of the
-- code, and the rounds left: it returns the records and their number,
-- which is -1 if the area is refused. The allocations of fru_add_mr succeed.
unfoldable pub mr_loop :
    (spent : Eff (Fru × ℤ))
    → Bytes
    → Fru
    → (offset limit : ℕ) → ℤ
    → Flags
    → (rounds : ℕ) → Eff (Fru × ℤ)
mr_loop spent image fru offset limit count flags zero = spent
mr_loop spent image fru offset limit count flags (suc n) = do
  rec_sz ← rec_size image offset
  on_result (is_mr_rec_valid image offset limit flags)
      (λ e. ok (fru, if flags.ign_rnoeol then count else minus_one) (record e { index = count }))
      (λ _. do
        added ← add_mr true true (some fru) fru_list_tail none
        on_result (decode_mr_record image offset flags)
            (λ e. ok (added, minus_one) (record e { index = count }))
            (λ rec. do
              let fru' = record added { mr = fill_last added.mr rec }
              eol_ver ← byte_at image (offset + 1)
              if leb mr_eol eol_ver
                  then pure (fru', next_count count)
                  else mr_loop spent image fru' (offset + rec_sz) (limit - rec_sz)
                      (next_count count) flags n))

unfoldable pub refuse_negative : Fru × ℤ → Eff Fru
refuse_negative (fru, pos n) e = ok fru e
refuse_negative (fru, negsuc n) e = fail e

-- decode_mr_area: the list must be empty. A record takes five bytes or more.
unfoldable pub decode_mr_area : Bytes → ℕ → ℕ → Flags → Fru → Eff Fru
decode_mr_area image offset limit flags fru = do
  clearerr
  elim fru.mr [
    | entry ∷ rest ↦ fail_with fenotempty ferr_loc_mr minus_one
    | [] ↦ mr_loop undefined image fru offset limit minus_one flags (suc limit) >>= refuse_negative
  ]
