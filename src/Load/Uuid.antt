-- ===== src/Load/Uuid.antt =====
-- A management record with the system's UUID is read back as it was written.
use frugen.Common.{
  ℕ, ◌+◌, ◌≤◌, ◌≡◌, inr, refl, sym, ap, ◌∙◌, Bool, true, false, some, [], ◌∷◌, Bytes, IsBytes,
  low_bits, length, take, drop, take_all, get_elem?, arith, ltb, ◌==◌, minus_one,
}
use frugen.Errno.{FruErrno, ok, bind_outcome, guard, deref, with_error, femrnotsup, ferr_loc_mr}
use frugen.Hex.{write_hex, hex_relaxed}
use frugen.Hex.Convert.{length-write_hex, hexstr2bin-write_hex}
use frugen.Fru.{MrRec, mgmt, fru_mr_mgmt_access}
use frugen.Custom.{calc_checksum}
use frugen.Custom.Checksum.{calc_checksum_appended}
use frugen.Save.{splice}
use frugen.Save.Record.{
  encode_mr_record, encode_rec, encode_mr_mgmt_record, encode_mgmt, uuid2rec, swap_uuid,
  mgmt_blob2rec, mr_blob2rec, mgmt_sys_uuid, mr_ver, mr_header_size,
}
use frugen.Save.Write.{write_out_lem, length-splice}
use frugen.Save.Region.{Holds, splice-Holds}
use frugen.Save.Sealing.{flagged, read_out-Holds, seal_header-Holds}
use frugen.Load.{Flags, check, bytes_at}
use frugen.Load.Record.{is_mr_rec_valid, decode_mr_record, decode_mr_mgmt, decode_mr_mgmt_uuid}

-- swap_uuid is its own inverse.
swap_uuid_lem :
    (bs : Bytes)
    → length bs ≡ 16
    → (uuid : Bytes) × ((e : FruErrno) → swap_uuid bs e ≡ ok uuid e)
      × ((e : FruErrno) → swap_uuid uuid e ≡ ok bs e)
      × (length uuid ≡ 16)
unfolding swap_uuid
swap_uuid_lem [] h = absurd (omega arith)
swap_uuid_lem (a ∷ []) h = absurd (omega arith)
swap_uuid_lem (a ∷ b ∷ []) h = absurd (omega arith)
swap_uuid_lem (a ∷ b ∷ c ∷ []) h = absurd (omega arith)
swap_uuid_lem (a ∷ b ∷ c ∷ d ∷ []) h = absurd (omega arith)
swap_uuid_lem (a ∷ b ∷ c ∷ d ∷ f ∷ []) h = absurd (omega arith)
swap_uuid_lem (a ∷ b ∷ c ∷ d ∷ f ∷ g ∷ []) h = absurd (omega arith)
swap_uuid_lem (a ∷ b ∷ c ∷ d ∷ f ∷ g ∷ k ∷ []) h = absurd (omega arith)
swap_uuid_lem (a ∷ b ∷ c ∷ d ∷ f ∷ g ∷ k ∷ l ∷ rest) h =
    let eight : (length rest == 8) ≡ true = ground arith in
    (d ∷ c ∷ b ∷ a ∷ g ∷ f ∷ l ∷ k ∷ rest, λ e. rw eight refl, λ e. rw eight refl, omega arith)

abbrev pub uuid_rec : Bytes → MrRec
uuid_rec bs = record { rec_type = fru_mr_mgmt_access; body = mgmt mgmt_sys_uuid (write_hex bs) }

-- The record in the file, with its version byte and the checksum of its header.
abbrev uuid_file : Bytes → ℕ → ℕ → Bytes
uuid_file uuid eol_ver hdr_checksum =
    fru_mr_mgmt_access
    ∷ eol_ver
    ∷ 17
    ∷ calc_checksum (mgmt_sys_uuid ∷ uuid)
    ∷ hdr_checksum
    ∷ mgmt_sys_uuid
    ∷ uuid

abbrev sealed_file : Bytes → Bool → Bytes
sealed_file uuid last =
    let v = flagged last mr_ver in
    uuid_file uuid v
      (calc_checksum (fru_mr_mgmt_access ∷ v ∷ 17 ∷ calc_checksum (mgmt_sys_uuid ∷ uuid) ∷ []))

encode_rec-uuid :
    (buf : Bytes) (offset : ℕ) (bs uuid : Bytes) (e : FruErrno)
    → IsBytes bs
    → length bs ≡ 16
    → length uuid ≡ 16
    → ((e' : FruErrno) → swap_uuid bs e' ≡ ok uuid e')
    → offset + 22 ≤ length buf
    → encode_rec (some buf) offset (uuid_rec bs) e
      ≡ ok (some (splice buf offset (uuid_file uuid mr_ver 0)), 22) e
unfolding encode_rec encode_mr_mgmt_record encode_mgmt uuid2rec mgmt_blob2rec mr_blob2rec
encode_rec-uuid buf offset bs uuid e are_bytes sixteen sixteen' swapped fits =
    let size = length-write_hex bs in
    let thirty_two : length (write_hex bs) ≡ 32 = omega arith in
    let hexed = hexstr2bin-write_hex hex_relaxed 16 bs e are_bytes (inr (omega arith)) in
    rw (thirty_two, hexed, bind_outcome, swapped e, sixteen')
      (rw (take_all 16 uuid (omega arith)) (
        rw (write_out_lem buf offset (uuid_file uuid mr_ver 0) e (omega arith), bind_outcome) refl))

version_lem : (last : Bool) → (low_bits (flagged last mr_ver) 3 == mr_ver) ≡ true
version_lem true = refl
version_lem false = refl

-- The record that is read.
module _ (buf : Bytes) (offset : ℕ) (uuid : Bytes) (last : Bool) (sixteen : length uuid ≡ 16)
    (holds : Holds buf offset (sealed_file uuid last)) (inside : offset + 22 ≤ length buf) where
  reads :
      (i n : ℕ) (e : FruErrno)
      → i + n ≤ 22
      → bytes_at buf (offset + i) n e ≡ ok (take n (drop i (sealed_file uuid last))) e
  reads i n e part =
      read_out-Holds buf offset i n (sealed_file uuid last) e holds (omega arith) (omega arith)

  header :
      (e : FruErrno) → bytes_at buf offset mr_header_size e ≡ ok (take 5 (sealed_file uuid last)) e
  header e =
      let shifted : offset + 0 ≡ offset = omega arith in
      ap (λ x. bytes_at buf x 5 e) (sym shifted) ∙ reads 0 5 e (omega arith)

  type_byte : get_elem? buf offset ≡ some fru_mr_mgmt_access
  type_byte =
      let shifted : offset + 0 ≡ offset = omega arith in
      ap (get_elem? buf) (sym shifted) ∙ holds 0 (omega arith)

  payload :
      (e : FruErrno) → bytes_at buf (offset + mr_header_size) 17 e ≡ ok (mgmt_sys_uuid ∷ uuid) e
  payload e =
      reads 5 17 e (omega arith)
      ∙ ap (λ l. ok (mgmt_sys_uuid ∷ l) e) (take_all 16 uuid (omega arith))

  is_mr_rec_valid-uuid :
      (limit : ℕ) (flags : Flags) (e : FruErrno)
      → 22 ≤ limit
      → is_mr_rec_valid buf offset limit flags e ≡ ok tt e
  unfolding is_mr_rec_valid
  is_mr_rec_valid-uuid limit flags e room =
      let enough : ltb mr_header_size limit ≡ true = ground arith in
      let short : ltb limit 22 ≡ false = ground arith in
      let sum : ℕ = calc_checksum (mgmt_sys_uuid ∷ uuid) in
      let same : (sum == sum) ≡ true = ground arith in
      let sealed : Bytes = fru_mr_mgmt_access ∷ flagged last mr_ver ∷ 17 ∷ sum ∷ [] in
      rw (enough, guard)
        (rw (holds 1 (omega arith), bind_outcome, deref)
          (rw (version_lem last, check)
            (rw (header e, bind_outcome, calc_checksum_appended sealed)
              (rw (holds 2 (omega arith), bind_outcome, deref)
                (rw (short, payload e, bind_outcome)
                  (rw (holds 3 (omega arith), bind_outcome, deref, same, check) refl))))))

  decode_mr_record-uuid :
      (bs : Bytes) (flags : Flags) (e : FruErrno)
      → ((e' : FruErrno) → swap_uuid uuid e' ≡ ok bs e')
      → decode_mr_record buf offset flags e
        ≡ ok (uuid_rec bs) (with_error femrnotsup ferr_loc_mr minus_one e)
  unfolding decode_mr_record decode_mr_mgmt decode_mr_mgmt_uuid
  decode_mr_record-uuid bs flags e swapped =
      let e1 : FruErrno = with_error femrnotsup ferr_loc_mr minus_one e in
      let shifted : offset + mr_header_size + 1 ≡ offset + 6 = omega arith in
      let text : bytes_at buf (offset + mr_header_size + 1) 16 e1 ≡ ok uuid e1 =
        ap (λ x. bytes_at buf x 16 e1) shifted
        ∙ reads 6 16 e1 (omega arith)
        ∙ ap (λ l. ok l e1) (take_all 16 uuid (omega arith)) in
      rw (type_byte, bind_outcome, deref)
        (rw (holds 5 (omega arith), bind_outcome, deref)
          (rw (holds 2 (omega arith), bind_outcome, deref)
            (rw (text, bind_outcome, swapped e1) refl)))

-- A management record whose text is 16 bytes as hex digits, the system's UUID: to a buffer that has
-- room for it encode_mr_record writes it, without an error, as 22 bytes. In the buffer that it
-- leaves, is_mr_rec_valid accepts the record with any flags and a limit of at least 22, and
-- decode_mr_record gives the very record; the error FEMRNOTSUP, which it sets first, stays set.
pub encode_mr_record-decode_uuid :
    (buf : Bytes) (offset limit : ℕ) (bs : Bytes) (last : Bool) (flags : Flags) (e e1 : FruErrno)
    → IsBytes bs
    → length bs ≡ 16
    → offset + 22 ≤ length buf
    → 22 ≤ limit
    → (buf' : Bytes) × (encode_mr_record (some buf) offset (uuid_rec bs) last e
        ≡ ok (some buf', 22) e)
      × (is_mr_rec_valid buf' offset limit flags e1 ≡ ok tt e1)
      × (decode_mr_record buf' offset flags e1
          ≡ ok (uuid_rec bs) (with_error femrnotsup ferr_loc_mr minus_one e1))
unfolding encode_mr_record
encode_mr_record-decode_uuid buf offset limit bs last flags e e1 are_bytes sixteen fits room =
    let (uuid, swapped, back, sixteen') = swap_uuid_lem bs sixteen in
    let file : Bytes = uuid_file uuid mr_ver 0 in
    let size = length-splice buf offset file (omega arith) in
    let body : Bytes = mgmt_sys_uuid ∷ uuid in
    let (buf', sealed, holds, size') =
      seal_header-Holds (splice buf offset file) offset last fru_mr_mgmt_access mr_ver 17
        (calc_checksum body) 0 body e (splice-Holds buf offset file (omega arith)) (omega arith) in
    (
      buf',
      rw
          (
            encode_rec-uuid buf offset bs uuid e are_bytes sixteen sixteen' swapped fits,
            bind_outcome,
          )
          (rw (sealed, bind_outcome) refl),
      is_mr_rec_valid-uuid buf' offset uuid last sixteen' holds (omega arith) limit flags e1 room,
      decode_mr_record-uuid buf' offset uuid last sixteen' holds (omega arith) bs flags e1 back,
    )
