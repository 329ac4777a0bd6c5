-- ===== src/Field/Binary.antt =====
-- `fru_setfield_binary` of lib/fru_setfield_binary.c.
use frugen.Common.{
  ℕ, ◌+◌, ◌*◌, ◌<◌, ◌≤◌, ◌≡◌, ◌≢◌, refl, Bool, true, false, Option, some, [], ◌∷◌, Bytes, IsBytes,
  length, ltb, leb, ◌==◌, if◌then◌else◌, minus_one, arith,
}
use frugen.Errno.{
  FruErrno, ok, fault, Eff, ◌>>=◌, non_null, fail_errno, bind_outcome, fegeneric, fe2big,
  ferr_loc_caller, ferr_loc_general, efault, einval,
}
use frugen.Hex.{decode_raw_binary, write_hex, hex_relaxed}
use frugen.Hex.Convert.{decode_raw_some, write_hex-ne-nil}
use frugen.Field.{Field, fe_binary, field_max_len, make_typelen, type_binary}
use frugen.Field.Encode.{encode_field, file_field}
use frugen.Field.Text.{encode_binary-write_hex}
use frugen.Field.RoundTrip.{encode_field_binary}

-- The input's size, truncated to fit.
abbrev pub truncated_size : ℕ → ℕ
truncated_size size = if ltb size field_max_len then size else field_max_len

unfoldable pub set_binary : Field → Bytes → Eff Field
set_binary field bytes = do
  val ← decode_raw_binary bytes (some field.val) (truncated_size (length bytes) * 2 + 1)
  λ e.
      ok (record field { enc = fe_binary; val = val })
        (if ltb (truncated_size (length bytes)) (length bytes)
          then (record e { code = fe2big })
          else e)

-- fru_setfield_binary, with the bytes that `size` counts, and whether `calloc` succeeds.
unfoldable pub setfield_binary : Bool → Option Field → Option Bytes → Eff Field
setfield_binary allocated ptr buf = do
  field ← non_null ptr ferr_loc_caller
  bytes ← non_null buf ferr_loc_caller
  elim (length bytes == 0) [
    | true ↦ fail_errno fegeneric ferr_loc_caller minus_one einval
    | false ↦ elim allocated [
      | false ↦ fail_errno fegeneric ferr_loc_general minus_one efault
      | true ↦ set_binary field bytes
    ]
  ]

set_binary_fits :
    (field : Field) (b : ℕ) (bs : Bytes) (e : FruErrno)
    → length (b ∷ bs) ≤ 63
    → set_binary field (b ∷ bs) e
      ≡ ok (record field { enc = fe_binary; val = write_hex (b ∷ bs) }) e
unfolding set_binary
set_binary_fits field b bs e short =
    let bytes : Bytes = b ∷ bs in
    let size : truncated_size (length bytes) ≡ length bytes = ground arith in
    let whole : ltb (truncated_size (length bytes)) (length bytes) ≡ false = ground arith in
    rw
      (decode_raw_some b bs (some field.val) (truncated_size (length bytes) * 2 + 1) e
        (omega arith))
      (rw (whole, bind_outcome) refl)

-- More than 63 bytes are not truncated, as the code means to, but break an assertion or, without
-- assertions, write beyond the place for 63 of them.
pub setfield_binary_overflow :
    (field : Field) (bytes : Bytes) (e : FruErrno)
    → 63 < length bytes
    → setfield_binary true (some field) (some bytes) e ≡ fault
unfolding setfield_binary set_binary decode_raw_binary
setfield_binary_overflow field [] e long = absurd (omega arith)
setfield_binary_overflow field (b ∷ bs) e long =
    let bytes : Bytes = b ∷ bs in
    let some_bytes : (length bytes == 0) ≡ false = ground arith in
    let no_room : leb (length bytes * 2 + 1) (truncated_size (length bytes) * 2 + 1) ≡ false =
      ground arith in
    rw (some_bytes, bind_outcome) (rw no_room refl)

-- A field that fru_setfield_binary fills with 1 to 63 bytes is encoded as the binary field of these
-- bytes, without an error.
pub setfield_binary-encode_field :
    (field : Field) (bytes : Bytes) (e : FruErrno)
    → bytes ≢ []
    → IsBytes bytes
    → length bytes ≤ 63
    → (setfield_binary true (some field) (some bytes) >>= λ f. encode_field f.enc (some f.val)) e
      ≡ ok (file_field (make_typelen type_binary (length bytes)) bytes) e
unfolding setfield_binary
setfield_binary-encode_field field [] e ne hb short = absurd (ne refl)
setfield_binary-encode_field field (b ∷ bs) e ne hb short =
    let some_bytes : (length (b ∷ bs) == 0) ≡ false = ground arith in
    rw (some_bytes, bind_outcome)
      (rw (set_binary_fits field b bs e short) (
        rw (encode_field_binary (write_hex (b ∷ bs)) (write_hex-ne-nil b bs))
          (encode_binary-write_hex hex_relaxed (b ∷ bs) e hb short)))
