-- ===== src/Field/Encode.antt =====
-- lib/fru_setfield.c: the four encoders, `fru__encode_field` and `fru_setfield`. The encoders write
-- into a buffer of 63 data bytes, and a write beyond it is the fault. `char` is signed.
use frugen.Common.{
  ℕ, zero, suc, ◌+◌, ◌-◌, ◌/◌, Bool, true, false, not, ◌&&◌, Option, none, some, [], ◌∷◌, Bytes, u8,
  ◌<<<◌, ◌>>>◌, low_bits, bit_or, ltb, leb, ◌==◌, if◌then◌else◌, length, take, get_or, drop,
  minus_one, List, pos,
}
use frugen.Errno.{
  Eff, ◌>>=◌, ◌>>◌, pure, undefined, deref, guard, non_null, seterr, fail_with, clearerr, ok, fail,
  fault, fenonprint, ferange, feautoenc, febadenc, fe2big, ferr_loc_general, Outcome,
}
use frugen.Hex.{HexMode, hex_relaxed, hex_strict, hexstr2bin}
use frugen.Field.{
  FieldEnc, fe_empty, fe_binary, fe_bcdplus, fe_6bitascii, fe_text, fe_auto, fe_unknown, is_real,
  Field, FileField, fieldlen, field_max_len, make_typelen, type_binary, type_bcdplus,
  type_ascii_6bit, type_text, field_empty, field_terminator, Phase, first, second, third, fourth,
  six_bit_length,
}
use frugen.Field.Decode.{decode_field}

-- The test and the truncation that open three of the encoders.
unfoldable pub truncate : ℕ → Eff ℕ
truncate len =
    if ltb (fieldlen len) len
    then (do seterr fe2big ferr_loc_general minus_one; pure (fieldlen len))
    else pure len

-- A field of the given type byte, with as much of the buffer as its length says.
abbrev pub file_field : ℕ → Bytes → FileField
file_field typelen buf = record { typelen = typelen; payload = take (low_bits typelen 6) buf }

-- A write to `out->data[i]`.
unfoldable pub in_buffer : ℕ → Eff (Unit {0})
in_buffer i = if ltb i field_max_len then pure tt else undefined

unfoldable pub encode_binary : HexMode → Bytes → Eff FileField
encode_binary mode s = do
  bytes ← hexstr2bin mode field_max_len s
  pure (file_field (make_typelen type_binary (length bytes)) bytes)

-- One character of the 6-bit encoder: `s[i] - 0x20` as a signed char, checked and masked.
unfoldable pub six_value : ℕ → Eff ℕ
six_value char = do
  let c = u8 (char + 256 - 0x20)
  guard (not (ltb 63 c && ltb c 128)) ferange ferr_loc_general minus_one
  pure (low_bits c 6)

-- What the buffer holds at `i6`, when the loop ends.
abbrev pub pending : Phase → ℕ → Bytes
pending first cur = []
pending _ cur = cur ∷ []

-- The loop of encode_6bit with `i % 4`, `i6`, the byte at `i6` and the characters left. It returns
-- the bytes that the buffer then holds from `i6` on.
unfoldable pub pack : ℕ → Phase → ℕ → ℕ → Bytes → Eff Bytes
pack len6bit phase i6 cur [] = pure (pending phase cur)
pack len6bit first i6 cur (char ∷ s) = elim (ltb i6 len6bit) [
  | false ↦ pure (pending first cur)
  | true ↦ do c ← six_value char; in_buffer i6; pack len6bit second i6 c s
]
pack len6bit second i6 cur (char ∷ s) = elim (ltb i6 len6bit) [
  | false ↦ pure (pending second cur)
  | true ↦ do
    c ← six_value char
    in_buffer (suc i6)
    rest ← pack len6bit third (suc i6) (c >>> 2) s
    pure (u8 (bit_or cur (low_bits c 2 <<< 6)) ∷ rest)
]
pack len6bit third i6 cur (char ∷ s) = elim (ltb i6 len6bit) [
  | false ↦ pure (pending third cur)
  | true ↦ do
    c ← six_value char
    in_buffer (suc i6)
    rest ← pack len6bit fourth (suc i6) (c >>> 4) s
    pure (u8 (bit_or cur (c <<< 4)) ∷ rest)
]
pack len6bit fourth i6 cur (char ∷ s) = elim (ltb i6 len6bit) [
  | false ↦ pure (pending fourth cur)
  | true ↦ do
    c ← six_value char
    rest ← pack len6bit first (suc i6) 0 s
    pure (u8 (bit_or cur (c <<< 2)) ∷ rest)
]

unfoldable pub encode_6bit : Bytes → Eff FileField
encode_6bit s = do
  len6bit ← truncate (six_bit_length (length s))
  bytes ← pack len6bit first 0 0 s
  pure (file_field (make_typelen type_ascii_6bit len6bit) bytes)

-- The `switch` of encode_bcdplus.
unfoldable pub bcd_value : ℕ → Eff ℕ
bcd_value char =
    if char == b' '
    then pure 0xa
    else if char == b'-'
    then pure 0xb
    else if char == b'.'
    then pure 0xc
    else if leb b'0' char && leb char b'9'
    then pure (char - b'0')
    else fail_with ferange ferr_loc_general minus_one

-- The loop of encode_bcdplus, two rounds at a time: `c1` is `c[1]`, which the loop does not reset,
-- and `k` is `i / 2`. It returns the bytes that the buffer then holds from `k` on.
unfoldable pub bcd_pack : ℕ → ℕ → Bytes → Eff Bytes
bcd_pack k c1 [] = pure []
bcd_pack k c1 (a ∷ []) = do x ← bcd_value a; in_buffer k; pure (u8 (bit_or (x <<< 4) c1) ∷ [])
bcd_pack k c1 (a ∷ b ∷ s) = do
  x ← bcd_value a
  in_buffer k
  y ← bcd_value b
  rest ← bcd_pack (suc k) y s
  pure (u8 (bit_or (x <<< 4) y) ∷ rest)

unfoldable pub encode_bcdplus : Bytes → Eff FileField
encode_bcdplus s = do
  lenbcd ← truncate ((length s + 1) / 2)
  bytes ← bcd_pack 0 0 s
  pure (file_field (make_typelen type_bcdplus lenbcd) bytes)

-- isprint in the C locale.
unfoldable pub is_print : ℕ → Bool
is_print c = leb 32 c && leb c 126

-- The loop of encode_text with the rounds left; behind its end the string reads as NUL.
unfoldable pub copy_text : ℕ → Bytes → Eff Bytes
copy_text zero s = pure []
copy_text (suc n) s = do
  guard (is_print (get_or s 0 0)) fenonprint ferr_loc_general minus_one
  rest ← copy_text n (drop 1 s)
  pure (get_or s 0 0 ∷ rest)

-- The type/length byte of a text: the one that means the end of the fields is stepped over.
unfoldable pub text_typelen : ℕ → ℕ
text_typelen len =
    let t = make_typelen type_text len in if t == field_terminator then u8 (suc t) else t

unfoldable pub encode_text : Bytes → Eff FileField
encode_text s = do
  clearerr
  len ← truncate (length s)
  bytes ← copy_text (low_bits (text_typelen len) 6) s
  pure (file_field (text_typelen len) bytes)

-- The table of encoders.
unfoldable pub encode_as : FieldEnc → HexMode → Bytes → Eff FileField
encode_as fe_binary mode s = encode_binary mode s
encode_as fe_bcdplus mode s = encode_bcdplus s
encode_as fe_6bitascii mode s = encode_6bit s
encode_as fe_text mode s = encode_text s
encode_as _ mode s = undefined

-- `auto_encs`, and the loop over it: a failed attempt leaves its error behind.
abbrev pub auto_encs : List FieldEnc
auto_encs = fe_6bitascii ∷ fe_bcdplus ∷ fe_binary ∷ fe_text ∷ []

abbrev pub or_else : Outcome FileField → Eff FileField → Outcome FileField
or_else (ok f e) next = ok f e
or_else (fail e) next = next e
or_else fault next = fault

unfoldable pub try_encs : List FieldEnc → Bytes → Eff FileField
try_encs [] s e = fail_with feautoenc ferr_loc_general (pos 0) e
try_encs (enc ∷ encs) s e = or_else (encode_as enc hex_strict s e) (try_encs encs s)

-- `fru__encode_field` behind its checks.
unfoldable pub encode_string : FieldEnc → Bytes → Eff FileField
encode_string encoding [] = pure (file_field field_empty [])
encode_string encoding (c ∷ s) =
    if is_real encoding then encode_as encoding hex_relaxed (c ∷ s) else try_encs auto_encs (c ∷ s)

-- fru__encode_field
unfoldable pub encode_field : FieldEnc → Option Bytes → Eff FileField
encode_field encoding none = non_null none ferr_loc_general
encode_field fe_empty (some s) = encode_string fe_text []
encode_field fe_unknown (some s) = fail_with febadenc ferr_loc_general (pos 0)
encode_field encoding (some s) = encode_string encoding s

-- The encoding that fru_setfield uses: FRU_FE_PRESERVE is fe_unknown.
unfoldable pub resolve_encoding : Option Field → FieldEnc → Eff (Option Field × FieldEnc)
resolve_encoding field fe_unknown = do
  f ← deref field
  pure (if is_real f.enc then (some f, f.enc) else (some (record f { enc = fe_auto }), fe_auto))
resolve_encoding field encoding = pure (field, encoding)

-- The result of `fru__decode_field` is not looked at: a call that fails leaves the field as it is.
abbrev pub decode_into : Field → Outcome Field → Outcome (Option Field × Bool)
decode_into f (ok decoded e) = ok (some decoded, true) e
decode_into f (fail e) = ok (some f, true) e
decode_into f fault = fault

abbrev pub store_field : Option Field → Outcome FileField → Outcome (Option Field × Bool)
store_field field fault = fault
store_field field (fail e) = ok (field, false) e
store_field none (ok out e) = ok (none, true) e
store_field (some f) (ok out e) = decode_into f (decode_field (some out) e)

-- fru_setfield: the field that it leaves, and what it returns.
unfoldable pub setfield : Option Field → FieldEnc → Option Bytes → Eff (Option Field × Bool)
setfield field encoding s = do
  (target, enc) ← resolve_encoding field encoding
  λ e. store_field target (encode_field enc s e)
