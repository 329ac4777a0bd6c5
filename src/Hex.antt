-- ===== src/Hex.antt =====
-- lib/fru_setfield_binary.c (bytes to hex digits), `fru_hex2byte` of lib/fru_common.c and
-- `fru__hexstr2bin` of lib/fru_setfield.c (hex digits to bytes).
pub mod Digits
pub mod Convert
pub mod Strict
mod Tests
use frugen.Common.{
  ℕ, zero, suc, ◌+◌, ◌-◌, ◌*◌, Bool, true, false, not, ◌&&◌, ◌||◌, Option, none, some, List, [],
  ◌∷◌, ◌++◌, Bytes, u8, ◌<<<◌, ◌>>>◌, low_bits, ltb, leb, ◌==◌, if◌then◌else◌, get_or, length,
  minus_one, bit_or,
}
use frugen.Errno.{
  Eff, ◌>>=◌, ◌>>◌, pure, undefined, deref, fail_with, seterr, non_null, fenonhex, fenoteven,
  fe2big, ferr_loc_general, ferr_loc_caller,
}

-- nibble2hex
unfoldable pub nibble2hex : ℕ → ℕ
nibble2hex n = if ltb 9 n then n - 10 + b'A' else n + b'0'

-- fru__byte2hex: the two characters that it writes before the NUL.
unfoldable pub byte2hex : ℕ → Bytes
byte2hex byte = nibble2hex (low_bits (byte >>> 4) 4) ∷ nibble2hex (low_bits byte 4) ∷ []

-- The loop of `fru__decode_raw_binary`.
unfoldable pub write_hex : Bytes → Bytes
write_hex [] = []
write_hex (b ∷ bs) = byte2hex b ++ write_hex bs

-- fru__decode_raw_binary, with the string that its output buffer holds, or none if no NUL ends it,
-- and the buffer's size; its `assert` is the fault. With no input it writes nothing, not even the
-- NUL: the string is the one that was there, and to read it without one is undefined.
unfoldable pub decode_raw_binary : Bytes → Option Bytes → ℕ → Eff Bytes
decode_raw_binary [] out out_len = if leb 1 out_len then deref out else undefined
decode_raw_binary (b ∷ input) out out_len =
    if leb (length (b ∷ input) * 2 + 1) out_len then pure (write_hex (b ∷ input)) else undefined

-- What the loop of `fru_hex2byte` makes of one character.
pub nibble_of : ℕ → Option ℕ
nibble_of char =
    let c = if leb b'A' char && leb char b'F' then char - b'A' + b'a' else char in
    if leb b'0' c && leb c b'9'
    then some (c - b'0')
    else if leb b'a' c && leb c b'f'
    then some (c - b'a' + 10)
    else none

-- One round of the loop: `i` is 0 for the high nibble and 1 for the low one.
hex2byte_round : Bytes → ℕ → ℕ → Eff ℕ
hex2byte_round hex i byte = elim (nibble_of (get_or hex i 0)) [
  | none ↦ fail_with fenonhex ferr_loc_general minus_one
  | some nibble ↦ pure (if ltb 0 nibble then u8 (bit_or byte (nibble <<< (4 - 4 * i))) else byte)
]

-- fru_hex2byte. A C string is the list of the bytes before its NUL, which `get_or` reads as 0.
pub hex2byte : Option Bytes → Eff ℕ
hex2byte ptr = do
  hex ← non_null ptr ferr_loc_caller
  byte ← hex2byte_round hex 0 0
  hex2byte_round hex 1 byte

-- fru__hex_mode_t
pub data HexMode : Type 0 where
  hex_relaxed hex_strict : HexMode

pub is_separator : ℕ → Bool
is_separator c = c == b' ' || c == 9 || c == b':' || c == b'-' || c == b'.'

pub skips : HexMode → ℕ → Bool
unfolding is_separator
skips hex_relaxed c = is_separator c
skips hex_strict c = false

-- The test of the `while` on the size: there is no limit, or it is not reached.
pub below_limit : ℕ → ℕ → Bool
below_limit limit size = limit == 0 || ltb size limit

-- The loop of `fru__hexstr2bin`, with the bytes that it writes and the `ptr` that it ends at.
pub hex_loop : HexMode → ℕ → ℕ → Bytes → Eff (Bytes × Bytes)
hex_loop mode limit size [] = pure ([], [])
hex_loop mode limit size (c ∷ []) = pure ([], c ∷ [])
hex_loop mode limit size (c ∷ d ∷ s) = elim (below_limit limit size) [
  | false ↦ pure ([], c ∷ d ∷ s)
  | true ↦ elim (skips mode c) [
    | true ↦ hex_loop mode limit size (d ∷ s)
    | false ↦ do
      byte ← hex2byte (some (c ∷ d ∷ s))
      (bytes, ptr) ← hex_loop mode limit (suc size) s
      pure (byte ∷ bytes, ptr)
  ]
]

-- What `fru__hexstr2bin` does behind its loop.
pub hex_finish : ℕ → Bytes × Bytes → Eff Bytes
hex_finish limit (bytes, []) = pure bytes
hex_finish limit (bytes, c ∷ ptr) =
    if not (limit == 0) && length bytes == limit
    then (do seterr fe2big ferr_loc_general minus_one; pure bytes)
    else fail_with fenoteven ferr_loc_general minus_one

-- fru__hexstr2bin: `limit` is the `*outsize` that it is called with, and the length of its result
-- the one that it leaves. The conversion is the same whether or not `out` is NULL.
pub hexstr2bin : HexMode → ℕ → Bytes → Eff Bytes
hexstr2bin mode limit s = do out ← hex_loop mode limit 0 s; hex_finish limit out
