-- ===== src/Internal.antt =====
-- lib/fru_internal.c: the internal use area, which fru_t holds as a string of hex digits.
mod Tests
use frugen.Common.{
  inl, ℕ, suc, ◌+◌, ◌*◌, ◌%◌, ◌≡◌, refl, Bool, true, false, ◌||◌, ◌&&◌, Option, none, some, [], ◌∷◌,
  Bytes, IsBytes, length, leb, ◌==◌, if◌then◌else◌, get_or, ◌≢◌, get_elem?, minus_one, arith,
}
use frugen.Errno.{
  FruErrno, ok, Eff, ◌>>=◌, ◌>>◌, pure, undefined, non_null, deref, guard, fail_with, seterr,
  bind_outcome, fegeneric, fenonhex, fenoteven, feadisabled, ferr_loc_caller, ferr_loc_internal,
}
use frugen.Hex.{decode_raw_binary, write_hex, hexstr2bin, hex_strict}
use frugen.Hex.Convert.{decode_raw_some, hexstr2bin-write_hex}
use frugen.Fru.{Fru, fru_internal_use}
use frugen.Area.{put}
use frugen.Area.Order.{WellFormed}
use frugen.Custom.{try_enable}
use frugen.Custom.Add.{try_enable_lem}

-- isxdigit in the C locale.
unfoldable pub is_xdigit : ℕ → Bool
is_xdigit c = (leb b'0' c && leb c b'9') || (leb b'a' c && leb c b'f') || (leb b'A' c && leb c b'F')

unfoldable pub is_delimiter : ℕ → Bool
is_delimiter c = c == b' ' || c == b'-' || c == b':' || c == b'.'

-- The loop of hexcopy that checks the input and counts its digits.
unfoldable pub count_digits : ℕ → Bytes → Eff ℕ
count_digits len [] = pure len
count_digits len (c ∷ hexstr) = elim (is_xdigit c) [
  | true ↦ count_digits (suc len) hexstr
  | false ↦ elim (is_delimiter c) [
    | true ↦ count_digits len hexstr
    | false ↦ fail_with fenonhex ferr_loc_internal minus_one
  ]
]

-- The loop that copies.
unfoldable pub copy_digits : Bytes → Bytes
copy_digits [] = []
copy_digits (c ∷ hexstr) =
    let rest = copy_digits hexstr in if is_delimiter c then rest else c ∷ rest

-- The byte behind the digits after `realloc`: it is one of the old string, with its NUL, if that
-- is as long, and else `new_byte`.
abbrev pub byte_behind : ℕ → Option Bytes → ℕ → ℕ
byte_behind new_byte none len = new_byte
byte_behind new_byte (some old) len = if leb len (length old) then get_or old len 0 else new_byte

-- hexcopy: an odd number of digits sets an error, and the copy is made all the same. No NUL is
-- written behind it, at the end of the block: if there is none by chance, then to read the string
-- is undefined.
unfoldable pub hexcopy : Bool → ℕ → Option Bytes → Bytes → Eff Bytes
hexcopy allocated new_byte old hexstr = do
  len ← count_digits 0 hexstr
  elim (len % 2 == 0) [ true ↦ pure tt | false ↦ seterr fenoteven ferr_loc_internal minus_one ]
  guard allocated fegeneric ferr_loc_internal minus_one
  elim (byte_behind new_byte old len == 0) [ true ↦ pure (copy_digits hexstr) | false ↦ undefined ]

-- What a block of one byte holds after `realloc`: without an old string it is not initialized.
abbrev pub kept_string : Option Bytes → Option Bytes
kept_string (some []) = some []
kept_string _ = none

-- fru_set_internal_binary, with the bytes that `size` counts, and whether `realloc` succeeds.
unfoldable pub set_internal_binary : Bool → Option Fru → Option Bytes → Eff Fru
set_internal_binary allocated ptr buffer = do
  fru ← non_null ptr ferr_loc_caller
  bytes ← non_null buffer ferr_loc_caller
  guard allocated fegeneric ferr_loc_internal minus_one
  hexstring ← decode_raw_binary bytes (kept_string fru.internal) (length bytes * 2 + 1)
  try_enable (record fru { internal = some hexstring }) fru_internal_use

-- fru_set_internal_hexstring, with the byte at the end of the memory that `realloc` adds
unfoldable pub set_internal_hexstring : Bool → ℕ → Option Fru → Option Bytes → Eff Fru
set_internal_hexstring allocated new_byte ptr buffer = do
  fru ← non_null ptr ferr_loc_internal
  hexstr ← non_null buffer ferr_loc_internal
  hexstring ← hexcopy allocated new_byte fru.internal hexstr
  try_enable (record fru { internal = some hexstring }) fru_internal_use

-- fru_delete_internal
unfoldable pub delete_internal : Option Fru → Eff Fru
delete_internal ptr = do
  fru ← non_null ptr ferr_loc_internal
  here ← deref (get_elem? fru.present fru_internal_use)
  guard here feadisabled ferr_loc_internal minus_one
  present' ← put fru.present fru_internal_use false
  pure (record fru { present = present'; internal = none })

-- The bytes, one at least, that fru_set_internal_binary stores in a well-formed FRU are read back
-- from the hex string that it leaves, and the internal use area is present, whether or not it was
-- before.
pub set_internal_binary-hexstr2bin :
    (fru : Fru) (bytes : Bytes) (e : FruErrno)
    → WellFormed fru
    → bytes ≢ []
    → IsBytes bytes
    → (fru' : Fru) × (e' : FruErrno) × (s : Bytes) × (set_internal_binary true
          (some fru)
          (some bytes)
          e
        ≡ ok fru' e')
      × (get_elem? fru'.present fru_internal_use ≡ some true)
      × (fru'.internal ≡ some s)
      × (hexstr2bin hex_strict 0 s e' ≡ ok bytes e')
unfolding set_internal_binary
set_internal_binary-hexstr2bin fru [] e wf ne hb = absurd (ne refl)
set_internal_binary-hexstr2bin fru (b ∷ bs) e wf ne hb =
    let bytes : Bytes = b ∷ bs in
    let with_string : Fru = record fru { internal = some (write_hex bytes) } in
    let wf' : WellFormed with_string = record {
      present_size = wf.present_size;
      order_size = wf.order_size;
      once = wf.once;
      off = wf.off;
      on = wf.on;
      grouped = wf.grouped;
      all_off = wf.all_off;
      all_on = wf.all_on;
    } in
    let (order', present', e', run, here, _) =
      try_enable_lem with_string fru_internal_use e wf' (omega arith) in
    (
      record with_string { order = order'; present = present' },
      e',
      write_hex bytes,
      rw (decode_raw_some b bs (kept_string fru.internal) (length bytes * 2 + 1) e (omega arith))
          (rw (run, bind_outcome) refl),
      here,
      refl,
      hexstr2bin-write_hex hex_strict 0 bytes e' hb (inl refl),
    )
