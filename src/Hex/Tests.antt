-- ===== src/Hex/Tests.antt =====
-- Runs of the hex conversions, and the witnesses of their theorems.
use frugen.Common.{◌%◌, ◌≡◌, ◌↔◌, refl, none, some, [], ◌∷◌, codes, Bytes, All, length}
use frugen.Errno.{FruErrno, ok, fru_errno_init, result}
use frugen.Hex.{
  hexstr2bin, hex_loop, hex_finish, hex_relaxed, hex_strict, hex2byte, hex2byte_round, nibble_of,
  skips, is_separator, below_limit,
}
use frugen.Hex.Digits.{IsHexDigit}
use frugen.Hex.Strict.{hexstr2bin_strict_iff}

-- Separators between bytes are skipped in the relaxed mode.
relaxed_separators :
    result (hexstr2bin hex_relaxed 0 (codes "DE-AD c0.de") fru_errno_init)
    ≡ some (0xde ∷ 0xad ∷ 0xc0 ∷ 0xde ∷ [])
unfolding hexstr2bin hex_loop hex_finish hex2byte hex2byte_round nibble_of skips is_separator
    below_limit
relaxed_separators = refl

-- An odd last digit is refused, and so is a separator behind the last byte.
odd_digits :
    (result (hexstr2bin hex_relaxed 0 (codes "123") fru_errno_init) ≡ none)
    × (result (hexstr2bin hex_relaxed 0 (codes "12 ") fru_errno_init) ≡ none)
unfolding hexstr2bin hex_loop hex_finish hex2byte hex2byte_round nibble_of skips is_separator
    below_limit
odd_digits = (refl, refl)

abbrev leet : Bytes
leet = 0x13 ∷ 0x37 ∷ 0xc0 ∷ 0xde ∷ []

hexstr2bin_strict_iff_example :
    ((bs : Bytes) × (e' : FruErrno) × (hexstr2bin hex_strict 0 (codes "aB") fru_errno_init
        ≡ ok bs e'))
    ↔ (All IsHexDigit (codes "aB") × (length (codes "aB") % 2 ≡ 0))
hexstr2bin_strict_iff_example = hexstr2bin_strict_iff (codes "aB") fru_errno_init
