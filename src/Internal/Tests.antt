-- ===== src/Internal/Tests.antt =====
-- Runs on the internal use area, and the witness of its theorem.
use frugen.Common.{none}
use frugen.Common.{◌≡◌, refl, some, true, [], ◌∷◌, arith, Bytes, get_elem?, codes}
use frugen.Errno.{fault, FruErrno, ok, result, fru_errno_init}
use frugen.Hex.{hexstr2bin, hex_strict}
use frugen.Fru.{Fru, default_fru}
use frugen.Area.Init.{default_WellFormed}
use frugen.Internal.{
  set_internal_binary, set_internal_binary-hexstr2bin, hexcopy, count_digits, copy_digits,
  is_xdigit, is_delimiter,
}

-- Delimiters are dropped, and an odd number of digits is copied all the same.
copied : result (hexcopy true 0 none (codes "DE-AD c") fru_errno_init) ≡ some (codes "DEADc")
unfolding hexcopy count_digits copy_digits is_xdigit is_delimiter
copied = refl

-- Without a zero behind the digits, the string has no end.
unterminated : hexcopy true b'A' none (codes "DE") fru_errno_init ≡ fault
unfolding hexcopy count_digits is_xdigit is_delimiter
unterminated = refl

set_internal_binary-hexstr2bin_example :
    (fru' : Fru) × (e' : FruErrno) × (s : Bytes) × (set_internal_binary true
        (some default_fru)
        (some (0xca ∷ 0xfe ∷ []))
        fru_errno_init
      ≡ ok fru' e')
    × (get_elem? fru'.present 0 ≡ some true)
    × (fru'.internal ≡ some s)
    × (hexstr2bin hex_strict 0 s e' ≡ ok (0xca ∷ 0xfe ∷ []) e')
set_internal_binary-hexstr2bin_example =
    set_internal_binary-hexstr2bin default_fru (0xca ∷ 0xfe ∷ []) fru_errno_init default_WellFormed
      (cc) (omega arith, (omega arith, tt))
