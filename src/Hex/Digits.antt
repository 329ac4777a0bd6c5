-- ===== src/Hex/Digits.antt =====
-- A byte and its two hex digits: `fru_hex2byte` against `fru__byte2hex`.
use frugen.Common.{
  ℕ, ◌+◌, ◌-◌, ◌*◌, ◌/◌, ◌%◌, ◌<◌, ◌≤◌, ◌≡◌, refl, ap, ◌∙◌, arith, ◌⊎◌, inl, inr, none, some, ◌∷◌,
  ◌++◌, false, Option-cases, Bytes, IsByte, bit_or_four, zero-bit_or, get_or, minus_one,
}
use frugen.Errno.{FruErrno, ok, fail, with_error, fenonhex, ferr_loc_general}
use frugen.Hex.{
  nibble2hex, byte2hex, nibble_of, hex2byte_round, hex2byte, skips, HexMode, hex_relaxed,
  hex_strict,
}

pub nibble_of-nibble2hex : (n : ℕ) → n < 16 → nibble_of (nibble2hex n) ≡ some n
unfolding nibble_of nibble2hex
nibble_of-nibble2hex n h = ground arith

pub nibble_of-lt : (c x : ℕ) → nibble_of c ≡ some x → x < 16
unfolding nibble_of
nibble_of-lt c x h = ground arith

pub nibble_of-skips : (mode : HexMode) (c x : ℕ) → nibble_of c ≡ some x → skips mode c ≡ false
unfolding nibble_of skips
nibble_of-skips hex_relaxed c x h = ground arith
nibble_of-skips hex_strict c x h = refl

round_zero :
    (hex : Bytes) (e : FruErrno) (x : ℕ)
    → nibble_of (get_or hex 0 0) ≡ some x
    → hex2byte_round hex 0 0 e ≡ ok (x * 16) e
unfolding hex2byte_round
round_zero hex e x h =
    rw (h, hex2byte_round) (ground (arith, nibble_of-lt _ x h, zero-bit_or (x * 16)))

round_one :
    (hex : Bytes) (e : FruErrno) (x y : ℕ)
    → x < 16
    → nibble_of (get_or hex 1 0) ≡ some y
    → hex2byte_round hex 1 (x * 16) e ≡ ok (x * 16 + y) e
unfolding hex2byte_round
round_one hex e x y hx h =
    rw (h, hex2byte_round) (ground (arith, nibble_of-lt _ y h, bit_or_four x y))

pub hex2byte_digits :
    (c d x y : ℕ) (s : Bytes) (e : FruErrno)
    → nibble_of c ≡ some x
    → nibble_of d ≡ some y
    → hex2byte (some (c ∷ d ∷ s)) e ≡ ok (x * 16 + y) e
unfolding hex2byte
hex2byte_digits c d x y s e hx hy =
    rw (round_zero (c ∷ d ∷ s) e x hx, round_one (c ∷ d ∷ s) e x y (nibble_of-lt c x hx) hy) refl

-- A character that is no digit, in either place, fails the call with FENONHEX.
pub hex2byte_bad :
    (c d : ℕ) (s : Bytes) (e : FruErrno)
    → (nibble_of c ≡ none) ⊎ (nibble_of d ≡ none)
    → hex2byte (some (c ∷ d ∷ s)) e ≡ fail (with_error fenonhex ferr_loc_general minus_one e)
unfolding hex2byte hex2byte_round
hex2byte_bad c d s e (inl bad) = rw (bad, hex2byte_round) refl
hex2byte_bad c d s e (inr bad) = elim (Option-cases (nibble_of c)) [
  | inl none_c ↦ rw (none_c, hex2byte_round) refl
  | inr (x, hx) ↦ rw (round_zero (c ∷ d ∷ s) e x hx) (rw (bad, hex2byte_round) refl)
]

-- The two digits that `fru__byte2hex` writes are read back as the byte by `fru_hex2byte`, whatever
-- follows them, and no error is set.
pub hex2byte-byte2hex :
    (b : ℕ) (s : Bytes) (e : FruErrno) → IsByte b → hex2byte (some (byte2hex b ++ s)) e ≡ ok b e
unfolding byte2hex
hex2byte-byte2hex b s e h =
    hex2byte_digits _ _ (b / 16 % 16) (b % 16) s e (nibble_of-nibble2hex _ (omega arith))
      (nibble_of-nibble2hex _ (omega arith))
    ∙ ap (λ v. ok v e) (omega arith)

-- The digits of 0 to 9, A to F and a to f.
abbrev pub IsHexDigit : ℕ → Type 0
IsHexDigit c = ((b'0' ≤ c) × (c ≤ b'9')) ⊎ ((b'A' ≤ c) × (c ≤ b'F')) ⊎ ((b'a' ≤ c) × (c ≤ b'f'))

pub nibble_of-IsHexDigit : (c x : ℕ) → nibble_of c ≡ some x → IsHexDigit c
unfolding nibble_of
nibble_of-IsHexDigit c x h = ground arith

pub IsHexDigit-nibble_of : (c : ℕ) → IsHexDigit c → (x : ℕ) × (nibble_of c ≡ some x)
unfolding nibble_of
IsHexDigit-nibble_of c (inl h) = (c - b'0', ground arith)
IsHexDigit-nibble_of c (inr (inl h)) = (c - b'A' + 10, ground arith)
IsHexDigit-nibble_of c (inr (inr h)) = (c - b'a' + 10, ground arith)
