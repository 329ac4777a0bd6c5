-- ===== src/Common/Byte.antt =====
-- Bytes as numbers below 256, C strings as the bytes before their NUL, shifts, and `|` on fields
-- of a byte that do not overlap.
use Prim.Native.Char.{code}
use Prim.Native.String.{String}
use Prim.Native.Nat.{ℕ, ◌+◌, ◌*◌, ◌/◌, ◌%◌, ◌^◌, ◌<◌, bit_or}
use mathlib.Core.Path.{◌≡◌, refl, ◌∙◌}
use mathlib.Core.Bool.{Bool, true, ◌&&◌}
use mathlib.Core.List.{List, [], ◌∷◌}
use native.Mathlib.Omega.{arith}
use frugen.Common.Tests.{◌==◌, all_below, all_below_sound}
use frugen.Common.Lists.{All}

abbrev pub Bytes : Type 0
Bytes = List ℕ

abbrev pub IsByte : ℕ → Type 0
IsByte b = b < 256

abbrev pub IsBytes : Bytes → Type 0
IsBytes = All IsByte

-- The code points of a literal: its bytes, if it is ASCII.
abbrev pub codes : String → Bytes
codes String.[] = []
codes (String.◌∷◌ c s) = code c ∷ codes s

abbrev pub u8 : ℕ → ℕ
u8 n = n % 2 ^ 8

infixl 75 ◌<<<◌ ◌>>>◌
abbrev pub ◌<<<◌ : ℕ → ℕ → ℕ
x <<< k = x * 2 ^ k

abbrev pub ◌>>>◌ : ℕ → ℕ → ℕ
x >>> k = x / 2 ^ k

-- x & (2^k - 1)
abbrev pub low_bits : ℕ → ℕ → ℕ
low_bits x k = x % 2 ^ k

abbrev or_row : ℕ → ℕ → ℕ → Bool
or_row k q r = bit_or (q <<< k) r == q * 2 ^ k + r && bit_or r (q <<< k) == q * 2 ^ k + r

abbrev or_table : ℕ → ℕ → Bool
or_table k n = all_below n (λ q. all_below (2 ^ k) (or_row k q))

module _ (k n : ℕ) (table : or_table k n ≡ true) where
  bit_or_fields :
      (q r : ℕ)
      → q < n
      → r < 2 ^ k
      → (bit_or (q <<< k) r ≡ q * 2 ^ k + r) × (bit_or r (q <<< k) ≡ q * 2 ^ k + r)
  bit_or_fields q r hq hr =
      let both = all_below_sound (2 ^ k) (or_row k q) r (all_below_sound n _ q table hq) hr in
      (ground (arith, both), ground (arith, both))

-- `hi << k | lo` and `lo | hi << k`, where `lo` has `k` bits, at the splits that the codecs use.
pub bit_or_four : (q r : ℕ) → q < 16 → r < 16 → bit_or (q * 16) r ≡ q * 16 + r
bit_or_four q r hq hr = (bit_or_fields 4 16 refl q r hq hr).0

pub bit_or_six : (q r : ℕ) → q < 4 → r < 64 → bit_or (q * 64) r ≡ q * 64 + r
bit_or_six q r hq hr = (bit_or_fields 6 4 refl q r hq hr).0

pub low_or_two : (q r : ℕ) → q < 256 → r < 4 → bit_or r (q * 4) ≡ q * 4 + r
low_or_two q r hq hr = (bit_or_fields 2 256 refl q r hq hr).1

pub low_or_four : (q r : ℕ) → q < 256 → r < 16 → bit_or r (q * 16) ≡ q * 16 + r
low_or_four q r hq hr = (bit_or_fields 4 256 refl q r hq hr).1

pub low_or_six : (q r : ℕ) → q < 4 → r < 64 → bit_or r (q * 64) ≡ q * 64 + r
low_or_six q r hq hr = (bit_or_fields 6 4 refl q r hq hr).1

pub zero-bit_or : (r : ℕ) → r < 256 → bit_or 0 r ≡ r
zero-bit_or r hr = (bit_or_fields 8 1 refl 0 r (omega arith) hr).0 ∙ omega arith
