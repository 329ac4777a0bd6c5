-- ===== src/Custom/Checksum.antt =====
-- What the checksum of lib/fru_common.c guarantees.
use frugen.Common.{ℕ, ◌+◌, ◌%◌, ◌<◌, ◌≡◌, ◌≢◌, refl, [], ◌∷◌, ◌++◌, Bytes, u8, arith, IsByte}
use frugen.Custom.{sum_bytes, calc_checksum}

pub sum_bytes-append :
    (c : ℕ) (xs ys : Bytes) → sum_bytes c (xs ++ ys) ≡ sum_bytes (sum_bytes c xs) ys
unfolding sum_bytes
sum_bytes-append c [] ys = refl
sum_bytes-append c (x ∷ xs) ys = sum_bytes-append (u8 (c + x)) xs ys

pub sum_bytes-lt : (c : ℕ) (xs : Bytes) → c < 256 → sum_bytes c xs < 256
unfolding sum_bytes
sum_bytes-lt c [] h = h
sum_bytes-lt c (x ∷ xs) h = sum_bytes-lt (u8 (c + x)) xs (omega arith)

-- The loop, started elsewhere, differs by the start.
sum_bytes_shift : (c : ℕ) (xs : Bytes) → c < 256 → sum_bytes c xs ≡ (c + sum_bytes 0 xs) % 256
unfolding sum_bytes
sum_bytes_shift c [] h = omega arith
sum_bytes_shift c (x ∷ xs) h = omega (
  arith,
  sum_bytes_shift (u8 (c + x)) xs (omega arith),
  sum_bytes_shift (u8 (0 + x)) xs (omega arith),
)

-- Data with its checksum appended have the checksum zero.
pub calc_checksum_appended : (bytes : Bytes) → calc_checksum (bytes ++ calc_checksum bytes ∷ []) ≡ 0
unfolding calc_checksum sum_bytes
calc_checksum_appended bytes =
    rw (sum_bytes-append 0 bytes (calc_checksum bytes ∷ []))
      (omega (arith, sum_bytes-lt 0 bytes (omega arith)))

-- Data that differ in the value of one byte have different checksums.
pub calc_checksum_detects :
    (xs ys : Bytes) (b c : ℕ)
    → IsByte b
    → IsByte c
    → b ≢ c
    → calc_checksum (xs ++ b ∷ ys) ≢ calc_checksum (xs ++ c ∷ ys)
unfolding calc_checksum sum_bytes
calc_checksum_detects xs ys b c hb hc differ = λ same.
    let eq_b = sum_bytes-append 0 xs (b ∷ ys) in
    let eq_c = sum_bytes-append 0 xs (c ∷ ys) in
    let start = sum_bytes-lt 0 xs (omega arith) in
    let sum_b = sum_bytes_shift (u8 (sum_bytes 0 xs + b)) ys (omega arith) in
    let sum_c = sum_bytes_shift (u8 (sum_bytes 0 xs + c)) ys (omega arith) in
    let rest = sum_bytes-lt 0 ys (omega arith) in omega arith
