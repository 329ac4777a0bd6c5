-- ===== src/Field/SixBit/Pack.antt =====
-- What the loop of encode_6bit writes.
use frugen.Common.{
  ℕ, suc, ◌+◌, ◌-◌, ◌*◌, ◌/◌, ◌%◌, ◌<◌, ◌≤◌, ◌≡◌, refl, ap, arith, [], ◌∷◌, Bytes, length, All,
  low_or_two, low_or_four, low_or_six, lt→ltb, u8, low_bits, bit_or, ◌<<<◌,
}
use frugen.Errno.{FruErrno, ok}
use frugen.Field.{Phase, first, second, third, fourth}
use frugen.Field.Encode.{six_value, pack, pending}
use frugen.Field.Typelen.{in_buffer_lem}

-- The characters of 6-bit ASCII: 0x20 to 0x5F.
abbrev pub IsSixBitChar : ℕ → Type 0
IsSixBitChar c = (32 ≤ c) × (c ≤ 95)

-- The bytes that a text is packed into, from a phase on and with the bits that the byte under way
-- already holds.
abbrev pub packed : Phase → ℕ → Bytes → Bytes
packed phase cur [] = pending phase cur
packed first cur (c ∷ s) = packed second (c - 32) s
packed second cur (c ∷ s) = ((c - 32) % 4 * 64 + cur) ∷ packed third ((c - 32) / 4) s
packed third cur (c ∷ s) = ((c - 32) % 16 * 16 + cur) ∷ packed fourth ((c - 32) / 16) s
packed fourth cur (c ∷ s) = ((c - 32) * 4 + cur) ∷ packed first 0 s

pub length-packed : (s : Bytes) → length (packed first 0 s) ≡ (length s * 3 + 3) / 4
length-packed [] = omega arith
length-packed (a ∷ []) = omega arith
length-packed (a ∷ b ∷ []) = omega arith
length-packed (a ∷ b ∷ c ∷ []) = omega arith
length-packed (a ∷ b ∷ c ∷ d ∷ s) = omega (arith, length-packed s)

six_value_lem : (c : ℕ) (e : FruErrno) → IsSixBitChar c → six_value c e ≡ ok (c - 32) e
unfolding six_value
six_value_lem c e h = ground arith

-- How many bits of the byte under way are used.
abbrev room : Phase → ℕ
room first = 1
room second = 64
room third = 16
room fourth = 4

-- A byte is still to be written.
packed-pos : (phase : Phase) (cur c : ℕ) (s : Bytes) → 1 ≤ length (packed phase cur (c ∷ s))
packed-pos first cur c [] = omega arith
packed-pos first cur c (d ∷ s) = omega arith
packed-pos second cur c s = omega arith
packed-pos third cur c s = omega arith
packed-pos fourth cur c s = omega arith

pending-pos_third : (cur : ℕ) (s : Bytes) → 1 ≤ length (packed third cur s)
pending-pos_third cur [] = omega arith
pending-pos_third cur (c ∷ s) = omega arith

pending-pos_fourth : (cur : ℕ) (s : Bytes) → 1 ≤ length (packed fourth cur s)
pending-pos_fourth cur [] = omega arith
pending-pos_fourth cur (c ∷ s) = omega arith

byte_second : (cur v : ℕ) → cur < 64 → u8 (bit_or cur (low_bits v 2 <<< 6)) ≡ v % 4 * 64 + cur
byte_second cur v h = omega (arith, low_or_six (v % 4) cur (omega arith) h)

byte_third : (cur v : ℕ) → cur < 16 → v < 64 → u8 (bit_or cur (v <<< 4)) ≡ v % 16 * 16 + cur
byte_third cur v h hv = omega (arith, low_or_four v cur (omega arith) h)

byte_fourth : (cur v : ℕ) → cur < 4 → v < 64 → u8 (bit_or cur (v <<< 2)) ≡ v * 4 + cur
byte_fourth cur v h hv = omega (arith, low_or_two v cur (omega arith) h)

-- The loop writes the packed text, if the buffer and the length of the field have room for it.
module _ (len6bit : ℕ) (fits : len6bit ≤ 63) where
  pub pack_lem :
      (s : Bytes) (phase : Phase) (i6 cur : ℕ) (e : FruErrno)
      → All IsSixBitChar s
      → cur < room phase
      → i6 + length (packed phase cur s) ≤ len6bit
      → pack len6bit phase i6 cur s e ≡ ok (packed phase cur s) e
  unfolding pack
  pack_lem [] phase i6 cur e h small space = refl
  pack_lem (c ∷ s) first i6 cur e (hc, hs) small space =
      let more : i6 < len6bit = omega (arith, packed-pos first cur c s) in
      rw (lt→ltb i6 len6bit more, pack)
        (rw (six_value_lem c e hc) (
          rw (in_buffer_lem i6 (omega arith))
            (pack_lem s second i6 (c - 32) e hs (omega arith) space)))
  pack_lem (c ∷ s) second i6 cur e (hc, hs) small space =
      let more : i6 < len6bit = omega arith in
      let next : suc i6 < 63 = omega (arith, pending-pos_third ((c - 32) / 4) s) in
      rw (lt→ltb i6 len6bit more, pack)
        (rw (six_value_lem c e hc) (
          rw (in_buffer_lem (suc i6) next) (
            rw (pack_lem s third (suc i6) ((c - 32) / 4) e hs (omega arith) (omega arith)) (
              ap (λ b. ok (b ∷ packed third ((c - 32) / 4) s) e)
                (byte_second cur (c - 32) small)))))
  pack_lem (c ∷ s) third i6 cur e (hc, hs) small space =
      let more : i6 < len6bit = omega arith in
      let next : suc i6 < 63 = omega (arith, pending-pos_fourth ((c - 32) / 16) s) in
      rw (lt→ltb i6 len6bit more, pack)
        (rw (six_value_lem c e hc) (
          rw (in_buffer_lem (suc i6) next) (
            rw (pack_lem s fourth (suc i6) ((c - 32) / 16) e hs (omega arith) (omega arith)) (
              ap (λ b. ok (b ∷ packed fourth ((c - 32) / 16) s) e)
                (byte_third cur (c - 32) small (omega arith))))))
  pack_lem (c ∷ s) fourth i6 cur e (hc, hs) small space =
      let more : i6 < len6bit = omega arith in
      rw (lt→ltb i6 len6bit more, pack)
        (rw (six_value_lem c e hc) (
          rw (pack_lem s first (suc i6) 0 e hs (omega arith) (omega arith))
            (ap (λ b. ok (b ∷ packed first 0 s) e) (byte_fourth cur (c - 32) small (omega arith)))))
