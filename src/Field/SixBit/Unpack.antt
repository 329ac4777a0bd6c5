-- ===== src/Field/SixBit/Unpack.antt =====
-- What the loop of decode_6bit reads from packed text.
use frugen.Common.{
  ℕ, suc, ◌+◌, ◌-◌, ◌*◌, ◌/◌, ◌%◌, ◌<◌, ◌≤◌, ◌≡◌, ◌≢◌, refl, ap, arith, [], ◌∷◌, Bytes, length, All,
  true, not, ◌&&◌, leb, ◌==◌, low_or_two, low_or_four, low_bits, get_elem?, bit_or, ◌<<<◌, ◌>>>◌,
}
use frugen.Errno.{FruErrno, ok}
use frugen.Field.{first, second, third, fourth}
use frugen.Field.Decode.{six_char, unpack, cut_tail}
use frugen.Field.SixBit.Pack.{IsSixBitChar, packed}

abbrev pub NonZero : Bytes → Type 0
NonZero = All (λ b. b ≢ 0)

-- The rounds that the decoder makes on the packed form of a text.
abbrev pub rounds : ℕ → ℕ
rounds len = (len * 3 + 3) / 4 * 4 / 3

-- The text that they read: behind three characters, the spare bits are a space.
abbrev pub filled : Bytes → Bytes
filled [] = []
filled (a ∷ []) = a ∷ []
filled (a ∷ b ∷ []) = a ∷ b ∷ []
filled (a ∷ b ∷ c ∷ []) = a ∷ b ∷ c ∷ b' ' ∷ []
filled (a ∷ b ∷ c ∷ d ∷ s) = a ∷ b ∷ c ∷ d ∷ filled s

pub cut_tail-filled : (s : Bytes) → cut_tail (filled s) ≡ cut_tail s
unfolding cut_tail
cut_tail-filled [] = refl
cut_tail-filled (a ∷ []) = refl
cut_tail-filled (a ∷ b ∷ []) = refl
cut_tail-filled (a ∷ b ∷ c ∷ []) = refl
cut_tail-filled (a ∷ b ∷ c ∷ d ∷ s) = rw (cut_tail-filled s) refl

go_on : (i6 len6bit x : ℕ) → i6 ≤ len6bit → x ≢ 0 → (leb i6 len6bit && not (x == 0)) ≡ true
go_on i6 len6bit x h hx = ground arith

-- A character from the bits of a byte, or of two.
char_first : (x c : ℕ) → x % 64 ≡ c - 32 → IsSixBitChar c → six_char (low_bits x 6) ≡ c
unfolding six_char
char_first x c h hc = omega arith

char_second :
    (x y c : ℕ)
    → x < 256
    → y < 256
    → x / 64 ≡ (c - 32) % 4
    → y % 16 ≡ (c - 32) / 4
    → IsSixBitChar c
    → six_char (bit_or (x >>> 6) (y <<< 2)) ≡ c
unfolding six_char
char_second x y c hx hy lo hi hc = omega (arith, low_or_two y (x / 64) hy (omega arith))

char_third :
    (x y c : ℕ)
    → x < 256
    → y < 256
    → x / 16 ≡ (c - 32) % 16
    → y % 4 ≡ (c - 32) / 16
    → IsSixBitChar c
    → six_char (bit_or (x >>> 4) (y <<< 4)) ≡ c
unfolding six_char
char_third x y c hx hy lo hi hc = omega (arith, low_or_four y (x / 16) hy (omega arith))

char_fourth : (x c : ℕ) → x / 4 ≡ c - 32 → IsSixBitChar c → six_char (x >>> 2) ≡ c
unfolding six_char
char_fourth x c h hc = omega arith

-- A round of the loop, with the text that the rounds behind it read.
module _ (len6bit n i6 x c : ℕ) (s6 rest : Bytes) (e : FruErrno) (inside : i6 ≤ len6bit)
    (pos : x ≢ 0) where
  read_first :
      six_char (low_bits x 6) ≡ c
      → unpack len6bit n second i6 (x ∷ s6) e ≡ ok rest e
      → unpack len6bit (suc n) first i6 (x ∷ s6) e ≡ ok (c ∷ rest) e
  unfolding unpack
  read_first char run = rw (go_on i6 len6bit x inside pos, unpack) (rw run (rw char refl))

  read_second :
      (y : ℕ) (t : Bytes)
      → s6 ≡ y ∷ t
      → six_char (bit_or (x >>> 6) (y <<< 2)) ≡ c
      → unpack len6bit n third (suc i6) s6 e ≡ ok rest e
      → unpack len6bit (suc n) second i6 (x ∷ s6) e ≡ ok (c ∷ rest) e
  unfolding unpack
  read_second y t head char run =
      rw (go_on i6 len6bit x inside pos, unpack)
        (rw (ap (λ l. get_elem? l 0) head) (rw run (rw char refl)))

  read_third :
      (y : ℕ) (t : Bytes)
      → s6 ≡ y ∷ t
      → six_char (bit_or (x >>> 4) (y <<< 4)) ≡ c
      → unpack len6bit n fourth (suc i6) s6 e ≡ ok rest e
      → unpack len6bit (suc n) third i6 (x ∷ s6) e ≡ ok (c ∷ rest) e
  unfolding unpack
  read_third y t head char run =
      rw (go_on i6 len6bit x inside pos, unpack)
        (rw (ap (λ l. get_elem? l 0) head) (rw run (rw char refl)))

  read_fourth :
      six_char (x >>> 2) ≡ c
      → unpack len6bit n first (suc i6) s6 e ≡ ok rest e
      → unpack len6bit (suc n) fourth i6 (x ∷ s6) e ≡ ok (c ∷ rest) e
  unfolding unpack
  read_fourth char run = rw (go_on i6 len6bit x inside pos, unpack) (rw run (rw char refl))

module _ (len6bit : ℕ) where
  pub unpack_lem :
      (s : Bytes) (i6 : ℕ) (e : FruErrno)
      → All IsSixBitChar s
      → NonZero (packed first 0 s)
      → i6 + (length s * 3 + 3) / 4 ≤ len6bit
      → unpack len6bit (rounds (length s)) first i6 (packed first 0 s) e ≡ ok (filled s) e
  unpack_lem [] i6 e h nz fits = unfold unpack in refl
  unpack_lem (a ∷ []) i6 e (ha, _) nz fits =
      read_first len6bit 0 i6 (a - 32) a [] [] e (omega arith) nz.0
        (char_first (a - 32) a (omega arith) ha) (unfold unpack in refl)
  unpack_lem (a ∷ b ∷ []) i6 e (ha, (hb, _)) (nx, (ny, _)) fits =
      let x : ℕ = (b - 32) % 4 * 64 + (a - 32) in
      let y : ℕ = (b - 32) / 4 in
      read_first len6bit 1 i6 x a (y ∷ []) (b ∷ []) e (omega arith) nx
        (char_first x a (omega arith) ha)
        (read_second len6bit 0 i6 x b (y ∷ []) [] e (omega arith) nx y [] refl
          (char_second x y b (omega arith) (omega arith) (omega arith) (omega arith) hb)
          (unfold unpack in refl))
  unpack_lem (a ∷ b ∷ c ∷ []) i6 e (ha, (hb, (hc, _))) (nx, (ny, (nz, _))) fits =
      let x : ℕ = (b - 32) % 4 * 64 + (a - 32) in
      let y : ℕ = (c - 32) % 16 * 16 + (b - 32) / 4 in
      let z : ℕ = (c - 32) / 16 in
      read_first len6bit 3 i6 x a (y ∷ z ∷ []) (b ∷ c ∷ b' ' ∷ []) e (omega arith) nx
        (char_first x a (omega arith) ha)
        (read_second len6bit 2 i6 x b (y ∷ z ∷ []) (c ∷ b' ' ∷ []) e (omega arith) nx y (z ∷ [])
          refl (char_second x y b (omega arith) (omega arith) (omega arith) (omega arith) hb)
          (read_third len6bit 1 (suc i6) y c (z ∷ []) (b' ' ∷ []) e (omega arith) ny z [] refl
            (char_third y z c (omega arith) (omega arith) (omega arith) (omega arith) hc)
            (read_fourth len6bit 0 (suc (suc i6)) z b' ' [] [] e (omega arith) nz
              (char_fourth z b' ' (omega arith) (omega arith)) (unfold unpack in refl))))
  unpack_lem (a ∷ b ∷ c ∷ d ∷ s) i6 e (ha, (hb, (hc, (hd, hs)))) (nx, (ny, (nz, nzs))) fits =
      let x : ℕ = (b - 32) % 4 * 64 + (a - 32) in
      let y : ℕ = (c - 32) % 16 * 16 + (b - 32) / 4 in
      let z : ℕ = (d - 32) * 4 + (c - 32) / 16 in
      let more : Bytes = packed first 0 s in
      let n : ℕ = rounds (length s) in
      let four : rounds (length (a ∷ b ∷ c ∷ d ∷ s)) ≡ suc (suc (suc (suc n))) = omega arith in
      rw four (
        read_first len6bit (suc (suc (suc n))) i6 x a (y ∷ z ∷ more) (b ∷ c ∷ d ∷ filled s) e
          (omega arith) nx (char_first x a (omega arith) ha)
          (read_second len6bit (suc (suc n)) i6 x b (y ∷ z ∷ more) (c ∷ d ∷ filled s) e
            (omega arith) nx y (z ∷ more) refl
            (char_second x y b (omega arith) (omega arith) (omega arith) (omega arith) hb)
            (read_third len6bit (suc n) (suc i6) y c (z ∷ more) (d ∷ filled s) e (omega arith) ny z
              more refl
              (char_third y z c (omega arith) (omega arith) (omega arith) (omega arith) hc)
              (read_fourth len6bit n (suc (suc i6)) z d more (filled s) e (omega arith) nz
                (char_fourth z d (omega arith) hd)
                (unpack_lem s (suc (suc (suc i6))) e hs nzs (omega arith))))))
