-- ===== src/Field/Bcd.antt =====
-- The BCD+ codec.
use frugen.Common.{
  ℕ, suc, ◌+◌, ◌-◌, ◌/◌, ◌%◌, ◌<◌, ◌≤◌, ◌≡◌, ◌∙◌, ◌⊎◌, inl, inr, refl, sym, ap, ap₂, arith,
  low_bits, some, [], ◌∷◌, ◌++◌, Bytes, length, All, bit_or_four, bit_or, if◌then◌else◌, ◌==◌, u8,
  ◌<<<◌,
}
use frugen.Errno.{FruErrno, ok, ◌>>=◌}
use frugen.Field.Decode.{bcd_char, bcd_chars, cut_tail, decode_bcdplus, decode_as, decode_field}
use frugen.Field.Encode.{bcd_value, bcd_pack, encode_bcdplus, file_field}
use frugen.Field.{make_typelen, type_bcdplus, fe_bcdplus}
use frugen.Field.Typelen.{
  in_buffer_lem, truncate_lem, read-file_field, low_bits-make_typelen, enc_of_bcdplus,
  decode_field_lem,
}

-- The characters of BCD+: digits, space, dash and period.
abbrev pub IsBcdChar : ℕ → Type 0
IsBcdChar c = (c ≡ b' ') ⊎ (c ≡ b'-') ⊎ (c ≡ b'.') ⊎ ((b'0' ≤ c) × (c ≤ b'9'))

-- The nibble of such a character.
abbrev pub nibble : ℕ → ℕ
nibble c = if c == b' ' then 0xa else if c == b'-' then 0xb else if c == b'.' then 0xc else c - b'0'

pub bcd_value_lem :
    (c : ℕ) (e : FruErrno)
    → IsBcdChar c
    → (bcd_value c e ≡ ok (nibble c) e) × (nibble c < 16) × (bcd_char (nibble c) ≡ c)
unfolding bcd_value bcd_char
bcd_value_lem c e (inl h) = (ground arith, ground arith, ground arith)
bcd_value_lem c e (inr (inl h)) = (ground arith, ground arith, ground arith)
bcd_value_lem c e (inr (inr (inl h))) = (ground arith, ground arith, ground arith)
bcd_value_lem c e (inr (inr (inr h))) = (ground arith, ground arith, ground arith)

-- The text that a BCD+ field holds for a string: at an odd length, a last character that stands
-- where the encoder's second nibble was left from the pair before (from `p` if there is none).
abbrev pub paired : ℕ → Bytes → Bytes
paired p [] = []
paired p (a ∷ []) = a ∷ p ∷ []
paired p (a ∷ b ∷ s) = a ∷ b ∷ paired b s

pub paired_even : (p : ℕ) (s : Bytes) → length s % 2 ≡ 0 → paired p s ≡ s
paired_even p [] h = refl
paired_even p (a ∷ []) h = absurd (omega arith)
paired_even p (a ∷ b ∷ s) h = ap (λ t. a ∷ b ∷ t) (paired_even b s (omega arith))

pub paired_odd :
    (p : ℕ) (t : Bytes) (a b c : ℕ)
    → length t % 2 ≡ 0
    → paired p (t ++ a ∷ b ∷ c ∷ []) ≡ t ++ a ∷ b ∷ c ∷ b ∷ []
paired_odd p [] a b c h = refl
paired_odd p (x ∷ []) a b c h = absurd (omega arith)
paired_odd p (x ∷ y ∷ t) a b c h = ap (λ s. x ∷ y ∷ s) (paired_odd y t a b c (omega arith))

-- The two characters that a byte of two nibbles stands for.
byte_chars :
    (x y : ℕ)
    → x < 16
    → y < 16
    → bcd_chars (u8 (bit_or (x <<< 4) y) ∷ []) ≡ bcd_char x ∷ bcd_char y ∷ []
unfolding bcd_chars
byte_chars x y hx hy =
    rw (bit_or_four x y hx hy)
      (ap₂ (λ h l. bcd_char h ∷ bcd_char l ∷ []) (omega arith) (omega arith))

bcd_chars-cons : (b : ℕ) (bs : Bytes) → bcd_chars (b ∷ bs) ≡ bcd_chars (b ∷ []) ++ bcd_chars bs
unfolding bcd_chars
bcd_chars-cons b bs = refl

-- On characters of BCD+ that fit the buffer, the loop fills it with the nibbles of the text.
bcd_pack_lem :
    (k c1 p : ℕ) (s : Bytes) (e : FruErrno)
    → All IsBcdChar s
    → c1 < 16
    → bcd_char c1 ≡ p
    → k + (length s + 1) / 2 ≤ 63
    → (bytes : Bytes) × (bcd_pack k c1 s e ≡ ok bytes e)
      × (bcd_chars bytes ≡ paired p s)
      × (length bytes ≡ (length s + 1) / 2)
unfolding bcd_pack
bcd_pack_lem k c1 p [] e hs hc hp fits = ([], refl, unfold bcd_chars in refl, omega arith)
bcd_pack_lem k c1 p (a ∷ []) e hs hc hp fits =
    let (value, small, char) = bcd_value_lem a e hs.0 in
    (
      u8 (bit_or (nibble a <<< 4) c1) ∷ [],
      rw value (rw (in_buffer_lem k (omega arith)) refl),
      byte_chars (nibble a) c1 small hc ∙ ap₂ (λ h l. h ∷ l ∷ []) char hp,
      omega arith,
    )
bcd_pack_lem k c1 p (a ∷ b ∷ s) e (ha, (hb, hs)) hc hp fits =
    let (value, small, char) = bcd_value_lem a e ha in
    let (value', small', char') = bcd_value_lem b e hb in
    let (bytes, run, chars, len) =
      bcd_pack_lem (suc k) (nibble b) b s e hs small' char' (omega arith) in
    (
      u8 (bit_or (nibble a <<< 4) (nibble b)) ∷ bytes,
      rw value (rw (in_buffer_lem k (omega arith)) (rw value' (rw run refl))),
      bcd_chars-cons _ bytes
          ∙ rw (byte_chars (nibble a) (nibble b) small small') (rw (char, char', chars) refl),
      omega arith,
    )

module _ (s : Bytes) (e : FruErrno) (chars : All IsBcdChar s) (short : length s ≤ 126) where
  abbrev bcd_length : ℕ
  bcd_length = (length s + 1) / 2

  encode_bcdplus_lem :
      (bytes : Bytes) × (encode_bcdplus s e
        ≡ ok (file_field (make_typelen type_bcdplus bcd_length) bytes) e)
      × (bcd_chars bytes ≡ paired b'0' s)
      × (length bytes ≡ bcd_length)
  unfolding encode_bcdplus
  encode_bcdplus_lem =
      let (bytes, run, text, len) =
        bcd_pack_lem 0 0 b'0' s e chars (omega arith) (unfold bcd_char in refl) (omega arith) in
      (bytes, rw (truncate_lem bcd_length e (omega arith)) (rw run refl), text, len)

  -- What is decoded from the field that a BCD+ string is encoded to.
  pub decode-encode_bcdplus :
      (encode_bcdplus s >>= λ f. decode_field (some f)) e
      ≡ ok (record { enc = fe_bcdplus; val = cut_tail (paired b'0' s) }) e
  decode-encode_bcdplus =
      let (bytes, run, text, len) = encode_bcdplus_lem in
      let fits : bcd_length < 64 = omega arith in
      let typelen : ℕ = make_typelen type_bcdplus bcd_length in
      let size : length bytes ≡ low_bits typelen 6 =
        len ∙ sym (low_bits-make_typelen type_bcdplus bcd_length (omega arith) fits) in
      let decoded : decode_bcdplus (file_field typelen bytes) e ≡ ok (cut_tail (paired b'0' s)) e =
        unfold decode_bcdplus in rw (read-file_field typelen bytes e size) (rw text refl) in
      rw run (
        decode_field_lem (file_field typelen bytes) fe_bcdplus _ e (enc_of_bcdplus bcd_length fits)
          refl (unfold decode_as in decoded))
