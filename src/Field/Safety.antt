-- ===== src/Field/Safety.antt =====
-- `fru__decode_field` reads only the bytes that the type/length byte announces, and its text fits
-- the value of a field.
use frugen.Common.{
  ℕ, zero, suc, ◌+◌, ◌-◌, ◌*◌, ◌/◌, ◌≤◌, ◌≡◌, refl, arith, some, [], ◌∷◌, Bytes, length, low_bits,
  length-take, take, leb, ◌==◌, ◌&&◌, not, true, inl, inr, Bool-cases,
}
use frugen.Errno.{FruErrno, ok, Outcome, bind_outcome}
use frugen.Hex.{write_hex}
use frugen.Hex.Convert.{decode_raw_lem, length-write_hex}
use frugen.Field.{
  FieldEnc, fe_binary, fe_bcdplus, fe_6bitascii, fe_text, is_real, Field, FileField, enc_of_typelen,
  Phase, first, second, third, fourth, six_bit_full_length,
}
use frugen.Field.Decode.{
  cut_tail, c_string, read_data, decode_binary, bcd_chars, decode_bcdplus, unpack, decode_6bit,
  decode_text, decode_as, decode_field,
}
use frugen.Field.Typelen.{decode_field_lem}

-- A call that returns a text of at most `n` characters and sets no error.
abbrev Returns : ℕ → Outcome Bytes → FruErrno → Type 0
Returns n out e = (s : Bytes) × (out ≡ ok s e) × (length s ≤ n)

length-cut_tail : (s : Bytes) → length (cut_tail s) ≤ length s
unfolding cut_tail
length-cut_tail [] = omega arith
length-cut_tail (c ∷ s) = ground (arith, length-cut_tail s)

length-c_string : (s : Bytes) → length (c_string s) ≤ length s
unfolding c_string
length-c_string [] = omega arith
length-c_string (c ∷ s) = ground (arith, length-c_string s)

length-bcd_chars : (s : Bytes) → length (bcd_chars s) ≡ length s * 2
unfolding bcd_chars
length-bcd_chars [] = refl
length-bcd_chars (c ∷ s) = omega (arith, length-bcd_chars s)

-- What the rounds left may use, when `m` bytes are left from `i6` on.
abbrev Enough : Phase → ℕ → ℕ → Type 0
Enough first n m = n ≤ m * 4 / 3
Enough second n m = n + 1 ≤ m * 4 / 3
Enough third n m = n + 2 ≤ (m + 1) * 4 / 3
Enough fourth n m = n + 3 ≤ (m + 2) * 4 / 3

add_char :
    (o : Outcome Bytes) (c n : ℕ) (e : FruErrno)
    → Returns n o e
    → Returns (suc n) (bind_outcome o (λ rest. ok (c ∷ rest))) e
add_char o c n e (s, run, short) = (c ∷ s, rw run refl, omega arith)

stop : (n : ℕ) (e : FruErrno) → Returns n (ok [] e) e
stop n e = ([], refl, omega arith)

-- The loop of decode_6bit reads no byte beyond the `m` that it has.
unpack_safe :
    (len6bit n : ℕ) (phase : Phase) (i6 m : ℕ) (s6 : Bytes) (e : FruErrno)
    → Enough phase n m
    → m ≤ length s6
    → Returns n (unpack len6bit n phase i6 s6 e) e
unfolding unpack
unpack_safe len6bit zero phase i6 m s6 e enough size = stop 0 e
unpack_safe len6bit (suc n) first i6 m [] e enough size = absurd (omega arith)
unpack_safe len6bit (suc n) second i6 m [] e enough size = absurd (omega arith)
unpack_safe len6bit (suc n) third i6 m [] e enough size = absurd (omega arith)
unpack_safe len6bit (suc n) fourth i6 m [] e enough size = absurd (omega arith)
unpack_safe len6bit (suc n) first i6 m (x ∷ s6) e enough size =
    elim (Bool-cases (leb i6 len6bit && not (x == 0))) [
      | inr end ↦ rw (end, unpack) (stop (suc n) e)
      | inl more ↦
          rw (more, unpack)
            (add_char _ _ n e (unpack_safe len6bit n second i6 m (x ∷ s6) e (omega arith) size))
    ]
unpack_safe len6bit (suc n) second i6 m (x ∷ []) e enough size = absurd (omega arith)
unpack_safe len6bit (suc n) second i6 m (x ∷ y ∷ s6) e enough size =
    elim (Bool-cases (leb i6 len6bit && not (x == 0))) [
      | inr end ↦ rw (end, unpack) (stop (suc n) e)
      | inl more ↦
          rw (more, unpack)
            (add_char _ _ n e
              (unpack_safe len6bit n third (suc i6) (m - 1) (y ∷ s6) e (omega arith) (omega arith)))
    ]
unpack_safe len6bit (suc n) third i6 m (x ∷ []) e enough size = absurd (omega arith)
unpack_safe len6bit (suc n) third i6 m (x ∷ y ∷ s6) e enough size =
    elim (Bool-cases (leb i6 len6bit && not (x == 0))) [
      | inr end ↦ rw (end, unpack) (stop (suc n) e)
      | inl more ↦
          rw (more, unpack)
            (add_char _ _ n e (
              unpack_safe len6bit n fourth (suc i6) (m - 1) (y ∷ s6) e (omega arith) (omega arith)))
    ]
unpack_safe len6bit (suc n) fourth i6 m (x ∷ s6) e enough size =
    elim (Bool-cases (leb i6 len6bit && not (x == 0))) [
      | inr end ↦ rw (end, unpack) (stop (suc n) e)
      | inl more ↦
          rw (more, unpack)
            (add_char _ _ n e
              (unpack_safe len6bit n first (suc i6) (m - 1) s6 e (omega arith) (omega arith)))
    ]

pub is_real-enc_of_typelen : (t : ℕ) → is_real (enc_of_typelen t) ≡ true
is_real-enc_of_typelen t = ground arith

module _ (f : FileField) (e : FruErrno) (present : low_bits f.typelen 6 ≤ length f.payload) where
  abbrev len : ℕ
  len = low_bits f.typelen 6

  read_safe : read_data f e ≡ ok (take len f.payload) e
  unfolding read_data
  read_safe = ground arith

  length-read : length (take len f.payload) ≤ 63
  length-read = omega (arith, length-take len f.payload)

  decode_as_safe : (enc : FieldEnc) → is_real enc ≡ true → Returns 126 (decode_as enc f e) e
  unfolding decode_as
  decode_as_safe fe_binary h =
      let bytes = take len f.payload in
      (
        write_hex bytes,
        unfold decode_binary in
            rw read_safe (decode_raw_lem bytes 127 e (omega (arith, length-read))),
        omega (arith, length-write_hex bytes, length-read),
      )
  decode_as_safe fe_bcdplus h = (
    cut_tail (bcd_chars (take len f.payload)),
    unfold decode_bcdplus in rw read_safe refl,
    omega (
      arith,
      length-cut_tail (bcd_chars (take len f.payload)),
      length-bcd_chars (take len f.payload),
      length-read,
    ),
  )
  decode_as_safe fe_6bitascii h =
      let (s, run, short) =
        unpack_safe len (six_bit_full_length len) first 0 len f.payload e (omega arith) present in
      (cut_tail s, unfold decode_6bit in rw run refl, omega (arith, length-cut_tail s))
  decode_as_safe fe_text h = (
    c_string (take len f.payload),
    unfold decode_text in rw read_safe refl,
    omega (arith, length-c_string (take len f.payload), length-read),
  )
  decode_as_safe _ h = cc

  -- When the bytes that a field's type/length byte announces are there, `fru__decode_field`
  -- succeeds with the encoding of that byte, reads nothing beyond them, sets no error, and the
  -- text it stores leaves room for its NUL in the 127 bytes of a field's value.
  pub decode_field_safe :
      (d : Field) × (decode_field (some f) e ≡ ok d e)
      × (d.enc ≡ enc_of_typelen f.typelen)
      × (length d.val ≤ 126)
  decode_field_safe =
      let enc = enc_of_typelen f.typelen in
      let (val, run, short) = decode_as_safe enc (is_real-enc_of_typelen f.typelen) in
      (
        record { enc = enc; val = val },
        decode_field_lem f enc val e refl (is_real-enc_of_typelen f.typelen) run,
        refl,
        short,
      )
