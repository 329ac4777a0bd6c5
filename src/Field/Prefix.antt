-- ===== src/Field/Prefix.antt =====
-- `fru__decode_field` makes the same of a field whatever lies behind it in memory, and whatever the
-- error is before the call.
use frugen.Common.{
  ℕ, zero, suc, ◌+◌, ◌*◌, ◌≤◌, ◌≡◌, refl, ap, arith, some, [], ◌∷◌, ◌++◌, Bytes, length, low_bits,
  length-append, take, take-append, take_all, leb, ltb, ◌==◌, ◌&&◌, not, true, false, inl, inr,
  Bool-cases,
}
use frugen.Errno.{FruErrno, ok, Outcome, bind_outcome, bind-eq-ok, pure}
use frugen.Hex.Convert.{decode_raw_lem}
use frugen.Field.{
  FieldEnc, fe_binary, fe_bcdplus, fe_6bitascii, fe_text, is_real, Field, FileField, enc_of_typelen,
  Phase, first, second, third, fourth, six_bit_full_length,
}
use frugen.Field.Decode.{
  cut_tail, read_data, decode_binary, decode_bcdplus, unpack, decode_6bit, decode_text, decode_as,
  decode_field,
}
use frugen.Field.Safety.{is_real-enc_of_typelen}

add_char :
    (o o' : Outcome Bytes) (c : ℕ) {v : Bytes} {e0 : FruErrno} (e : FruErrno)
    → bind_outcome o (λ rest. pure (c ∷ rest)) ≡ ok v e0
    → ((w : Bytes) (e1 : FruErrno) → o ≡ ok w e1 → o' ≡ ok w e)
    → bind_outcome o' (λ rest. pure (c ∷ rest)) ≡ ok v e
add_char o o' c e h more =
    let (w, e1, run, same) = bind-eq-ok o (λ rest. pure (c ∷ rest)) h in
    rw (more w e1 run, bind_outcome) (cc)

-- Behind the announced length nothing is read.
unpack_past :
    (len6bit n : ℕ) (phase : Phase) (i6 : ℕ) (s : Bytes) (e : FruErrno)
    → leb i6 len6bit ≡ false
    → unpack len6bit (suc n) phase i6 s e ≡ ok [] e
unfolding unpack
unpack_past len6bit n phase i6 [] e h = rw h refl
unpack_past len6bit n first i6 (x ∷ s) e h = rw (h, unpack) refl
unpack_past len6bit n second i6 (x ∷ s) e h = rw (h, unpack) refl
unpack_past len6bit n third i6 (x ∷ s) e h = rw (h, unpack) refl
unpack_past len6bit n fourth i6 (x ∷ s) e h = rw (h, unpack) refl

-- The loop of decode_6bit, where it ends inside `s`.
unpack_more :
    (len6bit n : ℕ) (phase : Phase) (i6 : ℕ) (s rest : Bytes) (e e0 : FruErrno) {v : Bytes}
    {e1 : FruErrno}
    → unpack len6bit n phase i6 s e0 ≡ ok v e1
    → unpack len6bit n phase i6 (s ++ rest) e ≡ ok v e
unfolding unpack
unpack_more len6bit zero phase i6 s rest e e0 h = cc
unpack_more len6bit (suc n) phase i6 [] rest e e0 h = elim (Bool-cases (leb i6 len6bit)) [
  | inl inside ↦ let stuck = rw (inside, unpack) at h in cc
  | inr past ↦
      let same = rw (past, unpack) at h in rw (unpack_past len6bit n phase i6 rest e past) (cc)
]
unpack_more len6bit (suc n) first i6 (x ∷ s6) rest e e0 h =
    elim (Bool-cases (leb i6 len6bit && not (x == 0))) [
      | inr end ↦ let same = rw (end, unpack) at h in rw (end, unpack) (cc)
      | inl more ↦
          let run = rw (more, unpack) at h in
          rw (more, unpack)
            (add_char (unpack len6bit n second i6 (x ∷ s6) e0)
              (unpack len6bit n second i6 (x ∷ s6 ++ rest) e) _ e run
              (λ w e1 here. unpack_more len6bit n second i6 (x ∷ s6) rest e e0 here))
    ]
unpack_more len6bit (suc n) second i6 (x ∷ []) rest e e0 h =
    elim (Bool-cases (leb i6 len6bit && not (x == 0))) [
      | inr end ↦ let same = rw (end, unpack) at h in rw (end, unpack) (cc)
      | inl more ↦ let stuck = rw (more, unpack) at h in cc
    ]
unpack_more len6bit (suc n) second i6 (x ∷ y ∷ s6) rest e e0 h =
    elim (Bool-cases (leb i6 len6bit && not (x == 0))) [
      | inr end ↦ let same = rw (end, unpack) at h in rw (end, unpack) (cc)
      | inl more ↦
          let run = rw (more, unpack) at h in
          rw (more, unpack)
            (add_char (unpack len6bit n third (suc i6) (y ∷ s6) e0)
              (unpack len6bit n third (suc i6) (y ∷ s6 ++ rest) e) _ e run
              (λ w e1 here. unpack_more len6bit n third (suc i6) (y ∷ s6) rest e e0 here))
    ]
unpack_more len6bit (suc n) third i6 (x ∷ []) rest e e0 h =
    elim (Bool-cases (leb i6 len6bit && not (x == 0))) [
      | inr end ↦ let same = rw (end, unpack) at h in rw (end, unpack) (cc)
      | inl more ↦ let stuck = rw (more, unpack) at h in cc
    ]
unpack_more len6bit (suc n) third i6 (x ∷ y ∷ s6) rest e e0 h =
    elim (Bool-cases (leb i6 len6bit && not (x == 0))) [
      | inr end ↦ let same = rw (end, unpack) at h in rw (end, unpack) (cc)
      | inl more ↦
          let run = rw (more, unpack) at h in
          rw (more, unpack)
            (add_char (unpack len6bit n fourth (suc i6) (y ∷ s6) e0)
              (unpack len6bit n fourth (suc i6) (y ∷ s6 ++ rest) e) _ e run
              (λ w e1 here. unpack_more len6bit n fourth (suc i6) (y ∷ s6) rest e e0 here))
    ]
unpack_more len6bit (suc n) fourth i6 (x ∷ s6) rest e e0 h =
    elim (Bool-cases (leb i6 len6bit && not (x == 0))) [
      | inr end ↦ let same = rw (end, unpack) at h in rw (end, unpack) (cc)
      | inl more ↦
          let run = rw (more, unpack) at h in
          rw (more, unpack)
            (add_char (unpack len6bit n first (suc i6) s6 e0)
              (unpack len6bit n first (suc i6) (s6 ++ rest) e) _ e run
              (λ w e1 here. unpack_more len6bit n first (suc i6) s6 rest e e0 here))
    ]

read_lem :
    (f : FileField) (p : Bytes) (e : FruErrno)
    → low_bits f.typelen 6 ≤ length f.payload
    → take (low_bits f.typelen 6) f.payload ≡ p
    → read_data f e ≡ ok p e
unfolding read_data
read_lem f p e enough front =
    let room : ltb (length f.payload) (low_bits f.typelen 6) ≡ false = ground arith in
    rw (room, front) refl

module _ (t : ℕ) (p : Bytes) (size : length p ≡ low_bits t 6) (rest : Bytes) (e e0 : FruErrno) where
  abbrev exact : FileField
  exact = record { typelen = t; payload = p }

  abbrev longer : FileField
  longer = record { typelen = t; payload = p ++ rest }

  read_exact : read_data exact e0 ≡ ok p e0
  read_exact = read_lem exact p e0 (omega arith) (take_all (low_bits t 6) p (omega arith))

  read_longer : read_data longer e ≡ ok p e
  read_longer =
      read_lem longer p e (omega (arith, length-append p rest)) (rw (← size) (take-append p rest))

  decode_as_more :
      (enc : FieldEnc) {v : Bytes} {e1 : FruErrno}
      → is_real enc ≡ true
      → decode_as enc exact e0 ≡ ok v e1
      → decode_as enc longer e ≡ ok v e
  unfolding decode_as decode_binary decode_bcdplus decode_text decode_6bit
  decode_as_more fe_binary real h =
      let short : length p * 2 + 1 ≤ 127 = omega arith in
      let run = rw (read_exact, bind_outcome, decode_raw_lem p 127 e0 short) at h in
      rw (read_longer, bind_outcome, decode_raw_lem p 127 e short) (cc)
  decode_as_more fe_bcdplus real h =
      let run = rw (read_exact, bind_outcome) at h in rw (read_longer, bind_outcome) (cc)
  decode_as_more fe_text real h =
      let run = rw (read_exact, bind_outcome) at h in rw (read_longer, bind_outcome) (cc)
  decode_as_more fe_6bitascii real h =
      let len6bit = low_bits t 6 in
      let n = six_bit_full_length len6bit in
      let (w, e2, run, same) =
        bind-eq-ok (unpack len6bit n first 0 p e0) (λ val. pure (cut_tail val)) h in
      rw (unpack_more len6bit n first 0 p rest e e0 run, bind_outcome) (cc)
  decode_as_more _ real h = cc

-- What a field of an exact size is decoded to, it is decoded to in front of anything.
pub decode_field_more :
    (t : ℕ) (p rest : Bytes) (d : Field) (e e0 : FruErrno) {e1 : FruErrno}
    → length p ≡ low_bits t 6
    → decode_field (some (record { typelen = t; payload = p })) e0 ≡ ok d e1
    → decode_field (some (record { typelen = t; payload = p ++ rest })) e ≡ ok d e
unfolding decode_field
decode_field_more t p rest d e e0 size h =
    let real = is_real-enc_of_typelen t in
    let enc = enc_of_typelen t in
    let make : Bytes → Field = λ val. record { enc = enc; val = val } in
    let exact : FileField = record { typelen = t; payload = p } in
    let guarded = rw real at h in
    let (v, e2, run, same) = bind-eq-ok (decode_as enc exact e0) (λ val. pure (make val)) guarded in
    let run' = decode_as_more t p size rest e e0 enc real run in
    let is_d : make v ≡ d = cc in rw (real, run', bind_outcome) (ap (λ x. ok x e) is_d)
