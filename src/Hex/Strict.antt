-- ===== src/Hex/Strict.antt =====
-- What the strict mode of `fru__hexstr2bin` accepts, with no size limit.
use frugen.Common.{
  ℕ, suc, ◌+◌, ◌*◌, ◌%◌, ◌≡◌, ◌↔◌, ◌⊎◌, refl, sym, ◌∙◌, arith, none, some, [], ◌∷◌, Bytes, All,
  length, Option-cases, inl, inr, minus_one,
}
use frugen.Errno.{
  FruErrno, ok, fail, with_error, fenonhex, ferr_loc_general, bind_outcome, bind-eq-ok,
}
use frugen.Hex.{nibble_of, hex_loop, hex_finish, hexstr2bin, hex_strict, skips, below_limit}
use frugen.Hex.Digits.{
  IsHexDigit, nibble_of-IsHexDigit, IsHexDigit-nibble_of, hex2byte_digits, hex2byte_bad,
}
use frugen.Hex.Convert.{loop_pair}

-- Either both characters are digits, or one is not.
digits_cases :
    (c d : ℕ)
    → ((x : ℕ) × (y : ℕ) × (nibble_of c ≡ some x) × (nibble_of d ≡ some y))
      ⊎ ((nibble_of c ≡ none) ⊎ (nibble_of d ≡ none))
digits_cases c d = elim (Option-cases (nibble_of c)) [
  | inl bad ↦ inr (inl bad)
  | inr (x, hx) ↦ elim (Option-cases (nibble_of d)) [
    | inl bad ↦ inr (inr bad)
    | inr (y, hy) ↦ inl (x, y, hx, hy)
  ]
]

pair_step :
    (c d x y size : ℕ) (s : Bytes) (e : FruErrno)
    → nibble_of c ≡ some x
    → nibble_of d ≡ some y
    → hex_loop hex_strict 0 size (c ∷ d ∷ s) e
      ≡ bind_outcome
          (hex_loop hex_strict 0 (suc size) s e)
          (λ out e'. ok ((x * 16 + y) ∷ out.0, out.1) e')
pair_step c d x y size s e hx hy =
    loop_pair hex_strict 0 size c d (x * 16 + y) s e (unfold below_limit in refl)
      (unfold skips in refl) (hex2byte_digits c d x y s e hx hy)

pair_bad :
    (c d size : ℕ) (s : Bytes) (e : FruErrno)
    → (nibble_of c ≡ none) ⊎ (nibble_of d ≡ none)
    → (e' : FruErrno) × (hex_loop hex_strict 0 size (c ∷ d ∷ s) e ≡ fail e')
unfolding hex_loop below_limit skips
pair_bad c d size s e bad =
    (with_error fenonhex ferr_loc_general minus_one e, rw (hex2byte_bad c d s e bad) refl)

-- The loop ends at the end of the text exactly on an even number of digits.
loop_accepts :
    (s : Bytes) (size : ℕ) (e e' : FruErrno) (bs ptr : Bytes)
    → hex_loop hex_strict 0 size s e ≡ ok (bs, ptr) e'
    → ptr ≡ []
    → All IsHexDigit s × (length s % 2 ≡ 0)
unfolding hex_loop
loop_accepts [] size e e' bs ptr h end = (tt, refl)
loop_accepts (c ∷ []) size e e' bs ptr h end = absurd (ground arith)
loop_accepts (c ∷ d ∷ s) size e e' bs ptr h end = elim (digits_cases c d) [
  | inr bad ↦ cc (h, (pair_bad c d size s e bad).1)
  | inl (x, y, hx, hy) ↦
      let (out, e1, rest, last) =
        bind-eq-ok (hex_loop hex_strict 0 (suc size) s e) _
          (sym (pair_step c d x y size s e hx hy) ∙ h) in
      let (digits, even) = loop_accepts s (suc size) e e1 out.0 out.1 rest (cc) in
      ((nibble_of-IsHexDigit c x hx, (nibble_of-IsHexDigit d y hy, digits)), omega arith)
]

loop_complete :
    (s : Bytes) (size : ℕ) (e : FruErrno)
    → All IsHexDigit s
    → length s % 2 ≡ 0
    → (bs : Bytes) × (hex_loop hex_strict 0 size s e ≡ ok (bs, []) e)
unfolding hex_loop
loop_complete [] size e digits even = ([], refl)
loop_complete (c ∷ []) size e digits even = absurd (omega arith)
loop_complete (c ∷ d ∷ s) size e (hc, (hd, digits)) even =
    let (x, hx) = IsHexDigit-nibble_of c hc in
    let (y, hy) = IsHexDigit-nibble_of d hd in
    let (bs, rest) = loop_complete s (suc size) e digits (omega arith) in
    ((x * 16 + y) ∷ bs, pair_step c d x y size s e hx hy ∙ rw rest refl)

finish_inv :
    (bytes ptr bs : Bytes) (e e' : FruErrno) → hex_finish 0 (bytes, ptr) e ≡ ok bs e' → ptr ≡ []
unfolding hex_finish
finish_inv bytes [] bs e e' h = refl
finish_inv bytes (c ∷ ptr) bs e e' h = absurd (ground arith)

-- With no size limit, the strict mode of `fru__hexstr2bin` succeeds on exactly the texts that are
-- an even number of hex digits.
pub hexstr2bin_strict_iff :
    (s : Bytes) (e : FruErrno)
    → ((bs : Bytes) × (e' : FruErrno) × (hexstr2bin hex_strict 0 s e ≡ ok bs e'))
      ↔ (All IsHexDigit s × (length s % 2 ≡ 0))
unfolding hexstr2bin
hexstr2bin_strict_iff s e = (
  λ h.
      let (out, e1, loop, finish) = bind-eq-ok (hex_loop hex_strict 0 0 s e) (hex_finish 0) h.2 in
      loop_accepts s 0 e e1 out.0 out.1 loop (finish_inv out.0 out.1 h.0 e1 h.1 finish),
  λ h. let (bs, loop) = loop_complete s 0 e h.0 h.1 in (bs, e, rw loop (unfold hex_finish in refl)),
)
