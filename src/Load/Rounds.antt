-- ===== src/Load/Rounds.antt =====
-- The loops of lib/fru_load.c end before their rounds do.
use frugen.Common.{
  ℕ, zero, suc, ◌+◌, ◌-◌, ◌≤◌, ◌<◌, ◌≡◌, refl, Bool, true, false, some, none, Bytes, ℤ, minus_one,
  arith, ◌==◌, leb, ltb, Bool-cases, inl, inr, to_int,
}
use frugen.Errno.{
  FruErrno, Outcome, Eff, ok, fail, fault, bind_outcome, guard, bind-eq-ok, ErrorCode, fenodata,
  ferr_loc_mr,
}
use frugen.Field.{field_terminator}
use frugen.Field.Decode.{decode_field}
use frugen.Fru.{Fru}
use frugen.Save.{on_fail}
use frugen.Mr.{add_mr}
use frugen.Save.Record.{mr_header_size, mr_eol}
use frugen.Load.{Flags, byte_at}
use frugen.Load.Area.{field_at, field_size, keep_custom, custom_loop, fru_list_tail}
use frugen.Load.Record.{
  rec_size, is_mr_rec_valid, decode_mr_record, fill_last, next_count, on_result, mr_loop,
}

-- Two calls that go on in the same way after every success end in the same way.
pub bind-ext :
    {A B : Type 0} (o : Outcome A) (f g : A → Eff B)
    → ((a : A) (e : FruErrno) → o ≡ ok a e → f a e ≡ g a e)
    → bind_outcome o f ≡ bind_outcome o g
bind-ext (ok a e) f g h = h a e refl
bind-ext (fail e) f g h = refl
bind-ext fault f g h = refl

-- With as many rounds as the limit has bytes, or more, the loop over the custom fields ends in
-- the same way, whatever the number of rounds is.
pub custom_loop-rounds :
    (image : Bytes) (atype : ℕ) (fru : Fru) (offset limit index m n : ℕ) (e : FruErrno)
    → limit ≤ m
    → limit ≤ n
    → custom_loop image atype fru offset limit index m e
      ≡ custom_loop image atype fru offset limit index n e
unfolding custom_loop
custom_loop-rounds image atype fru offset limit index zero zero e hm hn = refl
custom_loop-rounds image atype fru offset limit index zero (suc n) e hm hn =
    let done : ltb 0 limit ≡ false = ground arith in rw (done, custom_loop) refl
custom_loop-rounds image atype fru offset limit index (suc m) zero e hm hn =
    let done : ltb 0 limit ≡ false = ground arith in rw (done, custom_loop) refl
custom_loop-rounds image atype fru offset limit index (suc m) (suc n) e hm hn =
    elim (Bool-cases (ltb 0 limit)) [
      | inr done ↦ rw (done, custom_loop) refl
      | inl more ↦
          rw (more, custom_loop)
            (bind-ext (field_at image offset e) _ _ (λ field e1 _.
              elim (Bool-cases (field.typelen == field_terminator)) [
                | inl ends ↦ rw ends refl
                | inr goes_on ↦
                    let size : ℕ = field_size field in
                    rw goes_on (
                      bind-ext
                        (on_fail (λ e'. record e' { src = atype; index = to_int index })
                          (decode_field (some field)) e1)
                        _ _
                        (λ outfield e2 _.
                          bind-ext (keep_custom fru atype outfield e2) _ _ (λ fru' e3 _.
                            custom_loop-rounds image atype fru' (offset + size) (limit - size)
                              (suc index) m n e3 (omega arith) (omega arith))))
              ]))
    ]

-- A record that passes the checks has data.
is_mr_rec_valid-size :
    (image : Bytes) (offset limit : ℕ) (flags : Flags) (e e' : FruErrno)
    → is_mr_rec_valid image offset limit flags e ≡ ok tt e'
    → mr_header_size < limit
unfolding is_mr_rec_valid
is_mr_rec_valid-size image offset limit flags e e' h =
    let more = guard_holds (ltb mr_header_size limit) fenodata e _ h in ground arith
  where
    guard_holds :
        (b : Bool) (err : ErrorCode) (e1 : FruErrno) (k : Eff (Unit {0}))
        → bind_outcome (guard b err ferr_loc_mr minus_one e1) (λ _. k) ≡ ok tt e'
        → b ≡ true
    guard_holds true err e1 k h = refl
    guard_holds false err e1 k h = cc

rec_size-ge :
    (image : Bytes) (offset : ℕ) (e e' : FruErrno) (rec_sz : ℕ)
    → rec_size image offset e ≡ ok rec_sz e'
    → mr_header_size ≤ rec_sz
rec_size-ge image offset e e' rec_sz h =
    let (len, e1, h1, h2) = bind-eq-ok (byte_at image (offset + 2) e) _ h in
    let same : mr_header_size + len ≡ rec_sz = cc in omega arith

on_result-ext :
    {A B : Type 0} (call : Eff A) (failed : FruErrno → Outcome B) (f g : A → Eff B) (e : FruErrno)
    → ((a : A) (e' : FruErrno) → call e ≡ ok a e' → f a e' ≡ g a e')
    → on_result call failed f e ≡ on_result call failed g e
on_result-ext {A = A} {B = B} call failed f g e h = by_outcome (call e) refl
  where
    by_outcome :
        (o : Outcome A)
        → call e ≡ o
        → elim o [ ok a e' ↦ f a e' | fail e' ↦ failed e' | fault ↦ fault ]
          ≡ elim o [ ok a e' ↦ g a e' | fail e' ↦ failed e' | fault ↦ fault ]
    by_outcome (ok a e') eq = h a e' eq
    by_outcome (fail e') eq = refl
    by_outcome fault eq = refl

-- With more rounds than the limit has bytes, the loop over the records never runs out of them: its
-- result is the same whatever the number of rounds is, and whatever would happen when none is left.
pub mr_loop-rounds :
    (spent spent' : Eff (Fru × ℤ)) (image : Bytes) (fru : Fru) (offset limit : ℕ) (count : ℤ)
    (flags : Flags) (m n : ℕ) (e : FruErrno)
    → limit < m
    → limit < n
    → mr_loop spent image fru offset limit count flags m e
      ≡ mr_loop spent' image fru offset limit count flags n e
unfolding mr_loop
mr_loop-rounds spent spent' image fru offset limit count flags zero n e hm hn = absurd (omega arith)
mr_loop-rounds spent spent' image fru offset limit count flags (suc m) zero e hm hn =
    absurd (omega arith)
mr_loop-rounds spent spent' image fru offset limit count flags (suc m) (suc n) e hm hn =
    bind-ext (rec_size image offset e) _ _ (λ rec_sz e1 sized.
      on_result-ext (is_mr_rec_valid image offset limit flags) _ _ _ e1 (λ u e2 valid.
        let more = is_mr_rec_valid-size image offset limit flags e1 e2 valid in
        bind-ext (add_mr true true (some fru) fru_list_tail none e2) _ _ (λ added e3 _.
          on_result-ext (decode_mr_record image offset flags) _ _ _ e3 (λ rec e4 _.
            bind-ext (byte_at image (offset + 1) e4) _ _ (λ eol_ver e5 _.
              elim (Bool-cases (leb mr_eol eol_ver)) [
                | inl ends ↦ rw ends refl
                | inr goes_on ↦
                    let least = rec_size-ge image offset e e1 rec_sz sized in
                    rw goes_on (
                      mr_loop-rounds spent spent' image
                        (record added { mr = fill_last added.mr rec }) (offset + rec_sz)
                        (limit - rec_sz) (next_count count) flags m n e5 (omega arith)
                        (omega arith))
              ])))))
