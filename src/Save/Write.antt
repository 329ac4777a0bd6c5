-- ===== src/Save/Write.antt =====
-- Writes to the output buffer that stay inside it.
use frugen.Common.{
  ℕ, zero, suc, ◌+◌, ◌-◌, ◌≤◌, ◌≡◌, refl, some, none, List, [], ◌∷◌, ◌++◌, Bytes, length, take,
  drop, length-append, length-take, leb, arith, Bool, true, false, ℤ,
}
use frugen.Errno.{FruErrno, Outcome, Eff, ErrorCode, ok, fail, fault, bind_outcome, guard}
use frugen.Save.{Buffer, splice, write_out, read_out, blamed}

pub length-drop {ℓ} : {A : Type ℓ} (n : ℕ) (xs : List A) → length (drop n xs) ≡ length xs - n
length-drop zero xs = omega arith
length-drop (suc n) [] = omega arith
length-drop (suc n) (x ∷ xs) = omega (arith, length-drop n xs)

pub length-splice :
    (buf : Bytes) (offset : ℕ) (bytes : Bytes)
    → offset + length bytes ≤ length buf
    → length (splice buf offset bytes) ≡ length buf
unfolding splice
length-splice buf offset bytes h = omega (
  arith,
  length-append (take offset buf) (bytes ++ drop (offset + length bytes) buf),
  length-append bytes (drop (offset + length bytes) buf),
  length-take offset buf,
  length-drop (offset + length bytes) buf,
)

pub write_out_lem :
    (buf : Bytes) (offset : ℕ) (bytes : Bytes) (e : FruErrno)
    → offset + length bytes ≤ length buf
    → write_out (some buf) offset bytes e ≡ ok (some (splice buf offset bytes)) e
unfolding write_out
write_out_lem buf offset bytes e h =
    let fits : leb (offset + length bytes) (length buf) ≡ true = ground arith in rw fits refl

pub write_out-none :
    (offset : ℕ) (bytes : Bytes) (e : FruErrno) → write_out none offset bytes e ≡ ok none e
unfolding write_out
write_out-none offset bytes e = refl

pub read_out_lem :
    (buf : Bytes) (offset size : ℕ) (e : FruErrno)
    → offset + size ≤ length buf
    → read_out (some buf) offset size e ≡ ok (take size (drop offset buf)) e
unfolding read_out
read_out_lem buf offset size e h =
    let fits : leb (offset + size) (length buf) ≡ true = ground arith in rw fits refl

-- A success is not changed by `on_fail`.
pub blamed-eq-ok {ℓ} :
    {A : Type ℓ} (blame : FruErrno → FruErrno) (o : Outcome A) {a : A} {e' : FruErrno}
    → blamed blame o ≡ ok a e'
    → o ≡ ok a e'
blamed-eq-ok blame (ok a e) h = h
blamed-eq-ok blame (fail e) h = cc
blamed-eq-ok blame fault h = cc

-- What follows a guard that holds.
pub guard-eq-ok {ℓ} :
    {A : Type ℓ} (b : Bool) (err : ErrorCode) (where_ : ℕ) (idx : ℤ) (e : FruErrno) (k : Eff A)
    {a : A} {e' : FruErrno}
    → bind_outcome (guard b err where_ idx e) (λ _. k) ≡ ok a e'
    → k e ≡ ok a e'
guard-eq-ok true err where_ idx e k h = h
guard-eq-ok false err where_ idx e k h = cc

-- An encoder that finds the size `n` without a buffer, and then writes no more than `n` bytes
-- behind `offset`: with a buffer that has room for them it succeeds with the same size and error.
pub record Sized (call : Buffer → Eff (Buffer × ℕ)) (offset n : ℕ) (e e' : FruErrno) : Type 0 where
  pub counts : call none e ≡ ok (none, n) e'
  pub writes :
      (buf : Bytes)
      → offset + n ≤ length buf
      → (buf' : Bytes) × (call (some buf) e ≡ ok (some buf', n) e') × (length buf' ≡ length buf)

abbrev pub IsSized : (Buffer → Eff (Buffer × ℕ)) → ℕ → ℕ → Buffer × ℕ → FruErrno → FruErrno → Type 0
IsSized call offset least r e e' =
    (n : ℕ) × (r ≡ (none, n)) × (least ≤ n) × Sized call offset n e e'

-- An encoder that is `Sized`, with a size of `least` or more, whenever it finds a size.
abbrev pub Honest : (Buffer → Eff (Buffer × ℕ)) → ℕ → ℕ → Type 0
Honest call offset least =
    (r : Buffer × ℕ) (e e' : FruErrno) → call none e ≡ ok r e' → IsSized call offset least r e e'
