-- ===== src/Save/Honest.antt =====
-- Encoders that write as many bytes as they count, put together.
use frugen.Common.{ℕ, ◌+◌, ◌≤◌, ◌≡◌, refl, sym, ap, ◌∙◌, some, none, Bytes, length, arith}
use frugen.Errno.{FruErrno, Eff, ok, bind_outcome, ◌>>=◌, bind-eq-ok, pure}
use frugen.Save.{Buffer, splice, write_out, on_fail, blamed}
use frugen.Save.Write.{Honest, write_out-none, write_out_lem, length-splice, blamed-eq-ok}

pub pure-Honest : (offset n least : ℕ) → least ≤ n → Honest (λ out. pure (out, n)) offset least
pure-Honest offset n least h r e e' eq =
    let is_r : r ≡ (none, n) = cc in
    let is_e : e ≡ e' = cc in
    (
      n,
      is_r,
      h,
      record {
        counts = ap (λ x. ok (none, n) x) is_e;
        writes = λ buf room. (buf, ap (λ x. ok (some buf, n) x) is_e, refl);
      },
    )

pub weaken-Honest :
    (offset n least : ℕ) (call : Buffer → Eff (Buffer × ℕ))
    → least ≤ n
    → Honest call offset n
    → Honest call offset least
weaken-Honest offset n least call h honest r e e' eq =
    let (n', is_r, big, sized) = honest r e e' eq in (n', is_r, omega arith, sized)

-- A change of bytes in front of `bound`, if there is a buffer.
pub record Patch (op : Buffer → Eff Buffer) (bound : ℕ) : Type 0 where
  pub silent : (e : FruErrno) → op none e ≡ ok none e
  pub patches :
      (buf : Bytes) (e : FruErrno)
      → bound ≤ length buf
      → (buf' : Bytes) × (op (some buf) e ≡ ok (some buf') e) × (length buf' ≡ length buf)

pub write-Patch :
    (at : ℕ) (bytes : Bytes) → Patch (λ out. write_out out at bytes) (at + length bytes)
write-Patch at bytes = record {
  silent = λ e. write_out-none at bytes e;
  patches = λ buf e fits.
      (splice buf at bytes, write_out_lem buf at bytes e fits, length-splice buf at bytes fits);
}

pub Patch-Honest :
    (offset bound least : ℕ) (op : Buffer → Eff Buffer) (k : Buffer → Eff (Buffer × ℕ))
    → bound ≤ offset + least
    → Patch op bound
    → Honest k offset least
    → Honest (λ out. op out >>= k) offset least
Patch-Honest offset bound least op k fits patch honest r e e' h =
    let silent = patch.silent e in
    let after : k none e ≡ ok r e' = sym (ap (λ o. bind_outcome o k) silent) ∙ h in
    let (n, is_r, big, sized) = honest r e e' after in
    (
      n,
      is_r,
      big,
      record {
        counts = rw (silent, bind_outcome) sized.counts;
        writes = λ buf room.
            let inside : bound ≤ length buf = omega arith in
            let (buf1, eq1, len1) = patch.patches buf e inside in
            let room' : offset + n ≤ length buf1 = omega arith in
            let (buf', eq, len) = sized.writes buf1 room' in
            (buf', rw (eq1, bind_outcome) eq, len ∙ len1);
      },
    )

pub write-Honest :
    (offset at least : ℕ) (bytes : Bytes) (k : Buffer → Eff (Buffer × ℕ))
    → at + length bytes ≤ offset + least
    → Honest k offset least
    → Honest (λ out. write_out out at bytes >>= k) offset least
write-Honest offset at least bytes k fits honest =
    Patch-Honest offset (at + length bytes) least (λ out. write_out out at bytes) k fits
      (write-Patch at bytes) honest

pub effect-Honest {ℓ} :
    {A : Type ℓ} (offset least : ℕ) (m : Eff A) (k : A → Buffer → Eff (Buffer × ℕ))
    → ((a : A) (e e' : FruErrno) → m e ≡ ok a e' → Honest (k a) offset least)
    → Honest (λ out. m >>= λ a. k a out) offset least
effect-Honest offset least m k honest r e e' h =
    let (a, e1, hm, hk) = bind-eq-ok (m e) (λ a. k a none) h in
    let (n, is_r, big, sized) = honest a e e1 hm r e1 e' hk in
    (
      n,
      is_r,
      big,
      record {
        counts = rw (hm, bind_outcome) sized.counts;
        writes = λ buf room.
            let (buf', eq, len) = sized.writes buf room in (buf', rw (hm, bind_outcome) eq, len);
      },
    )

pub on_fail-Honest :
    (offset least : ℕ) (blame : FruErrno → FruErrno) (call : Buffer → Eff (Buffer × ℕ))
    → Honest call offset least
    → Honest (λ out. on_fail blame (call out)) offset least
on_fail-Honest offset least blame call honest r e e' h =
    let (n, is_r, big, sized) = honest r e e' (blamed-eq-ok blame (call none e) h) in
    (
      n,
      is_r,
      big,
      record {
        counts = ap (blamed blame) sized.counts;
        writes = λ buf room.
            let (buf', eq, len) = sized.writes buf room in (buf', ap (blamed blame) eq, len);
      },
    )

-- Two encoders in sequence, the second with offset `at'` and a size that covers the first's bytes.
pub seq-Honest :
    (at at' least least' : ℕ) (m : Buffer → Eff (Buffer × ℕ)) (k : Buffer × ℕ → Eff (Buffer × ℕ))
    → Honest m at least
    → ((n : ℕ)
        → least ≤ n
        → (l : ℕ) × (at + n ≤ at' + l) × (least' ≤ l) × Honest (λ out. k (out, n)) at' l)
    → Honest (λ out. m out >>= k) at' least'
seq-Honest at at' least least' m k first second r e e' h =
    let (x, e1, hm, hk) = bind-eq-ok (m none e) k h in
    let (n, is_x, big, sized) = first x e e1 hm in
    let (l, covers, above, honest) = second n big in
    let (n', is_r, big', sized') = honest r e1 e' (sym (ap (λ y. k y e1) is_x) ∙ hk) in
    (
      n',
      is_r,
      omega arith,
      record {
        counts = rw (sized.counts, bind_outcome) sized'.counts;
        writes = λ buf room.
            let room1 : at + n ≤ length buf = omega arith in
            let (buf1, eq1, len1) = sized.writes buf room1 in
            let room2 : at' + n' ≤ length buf1 = omega arith in
            let (buf2, eq2, len2) = sized'.writes buf1 room2 in
            (buf2, rw (eq1, bind_outcome) eq2, len2 ∙ len1);
      },
    )
