-- ===== src/Save/Sealing.antt =====
-- What seal_header of lib/fru_save.c does to a record that a buffer holds.
use frugen.Common.{
  ℕ, zero, suc, ◌+◌, ◌≤◌, ◌<◌, ◌≡◌, refl, sym, ap, ◌∙◌, Bool, true, false, if◌then◌else◌, some,
  List, [], ◌∷◌, ◌++◌, Bytes, bit_or, length, take, drop, get_elem?, arith,
}
use frugen.Errno.{FruErrno, ok, bind_outcome}
use frugen.Custom.{calc_checksum}
use frugen.Save.{splice, read_out}
use frugen.Save.Record.{seal_header, mr_eol}
use frugen.Save.Write.{write_out_lem, read_out_lem, length-splice}
use frugen.Save.Reads.{
  get_elem?-splice_before, get_elem?-splice_in, get_elem?-splice_after, get_elem?-drop,
}
use frugen.Save.Region.{Holds, drop-Holds}

take-append {ℓ} :
    {A : Type ℓ} (n : ℕ) (xs ys : List A) → n ≤ length xs → take n (xs ++ ys) ≡ take n xs
take-append zero xs ys h = refl
take-append (suc n) [] ys h = absurd (omega arith)
take-append (suc n) (x ∷ xs) ys h = ap (λ l. x ∷ l) (take-append n xs ys (omega arith))

length-drop_from :
    (i : ℕ) (bytes : Bytes) → i ≤ length bytes → i + length (drop i bytes) ≡ length bytes
length-drop_from zero bytes h = omega arith
length-drop_from (suc i) [] h = absurd (omega arith)
length-drop_from (suc i) (b ∷ bytes) h = omega (arith, length-drop_from i bytes (omega arith))

Holds-drop :
    (buf : Bytes) (at i : ℕ) (bytes : Bytes)
    → i ≤ length bytes
    → Holds buf at bytes
    → Holds buf (at + i) (drop i bytes)
Holds-drop buf at i bytes h holds k below =
    let size = length-drop_from i bytes h in
    let same : at + i + k ≡ at + (i + k) = omega arith in
    ap (get_elem? buf) same
    ∙ holds (i + k) (omega arith)
    ∙ sym (get_elem?-drop i bytes (i + k) k refl)

-- A read of a part of what a buffer holds.
pub read_out-Holds :
    (buf : Bytes) (at i n : ℕ) (bytes : Bytes) (e : FruErrno)
    → Holds buf at bytes
    → at + length bytes ≤ length buf
    → i + n ≤ length bytes
    → read_out (some buf) (at + i) n e ≡ ok (take n (drop i bytes)) e
read_out-Holds buf at i n bytes e holds inside part =
    let size = length-drop_from i bytes (omega arith) in
    let (rest, is) =
      drop-Holds buf (at + i) (drop i bytes) (Holds-drop buf at i bytes (omega arith) holds) in
    read_out_lem buf (at + i) n e (omega arith)
    ∙ ap (λ l. ok (take n l) e) is
    ∙ ap (λ l. ok l e) (take-append n (drop i bytes) rest (omega arith))

module _ (buf : Bytes) (at : ℕ) (a v l c h : ℕ) (body : Bytes)
    (inside : at + (5 + length body) ≤ length buf) where
  flag-Holds :
      (v' : ℕ)
      → Holds buf at (a ∷ v ∷ l ∷ c ∷ h ∷ body)
      → Holds (splice buf (at + 1) (v' ∷ [])) at (a ∷ v' ∷ l ∷ c ∷ h ∷ body)
  flag-Holds v' holds zero below =
      get_elem?-splice_before buf (at + 1) (v' ∷ []) (at + 0) (omega arith) (omega arith)
      ∙ holds zero (omega arith)
  flag-Holds v' holds (suc zero) below =
      get_elem?-splice_in buf (at + 1) (v' ∷ []) (at + 1) 0 (omega arith) (omega arith)
        (omega arith)
  flag-Holds v' holds (suc (suc k)) below =
      get_elem?-splice_after buf (at + 1) (v' ∷ []) (at + suc (suc k)) (omega arith) (omega arith)
      ∙ holds (suc (suc k)) (omega arith)

  before_sum :
      (s k : ℕ) → k < 4 → get_elem? (splice buf (at + 4) (s ∷ [])) (at + k) ≡ get_elem? buf (at + k)
  before_sum s k few =
      get_elem?-splice_before buf (at + 4) (s ∷ []) (at + k) (omega arith) (omega arith)

  sum-Holds :
      (s : ℕ)
      → Holds buf at (a ∷ v ∷ l ∷ c ∷ h ∷ body)
      → Holds (splice buf (at + 4) (s ∷ [])) at (a ∷ v ∷ l ∷ c ∷ s ∷ body)
  sum-Holds s holds zero below = before_sum s 0 (omega arith) ∙ holds 0 (omega arith)
  sum-Holds s holds (suc zero) below = before_sum s 1 (omega arith) ∙ holds 1 (omega arith)
  sum-Holds s holds (suc (suc zero)) below = before_sum s 2 (omega arith) ∙ holds 2 (omega arith)
  sum-Holds s holds (suc (suc (suc zero))) below =
      before_sum s 3 (omega arith) ∙ holds 3 (omega arith)
  sum-Holds s holds (suc (suc (suc (suc zero)))) below =
      get_elem?-splice_in buf (at + 4) (s ∷ []) (at + 4) 0 (omega arith) (omega arith) (omega arith)
  sum-Holds s holds (suc (suc (suc (suc (suc k))))) below =
      let n : ℕ = suc (suc (suc (suc (suc k)))) in
      get_elem?-splice_after buf (at + 4) (s ∷ []) (at + n) (omega arith) (omega arith)
      ∙ holds n (omega arith)

-- The flags of a record's version byte.
abbrev pub flagged : Bool → ℕ → ℕ
flagged last v = if last then bit_or v mr_eol else v

flagged_lem :
    (last : Bool) (v : ℕ) → (if last then bit_or v mr_eol ∷ [] else v ∷ []) ≡ flagged last v ∷ []
flagged_lem true v = refl
flagged_lem false v = refl

-- A sealed record has the flag, and the checksum of its header.
pub seal_header-Holds :
    (buf : Bytes) (at : ℕ) (last : Bool) (a v l c h : ℕ) (body : Bytes) (e : FruErrno)
    → Holds buf at (a ∷ v ∷ l ∷ c ∷ h ∷ body)
    → at + (5 + length body) ≤ length buf
    → (buf' : Bytes) × (seal_header (some buf) at last e ≡ ok (some buf') e)
      × Holds buf' at
          (a ∷ flagged last v ∷ l ∷ c ∷ calc_checksum (a ∷ flagged last v ∷ l ∷ c ∷ []) ∷ body)
      × (length buf' ≡ length buf)
unfolding seal_header
seal_header-Holds buf at last a v l c h body e holds inside =
    let v' : ℕ = flagged last v in
    let buf1 : Bytes = splice buf (at + 1) (v' ∷ []) in
    let size1 = length-splice buf (at + 1) (v' ∷ []) (omega arith) in
    let holds1 = flag-Holds buf at a v l c h body inside v' holds in
    let sum : ℕ = calc_checksum (a ∷ v' ∷ l ∷ c ∷ []) in
    let shifted : at + 0 ≡ at = omega arith in
    let read_header : read_out (some buf1) at 4 e ≡ ok (a ∷ v' ∷ l ∷ c ∷ []) e =
      ap (λ x. read_out (some buf1) x 4 e) (sym shifted)
      ∙ read_out-Holds buf1 at 0 4 (a ∷ v' ∷ l ∷ c ∷ h ∷ body) e holds1 (omega arith)
          (omega arith) in
    (
      splice buf1 (at + 4) (sum ∷ []),
      rw
          (
            read_out-Holds buf at 1 1 (a ∷ v ∷ l ∷ c ∷ h ∷ body) e holds (omega arith)
                (omega arith),
            bind_outcome,
          )
          (rw
            (flagged_lem last v, write_out_lem buf (at + 1) (v' ∷ []) e (omega arith), bind_outcome)
            (rw (read_header, bind_outcome)
              (write_out_lem buf1 (at + 4) (sum ∷ []) e (omega arith)))),
      sum-Holds buf1 at a v' l c h body (omega arith) sum holds1,
      length-splice buf1 (at + 4) (sum ∷ []) (omega arith) ∙ size1,
    )
