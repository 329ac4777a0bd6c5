-- ===== src/Save/Reads.antt =====
-- Reads of a buffer behind a write to it.
use frugen.Common.{
  ℕ, zero, suc, ◌+◌, ◌-◌, ◌≤◌, ◌<◌, ◌≡◌, refl, ap, ◌∙◌, some, List, [], ◌∷◌, ◌++◌, Bytes, length,
  take, drop, get_elem?, length-take, arith,
}
use frugen.Save.{splice}
use frugen.Save.Write.{length-drop}

module _ {ℓ} {A : Type ℓ} where
  get_elem?-append_left :
      (xs ys : List A) (i : ℕ) → i < length xs → get_elem? (xs ++ ys) i ≡ get_elem? xs i
  get_elem?-append_left [] ys i h = absurd (omega arith)
  get_elem?-append_left (x ∷ xs) ys zero h = refl
  get_elem?-append_left (x ∷ xs) ys (suc i) h = get_elem?-append_left xs ys i (omega arith)

  get_elem?-append_right :
      (xs ys : List A) (i k : ℕ) → i ≡ length xs + k → get_elem? (xs ++ ys) i ≡ get_elem? ys k
  get_elem?-append_right [] ys i k h = let same : i ≡ k = omega arith in ap (get_elem? ys) same
  get_elem?-append_right (x ∷ xs) ys zero k h = absurd (omega arith)
  get_elem?-append_right (x ∷ xs) ys (suc i) k h = get_elem?-append_right xs ys i k (omega arith)

  get_elem?-take : (n : ℕ) (xs : List A) (i : ℕ) → i < n → get_elem? (take n xs) i ≡ get_elem? xs i
  get_elem?-take zero xs i h = absurd (omega arith)
  get_elem?-take (suc n) [] i h = refl
  get_elem?-take (suc n) (x ∷ xs) zero h = refl
  get_elem?-take (suc n) (x ∷ xs) (suc i) h = get_elem?-take n xs i (omega arith)

  pub get_elem?-drop :
      (n : ℕ) (xs : List A) (i k : ℕ) → i ≡ n + k → get_elem? (drop n xs) k ≡ get_elem? xs i
  get_elem?-drop zero xs i k h = let same : k ≡ i = omega arith in ap (get_elem? xs) same
  get_elem?-drop (suc n) [] i k h = refl
  get_elem?-drop (suc n) (x ∷ xs) zero k h = absurd (omega arith)
  get_elem?-drop (suc n) (x ∷ xs) (suc i) k h = get_elem?-drop n xs i k (omega arith)

  -- One element less.
  pub drop-behind :
      (n : ℕ) (xs : List A) (x : A) (rest : List A) → drop n xs ≡ x ∷ rest → drop (suc n) xs ≡ rest
  drop-behind zero [] x rest h = cc
  drop-behind zero (y ∷ xs) x rest h = cc
  drop-behind (suc n) [] x rest h = cc
  drop-behind (suc n) (y ∷ xs) x rest h = drop-behind n xs x rest h

  -- One more element.
  pub take-suc :
      (n : ℕ) (xs : List A) (x : A)
      → get_elem? xs n ≡ some x
      → take (suc n) xs ≡ take n xs ++ x ∷ []
  take-suc n [] x h = cc
  take-suc zero (y ∷ xs) x h = let same : y ≡ x = cc in ap (λ z. z ∷ []) same
  take-suc (suc n) (y ∷ xs) x h = ap (λ zs. y ∷ zs) (take-suc n xs x h)

  drop-take :
      (o n m : ℕ) (xs rest : List A)
      → m ≡ o + n
      → m ≤ length xs
      → drop o (take m xs ++ rest) ≡ take n (drop o xs) ++ rest
  drop-take zero n m xs rest h fits =
      let same : m ≡ n = omega arith in ap (λ k. take k xs ++ rest) same
  drop-take (suc o) n zero xs rest h fits = absurd (omega arith)
  drop-take (suc o) n (suc m) [] rest h fits = absurd (omega arith)
  drop-take (suc o) n (suc m) (x ∷ xs) rest h fits =
      drop-take o n m xs rest (omega arith) (omega arith)

  take_append :
      (xs : List A) (y : A) (rest : List A) (n : ℕ)
      → length xs ≡ n
      → take (suc n) (xs ++ y ∷ rest) ≡ xs ++ y ∷ []
  take_append [] y rest zero h = refl
  take_append [] y rest (suc n) h = absurd (omega arith)
  take_append (x ∷ xs) y rest zero h = absurd (omega arith)
  take_append (x ∷ xs) y rest (suc n) h = ap (λ zs. x ∷ zs) (take_append xs y rest n (omega arith))

module _ (buf : Bytes) (offset : ℕ) (bytes : Bytes) where
  pub get_elem?-splice_before :
      (i : ℕ)
      → offset + length bytes ≤ length buf
      → i < offset
      → get_elem? (splice buf offset bytes) i ≡ get_elem? buf i
  unfolding splice
  get_elem?-splice_before i fits h =
      get_elem?-append_left (take offset buf) (bytes ++ drop (offset + length bytes) buf) i
        (omega (arith, length-take offset buf))
      ∙ get_elem?-take offset buf i h

  pub get_elem?-splice_in :
      (i k : ℕ)
      → offset + length bytes ≤ length buf
      → i ≡ offset + k
      → k < length bytes
      → get_elem? (splice buf offset bytes) i ≡ get_elem? bytes k
  unfolding splice
  get_elem?-splice_in i k fits h inside =
      get_elem?-append_right (take offset buf) (bytes ++ drop (offset + length bytes) buf) i k
        (omega (arith, length-take offset buf))
      ∙ get_elem?-append_left bytes (drop (offset + length bytes) buf) k inside

  pub get_elem?-splice_after :
      (i : ℕ)
      → offset + length bytes ≤ length buf
      → offset + length bytes ≤ i
      → get_elem? (splice buf offset bytes) i ≡ get_elem? buf i
  unfolding splice
  get_elem?-splice_after i fits h =
      let k : ℕ = i - (offset + length bytes) in
      let rest : Bytes = drop (offset + length bytes) buf in
      get_elem?-append_right (take offset buf) (bytes ++ rest) i (length bytes + k)
        (omega (arith, length-take offset buf))
      ∙ get_elem?-append_right bytes rest (length bytes + k) k refl
      ∙ get_elem?-drop (offset + length bytes) buf i k (omega arith)

-- An area behind a write to its last byte.
pub take-splice_last :
    (buf : Bytes) (offset n b : ℕ)
    → offset + suc n ≤ length buf
    → take (suc n) (drop offset (splice buf (offset + n) (b ∷ [])))
      ≡ take n (drop offset buf) ++ b ∷ []
unfolding splice
take-splice_last buf offset n b fits =
    let rest : Bytes = drop (offset + n + 1) buf in
    let front = drop-take offset n (offset + n) buf (b ∷ rest) refl (omega arith) in
    ap (take (suc n)) front
    ∙ take_append (take n (drop offset buf)) b rest n
        (omega (arith, length-take n (drop offset buf), length-drop offset buf))
