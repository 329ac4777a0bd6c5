-- ===== src/Area/Moves.antt =====
-- The shifting loops of lib/fru_enable_area.c: how they move an element of the order.
use frugen.Common.{
  ℕ, suc, ◌+◌, ◌-◌, ◌≤◌, ◌≡◌, refl, sym, ap, ◌∙◌, if◌then◌else◌, some, List, [], ◌∷◌, ◌++◌,
  append_assoc, length, length-append, get_elem?, set-append, lt→ltb, ◌==◌, arith, inl, inr,
  Bool-cases,
}
use frugen.Errno.{ok, FruErrno}
use frugen.Area.{find_position, shift_left, put, place}

abbrev pub count : ℕ → List ℕ → ℕ
count a [] = 0
count a (x ∷ xs) = let rest = count a xs in if x == a then suc rest else rest

pub count-append : (a : ℕ) (xs ys : List ℕ) → count a (xs ++ ys) ≡ count a xs + count a ys
count-append a [] ys = omega arith
count-append a (x ∷ xs) ys = ground (arith, count-append a xs ys)

-- The search for the old position finds the first occurrence.
pub find_position_lem :
    (a i : ℕ) (l : List ℕ)
    → 1 ≤ count a l
    → (xs : List ℕ) × (ys : List ℕ) × (l ≡ xs ++ a ∷ ys)
      × (find_position a i l ≡ some (i + length xs))
      × (count a xs ≡ 0)
unfolding find_position
find_position_lem a i [] h = absurd (omega arith)
find_position_lem a i (x ∷ l) h = elim (Bool-cases (x == a)) [
  | inl same ↦ (
    [],
    l,
    ap (λ v. v ∷ l) (ground arith),
    rw (same, find_position) (ap some (omega arith)),
    refl,
  )
  | inr other ↦
      let (xs, ys, split, found, none_before) = find_position_lem a (suc i) l (ground arith) in
      (
        x ∷ xs,
        ys,
        ap (λ t. x ∷ t) split,
        rw (other, find_position) (found ∙ ap some (omega arith)),
        ground arith,
      )
]

pub snoc_append {ℓ} :
    {A : Type ℓ} (xs : List A) (y : A) (ys : List A) → (xs ++ y ∷ []) ++ ys ≡ xs ++ y ∷ ys
snoc_append [] y ys = refl
snoc_append (x ∷ xs) y ys = ap (λ t. x ∷ t) (snoc_append xs y ys)

length_snoc {ℓ} : {A : Type ℓ} (xs : List A) (y : A) → length (xs ++ y ∷ []) ≡ suc (length xs)
length_snoc xs y = omega (arith, length-append xs (y ∷ []))

get_next {ℓ} :
    {A : Type ℓ} (xs : List A) (x y : A) (ys : List A)
    → get_elem? (xs ++ x ∷ y ∷ ys) (suc (length xs)) ≡ some y
get_next [] x y ys = refl
get_next (z ∷ xs) x y ys = get_next xs x y ys

-- The loop to the left leaves the elements behind the moved one a place nearer to the front.
pub shift_left_lem :
    (xs : List ℕ) (a : ℕ) (ys zs : List ℕ) (e : FruErrno)
    → (b : ℕ) × (shift_left (length ys) (length xs) (xs ++ a ∷ (ys ++ zs)) e
        ≡ ok (xs ++ (ys ++ b ∷ zs)) e)
unfolding shift_left
shift_left_lem xs a [] zs e = (a, refl)
shift_left_lem xs a (y ∷ ys) zs e =
    let (b, rest) = shift_left_lem (xs ++ y ∷ []) y ys zs e in
    (b, rw (get_next xs a y (ys ++ zs)) (rw (set-append xs a (y ∷ (ys ++ zs)) y) (shifted b rest)))
  where
    shifted :
        (b : ℕ)
        → shift_left (length ys) (length (xs ++ y ∷ [])) ((xs ++ y ∷ []) ++ y ∷ (ys ++ zs)) e
          ≡ ok ((xs ++ y ∷ []) ++ (ys ++ b ∷ zs)) e
        → shift_left (length ys) (suc (length xs)) (xs ++ y ∷ y ∷ (ys ++ zs)) e
          ≡ ok (xs ++ y ∷ (ys ++ b ∷ zs)) e
    shifted b h =
        rw
          (
            sym (length_snoc xs y),
            sym (snoc_append xs y (y ∷ (ys ++ zs))),
            sym (snoc_append xs y (ys ++ b ∷ zs)),
          )
          h

pub put-append {ℓ} :
    {A : Type ℓ} (xs : List A) (x : A) (zs : List A) (v : A) (e : FruErrno)
    → put (xs ++ x ∷ zs) (length xs) v e ≡ ok (xs ++ v ∷ zs) e
unfolding put
put-append xs x zs v e =
    rw (lt→ltb (length xs) (length (xs ++ x ∷ zs)) (omega (arith, length-append xs (x ∷ zs))))
      (rw (set-append xs x zs v) refl)

-- The shift and the write behind it move the area over the elements of `zs`.
pub place_lem :
    (xs : List ℕ) (a : ℕ) (zs rest : List ℕ) (p : ℕ) (e : FruErrno)
    → p ≡ length xs + length zs
    → place (xs ++ a ∷ (zs ++ rest)) (length xs) (some p) a e ≡ ok (xs ++ (zs ++ a ∷ rest)) e
unfolding place
place_lem xs a zs rest p e at_end =
    let (b, shifted) = shift_left_lem xs a zs rest e in
    let rounds : p - length xs ≡ length zs = omega arith in
    rw rounds (
      rw shifted (
        rw
          (
            sym (append_assoc xs zs (b ∷ rest)),
            sym (append_assoc xs zs (a ∷ rest)),
            at_end,
            sym (length-append xs zs),
          )
          (put-append (xs ++ zs) b rest a e)))
