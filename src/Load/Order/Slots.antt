-- ===== src/Load/Order/Slots.antt =====
-- lib/fru_load.c: the array around a slot, and the insertion of its entry.
use frugen.Common.{
  ℕ, suc, ◌+◌, ◌-◌, ◌≤◌, ◌<◌, ◌≡◌, refl, ap, true, false, some, List, [], ◌∷◌, ltb, length,
  get_elem?, set, arith, if◌then◌else◌, Bool-cases, inl, inr, All,
}
use frugen.Errno.{FruErrno, ok, bind_outcome, pure, deref}
use frugen.Area.{put}
use frugen.Load.Order.{AreaOrder, move_right, place_left}

-- The array around a slot: the entries in front of it, the nearest first, and the ones from it on.
abbrev pub rev_onto : List AreaOrder → List AreaOrder → List AreaOrder
rev_onto [] tail = tail
rev_onto (r ∷ rs) tail = rev_onto rs (r ∷ tail)

module _ (x : AreaOrder) (tail : List AreaOrder) where
  length-rev_onto : (rs us : List AreaOrder) → length (rev_onto rs us) ≡ length rs + length us
  length-rev_onto [] us = omega arith
  length-rev_onto (r ∷ rs) us = omega (arith, length-rev_onto rs (r ∷ us))

  get_elem?-rev_onto :
      (rs us : List AreaOrder) (i k : ℕ)
      → i ≡ length rs + k
      → get_elem? (rev_onto rs us) i ≡ get_elem? us k
  get_elem?-rev_onto [] us i k h = let same : i ≡ k = omega arith in ap (get_elem? us) same
  get_elem?-rev_onto (r ∷ rs) us i k h = get_elem?-rev_onto rs (r ∷ us) i (suc k) (omega arith)

  set-rev_onto :
      (rs us : List AreaOrder) (i k : ℕ) (v : AreaOrder)
      → i ≡ length rs + k
      → set (rev_onto rs us) i v ≡ rev_onto rs (set us k v)
  set-rev_onto [] us i k v h = let same : i ≡ k = omega arith in ap (λ j. set us j v) same
  set-rev_onto (r ∷ rs) us i k v h = set-rev_onto rs (r ∷ us) i (suc k) v (omega arith)

pub get_at :
    (rs : List AreaOrder) (x : AreaOrder) (tail : List AreaOrder)
    → get_elem? (rev_onto rs (x ∷ tail)) (length rs) ≡ some x
get_at rs x tail = get_elem?-rev_onto x tail rs (x ∷ tail) (length rs) 0 (omega arith)

put_at :
    (rs us : List AreaOrder) (i k : ℕ) (v : AreaOrder) (e : FruErrno)
    → i ≡ length rs + k
    → k < length us
    → put (rev_onto rs us) i v e ≡ ok (rev_onto rs (set us k v)) e
unfolding put
put_at rs us i k v e h inside =
    let fits : ltb i (length (rev_onto rs us)) ≡ true =
      ground (arith, length-rev_onto v us rs us) in
    rw fits (ap (λ zs. ok zs e) (set-rev_onto v us rs us i k v h))

-- The entry is put behind those with an offset that is not higher.
abbrev pub insert_desc : AreaOrder → List AreaOrder → List AreaOrder
insert_desc a [] = a ∷ []
insert_desc a (r ∷ rs) =
    let rest = insert_desc a rs in if ltb a.offset r.offset then r ∷ rest else a ∷ r ∷ rs

abbrev pub AtMost : ℕ → AreaOrder → Type 0
AtMost k x = x.offset ≤ k

abbrev pub Desc : List AreaOrder → Type 0
Desc [] = Unit
Desc (r ∷ rs) = All (AtMost r.offset) rs × Desc rs

pub All-AtMost : (xs : List AreaOrder) {j k : ℕ} → j ≤ k → All (AtMost j) xs → All (AtMost k) xs
All-AtMost [] h hx = tt
All-AtMost (x ∷ xs) h (hx, hxs) = (omega arith, All-AtMost xs h hxs)

-- Nothing moves in front of a slot if no entry there has a higher offset.
place_left_stays :
    (a : AreaOrder) (newpos : ℕ) (rs tail : List AreaOrder) (e : FruErrno)
    → All (AtMost a.offset) rs
    → place_left a newpos (length rs) (rev_onto rs tail) e ≡ ok (rev_onto rs tail) e
unfolding place_left
place_left_stays a newpos [] tail e h = refl
place_left_stays a newpos (r ∷ rs) tail e (hr, h) =
    let stays : ltb a.offset r.offset ≡ false = ground arith in
    rw (get_at rs r tail, bind_outcome, deref, pure)
      (rw stays (place_left_stays a newpos rs (r ∷ tail) e h))

move_once :
    (rs : List AreaOrder) (r a : AreaOrder) (tail : List AreaOrder) (e : FruErrno)
    → move_right (length rs) 1 (rev_onto rs (r ∷ a ∷ tail)) e ≡ ok (rev_onto rs (r ∷ r ∷ tail)) e
unfolding move_right
move_once rs r a tail e =
    let at = get_elem?-rev_onto r tail rs (r ∷ a ∷ tail) (length rs + 0) 0 refl in
    let moved = put_at rs (r ∷ a ∷ tail) (suc (length rs + 0)) 1 r e (omega arith) (omega arith) in
    rw (at, bind_outcome, deref, pure) (rw (moved, bind_outcome) refl)

pub length-insert_desc :
    (a : AreaOrder) (rs : List AreaOrder) → length (insert_desc a rs) ≡ suc (length rs)
length-insert_desc a [] = refl
length-insert_desc a (r ∷ rs) = elim (Bool-cases (ltb a.offset r.offset)) [
  | inl moves ↦ rw moves (ap suc (length-insert_desc a rs))
  | inr stays ↦ rw stays refl
]

pub place_left_lem :
    (a : AreaOrder) (rs tail : List AreaOrder) (e : FruErrno)
    → Desc rs
    → place_left a (length rs) (length rs) (rev_onto rs (a ∷ tail)) e
      ≡ ok (rev_onto (insert_desc a rs) tail) e
unfolding place_left
place_left_lem a [] tail e h = refl
place_left_lem a (r ∷ rs) tail e (hr, h) = elim (Bool-cases (ltb a.offset r.offset)) [
  | inl moves ↦
      let one : suc (length rs) - length rs ≡ 1 = omega arith in
      let put_a = put_at rs (r ∷ r ∷ tail) (length rs) 0 a e (omega arith) (omega arith) in
      rw (get_at rs r (a ∷ tail), bind_outcome, deref, pure)
        (rw moves (
          rw one (
            rw (move_once rs r a tail e, bind_outcome)
              (rw (put_a, bind_outcome) (place_left_lem a rs (r ∷ tail) e h)))))
  | inr stays ↦
      let le : r.offset ≤ a.offset = ground arith in
      let below : All (AtMost a.offset) rs = All-AtMost rs le hr in
      rw (get_at rs r (a ∷ tail), bind_outcome, deref, pure)
        (rw stays (place_left_stays a (suc (length rs)) rs (r ∷ a ∷ tail) e below))
]
