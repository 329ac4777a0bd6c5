-- ===== src/Load/Order/Sort.antt =====
-- The sort of the areas is an insertion sort, which is stable.
use frugen.Common.{
  ℕ, ◌≤◌, ◌<◌, ◌≡◌, ◌∙◌, refl, sym, ap, false, List, [], ◌∷◌, ◌==◌, ltb, length, arith,
  if◌then◌else◌, Bool-cases, inl, inr, All,
}
use frugen.Errno.{FruErrno, ok, bind_outcome, pure, deref}
use frugen.Load.Order.{AreaOrder, sort_from, sort_areas_by_offset}
use frugen.Load.Order.Slots.{
  rev_onto, get_at, insert_desc, AtMost, Desc, All-AtMost, length-insert_desc, place_left_lem,
}

abbrev pub AtLeast : ℕ → AreaOrder → Type 0
AtLeast k x = k ≤ x.offset

All-insert_desc :
    (k : ℕ) (a : AreaOrder) (rs : List AreaOrder)
    → a.offset ≤ k
    → All (AtMost k) rs
    → All (AtMost k) (insert_desc a rs)
All-insert_desc k a [] ha h = (ha, tt)
All-insert_desc k a (r ∷ rs) ha (hr, h) = elim (Bool-cases (ltb a.offset r.offset)) [
  | inl moves ↦ rw moves (hr, All-insert_desc k a rs ha h)
  | inr stays ↦ rw stays (ha, (hr, h))
]

Desc-insert_desc : (a : AreaOrder) (rs : List AreaOrder) → Desc rs → Desc (insert_desc a rs)
Desc-insert_desc a [] h = (tt, tt)
Desc-insert_desc a (r ∷ rs) (hr, h) = elim (Bool-cases (ltb a.offset r.offset)) [
  | inl moves ↦
      let le : a.offset ≤ r.offset = ground arith in
      rw moves (All-insert_desc r.offset a rs le hr, Desc-insert_desc a rs h)
  | inr stays ↦
      let le : r.offset ≤ a.offset = ground arith in rw stays ((le, All-AtMost rs le hr), (hr, h))
]

-- The entries with an offset, in their order.
abbrev pub with_offset : ℕ → List AreaOrder → List AreaOrder
with_offset k [] = []
with_offset k (x ∷ xs) = let rest = with_offset k xs in if x.offset == k then x ∷ rest else rest

with_offset-swap :
    (k : ℕ) (a r : AreaOrder) (tail : List AreaOrder)
    → a.offset < r.offset
    → with_offset k (r ∷ a ∷ tail) ≡ with_offset k (a ∷ r ∷ tail)
with_offset-swap k a r tail h = elim (Bool-cases (r.offset == k)) [
  | inl hit ↦ let miss : (a.offset == k) ≡ false = ground arith in rw (hit, miss) refl
  | inr miss ↦ rw miss refl
]

-- A view of an array in which entries with different offsets may be exchanged.
module _ {R : Type 0} (view : List AreaOrder → R)
    (view-cons : (x : AreaOrder) (us vs : List AreaOrder)
      → view us ≡ view vs
      → view (x ∷ us) ≡ view (x ∷ vs))
    (view-swap : (a r : AreaOrder) (tail : List AreaOrder)
      → a.offset < r.offset
      → view (r ∷ a ∷ tail) ≡ view (a ∷ r ∷ tail)) where
  view-rev_onto :
      (rs us vs : List AreaOrder)
      → view us ≡ view vs
      → view (rev_onto rs us) ≡ view (rev_onto rs vs)
  view-rev_onto [] us vs h = h
  view-rev_onto (r ∷ rs) us vs h = view-rev_onto rs (r ∷ us) (r ∷ vs) (view-cons r us vs h)

  view-insert_desc :
      (a : AreaOrder) (rs tail : List AreaOrder)
      → view (rev_onto (insert_desc a rs) tail) ≡ view (rev_onto rs (a ∷ tail))
  view-insert_desc a [] tail = refl
  view-insert_desc a (r ∷ rs) tail = elim (Bool-cases (ltb a.offset r.offset)) [
    | inl moves ↦
        let lt : a.offset < r.offset = ground arith in
        rw moves (
          view-insert_desc a rs (r ∷ tail)
          ∙ sym (view-rev_onto rs (r ∷ a ∷ tail) (a ∷ r ∷ tail) (view-swap a r tail lt)))
    | inr stays ↦ rw stays refl
  ]

abbrev pub Ascending : List AreaOrder → Type 0
Ascending [] = Unit
Ascending (x ∷ xs) = All (AtLeast x.offset) xs × Ascending xs

Ascending-rev_onto :
    (rs us : List AreaOrder)
    → Desc rs
    → Ascending us
    → All (λ u. All (AtMost u.offset) rs) us
    → Ascending (rev_onto rs us)
Ascending-rev_onto [] us h hu cross = hu
Ascending-rev_onto (r ∷ rs) us (hr, h) hu cross =
    let (above, below) = split us cross in Ascending-rev_onto rs (r ∷ us) h (above, hu) (hr, below)
  where
    split :
        (vs : List AreaOrder)
        → All (λ u. All (AtMost u.offset) (r ∷ rs)) vs
        → All (AtLeast r.offset) vs × All (λ u. All (AtMost u.offset) rs) vs
    split [] h = (tt, tt)
    split (v ∷ vs) ((hv, hvs), h) = let (above, below) = split vs h in ((hv, above), (hvs, below))

All-rev_onto :
    (P : AreaOrder → Type 0) (rs us : List AreaOrder) → All P rs → All P us → All P (rev_onto rs us)
All-rev_onto P [] us hr hu = hu
All-rev_onto P (r ∷ rs) us (h, hr) hu = All-rev_onto P rs (r ∷ us) hr (h, hu)

All-insert :
    (P : AreaOrder → Type 0) (a : AreaOrder) (rs : List AreaOrder)
    → P a
    → All P rs
    → All P (insert_desc a rs)
All-insert P a [] ha h = (ha, tt)
All-insert P a (r ∷ rs) ha (hr, h) = elim (Bool-cases (ltb a.offset r.offset)) [
  | inl moves ↦ rw moves (hr, All-insert P a rs ha h)
  | inr stays ↦ rw stays (ha, (hr, h))
]

module _ (P : AreaOrder → Type 0) {R : Type 0} (view : List AreaOrder → R)
    (view-cons : (x : AreaOrder) (us vs : List AreaOrder)
      → view us ≡ view vs
      → view (x ∷ us) ≡ view (x ∷ vs))
    (view-swap : (a r : AreaOrder) (tail : List AreaOrder)
      → a.offset < r.offset
      → view (r ∷ a ∷ tail) ≡ view (a ∷ r ∷ tail)) where
  sort_from_lem :
      (rs tail : List AreaOrder) (e : FruErrno)
      → Desc rs
      → All P rs
      → All P tail
      → (ys : List AreaOrder) × (sort_from (length rs) (length tail) (rev_onto rs tail) e ≡ ok ys e)
        × Ascending ys
        × (view ys ≡ view (rev_onto rs tail))
        × All P ys
  unfolding sort_from
  sort_from_lem rs [] e h hrs ht =
      (rev_onto rs [], refl, Ascending-rev_onto rs [] h tt tt, refl, All-rev_onto P rs [] hrs tt)
  sort_from_lem rs (a ∷ tail) e h hrs (ha, ht) =
      let (ys, eq, ascending, same, all) =
        sort_from_lem (insert_desc a rs) tail e (Desc-insert_desc a rs h) (All-insert P a rs ha hrs)
          ht in
      (
        ys,
        rw (get_at rs a tail, bind_outcome, deref, pure)
            (rw (place_left_lem a rs tail e h, bind_outcome)
              (rw (sym (length-insert_desc a rs)) eq)),
        ascending,
        same ∙ view-insert_desc view view-cons view-swap a rs tail,
        all,
      )

  pub sort_areas_by_offset-view :
      (area_order : List AreaOrder) (e : FruErrno)
      → length area_order ≡ 5
      → All P area_order
      → (sorted : List AreaOrder) × (sort_areas_by_offset area_order e ≡ ok sorted e)
        × Ascending sorted
        × (view sorted ≡ view area_order)
        × All P sorted
  unfolding sort_areas_by_offset
  sort_areas_by_offset-view [] e h all = absurd (omega arith)
  sort_areas_by_offset-view (a ∷ rest) e h (ha, all) =
      let four : length rest ≡ 4 = omega arith in
      let (ys, eq, ascending, same, kept) = sort_from_lem (a ∷ []) rest e (tt, tt) (ha, tt) all in
      (ys, ap (λ n. sort_from 1 n (a ∷ rest) e) (sym four) ∙ eq, ascending, same, kept)

-- For an array of five, sort_areas_by_offset succeeds with the entries in ascending order of
-- their offsets, and for every offset `k` the entries with it are the same ones as before, in the
-- same order.
pub sort_areas_by_offset_lem :
    (area_order : List AreaOrder) (k : ℕ) (e : FruErrno)
    → length area_order ≡ 5
    → (sorted : List AreaOrder) × (sort_areas_by_offset area_order e ≡ ok sorted e)
      × Ascending sorted
      × (with_offset k sorted ≡ with_offset k area_order)
sort_areas_by_offset_lem area_order k e h =
    let (sorted, eq, ascending, same, _) =
      sort_areas_by_offset-view (λ _. Unit {0}) (with_offset k)
        (λ x us vs. ap (λ zs. if x.offset == k then x ∷ zs else zs)) (with_offset-swap k) area_order
        e h (all_unit area_order) in
    (sorted, eq, ascending, same)
  where
    all_unit : (xs : List AreaOrder) → All {0, 0} (λ _. Unit {0}) xs
    all_unit [] = tt
    all_unit (x ∷ xs) = (tt, all_unit xs)
