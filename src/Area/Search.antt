-- ===== src/Area/Search.antt =====
-- The loop of fru_enable_area for the new position: where it ends.
use frugen.Common.{
  ℕ, zero, suc, ◌-◌, ◌≤◌, ◌<◌, ◌≡◌, ◌≢◌, refl, ap, ◌∙◌, Bool, true, false, Option, some, none, List,
  get_elem?, leb, ◌==◌, arith, inl, inr, ◌⊎◌, Bool-cases,
}
use frugen.Errno.{ok, FruErrno, Outcome, bind_outcome, deref, pure}
use frugen.Area.{
  Position, apos_first, apos_auto, after_area, apos_max, search_position, stops, improves,
  pick_position,
}

-- The areas of the order's slots from `m` on are present, and those before are not.
abbrev pub Split : List Bool → List ℕ → ℕ → Type 0
Split present order m =
    (i : ℕ)
    → i ≤ apos_max
    → (x : ℕ) × (get_elem? order i ≡ some x) × (get_elem? present x ≡ some (leb m i))

-- The loop ends, with a position at or behind the last area that is not present.
abbrev pub Lands : Position → ℕ → Outcome (Option ℕ × Option ℕ) → FruErrno → Type 0
Lands after m o e =
    (r : Option ℕ × Option ℕ) × (p : ℕ) × (o ≡ ok r e)
    × (pick_position after r ≡ some p)
    × (m ≤ suc p)
    × (p ≤ apos_max)

-- One round, by what it finds at its slot.
search_stops :
    (present : List Bool) (order : List ℕ) (after : Position) (atype i x : ℕ) (here : Bool)
    (auto : Option ℕ) (last : ℕ) (e : FruErrno)
    → get_elem? order i ≡ some x
    → get_elem? present x ≡ some here
    → stops after here x ≡ true
    → search_position present order after atype (suc i) auto last e ≡ ok (some i, auto) e
unfolding search_position
search_stops present order after atype i x here auto last e at flag stop =
    rw at (rw flag (rw (stop, bind_outcome, deref, pure) refl))

search_goes_on :
    (present : List Bool) (order : List ℕ) (after : Position) (atype i x : ℕ) (here : Bool)
    (auto : Option ℕ) (last : ℕ) (e : FruErrno)
    → get_elem? order i ≡ some x
    → get_elem? present x ≡ some here
    → stops after here x ≡ false
    → (auto' : Option ℕ) × (last' : ℕ) × (search_position present order after atype
          (suc i)
          auto
          last
          e
        ≡ search_position present order after atype i auto' last' e)
      × (((auto' ≡ some i) × (improves atype here x auto last ≡ true))
          ⊎ ((auto' ≡ auto) × (improves atype here x auto last ≡ false)))
unfolding search_position
search_goes_on present order after atype i x here auto last e at flag stop =
    elim (Bool-cases (improves atype here x auto last)) [
      | inl moves ↦ (
        some i,
        x,
        rw at (rw flag (rw (stop, bind_outcome, deref, pure) (rw moves refl))),
        inl (refl, moves),
      )
      | inr stays ↦ (
        auto,
        last,
        rw at (rw flag (rw (stop, bind_outcome, deref, pure) (rw stays refl))),
        inr (refl, stays),
      )
    ]

other_slot :
    (order : List ℕ) (i k x y : ℕ)
    → get_elem? order k ≡ some y
    → get_elem? order i ≡ some x
    → x == y ≡ false
    → k ≢ i
other_slot order i k x y at_k at_i other same = let same_area : x ≡ y = cc in absurd (ground arith)

absent_goes_on :
    (present : List Bool) (x y : ℕ) (here : Bool)
    → get_elem? present y ≡ some false
    → get_elem? present x ≡ some here
    → stops (after_area y) here x ≡ false
unfolding stops
absent_goes_on present x y false absent flag = refl
absent_goes_on present x y true absent flag = elim (Bool-cases (x == y)) [
  | inl same ↦ let same_area : x ≡ y = ground arith in absurd (cc)
  | inr other ↦ other
]

-- The automatic position moves at the first area that is not present, and then at present ones.
improves_once :
    (atype x j last : ℕ) (here : Bool) (auto : Option ℕ)
    → auto ≡ some j
    → improves atype here x auto last ≡ true
    → here ≡ true
improves_once atype x j last true auto eq moves = refl
improves_once atype x j last false auto eq moves =
    let stays : improves atype false x auto last ≡ false = rw eq (unfold improves in refl) in
    absurd (cc)

improves_absent :
    (atype x last : ℕ) (here : Bool) (auto : Option ℕ)
    → auto ≡ none
    → improves atype here x auto last ≡ false
    → here ≡ true
improves_absent atype x last true auto eq stays = refl
improves_absent atype x last false auto eq stays =
    let moves : improves atype false x auto last ≡ true = rw eq (unfold improves in refl) in
    absurd (cc)

never_stops : (here : Bool) (x : ℕ) → stops apos_auto here x ≡ false
unfolding stops
never_stops true x = refl
never_stops false x = refl

module _ (present : List Bool) (order : List ℕ) (atype m : ℕ) (split : Split present order m) where
  -- For the first position the loop ends at the last area that is not present.
  pub search_first :
      (n : ℕ) (auto : Option ℕ) (last : ℕ) (e : FruErrno)
      → 1 ≤ m
      → m ≤ n
      → n ≤ suc apos_max
      → (auto' : Option ℕ) × (search_position present order apos_first atype n auto last e
          ≡ ok (some (m - 1), auto') e)
  search_first zero auto last e some_off low high = absurd (omega arith)
  search_first (suc i) auto last e some_off low high =
      let (x, at, flag) = split i (omega arith) in
      elim (Bool-cases (leb m i)) [
        | inl on ↦
            let (auto', last', step, moved) =
              search_goes_on present order apos_first atype i x true auto last e at
                (flag ∙ ap some on) (unfold stops in refl) in
            let (auto_end, rest) =
              search_first i auto' last' e some_off (ground arith) (omega arith) in
            (auto_end, step ∙ rest)
        | inr off ↦ (
          auto,
          search_stops present order apos_first atype i x false auto last e at (flag ∙ ap some off)
                (unfold stops in refl)
              ∙ ap (λ p. ok (some p, auto) e) (ground arith),
        )
      ]

  -- Behind a present area the loop ends there.
  pub search_behind :
      (y k n : ℕ) (auto : Option ℕ) (last : ℕ) (e : FruErrno)
      → get_elem? order k ≡ some y
      → m ≤ k
      → k < n
      → n ≤ suc apos_max
      → (i : ℕ) × (auto' : Option ℕ) × (m ≤ i)
        × (i ≤ apos_max)
        × (search_position present order (after_area y) atype n auto last e ≡ ok (some i, auto') e)
  search_behind y k zero auto last e at_k on low high = absurd (omega arith)
  search_behind y k (suc i) auto last e at_k on low high =
      let (x, at, flag) = split i (omega arith) in
      let present_here : leb m i ≡ true = ground arith in
      elim (Bool-cases (x == y)) [
        | inl same ↦ (
          i,
          auto,
          omega arith,
          omega arith,
          search_stops present order (after_area y) atype i x true auto last e at
              (flag ∙ ap some present_here) (unfold stops in same),
        )
        | inr other ↦
            let (auto', last', step, moved) =
              search_goes_on present order (after_area y) atype i x true auto last e at
                (flag ∙ ap some present_here) (unfold stops in other) in
            let not_k : k ≢ i = other_slot order i k x y at_k at other in
            let (j, auto_end, low', high', rest) =
              search_behind y k i auto' last' e at_k on (omega arith) (omega arith) in
            (j, auto_end, low', high', step ∙ rest)
      ]

  -- Behind an area that is not present it runs through.
  pub search_absent :
      (y n : ℕ) (auto : Option ℕ) (last : ℕ) (e : FruErrno)
      → get_elem? present y ≡ some false
      → n ≤ suc apos_max
      → (auto' : Option ℕ) × (search_position present order (after_area y) atype n auto last e
          ≡ ok (none, auto') e)
  unfolding search_position
  search_absent y zero auto last e absent high = (auto, refl)
  search_absent y (suc i) auto last e absent high =
      let (x, at, flag) = split i (omega arith) in
      let (auto', last', step, moved) =
        search_goes_on present order (after_area y) atype i x (leb m i) auto last e at flag
          (absent_goes_on present x y (leb m i) absent flag) in
      let (auto_end, rest) = search_absent y i auto' last' e absent (omega arith) in
      (auto_end, step ∙ rest)

  next_auto :
      (i x last : ℕ) (auto auto' : Option ℕ)
      → i ≤ apos_max
      → ((j : ℕ) × (auto ≡ some j) × (m ≤ suc j) × (j ≤ apos_max))
        ⊎ ((1 ≤ m) × (m ≤ suc i) × (auto ≡ none))
      → ((auto' ≡ some i) × (improves atype (leb m i) x auto last ≡ true))
        ⊎ ((auto' ≡ auto) × (improves atype (leb m i) x auto last ≡ false))
      → ((j : ℕ) × (auto' ≡ some j) × (m ≤ suc j) × (j ≤ apos_max))
        ⊎ ((1 ≤ m) × (m ≤ i) × (auto' ≡ none))
  next_auto i x last auto auto' high (inl (j, eq, low, top)) (inl (eq', moves)) =
      let on = improves_once atype x j last (leb m i) auto eq moves in
      inl (i, eq', ground arith, high)
  next_auto i x last auto auto' high (inl (j, eq, low, top)) (inr (eq', stays)) =
      inl (j, eq' ∙ eq, low, top)
  next_auto i x last auto auto' high (inr (some_off, low, eq)) (inl (eq', moves)) =
      inl (i, eq', low, high)
  next_auto i x last auto auto' high (inr (some_off, low, eq)) (inr (eq', stays)) =
      let on = improves_absent atype x last (leb m i) auto eq stays in
      inr (some_off, ground arith, eq' ∙ eq)

  -- The automatic position, once found, stays at or behind the last area that is not present.
  pub search_auto :
      (n : ℕ) (auto : Option ℕ) (last : ℕ) (e : FruErrno)
      → n ≤ suc apos_max
      → ((j : ℕ) × (auto ≡ some j) × (m ≤ suc j) × (j ≤ apos_max))
        ⊎ ((1 ≤ m) × (m ≤ n) × (auto ≡ none))
      → (j : ℕ) × (search_position present order apos_auto atype n auto last e
          ≡ ok (none, some j) e)
        × (m ≤ suc j)
        × (j ≤ apos_max)
  unfolding search_position
  search_auto zero auto last e high (inl (j, eq, low, top)) = (j, rw eq refl, low, top)
  search_auto zero auto last e high (inr (pos, low, eq)) = absurd (omega arith)
  search_auto (suc i) auto last e high known =
      let (x, at, flag) = split i (omega arith) in
      let (auto', last', step, moved) =
        search_goes_on present order apos_auto atype i x (leb m i) auto last e at flag
          (never_stops (leb m i) x) in
      let (j, rest, low, top) =
        search_auto i auto' last' e (omega arith)
          (next_auto i x last auto auto' (omega arith) known moved) in
      (j, step ∙ rest, low, top)
