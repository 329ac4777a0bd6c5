-- ===== src/Area/Move.antt =====
-- fru_disable_area and fru_move_area on a well-formed FRU.
use frugen.Common.{
  ℕ, ◌+◌, ◌-◌, ◌≤◌, ◌≡◌, ◌≢◌, refl, sym, ap, ap₂, ◌∙◌, Bool, true, false, some, List, [], ◌∷◌, ◌++◌,
  append_assoc, get_elem?, leb, arith, minus_one, length, length-append, take, drop, take-drop,
  length-take, All, set, get_elem?-set, get_elem?-lt,
}
use frugen.Errno.{ok, FruErrno, bind_outcome, with_error, fenone, ferr_loc_general}
use frugen.Fru.{Fru}
use frugen.Area.{
  Position, apos_max, find_position, search_disabled, shift_right, disable, disable_area, put,
  move_area, enable_again,
}
use frugen.Area.Moves.{find_position_lem, put-append}
use frugen.Area.Order.{WellFormed, Flag}
use frugen.Area.Disable.{search_disabled_lem, shift_right_lem, disabled_WellFormed}
use frugen.Area.Enable.{Reachable, put_lem, enable_area-WellFormed}

split_on :
    (present : List Bool) (pre : List ℕ) (a : ℕ) (rest off on : List ℕ)
    → pre ++ a ∷ rest ≡ off ++ on
    → All (Flag present false) off
    → Flag present true a
    → (xs : List ℕ) × (pre ≡ off ++ xs) × (on ≡ xs ++ a ∷ rest)
split_on present pre a rest [] on eq h_off here = (pre, refl, sym eq)
split_on present [] a rest (o ∷ off) on eq (ho, h_off) here =
    let same : a ≡ o = cc in absurd (true_ne_false (sym here ∙ ap (get_elem? present) same ∙ ho))
  where
    true_ne_false : some true ≢ some false
    true_ne_false h = cc
split_on present (p ∷ pre) a rest (o ∷ off) on eq (ho, h_off) here =
    let (xs, eq_pre, eq_on) = split_on present pre a rest off on (cc) h_off here in (xs, cc, eq_on)

disable_run :
    (fru : Fru) (atype old p : ℕ) (shifted order' : List ℕ) (present' : List Bool) (e : FruErrno)
    → find_position atype 0 fru.order ≡ some old
    → search_disabled fru.present atype 0 fru.order e ≡ ok p e
    → shift_right (old - p) old fru.order e ≡ ok shifted e
    → put shifted p atype e ≡ ok order' e
    → put fru.present atype false e ≡ ok present' e
    → disable fru atype e ≡ ok (record fru { order = order'; present = present' }) e
unfolding disable
disable_run fru atype old p shifted order' present' e found searched moved placed flagged =
    rw (found, disable)
      (rw (searched, bind_outcome)
        (rw (moved, bind_outcome) (rw (placed, bind_outcome) (rw (flagged, bind_outcome) refl))))

-- The shift and the write behind it.
replace_lem :
    (order off1 zs rest : List ℕ) (a k old : ℕ) (e : FruErrno)
    → order ≡ off1 ++ (zs ++ a ∷ rest)
    → k ≡ length off1
    → old ≡ length off1 + length zs
    → (shifted : List ℕ) × (shift_right (old - k) old order e ≡ ok shifted e)
      × (put shifted k a e ≡ ok (off1 ++ a ∷ (zs ++ rest)) e)
replace_lem order off1 zs rest a k old e split at_k at_old =
    let (b, moved) = shift_right_lem (length zs) off1 zs a rest e refl in
    let rounds : old - k ≡ length zs = omega arith in
    (
      off1 ++ b ∷ (zs ++ rest),
      rw (rounds, at_old, split) moved,
      rw at_k (put-append off1 b (zs ++ rest) a e),
    )

disable_checked :
    (fru : Fru) (atype : ℕ) (e : FruErrno)
    → atype ≤ apos_max
    → Flag fru.present true atype
    → disable_area (some fru) atype e ≡ disable fru atype e
unfolding disable_area
disable_checked fru atype e valid here =
    let valid_type : leb atype 4 ≡ true = ground arith in
    rw valid_type (rw (here, bind_outcome) refl)

-- On a FRU whose area order is well-formed, fru_disable_area of a present area succeeds without an
-- error and leaves the order well-formed and the area not present.
pub disable_area-WellFormed :
    (fru : Fru) (atype : ℕ) (e : FruErrno)
    → WellFormed fru
    → atype ≤ apos_max
    → Flag fru.present true atype
    → (fru' : Fru) × (disable_area (some fru) atype e ≡ ok fru' e)
      × WellFormed fru'
      × Flag fru'.present false atype
disable_area-WellFormed fru atype e wf valid here =
    let (pre, rest, split, found, none_before) =
      find_position_lem atype 0 fru.order (omega (arith, wf.once atype valid)) in
    let (xs, eq_pre, eq_on) =
      split_on fru.present pre atype rest wf.off wf.on (sym split ∙ wf.grouped) wf.all_off here in
    let (k, searched, low) =
      search_disabled_lem fru.present atype 0 wf.off wf.on e wf.all_off wf.all_on in
    let size_pre : length pre ≡ length wf.off + length xs =
      ap length eq_pre ∙ length-append wf.off xs in
    let cut : wf.off ≡ take k wf.off ++ drop k wf.off = sym (take-drop k wf.off) in
    let size_cut : length wf.off ≡ length (take k wf.off) + length (drop k wf.off) =
      ap length cut ∙ length-append (take k wf.off) (drop k wf.off) in
    let regrouped : fru.order ≡ take k wf.off ++ ((drop k wf.off ++ xs) ++ atype ∷ rest) =
      wf.grouped
      ∙ ap₂ (λ s t. s ++ t) cut eq_on
      ∙ append_assoc (take k wf.off) (drop k wf.off) (xs ++ atype ∷ rest)
      ∙ ap (λ t. take k wf.off ++ t) (sym (append_assoc (drop k wf.off) xs (atype ∷ rest))) in
    let from_zero : 0 + k ≡ k = omega arith in
    let searched_all : search_disabled fru.present atype 0 fru.order e ≡ ok k e =
      rw wf.grouped (searched ∙ ap (λ p. ok p e) from_zero) in
    let (shifted, moved, placed) =
      replace_lem fru.order (take k wf.off) (drop k wf.off ++ xs) rest atype k (length pre) e
        regrouped (omega (arith, length-take k wf.off))
        (omega (arith, length-append (drop k wf.off) xs)) in
    (
      record fru {
        order = take k wf.off ++ atype ∷ ((drop k wf.off ++ xs) ++ rest);
        present = set fru.present atype false;
      },
      disable_checked fru atype e valid here
          ∙ disable_run fru atype (length pre) k shifted _ _ e (found ∙ ap some (omega arith))
              searched_all moved placed
              (put_lem fru.present atype false e (get_elem?-lt fru.present atype here)),
      disabled_WellFormed fru atype (take k wf.off) (drop k wf.off) xs rest valid wf cut eq_on,
      get_elem?-set fru.present atype false (get_elem?-lt fru.present atype here),
    )

-- On a FRU whose area order is well-formed, fru_move_area of a present area to the first, the
-- last or the automatic position clears the error, returns true, and leaves the order well-formed
-- and the area present.
pub move_area-WellFormed :
    (fru : Fru) (atype : ℕ) (after : Position) (e : FruErrno)
    → WellFormed fru
    → atype ≤ apos_max
    → Flag fru.present true atype
    → ((f : Fru) → Reachable f after)
    → (fru' : Fru) × (move_area (some fru) atype after e
        ≡ ok (fru', true) (with_error fenone ferr_loc_general minus_one e))
      × WellFormed fru'
      × Flag fru'.present true atype
unfolding move_area enable_again
move_area-WellFormed fru atype after e wf valid here reachable =
    let cleared = with_error fenone ferr_loc_general minus_one e in
    let (disabled, run, wf', absent) = disable_area-WellFormed fru atype cleared wf valid here in
    let (fru', run', wf'', here') =
      enable_area-WellFormed disabled atype after cleared wf' valid absent (reachable disabled) in
    (fru', rw (run, bind_outcome) (rw run' refl), wf'', here')
