-- ===== src/Area/Enable.antt =====
-- fru_enable_area on a well-formed FRU.
use frugen.Common.{
  minus_one, ℕ, suc, ◌+◌, ◌-◌, ◌≤◌, ◌<◌, ◌≡◌, refl, sym, ap, ◌∙◌, Bool, true, false, Option, some,
  none, List, ◌∷◌, ◌++◌, append_assoc, get_elem?, leb, arith, inr, length, length-append, take,
  drop, take-drop, length-take, set, get_elem?-set, get_elem?-lt, lt→ltb, get_elem?-append,
}
use frugen.Errno.{ok, fail, fault, FruErrno, bind_outcome, with_error, feaenabled}
use frugen.Fru.{Fru}
use frugen.Area.{
  Position, apos_auto, apos_last, apos_first, after_area, apos_max, is_auto, is_valid_position,
  search_position, find_position, new_position, pick_position, enable, enable_area, put, place,
}
use frugen.Area.Moves.{find_position_lem, place_lem}
use frugen.Area.Search.{search_first, search_behind, search_absent, search_auto}
use frugen.Area.Order.{WellFormed, WellFormed-Split, Flag, split_off, enabled_WellFormed}

-- The positions that name no absent area.
abbrev pub Reachable : Fru → Position → Type 0
Reachable fru (after_area y) = (y ≤ apos_max) × Flag fru.present true y
Reachable fru _ = Unit

pick_found :
    (after : Position) (p : ℕ) (auto : Option ℕ)
    → is_auto after ≡ false
    → pick_position after (some p, auto) ≡ some p
unfolding pick_position
pick_found after p none h = refl
pick_found after p (some j) h = rw h refl

place_split :
    (order xs ys on1 on2 : List ℕ) (a p : ℕ) (e : FruErrno)
    → order ≡ xs ++ a ∷ (ys ++ (on1 ++ on2))
    → p ≡ length xs + (length ys + length on1)
    → place order (length xs) (some p) a e ≡ ok (xs ++ ((ys ++ on1) ++ a ∷ on2)) e
place_split order xs ys on1 on2 a p e split at_end =
    rw (split, sym (append_assoc ys on1 on2))
      (place_lem xs a (ys ++ on1) on2 p e (omega (arith, length-append ys on1)))

pub put_lem {ℓ} :
    {A : Type ℓ} (xs : List A) (i : ℕ) (v : A) (e : FruErrno)
    → i < length xs
    → put xs i v e ≡ ok (set xs i v) e
unfolding put
put_lem xs i v e short = rw (lt→ltb i (length xs) short) refl

module _ (fru : Fru) (wf : WellFormed fru) (atype : ℕ) (e : FruErrno) where
  slot_of :
      (y : ℕ)
      → y ≤ apos_max
      → Flag fru.present true y
      → (k : ℕ) × (get_elem? fru.order k ≡ some y) × (length wf.off ≤ k) × (k ≤ apos_max)
  slot_of y valid here =
      let (xs, ys, split, found, none_before) =
        find_position_lem y 0 fru.order (omega (arith, wf.once y valid)) in
      let size : length xs ≤ apos_max =
        omega (arith, wf.order_size, ap length split, length-append xs (y ∷ ys)) in
      let at : get_elem? fru.order (length xs) ≡ some y = rw split (get_elem?-append xs y ys) in
      let (z, at_z, flag) = WellFormed-Split fru wf (length xs) size in
      let same : z ≡ y = cc in
      let on : leb (length wf.off) (length xs) ≡ true = cc in (length xs, at, ground arith, size)

  pub new_position_lands :
      (after : Position)
      → Reachable fru after
      → 1 ≤ length wf.off
      → length wf.off ≤ suc apos_max
      → (p : ℕ) × (new_position fru.present fru.order after atype e ≡ ok (some p) e)
        × (length wf.off ≤ suc p)
        × (p ≤ apos_max)
  unfolding new_position
  new_position_lands apos_last reachable some_off small = (apos_max, refl, small, omega arith)
  new_position_lands apos_first reachable some_off small =
      let (auto, found) =
        search_first fru.present fru.order atype (length wf.off) (WellFormed-Split fru wf)
          (suc apos_max) none 0 e some_off small (omega arith) in
      (
        length wf.off - 1,
        rw found (ap (λ q. ok q e) (pick_found apos_first _ auto refl)),
        omega arith,
        omega arith,
      )
  new_position_lands apos_auto reachable some_off small =
      let (j, found, low, top) =
        search_auto fru.present fru.order atype (length wf.off) (WellFormed-Split fru wf)
          (suc apos_max) none 0 e (omega arith) (inr (some_off, small, refl)) in
      (j, rw found (unfold pick_position in refl), low, top)
  new_position_lands (after_area y) (valid, here) some_off small =
      let (k, at, low, top) = slot_of y valid here in
      let (i, auto, low', top', found) =
        search_behind fru.present fru.order atype (length wf.off) (WellFormed-Split fru wf) y k
          (suc apos_max) none 0 e at low (omega arith) (omega arith) in
      (i, rw found (ap (λ q. ok q e) (pick_found (after_area y) i auto refl)), omega arith, top')

  -- The run of fru_enable_area behind its checks, with the lists that it moves the area between.
  enable_run :
      (after : Position) (old p : ℕ) (order' : List ℕ) (present' : List Bool)
      → find_position atype 0 fru.order ≡ some old
      → new_position fru.present fru.order after atype e ≡ ok (some p) e
      → place fru.order old (some p) atype e ≡ ok order' e
      → put fru.present atype true e ≡ ok present' e
      → enable fru atype after e ≡ ok (record fru { order = order'; present = present' }) e
  unfolding enable
  enable_run after old p order' present' found landed placed flagged =
      rw (found, enable)
        (rw (landed, bind_outcome) (rw (placed, bind_outcome) (rw (flagged, bind_outcome) refl)))

  pub enable_lem :
      (after : Position)
      → atype ≤ apos_max
      → Flag fru.present false atype
      → Reachable fru after
      → (xs : List ℕ) × (ys : List ℕ) × (on1 : List ℕ) × (on2 : List ℕ) × (wf.off
          ≡ xs ++ atype ∷ ys)
        × (wf.on ≡ on1 ++ on2)
        × (enable fru atype after e
            ≡ ok
                (record fru {
                  order = xs ++ ((ys ++ on1) ++ atype ∷ on2);
                  present = set fru.present atype true;
                })
                e)
  unfolding enable
  enable_lem after valid absent reachable =
      let (xs, rest, split, found, none_before) =
        find_position_lem atype 0 fru.order (omega (arith, wf.once atype valid)) in
      let (ys, eq_off, eq_rest) =
        split_off fru.present xs atype rest wf.off wf.on (sym split ∙ wf.grouped) wf.all_on
          absent in
      let size_off : length wf.off ≡ length xs + suc (length ys) =
        ap length eq_off ∙ length-append xs (atype ∷ ys) in
      let size : length wf.off + length wf.on ≡ suc apos_max =
        sym (length-append wf.off wf.on) ∙ sym (ap length wf.grouped) ∙ wf.order_size in
      let (p, landed, low, top) = new_position_lands after reachable (omega arith) (omega arith) in
      (
        xs,
        ys,
        take (suc p - length wf.off) wf.on,
        drop (suc p - length wf.off) wf.on,
        eq_off,
        sym (take-drop (suc p - length wf.off) wf.on),
        enable_run after (length xs) p _ _ (found ∙ ap some (omega arith)) landed
            (place_split fru.order xs ys (take (suc p - length wf.off) wf.on)
              (drop (suc p - length wf.off) wf.on) atype p e
              (split
                ∙ ap (λ t. xs ++ atype ∷ t)
                    (eq_rest ∙ ap (λ t. ys ++ t) (sym (take-drop (suc p - length wf.off) wf.on))))
              (omega (arith, length-take (suc p - length wf.off) wf.on)))
            (put_lem fru.present atype true e (get_elem?-lt fru.present atype absent)),
      )

-- fru_enable_area past its checks.
valid_position :
    (fru : Fru) (after : Position) → Reachable fru after → is_valid_position after ≡ true
valid_position fru apos_last reachable = refl
valid_position fru apos_first reachable = refl
valid_position fru apos_auto reachable = refl
valid_position fru (after_area y) (valid, here) = ground arith

checked :
    (fru : Fru) (atype : ℕ) (after : Position) (e : FruErrno)
    → atype ≤ apos_max
    → is_valid_position after ≡ true
    → Flag fru.present false atype
    → enable_area (some fru) atype after e ≡ enable fru atype after e
unfolding enable_area
checked fru atype after e valid valid_after absent =
    let valid_type : leb atype 4 ≡ true = ground arith in
    rw valid_type (rw (valid_after, bind_outcome) (rw (absent, bind_outcome) refl))

-- What changes in the FRU, and what does not.
pub enable_area_form :
    (fru : Fru) (atype : ℕ) (after : Position) (e : FruErrno)
    → WellFormed fru
    → atype ≤ apos_max
    → Flag fru.present false atype
    → Reachable fru after
    → (order' : List ℕ) × (enable_area (some fru) atype after e
        ≡ ok (record fru { order = order'; present = set fru.present atype true }) e)
enable_area_form fru atype after e wf valid absent reachable =
    let (xs, ys, on1, on2, eq_off, eq_on, run) =
      enable_lem fru wf atype e after valid absent reachable in
    (
      xs ++ ((ys ++ on1) ++ atype ∷ on2),
      checked fru atype after e valid (valid_position fru after reachable) absent ∙ run,
    )

-- An area that is present is an error.
pub enable_area_present :
    (fru : Fru) (atype : ℕ) (e : FruErrno)
    → atype ≤ apos_max
    → Flag fru.present true atype
    → enable_area (some fru) atype apos_auto e ≡ fail (with_error feaenabled atype minus_one e)
unfolding enable_area
enable_area_present fru atype e valid here =
    let valid_type : leb atype 4 ≡ true = ground arith in
    rw valid_type (rw (here, bind_outcome) refl)

-- On a FRU whose area order is well-formed, fru_enable_area puts an area that is not present at any
-- position that does not name an absent area, without an error, and leaves the order well-formed
-- and the area present.
pub enable_area-WellFormed :
    (fru : Fru) (atype : ℕ) (after : Position) (e : FruErrno)
    → WellFormed fru
    → atype ≤ apos_max
    → Flag fru.present false atype
    → Reachable fru after
    → (fru' : Fru) × (enable_area (some fru) atype after e ≡ ok fru' e)
      × WellFormed fru'
      × Flag fru'.present true atype
enable_area-WellFormed fru atype after e wf valid absent reachable =
    let (xs, ys, on1, on2, eq_off, eq_on, run) =
      enable_lem fru wf atype e after valid absent reachable in
    (
      record fru {
        order = xs ++ ((ys ++ on1) ++ atype ∷ on2);
        present = set fru.present atype true;
      },
      checked fru atype after e valid (valid_position fru after reachable) absent ∙ run,
      enabled_WellFormed fru atype xs ys on1 on2 valid wf eq_off eq_on,
      get_elem?-set fru.present atype true (get_elem?-lt fru.present atype absent),
    )

absent_run :
    (fru : Fru) (atype y old : ℕ) (auto : Option ℕ) (e : FruErrno)
    → find_position atype 0 fru.order ≡ some old
    → search_position fru.present fru.order (after_area y) atype (suc apos_max) none 0 e
      ≡ ok (none, auto) e
    → enable fru atype (after_area y) e ≡ fault
unfolding enable new_position pick_position place
absent_run fru atype y old none e found searched =
    rw (found, enable) (rw (searched, bind_outcome) refl)
absent_run fru atype y old (some j) e found searched =
    rw (found, enable) (rw (searched, bind_outcome) refl)

-- Behind an area that is not present, fru_enable_area writes in front of the order array.
pub enable_area_absent :
    (fru : Fru) (atype y : ℕ) (e : FruErrno)
    → WellFormed fru
    → atype ≤ apos_max
    → y ≤ apos_max
    → Flag fru.present false atype
    → Flag fru.present false y
    → enable_area (some fru) atype (after_area y) e ≡ fault
enable_area_absent fru atype y e wf valid valid_y absent absent_y =
    let (xs, rest, split, found, none_before) =
      find_position_lem atype 0 fru.order (omega (arith, wf.once atype valid)) in
    let (auto, searched) =
      search_absent fru.present fru.order atype (length wf.off) (WellFormed-Split fru wf) y
        (suc apos_max) none 0 e absent_y (omega arith) in
    checked fru atype (after_area y) e valid (ground arith) absent
    ∙ absent_run fru atype y _ auto e found searched
