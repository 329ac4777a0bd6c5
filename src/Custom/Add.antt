-- ===== src/Custom/Add.antt =====
-- fru_add_custom, and what the other calls then see.
use frugen.Common.{
  ℕ, zero, suc, ◌≤◌, ◌≡◌, refl, sym, ◌∙◌, Bool, true, false, some, List, [], arith, get_elem?-set,
  get_elem?-lt, get_elem?_total, minus_one, set,
}
use mathlib.Core.Path.{subst}
use frugen.Errno.{FruErrno, ok, bind_outcome, with_error, feaenabled}
use frugen.Fru.{Fru, Reclist, info_area}
use frugen.Area.{apos_auto, apos_max}
use frugen.Area.Order.{WellFormed, WellFormed-same, Flag}
use frugen.Area.Enable.{enable_area_form, enable_area-WellFormed, enable_area_present}
use frugen.Custom.{get_customlist, set_customlist, custom_area, try_enable}

-- The list of custom fields of an information area.
abbrev pub custom_list : Fru → ℕ → Reclist
custom_list fru (suc zero) = fru.chassis.chassis_cust
custom_list fru (suc (suc zero)) = fru.board.board_cust
custom_list fru (suc (suc (suc zero))) = fru.product.product_cust
custom_list fru _ = []

-- A property of the three information areas.
pub info_cases {ℓ} :
    (P : ℕ → Type ℓ) → P 1 → P 2 → P 3 → (atype : ℕ) → 1 ≤ atype → atype ≤ 3 → P atype
info_cases P p1 p2 p3 zero low high = absurd (omega arith)
info_cases P p1 p2 p3 (suc zero) low high = p1
info_cases P p1 p2 p3 (suc (suc zero)) low high = p2
info_cases P p1 p2 p3 (suc (suc (suc zero))) low high = p3
info_cases P p1 p2 p3 (suc (suc (suc (suc n)))) low high = absurd (omega arith)

module _ (fru : Fru) (e : FruErrno) where
  pub get_customlist_lem :
      (atype : ℕ)
      → 1 ≤ atype
      → atype ≤ 3
      → get_customlist fru atype e ≡ ok (custom_list fru atype) e
  unfolding get_customlist
  get_customlist_lem =
      info_cases (λ a. get_customlist fru a e ≡ ok (custom_list fru a) e) refl refl refl

  -- The list that is put back is the one that is then found, whatever the order of the areas is.
  pub get-set_customlist :
      (cust : Reclist) (order' : List ℕ) (present' : List Bool) (atype : ℕ)
      → 1 ≤ atype
      → atype ≤ 3
      → get_customlist
          (record (set_customlist fru atype cust) { order = order'; present = present' })
          atype
          e
        ≡ ok cust e
  unfolding get_customlist set_customlist
  get-set_customlist cust order' present' =
      info_cases
        (λ a.
          get_customlist (record (set_customlist fru a cust) { order = order'; present = present' })
            a e
          ≡ ok cust e)
        refl refl refl

  pub info_area_lem :
      (atype : ℕ)
      → 1 ≤ atype
      → atype ≤ 3
      → Flag fru.present true atype
      → info_area (some fru) atype e ≡ ok fru e
  unfolding info_area
  info_area_lem =
      info_cases (λ a. Flag fru.present true a → info_area (some fru) a e ≡ ok fru e)
        (λ here. rw (here, bind_outcome) refl) (λ here. rw (here, bind_outcome) refl)
        (λ here. rw (here, bind_outcome) refl)

  pub custom_area_lem :
      (where_ atype : ℕ) → 1 ≤ atype → atype ≤ 3 → custom_area where_ (some fru) atype e ≡ ok fru e
  unfolding custom_area
  custom_area_lem where_ =
      info_cases (λ a. custom_area where_ (some fru) a e ≡ ok fru e) refl refl refl

pub custom_list-set :
    (fru : Fru) (cust : Reclist) (atype : ℕ)
    → 1 ≤ atype
    → atype ≤ 3
    → custom_list (set_customlist fru atype cust) atype ≡ cust
unfolding set_customlist
custom_list-set fru cust =
    info_cases (λ a. custom_list (set_customlist fru a cust) a ≡ cust) refl refl refl

-- A list that is put back changes neither the order of the areas nor which are present.
set_customlist-order :
    (fru : Fru) (cust : Reclist) (atype : ℕ)
    → 1 ≤ atype
    → atype ≤ 3
    → (set_customlist fru atype cust).order ≡ fru.order
unfolding set_customlist
set_customlist-order fru cust =
    info_cases (λ a. (set_customlist fru a cust).order ≡ fru.order) refl refl refl

set_customlist-present :
    (fru : Fru) (cust : Reclist) (atype : ℕ)
    → 1 ≤ atype
    → atype ≤ 3
    → (set_customlist fru atype cust).present ≡ fru.present
unfolding set_customlist
set_customlist-present fru cust =
    info_cases (λ a. (set_customlist fru a cust).present ≡ fru.present) refl refl refl

pub set_customlist-WellFormed :
    (fru : Fru) (cust : Reclist) (atype : ℕ)
    → 1 ≤ atype
    → atype ≤ 3
    → WellFormed fru
    → WellFormed (set_customlist fru atype cust)
set_customlist-WellFormed fru cust atype low high wf =
    WellFormed-same fru (set_customlist fru atype cust)
      (set_customlist-order fru cust atype low high)
      (set_customlist-present fru cust atype low high) wf

-- The enabling that ends fru_add_custom: the area is present after it.
pub try_enable_lem :
    (fru : Fru) (atype : ℕ) (e : FruErrno)
    → WellFormed fru
    → atype ≤ apos_max
    → (order' : List ℕ) × (present' : List Bool) × (e' : FruErrno) × (try_enable fru atype e
        ≡ ok (record fru { order = order'; present = present' }) e')
      × Flag present' true atype
      × WellFormed (record fru { order = order'; present = present' })
unfolding try_enable
try_enable_lem fru atype e wf valid =
    let (here, flag) = get_elem?_total fru.present atype (omega (arith, wf.present_size)) in
    by_flag here flag
  where
    by_flag :
        (here : Bool)
        → Flag fru.present here atype
        → (order' : List ℕ) × (present' : List Bool) × (e' : FruErrno) × (try_enable fru atype e
            ≡ ok (record fru { order = order'; present = present' }) e')
          × Flag present' true atype
          × WellFormed (record fru { order = order'; present = present' })
    by_flag true here = (
      fru.order,
      fru.present,
      with_error feaenabled atype minus_one e,
      rw (enable_area_present fru atype e valid here, try_enable) refl,
      here,
      wf,
    )
    by_flag false absent =
        let (order', run) = enable_area_form fru atype apos_auto e wf valid absent tt in
        let (fru', run', wf', _) =
          enable_area-WellFormed fru atype apos_auto e wf valid absent tt in
        let both = sym run' ∙ run in
        let is_fru' : fru' ≡ record fru { order = order'; present = set fru.present atype true } =
          cc in
        (
          order',
          set fru.present atype true,
          e,
          rw (run, try_enable) refl,
          get_elem?-set fru.present atype true (get_elem?-lt fru.present atype absent),
          subst WellFormed is_fru' wf',
        )
