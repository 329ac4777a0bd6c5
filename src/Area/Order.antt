-- ===== src/Area/Order.antt =====
-- The invariant of a FRU's area order that fru.h.in states: every area stands in it once, and the
-- areas that are not present come first.
use frugen.Common.{
  ℕ, zero, suc, ◌+◌, ◌≤◌, ◌<◌, ◌≡◌, ◌≢◌, refl, sym, ap, ◌∙◌, Bool, true, false, some, List, [], ◌∷◌,
  ◌++◌, append_assoc, get_elem?, leb, arith, length, length-append, All, All-append, All-append_inv,
  ap₂, set, get_elem?-set, get_elem?-set_other, get_elem?-lt, length-set,
}
use frugen.Fru.{Fru}
use frugen.Area.{apos_max}
use frugen.Area.Moves.{count, count-append}
use frugen.Area.Search.{Split}

abbrev pub Flag : List Bool → Bool → ℕ → Type 0
Flag present here x = get_elem? present x ≡ some here

pub record WellFormed (fru : Fru) : Type 0 where
  pub present_size : length fru.present ≡ suc apos_max
  pub order_size : length fru.order ≡ suc apos_max
  pub once : (a : ℕ) → a ≤ apos_max → count a fru.order ≡ 1
  pub off : List ℕ
  pub on : List ℕ
  pub grouped : fru.order ≡ off ++ on
  pub all_off : All (Flag fru.present false) off
  pub all_on : All (Flag fru.present true) on

module _ (present : List Bool) where
  All-on_at :
      (on : List ℕ) (i : ℕ)
      → All (Flag present true) on
      → i < length on
      → (x : ℕ) × (get_elem? on i ≡ some x) × (get_elem? present x ≡ some (leb 0 i))
  All-on_at [] i h short = absurd (omega arith)
  All-on_at (x ∷ on) zero (hx, h) short = (x, refl, hx)
  All-on_at (x ∷ on) (suc i) (hx, h) short =
      let (y, at, flag) = All-on_at on i h (omega arith) in (y, at, flag ∙ ap some (ground arith))

  grouped_at :
      (off on : List ℕ) (i : ℕ)
      → All (Flag present false) off
      → All (Flag present true) on
      → i < length off + length on
      → (x : ℕ) × (get_elem? (off ++ on) i ≡ some x)
        × (get_elem? present x ≡ some (leb (length off) i))
  grouped_at [] on i h_off h_on short = All-on_at on i h_on (omega arith)
  grouped_at (x ∷ off) on zero (hx, h_off) h_on short = (x, refl, hx ∙ ap some (ground arith))
  grouped_at (x ∷ off) on (suc i) (hx, h_off) h_on short =
      let (y, at, flag) = grouped_at off on i h_off h_on (omega arith) in
      (y, at, flag ∙ ap some (ground arith))

  -- An absent area stands in the first group.
  All-mid :
      (xs : List ℕ) (a : ℕ) (rest : List ℕ) (here : Bool)
      → All (Flag present here) (xs ++ a ∷ rest)
      → Flag present here a
  All-mid [] a rest here (h, hs) = h
  All-mid (x ∷ xs) a rest here (h, hs) = All-mid xs a rest here hs

  pub split_off :
      (xs : List ℕ) (a : ℕ) (rest off on : List ℕ)
      → xs ++ a ∷ rest ≡ off ++ on
      → All (Flag present true) on
      → Flag present false a
      → (ys : List ℕ) × (off ≡ xs ++ a ∷ ys) × (rest ≡ ys ++ on)
  split_off xs a rest [] on eq h_on absent =
      let h : All (Flag present true) (xs ++ a ∷ rest) = rw eq h_on in
      let here = All-mid xs a rest true h in absurd (false_ne_true (sym absent ∙ here))
    where
      false_ne_true : some false ≢ some true
      false_ne_true h = cc
  split_off [] a rest (o ∷ off) on eq h_on absent = (off, cc, cc)
  split_off (x ∷ xs) a rest (o ∷ off) on eq h_on absent =
      let (ys, eq_off, eq_rest) = split_off xs a rest off on (cc) h_on absent in (ys, cc, eq_rest)

pub WellFormed-Split :
    (fru : Fru) (wf : WellFormed fru) → Split fru.present fru.order (length wf.off)
WellFormed-Split fru wf i h =
    let size : length wf.off + length wf.on ≡ suc apos_max =
      sym (length-append wf.off wf.on) ∙ sym (ap length wf.grouped) ∙ wf.order_size in
    rw wf.grouped (grouped_at fru.present wf.off wf.on i wf.all_off wf.all_on (omega arith))

-- Writing another area's flag leaves a group as it is.
pub All-set :
    (present : List Bool) (a : ℕ) (v here : Bool) (xs : List ℕ)
    → count a xs ≡ 0
    → All (Flag present here) xs
    → All (Flag (set present a v) here) xs
All-set present a v here [] none_here h = tt
All-set present a v here (x ∷ xs) none_here (hx, h) = (
  get_elem?-set_other present a x v (ground arith) ∙ hx,
  All-set present a v here xs (ground arith) h,
)

count_moved :
    (b a : ℕ) (xs ys on1 on2 : List ℕ)
    → count b (xs ++ ((ys ++ on1) ++ a ∷ on2)) ≡ count b ((xs ++ a ∷ ys) ++ (on1 ++ on2))
count_moved b a xs ys on1 on2 = ground (
  arith,
  count-append b xs ((ys ++ on1) ++ a ∷ on2),
  count-append b (ys ++ on1) (a ∷ on2),
  count-append b ys on1,
  count-append b (xs ++ a ∷ ys) (on1 ++ on2),
  count-append b xs (a ∷ ys),
  count-append b on1 on2,
)

length_moved :
    (a : ℕ) (xs ys on1 on2 : List ℕ)
    → length (xs ++ ((ys ++ on1) ++ a ∷ on2)) ≡ length ((xs ++ a ∷ ys) ++ (on1 ++ on2))
length_moved a xs ys on1 on2 = omega (
  arith,
  length-append xs ((ys ++ on1) ++ a ∷ on2),
  length-append (ys ++ on1) (a ∷ on2),
  length-append ys on1,
  length-append (xs ++ a ∷ ys) (on1 ++ on2),
  length-append xs (a ∷ ys),
  length-append on1 on2,
)

-- The moved area occurs in no other place.
nowhere_else :
    (a : ℕ) (xs ys on1 on2 : List ℕ)
    → count a ((xs ++ a ∷ ys) ++ (on1 ++ on2)) ≡ 1
    → (count a (xs ++ ys) ≡ 0) × (count a on1 ≡ 0) × (count a on2 ≡ 0)
nowhere_else a xs ys on1 on2 h =
    let eq1 = count-append a (xs ++ a ∷ ys) (on1 ++ on2) in
    let eq2 = count-append a xs (a ∷ ys) in
    let eq3 = count-append a on1 on2 in
    let eq4 = count-append a xs ys in (ground arith, ground arith, ground arith)

-- What becomes of a well-formed FRU when an area moves from the first group into the second.
pub enabled_WellFormed :
    (fru : Fru) (a : ℕ) (xs ys on1 on2 : List ℕ)
    → a ≤ apos_max
    → (wf : WellFormed fru) → wf.off ≡ xs ++ a ∷ ys
    → wf.on ≡ on1 ++ on2
    → WellFormed
        (record fru { order = xs ++ ((ys ++ on1) ++ a ∷ on2); present = set fru.present a true })
enabled_WellFormed fru a xs ys on1 on2 valid wf eq_off eq_on =
    let before : fru.order ≡ (xs ++ a ∷ ys) ++ (on1 ++ on2) =
      wf.grouped ∙ ap₂ (λ s t. s ++ t) eq_off eq_on in
    let (not_off, not_on1, not_on2) =
      nowhere_else a xs ys on1 on2 (sym (ap (count a) before) ∙ wf.once a valid) in
    let h_off : All (Flag fru.present false) (xs ++ a ∷ ys) = rw (sym eq_off) wf.all_off in
    let h_on : All (Flag fru.present true) (on1 ++ on2) = rw (sym eq_on) wf.all_on in
    let (h_xs, (h_a, h_ys)) = All-append_inv (Flag fru.present false) xs (a ∷ ys) h_off in
    let (h_on1, h_on2) = All-append_inv (Flag fru.present true) on1 on2 h_on in
    let present' = set fru.present a true in
    record {
      present_size = length-set fru.present a true ∙ wf.present_size;
      order_size = length_moved a xs ys on1 on2 ∙ sym (ap length before) ∙ wf.order_size;
      once = λ b h. count_moved b a xs ys on1 on2 ∙ sym (ap (count b) before) ∙ wf.once b h;
      off = xs ++ ys;
      on = on1 ++ a ∷ on2;
      grouped =
          ap (λ t. xs ++ t) (append_assoc ys on1 (a ∷ on2))
          ∙ sym (append_assoc xs ys (on1 ++ a ∷ on2));
      all_off =
          All-set fru.present a true false (xs ++ ys) not_off
            (All-append (Flag fru.present false) xs ys h_xs h_ys);
      all_on =
          All-append (Flag present' true) on1 (a ∷ on2)
            (All-set fru.present a true true on1 not_on1 h_on1)
            (
              get_elem?-set fru.present a true (get_elem?-lt fru.present a h_a),
              All-set fru.present a true true on2 not_on2 h_on2,
            );
    }

-- It depends on nothing but the order and the presence flags.
pub WellFormed-same :
    (fru fru' : Fru)
    → fru'.order ≡ fru.order
    → fru'.present ≡ fru.present
    → WellFormed fru
    → WellFormed fru'
WellFormed-same fru fru' eq_order eq_present wf = record {
  present_size = ap length eq_present ∙ wf.present_size;
  order_size = ap length eq_order ∙ wf.order_size;
  once = λ a h. ap (count a) eq_order ∙ wf.once a h;
  off = wf.off;
  on = wf.on;
  grouped = eq_order ∙ wf.grouped;
  all_off = rw eq_present wf.all_off;
  all_on = rw eq_present wf.all_on;
}
