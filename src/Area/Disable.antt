-- ===== src/Area/Disable.antt =====
-- fru_disable_area on a well-formed FRU.
use frugen.Common.{
  ℕ, zero, suc, ◌+◌, ◌-◌, ◌≤◌, ◌≡◌, refl, sym, ap, ap₂, ◌∙◌, Bool, true, false, List, [], ◌∷◌, ◌++◌,
  append_assoc, arith, inl, inr, length, length-append, All, All-append, All-append_inv, set,
  get_elem?-set, get_elem?-lt, ltb, get_elem?-append, length-set, Bool-cases,
}
use frugen.Errno.{ok, FruErrno, bind_outcome, deref, pure}
use frugen.Fru.{Fru}
use frugen.Area.{apos_max, search_disabled, shift_right}
use frugen.Area.Moves.{snoc_append, count, count-append}
use frugen.Area.Order.{WellFormed, Flag, All-set}

-- The loop for the new position ends within the areas that are not present.
pub search_disabled_lem :
    (present : List Bool) (atype i : ℕ) (off on : List ℕ) (e : FruErrno)
    → All (Flag present false) off
    → All (Flag present true) on
    → (k : ℕ) × (search_disabled present atype i (off ++ on) e ≡ ok (i + k) e) × (k ≤ length off)
unfolding search_disabled
search_disabled_lem present atype i [] [] e h_off h_on =
    (0, ap (λ p. ok p e) (omega arith), omega arith)
search_disabled_lem present atype i [] (x ∷ on) e h_off (hx, h_on) =
    (0, rw (hx, bind_outcome) (ap (λ p. ok p e) (omega arith)), omega arith)
search_disabled_lem present atype i (x ∷ off) on e (hx, h_off) h_on =
    elim (Bool-cases (ltb atype x)) [
      | inl stop ↦ (
        0,
        rw (hx, bind_outcome) (rw (stop, deref, pure) (ap (λ p. ok p e) (omega arith))),
        omega arith,
      )
      | inr on_goes ↦
          let (k, rest, low) = search_disabled_lem present atype (suc i) off on e h_off h_on in
          (
            suc k,
            rw (hx, bind_outcome)
                (rw (on_goes, deref, pure) (rest ∙ ap (λ p. ok p e) (omega arith))),
            omega arith,
          )
    ]

snoc_view :
    (ys : List ℕ) (n : ℕ)
    → length ys ≡ suc n
    → (zs : List ℕ) × (z : ℕ) × (ys ≡ zs ++ z ∷ []) × (length zs ≡ n)
snoc_view [] n h = absurd (omega arith)
snoc_view (y ∷ []) zero h = ([], y, refl, refl)
snoc_view (y ∷ []) (suc n) h = absurd (omega arith)
snoc_view (y ∷ y' ∷ ys) zero h = absurd (omega arith)
snoc_view (y ∷ y' ∷ ys) (suc n) h =
    let (zs, z, eq, size) = snoc_view (y' ∷ ys) n (omega arith) in
    (y ∷ zs, z, ap (λ t. y ∷ t) eq, omega arith)

set_next :
    (xs : List ℕ) (z a v : ℕ) (zs : List ℕ)
    → set (xs ++ z ∷ a ∷ zs) (suc (length xs)) v ≡ xs ++ z ∷ v ∷ zs
set_next [] z a v zs = refl
set_next (x ∷ xs) z a v zs = ap (λ t. x ∷ t) (set_next xs z a v zs)

-- One round of it.
shift_right_round :
    (n : ℕ) (xs : List ℕ) (z a : ℕ) (zs : List ℕ) (e : FruErrno)
    → shift_right (suc n) (suc (length xs)) (xs ++ z ∷ a ∷ zs) e
      ≡ shift_right n (length xs) (xs ++ z ∷ z ∷ zs) e
unfolding shift_right
shift_right_round n xs z a zs e =
    let back : suc (length xs) - 1 ≡ length xs = omega arith in
    rw back (rw (get_elem?-append xs z (a ∷ zs)) (rw (set_next xs z a z zs, deref, pure) refl))

shift_right_prefixed :
    (n : ℕ) (xs ys : List ℕ) (z a : ℕ) (zs : List ℕ) (e : FruErrno)
    → length ys ≡ n
    → shift_right (suc n) (length xs + suc n) (xs ++ ((ys ++ z ∷ []) ++ a ∷ zs)) e
      ≡ shift_right n (length xs + n) (xs ++ (ys ++ z ∷ z ∷ zs)) e
shift_right_prefixed n xs ys z a zs e size =
    let from : length xs + suc n ≡ suc (length (xs ++ ys)) = omega (arith, length-append xs ys) in
    let to : length xs + n ≡ length (xs ++ ys) = omega (arith, length-append xs ys) in
    rw
      (
        from,
        to,
        snoc_append ys z (a ∷ zs),
        sym (append_assoc xs ys (z ∷ a ∷ zs)),
        sym (append_assoc xs ys (z ∷ z ∷ zs)),
      )
      (shift_right_round n (xs ++ ys) z a zs e)

-- The loop to the right, by the slots that it copies from.
pub shift_right_lem :
    (n : ℕ) (xs ys : List ℕ) (a : ℕ) (zs : List ℕ) (e : FruErrno)
    → length ys ≡ n
    → (b : ℕ) × (shift_right n (length xs + n) (xs ++ (ys ++ a ∷ zs)) e
        ≡ ok (xs ++ b ∷ (ys ++ zs)) e)
unfolding shift_right
shift_right_lem zero xs [] a zs e h = (a, refl)
shift_right_lem zero xs (y ∷ ys) a zs e h = absurd (omega arith)
shift_right_lem (suc n) xs ys a zs e h =
    let (ys', z, eq, size) = snoc_view ys n h in
    let (b, rest) = shift_right_lem n xs ys' z (z ∷ zs) e size in
    (
      b,
      rw eq (
          shift_right_prefixed n xs ys' z a zs e size
          ∙ rest
          ∙ ap (λ t. ok (xs ++ b ∷ t) e) (sym (snoc_append ys' z zs))),
    )

-- What becomes of a well-formed FRU when an area moves from the second group into the first.
count_disabled :
    (b a : ℕ) (off1 off2 xs ys : List ℕ)
    → count b (off1 ++ a ∷ ((off2 ++ xs) ++ ys)) ≡ count b ((off1 ++ off2) ++ (xs ++ a ∷ ys))
count_disabled b a off1 off2 xs ys = ground (
  arith,
  count-append b off1 (a ∷ ((off2 ++ xs) ++ ys)),
  count-append b (off2 ++ xs) ys,
  count-append b off2 xs,
  count-append b (off1 ++ off2) (xs ++ a ∷ ys),
  count-append b off1 off2,
  count-append b xs (a ∷ ys),
)

length_disabled :
    (a : ℕ) (off1 off2 xs ys : List ℕ)
    → length (off1 ++ a ∷ ((off2 ++ xs) ++ ys)) ≡ length ((off1 ++ off2) ++ (xs ++ a ∷ ys))
length_disabled a off1 off2 xs ys = omega (
  arith,
  length-append off1 (a ∷ ((off2 ++ xs) ++ ys)),
  length-append (off2 ++ xs) ys,
  length-append off2 xs,
  length-append (off1 ++ off2) (xs ++ a ∷ ys),
  length-append off1 off2,
  length-append xs (a ∷ ys),
)

only_there :
    (a : ℕ) (off1 off2 xs ys : List ℕ)
    → count a ((off1 ++ off2) ++ (xs ++ a ∷ ys)) ≡ 1
    → (count a off1 ≡ 0) × (count a off2 ≡ 0) × (count a (xs ++ ys) ≡ 0)
only_there a off1 off2 xs ys h =
    let eq1 = count-append a (off1 ++ off2) (xs ++ a ∷ ys) in
    let eq2 = count-append a xs (a ∷ ys) in
    let eq3 = count-append a off1 off2 in
    let eq4 = count-append a xs ys in (ground arith, ground arith, ground arith)

pub disabled_WellFormed :
    (fru : Fru) (a : ℕ) (off1 off2 xs ys : List ℕ)
    → a ≤ apos_max
    → (wf : WellFormed fru) → wf.off ≡ off1 ++ off2
    → wf.on ≡ xs ++ a ∷ ys
    → WellFormed
        (record fru { order = off1 ++ a ∷ ((off2 ++ xs) ++ ys); present = set fru.present a false })
disabled_WellFormed fru a off1 off2 xs ys valid wf eq_off eq_on =
    let before : fru.order ≡ (off1 ++ off2) ++ (xs ++ a ∷ ys) =
      wf.grouped ∙ ap₂ (λ s t. s ++ t) eq_off eq_on in
    let (not_off1, not_off2, not_on) =
      only_there a off1 off2 xs ys (sym (ap (count a) before) ∙ wf.once a valid) in
    let h_off : All (Flag fru.present false) (off1 ++ off2) = rw (sym eq_off) wf.all_off in
    let h_on : All (Flag fru.present true) (xs ++ a ∷ ys) = rw (sym eq_on) wf.all_on in
    let (h_xs, (h_a, h_ys)) = All-append_inv (Flag fru.present true) xs (a ∷ ys) h_on in
    let (h_off1, h_off2) = All-append_inv (Flag fru.present false) off1 off2 h_off in
    record {
      present_size = length-set fru.present a false ∙ wf.present_size;
      order_size = length_disabled a off1 off2 xs ys ∙ sym (ap length before) ∙ wf.order_size;
      once = λ b h. count_disabled b a off1 off2 xs ys ∙ sym (ap (count b) before) ∙ wf.once b h;
      off = off1 ++ a ∷ off2;
      on = xs ++ ys;
      grouped =
          ap (λ t. off1 ++ a ∷ t) (append_assoc off2 xs ys)
          ∙ sym (append_assoc off1 (a ∷ off2) (xs ++ ys));
      all_off =
          All-append (Flag (set fru.present a false) false) off1 (a ∷ off2)
            (All-set fru.present a false false off1 not_off1 h_off1)
            (
              get_elem?-set fru.present a false (get_elem?-lt fru.present a h_a),
              All-set fru.present a false false off2 not_off2 h_off2,
            );
      all_on =
          All-set fru.present a false true (xs ++ ys) not_on
            (All-append (Flag fru.present true) xs ys h_xs h_ys);
    }
