-- ===== src/Load/Frame.antt =====
-- Which presence flags the decoders of lib/fru_load.c change.
use frugen.Common.{
  ℕ, zero, suc, ◌≡◌, ◌≢◌, refl, sym, ap, ◌∙◌, Bool, true, Option, some, none, List, Bytes, length,
  arith, pos, not, minus_one, ltb, Bool-cases, inl, inr, get_elem?, get_elem?-set,
  get_elem?-set_other, length-set,
}
use mathlib.Core.Path.{subst}
use frugen.Errno.{
  feareabadtype, feareanotsup, feapos, feaenabled, ferr_loc_caller, fail_with, feinit,
  ferr_loc_general, FruErrno, Outcome, Eff, ok, fail, fault, bind_outcome, ◌>>=◌, pure, deref,
  guard,
}
use frugen.Field.{Field, FieldEnc}
use frugen.Fru.{Fru, Reclist, is_valid_area, is_info_area}
use frugen.Area.{
  put, enable, enable_area, find_position, new_position, place, Position, apos_auto,
  is_valid_position,
}
use frugen.Custom.{
  try_enable, set_customlist, get_customlist, custom_area, new_field, add_reclist_entry, add_custom,
}
use frugen.Load.Area.{keep_custom, fru_list_tail}

-- What holds of the value of a call that succeeds.
abbrev pub AllOk {ℓ} : {A : Type ℓ} → (A → Type 0) → Outcome A → Type 0
AllOk P (ok a e) = P a
AllOk P (fail e) = Unit
AllOk P fault = Unit

module _ {A B : Type 0} where
  pub bind-AllOk :
      (Q : A → Type 0) (P : B → Type 0) (o : Outcome A) (f : A → Eff B)
      → AllOk Q o
      → ((a : A) (e : FruErrno) → Q a → AllOk P (f a e))
      → AllOk P (bind_outcome o f)
  bind-AllOk Q P (ok a e) f h next = next a e h
  bind-AllOk Q P (fail e) f h next = tt
  bind-AllOk Q P fault f h next = tt

  pub next-AllOk :
      (P : B → Type 0) (o : Outcome A) (f : A → Eff B)
      → ((a : A) (e : FruErrno) → AllOk P (f a e))
      → AllOk P (bind_outcome o f)
  next-AllOk P (ok a e) f next = next a e
  next-AllOk P (fail e) f next = tt
  next-AllOk P fault f next = tt

pub map-AllOk :
    {A : Type 0} (Q P : A → Type 0) (o : Outcome A) → AllOk Q o → ((a : A) → Q a → P a) → AllOk P o
map-AllOk Q P (ok a e) h next = next a h
map-AllOk Q P (fail e) h next = tt
map-AllOk Q P fault h next = tt

-- The flags of the other areas stay.
pub record Only (atype : ℕ) (before after : List Bool) : Type 0 where
  pub size : length after ≡ length before
  pub others : (a : ℕ) → a ≢ atype → get_elem? after a ≡ get_elem? before a

pub Only-refl : (atype : ℕ) (present : List Bool) → Only atype present present
Only-refl atype present = record { size = refl; others = λ a h. refl }

pub Only-trans : (atype : ℕ) (p q r : List Bool) → Only atype p q → Only atype q r → Only atype p r
Only-trans atype p q r first second = record {
  size = second.size ∙ first.size;
  others = λ a h. second.others a h ∙ first.others a h;
}

-- The calls on a FRU that change one flag at most.
abbrev pub Keeps : ℕ → Fru → Fru → Type 0
Keeps atype fru fru' = Only atype fru.present fru'.present

pub put-AllOk :
    (present : List Bool) (atype : ℕ) (e : FruErrno)
    → AllOk
        (λ present'. Only atype present present' × (get_elem? present' atype ≡ some true))
        (put present atype true e)
unfolding put
put-AllOk present atype e = elim (Bool-cases (ltb atype (length present))) [
  | inl inside ↦ rw inside (
    record {
      size = length-set present atype true;
      others = λ a h. get_elem?-set_other present atype a true (λ same. h (sym same));
    },
    get_elem?-set present atype true (ground arith),
  )
  | inr outside ↦ rw outside tt
]

enable-AllOk :
    (fru : Fru) (atype : ℕ) (after : Position) (e : FruErrno)
    → AllOk (Keeps atype fru) (enable fru atype after e)
unfolding enable
enable-AllOk fru atype after e = by_position (find_position atype 0 fru.order)
  where
    by_position :
        (found : Option ℕ)
        → AllOk (Keeps atype fru) (
            (elim found as (λ _. Eff Fru) [
              | none ↦ fail_with feinit ferr_loc_general minus_one
              | some old_pos ↦ do
                new_pos ← new_position fru.present fru.order after atype
                order' ← place fru.order old_pos new_pos atype
                present' ← put fru.present atype true
                pure (record fru { order = order'; present = present' })
            ])
              e)
    by_position none = tt
    by_position (some old_pos) =
        next-AllOk (Keeps atype fru) (new_position fru.present fru.order after atype e) _
          (λ new_pos e1.
            next-AllOk (Keeps atype fru) (place fru.order old_pos new_pos atype e1) _ (λ order' e2.
              bind-AllOk _ (Keeps atype fru) (put fru.present atype true e2) _
                (put-AllOk fru.present atype e2) (λ present' e3 h. h.0)))

enable_area-AllOk :
    (fru : Fru) (atype : ℕ) (after : Position) (e : FruErrno)
    → AllOk (Keeps atype fru) (enable_area (some fru) atype after e)
unfolding enable_area
enable_area-AllOk fru atype after e =
    let P : Fru → Type 0 = Keeps atype fru in
    next-AllOk P (guard (is_valid_area atype) feareabadtype ferr_loc_caller (pos atype) e) _
      (λ _ e1.
        next-AllOk P (guard (is_valid_position after) feapos ferr_loc_caller minus_one e1) _
          (λ _ e2. next-AllOk P (deref (get_elem? fru.present atype) e2) _ (λ here e3.
            next-AllOk P (guard (not here) feaenabled atype minus_one e3) _
              (λ _ e4. enable-AllOk fru atype after e4))))

pub try_enable-AllOk :
    (fru : Fru) (atype : ℕ) (e : FruErrno) → AllOk (Keeps atype fru) (try_enable fru atype e)
unfolding try_enable
try_enable-AllOk fru atype e =
    by_outcome (enable_area (some fru) atype apos_auto e) (enable_area-AllOk fru atype apos_auto e)
  where
    by_outcome :
        (o : Outcome Fru)
        → AllOk (Keeps atype fru) o
        → AllOk
            (Keeps atype fru)
            (elim o [ ok fru' e' ↦ ok fru' e' | fail e' ↦ ok fru e' | fault ↦ fault ])
    by_outcome (ok fru' e') h = h
    by_outcome (fail e') h = Only-refl atype fru.present
    by_outcome fault h = tt

set_customlist-present :
    (fru : Fru) (atype : ℕ) (cust : Reclist) → (set_customlist fru atype cust).present ≡ fru.present
unfolding set_customlist
set_customlist-present fru zero cust = refl
set_customlist-present fru (suc zero) cust = refl
set_customlist-present fru (suc (suc zero)) cust = refl
set_customlist-present fru (suc (suc (suc zero))) cust = refl
set_customlist-present fru (suc (suc (suc (suc n)))) cust = refl

custom_area-AllOk :
    (where_ : ℕ) (fru : Fru) (atype : ℕ) (e : FruErrno)
    → AllOk (λ fru'. fru' ≡ fru) (custom_area where_ (some fru) atype e)
unfolding custom_area
custom_area-AllOk where_ fru atype e =
    next-AllOk _ (guard (is_valid_area atype) feareabadtype where_ (pos atype) e) _ (λ _ e1.
      next-AllOk _ (guard (is_info_area atype) feareanotsup where_ (pos atype) e1) _ (λ _ e2. refl))

add_custom-AllOk :
    (fru : Fru) (atype index : ℕ) (enc : FieldEnc) (string : Option Bytes) (e : FruErrno)
    → AllOk (λ r. Keeps atype fru r.0) (add_custom true true (some fru) atype index enc string e)
unfolding add_custom
add_custom-AllOk fru atype index enc string e =
    let P : Fru × Bool → Type 0 = λ r. Keeps atype fru r.0 in
    bind-AllOk (λ fru'. fru' ≡ fru) P (custom_area ferr_loc_general (some fru) atype e) _
      (custom_area-AllOk ferr_loc_general fru atype e)
      (λ fru1 e1 same. next-AllOk P (get_customlist fru1 atype e1) _ (λ cust e2.
        next-AllOk P (new_field atype index enc string e2) _ (λ field e3.
          next-AllOk P (add_reclist_entry true cust index (some field) e3) _ (λ linked e4.
            let listed : Fru = set_customlist fru1 atype linked in
            let kept : listed.present ≡ fru.present =
              set_customlist-present fru1 atype linked ∙ ap (λ f. f.present) same in
            bind-AllOk (Keeps atype listed) P (try_enable listed atype e4) _
              (try_enable-AllOk listed atype e4)
              (λ fru2 e5 h.
                let from : Only atype fru.present fru2.present =
                  subst (λ p. Only atype p fru2.present) kept h in
                from)))))

pub keep_custom-AllOk :
    (fru : Fru) (atype : ℕ) (field : Field) (e : FruErrno)
    → AllOk (Keeps atype fru) (keep_custom fru atype field e)
unfolding keep_custom
keep_custom-AllOk fru atype field e =
    by_outcome (add_custom true true (some fru) atype fru_list_tail field.enc (some field.val) e)
      (add_custom-AllOk fru atype fru_list_tail field.enc (some field.val) e)
  where
    by_outcome :
        (o : Outcome (Fru × Bool))
        → AllOk (λ r. Keeps atype fru r.0) o
        → AllOk
            (Keeps atype fru)
            (elim o [ ok added e' ↦ ok added.0 e' | fail e' ↦ ok fru e' | fault ↦ fault ])
    by_outcome (ok added e') h = h
    by_outcome (fail e') h = Only-refl atype fru.present
    by_outcome fault h = tt
