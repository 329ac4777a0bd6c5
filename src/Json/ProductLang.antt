-- ===== src/Json/ProductLang.antt =====
-- The calls that frugen_loadfile_json makes keep the language of the product.
use frugen.Common.{
  ℕ, zero, suc, ◌-◌, ◌≡◌, Bool, true, false, not, Option, none, some, Bytes, get_elem?, pos,
  minus_one,
}
use frugen.Errno.{
  FruErrno, Outcome, ok, fail, fault, Eff, ◌>>=◌, ◌>>◌, pure, deref, guard, fail_with, feinit,
  feareabadtype, feareanotsup, feapos, feaenabled, ferr_loc_caller, ferr_loc_general, seterr,
}
use frugen.Field.{Field, FieldEnc}
use frugen.Fru.{Fru, MrRec, Reclist, is_valid_area, is_info_area, fru_mr}
use frugen.Area.{
  put, enable, enable_area, disable, disable_area, find_position, new_position, place, Position,
  is_valid_position, search_disabled, shift_right, apos_auto,
}
use frugen.Custom.{
  try_enable, set_customlist, get_customlist, custom_area, new_field, add_reclist_entry, add_custom,
}
use frugen.Mr.{add_mr, link_rec, new_rec}
use frugen.Cli.SetField.{set_standard}
use frugen.Json.Load.{ignored}
use frugen.Load.Frame.{AllOk, bind-AllOk, next-AllOk}

-- The language of the product is `l`.
abbrev pub Speaks : ℕ → Fru → Type 0
Speaks l fru = fru.product.product_lang ≡ l

module _ (l : ℕ) where
  enable-Speaks :
      (fru : Fru) (atype : ℕ) (after : Position) (e : FruErrno)
      → Speaks l fru
      → AllOk (Speaks l) (enable fru atype after e)
  unfolding enable
  enable-Speaks fru atype after e h = by_position (find_position atype 0 fru.order)
    where
      by_position :
          (found : Option ℕ)
          → AllOk (Speaks l) (
              (elim found as (λ _. Eff Fru) [
                | none ↦ fail_with feinit ferr_loc_general minus_one
                | some old_pos ↦ do
                  new_pos ← new_position fru.present fru.order after atype
                  order' ← place fru.order old_pos new_pos atype
                  present' ← put fru.present atype true
                  pure (record fru { order = order'; present = present' })
              ])
                e)
      by_position none = tt
      by_position (some old_pos) =
          next-AllOk (Speaks l) (new_position fru.present fru.order after atype e) _ (λ new_pos e1.
            next-AllOk (Speaks l) (place fru.order old_pos new_pos atype e1) _ (λ order' e2.
              next-AllOk (Speaks l) (put fru.present atype true e2) _ (λ present' e3. h)))

  pub enable_area-Speaks :
      (fru : Fru) (atype : ℕ) (after : Position) (e : FruErrno)
      → Speaks l fru
      → AllOk (Speaks l) (enable_area (some fru) atype after e)
  unfolding enable_area
  enable_area-Speaks fru atype after e h =
      next-AllOk (Speaks l)
        (guard (is_valid_area atype) feareabadtype ferr_loc_caller (pos atype) e) _
        (λ _ e1.
          next-AllOk (Speaks l)
            (guard (is_valid_position after) feapos ferr_loc_caller minus_one e1) _
            (λ _ e2. next-AllOk (Speaks l) (deref (get_elem? fru.present atype) e2) _ (λ here e3.
              next-AllOk (Speaks l) (guard (not here) feaenabled atype minus_one e3) _
                (λ _ e4. enable-Speaks fru atype after e4 h))))

  disable-Speaks :
      (fru : Fru) (atype : ℕ) (e : FruErrno) → Speaks l fru → AllOk (Speaks l) (disable fru atype e)
  unfolding disable
  disable-Speaks fru atype e h = by_position (find_position atype 0 fru.order)
    where
      by_position :
          (found : Option ℕ)
          → AllOk (Speaks l) (
              (elim found as (λ _. Eff Fru) [
                | none ↦ fail_with feinit ferr_loc_caller minus_one
                | some old_pos ↦ do
                  new_pos ← search_disabled fru.present atype 0 fru.order
                  shifted ← shift_right (old_pos - new_pos) old_pos fru.order
                  order' ← put shifted new_pos atype
                  present' ← put fru.present atype false
                  pure (record fru { order = order'; present = present' })
              ])
                e)
      by_position none = tt
      by_position (some old_pos) =
          next-AllOk (Speaks l) (search_disabled fru.present atype 0 fru.order e) _ (λ new_pos e1.
            next-AllOk (Speaks l) (shift_right (old_pos - new_pos) old_pos fru.order e1) _
              (λ shifted e2. next-AllOk (Speaks l) (put shifted new_pos atype e2) _ (λ order' e3.
                next-AllOk (Speaks l) (put fru.present atype false e3) _ (λ present' e4. h))))

  pub disable_area-Speaks :
      (fru : Fru) (atype : ℕ) (e : FruErrno)
      → Speaks l fru
      → AllOk (Speaks l) (disable_area (some fru) atype e)
  unfolding disable_area
  disable_area-Speaks fru atype e h =
      next-AllOk (Speaks l)
        (guard (is_valid_area atype) feareabadtype ferr_loc_caller (pos atype) e) _
        (λ _ e1.
          next-AllOk (Speaks l) (deref (get_elem? fru.present atype) e1) _
            (λ here e2. by_flag here e2))
    where
      by_flag :
          (here : Bool) (e2 : FruErrno)
          → AllOk (Speaks l) (
              (elim here as (λ _. Eff Fru) [
                | true ↦ disable fru atype
                | false ↦ do seterr feaenabled atype minus_one; pure fru
              ])
                e2)
      by_flag true e2 = disable-Speaks fru atype e2 h
      by_flag false e2 = h

  -- The calls whose failure is passed over.
  pub try_enable-Speaks :
      (fru : Fru) (atype : ℕ) (e : FruErrno)
      → Speaks l fru
      → AllOk (Speaks l) (try_enable fru atype e)
  unfolding try_enable
  try_enable-Speaks fru atype e h =
      by_outcome (enable_area (some fru) atype apos_auto e)
        (enable_area-Speaks fru atype apos_auto e h)
    where
      by_outcome :
          (o : Outcome Fru)
          → AllOk (Speaks l) o
          → AllOk
              (Speaks l)
              (elim o [ ok fru' e' ↦ ok fru' e' | fail e' ↦ ok fru e' | fault ↦ fault ])
      by_outcome (ok fru' e') h' = h'
      by_outcome (fail e') h' = h
      by_outcome fault h' = tt

  pub ignored-Speaks :
      (fru : Fru) (o : Outcome Fru)
      → Speaks l fru
      → AllOk (Speaks l) o
      → AllOk (Speaks l) (ignored fru o)
  unfolding ignored
  ignored-Speaks fru (ok fru' e) h h' = h'
  ignored-Speaks fru (fail e) h h' = h
  ignored-Speaks fru fault h h' = tt

  -- Writes to other fields.
  pub set_standard-Speaks :
      (fru : Fru) (atype i : ℕ) (f : Field) → Speaks l fru → Speaks l (set_standard fru atype i f)
  unfolding set_standard
  set_standard-Speaks fru zero i f h = h
  set_standard-Speaks fru (suc zero) zero f h = h
  set_standard-Speaks fru (suc zero) (suc zero) f h = h
  set_standard-Speaks fru (suc zero) (suc (suc n)) f h = h
  set_standard-Speaks fru (suc (suc zero)) zero f h = h
  set_standard-Speaks fru (suc (suc zero)) (suc zero) f h = h
  set_standard-Speaks fru (suc (suc zero)) (suc (suc zero)) f h = h
  set_standard-Speaks fru (suc (suc zero)) (suc (suc (suc zero))) f h = h
  set_standard-Speaks fru (suc (suc zero)) (suc (suc (suc (suc zero)))) f h = h
  set_standard-Speaks fru (suc (suc zero)) (suc (suc (suc (suc (suc n))))) f h = h
  set_standard-Speaks fru (suc (suc (suc zero))) zero f h = h
  set_standard-Speaks fru (suc (suc (suc zero))) (suc zero) f h = h
  set_standard-Speaks fru (suc (suc (suc zero))) (suc (suc zero)) f h = h
  set_standard-Speaks fru (suc (suc (suc zero))) (suc (suc (suc zero))) f h = h
  set_standard-Speaks fru (suc (suc (suc zero))) (suc (suc (suc (suc zero)))) f h = h
  set_standard-Speaks fru (suc (suc (suc zero))) (suc (suc (suc (suc (suc zero))))) f h = h
  set_standard-Speaks fru (suc (suc (suc zero))) (suc (suc (suc (suc (suc (suc zero)))))) f h = h
  set_standard-Speaks fru (suc (suc (suc zero))) (suc (suc (suc (suc (suc (suc (suc n))))))) f h = h
  set_standard-Speaks fru (suc (suc (suc (suc n)))) i f h = h

  set_customlist-Speaks :
      (fru : Fru) (atype : ℕ) (cust : Reclist)
      → Speaks l fru
      → Speaks l (set_customlist fru atype cust)
  unfolding set_customlist
  set_customlist-Speaks fru zero cust h = h
  set_customlist-Speaks fru (suc zero) cust h = h
  set_customlist-Speaks fru (suc (suc zero)) cust h = h
  set_customlist-Speaks fru (suc (suc (suc zero))) cust h = h
  set_customlist-Speaks fru (suc (suc (suc (suc n)))) cust h = h

  pub add_custom-Speaks :
      (fru : Fru) (atype index : ℕ) (enc : FieldEnc) (string : Option Bytes) (e : FruErrno)
      → Speaks l fru
      → AllOk (λ r. Speaks l r.0) (add_custom true true (some fru) atype index enc string e)
  unfolding add_custom custom_area
  add_custom-Speaks fru atype index enc string e h =
      let P : Fru × Bool → Type 0 = λ r. Speaks l r.0 in
      bind-AllOk (Speaks l) P (custom_area ferr_loc_general (some fru) atype e) _
        (next-AllOk (Speaks l)
          (guard (is_valid_area atype) feareabadtype ferr_loc_general (pos atype) e) _
          (λ _ e1.
            next-AllOk (Speaks l)
              (guard (is_info_area atype) feareanotsup ferr_loc_general (pos atype) e1) _
              (λ _ e2. h)))
        (λ fru1 e1 h1. next-AllOk P (get_customlist fru1 atype e1) _ (λ cust e2.
          next-AllOk P (new_field atype index enc string e2) _ (λ field e3.
            next-AllOk P (add_reclist_entry true cust index (some field) e3) _ (λ linked e4.
              bind-AllOk (Speaks l) P (try_enable (set_customlist fru1 atype linked) atype e4) _
                (try_enable-Speaks (set_customlist fru1 atype linked) atype e4
                  (set_customlist-Speaks fru1 atype linked h1))
                (λ fru2 e5 h2. h2)))))

  pub add_mr-Speaks :
      (fru : Fru) (index : ℕ) (rec : Option MrRec) (e : FruErrno)
      → Speaks l fru
      → AllOk (Speaks l) (add_mr true true (some fru) index rec e)
  unfolding add_mr
  add_mr-Speaks fru index rec e h =
      next-AllOk (Speaks l) (link_rec true fru.mr index (some (new_rec rec)) e) _
        (λ mr' e1. next-AllOk (Speaks l) (put fru.present fru_mr true e1) _ (λ present' e2. h))
