-- ===== src/Json/LangKept.antt =====
-- The loaders of the fields of an information area keep the language of the product.
use frugen.Common.{ℕ, zero, suc, Bool, true, false, Option, none, some, List, [], ◌∷◌, Bytes, codes}
use frugen.Errno.{FruErrno, Eff}
use frugen.Field.{Field}
use frugen.Fru.{Fru}
use frugen.Custom.{add_custom}
use frugen.Load.Frame.{AllOk, bind-AllOk, next-AllOk}
use frugen.Cli.{list_tail}
use frugen.Cli.FieldOpt.{require}
use frugen.Json.{
  JsonC, jsnames, member, load_single_field, field_at, load_field, load_fields, load_custom,
  load_customs, load_custom_list, load_info_fields,
}
use frugen.Json.ProductLang.{Speaks, set_standard-Speaks, add_custom-Speaks}

-- A branch on a test, and one on an option.
pub test-AllOk :
    (P : Fru → Type 0) (b : Bool) (m k : Eff Fru) (e : FruErrno)
    → AllOk P (m e)
    → AllOk P (k e)
    → AllOk P ((elim b as (λ _. Eff Fru) [ true ↦ m | false ↦ k ]) e)
test-AllOk P true m k e hm hk = hm
test-AllOk P false m k e hm hk = hk

option-AllOk :
    {A : Type 0} (P : Fru → Type 0) (o : Option A) (m : Eff Fru) (k : A → Eff Fru) (e : FruErrno)
    → AllOk P (m e)
    → ((a : A) → AllOk P (k a e))
    → AllOk P ((elim o as (λ _. Eff Fru) [ none ↦ m | some a ↦ k a ]) e)
option-AllOk P none m k e hm hk = hm
option-AllOk P (some a) m k e hm hk = hk a

module _ (json : JsonC) (l : ℕ) where
  open json use {Object, object_get_ex, array_get_idx, is_null, is_array, array_length, get_string}

  load_field-Speaks :
      (fru : Fru) (atype i : ℕ) (field : Field) (js : Option Object) (e : FruErrno)
      → Speaks l fru
      → AllOk (Speaks l) (load_field json fru atype i field js e)
  unfolding load_field
  load_field-Speaks fru atype i field none e h = h
  load_field-Speaks fru atype i field (some js) e h =
      next-AllOk (Speaks l) (load_single_field json field js e) _
        (λ loaded e1. set_standard-Speaks l fru atype i loaded h)

  load_fields-Speaks :
      (atype : ℕ) (jso : Object) (i : ℕ) (names : List Bytes) (fru : Fru) (e : FruErrno)
      → Speaks l fru
      → AllOk (Speaks l) (load_fields json atype jso i names fru e)
  unfolding load_fields
  load_fields-Speaks atype jso i [] fru e h =
      next-AllOk (Speaks l) (field_at json fru atype i e) _
        (λ found e1. option-AllOk (Speaks l) found _ _ e1 h (λ field. tt))
  load_fields-Speaks atype jso i (name ∷ names) fru e h =
      next-AllOk (Speaks l) (field_at json fru atype i e) _ (λ found e1.
        option-AllOk (Speaks l) found _ _ e1 h (λ field.
          bind-AllOk (Speaks l) (Speaks l)
            (load_field json fru atype i field (object_get_ex jso name) e1) _
            (load_field-Speaks fru atype i field (object_get_ex jso name) e1 h)
            (λ fru' e2 h'. load_fields-Speaks atype jso (suc i) names fru' e2 h')))

  load_custom-Speaks :
      (uninit : Field) (atype : ℕ) (item : Object) (fru : Fru) (e : FruErrno)
      → Speaks l fru
      → AllOk (Speaks l) (load_custom json uninit atype item fru e)
  unfolding load_custom
  load_custom-Speaks uninit atype item fru e h = test-AllOk (Speaks l) (is_null item) _ _ e h (
      next-AllOk (Speaks l) (load_single_field json uninit item e) _ (λ field e1.
        bind-AllOk (λ r. Speaks l r.0) (Speaks l)
          (add_custom true true (some fru) atype list_tail field.enc (some field.val) e1) _
          (add_custom-Speaks l fru atype list_tail field.enc (some field.val) e1 h)
          (λ r e2 h'. next-AllOk (Speaks l) (require r.1 e2) _ (λ _ e3. h'))))

  load_customs-Speaks :
      (uninit : Field) (atype : ℕ) (js : Object) (n i : ℕ) (fru : Fru) (e : FruErrno)
      → Speaks l fru
      → AllOk (Speaks l) (load_customs json uninit atype js n i fru e)
  unfolding load_customs
  load_customs-Speaks uninit atype js zero i fru e h = h
  load_customs-Speaks uninit atype js (suc n) i fru e h =
      bind-AllOk (Speaks l) (Speaks l) (load_custom json uninit atype (array_get_idx js i) fru e) _
        (load_custom-Speaks uninit atype (array_get_idx js i) fru e h)
        (λ fru' e1 h'. load_customs-Speaks uninit atype js n (suc i) fru' e1 h')

  load_custom_list-Speaks :
      (uninit : Field) (atype : ℕ) (js : Option Object) (fru : Fru) (e : FruErrno)
      → Speaks l fru
      → AllOk (Speaks l) (load_custom_list json uninit atype js fru e)
  unfolding load_custom_list
  load_custom_list-Speaks uninit atype none fru e h = h
  load_custom_list-Speaks uninit atype (some js) fru e h =
      next-AllOk (Speaks l) (require (is_array js) e) _
        (λ _ e1. load_customs-Speaks uninit atype js (array_length js) 0 fru e1 h)

  pub load_info_fields-Speaks :
      (uninit : Field) (atype : ℕ) (jso : Object) (fru : Fru) (e : FruErrno)
      → Speaks l fru
      → AllOk (Speaks l) (load_info_fields json uninit atype jso fru e)
  unfolding load_info_fields
  load_info_fields-Speaks uninit atype jso fru e h =
      bind-AllOk (Speaks l) (Speaks l) (load_fields json atype jso 0 (jsnames atype) fru e) _
        (load_fields-Speaks atype jso 0 (jsnames atype) fru e h)
        (λ fru' e1 h'.
          load_custom_list-Speaks uninit atype (member json jso (codes "custom")) fru' e1 h')
