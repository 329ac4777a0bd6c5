-- ===== src/Load/Same.antt =====
-- An information area whose fields survive is read back as it was.
use frugen.Common.{
  ℕ, ◌+◌, ◌-◌, ◌≤◌, ◌≡◌, refl, sym, ap, ◌∙◌, Option, some, map, List, [], ◌∷◌, ◌++◌, Bytes, All,
  length, arith, ℤ,
}
use mathlib.Core.Path.{subst}
use frugen.Errno.{FruErrno, ok}
use frugen.Field.{Field}
use frugen.Fru.{Fru, fields}
use frugen.Area.Order.{WellFormed, WellFormed-same}
use frugen.Custom.Add.{custom_list}
use frugen.Save.Area.{Clock, langtype, encode_info_area}
use frugen.Load.{Flags}
use frugen.Load.InfoArea.{encode_info_area-decode}
use frugen.Load.Area.{decode_info_area, fru_list_tail}
use frugen.Load.FieldLoop.{AllRecoded}
use frugen.Load.HeldLoop.{keep_all}
use frugen.Load.Survives.{Survives, AllRecoded-same}
use frugen.Load.Added.{keep_all-Added}

some_inj : (xs ys : List Field) → map {B = Option Field} some xs ≡ map some ys → xs ≡ ys
some_inj [] [] h = refl
some_inj [] (y ∷ ys) h = cc
some_inj (x ∷ xs) [] h = cc
some_inj (x ∷ xs) (y ∷ ys) h =
    let same : x ≡ y = cc in
    let rest : map {B = Option Field} some xs ≡ map some ys = cc in
    λ i. same i ∷ some_inj xs ys rest i

-- An information area of a FRU whose fields, the custom ones too, survive: they are neither empty
-- ones nor of an unknown encoding, and fru__encode_field and fru__decode_field give them back, as
-- they do with printable texts of 2 to 63 characters. When encode_info_area succeeds on the area,
-- with a size of at most 2040 bytes, then decode_info_area on the buffer that it leaves, with any
-- flags, a limit not below the size and a FRU with a well-formed area order to store it in,
-- succeeds when memory is allocated and leaves the very fields in it, the type of the chassis or
-- the low byte of the language code, and, behind the custom fields that were there, the very
-- custom fields in their order, if all these are at most as many as an `int` counts; the area
-- order is well-formed.
pub encode_info_area-decode_same :
    (clock : Clock) (buf : Bytes) (offset atype limit : ℕ) (base : ℤ) (fru fru0 : Fru)
    (customs : List Field) (flags : Flags) (buf' : Bytes) (size : ℕ) (e e' e1 : FruErrno)
    → 1 ≤ atype
    → atype ≤ 3
    → encode_info_area clock (some buf) offset atype fru e ≡ ok (some buf', size) e'
    → size ≤ 2040
    → size ≤ limit
    → custom_list fru atype ≡ map some customs
    → All Survives (fields fru (atype - 1))
    → All Survives customs
    → WellFormed fru0
    → length (custom_list fru0 atype) + length customs ≤ fru_list_tail
    → (fru' : Fru) × (e2 : FruErrno) × (decode_info_area buf' base atype offset limit flags fru0 e1
        ≡ ok fru' e2)
      × (fields fru' (atype - 1) ≡ fields fru (atype - 1))
      × (langtype fru' (atype - 1) ≡ langtype fru (atype - 1))
      × (custom_list fru' atype ≡ custom_list fru0 atype ++ custom_list fru atype)
      × WellFormed fru'
encode_info_area-decode_same clock buf offset atype limit base fru fru0 customs flags buf' size e e'
      e1 low high h small within are survive survive' wf short =
    let (customs1, outcustoms, fru1, are1, all1, all, lang, kept, run) =
      encode_info_area-decode clock buf offset atype limit base fru fru0 flags buf' size e e' e1 low
        high h small within in
    let same : customs1 ≡ customs = some_inj customs1 customs (sym are1 ∙ are) in
    let all' : AllRecoded customs outcustoms = subst (λ l. AllRecoded l outcustoms) same all1 in
    let outs : outcustoms ≡ customs = AllRecoded-same customs outcustoms survive' all' in
    let wf1 = WellFormed-same fru0 fru1 kept.same_order kept.same_present wf in
    let few : length (custom_list fru1 atype) + length customs ≤ fru_list_tail =
      omega (arith, ap length kept.same_customs) in
    let (fru', e2, run', added) = keep_all-Added atype low high fru1 customs e1 wf1 survive' few in
    (
      fru',
      e2,
      run ∙ ap (λ l. keep_all atype l fru1 e1) outs ∙ run',
      added.same_fields
          ∙ AllRecoded-same (fields fru (atype - 1)) (fields fru1 (atype - 1)) survive all,
      added.same_langtype ∙ lang,
      added.customs ∙ (λ i. kept.same_customs i ++ sym are i),
      added.well_formed,
    )
