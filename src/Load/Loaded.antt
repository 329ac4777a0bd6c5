-- ===== src/Load/Loaded.antt =====
-- The order of the areas that fru_loadbuffer leaves.
use frugen.Common.{
  ℕ, ◌≡◌, ◌≢◌, refl, sym, ap, ◌∙◌, Bool, true, false, some, List, [], ◌∷◌, Bytes, ℤ, length, arith,
  ◌==◌, ltb, Bool-cases, inl, inr, get_elem?, All,
}
use mathlib.Core.Path.{subst}
use frugen.Errno.{FruErrno, Eff, pure}
use frugen.Fru.{Fru, fru_internal_use, fru_mr}
use frugen.Area.{put}
use frugen.Area.Order.{Flag}
use frugen.Save.{bytes_of}
use frugen.Load.{Flags, area_pointer, get_area_limit}
use frugen.Load.File.{decode_area, load_area, load_areas, types_of}
use frugen.Load.Order.{AreaOrder}
use frugen.Load.Frame.{AllOk, bind-AllOk, next-AllOk, Only, Only-refl, Only-trans, Keeps, put-AllOk}
use frugen.Load.Area.{decode_iu_area}
use frugen.Load.Record.{decode_mr_area}
use frugen.Load.Keeps.{decode_iu_area-AllOk, decode_info_area-AllOk}
use frugen.Load.KeepsRecords.{decode_mr_area-AllOk}

decode_area-AllOk :
    (image : Bytes) (datetime_base : ℤ) (atype offset limit : ℕ) (flags : Flags) (fru : Fru)
    (e : FruErrno)
    → AllOk (Keeps atype fru) (decode_area image datetime_base atype offset limit flags fru e)
unfolding decode_area
decode_area-AllOk image datetime_base atype offset limit flags fru e =
    elim (Bool-cases (atype == fru_internal_use)) [
      | inl internal ↦
          let same : fru_internal_use ≡ atype = ground arith in
          rw internal (
            subst (λ a. AllOk (Keeps a fru) (decode_iu_area image offset limit flags fru e)) same
              (decode_iu_area-AllOk image offset limit flags fru e))
      | inr other ↦ rw other (elim (Bool-cases (atype == fru_mr)) [
        | inl mr ↦
            let same : fru_mr ≡ atype = ground arith in
            rw mr (
              subst (λ a. AllOk (Keeps a fru) (decode_mr_area image offset limit flags fru e)) same
                (decode_mr_area-AllOk image offset limit flags fru e))
        | inr info ↦
            rw info (decode_info_area-AllOk image datetime_base atype offset limit flags fru e)
      ])
    ]

-- After the step for an area, the flag of the area says whether the header points to one.
abbrev Marked : ℕ → ℕ → Fru → Fru → Type 0
Marked atype offset fru fru' = Keeps atype fru fru' × Flag fru'.present (ltb 0 offset) atype

load_area-AllOk :
    (image : Bytes) (datetime_base : ℤ) (atype offset : ℕ) (flags : Flags) (fru : Fru)
    (e : FruErrno)
    → (offset == 0) ≡ false
    → AllOk (Marked atype offset fru) (load_area image datetime_base atype offset flags fru e)
unfolding load_area
load_area-AllOk image datetime_base atype offset flags fru e some_offset =
    let P : Fru → Type 0 = Marked atype offset fru in
    let is_on : true ≡ ltb 0 offset = ground arith in
    next-AllOk P (get_area_limit image atype e) _ (λ limit e1. elim (Bool-cases (limit == 0)) [
      | inl refused ↦ rw refused tt
      | inr fine ↦ rw fine (
          bind-AllOk (Keeps atype fru) P
            (decode_area image datetime_base atype offset limit flags fru e1) _
            (decode_area-AllOk image datetime_base atype offset limit flags fru e1)
            (λ decoded e2 kept.
              bind-AllOk _ P (put decoded.present atype true e2) _
                (put-AllOk decoded.present atype e2)
                (λ present' e3 (only, on). (
                  Only-trans atype fru.present decoded.present present' kept only,
                  on ∙ ap some is_on,
                ))))
    ])

abbrev pub Apart : ℕ → ℕ → Type 0
Apart a x = a ≢ x

abbrev pub Fresh : List ℕ → Type 0
Fresh [] = Unit
Fresh (a ∷ rest) = All (Apart a) rest × Fresh rest

abbrev pub AsPointed : List Bool → AreaOrder → Type 0
AsPointed present x = Flag present (ltb 0 x.offset) x.type_

abbrev pub Off : List Bool → ℕ → Type 0
Off present a = Flag present false a

pub record LoadedAs (atypes : List ℕ) (fru : Fru) (r : Fru × List AreaOrder) : Type 0 where
  pub size : length r.0.present ≡ length fru.present
  pub others : (a : ℕ) → All (Apart a) atypes → get_elem? r.0.present a ≡ get_elem? fru.present a
  pub types : types_of r.1 ≡ atypes
  pub pointed : All (AsPointed r.0.present) r.1

Off-kept :
    (atype : ℕ) (before after : List Bool) (rest : List ℕ)
    → Only atype before after
    → All (Apart atype) rest
    → All (Off before) rest
    → All (Off after) rest
Off-kept atype before after [] only apart off = tt
Off-kept atype before after (x ∷ rest) only (ha, apart) (hx, off) =
    (only.others x (λ same. ha (sym same)) ∙ hx, Off-kept atype before after rest only apart off)

pub load_areas-AllOk :
    (image : Bytes) (datetime_base : ℤ) (atypes : List ℕ) (flags : Flags) (fru : Fru) (e : FruErrno)
    → Fresh atypes
    → All (Off fru.present) atypes
    → AllOk (LoadedAs atypes fru) (load_areas image datetime_base atypes flags fru e)
unfolding load_areas
load_areas-AllOk image datetime_base [] flags fru e fresh off = record {
  size = refl;
  others = λ a h. refl;
  types = refl;
  pointed = tt;
}
load_areas-AllOk image datetime_base (atype ∷ rest) flags fru e (apart, fresh) (off, offs) =
    let P : Fru × List AreaOrder → Type 0 = LoadedAs (atype ∷ rest) fru in
    next-AllOk P (area_pointer image atype e) _ (λ area_ptr e1.
      let offset : ℕ = bytes_of area_ptr in
      let step : Eff Fru = elim (offset == 0) [
        | true ↦ pure fru
        | false ↦ load_area image datetime_base atype offset flags fru
      ] in
      let step-AllOk : AllOk (Marked atype offset fru) (step e1) = elim (Bool-cases (offset == 0)) [
        | inl absent ↦
            let is_off : false ≡ ltb 0 offset = ground arith in
            rw absent (Only-refl atype fru.present, off ∙ ap some is_off)
        | inr there ↦ rw there (load_area-AllOk image datetime_base atype offset flags fru e1 there)
      ] in
      bind-AllOk (Marked atype offset fru) P (step e1) _ step-AllOk (λ loaded e2 (kept, mark).
        bind-AllOk (LoadedAs rest loaded) P (load_areas image datetime_base rest flags loaded e2) _
          (load_areas-AllOk image datetime_base rest flags loaded e2 fresh
            (Off-kept atype fru.present loaded.present rest kept apart offs))
          (λ r e3 h. record {
            size = h.size ∙ kept.size;
            others = λ a (ne, apart'). h.others a apart' ∙ kept.others a ne;
            types = ap (λ ts. atype ∷ ts) h.types;
            pointed = (h.others atype apart ∙ mark, h.pointed);
          })))
