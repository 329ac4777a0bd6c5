-- ===== src/Load/Keeps.antt =====
-- Every decoder of an area changes the presence flag of its own area at most.
use frugen.Common.{
  ℕ, zero, suc, ◌+◌, ◌-◌, ◌*◌, ◌≡◌, refl, ◌∙◌, some, List, [], ◌∷◌, Bytes, ℤ, length, ◌==◌, ltb,
  Bool-cases, inl, inr, to_int,
}
use mathlib.Core.Path.{subst}
use frugen.Errno.{FruErrno, fehdrver, fenoterm, ferr_loc_internal}
use frugen.Hex.{decode_raw_binary}
use frugen.Field.{Field, field_terminator}
use frugen.Field.Decode.{decode_field}
use frugen.Fru.{Fru, fieldcount, fru_chassis_info, fru_board_info, fru_internal_use}
use frugen.Internal.{set_internal_binary, kept_string}
use frugen.Save.{fru_ver, on_fail}
use frugen.Load.{Flags, byte_at, bytes_at, check}
use frugen.Load.Area.{
  field_at, field_size, keep_custom, custom_loop, decode_custom_fields, decode_iu_area, set_chassis,
  set_board, set_product, set_fields, set_langtype, decode_date, decode_fields, check_info_area,
  decode_info_area,
}
use frugen.Load.Frame.{
  AllOk, map-AllOk, bind-AllOk, next-AllOk, Only, Only-refl, Only-trans, Keeps, try_enable-AllOk,
  keep_custom-AllOk,
}

custom_loop-AllOk :
    (image : Bytes) (atype : ℕ) (fru : Fru) (offset limit index n : ℕ) (e : FruErrno)
    → AllOk (λ r. Keeps atype fru r.0) (custom_loop image atype fru offset limit index n e)
unfolding custom_loop
custom_loop-AllOk image atype fru offset limit index zero e = Only-refl atype fru.present
custom_loop-AllOk image atype fru offset limit index (suc n) e =
    let P : Fru × ℕ → Type 0 = λ r. Keeps atype fru r.0 in
    elim (Bool-cases (ltb 0 limit)) [
      | inr done ↦ rw (done, custom_loop) (Only-refl atype fru.present)
      | inl more ↦
          rw (more, custom_loop)
            (next-AllOk P (field_at image offset e) _ (λ field e1.
              elim (Bool-cases (field.typelen == field_terminator)) [
                | inl ends ↦ rw ends (Only-refl atype fru.present)
                | inr goes_on ↦
                    let size : ℕ = field_size field in
                    rw goes_on (
                      next-AllOk P
                        (on_fail (λ e'. record e' { src = atype; index = to_int index })
                          (decode_field (some field)) e1)
                        _
                        (λ outfield e2.
                          bind-AllOk (Keeps atype fru) P (keep_custom fru atype outfield e2) _
                            (keep_custom-AllOk fru atype outfield e2)
                            (λ fru' e3 kept.
                              map-AllOk (λ r. Keeps atype fru' r.0) P _
                                (custom_loop-AllOk image atype fru' (offset + size) (limit - size)
                                  (suc index) n e3)
                                (λ r h.
                                  Only-trans atype fru.present fru'.present r.0.present kept h))))
              ]))
    ]

decode_custom_fields-AllOk :
    (image : Bytes) (atype offset limit : ℕ) (flags : Flags) (fru : Fru) (e : FruErrno)
    → AllOk (Keeps atype fru) (decode_custom_fields image atype offset limit flags fru e)
unfolding decode_custom_fields
decode_custom_fields-AllOk image atype offset limit flags fru e =
    bind-AllOk (λ r. Keeps atype fru r.0) (Keeps atype fru)
      (custom_loop image atype fru offset limit 0 limit e) _
      (custom_loop-AllOk image atype fru offset limit 0 limit e)
      (λ r e1 kept.
        next-AllOk (Keeps atype fru) (check (ltb 0 r.1) flags.ign_aeof fenoterm atype e1) _
          (λ _ e2. kept))

pub decode_iu_area-AllOk :
    (image : Bytes) (offset data_size : ℕ) (flags : Flags) (fru : Fru) (e : FruErrno)
    → AllOk (Keeps fru_internal_use fru) (decode_iu_area image offset data_size flags fru e)
unfolding decode_iu_area set_internal_binary
decode_iu_area-AllOk image offset data_size flags fru e =
    let P : Fru → Type 0 = Keeps fru_internal_use fru in
    next-AllOk P (byte_at image offset e) _ (λ ver e1.
      next-AllOk P (check (ver == fru_ver) flags.ign_aver fehdrver ferr_loc_internal e1) _ (λ _ e2.
        next-AllOk P (bytes_at image (suc offset) (data_size - 1) e2) _ (λ bytes e3.
          next-AllOk P
            (decode_raw_binary bytes (kept_string fru.internal) (length bytes * 2 + 1) e3) _
            (λ hex e4. try_enable-AllOk (record fru { internal = some hex }) fru_internal_use e4))))

-- The members that are set beside the flags.
abbrev SameFlags : Fru → Fru → Type 0
SameFlags fru fru' = fru'.present ≡ fru.present

set_chassis-AllOk :
    (fru : Fru) (fs : List Field) (e : FruErrno) → AllOk (SameFlags fru) (set_chassis fru fs e)
set_chassis-AllOk fru [] e = tt
set_chassis-AllOk fru (a ∷ []) e = tt
set_chassis-AllOk fru (a ∷ b ∷ []) e = refl
set_chassis-AllOk fru (a ∷ b ∷ c ∷ fs) e = tt

set_board-AllOk :
    (fru : Fru) (fs : List Field) (e : FruErrno) → AllOk (SameFlags fru) (set_board fru fs e)
set_board-AllOk fru [] e = tt
set_board-AllOk fru (a ∷ []) e = tt
set_board-AllOk fru (a ∷ b ∷ []) e = tt
set_board-AllOk fru (a ∷ b ∷ c ∷ []) e = tt
set_board-AllOk fru (a ∷ b ∷ c ∷ d ∷ []) e = tt
set_board-AllOk fru (a ∷ b ∷ c ∷ d ∷ f ∷ []) e = refl
set_board-AllOk fru (a ∷ b ∷ c ∷ d ∷ f ∷ g ∷ fs) e = tt

set_product-AllOk :
    (fru : Fru) (fs : List Field) (e : FruErrno) → AllOk (SameFlags fru) (set_product fru fs e)
set_product-AllOk fru [] e = tt
set_product-AllOk fru (a ∷ []) e = tt
set_product-AllOk fru (a ∷ b ∷ []) e = tt
set_product-AllOk fru (a ∷ b ∷ c ∷ []) e = tt
set_product-AllOk fru (a ∷ b ∷ c ∷ d ∷ []) e = tt
set_product-AllOk fru (a ∷ b ∷ c ∷ d ∷ f ∷ []) e = tt
set_product-AllOk fru (a ∷ b ∷ c ∷ d ∷ f ∷ g ∷ []) e = tt
set_product-AllOk fru (a ∷ b ∷ c ∷ d ∷ f ∷ g ∷ h ∷ []) e = refl
set_product-AllOk fru (a ∷ b ∷ c ∷ d ∷ f ∷ g ∷ h ∷ i ∷ fs) e = tt

set_fields-AllOk :
    (atype : ℕ) (fru : Fru) (fs : List Field) (e : FruErrno)
    → AllOk (SameFlags fru) (set_fields atype fru fs e)
unfolding set_fields
set_fields-AllOk atype fru fs e = elim (Bool-cases (atype == fru_chassis_info)) [
  | inl chassis ↦ rw chassis (set_chassis-AllOk fru fs e)
  | inr other ↦ rw other (elim (Bool-cases (atype == fru_board_info)) [
    | inl board ↦ rw board (set_board-AllOk fru fs e)
    | inr product ↦ rw product (set_product-AllOk fru fs e)
  ])
]

set_langtype-present :
    (atype : ℕ) (fru : Fru) (value : ℕ) → SameFlags fru (set_langtype atype fru value)
unfolding set_langtype
set_langtype-present atype fru value = elim (Bool-cases (atype == fru_chassis_info)) [
  | inl chassis ↦ rw chassis refl
  | inr other ↦ rw other (elim (Bool-cases (atype == fru_board_info)) [
    | inl board ↦ rw board refl
    | inr product ↦ rw product refl
  ])
]

decode_date-AllOk :
    (image : Bytes) (datetime_base : ℤ) (atype offset : ℕ) (fru : Fru) (e : FruErrno)
    → AllOk (λ r. SameFlags fru r.0) (decode_date image datetime_base atype offset fru e)
unfolding decode_date
decode_date-AllOk image datetime_base atype offset fru e =
    elim (Bool-cases (atype == fru_board_info)) [
      | inl board ↦ rw board (
          next-AllOk (λ r. SameFlags fru r.0) (bytes_at image (offset + 3) 3 e) _ (λ date e1. refl))
      | inr other ↦ rw other refl
    ]

pub decode_info_area-AllOk :
    (image : Bytes) (datetime_base : ℤ) (atype offset data_size : ℕ) (flags : Flags) (fru : Fru)
    (e : FruErrno)
    → AllOk
        (Keeps atype fru)
        (decode_info_area image datetime_base atype offset data_size flags fru e)
unfolding decode_info_area
decode_info_area-AllOk image datetime_base atype offset data_size flags fru e =
    let P : Fru → Type 0 = Keeps atype fru in
    next-AllOk P (check_info_area image atype offset data_size flags e) _ (λ bytes_left e1.
      next-AllOk P (byte_at image (offset + 2) e1) _ (λ value e2.
        let typed : Fru = set_langtype atype fru value in
        bind-AllOk (λ r. SameFlags typed r.0) P
          (decode_date image datetime_base atype offset typed e2) _
          (decode_date-AllOk image datetime_base atype offset typed e2)
          (λ dated e3 same.
            next-AllOk P
              (decode_fields image atype (offset + dated.1) (bytes_left - dated.1) 0
                (fieldcount atype) e3)
              _
              (λ read e4.
                bind-AllOk (SameFlags dated.0) P (set_fields atype dated.0 read.0 e4) _
                  (set_fields-AllOk atype dated.0 read.0 e4)
                  (λ filled e5 same'.
                    let flags_eq : filled.present ≡ fru.present =
                      same' ∙ same ∙ set_langtype-present atype fru value in
                    map-AllOk (Keeps atype filled) P _
                      (decode_custom_fields-AllOk image atype read.1 read.2 flags filled e5)
                      (λ fru' h. subst (λ p. Only atype p fru'.present) flags_eq h))))))
