-- ===== src/Cli/Assign.antt =====
-- What the option `--set` does to a standard field, and to a custom field that is added at an end
-- of the list.
use frugen.Common.{
  ℕ, zero, suc, ◌-◌, ◌≤◌, ◌<◌, ◌≡◌, refl, Bool, true, some, Bytes, ◌==◌, ltb, get_or, get_elem?,
  set, if◌then◌else◌, arith,
}
use frugen.Errno.{FruErrno, ok, bind_outcome}
use frugen.Field.{Field, FieldEnc, blank_field}
use frugen.Field.Encode.{setfield}
use frugen.Fru.{Fru, fields, getfield, fieldcount}
use frugen.Area.Order.{WellFormed, WellFormed-same, Flag}
use frugen.Custom.Add.{custom_list, try_enable_lem, info_area_lem}
use frugen.Cli.{field_max}
use frugen.Cli.Parse.{as_standard}
use frugen.Cli.Cases.{all_fields}
use frugen.Cli.SetField.{set_standard, put_field, field_at, locate, stored, set_field}

-- The field that an area has at an index.
abbrev pub standard_field : Fru → ℕ → ℕ → Field
standard_field fru area i = get_or (fields fru (area - 1)) i blank_field

by_four {ℓ} :
    (P : ℕ → Type ℓ)
    → P 0
    → P 1
    → P 2
    → P 3
    → ((n : ℕ) → P (suc (suc (suc (suc n)))))
    → (b : ℕ) → P b
by_four P a b c d e zero = a
by_four P a b c d e (suc zero) = b
by_four P a b c d e (suc (suc zero)) = c
by_four P a b c d e (suc (suc (suc zero))) = d
by_four P a b c d e (suc (suc (suc (suc n)))) = e n

info_bounds : (area i : ℕ) → i < field_max area → (1 ≤ area) × (area ≤ 3)
info_bounds =
    all_fields (λ area i. (1 ≤ area) × (area ≤ 3)) (omega arith) (omega arith) (omega arith)
      (omega arith) (omega arith) (omega arith) (omega arith) (omega arith) (omega arith)
      (omega arith) (omega arith) (omega arith) (omega arith) (omega arith)

-- What one write to a standard field changes, and what it leaves.
module _ (fru : Fru) (d : Field) where
  old_there :
      (area i : ℕ)
      → i < field_max area
      → get_elem? (fields fru (area - 1)) i ≡ some (standard_field fru area i)
  unfolding fields
  old_there =
      all_fields (λ area i. get_elem? (fields fru (area - 1)) i ≡ some (standard_field fru area i))
        refl refl refl refl refl refl refl refl refl refl refl refl refl refl

  new_there :
      (area i : ℕ)
      → i < field_max area
      → get_elem? (fields (set_standard fru area i d) (area - 1)) i ≡ some d
  unfolding fields set_standard
  new_there =
      all_fields (λ area i. get_elem? (fields (set_standard fru area i d) (area - 1)) i ≡ some d)
        refl refl refl refl refl refl refl refl refl refl refl refl refl refl

  SetsOne : ℕ → ℕ → ℕ → Type 0
  SetsOne area i b =
      fields (set_standard fru area i d) b
      ≡ (if b == area - 1 then set (fields fru b) i d else fields fru b)

  sets_one : (area i : ℕ) → i < field_max area → (b : ℕ) → SetsOne area i b
  unfolding fields set_standard SetsOne
  sets_one =
      all_fields (λ area i. (b : ℕ) → SetsOne area i b)
        (by_four (SetsOne 1 0) refl refl refl refl (λ n. ground arith))
        (by_four (SetsOne 1 1) refl refl refl refl (λ n. ground arith))
        (by_four (SetsOne 2 0) refl refl refl refl (λ n. ground arith))
        (by_four (SetsOne 2 1) refl refl refl refl (λ n. ground arith))
        (by_four (SetsOne 2 2) refl refl refl refl (λ n. ground arith))
        (by_four (SetsOne 2 3) refl refl refl refl (λ n. ground arith))
        (by_four (SetsOne 2 4) refl refl refl refl (λ n. ground arith))
        (by_four (SetsOne 3 0) refl refl refl refl (λ n. ground arith))
        (by_four (SetsOne 3 1) refl refl refl refl (λ n. ground arith))
        (by_four (SetsOne 3 2) refl refl refl refl (λ n. ground arith))
        (by_four (SetsOne 3 3) refl refl refl refl (λ n. ground arith))
        (by_four (SetsOne 3 4) refl refl refl refl (λ n. ground arith))
        (by_four (SetsOne 3 5) refl refl refl refl (λ n. ground arith))
        (by_four (SetsOne 3 6) refl refl refl refl (λ n. ground arith))

  SameCustom : ℕ → ℕ → ℕ → Type 0
  SameCustom area i b = custom_list (set_standard fru area i d) b ≡ custom_list fru b

  same_custom : (area i : ℕ) → i < field_max area → (b : ℕ) → SameCustom area i b
  unfolding set_standard SameCustom
  same_custom =
      all_fields (λ area i. (b : ℕ) → SameCustom area i b)
        (by_four (SameCustom 1 0) refl refl refl refl (λ n. refl))
        (by_four (SameCustom 1 1) refl refl refl refl (λ n. refl))
        (by_four (SameCustom 2 0) refl refl refl refl (λ n. refl))
        (by_four (SameCustom 2 1) refl refl refl refl (λ n. refl))
        (by_four (SameCustom 2 2) refl refl refl refl (λ n. refl))
        (by_four (SameCustom 2 3) refl refl refl refl (λ n. refl))
        (by_four (SameCustom 2 4) refl refl refl refl (λ n. refl))
        (by_four (SameCustom 3 0) refl refl refl refl (λ n. refl))
        (by_four (SameCustom 3 1) refl refl refl refl (λ n. refl))
        (by_four (SameCustom 3 2) refl refl refl refl (λ n. refl))
        (by_four (SameCustom 3 3) refl refl refl refl (λ n. refl))
        (by_four (SameCustom 3 4) refl refl refl refl (λ n. refl))
        (by_four (SameCustom 3 5) refl refl refl refl (λ n. refl))
        (by_four (SameCustom 3 6) refl refl refl refl (λ n. refl))

  same_order : (area i : ℕ) → i < field_max area → (set_standard fru area i d).order ≡ fru.order
  unfolding set_standard
  same_order =
      all_fields (λ area i. (set_standard fru area i d).order ≡ fru.order) refl refl refl refl refl
        refl refl refl refl refl refl refl refl refl

  same_present :
      (area i : ℕ) → i < field_max area → (set_standard fru area i d).present ≡ fru.present
  unfolding set_standard
  same_present =
      all_fields (λ area i. (set_standard fru area i d).present ≡ fru.present) refl refl refl refl
        refl refl refl refl refl refl refl refl refl refl

counted : (area i : ℕ) → i < field_max area → ltb i (fieldcount area) ≡ true
unfolding fieldcount
counted =
    all_fields (λ area i. ltb i (fieldcount area) ≡ true) refl refl refl refl refl refl refl refl
      refl refl refl refl refl refl

-- The option `--set` for a standard field of a well-formed FRU, with a value that fru_setfield
-- accepts for the old field: the area is then present, fru_getfield gives the new field, and every
-- other standard field and all custom fields are as they were. Allocations play no part.
pub set_field_standard :
    (entry_allocated rec_allocated : Bool) (fru : Fru) (enc : FieldEnc) (area i : ℕ) (value : Bytes)
    (d : Field) (e e1 : FruErrno)
    → WellFormed fru
    → i < field_max area
    → setfield (some (standard_field fru area i)) enc (some value) e ≡ ok (some d, true) e1
    → (fru' : Fru) × (e' : FruErrno) × (set_field entry_allocated rec_allocated
          (as_standard enc area i value)
          fru
          e
        ≡ ok fru' e')
      × Flag fru'.present true area
      × (getfield (some fru') area i e' ≡ ok d e')
      × ((b : ℕ) → fields fru' b ≡ (if b == area - 1 then set (fields fru b) i d else fields fru b))
      × ((b : ℕ) → custom_list fru' b ≡ custom_list fru b)
unfolding fields
set_field_standard entry_allocated rec_allocated fru enc area i value d e e1 wf settable accepted =
    let (low, high) = info_bounds area i settable in
    let fru1 = set_standard fru area i d in
    let wf1 =
      WellFormed-same fru fru1 (same_order fru d area i settable)
        (same_present fru d area i settable) wf in
    let (order', present', e', run, flag, _) = try_enable_lem fru1 area e1 wf1 (omega arith) in
    let fru' = record fru1 { order = order'; present = present' } in
    (
      fru',
      e',
      unfold set_field locate field_at stored put_field in
          rw (old_there fru d area i settable, bind_outcome) (rw (accepted, bind_outcome) run),
      flag,
      unfold getfield in
          rw (info_area_lem fru' e' area low high flag, bind_outcome)
            (rw (counted area i settable, bind_outcome)
              (rw (new_there fru d area i settable) refl)),
      unfold SetsOne in sets_one fru d area i settable,
      unfold SameCustom in same_custom fru d area i settable,
    )
