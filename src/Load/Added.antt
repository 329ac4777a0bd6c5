-- ===== src/Load/Added.antt =====
-- What the custom fields that a decoded area brings do to the FRU.
use frugen.Common.{
  ℕ, zero, suc, ◌+◌, ◌-◌, ◌≤◌, ◌≡◌, refl, sym, ap, ◌∙◌, Bool, some, map, List, [], ◌∷◌, ◌++◌, All,
  length, length-append, take, drop, arith, append-nil, append_assoc,
}
use frugen.Errno.{FruErrno, ok, bind_outcome}
use frugen.Field.{Field}
use frugen.Fru.{Fru, Reclist, fields}
use frugen.Area.Order.{WellFormed}
use frugen.Custom.{set_customlist}
use frugen.Custom.Add.{custom_list, info_cases, custom_list-set}
use frugen.Custom.Laws.{linked, add_custom_lem}
use frugen.Save.Area.{langtype}
use frugen.Load.Area.{keep_custom, fru_list_tail}
use frugen.Load.HeldLoop.{keep_all}
use frugen.Load.Survives.{Survives, new_field-Survives}

-- What a custom field that is added leaves as it was.
set_customlist-fields :
    (fru : Fru) (cust : Reclist) (order' : List ℕ) (present' : List Bool) (atype : ℕ)
    → 1 ≤ atype
    → atype ≤ 3
    → fields
        (record (set_customlist fru atype cust) { order = order'; present = present' })
        (atype - 1)
      ≡ fields fru (atype - 1)
unfolding fields set_customlist
set_customlist-fields fru cust order' present' =
    info_cases
      (λ a.
        fields (record (set_customlist fru a cust) { order = order'; present = present' }) (a - 1)
        ≡ fields fru (a - 1))
      refl refl refl

set_customlist-langtype :
    (fru : Fru) (cust : Reclist) (order' : List ℕ) (present' : List Bool) (atype : ℕ)
    → 1 ≤ atype
    → atype ≤ 3
    → langtype
        (record (set_customlist fru atype cust) { order = order'; present = present' })
        (atype - 1)
      ≡ langtype fru (atype - 1)
unfolding set_customlist
set_customlist-langtype fru cust order' present' =
    info_cases
      (λ a.
        langtype (record (set_customlist fru a cust) { order = order'; present = present' }) (a - 1)
        ≡ langtype fru (a - 1))
      refl refl refl

custom_list-parts :
    (fru : Fru) (order' : List ℕ) (present' : List Bool) (atype : ℕ)
    → 1 ≤ atype
    → atype ≤ 3
    → custom_list (record fru { order = order'; present = present' }) atype ≡ custom_list fru atype
custom_list-parts fru order' present' =
    info_cases
      (λ a. custom_list (record fru { order = order'; present = present' }) a ≡ custom_list fru a)
      refl refl refl

end_split {ℓ} :
    {A : Type ℓ} (n : ℕ) (xs : List A) (y : A)
    → length xs ≤ n
    → take n xs ++ y ∷ drop n xs ≡ xs ++ y ∷ []
end_split zero [] y h = refl
end_split zero (x ∷ xs) y h = absurd (omega arith)
end_split (suc n) [] y h = refl
end_split (suc n) (x ∷ xs) y h = ap (λ l. x ∷ l) (end_split n xs y (omega arith))

-- What has happened to an area when custom fields are added to it.
pub record Added (fru : Fru) (atype : ℕ) (added : List Field) (fru' : Fru) : Type 0 where
  pub well_formed : WellFormed fru'
  pub customs : custom_list fru' atype ≡ custom_list fru atype ++ map some added
  pub same_fields : fields fru' (atype - 1) ≡ fields fru (atype - 1)
  pub same_langtype : langtype fru' (atype - 1) ≡ langtype fru (atype - 1)

module _ (atype : ℕ) (low : 1 ≤ atype) (high : atype ≤ 3) where
  keep_custom-Added :
      (fru : Fru) (field : Field) (e : FruErrno)
      → WellFormed fru
      → Survives field
      → length (custom_list fru atype) ≤ fru_list_tail
      → (fru' : Fru) × (e' : FruErrno) × (keep_custom fru atype field e ≡ ok fru' e')
        × Added fru atype (field ∷ []) fru'
  unfolding keep_custom
  keep_custom-Added fru field e wf s short =
      let (e1, encoded) = new_field-Survives atype fru_list_tail field e s in
      let (order', present', e', run, here, wf') =
        add_custom_lem fru atype fru_list_tail field.enc (some field.val) field e e1 low high wf
          encoded in
      let cust : Reclist = custom_list fru atype in
      let cust' : Reclist =
        linked fru atype fru_list_tail field.enc (some field.val) field e e1 low high wf encoded in
      let at_end : cust' ≡ cust ++ some field ∷ [] =
        end_split fru_list_tail cust (some field) short in
      let fru' : Fru = record (set_customlist fru atype cust') {
        order = order';
        present = present';
      } in
      (
        fru',
        e',
        rw (run, keep_custom) refl,
        record {
          well_formed = wf';
          customs =
              custom_list-parts (set_customlist fru atype cust') order' present' atype low high
              ∙ custom_list-set fru cust' atype low high
              ∙ at_end;
          same_fields = set_customlist-fields fru cust' order' present' atype low high;
          same_langtype = set_customlist-langtype fru cust' order' present' atype low high;
        },
      )

  pub keep_all-Added :
      (fru : Fru) (added : List Field) (e : FruErrno)
      → WellFormed fru
      → All Survives added
      → length (custom_list fru atype) + length added ≤ fru_list_tail
      → (fru' : Fru) × (e' : FruErrno) × (keep_all atype added fru e ≡ ok fru' e')
        × Added fru atype added fru'
  unfolding keep_all
  keep_all-Added fru [] e wf survive short = (
    fru,
    e,
    refl,
    record {
      well_formed = wf;
      customs = sym (append-nil (custom_list fru atype));
      same_fields = refl;
      same_langtype = refl;
    },
  )
  keep_all-Added fru (field ∷ added) e wf (s, survive) short =
      let (fru1, e1, run, first) = keep_custom-Added fru field e wf s (omega arith) in
      let grown : length (custom_list fru1 atype) ≡ suc (length (custom_list fru atype)) =
        ap length first.customs
        ∙ omega (arith, length-append (custom_list fru atype) (some field ∷ [])) in
      let (fru', e', run', rest) =
        keep_all-Added fru1 added e1 first.well_formed survive (omega arith) in
      (
        fru',
        e',
        rw (run, bind_outcome) run',
        record {
          well_formed = rest.well_formed;
          customs =
              rest.customs
              ∙ ap (λ l. l ++ map some added) first.customs
              ∙ append_assoc (custom_list fru atype) (some field ∷ []) (map some added);
          same_fields = rest.same_fields ∙ first.same_fields;
          same_langtype = rest.same_langtype ∙ first.same_langtype;
        },
      )
