-- ===== src/Cli/Names.antt =====
-- frugen_enc_by_name and frugen_mr_mgmt_type_by_name find what they are to find.
use frugen.Common.{
  ℕ, zero, suc, ◌≤◌, ◌≡◌, ◌≢◌, refl, sym, ap, ◌∙◌, true, some, List, [], ◌∷◌, Bytes, arith,
  Bool-cases, inl, inr, ◌↔◌,
}
use frugen.Errno.{FruErrno, ok}
use frugen.Field.{
  FieldEnc, fe_empty, fe_binary, fe_bcdplus, fe_6bitascii, fe_text, fe_auto, fe_unknown,
}
use frugen.Cli.{
  enc_name_by_val, enc_search, named_encs, enc_by_name, same_string, mr_mgmt_type_by_name,
  mgmt_search, mr_mgmt_name_by_type,
}

pub same_string_sound : (s t : Bytes) → same_string s t ≡ true → s ≡ t
unfolding same_string
same_string_sound [] [] h = refl
same_string_sound [] (d ∷ t) h = cc
same_string_sound (c ∷ s) [] h = cc
same_string_sound (c ∷ s) (d ∷ t) h = ground (arith, same_string_sound s t)

pub same_string_refl : (s : Bytes) → same_string s s ≡ true
unfolding same_string
same_string_refl [] = refl
same_string_refl (c ∷ s) = ground (arith, same_string_refl s)

enc_search_sound :
    (name : Bytes) (encs : List FieldEnc) (enc : FieldEnc)
    → enc ≢ fe_unknown
    → enc_search name encs ≡ enc
    → name ≡ enc_name_by_val enc
unfolding enc_search
enc_search_sound name [] enc known h = absurd (known (sym h))
enc_search_sound name (x ∷ encs) enc known h =
    elim (Bool-cases (same_string name (enc_name_by_val x))) [
      | inl hit ↦
          let is_x : x ≡ enc = rw (hit, enc_search) at h in
          same_string_sound name (enc_name_by_val x) hit ∙ ap enc_name_by_val is_x
      | inr miss ↦
          let rest : enc_search name encs ≡ enc = rw (miss, enc_search) at h in
          enc_search_sound name encs enc known rest
    ]

enc_by_name-enc_name : (enc : FieldEnc) → enc_by_name (enc_name_by_val enc) ≡ enc
unfolding enc_by_name enc_search enc_name_by_val same_string
enc_by_name-enc_name fe_empty = refl
enc_by_name-enc_name fe_binary = refl
enc_by_name-enc_name fe_bcdplus = refl
enc_by_name-enc_name fe_6bitascii = refl
enc_by_name-enc_name fe_text = refl
enc_by_name-enc_name fe_auto = refl
enc_by_name-enc_name fe_unknown = refl

-- frugen_enc_by_name gives an encoding other than FRU_FE_UNKNOWN for exactly one name, the one that
-- frugen_enc_name_by_val gives for it.
pub enc_by_name_iff :
    (name : Bytes) (enc : FieldEnc)
    → enc ≢ fe_unknown
    → (enc_by_name name ≡ enc) ↔ (name ≡ enc_name_by_val enc)
enc_by_name_iff name enc known = (
  unfold enc_by_name in enc_search_sound name named_encs enc known,
  λ h. ap enc_by_name h ∙ enc_by_name-enc_name enc,
)

-- For each of the seven subtypes of a management record, frugen_mr_mgmt_name_by_type gives a name
-- for which frugen_mr_mgmt_type_by_name gives the subtype.
pub mr_mgmt_type-name :
    (subtype : ℕ) (e : FruErrno)
    → 1 ≤ subtype
    → subtype ≤ 7
    → (name : Bytes) × (mr_mgmt_name_by_type subtype e ≡ ok name e)
      × (mr_mgmt_type_by_name (some name) ≡ subtype)
unfolding mr_mgmt_name_by_type mr_mgmt_type_by_name mgmt_search same_string
mr_mgmt_type-name zero e low high = absurd (omega arith)
mr_mgmt_type-name (suc zero) e low high = (_, refl, refl)
mr_mgmt_type-name (suc (suc zero)) e low high = (_, refl, refl)
mr_mgmt_type-name (suc (suc (suc zero))) e low high = (_, refl, refl)
mr_mgmt_type-name (suc (suc (suc (suc zero)))) e low high = (_, refl, refl)
mr_mgmt_type-name (suc (suc (suc (suc (suc zero))))) e low high = (_, refl, refl)
mr_mgmt_type-name (suc (suc (suc (suc (suc (suc zero)))))) e low high = (_, refl, refl)
mr_mgmt_type-name (suc (suc (suc (suc (suc (suc (suc zero))))))) e low high = (_, refl, refl)
mr_mgmt_type-name (suc (suc (suc (suc (suc (suc (suc (suc n)))))))) e low high =
    absurd (omega arith)
