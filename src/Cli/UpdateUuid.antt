-- ===== src/Cli/UpdateUuid.antt =====
-- What frugen_update_uuid does to the list of records.
use frugen.Common.{
  ℕ, zero, suc, ◌+◌, ◌≤◌, ◌≡◌, refl, sym, ap, ◌∙◌, true, not, none, some, List, [], ◌∷◌, ◌++◌, map,
  Bytes, length, take, drop, take_all, get_elem?, get_elem?-set, get_elem?-lt, arith, Bool-cases,
  inl, inr, ◌⊎◌, All, set, minus_one,
}
use frugen.Errno.{FruErrno, ok, bind_outcome, with_error, feadisabled, ferr_loc_caller}
use frugen.Fru.{Fru, MrRec, fru_mr, fru_mr_mgmt_access}
use frugen.Mr.{Entry, is_nil, add_mr, replace_mr}
use frugen.Mr.Laws.{find_mr_absent, replace_mr_lem, add_mr_lem, noted}
use frugen.Cli.{list_tail}
use frugen.Cli.Uuid.{uuid_rec, find_mgmt, search_uuid, update_uuid}
use frugen.Cli.Upsert.{Readable, is_uuid, upsert, uuid_at, uuid_at_yes, uuid_at_no, search_lem}

-- Where the record goes.
abbrev Replaces : MrRec → List MrRec → ℕ → Type 0
Replaces new recs k =
    (before : List MrRec) × (old : MrRec) × (behind : List MrRec) × (recs ≡ before ++ old ∷ behind)
    × (uuid_at k recs ≡ some (k + length before))
    × (upsert new recs ≡ before ++ new ∷ behind)

upsert_cases :
    (new : MrRec) (recs : List MrRec) (k : ℕ)
    → ((uuid_at k recs ≡ none) × (upsert new recs ≡ recs ++ new ∷ [])) ⊎ Replaces new recs k
unfolding uuid_at
upsert_cases new [] k = inl (refl, refl)
upsert_cases new (r ∷ recs) k = elim (Bool-cases (is_uuid r)) [
  | inl uuid ↦
      inr (
        [],
        r,
        recs,
        refl,
        uuid_at_yes k r recs uuid ∙ ap some (omega arith),
        rw (uuid, upsert) refl,
      )
  | inr plain ↦ elim (upsert_cases new recs (suc k)) [
    | inl (missing, appended) ↦
        inl (uuid_at_no k r recs plain ∙ missing, rw (plain, upsert) (ap (λ l. r ∷ l) appended))
    | inr (before, old, behind, split, at, replaced) ↦ inr (
      r ∷ before,
      old,
      behind,
      ap (λ l. r ∷ l) split,
      uuid_at_no k r recs plain ∙ at ∙ ap some (omega arith),
      rw (plain, upsert) (ap (λ l. r ∷ l) replaced),
    )
  ]
]

map-some-append :
    (xs ys : List MrRec) → map {B = Entry} some (xs ++ ys) ≡ map some xs ++ map some ys
map-some-append [] ys = refl
map-some-append (x ∷ xs) ys = ap (λ l. some x ∷ l) (map-some-append xs ys)

length-map-some : (xs : List MrRec) → length (map {B = Entry} some xs) ≡ length xs
length-map-some [] = refl
length-map-some (x ∷ xs) = ap suc (length-map-some xs)

drop_all : (n : ℕ) (l : List Entry) → length l ≤ n → drop n l ≡ []
drop_all zero [] h = refl
drop_all zero (x ∷ l) h = absurd (omega arith)
drop_all (suc n) [] h = refl
drop_all (suc n) (x ∷ l) h = drop_all n l (omega arith)

module _ (fru : Fru) (recs : List MrRec) (new : MrRec) (e : FruErrno)
    (records : fru.mr ≡ map some recs)
    (flag : get_elem? fru.present fru_mr ≡ some (not (is_nil recs))) where
  added :
      length recs ≤ list_tail
      → (fru' : Fru) × (add_mr true true (some fru) list_tail (some new) e ≡ ok fru' e)
        × (fru'.mr ≡ map some (recs ++ new ∷ []))
        × (get_elem? fru'.present fru_mr ≡ some true)
  added short =
      let size = get_elem?-lt fru.present fru_mr flag in
      let fits : length fru.mr ≤ list_tail = rw (records, length-map-some recs) short in
      let ends : take list_tail fru.mr ++ some new ∷ drop list_tail fru.mr
          ≡ map some (recs ++ new ∷ []) =
        rw (take_all list_tail fru.mr fits, drop_all list_tail fru.mr fits, records)
          (sym (map-some-append recs (new ∷ []))) in
      (
        record fru {
          mr = take list_tail fru.mr ++ some new ∷ drop list_tail fru.mr;
          present = set fru.present fru_mr true;
        },
        add_mr_lem fru list_tail (some new) e size,
        ends,
        get_elem?-set fru.present fru_mr true size,
      )

  replaced :
      get_elem? fru.present fru_mr ≡ some true
      → (place : Replaces new recs 0)
      → (fru' : Fru) × (e' : FruErrno) × (replace_mr (some fru) (length place.0) (some new) e
          ≡ ok fru' e')
        × (fru'.mr ≡ map some (upsert new recs))
        × (get_elem? fru'.present fru_mr ≡ some true)
  replaced here (before, old, behind, split, at, result) =
      let here_split = records ∙ ap (map some) split ∙ map-some-append before (old ∷ behind) in
      (
        record fru { mr = map some before ++ some new ∷ map some behind },
        noted (length before) (map some behind) e,
        replace_mr_lem fru (length before) (map some before) old new (map some behind) e here
            here_split (sym (length-map-some before)),
        rw result (sym (map-some-append before (new ∷ behind))),
        here,
      )

search_start :
    (fru : Fru) (recs : List MrRec) (e : FruErrno)
    → fru.mr ≡ map some recs
    → get_elem? fru.present fru_mr ≡ some (not (is_nil recs))
    → All Readable recs
    → (e' : FruErrno) × (search_uuid (suc (length fru.mr)) fru 0 e ≡ ok (uuid_at 0 recs) e')
search_start fru [] e records absent readable = (
  with_error feadisabled ferr_loc_caller minus_one e,
  unfold search_uuid uuid_at find_mgmt in
      rw (find_mr_absent fru fru_mr_mgmt_access 0 e absent) refl,
)
search_start fru (r ∷ recs) e records here readable =
    let size = ap length records ∙ length-map-some (r ∷ recs) in
    search_lem fru here (r ∷ recs) (suc (length fru.mr)) 0 [] e records (omega arith) tt readable
      (omega (arith, size))

-- When memory is allocated, frugen_update_uuid on a FRU whose records are `recs`, at most as many
-- as an `int` counts, where each management record holds its `mgmt` member and the multirecord
-- area is present exactly when there are records, succeeds: the UUID record takes the place of
-- the first record of this kind, or is added behind all others, no other record changes, and the
-- area is present.
pub update_uuid-upsert :
    (fru : Fru) (recs : List MrRec) (s : Bytes) (e : FruErrno)
    → fru.mr ≡ map some recs
    → get_elem? fru.present fru_mr ≡ some (not (is_nil recs))
    → All Readable recs
    → length recs ≤ list_tail
    → (fru' : Fru) × (e' : FruErrno) × (update_uuid true true fru s e ≡ ok fru' e')
      × (fru'.mr ≡ map some (upsert (uuid_rec s) recs))
      × (get_elem? fru'.present fru_mr ≡ some true)
update_uuid-upsert fru recs s e records flag readable short =
    let (e1, found) = search_start fru recs e records flag readable in
    elim (upsert_cases (uuid_rec s) recs 0) [
      | inl (missing, appended) ↦
          let (fru', run, result, here) = added fru recs (uuid_rec s) e1 records flag short in
          (
            fru',
            e1,
            unfold update_uuid in rw (found ∙ ap (λ o. ok o e1) missing, bind_outcome) run,
            rw appended result,
            here,
          )
      | inr (before, old, behind, split, at, result) ↦
          let zero_add : 0 + length before ≡ length before = omega arith in
          let (fru', e', run, mr', here') =
            replaced fru recs (uuid_rec s) e1 records flag
              (present_of recs flag before old behind split)
              (before, old, behind, split, at, result) in
          (
            fru',
            e',
            unfold update_uuid in
                rw (found ∙ ap (λ o. ok o e1) (at ∙ ap some zero_add), bind_outcome) run,
            mr',
            here',
          )
    ]
  where
    present_of :
        (recs : List MrRec)
        → get_elem? fru.present fru_mr ≡ some (not (is_nil recs))
        → (before : List MrRec) (old : MrRec) (behind : List MrRec) → recs ≡ before ++ old ∷ behind
        → get_elem? fru.present fru_mr ≡ some true
    present_of (r ∷ recs) flag before old behind split = flag
    present_of [] flag [] old behind split = cc
    present_of [] flag (x ∷ before) old behind split = cc
