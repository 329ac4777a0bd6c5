-- ===== src/Cli/Upsert.antt =====
-- The search of frugen_update_uuid for an old record, and what the call is to do to the list of
-- records.
use frugen.Common.{
  ℕ, zero, suc, ◌≤◌, ◌<◌, ◌≡◌, ◌≢◌, refl, sym, ap, ◌∙◌, Bool, true, false, ◌&&◌, Option, none, some,
  List, [], ◌∷◌, ◌++◌, map, ◌==◌, ==_iff, length, length-append, get_elem?, arith, Bool-cases, inl,
  inr, ◌⊎◌, All, append_assoc, append-nil, to_int,
}
use frugen.Errno.{FruErrno, ok, bind_outcome, with_error, fenorec, ferr_loc_mr}
use frugen.Fru.{Fru, MrRec, MrBody, zeroed, mgmt, raw, fru_mr, fru_mr_mgmt_access}
use frugen.Mr.{Entry}
use frugen.Mr.Search.{Passes, Passes-append, Passes-early}
use frugen.Mr.Laws.{find_mr_first, find_mr-none, noted}
use frugen.Save.Record.{mgmt_sys_uuid}
use frugen.Cli.Uuid.{subtype_of, find_mgmt, search_uuid}

-- A management record holds the `mgmt` member of the union.
abbrev pub HasSubtype : MrBody → Type 0
HasSubtype (raw type_ enc text) = ⊥
HasSubtype _ = Unit

abbrev pub Readable : MrRec → Type 0
Readable r = (fru_mr_mgmt_access ≢ r.rec_type) ⊎ HasSubtype r.body

abbrev pub has_uuid_subtype : MrBody → Bool
has_uuid_subtype (mgmt subtype text) = subtype == mgmt_sys_uuid
has_uuid_subtype _ = false

abbrev pub is_uuid : MrRec → Bool
is_uuid r = (fru_mr_mgmt_access == r.rec_type) && has_uuid_subtype r.body

-- The new record takes the place of the first UUID record, or stands behind all others.
abbrev pub upsert : MrRec → List MrRec → List MrRec
upsert new [] = new ∷ []
upsert new (r ∷ recs) = elim (is_uuid r) [ true ↦ new ∷ recs | false ↦ r ∷ upsert new recs ]

unfoldable pub uuid_at : ℕ → List MrRec → Option ℕ
uuid_at i [] = none
uuid_at i (r ∷ recs) = elim (is_uuid r) [ true ↦ some i | false ↦ uuid_at (suc i) recs ]

subtype_of_lem :
    (body : MrBody) (e : FruErrno)
    → HasSubtype body
    → (subtype : ℕ) × (subtype_of body e ≡ ok subtype e)
      × ((subtype == mgmt_sys_uuid) ≡ has_uuid_subtype body)
unfolding subtype_of
subtype_of_lem zeroed e h = (0, refl, refl)
subtype_of_lem (mgmt subtype text) e h = (subtype, refl, refl)
subtype_of_lem (raw type_ enc text) e h = elim h [ ]

pub uuid_at_yes :
    (k : ℕ) (r : MrRec) (recs : List MrRec) → is_uuid r ≡ true → uuid_at k (r ∷ recs) ≡ some k
unfolding uuid_at
uuid_at_yes k r recs h = rw (h, uuid_at) refl

pub uuid_at_no :
    (k : ℕ) (r : MrRec) (recs : List MrRec)
    → is_uuid r ≡ false
    → uuid_at k (r ∷ recs) ≡ uuid_at (suc k) recs
unfolding uuid_at
uuid_at_no k r recs h = rw (h, uuid_at) refl

module _ (fru : Fru) (here : get_elem? fru.present fru_mr ≡ some true) where
  found_lem :
      (start : ℕ) (pre : List Entry) (r : MrRec) (behind : List Entry) (e : FruErrno)
      → fru.mr ≡ pre ++ some r ∷ behind
      → start ≤ length pre
      → Passes fru_mr_mgmt_access start 0 pre
      → fru_mr_mgmt_access ≡ r.rec_type
      → find_mgmt fru start e ≡ ok (some (length pre, some r)) (noted (length pre) behind e)
  unfolding find_mgmt
  found_lem start pre r behind e split from passes same =
      rw
        (find_mr_first fru fru_mr_mgmt_access start pre r behind e here split refl (omega arith)
          passes from same)
        refl

  none_lem :
      (start : ℕ) (pre : List Entry) (e : FruErrno)
      → fru.mr ≡ pre
      → Passes fru_mr_mgmt_access start 0 pre
      → (e' : FruErrno) × (find_mgmt fru start e ≡ ok none e')
  unfolding find_mgmt
  none_lem start pre e all passes =
      let through : Passes fru_mr_mgmt_access start 0 fru.mr = rw all passes in
      (
        with_error fenorec ferr_loc_mr (to_int start) e,
        rw (find_mr-none fru fru_mr_mgmt_access start e here refl (omega arith) through) refl,
      )

  -- A round of the loop that finds a record.
  module _ (n start : ℕ) (pre : List Entry) (r : MrRec) (behind : List Entry) (e : FruErrno)
      (split : fru.mr ≡ pre ++ some r ∷ behind) (from : start ≤ length pre)
      (passes : Passes fru_mr_mgmt_access start 0 pre) (same : fru_mr_mgmt_access ≡ r.rec_type)
      (readable : HasSubtype r.body) where
    round_uuid :
        has_uuid_subtype r.body ≡ true
        → search_uuid (suc n) fru start e ≡ ok (some (length pre)) (noted (length pre) behind e)
    unfolding search_uuid
    round_uuid uuid =
        let (subtype, read, is_it) = subtype_of_lem r.body (noted (length pre) behind e) readable in
        rw (found_lem start pre r behind e split from passes same, bind_outcome)
          (rw (read, bind_outcome) (rw (is_it ∙ uuid) refl))

    round_other :
        has_uuid_subtype r.body ≡ false
        → search_uuid (suc n) fru start e
          ≡ search_uuid n fru (suc (length pre)) (noted (length pre) behind e)
    unfolding search_uuid
    round_other other =
        let (subtype, read, is_it) = subtype_of_lem r.body (noted (length pre) behind e) readable in
        rw (found_lem start pre r behind e split from passes same, bind_outcome)
          (rw (read, bind_outcome) (rw (is_it ∙ other) refl))

  pub search_lem :
      (recs : List MrRec) (n start : ℕ) (pre : List Entry) (e : FruErrno)
      → fru.mr ≡ pre ++ map some recs
      → start ≤ length pre
      → Passes fru_mr_mgmt_access start 0 pre
      → All Readable recs
      → length recs < n
      → (e' : FruErrno) × (search_uuid n fru start e ≡ ok (uuid_at (length pre) recs) e')
  search_lem recs zero start pre e split from passes readable fuel = absurd (omega arith)
  search_lem [] (suc n) start pre e split from passes readable fuel =
      let (e', run) = none_lem start pre e (split ∙ append-nil pre) passes in
      (e', unfold search_uuid uuid_at in rw (run, bind_outcome) refl)
  search_lem (r ∷ recs) (suc n) start pre e split from passes (readable, rest) fuel =
      elim (Bool-cases (fru_mr_mgmt_access == r.rec_type)) [
        | inr other ↦
            let differs : fru_mr_mgmt_access ≢ r.rec_type = ground arith in
            let (e', run) =
              search_lem recs (suc n) start (pre ++ some r ∷ []) e split' (omega (arith, grow))
                (Passes-append fru_mr_mgmt_access start 0 pre (some r) passes
                  (inr (r, refl, differs)))
                rest (omega arith) in
            (e', run ∙ ap (λ o. ok o e') (moved (rw other refl)))
        | inl same ↦
            let type_eq = (==_iff fru_mr_mgmt_access r.rec_type).0 same in
            let body = has_subtype readable type_eq in
            elim (Bool-cases (has_uuid_subtype r.body)) [
              | inl uuid ↦ (
                noted (length pre) (map some recs) e,
                round_uuid n start pre r (map some recs) e split from passes type_eq body uuid
                    ∙ ap (λ o. ok o (noted (length pre) (map some recs) e))
                        (sym (uuid_at_yes (length pre) r recs (rw (same, uuid) refl))),
              )
              | inr plain ↦
                  let (e', run) =
                    search_lem recs n (suc (length pre)) (pre ++ some r ∷ [])
                      (noted (length pre) (map some recs) e) split' (omega (arith, grow))
                      (Passes-early fru_mr_mgmt_access (suc (length pre)) 0 (pre ++ some r ∷ [])
                        (omega (arith, grow)))
                      rest (omega arith) in
                  (
                    e',
                    round_other n start pre r (map some recs) e split from passes type_eq body plain
                        ∙ run
                        ∙ ap (λ o. ok o e') (moved (rw (same, plain) refl)),
                  )
            ]
      ]
    where
      grow : length (pre ++ some r ∷ []) ≡ suc (length pre)
      grow = omega (arith, length-append pre (some r ∷ []))

      split' : fru.mr ≡ (pre ++ some r ∷ []) ++ map some recs
      split' = split ∙ sym (append_assoc pre (some r ∷ []) (map some recs))

      moved :
          is_uuid r ≡ false
          → uuid_at (length (pre ++ some r ∷ [])) recs ≡ uuid_at (length pre) (r ∷ recs)
      moved plain = ap (λ k. uuid_at k recs) grow ∙ sym (uuid_at_no (length pre) r recs plain)

      has_subtype : Readable r → fru_mr_mgmt_access ≡ r.rec_type → HasSubtype r.body
      has_subtype (inl differs) type_eq = absurd (differs type_eq)
      has_subtype (inr body) type_eq = body
