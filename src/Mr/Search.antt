-- ===== src/Mr/Search.antt =====
-- The search of mr_operation.
use frugen.Common.{
  ℕ, suc, ◌+◌, ◌≤◌, ◌<◌, ◌≡◌, ◌≢◌, refl, ap, true, false, none, some, List, [], ◌∷◌, ◌++◌, leb,
  ◌==◌, length, arith, Bool-cases, inl, inr, ◌⊎◌,
}
use frugen.Errno.{FruErrno, ok, bind_outcome, deref, pure}
use frugen.Fru.{MrRec, fru_mr_any}
use frugen.Mr.{Entry, is_at_index, is_of_type, matches, passed_by, search_mr}

-- Any record at an index: no entry but that one is looked at.
pub search_mr_any :
    (i count : ℕ) (before : List Entry) (entry : Entry) (behind : List Entry) (e : FruErrno)
    → i ≡ count + length before
    → search_mr fru_mr_any (some i) i count (before ++ entry ∷ behind) e
      ≡ ok (some (record { at = i; before = before; entry = entry; behind = behind })) e
unfolding search_mr matches is_at_index is_of_type passed_by
search_mr_any i count [] entry behind e h =
    let here : (count == i) ≡ true = ground arith in
    let same : count ≡ i = omega arith in
    rw (here, bind_outcome)
      (ap (λ n. ok (some (record { at = n; before = []; entry = entry; behind = behind })) e) same)
search_mr_any i count (x ∷ before) entry behind e h =
    let not_here : (count == i) ≡ false = ground arith in
    let too_early : leb i count ≡ false = ground arith in
    rw (not_here, bind_outcome)
      (rw (too_early, bind_outcome)
        (rw (search_mr_any i (suc count) before entry behind e (omega arith), bind_outcome) refl))

-- Entries, from the index `count` on, that a search for a type goes past.
abbrev pub Passes : ℕ → ℕ → ℕ → List Entry → Type 0
Passes type_ start count [] = Unit
Passes type_ start count (x ∷ xs) =
    ((count < start) ⊎ ((r : MrRec) × (x ≡ some r) × (type_ ≢ r.rec_type)))
    × Passes type_ start (suc count) xs

no_match :
    (type_ start count : ℕ) (x : Entry) (e : FruErrno)
    → type_ ≢ fru_mr_any
    → (count < start) ⊎ ((r : MrRec) × (x ≡ some r) × (type_ ≢ r.rec_type))
    → matches type_ (some start) start count x e ≡ ok false e
unfolding matches is_at_index is_of_type
no_match type_ start count x e specific (inl early) =
    let no_index : (type_ == fru_mr_any) ≡ false = ground arith in
    let early_b : leb start count ≡ false = ground arith in
    rw (no_index, bind_outcome) (rw (early_b, bind_outcome) refl)
no_match type_ start count x e specific (inr (r, is_r, other)) =
    let no_index : (type_ == fru_mr_any) ≡ false = ground arith in
    let not_type : (type_ == r.rec_type) ≡ false = ground arith in
    rw (no_index, bind_outcome, is_r)
      (elim (Bool-cases (leb start count)) [
        | inl late ↦ rw (late, bind_outcome) (rw not_type refl)
        | inr early ↦ rw (early, bind_outcome) refl
      ])

pub search_mr_type :
    (type_ start i count : ℕ) (before : List Entry) (rec : MrRec) (behind : List Entry)
    (e : FruErrno)
    → type_ ≢ fru_mr_any
    → Passes type_ start count before
    → i ≡ count + length before
    → start ≤ i
    → type_ ≡ rec.rec_type
    → search_mr type_ (some start) start count (before ++ some rec ∷ behind) e
      ≡ ok (some (record { at = i; before = before; entry = some rec; behind = behind })) e
unfolding search_mr matches is_at_index is_of_type passed_by
search_mr_type type_ start i count [] rec behind e specific passes at from same =
    let no_index : (type_ == fru_mr_any) ≡ false = ground arith in
    let late : leb start count ≡ true = ground arith in
    let hit : (type_ == rec.rec_type) ≡ true = ground arith in
    let here : count ≡ i = omega arith in
    rw (no_index, bind_outcome)
      (rw (late, bind_outcome)
        (rw (hit, bind_outcome, deref, pure)
          (ap (λ n. ok (some (record { at = n; before = []; entry = some rec; behind = behind })) e)
            here)))
search_mr_type type_ start i count (x ∷ before) rec behind e specific (skip, passes) at from same =
    goes_on (no_match type_ start count x e specific skip) (
      search_mr_type type_ start i (suc count) before rec behind e specific passes (omega arith)
        from same)
  where
    goes_on :
        matches type_ (some start) start count x e ≡ ok false e
        → search_mr type_ (some start) start (suc count) (before ++ some rec ∷ behind) e
          ≡ ok (some (record { at = i; before = before; entry = some rec; behind = behind })) e
        → search_mr type_ (some start) start count (x ∷ (before ++ some rec ∷ behind)) e
          ≡ ok (some (record { at = i; before = x ∷ before; entry = some rec; behind = behind })) e
    goes_on missed rest = rw (missed, bind_outcome) (rw (rest, bind_outcome) refl)

-- Past all entries, nothing is found.
pub search_mr-none :
    (type_ start count : ℕ) (l : List Entry) (e : FruErrno)
    → type_ ≢ fru_mr_any
    → Passes type_ start count l
    → search_mr type_ (some start) start count l e ≡ ok none e
unfolding search_mr passed_by
search_mr-none type_ start count [] e specific passes = refl
search_mr-none type_ start count (x ∷ l) e specific (skip, passes) =
    rw (no_match type_ start count x e specific skip, bind_outcome)
      (rw (search_mr-none type_ start (suc count) l e specific passes, bind_outcome) refl)

-- One entry more that is gone past.
pub Passes-append :
    (type_ start count : ℕ) (l : List Entry) (x : Entry)
    → Passes type_ start count l
    → (count + length l < start) ⊎ ((r : MrRec) × (x ≡ some r) × (type_ ≢ r.rec_type))
    → Passes type_ start count (l ++ x ∷ [])
Passes-append type_ start count [] x passes (inl early) = (inl (omega arith), tt)
Passes-append type_ start count [] x passes (inr other) = (inr other, tt)
Passes-append type_ start count (y ∷ l) x (skip, passes) (inl early) =
    (skip, Passes-append type_ start (suc count) l x passes (inl (omega arith)))
Passes-append type_ start count (y ∷ l) x (skip, passes) (inr other) =
    (skip, Passes-append type_ start (suc count) l x passes (inr other))

-- Every entry in front of the start.
pub Passes-early :
    (type_ start count : ℕ) (l : List Entry) → count + length l ≤ start → Passes type_ start count l
Passes-early type_ start count [] h = tt
Passes-early type_ start count (x ∷ l) h =
    (inl (omega arith), Passes-early type_ start (suc count) l (omega arith))

-- At an index behind the last entry, nothing is found.
pub search_mr_any-none :
    (i count : ℕ) (l : List Entry) (e : FruErrno)
    → count + length l ≤ i
    → search_mr fru_mr_any (some i) i count l e ≡ ok none e
unfolding search_mr matches is_at_index is_of_type passed_by
search_mr_any-none i count [] e h = refl
search_mr_any-none i count (x ∷ l) e h =
    let not_here : (count == i) ≡ false = ground arith in
    let too_early : leb i count ≡ false = ground arith in
    rw (not_here, bind_outcome)
      (rw (too_early, bind_outcome)
        (rw (search_mr_any-none i (suc count) l e (omega arith), bind_outcome) refl))
