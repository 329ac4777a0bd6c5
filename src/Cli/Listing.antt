-- ===== src/Cli/Listing.antt =====
-- print_area shows every record of the multirecord area.
use frugen.Common.{
  ℕ, ◌+◌, zero, suc, ◌≤◌, ◌<◌, ◌≡◌, refl, sym, ap, ◌∙◌, true, some, List, [], ◌∷◌, ◌++◌, map,
  length, length-append, get_elem?, arith, append_assoc, append-nil, to_int, minus_one,
}
use frugen.Errno.{
  FruErrno, ok, bind_outcome, with_error, fenorec, ferr_loc_mr, fenone, ferr_loc_general,
}
use frugen.Fru.{Fru, MrRec, fru_mr}
use frugen.Mr.{Entry}
use frugen.Mr.Laws.{get_mr_there, get_mr-none, noted}
use frugen.Cli.Items.{Item, area_title}
use frugen.Cli.PrintMr.{print_mr_area}
use frugen.Cli.Print.{print_records, print_empty, print_mrs, print_area}

-- What print_mr_area prints for the records, with their numbers from `i` on, whatever the error
-- before is.
pub data Shown : ℕ → List MrRec → List Item → Type 0 where
  shown_nil : {i : ℕ} → Shown i [] []
  shown_cons :
      {i : ℕ} {rec : MrRec} {recs : List MrRec} (items : List Item) {rest : List Item}
      → ((e : FruErrno) → (e' : FruErrno) × (print_mr_area i rec e ≡ ok items e'))
      → Shown (suc i) recs rest
      → Shown i (rec ∷ recs) (items ++ rest)

length-map : (recs : List MrRec) → length (map {B = Entry} some recs) ≡ length recs
length-map [] = refl
length-map (rec ∷ recs) = ap suc (length-map recs)

print_records_lem :
    (fru : Fru) (recs : List MrRec) (items : List Item) (n : ℕ) (pre : List Entry) (e : FruErrno)
    → get_elem? fru.present fru_mr ≡ some true
    → fru.mr ≡ pre ++ map some recs
    → length recs < n
    → Shown (suc (length pre)) recs items
    → (e' : FruErrno) × (print_records n fru (length pre) e
        ≡ ok (length pre + length recs, items) e')
unfolding print_records
print_records_lem fru recs items zero pre e here split fuel shown = absurd (omega arith)
print_records_lem fru [] _ (suc n) pre e here split fuel shown_nil =
    let all : length fru.mr ≤ length pre = rw (split ∙ append-nil pre) (omega arith) in
    let after = with_error fenorec ferr_loc_mr (to_int (length pre)) e in
    (after, rw (get_mr-none fru (length pre) e here all) (ap (λ k. ok (k, []) after) (omega arith)))
print_records_lem fru (rec ∷ recs) _ (suc n) pre e here split fuel
      (shown_cons items {rest} prints shown) =
    let grow : length (pre ++ some rec ∷ []) ≡ suc (length pre) =
      omega (arith, length-append pre (some rec ∷ [])) in
    let (e1, printed) = prints (noted (length pre) (map some recs) e) in
    let (e', run) =
      print_records_lem fru recs rest n (pre ++ some rec ∷ []) e1 here
        (split ∙ sym (append_assoc pre (some rec ∷ []) (map some recs))) (omega arith)
        (rw grow shown) in
    let next : print_records n fru (suc (length pre)) e1
        ≡ ok (length pre + length (rec ∷ recs), rest) e' =
      (rw grow at run) ∙ ap (λ k. ok (k, rest) e') (omega arith) in
    (
      e',
      rw (get_mr_there fru pre rec (map some recs) e here split)
          (rw (printed, bind_outcome, next, bind_outcome) refl),
    )

print_empty_lem :
    (k : ℕ) (items : List Item) (e : FruErrno) → print_empty (suc k, items) e ≡ ok items e
unfolding print_empty
print_empty_lem k items e = ground arith

-- When the multirecord area is present, and it has records, none of them NULL, each of which
-- print_mr_area prints whatever the error before is, print_area of the area ends, and prints the
-- title and then each record once, in the order of the list, with its number from 1 on.
pub print_area-number :
    (fru : Fru) (rec : MrRec) (recs : List MrRec) (items : List Item) (e : FruErrno)
    → get_elem? fru.present fru_mr ≡ some true
    → fru.mr ≡ map some (rec ∷ recs)
    → Shown 1 (rec ∷ recs) items
    → (e' : FruErrno) × (print_area fru fru_mr e ≡ ok (area_title fru_mr ∷ items) e')
unfolding print_area print_mrs
print_area-number fru rec recs items e here records shown =
    let e1 = with_error fenone ferr_loc_general minus_one e in
    let size = ap length records ∙ length-map (rec ∷ recs) in
    let (e', run) =
      print_records_lem fru (rec ∷ recs) items (suc (length fru.mr)) [] e1 here records
        (omega (arith, size)) shown in
    let count : 0 + suc (length recs) ≡ suc (length recs) = omega arith in
    let printed = run ∙ ap (λ k. ok (k, items) e') count in
    (e', rw (printed, bind_outcome, print_empty_lem (length recs) items e', bind_outcome) refl)
