-- ===== src/Custom/Entries.antt =====
-- The record list under insertion, search and deletion.
use frugen.Common.{
  ℕ, zero, suc, ◌≤◌, ◌≡◌, refl, true, List, [], ◌∷◌, ◌++◌, length, take, drop, arith,
}
use frugen.Errno.{FruErrno, ok}
use frugen.Custom.{find_reclist_entry, insert_entry, add_reclist_entry}

-- The search splits the list at the index.
pub find_reclist_entry_lem {ℓ} :
    {A : Type ℓ} (l : List A) (i : ℕ) → find_reclist_entry l i ≡ (take i l, drop i l)
unfolding find_reclist_entry
find_reclist_entry_lem [] zero = refl
find_reclist_entry_lem [] (suc i) = refl
find_reclist_entry_lem (x ∷ l) zero = refl
find_reclist_entry_lem (x ∷ l) (suc i) = rw (find_reclist_entry_lem l i) refl

-- An entry is inserted at the index, or behind the end.
pub add_reclist_entry_lem {ℓ} :
    {A : Type ℓ} (l : List A) (i : ℕ) (x : A) (e : FruErrno)
    → add_reclist_entry true l i x e ≡ ok (take i l ++ x ∷ drop i l) e
unfolding add_reclist_entry insert_entry
add_reclist_entry_lem [] zero x e = refl
add_reclist_entry_lem [] (suc i) x e = refl
add_reclist_entry_lem (y ∷ l) i x e = rw (find_reclist_entry_lem (y ∷ l) i) refl

-- The search finds what was inserted.
pub find_inserted {ℓ} :
    {A : Type ℓ} (l : List A) (i : ℕ) (x : A)
    → i ≤ length l
    → find_reclist_entry (take i l ++ x ∷ drop i l) i ≡ (take i l, x ∷ drop i l)
unfolding find_reclist_entry
find_inserted l zero x h = refl
find_inserted [] (suc i) x h = absurd (omega arith)
find_inserted (y ∷ l) (suc i) x h = rw (find_inserted l i x (omega arith)) refl
