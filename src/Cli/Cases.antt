-- ===== src/Cli/Cases.antt =====
-- Case analysis over the standard fields of the three information areas.
use frugen.Common.{ℕ, zero, suc, ◌<◌, arith}
use frugen.Cli.{field_max}

-- A property of every field of the three areas.
field_cases {ℓ} :
    (P : ℕ → ℕ → Type ℓ)
    → ((i : ℕ) → i < 2 → P 1 i)
    → ((i : ℕ) → i < 5 → P 2 i)
    → ((i : ℕ) → i < 7 → P 3 i)
    → (area i : ℕ) → i < field_max area
    → P area i
unfolding field_max
field_cases P p1 p2 p3 zero i h = absurd (omega arith)
field_cases P p1 p2 p3 (suc zero) i h = p1 i h
field_cases P p1 p2 p3 (suc (suc zero)) i h = p2 i h
field_cases P p1 p2 p3 (suc (suc (suc zero))) i h = p3 i h
field_cases P p1 p2 p3 (suc (suc (suc (suc zero)))) i h = absurd (omega arith)
field_cases P p1 p2 p3 (suc (suc (suc (suc (suc a))))) i h = absurd (omega arith)

below_two {ℓ} : (P : ℕ → Type ℓ) → P 0 → P 1 → (i : ℕ) → i < 2 → P i
below_two P a b zero h = a
below_two P a b (suc zero) h = b
below_two P a b (suc (suc i)) h = absurd (omega arith)

below_five {ℓ} : (P : ℕ → Type ℓ) → P 0 → P 1 → P 2 → P 3 → P 4 → (i : ℕ) → i < 5 → P i
below_five P a b c d e (suc (suc (suc i))) h =
    below_two (λ j. P (suc (suc (suc j)))) d e i (omega arith)
below_five P a b c d e zero h = a
below_five P a b c d e (suc zero) h = b
below_five P a b c d e (suc (suc zero)) h = c

below_seven {ℓ} : (P : ℕ → Type ℓ) → P 0 → P 1 → P 2 → P 3 → P 4 → P 5 → P 6 → (i : ℕ) → i < 7 → P i
below_seven P a b c d e f g (suc (suc i)) h =
    below_five (λ j. P (suc (suc j))) c d e f g i (omega arith)
below_seven P a b c d e f g zero h = a
below_seven P a b c d e f g (suc zero) h = b

pub all_fields {ℓ} :
    (P : ℕ → ℕ → Type ℓ)
    → P 1 0
    → P 1 1
    → P 2 0
    → P 2 1
    → P 2 2
    → P 2 3
    → P 2 4
    → P 3 0
    → P 3 1
    → P 3 2
    → P 3 3
    → P 3 4
    → P 3 5
    → P 3 6
    → (area i : ℕ) → i < field_max area
    → P area i
all_fields P a b c d e f g h i j k l m n =
    field_cases P (below_two (P 1) a b) (below_five (P 2) c d e f g)
      (below_seven (P 3) h i j k l m n)
