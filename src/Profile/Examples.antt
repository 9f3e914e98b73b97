-- ===== src/Profile/Examples.antt =====
-- A budget of three values.
use isutools.Prelude.{
  ◌+◌, ◌≡◌, ◌≤◌, ◌<◌, ◌⊎◌, refl, Bool, true, not, ◌||◌, ◌==◌, List, All, [], ◌∷◌, none, some, arith,
}
use isutools.Prelude.Int.{ℤ, pos, negsuc, pos_part, neg_part, sign_bit, ◌+ℤ◌}
use isutools.Profile.{absolute_budget, checked_abs, checked_negate, checked_add}
use isutools.Profile.Summary.{Sample, aggregate, numbers_are_valid}
use isutools.Profile.Totals.{Distinct, sums, aggregate-validates}
use isutools.Profile.Budget.{total_magnitude, sum_from, pick, above, below, absolute_budget-sums}

abbrev values : List ℤ
values = pos 40 ∷ negsuc 90 ∷ pos 7 ∷ []

absolute_budget-sums_example :
    ((absolute_budget values ≡ some (pos (total_magnitude values)))
      × (total_magnitude values < sign_bit)
      × ((bs : List Bool)
          → (c : ℤ) × (sum_from (pos 0) (pick bs values) ≡ some c)
            × (pos_part c + below (pick bs values) ≡ neg_part c + above (pick bs values))))
    ⊎ ((absolute_budget values ≡ none) × (sign_bit ≤ total_magnitude values))
absolute_budget-sums_example =
    absolute_budget-sums values (omega arith, (omega arith, (omega arith, tt)))

values-budget : absolute_budget values ≡ some (pos 138)
unfolding absolute_budget checked_abs checked_negate checked_add ◌+ℤ◌
values-budget = refl

-- Three samples, which share a node of one table.
abbrev samples : List Sample
samples =
    record { value = pos 40; nodes = 0 ∷ 1 ∷ 2 ∷ [] }
    ∷ record { value = negsuc 90; nodes = 1 ∷ 3 ∷ [] }
    ∷ record { value = pos 7; nodes = 1 ∷ [] }
    ∷ []

samples-Distinct : All (λ s. Distinct s.nodes) samples
samples-Distinct =
    (((refl, (refl, tt)), ((refl, tt), (tt, tt))), (((refl, tt), (tt, tt)), ((tt, tt), tt)))

aggregate-validates_example :
    (aggregate true samples ≡ some (sums true (above values) (below values)))
    × (pos 138 ≡ pos (above values + below values))
    × (numbers_are_valid (not true) (sums true (above values) (below values))
        ≡ (true || below values == 0))
aggregate-validates_example =
    aggregate-validates true samples (pos 138) (omega arith, (omega arith, (omega arith, tt)))
      samples-Distinct values-budget
