-- ===== src/Profile/Budget.antt =====
-- Budgets: where the magnitudes fit together, every sum of some of the values fits.
use isutools.Prelude.{
  ℕ, suc, ◌+◌, ◌-◌, ◌≤◌, ◌<◌, ◌≡◌, refl, ap, ◌∙◌, ◌⊎◌, inl, inr, Bool, true, false, List, [], ◌∷◌,
  Option, none, some, arith, ltb, if◌then◌else◌, Bool-cases, Option-cases, All,
}
use isutools.Prelude.Int.{ℤ, pos, negsuc, pos_part, neg_part, sign_bit, ◌+ℤ◌}
use isutools.Profile.{
  checked_negate, checked_abs, checked_add, then_go_on, budget_from, absolute_budget,
}

-- The range of an int64.
abbrev pub InRange : ℤ → Type 0
InRange (pos n) = n < sign_bit
InRange (negsuc n) = n < sign_bit

abbrev pub magnitude : ℤ → ℕ
magnitude a = pos_part a + neg_part a

checked_abs-magnitude :
    (v m : ℤ)
    → InRange v
    → checked_abs v ≡ some m
    → (m ≡ pos (magnitude v)) × (magnitude v < sign_bit)
unfolding checked_abs checked_negate
checked_abs-magnitude (pos n) m r h = ground (arith, r, h)
checked_abs-magnitude (negsuc n) m r h = ground (arith, r, h)

-- Where the magnitudes fit together, the sum is exact.
pub checked_add-fits :
    (a b : ℤ)
    → magnitude a + magnitude b < sign_bit
    → (c : ℤ) × (checked_add a b ≡ some c)
      × (pos_part c + neg_part a + neg_part b ≡ neg_part c + pos_part a + pos_part b)
      × (magnitude c ≤ magnitude a + magnitude b)
unfolding checked_add ◌+ℤ◌
checked_add-fits (pos m) (pos n) h = (pos (m + n), ground (arith, h), omega arith, omega arith)
checked_add-fits (pos m) (negsuc n) h = elim (Bool-cases (ltb n m)) [
  | inl k ↦ (pos (m - suc n), ground (arith, h, k), ground (arith, k), ground (arith, k))
  | inr k ↦ (negsuc (n - m), ground (arith, h, k), ground (arith, k), ground (arith, k))
]
checked_add-fits (negsuc m) (pos n) h = elim (Bool-cases (ltb m n)) [
  | inl k ↦ (pos (n - suc m), ground (arith, h, k), ground (arith, k), ground (arith, k))
  | inr k ↦ (negsuc (m - n), ground (arith, h, k), ground (arith, k), ground (arith, k))
]
checked_add-fits (negsuc m) (negsuc n) h =
    (negsuc (suc (m + n)), ground (arith, h), omega arith, omega arith)

-- A sum of two magnitudes that is given is exact and fits.
checked_add-pos :
    (m n : ℕ) (t : ℤ)
    → m < sign_bit
    → n < sign_bit
    → checked_add (pos m) (pos n) ≡ some t
    → (t ≡ pos (m + n)) × (m + n < sign_bit)
unfolding checked_add ◌+ℤ◌
checked_add-pos m n t h k e = ground (arith, h, k, e)

abbrev pub total_magnitude : List ℤ → ℕ
total_magnitude [] = 0
total_magnitude (v ∷ vs) = magnitude v + total_magnitude vs

checked_abs-none : (v : ℤ) → InRange v → checked_abs v ≡ none → sign_bit ≤ magnitude v
unfolding checked_abs checked_negate
checked_abs-none (pos n) r h = ground (arith, r, h)
checked_abs-none (negsuc n) r h = ground (arith, r, h)

checked_add-none :
    (m n : ℕ) → checked_add (pos m) (pos n) ≡ none → m < sign_bit → n < sign_bit → sign_bit ≤ m + n
unfolding checked_add
checked_add-none m n e h k = ground (arith, h, k, e)

-- The total that the loop gives, or the failure that it finds.
abbrev Ends : ℕ → ℕ → Option ℤ → Type 0
Ends n total o =
    ((o ≡ some (pos (n + total))) × (n + total < sign_bit)) ⊎ ((o ≡ none) × (sign_bit ≤ n + total))

carry_total : (n m total : ℕ) (o : Option ℤ) → Ends (n + m) total o → Ends n (m + total) o
carry_total n m total o (inl (e, h)) =
    inl (e ∙ ap (λ i. some (pos i)) (omega arith), omega (arith, h))
carry_total n m total o (inr (e, h)) = inr (e, omega (arith, h))

budget_from-Ends :
    (n : ℕ) (vs : List ℤ)
    → n < sign_bit
    → All InRange vs
    → Ends n (total_magnitude vs) (budget_from (pos n) vs)
budget_from-Ends n [] k r = inl (ap (λ i. some (pos i)) (omega arith), omega (arith, k))
budget_from-Ends n (v ∷ vs) k r = elim (Option-cases (checked_abs v)) [
  | inl e ↦ let q = checked_abs-none v r.0 e in rw e (inr (refl, omega (arith, q)))
  | inr (m, e) ↦
      let (p, q) = checked_abs-magnitude v m r.0 e in
      elim (Option-cases (checked_add (pos n) m)) [
        | inl f ↦
            let z = checked_add-none n (magnitude v) (rw p at f) k q in
            rw (e, f) (inr (refl, omega (arith, z)))
        | inr (u, f) ↦
            let (x, y) = checked_add-pos n (magnitude v) u k q (rw p at f) in
            rw (e, f, x)
              (carry_total n (magnitude v) (total_magnitude vs) _
                (budget_from-Ends (n + magnitude v) vs y r.1))
      ]
]

-- Some of the values, by a mark for each.
abbrev pub pick : List Bool → List ℤ → List ℤ
pick [] vs = []
pick (b ∷ bs) [] = []
pick (b ∷ bs) (v ∷ vs) = if b then v ∷ pick bs vs else pick bs vs

-- The checked sum of a list.
abbrev pub sum_from : ℤ → List ℤ → Option ℤ
sum_from total [] = some total
sum_from total (v ∷ vs) = then_go_on (checked_add total v) (λ t. sum_from t vs)

-- The sums of the parts above and below zero.
abbrev pub above : List ℤ → ℕ
above [] = 0
above (v ∷ vs) = pos_part v + above vs

abbrev pub below : List ℤ → ℕ
below [] = 0
below (v ∷ vs) = neg_part v + below vs

total_magnitude-pick :
    (bs : List Bool) (vs : List ℤ) → total_magnitude (pick bs vs) ≤ total_magnitude vs
total_magnitude-pick [] vs = omega arith
total_magnitude-pick (b ∷ bs) [] = omega arith
total_magnitude-pick (true ∷ bs) (v ∷ vs) = omega (arith, total_magnitude-pick bs vs)
total_magnitude-pick (false ∷ bs) (v ∷ vs) = omega (arith, total_magnitude-pick bs vs)

sum_from-exact :
    (a : ℤ) (vs : List ℤ)
    → magnitude a + total_magnitude vs < sign_bit
    → (c : ℤ) × (sum_from a vs ≡ some c)
      × (pos_part c + neg_part a + below vs ≡ neg_part c + pos_part a + above vs)
sum_from-exact a [] h = (a, refl, omega arith)
sum_from-exact a (v ∷ vs) h =
    let (b, e, s, m) = checked_add-fits a v (omega (arith, h)) in
    let (c, f, t) = sum_from-exact b vs (omega (arith, h, m)) in (c, rw e f, omega (arith, s, t))

-- AbsoluteBudget gives the sum of the magnitudes where that is below 2^63, and fails exactly where
-- it is not. Where it gives the sum, any of the values, in their order, can be added up with
-- CheckedAdd without a failure, to their exact sum.
pub absolute_budget-sums :
    (vs : List ℤ)
    → All InRange vs
    → ((absolute_budget vs ≡ some (pos (total_magnitude vs)))
        × (total_magnitude vs < sign_bit)
        × ((bs : List Bool)
            → (c : ℤ) × (sum_from (pos 0) (pick bs vs) ≡ some c)
              × (pos_part c + below (pick bs vs) ≡ neg_part c + above (pick bs vs))))
      ⊎ ((absolute_budget vs ≡ none) × (sign_bit ≤ total_magnitude vs))
unfolding absolute_budget
absolute_budget-sums vs r = elim (budget_from-Ends 0 vs (omega arith) r) [
  | inl (e, h) ↦ inl (
    e ∙ ap (λ i. some (pos i)) (omega arith),
    omega (arith, h),
    λ bs.
        let n = total_magnitude-pick bs vs in
        let (c, f, s) = sum_from-exact (pos 0) (pick bs vs) (omega (arith, n, h)) in
        (c, f, omega (arith, s)),
  )
  | inr (e, h) ↦ inr (e, omega (arith, h))
]
