-- ===== src/Profile/Totals.antt =====
-- Totals and tables: a profile whose budget is accepted is summed up without a failure, and its numbers hold.
use isutools.Prelude.{
  ℕ, zero, suc, ◌+◌, ◌-◌, ◌<◌, ◌≡◌, refl, ap, sym, ◌∙◌, inl, inr, Bool, true, not, false, ◌||◌,
  List, [], ◌∷◌, Option, some, arith, ltb, leb, ◌==◌, if◌then◌else◌, Bool-cases, All, map, ◌≤◌,
}
use isutools.Prelude.Int.{ℤ, pos, negsuc, pos_part, neg_part, sign_bit, ◌+ℤ◌}
use isutools.Profile.{checked_negate, checked_abs, checked_add, absolute_budget}
use isutools.Profile.Budget.{
  InRange, magnitude, checked_add-fits, total_magnitude, above, below, absolute_budget-sums,
}
use isutools.Profile.Summary.{
  Sample, Table, put_node, add_node, add_nodes, Summary, add_value, totals_from, net_of, mode_of,
  summary_of, aggregate, numbers_are_valid, same_int,
}

checked_add_pos_pos :
    (m n : ℕ) → m + n < sign_bit → checked_add (pos m) (pos n) ≡ some (pos (m + n))
unfolding checked_add ◌+ℤ◌
checked_add_pos_pos m n h = ground (arith, h)

checked_abs_negsuc : (m : ℕ) → suc m < sign_bit → checked_abs (negsuc m) ≡ some (pos (suc m))
unfolding checked_abs checked_negate
checked_abs_negsuc m h = ground (arith, h)

abbrev difference : ℕ → ℕ → ℤ
difference p n = if ltb p n then negsuc (n - suc p) else pos (p - n)

checked_add-difference :
    (p n : ℕ) → p + suc n < sign_bit → checked_add (pos p) (negsuc n) ≡ some (difference p (suc n))
unfolding checked_add ◌+ℤ◌
checked_add-difference p n h = elim (Bool-cases (ltb p (suc n))) [
  | inl k ↦ rw k (ground (arith, h, k))
  | inr k ↦ rw k (ground (arith, h, k))
]

checked_negate_pos : (n : ℕ) → suc n < sign_bit → checked_negate (pos (suc n)) ≡ some (negsuc n)
unfolding checked_negate
checked_negate_pos n h = ground (arith, h)

checked_negate_zero : checked_negate (pos 0) ≡ some (pos 0)
unfolding checked_negate
checked_negate_zero = refl

net_of-difference : (p n : ℕ) → p + n < sign_bit → net_of (pos p) (pos n) ≡ some (difference p n)
unfolding net_of
net_of-difference p zero h = rw checked_negate_zero (checked_add_pos_pos p 0 h ∙ ground (arith))
net_of-difference p (suc n) h =
    rw (checked_negate_pos n (omega (arith, h))) (checked_add-difference p n h)

add_value_pos :
    (p n m : ℕ) → p + m < sign_bit → add_value (pos m) (pos p, pos n) ≡ some (pos (p + m), pos n)
unfolding add_value
add_value_pos p n m h =
    let k : leb 0 (m + 0) ≡ true = ground arith in rw (k, checked_add_pos_pos p m h) refl

add_value_negsuc :
    (p n m : ℕ)
    → n + suc m < sign_bit
    → add_value (negsuc m) (pos p, pos n) ≡ some (pos p, pos (n + suc m))
unfolding add_value
add_value_negsuc p n m h =
    let k : leb (0 + suc m) 0 ≡ false = ground arith in
    rw (k, checked_abs_negsuc m (omega (arith, h)), checked_add_pos_pos n (suc m) h) refl

pair_sums : {a b c d : ℕ} → a ≡ b → c ≡ d → ◌≡◌ {A = ℤ × ℤ} (pos a, pos c) (pos b, pos d)
pair_sums e f = cc (e, f)

two_sums :
    {a b c d : ℕ}
    → a ≡ b
    → c ≡ d
    → ◌≡◌ {A = Option (ℤ × ℤ)} (some (pos a, pos c)) (some (pos b, pos d))
two_sums e f = cc (e, f)

-- Every sum of the tables is at most so large.
abbrev Within : ℕ → Table → Type 0
Within n table = (k : ℕ) → magnitude (table k) ≤ n

-- A sample's value goes into a table's key once.
abbrev pub Distinct : List ℕ → Type 0
Distinct [] = Unit
Distinct (k ∷ ks) = All (λ j. (j == k) ≡ false) ks × Distinct ks

abbrev pub values_of : List Sample → List ℤ
values_of samples = map (λ s. s.value) samples

add_node-Within :
    (n : ℕ) (v : ℤ) (key : ℕ) (table : Table)
    → n + magnitude v < sign_bit
    → Within (n + magnitude v) table
    → magnitude (table key) ≤ n
    → (next : ℤ) × (add_node key v table ≡ some (put_node key table next))
      × Within (n + magnitude v) (put_node key table next)
unfolding add_node
add_node-Within n v key table fits within low =
    let (next, e, _, m) = checked_add-fits (table key) v (omega (arith, low, fits)) in
    (
      next,
      rw e refl,
      λ k. elim (Bool-cases (k == key)) [
        | inl f ↦ rw f (omega (arith, m, low))
        | inr f ↦ rw f (within k)
      ],
    )

still_low :
    (n : ℕ) (key : ℕ) (table : Table) (next : ℤ) (ks : List ℕ)
    → All (λ j. (j == key) ≡ false) ks
    → All (λ j. magnitude (table j) ≤ n) ks
    → All (λ j. magnitude (put_node key table next j) ≤ n) ks
still_low n key table next [] a l = tt
still_low n key table next (k ∷ ks) (e, a) (m, l) = (rw e m, still_low n key table next ks a l)

add_nodes-Within :
    (n : ℕ) (v : ℤ) (keys : List ℕ) (table : Table)
    → n + magnitude v < sign_bit
    → Distinct keys
    → Within (n + magnitude v) table
    → All (λ k. magnitude (table k) ≤ n) keys
    → (t : Table) × (add_nodes keys v table ≡ some t) × Within (n + magnitude v) t
add_nodes-Within n v [] table fits d within low = (table, refl, within)
add_nodes-Within n v (key ∷ keys) table fits (a, d) within (m, low) =
    let (next, e, w) = add_node-Within n v key table fits within m in
    let (t, f, w') =
      add_nodes-Within n v keys (put_node key table next) fits d w
        (still_low n key table next keys a low) in
    (t, rw e f, w')

low_everywhere :
    (n : ℕ) (table : Table) (ks : List ℕ) → Within n table → All (λ k. magnitude (table k) ≤ n) ks
low_everywhere n table [] w = tt
low_everywhere n table (k ∷ ks) w = (w k, low_everywhere n table ks w)

-- One sample's nodes, from tables that hold what the samples before it add up to at most.
nodes_fit :
    (n : ℕ) (s : Sample) (table : Table)
    → n + magnitude s.value < sign_bit
    → Distinct s.nodes
    → Within n table
    → (t : Table) × (add_nodes s.nodes s.value table ≡ some t) × Within (n + magnitude s.value) t
nodes_fit n s table fits d w =
    add_nodes-Within n s.value s.nodes table fits d (λ k. omega (arith, w k))
      (low_everywhere n table s.nodes w)

value_fits :
    (p n : ℕ) (v : ℤ)
    → p + n + magnitude v < sign_bit
    → add_value v (pos p, pos n) ≡ some (pos (p + pos_part v), pos (n + neg_part v))
value_fits p n (pos m) h = add_value_pos p n m (omega (arith, h)) ∙ two_sums refl (omega arith)
value_fits p n (negsuc m) h =
    add_value_negsuc p n m (omega (arith, h)) ∙ two_sums (omega arith) refl

totals_from-sums :
    (p n : ℕ) (table : Table) (ss : List Sample)
    → p + n + total_magnitude (values_of ss) < sign_bit
    → All (λ s. Distinct s.nodes) ss
    → Within (p + n) table
    → (t : Table) × (totals_from (pos p, pos n) table ss
        ≡ some ((pos (p + above (values_of ss)), pos (n + below (values_of ss))), t))
totals_from-sums p n table [] h d w =
    (table, ap (λ x. some (x, table)) (pair_sums (omega arith) (omega arith)))
totals_from-sums p n table (s ∷ ss) h (d, ds) w =
    let v = s.value in
    let (t, e, w') = nodes_fit (p + n) s table (omega (arith, h)) d w in
    let (t', f) =
      totals_from-sums (p + pos_part v) (n + neg_part v) t ss (omega (arith, h)) ds
        (λ k. omega (arith, w' k)) in
    (
      t',
      rw (value_fits p n v (omega (arith, h)), e)
          (f ∙ ap (λ x. some (x, t')) (pair_sums (omega arith) (omega arith))),
    )

above-below : (vs : List ℤ) → above vs + below vs ≡ total_magnitude vs
above-below [] = omega arith
above-below (v ∷ vs) = omega (arith, above-below vs)

-- The summary of values that add up to these totals.
abbrev pub sums : Bool → ℕ → ℕ → Summary
sums delta p n = record {
  net_total = difference p n;
  positive_total = pos p;
  negative_magnitude = pos n;
  percent_denominator = if delta then pos (p + n) else pos p;
  denominator_mode = mode_of delta;
}

summary_of-sums :
    (delta : Bool) (p n : ℕ) (table : Table)
    → p + n < sign_bit
    → summary_of delta (some ((pos p, pos n), table)) ≡ some (sums delta p n)
summary_of-sums true p n table h = rw (net_of-difference p n h, checked_add_pos_pos p n h) refl
summary_of-sums false p n table h = rw (net_of-difference p n h) refl

same_int_refl : (a : ℤ) → same_int a a ≡ true
same_int_refl (pos n) = ground arith
same_int_refl (negsuc n) = ground arith

sums-numbers :
    (delta : Bool) (p n : ℕ)
    → p + n < sign_bit
    → numbers_are_valid (not delta) (sums delta p n) ≡ (delta || n == 0)
unfolding numbers_are_valid
sums-numbers true p n h =
    rw (net_of-difference p n h, checked_add_pos_pos p n h, same_int_refl (difference p n))
      (ground arith)
sums-numbers false p n h =
    rw (net_of-difference p n h, same_int_refl (difference p n)) (ground arith)

-- Where AbsoluteBudget accepts the values of a sample type, and a sample counts once at most for a
-- key of a table, aggregate fails nowhere: not in the totals, not in a node of the tables, not in
-- the net total or the denominator. The totals are the exact sums of the parts above and below
-- zero, the net total is their difference, and the denominator is the whole budget for a difference
-- of profiles, and the positive total otherwise. The summary passes the arithmetic that
-- validateSummary requires of a difference always, and of an interval exactly where no value is
-- below zero.
pub aggregate-validates :
    (delta : Bool) (ss : List Sample) (b : ℤ)
    → All InRange (values_of ss)
    → All (λ s. Distinct s.nodes) ss
    → absolute_budget (values_of ss) ≡ some b
    → let vs = values_of ss in
      (aggregate delta ss ≡ some (sums delta (above vs) (below vs)))
      × (b ≡ pos (above vs + below vs))
      × (numbers_are_valid (not delta) (sums delta (above vs) (below vs))
          ≡ (delta || below vs == 0))
unfolding aggregate
aggregate-validates delta ss b r d h = elim (absolute_budget-sums (values_of ss) r) [
  | inr (e, k) ↦ absurd (cc (e, h))
  | inl (e, k, picked) ↦
      let vs = values_of ss in
      let q = above-below vs in
      let fits : above vs + below vs < sign_bit = omega (arith, q, k) in
      let (t, s) = totals_from-sums 0 0 (λ key. pos 0) ss (omega (arith, k)) d (λ k. omega arith) in
      let f : some b ≡ some (pos (total_magnitude vs)) = sym h ∙ e in
      let g : b ≡ pos (total_magnitude vs) = cc (f) in
      (
        rw
            (s
              ∙ ap (λ x. some (x, t))
                  (pair_sums {b = above vs} {d = below vs} (omega arith) (omega arith)))
            (summary_of-sums delta (above vs) (below vs) t fits),
        g ∙ ap pos (sym q),
        sums-numbers delta (above vs) (below vs) fits,
      )
]
