-- ===== src/Profile/Summary.antt =====
-- internal/pprofanalyze/aggregate.go: one sample type of a profile, its totals and node tables, and
-- internal/profilemodel/validate.go: the arithmetic that validateSummary requires of them.
use isutools.Prelude.{
  ℕ, ◌==◌, Bool, false, not, ◌&&◌, ◌||◌, List, [], ◌∷◌, Option, none, some, if◌then◌else◌,
}
use isutools.Prelude.Int.{ℤ, pos, ltb_ℤ, leb_ℤ}
use isutools.Profile.{checked_negate, checked_abs, checked_add, then_add, then_go_on}

pub data DenominatorMode : Type 0 where
  net_mode absolute_address base_total no_mode : DenominatorMode

-- The value of one sample, and the nodes that it counts for: in each granularity the flat node of
-- the sample, if it has one, and every node on its stack. A number stands for a table and a key.
pub record Sample : Type 0 where
  pub value : ℤ
  pub nodes : List ℕ

-- The tables together, with zero for a missing key as in the source's maps.
abbrev pub Table : Type 0
Table = ℕ → ℤ

abbrev pub put_node : ℕ → Table → ℤ → Table
put_node key table next k = if k == key then next else table k

abbrev pub put_sum : ℕ → Table → Option ℤ → Option Table
put_sum key table none = none
put_sum key table (some next) = some (put_node key table next)

unfoldable pub add_node : ℕ → ℤ → Table → Option Table
add_node key value table = put_sum key table (checked_add (table key) value)

abbrev pub then_nodes : Option Table → (Table → Option Table) → Option Table
then_nodes none loop = none
then_nodes (some table) loop = loop table

abbrev pub add_nodes : List ℕ → ℤ → Table → Option Table
add_nodes [] value table = some table
add_nodes (key ∷ keys) value table =
    then_nodes (add_node key value table) (λ t. add_nodes keys value t)

-- A summary's numbers; names, units, the reports made of the tables and labels are left out.
pub record Summary : Type 0 where
  pub net_total : ℤ
  pub positive_total : ℤ
  pub negative_magnitude : ℤ
  pub percent_denominator : ℤ
  pub denominator_mode : DenominatorMode

abbrev pub put_first : Option ℤ → ℤ → Option (ℤ × ℤ)
put_first none negative = none
put_first (some positive) negative = some (positive, negative)

abbrev pub put_second : ℤ → Option ℤ → Option (ℤ × ℤ)
put_second positive none = none
put_second positive (some negative) = some (positive, negative)

-- The sums of the values at least zero, and of the magnitudes of the others.
unfoldable pub add_value : ℤ → ℤ × ℤ → Option (ℤ × ℤ)
add_value value (positive, negative) =
    if leb_ℤ (pos 0) value
    then put_first (checked_add positive value) negative
    else put_second positive (then_add (checked_abs value) negative)

abbrev pub then_loop :
    Option (ℤ × ℤ)
    → Option Table
    → (ℤ × ℤ → Table → Option ((ℤ × ℤ) × Table))
    → Option ((ℤ × ℤ) × Table)
then_loop (some t) (some table) loop = loop t table
then_loop _ _ loop = none

-- The loop over the samples: the totals and the tables, or the first sum that does not fit.
abbrev pub totals_from : ℤ × ℤ → Table → List Sample → Option ((ℤ × ℤ) × Table)
totals_from t table [] = some (t, table)
totals_from t table (s ∷ samples) =
    then_loop (add_value s.value t) (add_nodes s.nodes s.value table)
      (λ t' table'. totals_from t' table' samples)

-- net_total, from the two totals.
unfoldable pub net_of : ℤ → ℤ → Option ℤ
net_of positive negative = then_go_on (checked_negate negative) (λ k. checked_add positive k)

abbrev pub denominator_of : Bool → ℤ → ℤ → Option ℤ
denominator_of delta positive negative =
    if delta then checked_add positive negative else some positive

abbrev pub mode_of : Bool → DenominatorMode
mode_of delta = if delta then absolute_address else net_mode

abbrev pub put_summary : Bool → ℤ × ℤ → Option ℤ → Option ℤ → Option Summary
put_summary delta t (some net) (some denominator) = some record {
  net_total = net;
  positive_total = t.0;
  negative_magnitude = t.1;
  percent_denominator = denominator;
  denominator_mode = mode_of delta;
}
put_summary delta t _ _ = none

abbrev pub summary_of : Bool → Option ((ℤ × ℤ) × Table) → Option Summary
summary_of delta none = none
summary_of delta (some (t, table)) =
    put_summary delta t (net_of t.0 t.1) (denominator_of delta t.0 t.1)

-- aggregate for one sample type, of a profile that is a difference or not.
unfoldable pub aggregate : Bool → List Sample → Option Summary
aggregate delta samples = summary_of delta (totals_from (pos 0, pos 0) (λ key. pos 0) samples)

abbrev pub same_int : ℤ → ℤ → Bool
same_int a b = leb_ℤ a b && leb_ℤ b a

abbrev pub is_given : ℤ → Option ℤ → Bool
is_given a none = false
is_given a (some b) = same_int b a

abbrev pub denominator_matches : DenominatorMode → Summary → Bool
denominator_matches net_mode s =
    same_int s.negative_magnitude (pos 0) && same_int s.percent_denominator s.positive_total
denominator_matches absolute_address s =
    is_given s.percent_denominator (checked_add s.positive_total s.negative_magnitude)
denominator_matches base_total s = not (same_int s.percent_denominator (pos 0))
denominator_matches no_mode s = same_int s.percent_denominator (pos 0)

-- validateSummary's conditions on the numbers, in the mode of an interval or not.
unfoldable pub numbers_are_valid : Bool → Summary → Bool
numbers_are_valid interval s =
    not (
      ltb_ℤ s.positive_total (pos 0)
      || ltb_ℤ s.negative_magnitude (pos 0)
      || ltb_ℤ s.percent_denominator (pos 0))
    && is_given s.net_total (net_of s.positive_total s.negative_magnitude)
    && denominator_matches s.denominator_mode s
    && not (interval && not (same_int s.negative_magnitude (pos 0)))
