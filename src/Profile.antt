-- ===== src/Profile.antt =====
-- internal/profilemodel/checked.go: arithmetic that says whether it fits. An int64 is an integer of
-- the range, and its operators wrap; where the source returns false the result is none.
pub mod Budget
pub mod Summary
pub mod Totals
mod Examples
use isutools.Prelude.{
  ℕ, ◌+◌, ◌-◌, ◌*◌, ◌/◌, ◌%◌, Bool, ◌&&◌, ◌||◌, List, [], ◌∷◌, Option, none, some, ltb, leb, ◌==◌,
  if◌then◌else◌,
}
use isutools.Prelude.Int.{ℤ, pos, negsuc, ltb_ℤ, leb_ℤ, to_word, of_word, word_mod, sign_bit, ◌+ℤ◌}

abbrev pub max_int64 : ℤ
max_int64 = pos (sign_bit - 1)

abbrev pub min_int64 : ℤ
min_int64 = negsuc (sign_bit - 1)

abbrev pub max_uint64 : ℕ
max_uint64 = word_mod - 1

-- int64 subtraction.
abbrev pub sub_int64 : ℤ → ℤ → ℤ
sub_int64 a b = of_word ((to_word a + (word_mod - to_word b)) % word_mod)

abbrev pub is_min : ℤ → Bool
is_min v = leb_ℤ v min_int64 && leb_ℤ min_int64 v

unfoldable pub checked_negate : ℤ → Option ℤ
checked_negate v = if is_min v then none else some (sub_int64 (pos 0) v)

unfoldable pub checked_abs : ℤ → Option ℤ
checked_abs v = if leb_ℤ (pos 0) v then some v else checked_negate v

unfoldable pub checked_add : ℤ → ℤ → Option ℤ
checked_add a b =
    if ltb_ℤ (pos 0) b && ltb_ℤ (sub_int64 max_int64 b) a
    then none
    else if ltb_ℤ b (pos 0) && ltb_ℤ a (sub_int64 min_int64 b)
    then none
    else some (a +ℤ b)

unfoldable pub checked_add_uint64 : ℕ → ℕ → Option ℕ
checked_add_uint64 a b = if ltb (max_uint64 - b) a then none else some ((a + b) % word_mod)

unfoldable pub checked_mul_uint64 : ℕ → ℕ → Option ℕ
checked_mul_uint64 a b =
    if a == 0 || b == 0
    then some 0
    else if ltb (max_uint64 / b) a
    then none
    else some (a * b % word_mod)

abbrev pub then_add : Option ℤ → ℤ → Option ℤ
then_add none total = none
then_add (some magnitude) total = checked_add total magnitude

abbrev pub then_go_on : Option ℤ → (ℤ → Option ℤ) → Option ℤ
then_go_on none loop = none
then_go_on (some total) loop = loop total

abbrev pub budget_from : ℤ → List ℤ → Option ℤ
budget_from total [] = some total
budget_from total (value ∷ values) =
    then_go_on (then_add (checked_abs value) total) (λ t. budget_from t values)

unfoldable pub absolute_budget : List ℤ → Option ℤ
absolute_budget values = budget_from (pos 0) values
