-- ===== src/Requestwork/Ticks.antt =====
-- How many nanoseconds of a span have a property: what the sums of Close are measured against.
use isutools.Prelude.{
  ℕ, zero, suc, ◌+◌, ◌≤◌, ◌<◌, ◌≡◌, refl, Bool, true, false, not, ◌&&◌, arith, if◌then◌else◌,
}

-- Of the n nanoseconds from `start` on, those with the property.
unfoldable pub ticks : (ℕ → Bool) → ℕ → ℕ → ℕ
ticks p start zero = 0
ticks p start (suc n) = (if p start then 1 else 0) + ticks p (start + 1) n

pub ticks_split :
    (p : ℕ → Bool) (start mid m n total : ℕ)
    → mid ≡ start + m
    → total ≡ m + n
    → ticks p start total ≡ ticks p start m + ticks p mid n
unfolding ticks
ticks_split p start mid zero n total h k =
    let a : mid ≡ start = omega arith in let b : total ≡ n = omega arith in rw (a, b) (omega arith)
ticks_split p start mid (suc m) n total h k =
    let b : total ≡ suc (m + n) = omega arith in
    rw b (omega (arith, ticks_split p (start + 1) mid m n (m + n) (omega arith) refl))

-- Two properties that agree on the span.
pub ticks_agree :
    (p q : ℕ → Bool) (start n : ℕ)
    → ((t : ℕ) → start ≤ t → t < start + n → p t ≡ q t)
    → ticks p start n ≡ ticks q start n
unfolding ticks
ticks_agree p q start zero h = refl
ticks_agree p q start (suc n) h =
    let ih = ticks_agree p q (start + 1) n (λ t a b. h t (omega arith) (omega arith)) in
    rw (h start (omega arith) (omega arith), ih) refl

pub ticks_constant : (b : Bool) (start n : ℕ) → ticks (λ t. b) start n ≡ (if b then n else 0)
unfolding ticks
ticks_constant b start zero = ground arith
ticks_constant true start (suc n) = omega (arith, ticks_constant true (start + 1) n)
ticks_constant false start (suc n) = omega (arith, ticks_constant false (start + 1) n)

-- Every nanosecond is in exactly one of the four classes of two properties.
pub ticks_partition :
    (p q : ℕ → Bool) (start n : ℕ)
    → ticks (λ t. p t && q t) start n
        + ticks (λ t. p t && not (q t)) start n
        + ticks (λ t. not (p t) && q t) start n
        + ticks (λ t. not (p t) && not (q t)) start n
      ≡ n
unfolding ticks
ticks_partition p q start zero = omega arith
ticks_partition p q start (suc n) = ground (arith, ticks_partition p q (start + 1) n)
