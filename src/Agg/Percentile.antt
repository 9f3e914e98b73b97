-- ===== src/Agg/Percentile.antt =====
-- The approximate percentile of a snapshot, against the samples of its row.
use isutools.Prelude.{
  ℕ, zero, suc, ◌+◌, ◌-◌, ◌*◌, ◌/◌, ◌%◌, ◌^◌, ◌≤◌, ◌<◌, ◌≡◌, inl, inr, refl, sym, ap, ◌∙◌, true,
  false, ◌&&◌, List, [], ◌∷◌, arith, length, ltb, leb, ◌==◌, if◌then◌else◌, Bool-cases, All,
}
use native.Mathlib.Numerals.{unary_clauses}
use native.Mathlib.Nat.{pow-le-pow_right}
use isutools.Prelude.Int.{word_mod}
use isutools.Agg.{Stat, add64, bits_len, bucket_for, num_buckets, p95_from, p95}
use isutools.Agg.Account.{Sample, in_bucket, longest, stat_of}

-- The samples in the first buckets.
below : ℕ → List Sample → ℕ
below j [] = 0
below j (s ∷ ss) = (if ltb (bucket_for s.ns) j then 1 else 0) + below j ss

-- The samples of a duration up to a bound, and of a duration whose double is under it.
abbrev pub at_most : ℕ → List Sample → ℕ
at_most v [] = 0
at_most v (s ∷ ss) = (if leb s.ns v then 1 else 0) + at_most v ss

abbrev pub under_half : ℕ → List Sample → ℕ
under_half v [] = 0
under_half v (s ∷ ss) = (if ltb (s.ns * 2) v then 1 else 0) + under_half v ss

below_next : (j : ℕ) (ss : List Sample) → below (j + 1) ss ≡ below j ss + in_bucket j ss
unfolding below
below_next j [] = refl
below_next j (s ∷ ss) = ground (arith, below_next j ss)

below-length : (j : ℕ) (ss : List Sample) → below j ss ≤ length ss
unfolding below
below-length j [] = omega arith
below-length j (s ∷ ss) = ground (arith, below-length j ss)

below_zero : (ss : List Sample) → below 0 ss ≡ 0
unfolding below
below_zero [] = refl
below_zero (s ∷ ss) = ground (arith, below_zero ss)

bucket_bound : (n : ℕ) → bucket_for n < num_buckets
unfolding bucket_for
bucket_bound n = ground arith

below_all : (ss : List Sample) → below num_buckets ss ≡ length ss
unfolding below
below_all [] = refl
below_all (s ∷ ss) = ground (arith, below_all ss, bucket_bound s.ns)

-- bits.Len64 gives the power of two above a number.
double : (b : ℕ) → 2 ^ suc b ≡ 2 ^ b * 2
double b = simp unary_clauses (omega arith)

bits_len-suc : (fuel n : ℕ) → 0 < n → bits_len (suc fuel) n ≡ suc (bits_len fuel (n / 2))
unfolding bits_len
bits_len-suc fuel n p = let e : (n == 0) ≡ false = ground (arith, p) in rw e refl

bits_len-zero : (fuel : ℕ) → bits_len fuel 0 ≡ 0
unfolding bits_len
bits_len-zero zero = refl
bits_len-zero (suc fuel) = refl

zero_len : (n : ℕ) → bits_len 0 n ≡ 0
unfolding bits_len
zero_len n = refl

bits_len-above : (fuel n : ℕ) → n < 2 ^ fuel → n < 2 ^ bits_len fuel n
bits_len-above zero n h = rw (zero_len n) h
bits_len-above (suc fuel) n h = elim (Bool-cases (n == 0)) [
  | inl e ↦ let z : n ≡ 0 = ground (arith, e) in rw (z, bits_len-zero (suc fuel)) (omega arith)
  | inr e ↦
      let p : 0 < n = ground (arith, e) in
      rw (bits_len-suc fuel n p) (
        omega (
          arith,
          bits_len-above fuel (n / 2) (omega (arith, h, double fuel)),
          double (bits_len fuel (n / 2)),
        ))
]

bits_len-below : (fuel n : ℕ) → 0 < n → n < 2 ^ fuel → 2 ^ bits_len fuel n ≤ n * 2
bits_len-below zero n p h = absurd (omega (arith, p, h))
bits_len-below (suc fuel) n p h = elim (Bool-cases (n / 2 == 0)) [
  | inl e ↦
      let z : n / 2 ≡ 0 = ground (arith, e) in
      rw (bits_len-suc fuel n p, z, bits_len-zero fuel) (omega (arith, p))
  | inr e ↦
      let q : 0 < n / 2 = ground (arith, e) in
      rw (bits_len-suc fuel n p) (
        omega (
          arith,
          bits_len-below fuel (n / 2) q (omega (arith, h, double fuel)),
          double (bits_len fuel (n / 2)),
        ))
]

-- A nanosecond count of Go.
abbrev pub Fits : Sample → Type 0
Fits s = s.ns < 2 ^ 63

bucket-above : (n j : ℕ) → n < 2 ^ 63 → bucket_for n < j + 1 → j < 39 → n < 2 ^ j
unfolding bucket_for
bucket-above n j h b k =
    let c : bits_len 64 n ≤ j = ground (arith, b, k) in
    let r : 2 ^ bits_len 64 n ≤ 2 ^ j = pow-le-pow_right (omega arith) c in
    omega (arith, r, bits_len-above 64 n (omega (arith, h)))

bucket-below : (n j : ℕ) → n < 2 ^ 63 → n * 2 < 2 ^ j → 0 < j → bucket_for n < j
unfolding bucket_for
bucket-below zero j h w p = rw (bits_len-zero 64) (ground (arith, p))
bucket-below (suc n) j h w p = elim (Bool-cases (ltb (bits_len 64 (suc n)) j)) [
  | inl e ↦ ground (arith, e)
  | inr e ↦
      let r : 2 ^ j ≤ 2 ^ bits_len 64 (suc n) =
        pow-le-pow_right (omega arith) (ground (arith, e)) in
      absurd (omega (arith, r, w, bits_len-below 64 (suc n) (omega arith) (omega (arith, h))))
]

below-at_most :
    (j v : ℕ) (ss : List Sample)
    → ((s : Sample) → Fits s → bucket_for s.ns < j → s.ns ≤ v)
    → All Fits ss
    → below j ss ≤ at_most v ss
unfolding below
below-at_most j v [] h f = omega arith
below-at_most j v (s ∷ ss) h (f, fs) = elim (Bool-cases (ltb (bucket_for s.ns) j)) [
  | inl e ↦
      let a : leb s.ns v ≡ true = ground (arith, h s f (ground (arith, e))) in
      rw (e, a) (omega (arith, below-at_most j v ss h fs))
  | inr e ↦ rw e (omega (arith, below-at_most j v ss h fs))
]

under_half-below :
    (j : ℕ) (ss : List Sample) → 0 < j → All Fits ss → under_half (2 ^ j) ss ≤ below j ss
unfolding below
under_half-below j [] p f = omega arith
under_half-below j (s ∷ ss) p (f, fs) = elim (Bool-cases (ltb (s.ns * 2) (2 ^ j))) [
  | inl e ↦
      let a : ltb (bucket_for s.ns) j ≡ true =
        ground (arith, bucket-below s.ns j f (ground (arith, e)) p) in
      rw (e, a) (omega (arith, under_half-below j ss p fs))
  | inr e ↦ rw e (omega (arith, under_half-below j ss p fs))
]

at_most-longest : (v : ℕ) (ss : List Sample) → longest ss ≤ v → at_most v ss ≡ length ss
at_most-longest v [] h = refl
at_most-longest v (s ∷ ss) h = ground (arith, at_most-longest v ss (omega (arith, h)))

under_half-zero : (ss : List Sample) → under_half 0 ss ≡ 0
under_half-zero [] = refl
under_half-zero (s ∷ ss) = ground (arith, under_half-zero ss)

-- What the loop answers at a bucket.
answer : ℕ → Stat → ℕ
answer i s = if i == 0 then 0 else if i == num_buckets - 1 then s.max else 2 ^ i

-- The loop answers at the first bucket with which the target is reached.
p95_from-lands :
    (left i target cum : ℕ) (ss : List Sample)
    → cum ≡ below i ss
    → left + i ≡ num_buckets
    → length ss < word_mod
    → below i ss < target
    → target ≤ length ss
    → (j : ℕ) × (j < num_buckets)
      × (below j ss < target)
      × (target ≤ below (j + 1) ss)
      × (p95_from left i (stat_of ss) target cum ≡ answer j (stat_of ss))
unfolding p95_from answer
p95_from-lands zero i target cum ss y w z h k =
    let e : i ≡ num_buckets = omega (arith, w) in
    absurd (omega (arith, h, k, below_all ss, ap (λ x. below x ss) e))
p95_from-lands (suc left) i target cum ss y w z h k =
    let n = below_next i ss in
    let m = below-length (i + 1) ss in
    let c : in_bucket i ss % word_mod ≡ in_bucket i ss = omega (arith, n, m, z) in
    let d : add64 cum (in_bucket i ss) ≡ below (i + 1) ss = omega (arith, n, m, z, y) in
    elim (Bool-cases (ltb 0 (in_bucket i ss) && leb target (below (i + 1) ss))) [
      | inl e ↦ (i, omega (arith, w), h, ground (arith, e), rw (c, d, e) refl)
      | inr e ↦
          let (j, a, b, q, r) =
            p95_from-lands left (i + 1) target (below (i + 1) ss) ss refl (omega (arith, w)) z
              (ground (arith, e, n, h)) k in
          (j, a, b, q, rw (c, d, e) r)
    ]

answer-at_most :
    (j : ℕ) (ss : List Sample)
    → All Fits ss
    → j < num_buckets
    → below (j + 1) ss ≤ at_most (answer j (stat_of ss)) ss
unfolding answer
answer-at_most j ss f h = elim (Bool-cases (j == 0)) [
  | inl e ↦ rw e (
      below-at_most (j + 1) 0 ss
        (λ s g b. omega (arith, bucket-above s.ns 0 g (ground (arith, e, b)) (omega arith))) f)
  | inr e ↦ elim (Bool-cases (j == num_buckets - 1)) [
    | inl l ↦ rw (e, l, at_most-longest (longest ss) ss (omega arith)) (below-length (j + 1) ss)
    | inr l ↦
        rw (e, l)
          (below-at_most (j + 1) (2 ^ j) ss
            (λ s g b. omega (arith, bucket-above s.ns j g b (ground (arith, h, l)))) f)
  ]
]

-- The 95th percentile's place among the samples.
target_of : List Sample → ℕ
target_of ss = (length ss * 95 + 99) / 100

p95-count :
    (s : Stat) (n : ℕ) → s.count ≡ n → p95 s ≡ p95_from num_buckets 0 s ((n * 95 + 99) / 100) 0
unfolding p95
p95-count s n e = ap (λ c. p95_from num_buckets 0 s ((c * 95 + 99) / 100) 0) e

p95-lands :
    (ss : List Sample)
    → 0 < length ss
    → length ss < 2 ^ 56
    → (j : ℕ) × (j < num_buckets)
      × (below j ss < target_of ss)
      × (target_of ss ≤ below (j + 1) ss)
      × (p95 (stat_of ss) ≡ answer j (stat_of ss))
unfolding target_of
p95-lands ss p h =
    let z = below_zero ss in
    let (j, a, b, q, r) =
      p95_from-lands num_buckets 0 (target_of ss) 0 ss (sym z) refl (omega (arith, h))
        (omega (arith, z, p)) (omega (arith, p)) in
    (j, a, b, q, p95-count (stat_of ss) (length ss) (omega (arith, h)) ∙ r)

-- The p95 of a row, of at least one and fewer than 2^56 observations of at most 2^63 - 1
-- nanoseconds, is an upper bound for at least 95 per cent of them.
pub p95-at_most :
    (ss : List Sample)
    → 0 < length ss
    → length ss < 2 ^ 56
    → All Fits ss
    → length ss * 95 ≤ at_most (p95 (stat_of ss)) ss * 100
unfolding target_of
p95-at_most ss p h f =
    let (j, a, b, q, r) = p95-lands ss p h in rw r (omega (arith, q, answer-at_most j ss f a))

-- Under 2^38 nanoseconds, the last bucket is empty.
abbrev pub Short : Sample → Type 0
Short s = s.ns < 2 ^ 38

bucket-Short : (n : ℕ) → n < 2 ^ 38 → bucket_for n < 39
unfolding bucket_for
bucket-Short zero h = rw (bits_len-zero 64) (omega arith)
bucket-Short (suc n) h = elim (Bool-cases (ltb (bits_len 64 (suc n)) 39)) [
  | inl e ↦ ground (arith, e)
  | inr e ↦
      let r : 2 ^ 39 ≤ 2 ^ bits_len 64 (suc n) =
        pow-le-pow_right (omega arith) {i = 39} (ground (arith, e)) in
      absurd (omega (arith, r, bits_len-below 64 (suc n) (omega arith) (omega (arith, h))))
]

below-Short : (ss : List Sample) → All Short ss → below 39 ss ≡ length ss
unfolding below
below-Short [] f = refl
below-Short (s ∷ ss) (f, fs) = ground (arith, bucket-Short s.ns f, below-Short ss fs)

Short-Fits : (ss : List Sample) → All Short ss → All Fits ss
Short-Fits [] f = f
Short-Fits (s ∷ ss) (f, fs) = (omega (arith, f), Short-Fits ss fs)

under_half-answer :
    (j : ℕ) (ss : List Sample)
    → All Fits ss
    → j < 39
    → under_half (answer j (stat_of ss)) ss ≤ below j ss
unfolding answer
under_half-answer j ss f h = elim (Bool-cases (j == 0)) [
  | inl e ↦ rw (e, under_half-zero ss) (omega arith)
  | inr e ↦
      let l : (j == num_buckets - 1) ≡ false = ground (arith, h) in
      rw (e, l) (under_half-below j ss (ground (arith, e)) f)
]

-- The p95 of a row, of at least one and fewer than 2^56 observations under 2^38 nanoseconds, is not
-- more than a factor of two too high: less than 95 per cent of the observations are under half of
-- it.
pub p95-under_half :
    (ss : List Sample)
    → 0 < length ss
    → length ss < 2 ^ 56
    → All Short ss
    → under_half (p95 (stat_of ss)) ss * 100 < length ss * 95
unfolding target_of
p95-under_half ss p h f =
    let (j, a, b, q, r) = p95-lands ss p h in
    let w = below-Short ss f in
    let k : j < 39 = elim (Bool-cases (j == 39)) [
      | inl e ↦
          let c : below j ss ≡ below 39 ss = ap (λ x. below x ss) (ground (arith, e)) in
          absurd (omega (arith, b, c, w, p))
      | inr e ↦ ground (arith, a, e)
    ] in
    rw r (omega (arith, b, under_half-answer j ss (Short-Fits ss f) k))
