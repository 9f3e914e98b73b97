-- ===== src/Agg/Refinement.antt =====
-- The table keeps the account of its observations: each call of ObserveResult is one step of it.
use isutools.Prelude.{
  ℕ, suc, ◌+◌, ◌%◌, ◌≤◌, max, ◌≡◌, refl, ap, sym, ◌∙◌, fun_ext, subst, inl, inr, Bool, true, false,
  ◌||◌, List, [], ◌∷◌, Option, none, some, arith, length, leb, ltb, ◌==◌, if◌then◌else◌, Bool-cases,
  Option-cases,
}
use isutools.Prelude.Int.{word_mod}
use isutools.Agg.{
  Key, Stat, Table, same_key, overflow_key, add64, new_table, bucket_for, nanoseconds, one_if,
  add_stat, row, record_at, or_blank, observe_found, observe_result,
}
use isutools.Agg.Lookup.{same_key-eq, row-put_row}
use isutools.Agg.Account.{
  Observation, Sample, Account, is_admitted, file, account_one, account_all, observe_all,
  no_account, filed_under, failures, time_of, longest, in_bucket, stat_of, row_of,
}

add64-mod : (a b : ℕ) → add64 (a % word_mod) b ≡ (b + a) % word_mod
add64-mod a b = omega arith

longest-step : (a b : ℕ) → (if ltb a b then b else a) ≡ max b a
longest-step a b = ground arith

bucket_step :
    (i j n : ℕ)
    → (if i == j then add64 (n % word_mod) 1 else n % word_mod)
      ≡ ((if i == j then 1 else 0) + n) % word_mod
bucket_step i j n = elim (Bool-cases (i == j)) [
  | inl e ↦ rw (e, add64-mod n 1) refl
  | inr e ↦ rw e (omega arith)
]

add64-count : (n : ℕ) → add64 (n % word_mod) 1 ≡ suc n % word_mod
add64-count n = omega arith

-- One more sample, as ObserveResult counts it.
pub add_stat-stat_of :
    (s : Sample) (ss : List Sample) → add_stat s.ns s.failed (stat_of ss) ≡ stat_of (s ∷ ss)
add_stat-stat_of s ss =
    rw
      (
        add64-count (length ss),
        add64-mod (failures ss) (one_if s.failed),
        add64-mod (time_of ss) s.ns,
        longest-step (longest ss) s.ns,
        fun_ext (λ i. bucket_step i (bucket_for s.ns) (in_bucket i ss)),
      )
      refl

-- The table holds what the account says, row by row.
abbrev pub Holds : Table → List Sample → Type 0
Holds t ss = (k : Key) → row k t ≡ row_of (filed_under k ss)

or_blank-row_of : (ss : List Sample) → or_blank (row_of ss) ≡ stat_of ss
or_blank-row_of [] = refl
or_blank-row_of (s ∷ ss) = refl

-- Filing a sample in the table and in the account.
record_at-Holds :
    (k : Key) (o : Observation) (t : Table) (ss : List Sample)
    → Holds t ss
    → Holds (record_at k (nanoseconds o.duration) o.failed t) (file k o ss)
record_at-Holds k o t ss h j =
    let u = add_stat (nanoseconds o.duration) o.failed (or_blank (row k t)) in
    elim (Bool-cases (same_key k j)) [
      | inl w ↦
          rw (row-put_row k j u t, w, h k, or_blank-row_of (filed_under k ss), same_key-eq k j w)
            (ap some (
              add_stat-stat_of record { filed = j; ns = nanoseconds o.duration; failed = o.failed }
                (filed_under j ss)))
      | inr w ↦ rw (row-put_row k j u t, w) (h j)
    ]

abbrev is_some : Option Stat → Bool
is_some none = false
is_some (some s) = true

-- A table and an account that agree, within the budget of keys.
record Agrees (max_keys : ℕ) (t : Table) (a : Account) : Type 0 where
  budget : t.max_keys ≡ max_keys
  counted : t.keys ≡ length a.admitted
  bounded : length a.admitted ≤ max_keys
  rows : Holds t a.samples
  known : (k : Key) → same_key k overflow_key ≡ false → is_admitted k a.admitted ≡ is_some (row k t)

new_table-Agrees : (max_keys : ℕ) → Agrees max_keys (new_table max_keys) no_account
new_table-Agrees max_keys = record {
  budget = refl;
  counted = refl;
  bounded = omega arith;
  rows = λ k. refl;
  known = λ k h. refl;
}

-- Which keys have a row after a sample is filed.
known_at :
    (k j : Key) (ns : ℕ) (failed : Bool) (t : Table)
    → is_some (row j (record_at k ns failed t)) ≡ (same_key k j || is_some (row j t))
known_at k j ns failed t =
    rw (row-put_row k j (add_stat ns failed (or_blank (row k t))) t)
      (elim (Bool-cases (same_key k j)) [ inl w ↦ rw w refl | inr w ↦ rw w refl ])

-- A key that is filed with no change of the keys let in: it has a row, or it is the overflow key.
old_key-Agrees :
    (max_keys : ℕ) (k : Key) (o : Observation) (t : Table) (a : Account)
    → Agrees max_keys t a
    → (same_key k overflow_key || is_some (row k t)) ≡ true
    → Agrees max_keys
        (record_at k (nanoseconds o.duration) o.failed t)
        (record a { samples = file k o a.samples })
old_key-Agrees max_keys k o t a h w = record {
  budget = h.budget;
  counted = h.counted;
  bounded = h.bounded;
  rows = record_at-Holds k o t a.samples h.rows;
  known = λ j n.
      rw (known_at k j (nanoseconds o.duration) o.failed t) (elim (Bool-cases (same_key k j)) [
        | inl e ↦
            let w' =
              subst (λ x. (same_key x overflow_key || is_some (row x t)) ≡ true) (same_key-eq k j e)
                w in
            rw e (h.known j n ∙ (rw n at w'))
        | inr e ↦ rw e (h.known j n)
      ]);
}

-- A new key, while the budget lasts.
new_key-Agrees :
    (max_keys : ℕ) (o : Observation) (t : Table) (a : Account)
    → Agrees max_keys t a
    → suc (length a.admitted) ≤ max_keys
    → Agrees max_keys
        (record_at o.key (nanoseconds o.duration) o.failed (record t { keys = t.keys + 1 }))
        record { admitted = o.key ∷ a.admitted; samples = file o.key o a.samples }
new_key-Agrees max_keys o t a h w =
    let t' : Table = record t { keys = t.keys + 1 } in
    record {
      budget = h.budget;
      counted = omega (arith, h.counted);
      bounded = w;
      rows = record_at-Holds o.key o t' a.samples h.rows;
      known = λ j n.
          rw (known_at o.key j (nanoseconds o.duration) o.failed t')
            (ap (λ b. same_key o.key j || b) (h.known j n));
    }

-- The account's test and the table's agree.
old-row :
    (max_keys : ℕ) (k : Key) (t : Table) (a : Account)
    → Agrees max_keys t a
    → (same_key k overflow_key || is_admitted k a.admitted)
      ≡ (same_key k overflow_key || is_some (row k t))
old-row max_keys k t a h = elim (Bool-cases (same_key k overflow_key)) [
  | inl e ↦ rw e refl
  | inr e ↦ rw e (h.known k e)
]

-- ObserveResult on a key with a row, or on the overflow key.
observe_old :
    (o : Observation) (t : Table)
    → (same_key o.key overflow_key || is_some (row o.key t)) ≡ true
    → observe_result t o.key o.duration o.failed
      ≡ record_at o.key (nanoseconds o.duration) o.failed t
unfolding observe_result
observe_old o t w = elim (Option-cases (row o.key t)) [
  | inl e ↦ elim (Bool-cases (same_key o.key overflow_key)) [
    | inl z ↦ ap (observe_found t o.key (nanoseconds o.duration) o.failed) e ∙ rw z refl
    | inr z ↦ absurd (cc (rw (e, z) at w))
  ]
  | inr (s, e) ↦ ap (observe_found t o.key (nanoseconds o.duration) o.failed) e
]

-- ObserveResult on a new key.
observe_fresh :
    (o : Observation) (t : Table)
    → (same_key o.key overflow_key || is_some (row o.key t)) ≡ false
    → observe_result t o.key o.duration o.failed ≡ (
        if leb t.max_keys t.keys
        then record_at overflow_key (nanoseconds o.duration) o.failed t
        else record_at o.key (nanoseconds o.duration) o.failed (record t { keys = t.keys + 1 }))
unfolding observe_result
observe_fresh o t w = elim (Option-cases (row o.key t)) [
  | inl e ↦ elim (Bool-cases (same_key o.key overflow_key)) [
    | inl z ↦ absurd (cc (rw z at w))
    | inr z ↦ elim (Bool-cases (leb t.max_keys t.keys)) [
      | inl f ↦ ap (observe_found t o.key (nanoseconds o.duration) o.failed) e ∙ rw (z, f) refl
      | inr f ↦ ap (observe_found t o.key (nanoseconds o.duration) o.failed) e ∙ rw (z, f) refl
    ]
  ]
  | inr (s, e) ↦ elim (Bool-cases (same_key o.key overflow_key)) [
    | inl z ↦ absurd (cc (rw z at w))
    | inr z ↦ absurd (cc (rw (e, z) at w))
  ]
]

observe_step :
    (max_keys : ℕ) (o : Observation) (t : Table) (a : Account)
    → Agrees max_keys t a
    → Agrees max_keys (observe_result t o.key o.duration o.failed) (account_one max_keys o a)
observe_step max_keys o t a h =
    let old = old-row max_keys o.key t a h in
    let same_test : leb t.max_keys t.keys ≡ leb max_keys (length a.admitted) =
      rw (h.budget, h.counted) refl in
    elim (Bool-cases (same_key o.key overflow_key || is_admitted o.key a.admitted)) [
      | inl w ↦
          rw (w, observe_old o t (sym old ∙ w))
            (old_key-Agrees max_keys o.key o t a h (sym old ∙ w))
      | inr w ↦ elim (Bool-cases (leb max_keys (length a.admitted))) [
        | inl full ↦
            rw (w, observe_fresh o t (sym old ∙ w), same_test ∙ full, full)
              (old_key-Agrees max_keys overflow_key o t a h refl)
        | inr free ↦
            rw (w, observe_fresh o t (sym old ∙ w), same_test ∙ free, free)
              (new_key-Agrees max_keys o t a h (ground (arith, free)))
      ]
    ]

observe_all-Agrees :
    (max_keys : ℕ) (os : List Observation) (t : Table) (a : Account)
    → Agrees max_keys t a
    → Agrees max_keys (observe_all t os) (account_all max_keys a os)
observe_all-Agrees max_keys [] t a h = h
observe_all-Agrees max_keys (o ∷ os) t a h =
    observe_all-Agrees max_keys os (observe_result t o.key o.duration o.failed)
      (account_one max_keys o a) (observe_step max_keys o t a h)

-- After any calls of ObserveResult on a new table, the row of every key is the statistics (count,
-- failures, sum, maximum and buckets) of exactly the observations filed under that key, and there
-- is no row where nothing was filed; the keys let in are counted, and they are never more than the
-- budget. An observation is filed under its own key if that is the overflow key, was let in before,
-- or finds a free place, and under the overflow key otherwise.
pub observe_all-account_all :
    (max_keys : ℕ) (os : List Observation)
    → let t = observe_all (new_table max_keys) os in
      let a = account_all max_keys no_account os in
      ((k : Key) → row k t ≡ row_of (filed_under k a.samples))
      × (t.keys ≡ length a.admitted)
      × (length a.admitted ≤ max_keys)
observe_all-account_all max_keys os =
    let h =
      observe_all-Agrees max_keys os (new_table max_keys) no_account (new_table-Agrees max_keys) in
    (h.rows, h.counted, h.bounded)
