-- ===== src/Counters/Conservation.antt =====
-- Counts and rotations of one registry: nothing is lost at a rotation, and a table stays small.
use isutools.Prelude.{
  ℕ, suc, ◌+◌, ◌%◌, ◌≤◌, ◌≡◌, refl, inl, inr, true, List, [], ◌∷◌, arith, length, if◌then◌else◌,
  Bool-cases, All,
}
use isutools.Prelude.Int.{ℤ, to_word, word_mod}
use isutools.Counters.{
  Name, Counts, Registry, add, add_count, overflows, exists, same_name, overflow_name,
  default_max_names, new_registry, rotate,
}

-- What callers do with a registry, in the order of its lock.
pub data RegistryUse : Type 0 where
  adds : Name → ℤ → RegistryUse
  rotates : RegistryUse

-- The registry after some uses, with the tables rotated out, the last one first.
abbrev pub use_registry :
    (Name → Name) → List RegistryUse → Registry → List Counts → Registry × List Counts
use_registry trim [] r out = (r, out)
use_registry trim (adds n d ∷ us) r out = use_registry trim us (add trim r n d) out
use_registry trim (rotates ∷ us) r out =
    let (r', counts, dropped) = rotate r in use_registry trim us r' (counts ∷ out)

abbrev pub total : Counts → ℕ
total [] = 0
total ((n, c) ∷ m) = c + total m

abbrev pub totals : List Counts → ℕ
totals [] = 0
totals (m ∷ ms) = total m + totals ms

-- What was counted, as two's complement patterns.
abbrev pub deltas : List RegistryUse → ℕ
deltas [] = 0
deltas (adds n d ∷ us) = to_word d + deltas us
deltas (rotates ∷ us) = deltas us

total-add_count :
    (n : Name) (d : ℕ) (m : Counts) → total (add_count n d m) % word_mod ≡ (total m + d) % word_mod
total-add_count n d [] = omega arith
total-add_count n d ((k, c) ∷ m) = elim (Bool-cases (same_name k n)) [
  | inl e ↦ rw e (omega arith)
  | inr e ↦ rw e (omega (arith, total-add_count n d m))
]

total-add :
    (trim : Name → Name) (r : Registry) (n : Name) (d : ℤ)
    → total (add trim r n d).counts % word_mod ≡ (total r.counts + to_word d) % word_mod
unfolding add
total-add trim r n d = elim (Bool-cases (overflows r.counts (trim n))) [
  | inl e ↦ rw e (total-add_count overflow_name (to_word d) r.counts)
  | inr e ↦ rw e (total-add_count (trim n) (to_word d) r.counts)
]

-- However counts and rotations are ordered, the tables that were rotated out and the table that is
-- left hold together exactly what was counted, modulo 2^64: a rotation between two counts loses
-- nothing and counts nothing twice, and a count of a name that is out of bounds is kept too.
pub totals-use_registry :
    (trim : Name → Name) (us : List RegistryUse) (r : Registry) (out : List Counts)
    → let e = use_registry trim us r out in
      (total e.0.counts + totals e.1) % word_mod
      ≡ (total r.counts + totals out + deltas us) % word_mod
totals-use_registry trim [] r out = omega arith
totals-use_registry trim (adds n d ∷ us) r out =
    omega (arith, totals-use_registry trim us (add trim r n d) out, total-add trim r n d)
totals-use_registry trim (rotates ∷ us) r out =
    omega (arith, totals-use_registry trim us new_registry (r.counts ∷ out))

length-add_count :
    (n : Name) (d : ℕ) (m : Counts)
    → length (add_count n d m) ≡ (if exists n m then length m else suc (length m))
length-add_count n d [] = refl
length-add_count n d ((k, c) ∷ m) = elim (Bool-cases (same_name k n)) [
  | inl e ↦ rw e refl
  | inr e ↦ rw (e, length-add_count n d m) (ground arith)
]

exists_kept :
    (k n : Name) (d : ℕ) (m : Counts) → exists k m ≡ true → exists k (add_count n d m) ≡ true
exists_kept k n d [] h = absurd (cc h)
exists_kept k n d ((j, c) ∷ m) h = elim (Bool-cases (same_name j n)) [
  | inl e ↦ rw e h
  | inr e ↦ rw e (elim (Bool-cases (same_name j k)) [
    | inl f ↦ rw f refl
    | inr f ↦ rw f (exists_kept k n d m (rw f at h))
  ])
]

exists_after :
    (n : Name) (d : ℕ) (m : Counts) → same_name n n ≡ true → exists n (add_count n d m) ≡ true
exists_after n d [] h = rw h refl
exists_after n d ((j, c) ∷ m) h = elim (Bool-cases (same_name j n)) [
  | inl e ↦ rw (e, e) refl
  | inr e ↦ rw (e, e) (exists_after n d m h)
]

-- At most 1024 names, and the overflow name.
abbrev pub Small : Counts → Type 0
Small m = length m ≤ default_max_names + (if exists overflow_name m then 1 else 0)

add-Small :
    (trim : Name → Name) (r : Registry) (n : Name) (d : ℤ)
    → Small r.counts
    → Small (add trim r n d).counts
unfolding add
add-Small trim r n d h =
    let m = r.counts in
    let k = trim n in
    elim (Bool-cases (overflows m k)) [
      | inl e ↦
          rw
            (
              e,
              length-add_count overflow_name (to_word d) m,
              exists_after overflow_name (to_word d) m refl,
            )
            (ground (arith, h))
      | inr e ↦
          let w : (if exists k m then length m else suc (length m))
              ≤ default_max_names + (if exists overflow_name m then 1 else 0) =
            ground (arith, e, h) in
          rw (e, length-add_count k (to_word d) m)
            (elim (Bool-cases (exists overflow_name m)) [
              | inl f ↦ rw (exists_kept overflow_name k (to_word d) m f) (rw f at w)
              | inr f ↦ ground (arith, rw f at w)
            ])
    ]

-- If every table so far holds at most 1024 names and the overflow name, then so does every later
-- one, whatever names are counted and whenever a table is rotated out.
pub use_registry-Small :
    (trim : Name → Name) (us : List RegistryUse) (r : Registry) (out : List Counts)
    → Small r.counts
    → All Small out
    → let e = use_registry trim us r out in Small e.0.counts × All Small e.1
use_registry-Small trim [] r out h k = (h, k)
use_registry-Small trim (adds n d ∷ us) r out h k =
    use_registry-Small trim us (add trim r n d) out (add-Small trim r n d h) k
use_registry-Small trim (rotates ∷ us) r out h k =
    use_registry-Small trim us new_registry (r.counts ∷ out) (omega arith) (h, k)
