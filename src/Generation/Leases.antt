-- ===== src/Generation/Leases.antt =====
-- How the count of a slot's leases moves, and what a write of a store leaves alone.
use isutools.Prelude.{
  ℕ, zero, suc, ◌+◌, ◌<◌, ◌≡◌, refl, subst, inl, inr, Bool, true, false, arith, ◌==◌, if◌then◌else◌,
  Bool-cases,
}
use isutools.Generation.{Lease, put_at}
use isutools.Generation.Steps.{active}

pub put_at-here {ℓ} : {A : Type ℓ} (f : ℕ → A) (i : ℕ) (x : A) → put_at f i x i ≡ x
put_at-here f i x = let e : (i == i) ≡ true = ground arith in rw e refl

pub put_at-other {ℓ} :
    {A : Type ℓ} (f : ℕ → A) (i j : ℕ) (x : A) → (j == i) ≡ false → put_at f i x j ≡ f j
put_at-other f i j x h = rw h refl

active_same :
    (ls ls' : ℕ → Lease) (a n : ℕ)
    → ((i : ℕ) → i < n → ls i ≡ ls' i)
    → active ls a n ≡ active ls' a n
unfolding active
active_same ls ls' a zero h = refl
active_same ls ls' a (suc n) h =
    rw (h n (omega arith), active_same ls ls' a n (λ i k. h i (omega (arith, k)))) refl

abbrev pub one_of : Bool → ℕ
one_of b = if b then 1 else 0

-- A lease more.
pub active_acquire :
    (ls : ℕ → Lease) (a b n m : ℕ)
    → m ≡ n + 1
    → active (put_at ls n record { slot = b; done = false }) a m ≡ one_of (b == a) + active ls a n
unfolding active
active_acquire ls a b n m h =
    let ls' = put_at ls n record { slot = b; done = false } in
    let s : m ≡ suc n = omega (arith, h) in
    let p : active ls' a n ≡ active ls a n =
      active_same ls' ls a n
        (λ i k. put_at-other ls n i record { slot = b; done = false } (ground (arith, k))) in
    rw (s, put_at-here ls n record { slot = b; done = false }, p) (ground arith)

-- A lease that is done with.
pub active_finish :
    (ls : ℕ → Lease) (a l n : ℕ)
    → l < n
    → (ls l).done ≡ false
    → active ls a n
      ≡ one_of ((ls l).slot == a)
        + active (put_at ls l record { slot = (ls l).slot; done = true }) a n
unfolding active
active_finish ls a l zero h w = absurd (omega (arith, h))
active_finish ls a l (suc n) h w =
    let x : Lease = record { slot = (ls l).slot; done = true } in
    let ls' = put_at ls l x in
    elim (Bool-cases (n == l)) [
      | inl e ↦
          let q : n ≡ l = ground (arith, e) in
          let p : active ls' a n ≡ active ls a n =
            active_same ls' ls a n (λ i k. put_at-other ls l i x (ground (arith, k, q))) in
          rw (e, p, q, w) (ground arith)
      | inr e ↦ rw (e, active_finish ls a l n (ground (arith, h, e)) w) (omega arith)
    ]

-- Nothing pins a slot exactly when each of its leases is done.
pub active_none :
    (ls : ℕ → Lease) (a n : ℕ)
    → ((i : ℕ) → i < n → (ls i).slot ≡ a → (ls i).done ≡ true)
    → active ls a n ≡ 0
unfolding active
active_none ls a zero h = refl
active_none ls a (suc n) h = elim (Bool-cases ((ls n).slot == a)) [
  | inl e ↦
      rw
        (
          e,
          h n (omega arith) (ground (arith, e)),
          active_none ls a n (λ i k. h i (omega (arith, k))),
        )
        refl
  | inr e ↦ rw (e, active_none ls a n (λ i k. h i (omega (arith, k)))) refl
]

pub none_active :
    (ls : ℕ → Lease) (a n i : ℕ) → active ls a n ≡ 0 → i < n → (ls i).slot ≡ a → (ls i).done ≡ true
unfolding active
none_active ls a zero i z h e = absurd (omega (arith, h))
none_active ls a (suc n) i z h e = elim (Bool-cases (i == n)) [
  | inl w ↦
      let q : n ≡ i = ground (arith, w) in
      let z' = rw (q, e) at z in
      elim (Bool-cases (ls i).done) [ inl d ↦ d | inr d ↦ absurd (ground (arith, rw d at z')) ]
  | inr w ↦ none_active ls a n i (omega (arith, z)) (ground (arith, w, h)) e
]

-- A property of every slot, after a write of one of them.
pub all_put_at {ℓ κ} :
    {A : Type ℓ} (P : ℕ → A → Type κ) (f : ℕ → A) (i : ℕ) (x : A)
    → P i x
    → ((j : ℕ) → (j == i) ≡ false → P j (f j))
    → (j : ℕ) → P j (put_at f i x j)
all_put_at P f i x h k j = elim (Bool-cases (j == i)) [
  | inl e ↦ rw e (subst (λ j. P j x) (ground (arith, e)) h)
  | inr e ↦ rw e (k j e)
]
