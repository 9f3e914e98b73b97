-- ===== src/Requestwork/Sweep.antt =====
-- The loop of Close over sorted edges, against the counts of edges that a moment has behind it.
use isutools.Prelude.{
  ℕ, zero, suc, ◌+◌, ◌-◌, ◌≤◌, ◌<◌, ◌≡◌, refl, ap, ◌∙◌, Bool, true, false, not, ◌&&◌, List, [], ◌∷◌,
  arith, ltb, leb, ◌==◌, if◌then◌else◌,
}
use isutools.Prelude.Int.{ℤ, pos, negsuc, word_mod}
use isutools.Runctl.Types.{Time, max_duration, sub_time}
use isutools.Requestwork.{
  Delta, same, up, down, Edge, Summary, bump, is_positive, charge, sweep_edges,
}
use isutools.Requestwork.Ticks.{ticks, ticks_split, ticks_agree, ticks_constant}

abbrev pub up_of : Delta → ℕ
up_of up = 1
up_of _ = 0

abbrev pub down_of : Delta → ℕ
down_of down = 1
down_of _ = 0

-- A sum over edges.
abbrev pub total : (Edge → ℕ) → List Edge → ℕ
total p [] = 0
total p (e ∷ es) = p e + total p es

-- How many calls of one kind the edges up to a moment begin, and how many they end.
abbrev pub begun : (Edge → Delta) → List Edge → Time → ℕ
begun kind es t = total (λ e. if leb e.t t then up_of (kind e) else 0) es

abbrev pub ended : (Edge → Delta) → List Edge → Time → ℕ
ended kind es t = total (λ e. if leb e.t t then down_of (kind e) else 0) es

abbrev pub sql_kind : Edge → Delta
sql_kind e = e.sql

abbrev pub ext_kind : Edge → Delta
ext_kind e = e.ext

-- Whether calls are running at a moment, with so many begun and ended before the edges.
abbrev pub running : (Edge → Delta) → ℕ → ℕ → List Edge → Time → Bool
running kind begun₀ ended₀ es t = ltb (ended₀ + ended kind es t) (begun₀ + begun kind es t)

-- Edges in the order of their times.
abbrev pub Sorted : List Edge → Type 0
Sorted [] = Unit
Sorted (e ∷ []) = Unit
Sorted (e ∷ (f ∷ es)) = (e.t ≤ f.t) × Sorted (f ∷ es)

abbrev pub last_time : Time → List Edge → Time
last_time t [] = t
last_time t (e ∷ es) = last_time e.t es

-- The difference of two counts.
abbrev pub balance : ℕ → ℕ → ℤ
balance u zero = pos u
balance zero (suc d) = negsuc d
balance (suc u) (suc d) = balance u d

balance-up : (u d : ℕ) → bump (balance u d) up ≡ balance (suc u) d
balance-up u zero = refl
balance-up zero (suc zero) = refl
balance-up zero (suc (suc d)) = refl
balance-up (suc u) (suc d) = balance-up u d

balance-down : (u d : ℕ) → bump (balance u d) down ≡ balance u (suc d)
balance-down zero zero = refl
balance-down (suc u) zero = refl
balance-down zero (suc d) = refl
balance-down (suc u) (suc d) = balance-down u d

bump-balance : (u d : ℕ) (δ : Delta) → bump (balance u d) δ ≡ balance (u + up_of δ) (d + down_of δ)
bump-balance u d same =
    let a : u + 0 ≡ u = omega arith in let b : d + 0 ≡ d = omega arith in rw (a, b) refl
bump-balance u d up =
    let a : u + 1 ≡ suc u = omega arith in
    let b : d + 0 ≡ d = omega arith in rw (a, b) (balance-up u d)
bump-balance u d down =
    let a : u + 0 ≡ u = omega arith in
    let b : d + 1 ≡ suc d = omega arith in rw (a, b) (balance-down u d)

is_positive-balance : (u d : ℕ) → is_positive (balance u d) ≡ ltb d u
is_positive-balance zero zero = ground arith
is_positive-balance (suc u) zero = ground arith
is_positive-balance zero (suc d) = ground arith
is_positive-balance (suc u) (suc d) = ground (arith, is_positive-balance u d)

begun_before :
    (kind : Edge → Delta) (f : Edge) (es : List Edge) (t : Time)
    → Sorted (f ∷ es)
    → t < f.t
    → begun kind (f ∷ es) t ≡ 0
begun_before kind f [] t s h = ground arith
begun_before kind f (g ∷ es) t s h = ground (arith, begun_before kind g es t s.1)

ended_before :
    (kind : Edge → Delta) (f : Edge) (es : List Edge) (t : Time)
    → Sorted (f ∷ es)
    → t < f.t
    → ended kind (f ∷ es) t ≡ 0
ended_before kind f [] t s h = ground arith
ended_before kind f (g ∷ es) t s h = ground (arith, ended_before kind g es t s.1)

-- Between the first edge and the next one nothing changes, and from the next one on the first is
-- behind.
running_gap :
    (kind : Edge → Delta) (u d : ℕ) (e f : Edge) (es : List Edge) (t : Time)
    → Sorted (e ∷ f ∷ es)
    → e.t ≤ t
    → t < f.t
    → running kind u d (e ∷ f ∷ es) t ≡ ltb (d + down_of (kind e)) (u + up_of (kind e))
running_gap kind u d e f es t s h k =
    ground (arith, begun_before kind f es t s.1 k, ended_before kind f es t s.1 k)

running_rest :
    (kind : Edge → Delta) (u d : ℕ) (e : Edge) (es : List Edge) (t : Time)
    → e.t ≤ t
    → running kind u d (e ∷ es) t ≡ running kind (u + up_of (kind e)) (d + down_of (kind e)) es t
running_rest kind u d e es t h = ground arith

-- One class of moments over a gap and the rest.
ticks_gap :
    (p q : ℕ → Bool) (b : Bool) (start mid d m n : ℕ)
    → mid ≡ start + d
    → n ≡ d + m
    → ((t : ℕ) → start ≤ t → t < mid → p t ≡ b)
    → ((t : ℕ) → mid ≤ t → p t ≡ q t)
    → ticks p start n ≡ (if b then d else 0) + ticks q mid m
ticks_gap p q b start mid d m n h k gap rest =
    let first = ticks_agree p (λ t. b) start d (λ t x y. gap t x (omega (arith, h))) in
    let second = ticks_agree p q mid m (λ t x y. rest t x) in
    rw (ticks_split p start mid d m n h k, first, ticks_constant b start d, second) refl

-- The sums have room for the rest of the window.
abbrev pub HasRoom : Summary → ℕ → Type 0
HasRoom s n =
    (s.overlap + n < word_mod)
    × (s.sql_only + n < word_mod)
    × (s.external_only + n < word_mod)
    × (s.other + n < word_mod)

-- Over a window, each sum grew by the moments of its class.
pub record Charged (s s' : Summary) (sql ext : ℕ → Bool) (start n : ℕ) : Type 0 where
  pub overlap : s'.overlap ≡ s.overlap + ticks (λ t. sql t && ext t) start n
  pub sql_only : s'.sql_only ≡ s.sql_only + ticks (λ t. sql t && not (ext t)) start n
  pub external_only : s'.external_only ≡ s.external_only + ticks (λ t. not (sql t) && ext t) start n
  pub other : s'.other ≡ s.other + ticks (λ t. not (sql t) && not (ext t)) start n

charge-adds :
    (a b : Bool) (d n : ℕ) (s : Summary)
    → d ≤ n
    → HasRoom s n
    → let s' = (if d == 0 then s else charge a b d s) in
      (s'.overlap ≡ s.overlap + (if a && b then d else 0))
      × (s'.sql_only ≡ s.sql_only + (if a && not b then d else 0))
      × (s'.external_only ≡ s.external_only + (if not a && b then d else 0))
      × (s'.other ≡ s.other + (if not a && not b then d else 0))
charge-adds true true d n s h r = ground arith
charge-adds true false d n s h r = ground arith
charge-adds false true d n s h r = ground arith
charge-adds false false d n s h r = ground arith

HasRoom-charge :
    (a b : Bool) (d m n : ℕ) (s : Summary)
    → n ≡ d + m
    → HasRoom s n
    → HasRoom (if d == 0 then s else charge a b d s) m
HasRoom-charge a b d m n s h r =
    let c = charge-adds a b d n s (omega (arith, h)) r in ground (arith, c, r)

pub last_time-le : (e : Edge) (es : List Edge) → Sorted (e ∷ es) → e.t ≤ last_time e.t es
last_time-le e [] s = omega arith
last_time-le e (f ∷ es) s = omega (arith, s.0, last_time-le f es s.1)

-- The moments of a class of the two kinds, over the first gap and the rest.
class_gap :
    (c : Bool → Bool → Bool) (u d u' d' : ℕ) (e f : Edge) (es : List Edge) (gap m n : ℕ)
    → Sorted (e ∷ f ∷ es)
    → f.t ≡ e.t + gap
    → n ≡ gap + m
    → ticks
        (λ t. c (running sql_kind u d (e ∷ f ∷ es) t) (running ext_kind u' d' (e ∷ f ∷ es) t))
        e.t
        n
      ≡ (if c
            (ltb (d + down_of e.sql) (u + up_of e.sql))
            (ltb (d' + down_of e.ext) (u' + up_of e.ext))
          then gap
          else 0)
        + ticks
            (λ t.
              c
                (running sql_kind (u + up_of e.sql) (d + down_of e.sql) (f ∷ es) t)
                (running ext_kind (u' + up_of e.ext) (d' + down_of e.ext) (f ∷ es) t))
            f.t
            m
class_gap c u d u' d' e f es gap m n so h k =
    ticks_gap _ _ _ e.t f.t gap m n h k
      (λ t x y.
        ap (λ p. c p (running ext_kind u' d' (e ∷ f ∷ es) t))
          (running_gap sql_kind u d e f es t so x y)
        ∙ ap (c (ltb (d + down_of e.sql) (u + up_of e.sql)))
            (running_gap ext_kind u' d' e f es t so x y))
      (λ t x.
        let y : e.t ≤ t = omega (arith, h, x) in
        ap (λ p. c p (running ext_kind u' d' (e ∷ f ∷ es) t))
          (running_rest sql_kind u d e (f ∷ es) t y)
        ∙ ap (c (running sql_kind (u + up_of e.sql) (d + down_of e.sql) (f ∷ es) t))
            (running_rest ext_kind u' d' e (f ∷ es) t y))

-- The loop from its first edge to the last one.
pub sweep_edges-Charged :
    (e : Edge) (es : List Edge) (u d u' d' : ℕ) (s : Summary) (n : ℕ)
    → Sorted (e ∷ es)
    → last_time e.t es ≡ e.t + n
    → n ≤ max_duration
    → HasRoom s n
    → Charged s
        (sweep_edges (balance u d) (balance u' d') s (e ∷ es))
        (running sql_kind u d (e ∷ es))
        (running ext_kind u' d' (e ∷ es))
        e.t
        n
unfolding sweep_edges ticks
sweep_edges-Charged e [] u d u' d' s n so la le r =
    let z : n ≡ 0 = omega (arith, la) in
    rw z (record {
      overlap = omega arith;
      sql_only = omega arith;
      external_only = omega arith;
      other = omega arith;
    })
sweep_edges-Charged e (f ∷ es) u d u' d' s n so la le r =
    let gap = f.t - e.t in
    let m = n - gap in
    let below = last_time-le f es so.1 in
    let split : n ≡ gap + m = omega (arith, below, la, so.0) in
    let u₁ = u + up_of e.sql in
    let d₁ = d + down_of e.sql in
    let u₂ = u' + up_of e.ext in
    let d₂ = d' + down_of e.ext in
    let a = ltb d₁ u₁ in
    let b = ltb d₂ u₂ in
    let s' = (if gap == 0 then s else charge a b gap s) in
    let add = charge-adds a b gap n s (omega (arith, split)) r in
    let ih =
      sweep_edges-Charged f es u₁ d₁ u₂ d₂ s' m so.1 (omega (arith, la, split, so.0))
        (omega (arith, split, le)) (HasRoom-charge a b gap m n s split r) in
    let span : sub_time f.t e.t ≡ gap = ground (arith, split, le) in
    let class = λ (c : Bool → Bool → Bool).
      class_gap c u d u' d' e f es gap m n so (omega (arith, so.0)) split in
    rw
      (
        bump-balance u d e.sql,
        bump-balance u' d' e.ext,
        is_positive-balance u₁ d₁,
        is_positive-balance u₂ d₂,
        span,
      )
      (record {
        overlap = omega (arith, ih.overlap, add.0, class (λ x y. x && y));
        sql_only = omega (arith, ih.sql_only, add.1, class (λ x y. x && not y));
        external_only = omega (arith, ih.external_only, add.2, class (λ x y. not x && y));
        other = omega (arith, ih.other, add.3, class (λ x y. not x && not y));
      })
