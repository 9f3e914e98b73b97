-- ===== src/Requestwork/Edges.antt =====
-- The edges that Close collects: how they are sorted, where they lie, and what they balance.
use isutools.Prelude.{
  ℕ, ◌+◌, ◌≤◌, ◌<◌, ◌≡◌, refl, ap, ◌∙◌, inl, inr, Bool, true, false, not, ◌&&◌, ◌||◌, List, [], ◌∷◌,
  ◌++◌, arith, ltb, leb, if◌then◌else◌, Bool-cases,
}
use mathlib.Core.List.{Perm, Permᴰ}
use mathlib.Core.Logic.{∥∥₁_elim}
use native.Mathlib.Nat.{ℕ_set}
use isutools.Runctl.Types.{Time}
use isutools.Requestwork.{Delta, Edge, Interval, interval_edges, all_edges, edges}
use isutools.Requestwork.Sweep.{
  up_of, down_of, total, begun, ended, sql_kind, ext_kind, Sorted, last_time, last_time-le,
}

total-Permᴰ : (p : Edge → ℕ) {es fs : List Edge} → Permᴰ es fs → total p es ≡ total p fs
total-Permᴰ p Permᴰ.nil = refl
total-Permᴰ p (Permᴰ.cons x h) = omega (arith, ap p x, total-Permᴰ p h)
total-Permᴰ p (Permᴰ.swap x y) = omega (arith, ap p x, ap p y)
total-Permᴰ p (Permᴰ.trans h k) = total-Permᴰ p h ∙ total-Permᴰ p k

pub total-Perm : (p : Edge → ℕ) {es fs : List Edge} → Perm es fs → total p es ≡ total p fs
total-Perm p h = ∥∥₁_elim h (ℕ_set _ _) (total-Permᴰ p)

-- What sort.Slice promises of the edges: the same ones, in the order of their times.
pub record SortsByTime (sort : List Edge → List Edge) : Type 0 where
  pub same_edges : (es : List Edge) → Perm (sort es) es
  pub sorted : (es : List Edge) → Sorted (sort es)

-- Whether an interval of a kind covers a moment.
abbrev pub covers : Bool → Interval → Time → Bool
covers external v t =
    (if v.external then external else not external) && leb v.start t && ltb t v.end

abbrev pub covered : Bool → List Interval → Time → Bool
covered external [] t = false
covered external (v ∷ vs) t = covers external v t || covered external vs t

abbrev pub hits : Bool → List Interval → Time → ℕ
hits external [] t = 0
hits external (v ∷ vs) t = (if covers external v t then 1 else 0) + hits external vs t

pub covered-hits :
    (external : Bool) (vs : List Interval) (t : Time)
    → covered external vs t ≡ ltb 0 (hits external vs t)
covered-hits external [] t = ground arith
covered-hits external (v ∷ vs) t = ground (arith, covered-hits external vs t)

abbrev pub kind_of : Bool → Edge → Delta
kind_of false = sql_kind
kind_of true = ext_kind

total-append : (p : Edge → ℕ) (es fs : List Edge) → total p (es ++ fs) ≡ total p es + total p fs
total-append p [] fs = omega arith
total-append p (e ∷ es) fs = omega (arith, total-append p es fs)

-- In the window, more edges of an interval have begun than ended exactly while it covers.
interval-balance :
    (x : Bool) (start end t : Time) (v : Interval)
    → start ≤ t
    → t < end
    → begun (kind_of x) (interval_edges start end v) t
      ≡ ended (kind_of x) (interval_edges start end v) t + (if covers x v t then 1 else 0)
interval-balance false start end t v h k = ground (arith, h, k)
interval-balance true start end t v h k = ground (arith, h, k)

pub all-balance :
    (x : Bool) (start end t : Time) (vs : List Interval)
    → start ≤ t
    → t < end
    → begun (kind_of x) (all_edges start end vs) t
      ≡ ended (kind_of x) (all_edges start end vs) t + hits x vs t
all-balance x start end t [] h k = omega arith
all-balance x start end t (v ∷ vs) h k =
    let up_p = λ (e : Edge). if leb e.t t then up_of (kind_of x e) else 0 in
    let down_p = λ (e : Edge). if leb e.t t then down_of (kind_of x e) else 0 in
    omega (
      arith,
      interval-balance x start end t v h k,
      all-balance x start end t vs h k,
      total-append up_p (interval_edges start end v) (all_edges start end vs),
      total-append down_p (interval_edges start end v) (all_edges start end vs),
    )

-- The edges stay in the window, and its two ends are among them.
abbrev before : Time → Edge → ℕ
before x e = if ltb e.t x then 1 else 0

abbrev after : Time → Edge → ℕ
after x e = if ltb x e.t then 1 else 0

abbrev by : Time → Edge → ℕ
by x e = if leb e.t x then 1 else 0

abbrev from : Time → Edge → ℕ
from x e = if leb x e.t then 1 else 0

all_edges-inside :
    (start end : Time) (vs : List Interval)
    → start < end
    → (total (before start) (all_edges start end vs) ≡ 0)
      × (total (after end) (all_edges start end vs) ≡ 0)
all_edges-inside start end [] h = (refl, refl)
all_edges-inside start end (v ∷ vs) h =
    let ih = all_edges-inside start end vs h in
    let one : (total (before start) (interval_edges start end v) ≡ 0)
        × (total (after end) (interval_edges start end v) ≡ 0) =
      ground (arith, h) in
    (
      omega (
        arith,
        ih.0,
        one.0,
        total-append (before start) (interval_edges start end v) (all_edges start end vs),
      ),
      omega (
        arith,
        ih.1,
        one.1,
        total-append (after end) (interval_edges start end v) (all_edges start end vs),
      ),
    )

-- Past a moment, sorted edges stay past it; up to the last one, they stay before.
by-none :
    (x : Time) (e : Edge) (es : List Edge) → Sorted (e ∷ es) → x < e.t → total (by x) (e ∷ es) ≡ 0
by-none x e [] s h = ground arith
by-none x e (f ∷ es) s h = ground (arith, s.0, by-none x f es s.1)

from-none :
    (x : Time) (e : Edge) (es : List Edge)
    → Sorted (e ∷ es)
    → last_time e.t es < x
    → total (from x) (e ∷ es) ≡ 0
from-none x e [] s h = ground arith
from-none x e (f ∷ es) s h = ground (arith, h, s.0, last_time-le f es s.1, from-none x f es s.1)

after-none :
    (x : Time) (e : Edge) (es : List Edge) → total (after x) (e ∷ es) ≡ 0 → last_time e.t es ≤ x
after-none x e [] h = ground (arith, h)
after-none x e (f ∷ es) h = after-none x f es (omega (arith, h))

-- The sorted edges run from one end of the window to the other.
pub window_ends :
    (start end : Time) (vs : List Interval) (e : Edge) (es : List Edge)
    → start < end
    → Perm (e ∷ es) (edges start end vs)
    → Sorted (e ∷ es)
    → (e.t ≡ start) × (last_time e.t es ≡ end)
unfolding edges
window_ends start end vs e es h p s =
    let inside = all_edges-inside start end vs h in
    let lo = total-Perm (before start) p in
    let hi = total-Perm (after end) p in
    let some_lo = total-Perm (by start) p in
    let some_hi = total-Perm (from end) p in
    let a : start ≤ e.t = ground (arith, lo, inside.0, h) in
    let b : last_time e.t es ≤ end = after-none end e es (ground (arith, hi, inside.1, h)) in
    let c : e.t ≤ start = elim (Bool-cases (ltb start e.t)) [
      | inl q ↦ absurd (ground (arith, some_lo, by-none start e es s (ground (arith, q))))
      | inr q ↦ ground (arith, q)
    ] in
    let d : end ≤ last_time e.t es = elim (Bool-cases (ltb (last_time e.t es) end)) [
      | inl q ↦ absurd (ground (arith, some_hi, from-none end e es s (ground (arith, q))))
      | inr q ↦ ground (arith, q)
    ] in
    (omega (arith, a, c), omega (arith, b, d))
