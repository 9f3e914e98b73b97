-- ===== src/Requestwork/Wall.antt =====
-- What Close says of the calls that a request made, against the moments at which they ran.
use isutools.Prelude.{
  ℕ, ◌+◌, ◌-◌, ◌≤◌, ◌<◌, ◌≡◌, ap, sym, ◌∙◌, Bool, true, false, not, ◌&&◌, List, [], ◌∷◌, arith, ltb,
  leb, if◌then◌else◌,
}
use mathlib.Core.List.{Perm}
use isutools.Prelude.Int.{pos}
use isutools.Runctl.Types.{Time, max_duration}
use isutools.Requestwork.{Edge, Interval, Summary, all_edges, edges, sweep_edges}
use isutools.Requestwork.Ticks.{ticks, ticks_agree, ticks_partition}
use isutools.Requestwork.Sweep.{
  up_of, down_of, begun, ended, running, sql_kind, ext_kind, Sorted, sweep_edges-Charged,
}
use isutools.Requestwork.Edges.{
  covered, hits, covered-hits, kind_of, all-balance, window_ends, total-Perm,
}

ltb_balance : (u d u' d' h : ℕ) → u' ≡ d' + h → u ≡ u' → d ≡ d' → ltb (0 + d) (0 + u) ≡ ltb 0 h
ltb_balance u d u' d' h k l m = ground arith

-- The two ends of the window begin and end no call.
begun-edges :
    (x : Bool) (start end t : Time) (vs : List Interval)
    → (begun (kind_of x) (edges start end vs) t ≡ begun (kind_of x) (all_edges start end vs) t)
      × (ended (kind_of x) (edges start end vs) t ≡ ended (kind_of x) (all_edges start end vs) t)
unfolding edges
begun-edges false start end t vs = ground arith
begun-edges true start end t vs = ground arith

-- Whether the sorted edges of a window say that a call of a kind runs, as the intervals do.
running-covered :
    (x : Bool) (start end t : Time) (vs : List Interval) (es : List Edge)
    → Perm es (edges start end vs)
    → start ≤ t
    → t < end
    → running (kind_of x) 0 0 es t ≡ covered x vs t
unfolding edges
running-covered x start end t vs es p h k =
    let u = total-Perm (λ e. if leb e.t t then up_of (kind_of x e) else 0) p in
    let d = total-Perm (λ e. if leb e.t t then down_of (kind_of x e) else 0) p in
    let m = begun-edges x start end t vs in
    let b = all-balance x start end t vs h k in
    ltb_balance _ _ _ _ (hits x vs t) b (u ∙ m.0) (d ∙ m.1) ∙ sym (covered-hits x vs t)

-- The four sums over a window of n nanoseconds: at which of them SQL, an outbound call, both or
-- neither was running, by the intervals.
pub record Partitions (s : Summary) (vs : List Interval) (start n : ℕ) : Type 0 where
  pub overlap : s.overlap ≡ ticks (λ t. covered false vs t && covered true vs t) start n
  pub sql_only : s.sql_only ≡ ticks (λ t. covered false vs t && not (covered true vs t)) start n
  pub external_only :
      s.external_only ≡ ticks (λ t. not (covered false vs t) && covered true vs t) start n
  pub other : s.other ≡ ticks (λ t. not (covered false vs t) && not (covered true vs t)) start n
  pub whole : s.overlap + s.sql_only + s.external_only + s.other ≡ n

-- No wall time has been charged yet.
abbrev pub IsUncharged : Summary → Type 0
IsUncharged s = (s.overlap ≡ 0) × (s.sql_only ≡ 0) × (s.external_only ≡ 0) × (s.other ≡ 0)

class-covered :
    (f : Bool → Bool → Bool) (start end : Time) (vs : List Interval) (es : List Edge)
    → start < end
    → Perm es (edges start end vs)
    → ticks (λ t. f (running sql_kind 0 0 es t) (running ext_kind 0 0 es t)) start (end - start)
      ≡ ticks (λ t. f (covered false vs t) (covered true vs t)) start (end - start)
class-covered f start end vs es h p = ticks_agree _ _ start (end - start) (λ t a b.
    let k : t < end = omega (arith, h, b) in
    ap (λ x. f x (running ext_kind 0 0 es t)) (running-covered false start end t vs es p a k)
    ∙ ap (f (covered false vs t)) (running-covered true start end t vs es p a k))

pub sweep-Partitions :
    (s : Summary) (vs : List Interval) (start end : Time) (es : List Edge)
    → IsUncharged s
    → start < end
    → end - start ≤ max_duration
    → Perm es (edges start end vs)
    → Sorted es
    → Partitions (sweep_edges (pos 0) (pos 0) s es) vs start (end - start)
unfolding edges
sweep-Partitions s vs start end [] z h k p so = absurd (omega (arith, total-Perm (λ e. 1) p))
sweep-Partitions s vs start end (e ∷ es) z h k p so =
    let ends = window_ends start end vs e es h p so in
    let n = end - start in
    let c =
      sweep_edges-Charged e es 0 0 0 0 s n so (omega (arith, ends, h)) k (omega (arith, z, k)) in
    let class = λ (f : Bool → Bool → Bool).
      ap
        (λ x.
          ticks (λ t. f (running sql_kind 0 0 (e ∷ es) t) (running ext_kind 0 0 (e ∷ es) t)) x n)
        ends.0
      ∙ class-covered f start end vs (e ∷ es) h p in
    let overlap = c.overlap ∙ (omega (arith, z, class (λ x y. x && y))) in
    let sql_only = c.sql_only ∙ (omega (arith, z, class (λ x y. x && not y))) in
    let external_only = c.external_only ∙ (omega (arith, z, class (λ x y. not x && y))) in
    let other = c.other ∙ (omega (arith, z, class (λ x y. not x && not y))) in
    record {
      overlap = overlap;
      sql_only = sql_only;
      external_only = external_only;
      other = other;
      whole = omega (
        arith,
        overlap,
        sql_only,
        external_only,
        other,
        ticks_partition (covered false vs) (covered true vs) start n,
      );
    }
