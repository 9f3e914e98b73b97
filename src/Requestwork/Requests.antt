-- ===== src/Requestwork/Requests.antt =====
-- A request from its first call to Close.
use isutools.Prelude.{
  ◌+◌, ◌-◌, ◌≤◌, ◌<◌, ◌≡◌, refl, ap, subst, ◌∙◌, Option-cases, inl, inr, Bool, true, false, ◌&&◌,
  not, ◌||◌, List, [], ◌∷◌, ◌++◌, length, length-append, arith, ltb, leb, if◌then◌else◌, Bool-cases,
}
use mathlib.Core.List.{append-nil, append_assoc}
use isutools.Prelude.Int.{pos}
use isutools.Runctl.Types.{Time, sub_time, max_duration}
use isutools.Requestwork.{
  Edge, Interval, Counter, External, close, new_counter, sweep_edges, completed_sql,
  completed_external, add_interval, count_call, effective_label, add64, one_if, cut,
  max_label_length, Label, index_of, max_intervals, edges,
}
use isutools.Requestwork.Edges.{SortsByTime}
use isutools.Requestwork.Wall.{Partitions, IsUncharged, sweep-Partitions}

-- A completed call of either kind.
pub data Work : Type 0 where
  sql : Time → Time → Work
  call : External → Work

abbrev pub record_work : Counter → Work → Counter
record_work c (sql s e) = completed_sql c s e
record_work c (call e) = completed_external c e

pub run : Counter → List Work → Counter
run c [] = c
run c (w ∷ ws) = run (record_work c w) ws

-- The intervals that took time, in order.
abbrev pub interval_of : Work → List Interval
interval_of (sql s e) = if ltb s e then record { start = s; end = e; external = false } ∷ [] else []
interval_of (call e) =
    if ltb e.start e.end then record { start = e.start; end = e.end; external = true } ∷ [] else []

abbrev pub intervals_of : List Work → List Interval
intervals_of [] = []
intervals_of (w ∷ ws) = interval_of w ++ intervals_of ws

-- An open counter has kept these intervals, or there were too many of them.
record Tracks (c : Counter) (vs : List Interval) : Type 0 where
  is_open : c.closed ≡ false
  uncharged : IsUncharged c.summary
  kept : length vs ≤ max_intervals → (c.summary.truncated ≡ false) × (c.intervals ≡ vs)
  given_up : max_intervals < length vs → c.summary.truncated ≡ true

length-snoc : {A : Type 0} (xs : List A) (x : A) → length (xs ++ x ∷ []) ≡ length xs + 1
length-snoc xs x = length-append xs (x ∷ [])

add_interval-Tracks :
    (c : Counter) (vs : List Interval) (s e : Time) (x : Bool)
    → Tracks c vs
    → Tracks (add_interval c s e x) (vs ++ record { start = s; end = e; external = x } ∷ [])
unfolding add_interval
add_interval-Tracks c vs s e x t =
    let n = length-snoc vs (record { start = s; end = e; external = x }) in
    elim (Bool-cases (leb (length vs) max_intervals)) [
      | inl fits ↦
          let (whole, same) = t.kept (ground (arith, fits)) in
          let len : length c.intervals ≡ length vs = ap length same in
          elim (Bool-cases (leb max_intervals (length vs))) [
            | inl full ↦
                rw (whole, len, full)
                  (record {
                    is_open = t.is_open;
                    uncharged = t.uncharged;
                    kept = λ h. absurd (ground (arith, h, n, full));
                    given_up = λ h. refl;
                  })
            | inr room ↦
                rw (whole, len, room)
                  (record {
                    is_open = t.is_open;
                    uncharged = t.uncharged;
                    kept = λ h. (
                      refl,
                      ap (λ l. l ++ record { start = s; end = e; external = x } ∷ []) same,
                    );
                    given_up = λ h. absurd (ground (arith, h, n, room));
                  })
          ]
      | inr over ↦ rw (t.given_up (ground (arith, over))) (record {
        is_open = t.is_open;
        uncharged = t.uncharged;
        kept = λ h. absurd (ground (arith, h, n, over));
        given_up = λ h. refl;
      })
    ]

-- What a completed call does besides keeping its interval.
same-Tracks :
    (c d : Counter) (vs : List Interval)
    → d.closed ≡ c.closed
    → d.intervals ≡ c.intervals
    → d.summary.truncated ≡ c.summary.truncated
    → IsUncharged d.summary
    → Tracks c vs
    → Tracks d vs
same-Tracks c d vs a b k z t = record {
  is_open = a ∙ t.is_open;
  uncharged = z;
  kept = λ h. (k ∙ (t.kept h).0, b ∙ (t.kept h).1);
  given_up = λ h. k ∙ t.given_up h;
}

count_call-Tracks :
    (c : Counter) (l : Label) (e : External) (vs : List Interval)
    → Tracks c vs
    → Tracks (count_call c l e) vs
unfolding count_call
count_call-Tracks c l e vs t = elim (Option-cases (index_of l c.labels)) [
  | inl h ↦ rw (h, count_call) (same-Tracks c _ vs refl refl refl t.uncharged t)
  | inr (i, h) ↦ rw (h, count_call) (same-Tracks c _ vs refl refl refl t.uncharged t)
]

record_work-Tracks :
    (c : Counter) (vs : List Interval) (w : Work)
    → Tracks c vs
    → Tracks (record_work c w) (vs ++ interval_of w)
unfolding completed_sql completed_external
record_work-Tracks c vs (sql s e) t = elim (Bool-cases (ltb s e)) [
  | inl h ↦
      let guard : (not (ltb s e) || c.closed) ≡ false = rw (h, t.is_open) refl in
      let c₁ : Counter = record c {
        summary = record c.summary { sql_total = add64 c.summary.sql_total (sub_time e s) };
      } in
      rw (guard, h)
        (add_interval-Tracks c₁ vs s e false (same-Tracks c c₁ vs refl refl refl t.uncharged t))
  | inr h ↦ rw (h, append-nil vs) t
]
record_work-Tracks c vs (call e) t = elim (Bool-cases (ltb e.start e.end)) [
  | inl h ↦
      let guard : (not (ltb e.start e.end) || c.closed) ≡ false = rw (h, t.is_open) refl in
      let c₁ : Counter = record c {
        summary = record c.summary {
          external_total = add64 c.summary.external_total (sub_time e.end e.start);
          external_count = add64 c.summary.external_count 1;
          external_errors = add64 c.summary.external_errors (one_if e.failed);
        };
      } in
      let c₂ = add_interval c₁ e.start e.end true in
      rw (guard, h)
        (count_call-Tracks c₂ (effective_label c₂.labels (cut max_label_length e.label)) e _ (
          add_interval-Tracks c₁ vs e.start e.end true
            (same-Tracks c c₁ vs refl refl refl t.uncharged t)))
  | inr h ↦ rw (h, append-nil vs) t
]

run-Tracks :
    (c : Counter) (vs : List Interval) (ws : List Work)
    → Tracks c vs
    → Tracks (run c ws) (vs ++ intervals_of ws)
unfolding run
run-Tracks c vs [] t = rw (append-nil vs) t
run-Tracks c vs (w ∷ ws) t =
    subst (Tracks (run (record_work c w) ws)) (append_assoc vs (interval_of w) (intervals_of ws))
      (run-Tracks (record_work c w) (vs ++ interval_of w) ws (record_work-Tracks c vs w t))

new_counter-Tracks : Tracks new_counter []
new_counter-Tracks = record {
  is_open = refl;
  uncharged = (refl, refl, refl, refl);
  kept = λ h. (refl, refl);
  given_up = λ h. absurd (omega (arith, h));
}

-- The result of the first Close of a counter that tracks the intervals.
close-first :
    (sort : List Edge → List Edge) (c : Counter) (vs : List Interval) (start end : Time)
    → SortsByTime sort
    → Tracks c vs
    → start < end
    → end - start ≤ max_duration
    → let s = (close sort c start end).1 in
      (length vs ≤ max_intervals → Partitions s vs start (end - start))
      × (max_intervals < length vs → (s.truncated ≡ true) × IsUncharged s)
unfolding close
close-first sort c vs start end ok t h k =
    let opens : ltb start end ≡ true = ground (arith, h) in
    (
      λ fits.
          let (whole, same) = t.kept fits in
          let es = sort (edges start end c.intervals) in
          let guard : (not c.summary.truncated && ltb start end) ≡ true = rw (whole, opens) refl in
          rw (t.is_open, guard)
            (subst
              (λ l.
                Partitions
                  (sweep_edges (pos 0) (pos 0) c.summary (sort (edges start end c.intervals))) l
                  start (end - start))
              same
              (sweep-Partitions c.summary c.intervals start end es t.uncharged h k
                (ok.same_edges (edges start end c.intervals))
                (ok.sorted (edges start end c.intervals)))),
      λ over.
          let guard : (not c.summary.truncated && ltb start end) ≡ false =
            rw (t.given_up over) refl in
          rw (t.is_open, guard) (t.given_up over, t.uncharged),
    )

close_again :
    (sort : List Edge → List Edge) (c : Counter) (start end a b : Time)
    → close sort (close sort c start end).0 a b ≡ close sort c start end
unfolding close
close_again sort c start end a b = ground arith

-- Of a request's window, which is not empty and no longer than a Go duration, Close says for how
-- many nanoseconds only SQL, only outbound calls, both or neither were running, exactly as the
-- completed calls' intervals say, and the four make up the window; past 256 intervals it charges
-- nothing and says that it was truncated. It says so whichever order sort.Slice gives to edges of
-- one time, and says the same again when repeated.
pub close-Partitions :
    (sort : List Edge → List Edge) (ws : List Work) (start end a b : Time)
    → SortsByTime sort
    → start < end
    → end - start ≤ max_duration
    → let c = run new_counter ws in
      let vs = intervals_of ws in
      let s = (close sort c start end).1 in
      (length vs ≤ max_intervals → Partitions s vs start (end - start))
      × (max_intervals < length vs → (s.truncated ≡ true) × IsUncharged s)
      × ((close sort (close sort c start end).0 a b).1 ≡ s)
close-Partitions sort ws start end a b ok h k =
    let c = run new_counter ws in
    let r =
      close-first sort c (intervals_of ws) start end ok
        (run-Tracks new_counter [] ws new_counter-Tracks) h k in
    (r.0, r.1, ap (λ x. x.1) (close_again sort c start end a b))
