-- ===== src/Counters/Run.antt =====
-- The counters as a collector of the run controller: one run, from its opening to its closing phase.
use isutools.Prelude.{
  ℕ, ◌≡◌, refl, ap, sym, ◌∙◌, String, true, false, List, [], ◌∷◌, Option, none, some, arith, ltb,
}
use isutools.Prelude.Int.{ℤ}
use isutools.Runctl.Types.{
  Epoch, Time, Registration, Failure, failed, start_boundary, finish_freeze, BoundaryResult, valid,
}
use isutools.Runctl.Phase.{RegisteredGeneration, Call, returns, run_generation_phase}
use isutools.Runctl.Phase.Single.{run_generation_phase-committed}
use isutools.Counters.{Name, Registry, new_registry, sorted_entries, add}
use isutools.Counters.Collector.{
  GenerationCollector, BoundaryKey, CountersError, Answer, gives, fails, Frozen, boundary,
  boundary_found, begin_boundary, freeze, drain, collect, result_of, same_key,
}
use isutools.Counters.Lifecycle.{collect-boundary}

abbrev pub add_all : (Name → Name) → List (Name × ℤ) → Registry → Registry
add_all trim [] r = r
add_all trim ((n, d) ∷ us) r = add_all trim us (add trim r n d)

-- An error of the counters is an ordinary error of a call; its text is not modelled.
abbrev failure_of : Option CountersError → Option Failure
failure_of none = none
failure_of (some e) = some (failed "counters")

abbrev call_of : BoundaryResult → Option CountersError → Call BoundaryResult
call_of res e = returns res (failure_of e)

abbrev collected : (Frozen → ℕ) → Answer Frozen → Call ℕ
collected encode (gives f) = returns (encode f) none
collected encode (fails e) = returns 0 (failure_of (some e))

-- The collector at a moment, as the phase calls it; a collected value is a number of the caller's.
abbrev pub registered :
    Registration → (Frozen → ℕ) → GenerationCollector → Time → RegisteredGeneration
registered reg encode c now = record {
  reg = reg;
  begin_boundary = λ run_id ep. let b = begin_boundary c run_id ep now in call_of b.1 b.2;
  freeze = λ run_id ep. let b = freeze c run_id ep now in call_of b.1 b.2;
  drain = λ h. returns tt (failure_of (drain c false h).1);
  collect = λ h. collected encode (collect c h);
  release = λ h. returns tt none;
}

-- A first boundary of a key.
taken :
    (c : GenerationCollector) (key : BoundaryKey) (now : Time)
    → ltb key.epoch c.epoch ≡ false
    → result_of key c.results ≡ none
    → boundary c key.run_id key.epoch key.phase now ≡ boundary_found c key now none
taken c key now h e = rw (h, e) refl

-- Each phase over the counters alone.
opens :
    (reg : Registration) (encode : Frozen → ℕ) (c : GenerationCollector) (run_id : String)
    (ep : Epoch) (now : Time)
    → ltb ep c.epoch ≡ false
    → result_of record { run_id = run_id; epoch = ep; phase = start_boundary } c.results ≡ none
    → let s =
        run_generation_phase start_boundary run_id ep
          (λ i. none)
          (registered reg encode c now ∷ []) in
      (s.validity ≡ valid) × (s.handles ≡ (begin_boundary c run_id ep now).1.handle ∷ [])
opens reg encode c run_id ep now h e =
    let key : BoundaryKey = record { run_id = run_id; epoch = ep; phase = start_boundary } in
    let t = taken c key now h e in
    let (v, w) =
      run_generation_phase-committed start_boundary run_id ep (registered reg encode c now)
        (boundary_found c key now none).1 (ap (λ b. call_of b.1 b.2) t) refl in
    (v, w ∙ ap (λ b. b.1.handle ∷ []) (sym t))

closes :
    (reg : Registration) (encode : Frozen → ℕ) (c : GenerationCollector) (run_id : String)
    (ep : Epoch) (now : Time)
    → ltb ep c.epoch ≡ false
    → result_of record { run_id = run_id; epoch = ep; phase = finish_freeze } c.results ≡ none
    → let s =
        run_generation_phase finish_freeze run_id ep
          (λ i. none)
          (registered reg encode c now ∷ []) in
      (s.validity ≡ valid) × (s.handles ≡ (freeze c run_id ep now).1.handle ∷ [])
closes reg encode c run_id ep now h e =
    let key : BoundaryKey = record { run_id = run_id; epoch = ep; phase = finish_freeze } in
    let t = taken c key now h e in
    let (v, w) =
      run_generation_phase-committed finish_freeze run_id ep (registered reg encode c now)
        (boundary_found c key now none).1 (ap (λ b. call_of b.1 b.2) t) refl in
    (v, w ∙ ap (λ b. b.1.handle ∷ []) (sym t))

-- The two boundaries of a run are different ones.
phases_differ :
    (run_id : String) (ep : Epoch)
    → same_key
        record { run_id = run_id; epoch = ep; phase = start_boundary }
        record { run_id = run_id; epoch = ep; phase = finish_freeze }
      ≡ false
phases_differ run_id ep = ground arith

-- What the program counts between the boundaries.
abbrev pub counting : (Name → Name) → List (Name × ℤ) → GenerationCollector → GenerationCollector
counting trim us c = record c { registry = add_all trim us c.registry }

-- A run that the counters take part in, at an epoch that is new to them and with no boundary of
-- their own for its opening yet. Each phase of the run controller has the counters as its only
-- collector, no deadline of a phase ends, and between the two boundaries names are counted and
-- nothing else is done to the collector. Then both phases leave
-- the run valid and hand the counters' handle over, and what is drained and collected from the
-- closing one is exactly what was counted between the two boundaries, as if it had been counted
-- from nothing.
pub run_generation_phase-counters :
    (trim : Name → Name) (encode : Frozen → ℕ) (reg : Registration) (c : GenerationCollector)
    (run_id : String) (ep : Epoch) (now later : Time) (us : List (Name × ℤ))
    → ltb c.epoch ep ≡ true
    → result_of record { run_id = run_id; epoch = ep; phase = start_boundary } c.results ≡ none
    → let s =
        run_generation_phase start_boundary run_id ep
          (λ i. none)
          (registered reg encode c now ∷ []) in
      let opened = begin_boundary c run_id ep now in
      let counted = counting trim us opened.0 in
      let f =
        run_generation_phase finish_freeze run_id ep
          (λ i. none)
          (registered reg encode counted later ∷ []) in
      let closed = freeze counted run_id ep later in
      let h = closed.1.handle in
      let all = add_all trim us new_registry in
      (s.validity ≡ valid)
      × (s.handles ≡ opened.1.handle ∷ [])
      × (f.validity ≡ valid)
      × (f.handles ≡ h ∷ [])
      × (collect (drain closed.0 false h).0 h
          ≡ gives record { entries = sorted_entries all.counts; dropped = all.dropped })
run_generation_phase-counters trim encode reg c run_id ep now later us newer fresh =
    let key : BoundaryKey = record { run_id = run_id; epoch = ep; phase = start_boundary } in
    let last : BoundaryKey = record { run_id = run_id; epoch = ep; phase = finish_freeze } in
    let not_older : ltb ep c.epoch ≡ false = ground (arith, newer) in
    let (v, w) = opens reg encode c run_id ep now not_older fresh in
    let t = taken c key now not_older fresh in
    let counted = counting trim us (begin_boundary c run_id ep now).0 in
    let epochs : counted.epoch ≡ ep = ap (λ b. b.0.epoch) t in
    let same : ltb ep counted.epoch ≡ false = rw epochs (ground arith) in
    let unseen : result_of last counted.results ≡ none =
      ap (λ b. result_of last b.0.results) t ∙ rw (phases_differ run_id ep, newer) refl in
    let (x, y) = closes reg encode counted run_id ep later same unseen in
    let table : counted.registry ≡ add_all trim us new_registry =
      ap (λ b. add_all trim us b.0.registry) t in
    let got = (collect-boundary trim counted last later [] [] same unseen tt tt).2 in
    (
      v,
      w,
      x,
      y,
      got ∙ ap (λ r. gives record { entries = sorted_entries r.counts; dropped = r.dropped }) table,
    )
