-- ===== src/Counters/Collector.antt =====
-- counters/generation.go: the generations of the counters for the run controller.
-- A generation's token is its place in the collector's store, and any other token is a foreign one.
-- The clock is an argument. The channel `done` is whether it is closed.
use isutools.Prelude.{
  ℕ, zero, suc, ◌+◌, String, Bool, true, false, not, ◌&&◌, List, [], ◌∷◌, ◌++◌, Option, none, some,
  length, ltb, ◌==◌, if◌then◌else◌, str_eq,
}
use isutools.Runctl.Types.{
  Epoch, Time, Phase, start_boundary, start_baseline, finish_freeze, finish_final,
  collect as collect_phase, GenerationHandle, BoundaryResult,
}
use isutools.Runctl.Phase.{zero_boundary}
use isutools.Counters.{Entry, Counts, Registry, sorted_entries, rotate}

pub record Frozen : Type 0 where
  pub entries : List Entry
  pub dropped : ℕ

pub data CountersError : Type 0 where
  foreign_handle handle_released not_drained not_materialised stale_epoch : CountersError

pub data Answer (A : Type 0) : Type 0 where
  gives : A → Answer A
  fails : CountersError → Answer A

pub record CountersGeneration : Type 0 where
  pub gen : ℕ
  pub done : Bool
  pub counts : Counts
  pub dropped : ℕ
  pub frozen : Frozen
  pub settled : Bool
  pub released : Bool

pub record BoundaryKey : Type 0 where
  pub run_id : String
  pub epoch : Epoch
  pub phase : Phase

pub record GenerationCollector : Type 0 where
  pub registry : Registry
  pub epoch : Epoch
  pub gen : ℕ
  pub results : List (BoundaryKey × BoundaryResult)
  pub generations : List CountersGeneration

-- Go's `counters` is the name of the section.
abbrev pub new_collector : Registry → GenerationCollector
new_collector r = record { registry = r; epoch = 0; gen = 0; results = []; generations = [] }

abbrev pub phase_code : Phase → ℕ
phase_code start_boundary = 0
phase_code start_baseline = 1
phase_code finish_freeze = 2
phase_code finish_final = 3
phase_code collect_phase = 4

abbrev pub same_key : BoundaryKey → BoundaryKey → Bool
same_key a b =
    str_eq a.run_id b.run_id && a.epoch == b.epoch && phase_code a.phase == phase_code b.phase

abbrev pub result_of : BoundaryKey → List (BoundaryKey × BoundaryResult) → Option BoundaryResult
result_of k [] = none
result_of k ((j, r) ∷ rs) = if same_key j k then some r else result_of k rs

abbrev pub no_entries : Frozen
no_entries = record { entries = []; dropped = 0 }

abbrev pub closed_table : ℕ → Counts → ℕ → CountersGeneration
closed_table gen counts dropped = record {
  gen = gen;
  done = false;
  counts = counts;
  dropped = dropped;
  frozen = no_entries;
  settled = false;
  released = false;
}

-- The result of a boundary that closes the table at a place.
abbrev pub committed_result : BoundaryKey → ℕ → ℕ → Time → BoundaryResult
committed_result key gen place now = record {
  handle = record {
    run_id = key.run_id;
    epoch = key.epoch;
    collector = "counters";
    gen = gen;
    token = some place;
  };
  at = now;
  committed = true;
}

-- A boundary whose key has that recorded result.
abbrev pub boundary_found :
    GenerationCollector
    → BoundaryKey
    → Time
    → Option BoundaryResult
    → GenerationCollector × BoundaryResult × Option CountersError
boundary_found c key now (some r) = (c, r, none)
boundary_found c key now none =
    let (empty, counts, dropped) = rotate c.registry in
    let result = committed_result key c.gen (length c.generations) now in
    (
      record {
        registry = empty;
        epoch = key.epoch;
        gen = c.gen + 1;
        results = (key, result) ∷ (if ltb c.epoch key.epoch then [] else c.results);
        generations = c.generations ++ closed_table c.gen counts dropped ∷ [];
      },
      result,
      none,
    )

-- BeginBoundary and Freeze, by the phase, with the time that the clock tells.
abbrev pub boundary :
    GenerationCollector
    → String
    → Epoch
    → Phase
    → Time
    → GenerationCollector × BoundaryResult × Option CountersError
boundary c run_id ep phase now =
    let key : BoundaryKey = record { run_id = run_id; epoch = ep; phase = phase } in
    if ltb ep c.epoch
    then (c, record zero_boundary { at = now }, some stale_epoch)
    else boundary_found c key now (result_of key c.results)

abbrev pub begin_boundary :
    GenerationCollector
    → String
    → Epoch
    → Time
    → GenerationCollector × BoundaryResult × Option CountersError
begin_boundary c run_id ep now = boundary c run_id ep start_boundary now

abbrev pub freeze :
    GenerationCollector
    → String
    → Epoch
    → Time
    → GenerationCollector × BoundaryResult × Option CountersError
freeze c run_id ep now = boundary c run_id ep finish_freeze now

abbrev pub at_place : ℕ → List CountersGeneration → Option CountersGeneration
at_place i [] = none
at_place zero (g ∷ gs) = some g
at_place (suc i) (g ∷ gs) = at_place i gs

abbrev pub change_at :
    ℕ
    → (CountersGeneration → CountersGeneration)
    → List CountersGeneration
    → List CountersGeneration
change_at i f [] = []
change_at zero f (g ∷ gs) = f g ∷ gs
change_at (suc i) f (g ∷ gs) = g ∷ change_at i f gs

abbrev pub with_place : ℕ → Option CountersGeneration → Option (ℕ × CountersGeneration)
with_place i none = none
with_place i (some g) = some (i, g)

abbrev pub generation_at : List CountersGeneration → Option ℕ → Option (ℕ × CountersGeneration)
generation_at gs none = none
generation_at gs (some i) = with_place i (at_place i gs)

-- The place and the generation of a handle; none is the error of a foreign handle. The source tells
-- a foreign handle by its owner; here the handles are those of this collector, whose tokens are
-- places in its store, and a foreign one is a token that is no such place.
abbrev pub generation_for : GenerationCollector → GenerationHandle → Option (ℕ × CountersGeneration)
generation_for c h = generation_at c.generations h.token

abbrev pub settle : CountersGeneration → CountersGeneration
settle g =
    if not g.settled && not g.released
    then record g {
      frozen = record { entries = sorted_entries g.counts; dropped = g.dropped };
      counts = [];
      settled = true;
      done = true;
    }
    else record g { done = true }

abbrev pub put_generation :
    GenerationCollector → ℕ → (CountersGeneration → CountersGeneration) → GenerationCollector
put_generation c i f = record c { generations = change_at i f c.generations }

-- Drain, with whether the context has ended.
abbrev pub drain_found :
    GenerationCollector
    → Bool
    → Option (ℕ × CountersGeneration)
    → GenerationCollector × Option CountersError
drain_found c ended none = (c, some foreign_handle)
drain_found c ended (some (i, g)) =
    if g.done
    then (c, none)
    else if ended
    then (c, some not_materialised)
    else (put_generation c i settle, none)

abbrev pub drain :
    GenerationCollector → Bool → GenerationHandle → GenerationCollector × Option CountersError
drain c ended h = drain_found c ended (generation_for c h)

abbrev pub collect_found : Option (ℕ × CountersGeneration) → Answer Frozen
collect_found none = fails foreign_handle
collect_found (some (i, g)) =
    if g.released
    then fails handle_released
    else if not g.settled
    then fails not_drained
    else gives g.frozen

abbrev pub collect : GenerationCollector → GenerationHandle → Answer Frozen
collect c h = collect_found (generation_for c h)

abbrev pub let_go : CountersGeneration → CountersGeneration
let_go g =
    if g.released
    then g
    else record g { released = true; counts = []; frozen = no_entries; done = true }

abbrev pub release_found :
    GenerationCollector → Option (ℕ × CountersGeneration) → GenerationCollector
release_found c none = c
release_found c (some (i, g)) = put_generation c i let_go

abbrev pub release : GenerationCollector → GenerationHandle → GenerationCollector
release c h = release_found c (generation_for c h)
