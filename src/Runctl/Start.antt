-- ===== src/Runctl/Start.antt =====
-- internal/runctl/start.go: StartRun in its critical sections.
use isutools.Prelude.{
  ℕ, ◌+◌, Bool, true, false, String, List, [], ◌∷◌, ◌++◌, Option, none, some, if◌then◌else◌,
}
use isutools.Runctl.Types.{
  RunState, starting, started, finishing, finished, acknowledged, aborting, aborted, expired,
  Validity, invalid, worse, start_boundary, start_baseline, Failure, RunError, run_active,
  run_transitioning, run_aborted, unknown_run, Epoch, Time, required_failed, GenerationHandle,
  BaselineHandle, HealthEvent, RunTerminationEvent, CollectorBoundary,
}
use isutools.Runctl.Budget.{nanos}
use isutools.Runctl.Window.{compute_window, keep_generation, apply_spread}
use isutools.Runctl.Phase.{Outcome, run_generation_phase, run_baseline_phase}
use isutools.Runctl.Records.{
  StartRunOptions, StartResult, RunSlot, new_slot, begin_owner, seal, cancel,
}
use isutools.Runctl.Controller.{
  Controller, update, commit, leave, current, slot_by_nonce, add_slot, remember_nonce, lookup_nonce,
}
use isutools.Runctl.Release.{
  committed_names, release_generation, release_baseline, drain_and_release,
}
use isutools.Runctl.Abort.{abort_result}

-- The conclusion about a request: it starts, after the abort or the acknowledgement of the run
-- that is named; it gets an earlier result again; it waits for a slot's change; or it fails.
pub data StartPlan : Type 0 where
  proceed : Option RunSlot → Option RunSlot → StartPlan
  replay : StartResult → StartPlan
  wait : Epoch → ℕ → StartPlan
  fail : RunError → StartPlan

unfoldable pub plan_by_nonce : RunState → RunSlot → Option StartPlan
plan_by_nonce starting s = some (wait s.epoch s.changed)
plan_by_nonce started s = some (replay s.start)
plan_by_nonce finishing s = some (replay s.start)
plan_by_nonce finished s = some (replay s.start)
plan_by_nonce acknowledged s = some (replay s.start)
plan_by_nonce aborting s = some (fail run_transitioning)
plan_by_nonce aborted s = some (fail run_aborted)
plan_by_nonce expired s = some (fail unknown_run)
plan_by_nonce _ s = none

-- What the newest run allows; `preempt` is the caller's option.
unfoldable pub plan_by_current : RunState → Bool → RunSlot → StartPlan
plan_by_current starting preempt s = if preempt then proceed (some s) none else fail run_active
plan_by_current started preempt s = if preempt then proceed (some s) none else fail run_active
plan_by_current finishing preempt s = if preempt then proceed (some s) none else fail run_active
plan_by_current aborting preempt s = if preempt then wait s.epoch s.changed else fail run_active
plan_by_current finished preempt s = if preempt then proceed none (some s) else fail run_active
plan_by_current _ preempt s = proceed none none

abbrev plan_for_current : Bool → Option RunSlot → StartPlan
plan_for_current preempt none = proceed none none
plan_for_current preempt (some s) = plan_by_current s.state preempt s

abbrev plan_after_slots : Controller → Time → StartRunOptions → StartPlan
plan_after_slots c now o = elim (lookup_nonce c.budgets now o.nonce c.nonces) [
  | some r ↦ replay r
  | none ↦ plan_for_current o.preempt (current c.slots)
]

abbrev or_else : Option StartPlan → StartPlan → StartPlan
or_else none p = p
or_else (some q) p = q

unfoldable pub plan_start : Controller → Time → StartRunOptions → StartPlan
unfolding plan_by_nonce plan_by_current
plan_start c now o = elim (slot_by_nonce o.nonce c.slots) [
  | none ↦ plan_after_slots c now o
  | some s ↦ or_else (plan_by_nonce s.state s) (plan_after_slots c now o)
]

-- A new run takes the next epoch and its slot.
unfoldable pub begin_open : Controller → Time → String → String → String → Controller
begin_open c now run_id nonce trigger = record c {
  epoch = c.epoch + 1;
  slots = add_slot (new_slot run_id nonce (c.epoch + 1) trigger now) c.slots;
}

-- What the deadlines of one boundary say, collector by collector.
pub record Deadlines : Type 0 where
  pub gen_expired : ℕ → Option Failure
  pub base_semaphore : ℕ → Option Failure
  pub base_expired : ℕ → Option Failure

-- A boundary as both phases leave it, judged.
pub record Boundary : Type 0 where
  pub collectors : List CollectorBoundary
  pub validity : Validity
  pub gen : List GenerationHandle
  pub base : List BaselineHandle
  pub health : List HealthEvent

-- The two phases of a boundary, joined and judged by their spread.
abbrev pub join_phases :
    Controller → String → Outcome GenerationHandle → Outcome BaselineHandle → Boundary
join_phases c run_id g b =
    let spread =
      apply_spread (nanos c.budgets.spread_generation) (nanos c.budgets.spread_boundary) run_id
        (g.boundaries ++ b.boundaries) in
    record {
      collectors = spread.boundaries;
      validity = worse (worse g.validity b.validity) spread.validity;
      gen = g.handles;
      base = b.handles;
      health = (g.health ++ b.health) ++ spread.health;
    }

unfoldable pub opening : Controller → String → Epoch → Deadlines → Boundary
opening c run_id ep d =
    join_phases c run_id (run_generation_phase start_boundary run_id ep d.gen_expired c.gens)
      (run_baseline_phase start_baseline run_id ep d.base_semaphore d.base_expired c.bases)

abbrev pub is_invalid : Validity → Bool
is_invalid invalid = true
is_invalid _ = false

abbrev pub state_after_opening : Validity → RunState
state_after_opening v = if is_invalid v then aborted else started

unfoldable pub start_result : String → String → Epoch → String → Time → Boundary → StartResult
start_result run_id nonce ep preempted started_at b = record {
  run_id = run_id;
  nonce = nonce;
  epoch = ep;
  state = state_after_opening b.validity;
  validity = b.validity;
  collectors = b.collectors;
  generation_window = compute_window b.collectors (some keep_generation);
  boundary_window = compute_window b.collectors none;
  preempted_run_id = preempted;
  started_at = started_at;
}

abbrev is_nil : List GenerationHandle → Bool
is_nil [] = true
is_nil (h ∷ hs) = false

-- The change of the slot that an opening boundary commits. An invalid one abandons the run and
-- leaves its handles to a worker; another one may have older generations to drain.
abbrev pub open_slot : Time → StartResult → Boundary → RunSlot → RunSlot
open_slot now res b s =
    let s' = record s {
      start = res;
      validity = b.validity;
      gen = b.gen;
      base = b.base;
      since = now;
      state = res.state;
    } in
    if is_invalid b.validity
    then seal (
        begin_owner (record s' {
          reason = required_failed;
          abort =
              abort_result res.run_id res.epoch required_failed false now
                (committed_names b.collectors);
        }))
    else if is_nil b.gen
    then s'
    else begin_owner s'

abbrev pub required_failed_event : StartResult → RunTerminationEvent
required_failed_event res = record {
  run_id = res.run_id;
  epoch = res.epoch;
  state = aborted;
  validity = invalid;
  reason = required_failed;
  boundary_at = res.started_at;
}

-- The commit of an opening boundary, and what the caller does after it but for leaving the run.
-- Where the fence rejects it, the handles are released and the answer is that the run was aborted.
unfoldable pub start_commit : Controller → Time → StartResult → Boundary → Controller × Bool
start_commit c now res b =
    let ep = res.epoch in
    let c₀ = record c { health = c.health ++ b.health } in
    let (c₁, passed) = commit c₀ ep (open_slot now res b) in
    if passed
    then (
      record c₁ {
        nonces = remember_nonce now res.nonce res c.nonces;
        terminations =
            if is_invalid b.validity
            then c.terminations ++ required_failed_event res ∷ []
            else c.terminations;
      },
      true,
    )
    else (release_baseline (release_generation c₁ b.gen) b.base, false)

-- The worker that settles the generations that the opening boundary closed.
unfoldable pub start_drain_worker : Controller → Epoch → List GenerationHandle → Controller
start_drain_worker c ep handles =
    let (c', passed) = commit (drain_and_release c handles) ep (λ s. record s { gen = [] }) in
    leave c' ep

-- The worker that cleans up after an opening boundary that failed.
unfoldable pub discard_worker :
    Controller → Epoch → List GenerationHandle → List BaselineHandle → Controller
discard_worker c ep gen base =
    let (c', passed) =
      commit (release_baseline (drain_and_release c gen) base) ep
        (λ s. record s { gen = []; base = [] }) in
    leave (record c' { slots = update ep cancel c'.slots }) ep
