-- ===== src/Runctl/Phase.antt =====
-- internal/runctl/phase.go, collector.go and safecall.go: one boundary step over all collectors.
-- A collector is known by what its calls return, and the deadline of a phase by the answers of
-- `phaseCtx.Err()`, which are arguments.
pub mod Contract
pub mod Single
pub mod Baseline
use isutools.Prelude.{
  ℕ, zero, suc, Bool, true, false, not, ◌&&◌, String, List, [], ◌∷◌, ◌++◌, Option, none, some,
  cons?, if◌then◌else◌,
}
use isutools.Runctl.Types.{
  Validity, valid, invalid, worse, fail_validity, Phase, start_boundary, start_baseline, Kind,
  generation, baseline, Code, success, not_captured, boundary_failed, contract_violation, Failure,
  panicked, deadline, failed, message, is_panic, Epoch, GenerationHandle, BaselineHandle,
  is_zero_handle, BoundaryResult, SampleResult, CollectorBoundary, Registration, HealthEvent,
  health_contract_violation,
}

-- What one call of a collector does: it returns a value and perhaps an error, or it panics, with
-- the text that a recovered panic is reported by.
pub data Call {ℓ} (A : Type ℓ) : Type ℓ where
  returns : A → Option Failure → Call A
  panics : String → Call A

-- A panic becomes an error, and the zero value stands for the result.
abbrev pub safe_result {ℓ} : {A : Type ℓ} → A → Call A → A × Option Failure
safe_result zero_value (returns a e) = (a, e)
safe_result zero_value (panics text) = (zero_value, some (panicked text))

abbrev pub safe_err : Call (Unit {0}) → Option Failure
safe_err (returns a e) = e
safe_err (panics text) = some (panicked text)

pub record RegisteredGeneration : Type 0 where
  pub reg : Registration
  pub begin_boundary : String → Epoch → Call BoundaryResult
  pub freeze : String → Epoch → Call BoundaryResult
  pub drain : GenerationHandle → Call (Unit {0})
  pub collect : GenerationHandle → Call ℕ
  pub release : GenerationHandle → Call (Unit {0})

pub record RegisteredBaseline : Type 0 where
  pub reg : Registration
  pub capture_baseline : String → Epoch → Call SampleResult
  pub capture_final : String → Epoch → Call SampleResult
  pub collect : BaselineHandle → BaselineHandle → Call ℕ
  pub release : BaselineHandle → Call (Unit {0})

abbrev pub zero_generation_handle : GenerationHandle
zero_generation_handle = record { run_id = ""; epoch = 0; collector = ""; gen = 0; token = none }

abbrev pub zero_baseline_handle : BaselineHandle
zero_baseline_handle = record {
  run_id = "";
  epoch = 0;
  collector = "";
  phase = start_baseline;
  sampled_at = 0;
  sample = none;
}

abbrev pub zero_boundary : BoundaryResult
zero_boundary = record { handle = zero_generation_handle; at = 0; committed = false }

abbrev pub zero_sample : SampleResult
zero_sample = record { handle = zero_baseline_handle; at = 0; committed = false }

-- The record of a collector that nothing has been said about yet.
abbrev pub blank : Kind → Phase → Registration → CollectorBoundary
blank kind phase reg = record {
  name = reg.name;
  kind = kind;
  required = reg.required;
  phase = phase;
  at = 0;
  committed = false;
  code = success;
  err = "";
  dropped = false;
}

abbrev pub violation : String → String → HealthEvent
violation run_id name = record {
  key = health_contract_violation;
  run_id = run_id;
  subjects = name ∷ [];
}

-- What one turn of a phase's loop contributes; `degrade` is the argument of its call of `worse`.
pub record Turn (H : Type 0) : Type 0 where
  pub boundary : CollectorBoundary
  pub handle : Option H
  pub degrade : Option Validity
  pub health : List HealthEvent

abbrev pub is_start : Phase → Bool
is_start start_boundary = true
is_start _ = false

-- Whether a failed generation boundary loses its section.
abbrev pub dropped_on_generation_error : Phase → Bool → Bool
dropped_on_generation_error phase committed = if is_start phase then true else not committed

abbrev pub generation_call : Phase → RegisteredGeneration → String → Epoch → Call BoundaryResult
generation_call phase rc run_id ep =
    if is_start phase then rc.begin_boundary run_id ep else rc.freeze run_id ep

-- The classification of a generation collector's answer.
generation_answer :
    Phase → String → Registration → BoundaryResult → Option Failure → Turn GenerationHandle
generation_answer phase run_id reg res none =
    let b = record (blank generation phase reg) { at = res.at; committed = res.committed } in
    if res.committed
    then record { boundary = b; handle = some res.handle; degrade = none; health = [] }
    else record {
      boundary = record b {
        code = contract_violation;
        err = "collector reported success without committing the boundary";
        dropped = true;
      };
      handle = none;
      degrade = some invalid;
      health = violation run_id reg.name ∷ [];
    }
generation_answer phase run_id reg res (some e) =
    let b = record (blank generation phase reg) { at = res.at; committed = res.committed } in
    record {
      boundary = record b {
        code = if is_panic e then contract_violation else boundary_failed;
        err = message e;
        dropped = dropped_on_generation_error phase res.committed;
      };
      handle = if res.committed then some res.handle else none;
      degrade = some (fail_validity reg.required);
      health = if is_panic e then violation run_id reg.name ∷ [] else [];
    }

-- One turn: `ctx` is what `phaseCtx.Err()` says when the loop comes to the collector.
unfoldable pub generation_turn :
    Phase → String → Epoch → Option Failure → RegisteredGeneration → Turn GenerationHandle
unfolding generation_answer
generation_turn phase run_id ep (some e) rc = record {
  boundary = record (blank generation phase rc.reg) {
    code = not_captured;
    err = message e;
    dropped = true;
  };
  handle = none;
  degrade = some (fail_validity rc.reg.required);
  health = [];
}
generation_turn phase run_id ep none rc =
    let (res, e) = safe_result zero_boundary (generation_call phase rc run_id ep) in
    generation_answer phase run_id rc.reg res e

pub record Outcome (H : Type 0) : Type 0 where
  pub boundaries : List CollectorBoundary
  pub handles : List H
  pub validity : Validity
  pub health : List HealthEvent

abbrev pub empty_outcome : {H : Type 0} → Outcome H
empty_outcome = record { boundaries = []; handles = []; validity = valid; health = [] }

abbrev pub degraded : Validity → Option Validity → Validity
degraded v none = v
degraded v (some w) = worse v w

abbrev pub add_turn : {H : Type 0} → Outcome H → Turn H → Outcome H
add_turn out t = record {
  boundaries = out.boundaries ++ t.boundary ∷ [];
  handles = out.handles ++ cons? t.handle [];
  validity = degraded out.validity t.degrade;
  health = out.health ++ t.health;
}

-- The loop over the turns of a phase.
unfoldable pub add_turns : {H : Type 0} → Outcome H → List (Turn H) → Outcome H
add_turns out [] = out
add_turns out (t ∷ ts) = add_turns (add_turn out t) ts

-- The turns in registration order; `expired i` answers for the i-th collector.
unfoldable pub generation_turns :
    Phase
    → String
    → Epoch
    → (ℕ → Option Failure)
    → List RegisteredGeneration
    → List (Turn GenerationHandle)
generation_turns phase run_id ep expired [] = []
generation_turns phase run_id ep expired (rc ∷ rcs) =
    generation_turn phase run_id ep (expired 0) rc
    ∷ generation_turns phase run_id ep (λ i. expired (suc i)) rcs

unfoldable pub run_generation_phase :
    Phase
    → String
    → Epoch
    → (ℕ → Option Failure)
    → List RegisteredGeneration
    → Outcome GenerationHandle
run_generation_phase phase run_id ep expired regs =
    add_turns empty_outcome (generation_turns phase run_id ep expired regs)

-- The record of a collector that the phase budget never reached.
abbrev pub not_captured_boundary : Registration → Phase → Failure → CollectorBoundary
not_captured_boundary reg phase e = record (blank baseline phase reg) {
  code = not_captured;
  dropped = true;
  err = message e;
}

abbrev pub not_captured_turn : Registration → Phase → Failure → Turn BaselineHandle
not_captured_turn reg phase e = record {
  boundary = not_captured_boundary reg phase e;
  handle = none;
  degrade = some (fail_validity reg.required);
  health = [];
}

abbrev pub failure_code : Failure → Code
failure_code (panicked s) = contract_violation
failure_code (deadline s) = not_captured
failure_code (failed s) = boundary_failed

baseline_answer :
    Phase → String → Registration → SampleResult → Option Failure → Turn BaselineHandle
baseline_answer phase run_id reg res none =
    let b = record (blank baseline phase reg) { at = res.at; committed = res.committed } in
    if res.committed
    then record { boundary = b; handle = some res.handle; degrade = some valid; health = [] }
    else record {
      boundary = record b {
        code = contract_violation;
        err = "collector reported success without committing the sample";
        dropped = true;
      };
      handle = none;
      degrade = some invalid;
      health = violation run_id reg.name ∷ [];
    }
baseline_answer phase run_id reg res (some e) =
    let b = record (blank baseline phase reg) { at = res.at; committed = res.committed } in
    record {
      boundary = record b { code = failure_code e; err = message e; dropped = true };
      handle = if res.committed && not (is_zero_handle res.handle) then some res.handle else none;
      degrade = some (fail_validity reg.required);
      health = if is_panic e then violation run_id reg.name ∷ [] else [];
    }

abbrev pub is_start_baseline : Phase → Bool
is_start_baseline start_baseline = true
is_start_baseline _ = false

abbrev pub baseline_call : Phase → RegisteredBaseline → String → Epoch → Call SampleResult
baseline_call phase rc run_id ep =
    if is_start_baseline phase then rc.capture_baseline run_id ep else rc.capture_final run_id ep

unfoldable pub capture_baseline :
    Phase → String → Epoch → Option Failure → RegisteredBaseline → Turn BaselineHandle
unfolding baseline_answer
capture_baseline phase run_id ep (some e) rc = not_captured_turn rc.reg phase e
capture_baseline phase run_id ep none rc =
    let (res, e) = safe_result zero_sample (baseline_call phase rc run_id ep) in
    baseline_answer phase run_id rc.reg res e

-- One result slot: a parallel collector may lose its wait for the semaphore to the deadline.
unfoldable pub baseline_turn :
    Phase
    → String
    → Epoch
    → Option Failure
    → Option Failure
    → RegisteredBaseline
    → Turn BaselineHandle
unfolding capture_baseline
baseline_turn phase run_id ep semaphore ctx rc =
    if rc.reg.serial_only then capture_baseline phase run_id ep ctx rc else elim semaphore [
      | some e ↦ not_captured_turn rc.reg phase e
      | none ↦ capture_baseline phase run_id ep ctx rc
    ]

-- The result slots in registration order; which capture ran when does not show in them.
unfoldable pub baseline_turns :
    Phase
    → String
    → Epoch
    → (ℕ → Option Failure)
    → (ℕ → Option Failure)
    → List RegisteredBaseline
    → List (Turn BaselineHandle)
baseline_turns phase run_id ep semaphore expired [] = []
baseline_turns phase run_id ep semaphore expired (rc ∷ rcs) =
    baseline_turn phase run_id ep (semaphore 0) (expired 0) rc
    ∷ baseline_turns phase run_id ep (λ i. semaphore (suc i)) (λ i. expired (suc i)) rcs

unfoldable pub run_baseline_phase :
    Phase
    → String
    → Epoch
    → (ℕ → Option Failure)
    → (ℕ → Option Failure)
    → List RegisteredBaseline
    → Outcome BaselineHandle
run_baseline_phase phase run_id ep semaphore expired regs =
    add_turns empty_outcome (baseline_turns phase run_id ep semaphore expired regs)
