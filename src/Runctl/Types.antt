-- ===== src/Runctl/Types.antt =====
-- internal/runctl/types.go and errors.go: states, verdicts, handles and records.
use isutools.Prelude.{
  ℕ, ◌-◌, min, Bool, true, false, not, ◌||◌, ◌&&◌, String, str_eq, List, Option, is_some, ltb, ◌==◌,
  if◌then◌else◌,
}

-- A run's position in the lifecycle.
pub data RunState : Type 0 where
  idle starting started finishing finished acknowledged aborting aborted expired : RunState

abbrev pub active : RunState → Bool
active starting = true
active started = true
active finishing = true
active aborting = true
active _ = false

abbrev pub is_finished : RunState → Bool
is_finished finished = true
is_finished _ = false

abbrev pub blocks_new_run : RunState → Bool
blocks_new_run s = active s || is_finished s

-- A run that may still give data: one that is being aborted keeps others out, but is over.
abbrev pub is_live : RunState → Bool
is_live starting = true
is_live started = true
is_live finishing = true
is_live finished = true
is_live _ = false

-- `unset` is Go's empty string.
pub data Validity : Type 0 where
  unset valid partial invalid : Validity

abbrev pub validity_rank : Validity → ℕ
validity_rank partial = 1
validity_rank invalid = 2
validity_rank _ = 0

abbrev pub or_valid : Validity → Validity
or_valid unset = valid
or_valid v = v

abbrev pub worse : Validity → Validity → Validity
worse a b = if ltb (validity_rank a) (validity_rank b) then b else or_valid a

abbrev pub fail_validity : Bool → Validity
fail_validity required = if required then invalid else partial

pub data Phase : Type 0 where
  start_boundary start_baseline finish_freeze finish_final collect : Phase

pub data Kind : Type 0 where
  generation baseline : Kind

-- The machine-readable failure codes; `success` is Go's empty code.
pub data Code : Type 0 where
  success not_captured drain_timeout collect_failed boundary_failed spread_exceeded
        contract_violation :
      Code

abbrev pub is_success : Code → Bool
is_success success = true
is_success _ = false

-- The sentinel errors of the package.
pub data RunError : Type 0 where
  run_active run_transitioning run_aborted unknown_run stale_epoch budget_inversion : RunError
  initialize_busy collector_registered invalid_registration : RunError
  -- The caller's context ended while the call waited.
  context_done : RunError

pub data Result {ℓ} (A : Type ℓ) : Type ℓ where
  ok : A → Result A
  err : RunError → Result A

-- How a collector's call failed: a recovered panic, a deadline or cancellation, or its own error.
pub data Failure : Type 0 where
  panicked : String → Failure
  deadline : String → Failure
  failed : String → Failure

abbrev pub message : Failure → String
message (panicked s) = s
message (deadline s) = s
message (failed s) = s

abbrev pub is_panic : Failure → Bool
is_panic (panicked s) = true
is_panic _ = false

-- Nanoseconds since Go's zero time, which is 0, and a span of nanoseconds.
abbrev pub Time : Type 0
Time = ℕ

abbrev pub Duration : Type 0
Duration = ℕ

abbrev pub Epoch : Type 0
Epoch = ℕ

abbrev pub is_zero : Time → Bool
is_zero t = t == 0

-- `t.Sub(u)` for u no later than t: Go cuts it at the longest duration.
abbrev pub max_duration : Duration
max_duration = 9223372036854775807

abbrev pub sub_time : Time → Time → Duration
sub_time t u = min (t - u) max_duration

-- An opaque value of a collector is known by a number.
pub record GenerationHandle : Type 0 where
  pub run_id : String
  pub epoch : Epoch
  pub collector : String
  pub gen : ℕ
  pub token : Option ℕ

pub record BaselineHandle : Type 0 where
  pub run_id : String
  pub epoch : Epoch
  pub collector : String
  pub phase : Phase
  pub sampled_at : Time
  pub sample : Option ℕ

abbrev pub is_zero_handle : BaselineHandle → Bool
is_zero_handle h = not (is_some h.sample) && str_eq h.collector ""

pub record BoundaryResult : Type 0 where
  pub handle : GenerationHandle
  pub at : Time
  pub committed : Bool

pub record SampleResult : Type 0 where
  pub handle : BaselineHandle
  pub at : Time
  pub committed : Bool

pub record BoundaryWindow : Type 0 where
  pub min_at : Time
  pub max_at : Time
  pub spread : Duration

pub record CollectorBoundary : Type 0 where
  pub name : String
  pub kind : Kind
  pub required : Bool
  pub phase : Phase
  pub at : Time
  pub committed : Bool
  pub code : Code
  pub err : String
  pub dropped : Bool

pub record Registration : Type 0 where
  pub name : String
  pub required : Bool
  pub serial_only : Bool

-- The health keys, with the run and the collectors that a report names.
pub data HealthKey : Type 0 where
  health_boundary_spread health_contract_violation health_worker_detached health_lease_expired :
      HealthKey

pub record HealthEvent : Type 0 where
  pub key : HealthKey
  pub run_id : String
  pub subjects : List String

-- Why a run ended.
pub data Reason : Type 0 where
  unstated explicit required_failed finish_lease_expired started_ttl hub_abort : Reason
  preempted_by : String → Reason
  finish_accepted : Reason
  custom : String → Reason

abbrev pub or_explicit : Reason → Reason
or_explicit unstated = explicit
or_explicit r = r

pub record RunTerminationEvent : Type 0 where
  pub run_id : String
  pub epoch : Epoch
  pub state : RunState
  pub validity : Validity
  pub reason : Reason
  pub boundary_at : Time

abbrev pub termination_boundary : BoundaryWindow → Time → Time
termination_boundary w fallback = if is_zero w.max_at then fallback else w.max_at
