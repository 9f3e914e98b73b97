-- ===== src/Runctl/Records.antt =====
-- internal/runctl/types.go and controller.go: a run's records and its mutable slot.
-- A slot is pointed to by its epoch, which no other slot of a controller has. A channel that is
-- closed and replaced is a number that grows, and one that is closed once is a Boolean. A slice
-- that is copied before it is handed out is a value here, so the copies need no model.
use isutools.Prelude.{
  ℕ, ◌+◌, Bool, true, false, String, List, [], Option, none, leb, ◌&&◌, ◌||◌, ◌-◌,
}
use isutools.Runctl.Types.{
  RunState, starting, Validity, unset, valid, Epoch, Time, Reason, unstated, GenerationHandle,
  BaselineHandle, BoundaryWindow, CollectorBoundary,
}

pub record StartRunOptions : Type 0 where
  pub nonce : String
  pub preempt : Bool
  pub reason : String
  pub trigger : String

pub record StartResult : Type 0 where
  pub run_id : String
  pub nonce : String
  pub epoch : Epoch
  pub state : RunState
  pub validity : Validity
  pub collectors : List CollectorBoundary
  pub generation_window : BoundaryWindow
  pub boundary_window : BoundaryWindow
  pub preempted_run_id : String
  pub started_at : Time

pub record FinishAccepted : Type 0 where
  pub run_id : String
  pub epoch : Epoch
  pub validity : Validity
  pub collectors : List CollectorBoundary
  pub generation_window : BoundaryWindow
  pub boundary_window : BoundaryWindow
  pub accepted_at : Time

pub record AbortResult : Type 0 where
  pub run_id : String
  pub epoch : Epoch
  pub reason : Reason
  pub detached : Bool
  pub aborted_at : Time
  pub partial_names : List String

pub record RunStatus : Type 0 where
  pub run_id : String
  pub epoch : Epoch
  pub state : RunState
  pub validity : Validity
  pub reason : Reason
  pub acked_by : String
  pub detached : Bool
  pub since : Time

-- A section's value is known by a number.
pub record Snapshot : Type 0 where
  pub run_id : String
  pub epoch : Epoch
  pub validity : Validity
  pub trigger : String
  pub sections : List (String × ℕ)
  pub collectors : List CollectorBoundary
  pub generation_window : BoundaryWindow
  pub boundary_window : BoundaryWindow
  pub started_at : Time
  pub finished_at : Time

pub record RunSlot : Type 0 where
  pub run_id : String
  pub nonce : String
  pub epoch : Epoch
  pub state : RunState
  pub validity : Validity
  pub reason : Reason
  pub trigger : String
  pub acked_by : String
  pub detached : Bool
  pub since : Time
  pub cancelled : Bool
  pub lease : Time
  pub owners : ℕ
  pub sealed : Bool
  pub done : Bool
  pub changed : ℕ
  pub gen : List GenerationHandle
  pub gen_final : List GenerationHandle
  pub base : List BaselineHandle
  pub base_f : List BaselineHandle
  pub start : StartResult
  pub finish : FinishAccepted
  pub finish_set : Bool
  pub abort : AbortResult
  pub snapshot : Option Snapshot

abbrev pub zero_window : BoundaryWindow
zero_window = record { min_at = 0; max_at = 0; spread = 0 }

abbrev pub zero_start : StartResult
zero_start = record {
  run_id = "";
  nonce = "";
  epoch = 0;
  state = RunState.idle;
  validity = unset;
  collectors = [];
  generation_window = zero_window;
  boundary_window = zero_window;
  preempted_run_id = "";
  started_at = 0;
}

abbrev pub zero_finish : FinishAccepted
zero_finish = record {
  run_id = "";
  epoch = 0;
  validity = unset;
  collectors = [];
  generation_window = zero_window;
  boundary_window = zero_window;
  accepted_at = 0;
}

abbrev pub zero_abort : AbortResult
zero_abort = record {
  run_id = "";
  epoch = 0;
  reason = unstated;
  detached = false;
  aborted_at = 0;
  partial_names = [];
}

-- The slot of a run whose opening boundary begins: its one owner is the caller of StartRun.
abbrev pub new_slot : String → String → Epoch → String → Time → RunSlot
new_slot run_id nonce ep trigger now = record {
  run_id = run_id;
  nonce = nonce;
  epoch = ep;
  state = starting;
  validity = valid;
  reason = unstated;
  trigger = trigger;
  acked_by = "";
  detached = false;
  since = now;
  cancelled = false;
  lease = 0;
  owners = 1;
  sealed = false;
  done = false;
  changed = 0;
  gen = [];
  gen_final = [];
  base = [];
  base_f = [];
  start = zero_start;
  finish = zero_finish;
  finish_set = false;
  abort = zero_abort;
  snapshot = none;
}

-- Every waiter on the slot wakes.
abbrev pub notify : RunSlot → RunSlot
notify s = record s { changed = s.changed + 1 }

-- One more goroutine works for the run, or one less.
abbrev pub begin_owner : RunSlot → RunSlot
begin_owner s = record s { owners = s.owners + 1 }

abbrev pub end_owner : RunSlot → RunSlot
end_owner s = record s {
  owners = s.owners - 1;
  done = s.done || (leb (s.owners - 1) 0 && s.sealed);
}

-- The slot takes no further workers.
abbrev pub seal : RunSlot → RunSlot
seal s = record s { sealed = true; done = s.done || leb s.owners 0 }

abbrev pub cancel : RunSlot → RunSlot
cancel s = record s { cancelled = true }

abbrev pub status_of : RunSlot → RunStatus
status_of s = record {
  run_id = s.run_id;
  epoch = s.epoch;
  state = s.state;
  validity = s.validity;
  reason = s.reason;
  acked_by = s.acked_by;
  detached = s.detached;
  since = s.since;
}
