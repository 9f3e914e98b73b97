-- ===== src/Runctl/Abort.antt =====
-- internal/runctl/abort.go: AbortRun in its critical sections, and the reaper.
pub mod Handles
use isutools.Prelude.{
  ℕ, ◌+◌, Bool, false, String, List, [], ◌∷◌, ◌++◌, Option, none, some, if◌then◌else◌,
}
use isutools.Runctl.Types.{
  RunState, aborting, aborted, acknowledged, expired, invalid, Epoch, Time, Reason, or_explicit,
  GenerationHandle, BaselineHandle, health_worker_detached, RunTerminationEvent,
}
use isutools.Runctl.Records.{RunSlot, AbortResult, notify, seal, cancel}
use isutools.Runctl.Controller.{Controller, lookup, slot_at, update}
use isutools.Runctl.Release.{committed_names, release_generation, release_baseline}

abbrev pub abort_result : String → Epoch → Reason → Bool → Time → List String → AbortResult
abort_result run_id ep reason detached now names = record {
  run_id = run_id;
  epoch = ep;
  reason = reason;
  detached = detached;
  aborted_at = now;
  partial_names = names;
}

-- What the loop of AbortRun does when it holds the mutex: it has an answer, waits for another
-- abort to end, or has fenced the run, with the epoch and the names that it goes on with.
pub data AbortStep : Type 0 where
  answered : AbortResult → AbortStep
  joins : Epoch → ℕ → AbortStep
  fenced : Controller → Epoch → List String → AbortStep

abbrev pub fence_slot : Time → RunSlot → RunSlot
fence_slot now s = cancel (notify (seal (record s { state = aborting; since = now })))

abbrev pub termination_of_abort : RunSlot → Reason → Time → RunTerminationEvent
termination_of_abort s reason now = record {
  run_id = s.run_id;
  epoch = s.epoch;
  state = aborting;
  validity = invalid;
  reason = reason;
  boundary_at = now;
}

-- Step 1 and step 2: the fence, the event, and the cancellation of the run's context.
unfoldable pub fence : Controller → Time → RunSlot → Reason → Controller
fence c now s reason = record c {
  epoch = c.epoch + 1;
  slots = update s.epoch (fence_slot now) c.slots;
  terminations = c.terminations ++ termination_of_abort s reason now ∷ [];
}

abort_by_state : RunState → Controller → Time → RunSlot → Reason → AbortStep
abort_by_state aborted c now s reason = answered s.abort
abort_by_state acknowledged c now s reason =
    answered (abort_result s.run_id s.epoch reason false now [])
abort_by_state expired c now s reason = answered (abort_result s.run_id s.epoch reason false now [])
abort_by_state aborting c now s reason = joins s.epoch s.changed
abort_by_state _ c now s reason =
    fenced (fence c now s reason) s.epoch (committed_names s.start.collectors)

unfoldable pub abort_look : Controller → Time → String → Reason → AbortStep
unfolding abort_by_state
abort_look c now run_id r = elim (lookup run_id c.slots) [
  | none ↦ answered (abort_result run_id 0 (or_explicit r) false now [])
  | some s ↦ abort_by_state s.state c now s (or_explicit r)
]

abbrev pub settle_slot : Time → AbortResult → RunSlot → RunSlot
settle_slot now result s =
    let s' = record s {
      state = aborted;
      validity = invalid;
      reason = result.reason;
      detached = result.detached;
      since = now;
      lease = 0;
      snapshot = none;
      abort = result;
    } in
    notify (
      if result.detached
      then s'
      else record s' { gen = []; gen_final = []; base = []; base_f = [] })

abbrev pub slot_gen : Option RunSlot → List GenerationHandle
slot_gen none = []
slot_gen (some s) = s.gen ++ s.gen_final

abbrev pub slot_base : Option RunSlot → List BaselineHandle
slot_base none = []
slot_base (some s) = s.base ++ s.base_f

-- Steps 4 and 5, after the join of step 3 ended or, if `detached`, was given up.
unfoldable pub abort_settle :
    Controller → Time → String → Epoch → Reason → Bool → List String → Controller × AbortResult
abort_settle c now run_id ep reason detached names =
    let result = abort_result run_id ep reason detached now names in
    let s = slot_at ep c.slots in
    let c' = record c { slots = update ep (settle_slot now result) c.slots } in
    if detached
    then (
      record c' {
        health =
            c.health
            ++ record { key = health_worker_detached; run_id = run_id; subjects = [] } ∷ [];
      },
      result,
    )
    else (release_baseline (release_generation c' (slot_gen s)) (slot_base s), result)

-- The reaper, once the detached worker has left: it takes over what the slot still holds. The source
-- has a pointer to the slot; here the slot is found by its epoch, so this is the reaper of a slot
-- that is still kept, and what an evicted slot held is not followed.
unfoldable pub reap : Controller → Epoch → Controller
reap c ep =
    let s = slot_at ep c.slots in
    let c' = record c {
      slots =
          update ep (λ s. record s { gen = []; gen_final = []; base = []; base_f = [] }) c.slots;
    } in
    release_baseline (release_generation c' (slot_gen s)) (slot_base s)
