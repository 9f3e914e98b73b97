-- ===== src/Runctl/Finish.antt =====
-- internal/runctl/finish.go: FinishRun and its background worker.
pub mod Worker
pub mod Verdict
use isutools.Prelude.{
  ℕ, ◌+◌, Bool, true, false, List, ◌∷◌, [], ◌++◌, Option, none, some, String, if◌then◌else◌,
}
use isutools.Runctl.Types.{
  RunState, starting, started, finishing, finished, acknowledged, aborting, aborted, expired,
  Validity, worse, finish_freeze, finish_final, run_active, run_transitioning, run_aborted,
  unknown_run, ok, err, Epoch, Time, finish_accepted, GenerationHandle, BaselineHandle,
  RunTerminationEvent, termination_boundary, CollectorBoundary,
}
use isutools.Runctl.Budget.{nanos}
use isutools.Runctl.Window.{compute_window, keep_generation}
use isutools.Runctl.Phase.{run_generation_phase, run_baseline_phase}
use isutools.Runctl.Records.{RunSlot, FinishAccepted, notify, begin_owner}
use isutools.Runctl.Controller.{
  Controller, lookup, slot_at, update, blocked, commit, Look, answers, waits,
}
use isutools.Runctl.Release.{release_generation, release_baseline}
use isutools.Runctl.Start.{Deadlines, Boundary, join_phases}

-- What the loop of FinishRun does when it holds the mutex.
pub data FinishStep : Type 0 where
  looked : Look FinishAccepted → FinishStep
  freezes : Controller → Epoch → FinishStep

abbrev pub finishing_slot : Controller → Time → RunSlot → RunSlot
finishing_slot c now s = notify (
    begin_owner
      (record s { state = finishing; since = now; lease = now + nanos c.budgets.finish_lease }))

abbrev accepted_or_wait : RunSlot → FinishStep
accepted_or_wait s =
    looked (if s.finish_set then answers (ok s.finish) else waits s.epoch s.changed)

finish_by_state : RunState → Controller → Time → RunSlot → FinishStep
finish_by_state starting c now s = looked (answers (err run_transitioning))
finish_by_state aborting c now s = looked (answers (err run_aborted))
finish_by_state aborted c now s = looked (answers (err run_aborted))
finish_by_state expired c now s = looked (answers (err unknown_run))
finish_by_state finishing c now s = accepted_or_wait s
finish_by_state finished c now s = accepted_or_wait s
finish_by_state acknowledged c now s = accepted_or_wait s
finish_by_state _ c now s =
    freezes (record c { slots = update s.epoch (finishing_slot c now) c.slots }) s.epoch

unfoldable pub finish_look : Controller → Time → String → FinishStep
unfolding finish_by_state
finish_look c now run_id = elim (lookup run_id c.slots) [
  | none ↦ looked (answers (err (if blocked c.slots then run_active else unknown_run)))
  | some s ↦ finish_by_state s.state c now s
]

unfoldable pub closing : Controller → String → Epoch → Deadlines → Boundary
closing c run_id ep d =
    join_phases c run_id (run_generation_phase finish_freeze run_id ep d.gen_expired c.gens)
      (run_baseline_phase finish_final run_id ep d.base_semaphore d.base_expired c.bases)

unfoldable pub finish_record : String → Epoch → Time → Boundary → FinishAccepted
finish_record run_id ep now b = record {
  run_id = run_id;
  epoch = ep;
  validity = b.validity;
  collectors = b.collectors;
  generation_window = compute_window b.collectors (some keep_generation);
  boundary_window = compute_window b.collectors none;
  accepted_at = now;
}

-- What the background worker is handed, by value.
pub record FinishWork : Type 0 where
  pub run_id : String
  pub trigger : String
  pub started_at : Time
  pub validity : Validity
  pub boundaries : List CollectorBoundary
  pub gen_final : List GenerationHandle
  pub base_start : List BaselineHandle
  pub base_final : List BaselineHandle
  pub gen_start : List GenerationHandle

-- The change of the slot that a closing boundary commits; the worker becomes an owner.
abbrev pub closed_slot : Controller → Time → FinishAccepted → Boundary → RunSlot → RunSlot
closed_slot c now accepted b s = begin_owner (record s {
  finish = accepted;
  finish_set = true;
  validity = worse s.validity b.validity;
  gen_final = b.gen;
  base_f = b.base;
  lease = now + nanos c.budgets.finish_lease;
})

abbrev pub finish_work : Boundary → RunSlot → FinishWork
finish_work b s = record {
  run_id = s.run_id;
  trigger = s.trigger;
  started_at = s.start.started_at;
  validity = worse s.validity b.validity;
  boundaries = s.start.collectors ++ b.collectors;
  gen_final = b.gen;
  base_start = s.base;
  base_final = b.base;
  gen_start = s.gen;
}

abbrev pub finish_event : FinishAccepted → Validity → RunTerminationEvent
finish_event a start_validity = record {
  run_id = a.run_id;
  epoch = a.epoch;
  state = finishing;
  validity = worse start_validity a.validity;
  reason = finish_accepted;
  boundary_at = termination_boundary a.generation_window a.accepted_at;
}

-- The commit of a closing boundary, with the work of the worker that it starts. Where the fence
-- rejects it, the handles are released and the answer is that the run was aborted.
unfoldable pub finish_commit :
    Controller → Time → FinishAccepted → Boundary → Controller × Option FinishWork
finish_commit c now accepted b =
    let ep = accepted.epoch in
    let c₀ = record c { health = c.health ++ b.health } in
    let (c₁, passed) = commit c₀ ep (closed_slot c now accepted b) in
    let rejected = release_baseline (release_generation c₁ b.gen) b.base in
    if passed
    then elim (slot_at ep c.slots) [
      | none ↦ (c₁, none)
      | some s ↦ (
        record c₁ { terminations = c.terminations ++ finish_event accepted s.start.validity ∷ [] },
        some (finish_work b s),
      )
    ]
    else (rejected, none)
