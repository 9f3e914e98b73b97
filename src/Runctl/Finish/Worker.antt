-- ===== src/Runctl/Finish/Worker.antt =====
-- internal/runctl/finish.go: finishWorker drains, collects, enriches and publishes.
use isutools.Prelude.{
  ℕ, suc, true, String, str_eq, List, [], ◌∷◌, ◌++◌, Option, none, some, if◌then◌else◌,
}
use isutools.Runctl.Types.{
  finished, Validity, partial, worse, fail_validity, Kind, generation, baseline, collect,
  collect_failed, contract_violation, drain_timeout, Failure, message, is_panic, Epoch, Time,
  GenerationHandle, BaselineHandle, HealthEvent, Registration, CollectorBoundary,
}
use isutools.Runctl.Window.{compute_window, keep_generation, contains}
use isutools.Runctl.Phase.{
  RegisteredGeneration, RegisteredBaseline, Call, safe_result, safe_err, blank, violation,
}
use isutools.Runctl.Records.{RunSlot, Snapshot, seal, cancel}
use isutools.Runctl.Controller.{Controller, commit, publish}
use isutools.Runctl.Release.{
  generation_by_name, baseline_by_name, release_generation, release_baseline,
}
use isutools.Runctl.Finish.{FinishWork}

-- The worker's variables.
pub record Progress : Type 0 where
  pub boundaries : List CollectorBoundary
  pub dropped : List String
  pub validity : Validity
  pub sections : List (String × ℕ)
  pub health : List HealthEvent

abbrev pub dropped_names : List CollectorBoundary → List String
dropped_names [] = []
dropped_names (b ∷ bs) = let rest = dropped_names bs in if b.dropped then b.name ∷ rest else rest

abbrev pub start_progress : FinishWork → Progress
start_progress w = record {
  boundaries = w.boundaries;
  dropped = dropped_names w.boundaries;
  validity = w.validity;
  sections = [];
  health = [];
}

-- A section that could not be derived.
abbrev pub collect_failure : Registration → Kind → Failure → CollectorBoundary
collect_failure reg kind e = record (blank kind collect reg) {
  code = if is_panic e then contract_violation else collect_failed;
  err = message e;
  dropped = true;
}

-- The section is dropped and the run degraded; a panic is reported too.
abbrev pub fail_section : String → Registration → Kind → Failure → Progress → Progress
fail_section run_id reg kind e p = record p {
  boundaries = p.boundaries ++ collect_failure reg kind e ∷ [];
  dropped = reg.name ∷ p.dropped;
  validity = worse p.validity (fail_validity reg.required);
  health = p.health ++ (if is_panic e then violation run_id reg.name ∷ [] else []);
}

abbrev pub drain_late : Registration → Failure → Progress → Progress
drain_late reg e p = record p {
  boundaries =
      p.boundaries
      ++ record (blank generation collect reg) {
        committed = true;
        code = drain_timeout;
        err = message e;
      }
        ∷ [];
  validity = worse p.validity partial;
}

abbrev pub drain_answer : String → Registration → Option Failure → Progress → Progress
drain_answer run_id reg none p = p
drain_answer run_id reg (some e) p =
    if is_panic e then fail_section run_id reg generation e p else drain_late reg e p

unfoldable pub drain_one :
    List RegisteredGeneration → String → GenerationHandle → Progress → Progress
drain_one gens run_id h p = elim (generation_by_name gens h.collector) [
  | none ↦ p
  | some rc ↦ drain_answer run_id rc.reg (safe_err (rc.drain h)) p
]

unfoldable pub drain_all :
    List RegisteredGeneration → String → List GenerationHandle → Progress → Progress
drain_all gens run_id [] p = p
drain_all gens run_id (h ∷ hs) p = drain_all gens run_id hs (drain_one gens run_id h p)

-- A write of Go's map: the section replaces one of its name.
abbrev pub put : String → ℕ → List (String × ℕ) → List (String × ℕ)
put k v [] = (k, v) ∷ []
put k v ((j, w) ∷ m) = if str_eq j k then (k, v) ∷ m else (j, w) ∷ put k v m

-- A collector's answer, or that the build budget is gone before it is asked.
abbrev pub collected : Option Failure → Call ℕ → ℕ × Option Failure
collected (some e) call = (0, some e)
collected none call = safe_result 0 call

abbrev pub section_answer :
    String → Registration → Kind → String → ℕ × Option Failure → Progress → Progress
section_answer run_id reg kind name (v, none) p = record p { sections = put name v p.sections }
section_answer run_id reg kind name (v, some e) p = fail_section run_id reg kind e p

unfoldable pub collect_generation :
    List RegisteredGeneration → String → Option Failure → GenerationHandle → Progress → Progress
collect_generation gens run_id exhausted h p = elim (generation_by_name gens h.collector) [
  | none ↦ p
  | some rc ↦
      if contains h.collector p.dropped
      then p
      else section_answer run_id rc.reg generation h.collector (collected exhausted (rc.collect h))
          p
]

unfoldable pub collect_generations :
    List RegisteredGeneration
    → String
    → (ℕ → Option Failure)
    → List GenerationHandle
    → Progress
    → Progress
collect_generations gens run_id exhausted [] p = p
collect_generations gens run_id exhausted (h ∷ hs) p =
    collect_generations gens run_id (λ i. exhausted (suc i)) hs
      (collect_generation gens run_id (exhausted 0) h p)

-- The map of final samples keeps the last of each name.
unfoldable pub final_by_name : List BaselineHandle → String → Option BaselineHandle
final_by_name [] name = none
final_by_name (h ∷ hs) name =
    let rest = final_by_name hs name in
    elim rest [ some later ↦ some later | none ↦ if str_eq h.collector name then some h else none ]

unfoldable pub collect_baseline :
    List RegisteredBaseline
    → List BaselineHandle
    → String
    → Option Failure
    → BaselineHandle
    → Progress
    → Progress
unfolding final_by_name
collect_baseline bases finals run_id exhausted h p = elim (baseline_by_name bases h.collector) [
  | none ↦ p
  | some rc ↦
      if contains h.collector p.dropped then p else elim (final_by_name finals h.collector) [
        | none ↦ p
        | some final ↦
            section_answer run_id rc.reg baseline h.collector
              (collected exhausted (rc.collect h final)) p
      ]
]

unfoldable pub collect_baselines :
    List RegisteredBaseline
    → List BaselineHandle
    → String
    → (ℕ → Option Failure)
    → List BaselineHandle
    → Progress
    → Progress
collect_baselines bases finals run_id exhausted [] p = p
collect_baselines bases finals run_id exhausted (h ∷ hs) p =
    collect_baselines bases finals run_id (λ i. exhausted (suc i)) hs
      (collect_baseline bases finals run_id (exhausted 0) h p)

-- The caller's hook may change the snapshot, fail, or panic.
abbrev pub Hook : Type 0
Hook = Option (Snapshot → Snapshot × Option Failure)

abbrev enriched : Hook → String → Snapshot → Validity → Snapshot × Validity × List HealthEvent
enriched none run_id snap v = (snap, v, [])
enriched (some hook) run_id snap v =
    let (snap', e) = hook snap in
    elim e [
      | none ↦ (snap', v, [])
      | some f ↦ (snap', worse v partial, if is_panic f then violation run_id "enrich" ∷ [] else [])
    ]

abbrev snapshot_from : FinishWork → Epoch → Time → Progress → Snapshot
snapshot_from w ep now p = record {
  run_id = w.run_id;
  epoch = ep;
  validity = Validity.unset;
  trigger = w.trigger;
  sections = p.sections;
  collectors = p.boundaries;
  generation_window = compute_window p.boundaries (some keep_generation);
  boundary_window = compute_window p.boundaries none;
  started_at = w.started_at;
  finished_at = now;
}

-- Draining, then collecting the generations and the baselines.
unfoldable pub gather_sections :
    Controller → FinishWork → (ℕ → Option Failure) → (ℕ → Option Failure) → Progress
gather_sections c w gen_exhausted base_exhausted =
    collect_baselines c.bases w.base_final w.run_id base_exhausted w.base_start (
      collect_generations c.gens w.run_id gen_exhausted w.gen_final
        (drain_all c.gens w.run_id w.gen_final (start_progress w)))

-- The snapshot that a worker's progress gives, with its verdict, and the controller after the
-- handles were released.
unfoldable pub build_snapshot :
    Controller → FinishWork → Epoch → Time → Hook → Progress → Controller × Snapshot
build_snapshot c w ep now hook p =
    let r = enriched hook w.run_id (snapshot_from w ep now p) p.validity in
    let c' = record c { health = (c.health ++ p.health) ++ r.2 } in
    (
      release_baseline
          (release_baseline (release_generation (release_generation c' w.gen_final) w.gen_start)
            w.base_start)
          w.base_final,
      record (r.0) { validity = r.1 },
    )

-- The last change of a finishing run's slot.
abbrev pub finished_slot : Time → Validity → RunSlot → RunSlot
finished_slot now v s = cancel (
    seal (record s {
      state = finished;
      validity = worse s.validity v;
      since = now;
      gen = [];
      gen_final = [];
      base = [];
      base_f = [];
      lease = 0;
    }))

unfoldable pub finish_settle : Controller → Epoch → Time → Validity → Controller
finish_settle c ep now v = (commit c ep (finished_slot now v)).0

-- Publication and the last commit; a worker that the fence rejects stops at once.
unfoldable pub publish_and_settle : Controller → Epoch → Time → Snapshot → Controller
publish_and_settle c ep now snap =
    let (c', passed) = publish c ep snap in
    let settled = finish_settle c' ep now snap.validity in if passed then settled else c'
