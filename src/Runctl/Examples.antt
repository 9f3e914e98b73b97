-- ===== src/Runctl/Examples.antt =====
-- The phases, windows, budgets and queries of internal/runctl on small inputs.
use isutools.Prelude.{
  ℕ, ◌≡◌, ◌≤◌, ◌<◌, ◌↔◌, ◌⊎◌, refl, Bool, true, false, String, List, [], ◌∷◌, ◌++◌, map, Option,
  none, some, length, keep_if, arith, ◌==◌, if◌then◌else◌,
}
use isutools.Prelude.Int.{◌+ℤ◌}
use isutools.Runctl.Types.{
  RunState, started, starting, finished, aborting, explicit, aborted, valid, partial, invalid,
  success, generation, baseline, start_boundary, start_baseline, finish_freeze, GenerationHandle,
  BaselineHandle, CollectorBoundary, Registration, Failure, failed, deadline, Epoch, ok,
}
use isutools.Runctl.Budget.{default_budgets, validate}
use isutools.Runctl.Budget.Hierarchy.{IsPositive, SumsFit}
use isutools.Runctl.Window.{compute_window, keep_generation, judge_spread, apply_spread, scan, late}
use isutools.Runctl.Window.Spread.{all_spread, required_spread, apply_spread_validity}
use isutools.Runctl.Phase.{
  returns, panics, RegisteredGeneration, RegisteredBaseline, run_generation_phase,
  run_baseline_phase, generation_turns, generation_turn, add_turns, zero_baseline_handle,
}
use isutools.Runctl.Phase.Contract.{
  KeepsContract, committed_handles, run_generation_phase-KeepsContract,
  run_generation_phase-handles,
}
use isutools.Runctl.Phase.Baseline.{run_baseline_phase-KeepsContract}
use isutools.Runctl.Records.{RunSlot, StartResult, new_slot, zero_start}
use isutools.Runctl.Controller.{
  Controller, NonceEntry, slot_at, update, retained_runs, add_slot, remember_nonce, lookup_nonce,
}
use isutools.Runctl.Controller.Retention.{is_active, add_slot_retention, remembered_nonce_found}
use isutools.Runctl.World.{new_controller}
use isutools.Runctl.Abort.{abort_settle, reap, slot_gen, slot_base}
use isutools.Runctl.Abort.Handles.{GivesBack, abort_settle-GivesBack}
use isutools.Runctl.Release.{release_generation, release_baseline}
use isutools.Runctl.Window.{contains}
use isutools.Runctl.Finish.{FinishWork}
use isutools.Runctl.Finish.Worker.{
  start_progress, gather_sections, drain_all, drain_one, collect_generations, collect_generation,
  collect_baselines,
}
use isutools.Runctl.Finish.Verdict.{Degrades, gather_sections-Degrades}

abbrev http : Registration
http = record { name = "http"; required = true; serial_only = false }

abbrev sql : Registration
sql = record { name = "sql"; required = false; serial_only = false }

abbrev handle_of : String → GenerationHandle
handle_of name = record { run_id = "r1"; epoch = 1; collector = name; gen = 3; token = some 5 }

-- A generation collector whose freeze fails after its switch, and one that panics.
abbrev half_failing : RegisteredGeneration
half_failing = record {
  reg = http;
  begin_boundary =
      λ i e. returns (record { handle = handle_of "http"; at = 10; committed = true }) none;
  freeze = λ i e.
      returns (record { handle = handle_of "http"; at = 20; committed = true })
        (some (failed "late"));
  drain = λ h. returns tt none;
  collect = λ h. returns 1 none;
  release = λ h. returns tt none;
}

abbrev panicking : RegisteredGeneration
panicking = record half_failing {
  reg = sql;
  begin_boundary = λ i e. panics "boom";
  freeze = λ i e. panics "boom";
}

abbrev collectors : List RegisteredGeneration
collectors = half_failing ∷ panicking ∷ []

abbrev third_expires : ℕ → Option Failure
third_expires n = if n == 2 then some (deadline "phase budget") else none

run_generation_phase-KeepsContract_example :
    KeepsContract generation finish_freeze
      (map (λ rc. rc.reg) collectors)
      (run_generation_phase finish_freeze "r1" 1 third_expires collectors)
run_generation_phase-KeepsContract_example =
    run_generation_phase-KeepsContract finish_freeze "r1" 1 third_expires collectors

run_generation_phase-handles_example :
    (run_generation_phase finish_freeze "r1" 1 third_expires collectors).handles
    ≡ committed_handles finish_freeze "r1" 1 third_expires collectors
run_generation_phase-handles_example =
    run_generation_phase-handles finish_freeze "r1" 1 third_expires collectors

-- The switch that took effect is handed over although its call failed.
half_failing_handed_over :
    (run_generation_phase finish_freeze "r1" 1 third_expires collectors).handles
    ≡ handle_of "http" ∷ []
unfolding run_generation_phase generation_turns generation_turn add_turns
half_failing_handed_over = refl

abbrev pool_sample : BaselineHandle
pool_sample = record zero_baseline_handle {
  run_id = "r1";
  epoch = 1;
  collector = "pool";
  sampled_at = 12;
  sample = some 9;
}

abbrev pool : RegisteredBaseline
pool = record {
  reg = record { name = "pool"; required = false; serial_only = false };
  capture_baseline =
      λ i e. returns (record { handle = pool_sample; at = 12; committed = true }) none;
  capture_final = λ i e. returns (record { handle = pool_sample; at = 30; committed = true }) none;
  collect = λ a b. returns 2 none;
  release = λ h. returns tt none;
}

abbrev no_failure : ℕ → Option Failure
no_failure n = none

run_baseline_phase-KeepsContract_example :
    KeepsContract baseline start_baseline
      (map (λ rc. rc.reg) (pool ∷ pool ∷ []))
      (run_baseline_phase start_baseline "r1" 1 third_expires no_failure (pool ∷ pool ∷ []))
run_baseline_phase-KeepsContract_example =
    run_baseline_phase-KeepsContract start_baseline "r1" 1 third_expires no_failure
      (pool ∷ pool ∷ [])

abbrev ran : String → Bool → ℕ → CollectorBoundary
ran name required at = record {
  name = name;
  kind = generation;
  required = required;
  phase = start_boundary;
  at = at;
  committed = true;
  code = success;
  err = "";
  dropped = false;
}

-- Three collectors, the last of them optional and far behind.
abbrev boundaries : List CollectorBoundary
boundaries = ran "http" true 100 ∷ ran "sql" true 130 ∷ ran "io" false 900 ∷ []

late_optional_is_partial :
    (judge_spread boundaries none 50) ≡ record { validity = partial; offenders = "io" ∷ [] }
unfolding judge_spread compute_window scan late
late_optional_is_partial = refl

apply_spread_validity_example :
    (((apply_spread 50 50 "r1" boundaries).validity ≡ valid)
      ↔ ((all_spread boundaries (some keep_generation) ≤ 50) × (all_spread boundaries none ≤ 50)))
    × (((apply_spread 50 50 "r1" boundaries).validity ≡ invalid) ↔ (
        (50 < required_spread boundaries (some keep_generation))
        ⊎ (50 < required_spread boundaries none)))
apply_spread_validity_example = apply_spread_validity 50 50 "r1" boundaries

default_budgets-valid : validate default_budgets ≡ ok tt
unfolding validate ◌+ℤ◌
default_budgets-valid = refl

default_budgets-SumsFit : SumsFit default_budgets
default_budgets-SumsFit = ground arith

default_budgets-IsPositive : IsPositive default_budgets
default_budgets-IsPositive = ground arith

abbrev run_in : RunState → String → Epoch → RunSlot
run_in st name ep = record (new_slot name "" ep "hub" 10) { state = st }

abbrev old_runs : List RunSlot
old_runs = run_in started "a" 1 ∷ run_in aborted "b" 2 ∷ []

add_slot_retention_example :
    (keep_if is_active (add_slot (run_in starting "c" 3) old_runs)
      ≡ keep_if is_active (old_runs ++ run_in starting "c" 3 ∷ []))
    × ((length (add_slot (run_in starting "c" 3) old_runs) ≤ retained_runs)
        ⊎ (add_slot (run_in starting "c" 3) old_runs
            ≡ keep_if is_active (old_runs ++ run_in starting "c" 3 ∷ [])))
add_slot_retention_example = add_slot_retention (run_in starting "c" 3) old_runs

abbrev start_of_a : StartResult
start_of_a = record zero_start { run_id = "a"; epoch = 1; state = started }

abbrev remembered : List NonceEntry
remembered = record { nonce = "n0"; result = start_of_a; at = 5 } ∷ []

remembered_nonce_found_example :
    lookup_nonce default_budgets 30 "n1" (remember_nonce 20 "n1" start_of_a remembered)
    ≡ some start_of_a
remembered_nonce_found_example =
    remembered_nonce_found default_budgets 20 30 "n1" start_of_a remembered refl refl (omega arith)
      (omega arith)

abbrev with_finished : Controller
with_finished = record (new_controller default_budgets) {
  epoch = 1;
  slots = run_in finished "a" 1 ∷ [];
}

-- A closing boundary whose freeze was late, then a worker that collects one section.
abbrev finish_work_of_r1 : FinishWork
finish_work_of_r1 = record {
  run_id = "r1";
  trigger = "hub";
  started_at = 10;
  validity = valid;
  boundaries = ran "http" true 10 ∷ [];
  gen_final = handle_of "http" ∷ handle_of "sql" ∷ [];
  base_start = [];
  base_final = [];
  gen_start = [];
}

abbrev with_collectors : Controller
with_collectors = record (new_controller default_budgets) { gens = collectors }

abbrev second_exhausted : ℕ → Option Failure
second_exhausted n = if n == 1 then some (deadline "snapshot build budget exhausted") else none

gather_sections-Degrades_example :
    Degrades
      (start_progress finish_work_of_r1)
      (gather_sections with_collectors finish_work_of_r1 second_exhausted no_failure)
gather_sections-Degrades_example =
    gather_sections-Degrades with_collectors finish_work_of_r1 second_exhausted no_failure

-- The section that was in time is kept, the other one costs the verdict.
second_section_lost :
    (gather_sections with_collectors finish_work_of_r1 second_exhausted no_failure).sections
    ≡ ("http", 1) ∷ []
unfolding gather_sections drain_all drain_one collect_generations collect_generation
    collect_baselines contains
second_section_lost = refl

-- A run that is being aborted, with the handle of a registered collector and one of an unknown one.
abbrev aborting_run : RunSlot
aborting_run = record (new_slot "r1" "" 1 "hub" 10) {
  state = aborting;
  gen = handle_of "http" ∷ [];
  gen_final = handle_of "gone" ∷ [];
}

abbrev with_aborting : Controller
with_aborting = record with_collectors { epoch = 2; slots = aborting_run ∷ [] }

abort_settle-GivesBack_example :
    GivesBack with_aborting
      (abort_settle with_aborting 60 "r1" 1 explicit false []).0
      (handle_of "http" ∷ handle_of "gone" ∷ [])
      []
    × (slot_gen (slot_at 1 (abort_settle with_aborting 60 "r1" 1 explicit false []).0.slots) ≡ [])
    × (slot_base (slot_at 1 (abort_settle with_aborting 60 "r1" 1 explicit false []).0.slots) ≡ [])
    × GivesBack with_aborting (abort_settle with_aborting 60 "r1" 1 explicit true []).0 [] []
    × GivesBack with_aborting
        (reap (abort_settle with_aborting 60 "r1" 1 explicit true []).0 1)
        (handle_of "http" ∷ handle_of "gone" ∷ [])
        []
abort_settle-GivesBack_example = abort_settle-GivesBack with_aborting 60 "r1" 1 explicit []

known_handle_given_back :
    (abort_settle with_aborting 60 "r1" 1 explicit false []).0.released ≡ handle_of "http" ∷ []
unfolding abort_settle update release_generation release_baseline
known_handle_given_back = refl
