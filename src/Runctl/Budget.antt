-- ===== src/Runctl/Budget.antt =====
-- internal/runctl/budget.go: the table of time budgets, its defaults and its check.
pub mod Hierarchy
use isutools.Prelude.{ℕ, Bool, true, false, List, [], ◌∷◌, String, if◌then◌else◌}
use isutools.Prelude.Int.{ℤ, pos, ◌+ℤ◌, ltb_ℤ, leb_ℤ, pos_part}
use isutools.Runctl.Types.{RunError, Result, ok, err, budget_inversion}

-- The package constants, in nanoseconds.
pub record Budgets : Type 0 where
  pub start_run : ℤ
  pub finish_sync : ℤ
  pub phase_boundary : ℤ
  pub phase_baseline : ℤ
  pub phase_freeze : ℤ
  pub phase_final : ℤ
  pub per_collector_generation : ℤ
  pub per_collector_baseline : ℤ
  pub drain : ℤ
  pub snapshot_build : ℤ
  pub enrich : ℤ
  pub abort_join : ℤ
  pub detached_reap : ℤ
  pub finish_lease : ℤ
  pub started_ttl : ℤ
  pub finished_ttl : ℤ
  pub tombstone_ttl : ℤ
  pub nonce_ttl : ℤ
  pub watchdog : ℤ
  pub spread_generation : ℤ
  pub spread_boundary : ℤ

abbrev pub default_budgets : Budgets
default_budgets = record {
  start_run = pos 6_000_000_000;
  finish_sync = pos 6_000_000_000;
  phase_boundary = pos 500_000_000;
  phase_baseline = pos 5_000_000_000;
  phase_freeze = pos 500_000_000;
  phase_final = pos 5_000_000_000;
  per_collector_generation = pos 100_000_000;
  per_collector_baseline = pos 3_500_000_000;
  drain = pos 10_000_000_000;
  snapshot_build = pos 5_000_000_000;
  enrich = pos 2_000_000_000;
  abort_join = pos 2_000_000_000;
  detached_reap = pos 60_000_000_000;
  finish_lease = pos 20_000_000_000;
  started_ttl = pos 1_800_000_000_000;
  finished_ttl = pos 600_000_000_000;
  tombstone_ttl = pos 600_000_000_000;
  nonce_ttl = pos 600_000_000_000;
  watchdog = pos 1_000_000_000;
  spread_generation = pos 50_000_000;
  spread_boundary = pos 1_500_000_000;
}

-- A duration that is not positive falls back to its default.
abbrev pub fill : ℤ → ℤ → ℤ
fill dst def = if leb_ℤ dst (pos 0) then def else dst

unfoldable pub with_defaults : Budgets → Budgets
with_defaults b = record {
  start_run = fill b.start_run default_budgets.start_run;
  finish_sync = fill b.finish_sync default_budgets.finish_sync;
  phase_boundary = fill b.phase_boundary default_budgets.phase_boundary;
  phase_baseline = fill b.phase_baseline default_budgets.phase_baseline;
  phase_freeze = fill b.phase_freeze default_budgets.phase_freeze;
  phase_final = fill b.phase_final default_budgets.phase_final;
  per_collector_generation =
      fill b.per_collector_generation default_budgets.per_collector_generation;
  per_collector_baseline = fill b.per_collector_baseline default_budgets.per_collector_baseline;
  drain = fill b.drain default_budgets.drain;
  snapshot_build = fill b.snapshot_build default_budgets.snapshot_build;
  enrich = fill b.enrich default_budgets.enrich;
  abort_join = fill b.abort_join default_budgets.abort_join;
  detached_reap = fill b.detached_reap default_budgets.detached_reap;
  finish_lease = fill b.finish_lease default_budgets.finish_lease;
  started_ttl = fill b.started_ttl default_budgets.started_ttl;
  finished_ttl = fill b.finished_ttl default_budgets.finished_ttl;
  tombstone_ttl = fill b.tombstone_ttl default_budgets.tombstone_ttl;
  nonce_ttl = fill b.nonce_ttl default_budgets.nonce_ttl;
  watchdog = fill b.watchdog default_budgets.watchdog;
  spread_generation = fill b.spread_generation default_budgets.spread_generation;
  spread_boundary = fill b.spread_boundary default_budgets.spread_boundary;
}

pub record Rule : Type 0 where
  pub child : ℤ
  pub parent : ℤ
  pub child_name : String
  pub parent_name : String
  pub or_equal : Bool

abbrev rule : ℤ → ℤ → String → String → Bool → Rule
rule child parent child_name parent_name or_equal = record {
  child = child;
  parent = parent;
  child_name = child_name;
  parent_name = parent_name;
  or_equal = or_equal;
}

abbrev pub rules : Budgets → List Rule
rules b =
    rule b.phase_baseline b.start_run "PhaseBaseline" "StartRun" false
    ∷ rule b.per_collector_baseline b.phase_baseline "PerCollectorBaseline" "PhaseBaseline" false
    ∷ rule b.phase_boundary b.start_run "PhaseBoundary" "StartRun" false
    ∷ rule b.per_collector_generation b.phase_boundary "PerCollectorGeneration" "PhaseBoundary"
        false
    ∷ rule b.phase_final b.finish_sync "PhaseFinal" "FinishSync" false
    ∷ rule b.per_collector_baseline b.phase_final "PerCollectorBaseline" "PhaseFinal" false
    ∷ rule b.phase_freeze b.finish_sync "PhaseFreeze" "FinishSync" false
    ∷ rule b.per_collector_generation b.phase_freeze "PerCollectorGeneration" "PhaseFreeze" false
    ∷ rule (b.phase_boundary +ℤ b.phase_baseline) b.start_run "PhaseBoundary+PhaseBaseline"
        "StartRun" true
    ∷ rule (b.phase_freeze +ℤ b.phase_final) b.finish_sync "PhaseFreeze+PhaseFinal" "FinishSync"
        true
    ∷ rule b.finish_sync b.finish_lease "FinishSync" "FinishLease" false
    ∷ rule (b.drain +ℤ b.snapshot_build +ℤ b.enrich) b.finish_lease "Drain+SnapshotBuild+Enrich"
        "FinishLease" false
    ∷ []

abbrev pub respected : Rule → Bool
respected r = if r.or_equal then leb_ℤ r.child r.parent else ltb_ℤ r.child r.parent

-- The first rule that is broken is the error's.
unfoldable pub check_rules : List Rule → Result (Unit {0})
check_rules [] = ok tt
check_rules (r ∷ rs) =
    let rest = check_rules rs in if respected r then rest else err budget_inversion

unfoldable pub validate : Budgets → Result (Unit {0})
unfolding check_rules
validate b = check_rules (rules b)

-- A controller's budgets are positive, so its clock arithmetic reads them as spans.
abbrev pub nanos : ℤ → ℕ
nanos = pos_part
