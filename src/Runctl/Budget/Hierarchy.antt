-- ===== src/Runctl/Budget/Hierarchy.antt =====
-- The budgets that `validate` accepts, and the case that it lets through.
use isutools.Prelude.{
  ℕ, ◌+◌, ◌≤◌, ◌<◌, ◌≡◌, refl, List, [], ◌∷◌, All, arith, Bool-cases, inl, inr, true,
}
use isutools.Prelude.Int.{ℤ, pos, ◌+ℤ◌, +ℤ-pos, sign_bit, ltb_ℤ, leb_ℤ}
use isutools.Runctl.Types.{ok}
use isutools.Runctl.Budget.{
  Budgets, default_budgets, fill, with_defaults, Rule, rules, respected, check_rules, validate,
  nanos,
}

-- Every budget is positive.
pub record IsPositive (b : Budgets) : Type 0 where
  pub start_run : ltb_ℤ (pos 0) b.start_run ≡ true
  pub finish_sync : ltb_ℤ (pos 0) b.finish_sync ≡ true
  pub phase_boundary : ltb_ℤ (pos 0) b.phase_boundary ≡ true
  pub phase_baseline : ltb_ℤ (pos 0) b.phase_baseline ≡ true
  pub phase_freeze : ltb_ℤ (pos 0) b.phase_freeze ≡ true
  pub phase_final : ltb_ℤ (pos 0) b.phase_final ≡ true
  pub per_collector_generation : ltb_ℤ (pos 0) b.per_collector_generation ≡ true
  pub per_collector_baseline : ltb_ℤ (pos 0) b.per_collector_baseline ≡ true
  pub drain : ltb_ℤ (pos 0) b.drain ≡ true
  pub snapshot_build : ltb_ℤ (pos 0) b.snapshot_build ≡ true
  pub enrich : ltb_ℤ (pos 0) b.enrich ≡ true
  pub abort_join : ltb_ℤ (pos 0) b.abort_join ≡ true
  pub detached_reap : ltb_ℤ (pos 0) b.detached_reap ≡ true
  pub finish_lease : ltb_ℤ (pos 0) b.finish_lease ≡ true
  pub started_ttl : ltb_ℤ (pos 0) b.started_ttl ≡ true
  pub finished_ttl : ltb_ℤ (pos 0) b.finished_ttl ≡ true
  pub tombstone_ttl : ltb_ℤ (pos 0) b.tombstone_ttl ≡ true
  pub nonce_ttl : ltb_ℤ (pos 0) b.nonce_ttl ≡ true
  pub watchdog : ltb_ℤ (pos 0) b.watchdog ≡ true
  pub spread_generation : ltb_ℤ (pos 0) b.spread_generation ≡ true
  pub spread_boundary : ltb_ℤ (pos 0) b.spread_boundary ≡ true

fill_pos : (x d : ℤ) → ltb_ℤ (pos 0) d ≡ true → ltb_ℤ (pos 0) (fill x d) ≡ true
fill_pos x d h = ground arith

-- Whatever the options say, the budgets of a controller are positive.
pub with_defaults-IsPositive : (b : Budgets) → IsPositive (with_defaults b)
unfolding with_defaults
with_defaults-IsPositive b = record {
  start_run = fill_pos b.start_run default_budgets.start_run refl;
  finish_sync = fill_pos b.finish_sync default_budgets.finish_sync refl;
  phase_boundary = fill_pos b.phase_boundary default_budgets.phase_boundary refl;
  phase_baseline = fill_pos b.phase_baseline default_budgets.phase_baseline refl;
  phase_freeze = fill_pos b.phase_freeze default_budgets.phase_freeze refl;
  phase_final = fill_pos b.phase_final default_budgets.phase_final refl;
  per_collector_generation =
      fill_pos b.per_collector_generation default_budgets.per_collector_generation refl;
  per_collector_baseline =
      fill_pos b.per_collector_baseline default_budgets.per_collector_baseline refl;
  drain = fill_pos b.drain default_budgets.drain refl;
  snapshot_build = fill_pos b.snapshot_build default_budgets.snapshot_build refl;
  enrich = fill_pos b.enrich default_budgets.enrich refl;
  abort_join = fill_pos b.abort_join default_budgets.abort_join refl;
  detached_reap = fill_pos b.detached_reap default_budgets.detached_reap refl;
  finish_lease = fill_pos b.finish_lease default_budgets.finish_lease refl;
  started_ttl = fill_pos b.started_ttl default_budgets.started_ttl refl;
  finished_ttl = fill_pos b.finished_ttl default_budgets.finished_ttl refl;
  tombstone_ttl = fill_pos b.tombstone_ttl default_budgets.tombstone_ttl refl;
  nonce_ttl = fill_pos b.nonce_ttl default_budgets.nonce_ttl refl;
  watchdog = fill_pos b.watchdog default_budgets.watchdog refl;
  spread_generation = fill_pos b.spread_generation default_budgets.spread_generation refl;
  spread_boundary = fill_pos b.spread_boundary default_budgets.spread_boundary refl;
}

check_rules-All : (rs : List Rule) → check_rules rs ≡ ok tt → All (λ r. respected r ≡ true) rs
unfolding check_rules
check_rules-All [] h = tt
check_rules-All (r ∷ rs) h = elim (Bool-cases (respected r)) [
  | inl e ↦ (e, check_rules-All rs (ground arith))
  | inr e ↦ absurd (ground arith)
]

-- The sums that the check forms do not leave int64.
pub record SumsFit (b : Budgets) : Type 0 where
  pub opening : nanos b.phase_boundary + nanos b.phase_baseline < sign_bit
  pub closing : nanos b.phase_freeze + nanos b.phase_final < sign_bit
  pub background : nanos b.drain + nanos b.snapshot_build + nanos b.enrich < sign_bit

-- What the nesting of the budgets means, on spans of nanoseconds.
pub record IsNested (b : Budgets) : Type 0 where
  pub baseline_phase : nanos b.per_collector_baseline < nanos b.phase_baseline
  pub boundary_phase : nanos b.per_collector_generation < nanos b.phase_boundary
  pub final_phase : nanos b.per_collector_baseline < nanos b.phase_final
  pub freeze_phase : nanos b.per_collector_generation < nanos b.phase_freeze
  pub opening : nanos b.phase_boundary + nanos b.phase_baseline ≤ nanos b.start_run
  pub closing : nanos b.phase_freeze + nanos b.phase_final ≤ nanos b.finish_sync
  pub synchronous : nanos b.finish_sync < nanos b.finish_lease
  pub background : nanos b.drain + nanos b.snapshot_build + nanos b.enrich < nanos b.finish_lease

is_pos : (x : ℤ) → ltb_ℤ (pos 0) x ≡ true → x ≡ pos (nanos x)
is_pos x h = ground arith

+ℤ_nanos :
    (x y : ℤ)
    → ltb_ℤ (pos 0) x ≡ true
    → ltb_ℤ (pos 0) y ≡ true
    → nanos x + nanos y < sign_bit
    → x +ℤ y ≡ pos (nanos x + nanos y)
+ℤ_nanos x y h k l = rw (is_pos x h, is_pos y k) (+ℤ-pos (nanos x) (nanos y) l)

ltb_nanos :
    (x y : ℤ)
    → ltb_ℤ (pos 0) x ≡ true
    → ltb_ℤ (pos 0) y ≡ true
    → ltb_ℤ x y ≡ true
    → nanos x < nanos y
ltb_nanos x y h k l = ground arith

leb_nanos : (y : ℤ) (n : ℕ) → ltb_ℤ (pos 0) y ≡ true → leb_ℤ (pos n) y ≡ true → n ≤ nanos y
leb_nanos y n h k = ground arith

-- A table of positive budgets whose sums fit, and which the check accepts, is nested: each
-- collector's budget is below its phase's, the phases of a boundary together fit in the boundary's
-- budget, and each half of a finish is below the finish lease.
pub validate-IsNested : (b : Budgets) → IsPositive b → SumsFit b → validate b ≡ ok tt → IsNested b
unfolding validate
validate-IsNested b p s h =
    let r = check_rules-All (rules b) h in
    let opening =
      +ℤ_nanos b.phase_boundary b.phase_baseline p.phase_boundary p.phase_baseline s.opening in
    let closing = +ℤ_nanos b.phase_freeze b.phase_final p.phase_freeze p.phase_final s.closing in
    let two : b.drain +ℤ b.snapshot_build ≡ pos (nanos b.drain + nanos b.snapshot_build) =
      +ℤ_nanos b.drain b.snapshot_build p.drain p.snapshot_build (omega (arith, s.background)) in
    let background =
      +ℤ_nanos (b.drain +ℤ b.snapshot_build) b.enrich (rw two (ground (arith, p.drain))) p.enrich
        (rw two s.background) in
    record {
      baseline_phase =
          ltb_nanos b.per_collector_baseline b.phase_baseline p.per_collector_baseline
            p.phase_baseline r.1.0;
      boundary_phase =
          ltb_nanos b.per_collector_generation b.phase_boundary p.per_collector_generation
            p.phase_boundary r.1.1.1.0;
      final_phase =
          ltb_nanos b.per_collector_baseline b.phase_final p.per_collector_baseline p.phase_final
            r.1.1.1.1.1.0;
      freeze_phase =
          ltb_nanos b.per_collector_generation b.phase_freeze p.per_collector_generation
            p.phase_freeze r.1.1.1.1.1.1.1.0;
      opening = leb_nanos b.start_run _ p.start_run (rw opening at r.1.1.1.1.1.1.1.1.0);
      closing = leb_nanos b.finish_sync _ p.finish_sync (rw closing at r.1.1.1.1.1.1.1.1.1.0);
      synchronous =
          ltb_nanos b.finish_sync b.finish_lease p.finish_sync p.finish_lease
            r.1.1.1.1.1.1.1.1.1.1.0;
      background =
          ltb_nanos (pos _) b.finish_lease (ground (arith, p.drain)) p.finish_lease
            (rw (background, two) at r.1.1.1.1.1.1.1.1.1.1.1.0);
    }
