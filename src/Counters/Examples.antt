-- ===== src/Counters/Examples.antt =====
-- Counters of a program before, between and after the boundaries of a run.
use isutools.Prelude.{ℕ, length, ◌+◌, ◌%◌, ◌≡◌, refl, true, false, List, [], ◌∷◌, none, some}
use isutools.Prelude.Int.{ℤ, pos, negsuc, word_mod}
use isutools.Runctl.Types.{start_boundary, finish_freeze, GenerationHandle, Registration, valid}
use isutools.Runctl.Phase.{zero_boundary}
use isutools.Counters.{Name, new_registry, sorted_entries}
use isutools.Counters.Collector.{
  closed_table, GenerationCollector, BoundaryKey, new_collector, boundary, drain, collect, release,
  gives, fails, handle_released, stale_epoch,
}
use isutools.Counters.Conservation.{
  RegistryUse, adds, rotates, use_registry, totals, total, deltas, totals-use_registry,
}
use isutools.Runctl.Phase.{run_generation_phase}
use isutools.Counters.Collector.{begin_boundary, freeze, Frozen}
use isutools.Counters.Run.{registered, counting, add_all, run_generation_phase-counters}
use isutools.Counters.Store.{Use, counts_up, takes, drains, use_all}
use isutools.Counters.Lifecycle.{collect-boundary, release-collect}
use isutools.Counters.Boundaries.{boundary_again}

-- strings.TrimSpace leaves names with no space alone, which these are.
abbrev trim : Name → Name
trim n = n

abbrev hits : List RegistryUse
hits = adds (97 ∷ []) (pos 3) ∷ rotates ∷ adds (97 ∷ []) (negsuc 0) ∷ adds [] (pos 2) ∷ []

totals-use_registry_example :
    let e = use_registry trim hits new_registry [] in
    (total e.0.counts + totals e.1) % word_mod ≡ (0 + 0 + deltas hits) % word_mod
totals-use_registry_example = totals-use_registry trim hits new_registry []

abbrev counted : GenerationCollector
counted = new_collector record { counts = (97 ∷ [], 3) ∷ (98 ∷ [], 4) ∷ []; dropped = 1 }

abbrev key : BoundaryKey
key = record { run_id = "r1"; epoch = 2; phase = start_boundary }

abbrev old_key : BoundaryKey
old_key = record { run_id = "r0"; epoch = 1; phase = finish_freeze }

abbrev handle : GenerationHandle
handle = (boundary counted "r1" 2 start_boundary 50).1.handle

abbrev meanwhile : List Use
meanwhile = counts_up (97 ∷ []) (pos 9) ∷ takes "r1" 2 finish_freeze 60 ∷ drains true handle ∷ []

collect-boundary_example :
    let b = boundary counted "r1" 2 start_boundary 50 in
    let d = drain (use_all trim meanwhile b.0) false b.1.handle in
    (b.2 ≡ none)
    × (d.1 ≡ none)
    × (collect (use_all trim meanwhile d.0) b.1.handle
        ≡ gives record { entries = sorted_entries counted.registry.counts; dropped = 1 })
collect-boundary_example =
    collect-boundary trim counted key 50 meanwhile meanwhile refl refl (refl, (refl, (refl, tt)))
      (refl, (refl, (refl, tt)))

release-collect_example :
    let c' =
      use_all trim meanwhile (release (boundary counted "r1" 2 start_boundary 50).0 handle) in
    (collect c' handle ≡ fails handle_released) × (drain c' true handle ≡ (c', none))
release-collect_example =
    release-collect trim (boundary counted "r1" 2 start_boundary 50).0 handle 0
      (closed_table 0 counted.registry.counts 1) true meanwhile refl refl (λ h. absurd (cc h))

boundary_again_example :
    let b = boundary counted "r1" 2 start_boundary 50 in
    let c' = use_all trim meanwhile b.0 in
    (boundary c' "r1" 2 start_boundary 70 ≡ (c', b.1, none))
    × (boundary c' "r0" 1 finish_freeze 70
        ≡ (c', record zero_boundary { at = 70 }, some stale_epoch))
boundary_again_example =
    boundary_again trim counted key old_key 50 70 meanwhile refl refl (refl, (refl, (refl, tt)))
      refl

abbrev registration : Registration
registration = record { name = "counters"; required = true; serial_only = false }

abbrev number_of_entries : Frozen → ℕ
number_of_entries f = length f.entries

abbrev events : List (Name × ℤ)
events = (97 ∷ [], pos 9) ∷ (99 ∷ [], pos 1) ∷ []

run_generation_phase-counters_example :
    let s =
      run_generation_phase start_boundary "r1" 2
        (λ i. none)
        (registered registration number_of_entries counted 50 ∷ []) in
    let opened = begin_boundary counted "r1" 2 50 in
    let more = counting trim events opened.0 in
    let f =
      run_generation_phase finish_freeze "r1" 2
        (λ i. none)
        (registered registration number_of_entries more 90 ∷ []) in
    let closed = freeze more "r1" 2 90 in
    let h = closed.1.handle in
    let all = add_all trim events new_registry in
    (s.validity ≡ valid)
    × (s.handles ≡ opened.1.handle ∷ [])
    × (f.validity ≡ valid)
    × (f.handles ≡ h ∷ [])
    × (collect (drain closed.0 false h).0 h
        ≡ gives record { entries = sorted_entries all.counts; dropped = all.dropped })
run_generation_phase-counters_example =
    run_generation_phase-counters trim number_of_entries registration counted "r1" 2 50 90 events
      refl refl
