-- ===== src/Sqlstats/Store.antt =====
-- sqlstats/store.go: SQL statistics by generation. A store is the manager of internal/generation
-- over tables of internal/agg, and a measurement is its lease: the lease is done where Once ran.
-- The event observer gets copies and is not modelled.
use isutools.Prelude.{ℕ, Bool, List, if◌then◌else◌}
use isutools.Prelude.Int.{ℤ}
use isutools.Agg.{Table, Entry, new_table, observe_result, snapshot}
use isutools.Generation.{
  Manager, Frozen, new_manager, acquire, swap, swap_and_snapshot, snapshot_current,
}
use isutools.Generation
use isutools.Generation.Steps.{write}
use isutools.Sqlstats.{Bytes}

abbrev pub Store : Type 0
Store = Manager Table

abbrev pub new_store : ℕ → Store
new_store max_keys = new_manager (new_table max_keys)

abbrev pub begin : Store → Store × ℕ
begin s = acquire s

-- The observation is written to the table of the measurement's generation, and the lease is done.
abbrev pub finish : Store → ℕ → Bytes → ℤ → Bool → Store
finish s l query duration failed =
    if (s.leases l).done
    then s
    else Generation.finish (write s l (λ t. observe_result t query duration failed)) l

abbrev pub discard : Store → ℕ → Store
discard s l = Generation.finish s l

abbrev pub observe_result_now : Store → Bytes → ℤ → Bool → Store
observe_result_now s query duration failed =
    let (s', l) = begin s in finish s' l query duration failed

abbrev pub snapshot_now : Store → List Entry
snapshot_now s = (snapshot_current snapshot s).value

-- RotateContext, with what goroutines do in the wait and in the freeze.
abbrev pub rotate : ℕ → (Store → Store) → (Store → Store) → Store → Store × Frozen (List Entry)
rotate max_keys waiting freezing s =
    swap_and_snapshot snapshot (new_table max_keys) waiting freezing s
