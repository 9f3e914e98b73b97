-- ===== src/Runctl/Controller/Sweeping.antt =====
-- internal/runctl/controller.go, Sweep: what time does to a run.
use isutools.Prelude.{ℕ, ◌<◌, ◌≡◌, ◌≢◌, ◌↔◌, ◌⊎◌, true, none, some, is_some, arith}
use isutools.Runctl.Types.{
  started, finishing, finished, acknowledged, aborted, expired, Time, sub_time,
}
use isutools.Runctl.Budget.{Budgets, nanos}
use isutools.Runctl.Records.{RunSlot}
use isutools.Runctl.Controller.{sweep_slot, sweep_by_state, expire}

-- The span that a run has been in its state.
abbrev pub age : Time → RunSlot → ℕ
age now s = sub_time now s.since

-- A sweep forgets a run exactly if it was aborted or has expired longer ago than the tombstone
-- TTL; it asks for an abort exactly if the run's finish lease has passed or it has been started for
-- longer than its TTL; and a slot that it keeps is as before, or has expired from finished or
-- acknowledged past the finished TTL.
pub sweep_slot_cases :
    (b : Budgets) (now : Time) (s : RunSlot)
    → let r = sweep_slot b now s in
      ((r.kept ≡ none)
        ↔ (((s.state ≡ aborted) ⊎ (s.state ≡ expired)) × (nanos b.tombstone_ttl < age now s)))
      × ((is_some r.abort ≡ true) ↔ (
          ((s.state ≡ finishing) × (s.lease ≢ 0) × (s.lease < now))
          ⊎ ((s.state ≡ started) × (nanos b.started_ttl < age now s))))
      × ((t : RunSlot)
          → r.kept ≡ some t
          → (t ≡ s)
            ⊎ (((s.state ≡ finished) ⊎ (s.state ≡ acknowledged))
                × (nanos b.finished_ttl < age now s)
                × (t ≡ expire now s)))
unfolding sweep_slot sweep_by_state
sweep_slot_cases b now s = ground arith
