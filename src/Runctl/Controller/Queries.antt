-- ===== src/Runctl/Controller/Queries.antt =====
-- internal/runctl/controller.go: AckBy, SnapshotOf and Await on one run.
use isutools.Prelude.{
  ◌≡◌, ◌↔◌, refl, sym, ◌∙◌, ◌⊎◌, String, List, [], ◌∷◌, some, arith, ◌==◌, if◌then◌else◌,
}
use mathlib.Core.Option
use isutools.Runctl.Types.{RunState, starting, finishing, finished, aborting, Epoch, Time, ok}
use isutools.Runctl.Records.{RunSlot}
use isutools.Runctl.Controller.{
  Controller, update, lookup, ack_by, ack_by_state, acknowledge, snapshot_of, snapshot_by_state,
  waits, await, await_by_state,
}

-- A run looked up after a write that keeps the names of runs.
pub lookup-update :
    (run_id : String) (ep : Epoch) (f : RunSlot → RunSlot) (slots : List RunSlot)
    → ((s : RunSlot) → (f s).run_id ≡ s.run_id)
    → lookup run_id (update ep f slots)
      ≡ Option.map (λ s. if s.epoch == ep then f s else s) (lookup run_id slots)
unfolding update
lookup-update run_id ep f [] k = refl
lookup-update run_id ep f (s ∷ ss) k = ground (arith, k s, lookup-update run_id ep f ss k)

ack_found :
    (c : Controller) (now : Time) (run_id by : String) (s : RunSlot)
    → lookup run_id c.slots ≡ some s
    → ack_by c now run_id by ≡ ack_by_state s.state c s.epoch by now
unfolding ack_by
ack_found c now run_id by s h = rw (h, ack_by) refl

pub snapshot_found :
    (c : Controller) (run_id : String) (s : RunSlot)
    → lookup run_id c.slots ≡ some s
    → snapshot_of c run_id ≡ snapshot_by_state s.state s.snapshot
unfolding snapshot_of
snapshot_found c run_id s h = rw (h, snapshot_of) refl

-- A finished run is acknowledged: its status changes and its snapshot stays readable, and a second
-- acknowledgement, by whomever and whenever, succeeds and changes nothing.
pub ack_by_finished :
    (c : Controller) (now later : Time) (run_id by other : String) (s : RunSlot)
    → lookup run_id c.slots ≡ some s
    → s.state ≡ finished
    → let c' = (ack_by c now run_id by).0 in
      ((ack_by c now run_id by).1 ≡ ok tt)
      × (lookup run_id c'.slots ≡ some (acknowledge by now s))
      × (snapshot_of c' run_id ≡ snapshot_of c run_id)
      × (ack_by c' later run_id other ≡ (c', ok tt))
unfolding ack_by_state snapshot_by_state
ack_by_finished c now later run_id by other s h st =
    let c₁ : Controller = record c { slots = update s.epoch (acknowledge by now) c.slots } in
    let a : ack_by c now run_id by ≡ (c₁, ok tt) = ack_found c now run_id by s h ∙ rw st refl in
    let l : lookup run_id c₁.slots ≡ some (acknowledge by now s) =
      ground (arith, lookup-update run_id s.epoch (acknowledge by now) c.slots (λ t. refl), h) in
    let read : snapshot_of c₁ run_id ≡ snapshot_of c run_id =
      snapshot_found c₁ run_id _ l ∙ (rw st refl) ∙ sym (snapshot_found c run_id s h) in
    rw a (refl, l, read, ack_found c₁ later run_id other _ l)

-- Await waits exactly while the run is about to start, to finish or to be aborted (or was never
-- opened), and it then waits for that run's next change.
pub await_waits :
    (c : Controller) (run_id : String) (s : RunSlot)
    → lookup run_id c.slots ≡ some s
    → (await c run_id ≡ waits s.epoch s.changed) ↔ (
        (s.state ≡ starting)
        ⊎ ((s.state ≡ finishing) ⊎ ((s.state ≡ aborting) ⊎ (s.state ≡ RunState.idle))))
unfolding await await_by_state
await_waits c run_id s h = ground (arith, h)
