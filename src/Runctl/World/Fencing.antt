-- ===== src/Runctl/World/Fencing.antt =====
-- The fence of internal/runctl over time: the epoch only grows, so what one abort shut out stays out.
use isutools.Prelude.{◌+◌, ◌≤◌, ◌<◌, ◌≡◌, refl, false, none, String, arith}
use isutools.Runctl.Types.{Epoch, Time}
use isutools.Runctl.Records.{RunSlot, Snapshot}
use isutools.Runctl.Controller.{
  Controller, fenced_slot, commit, publish, ack_by, ack_by_state, leave, register_generation,
  register_baseline, sweep,
}
use isutools.Runctl.Abort.{fence, reap}
use isutools.Runctl.Start.{begin_open, start_drain_worker, discard_worker}
use isutools.Runctl.World.{
  World, Step, commits_start, begins_finish, commits_finish, publishes, settles_finish, fences,
  settles_abort, drains, discards, leaves, reaps, acks, sweeps, registers_generation,
  registers_baseline, Reach, here, next, System, Turn, works, plans, has_preempted, gives_up,
  acks_finished, opens,
}
use isutools.Runctl.World.Effects.{
  commit-Fenced, publish-Fenced, start_commit-Fenced, finish_commit-Fenced, finish_settle-Fenced,
  commit_miss, publish_miss, release_both-Same, drain_and_release-Same, release_baseline-Same,
}
use isutools.Runctl.World.Lifecycle.{freezes_started, fenced_live, abort_settle_writes}

begin_open-epoch :
    (c : Controller) (now : Time) (i n t : String) → (begin_open c now i n t).epoch ≡ c.epoch + 1
unfolding begin_open
begin_open-epoch c now i n t = refl

reap-epoch : (c : Controller) (ep : Epoch) → (reap c ep).epoch ≡ c.epoch
unfolding reap
reap-epoch c ep = (release_both-Same _ _ _).epoch

acks-epoch : (c : Controller) (now : Time) (i by : String) → (ack_by c now i by).0.epoch ≡ c.epoch
unfolding ack_by ack_by_state
acks-epoch c now i by = ground arith

-- No critical section lowers the controller's epoch.
pub epoch_grows : {w u : World} → Step w u → w.ctl.epoch ≤ u.ctl.epoch
unfolding sweep leave start_drain_worker discard_worker register_generation register_baseline fence
epoch_grows {w} (commits_start now res b d s) =
    omega (arith, (start_commit-Fenced w.ctl now res b).epoch)
epoch_grows {w} (begins_finish now i c ep h) =
    let (s, f, e, k, st) = freezes_started w.ctl c now i ep h in rw k (omega arith)
epoch_grows {w} (commits_finish now a b d) =
    omega (arith, (finish_commit-Fenced w.ctl now a b).epoch)
epoch_grows {w} (publishes ep snap d) = omega (arith, (publish-Fenced w.ctl ep snap).epoch)
epoch_grows {w} (settles_finish ep now snap d) =
    omega (arith, (finish_settle-Fenced w.ctl ep now snap.validity).epoch)
epoch_grows {w} (fences now i r c ep names h) =
    let (s, f, e, k, st) = fenced_live w.ctl c now i r ep names h in rw k (omega arith)
epoch_grows {w} (settles_abort now i ep r detached names d) =
    omega (arith, (abort_settle_writes w.ctl now i ep r detached names).epoch)
epoch_grows {w} (drains ep hs) =
    omega (arith, (drain_and_release-Same w.ctl hs).epoch, (commit-Fenced _ ep _).epoch)
epoch_grows {w} (discards ep hs bs) = omega (
  arith,
  (drain_and_release-Same w.ctl hs).epoch,
  (release_baseline-Same _ bs).epoch,
  (commit-Fenced _ ep _).epoch,
)
epoch_grows {w} (leaves ep) = omega arith
epoch_grows {w} (reaps ep) = omega (arith, reap-epoch w.ctl ep)
epoch_grows {w} (acks now i by) = omega (arith, acks-epoch w.ctl now i by)
epoch_grows {w} (sweeps now) = omega arith
epoch_grows {w} (registers_generation r g b) = ground arith
epoch_grows {w} (registers_baseline r g b) = ground arith

Turn-epoch : {m n : System} → Turn m n → m.world.ctl.epoch ≤ n.world.ctl.epoch
Turn-epoch (works s) = epoch_grows s
Turn-epoch (plans now o p a e h) = omega arith
Turn-epoch (has_preempted now i ep r result e n h) = omega arith
Turn-epoch (gives_up i ep e) = omega arith
Turn-epoch {m} (acks_finished now i ep e n) = omega (arith, acks-epoch m.world.ctl now i "preempt")
Turn-epoch {m} (opens now i n t e) = omega (arith, begin_open-epoch m.world.ctl now i n t)

pub Reach-epoch : {m n : System} → Reach m n → m.world.ctl.epoch ≤ n.world.ctl.epoch
Reach-epoch here = omega arith
Reach-epoch (next r s) = omega (arith, Reach-epoch r, Turn-epoch s)

fenced_slot_old : (c : Controller) (ep : Epoch) → ep < c.epoch → fenced_slot c ep ≡ none
fenced_slot_old c ep h = ground arith

-- An epoch that is no longer the controller's is shut out: a commit or a publication through it
-- changes nothing but the count of stale ones, and says so.
pub old_epoch_rejected :
    (c : Controller) (ep : Epoch) (mutate : RunSlot → RunSlot) (snap : Snapshot)
    → ep < c.epoch
    → (commit c ep mutate ≡ (record c { stale = c.stale + 1 }, false))
      × (publish c ep snap ≡ (record c { stale = c.stale + 1 }, false))
old_epoch_rejected c ep mutate snap h =
    let m = fenced_slot_old c ep h in (commit_miss c ep mutate m, publish_miss c ep snap m)
