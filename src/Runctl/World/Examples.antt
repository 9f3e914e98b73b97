-- ===== src/Runctl/World/Examples.antt =====
-- One run of internal/runctl, step by step: opened, started, and then either closed or aborted.
use isutools.Prelude.{◌+◌, ◌≡◌, refl, true, false, [], ◌∷◌, ◌++◌, none, some, length, keep_if}
use isutools.Runctl.Types.{
  blocks_new_run, started, valid, success, generation, start_boundary, explicit, GenerationHandle,
  CollectorBoundary, err,
}
use isutools.Runctl.Budget.{default_budgets}
use isutools.Runctl.Records.{
  RunSlot, new_slot, StartResult, FinishAccepted, Snapshot, StartRunOptions, zero_window, notify,
  zero_finish,
}
use isutools.Runctl.Controller.{
  ack_by, ack_by_state, Controller, add_slot, retain, evict, update, commit, publish,
  remember_nonce,
}
use isutools.Runctl.Abort.{
  abort_settle, settle_slot, abort_result, fence_slot, termination_of_abort,
}
use isutools.Runctl.Start.{Boundary, begin_open, start_commit, open_slot}
use isutools.Runctl.Finish.{finish_commit, finishing_slot, closed_slot}
use isutools.Runctl.Finish.Worker.{finish_settle, finished_slot}
use isutools.Runctl.World.{
  World, none_left, opens_boundary, freezes_boundary, collects, has_published, joins_workers,
  assign, after_fence, passes, new_controller, System, Starter,
}

abbrev handle : GenerationHandle
handle = record { run_id = "r1"; epoch = 1; collector = "http"; gen = 7; token = none }

abbrev opened_boundary : CollectorBoundary
opened_boundary = record {
  name = "http";
  kind = generation;
  required = true;
  phase = start_boundary;
  at = 150;
  committed = true;
  code = success;
  err = "";
  dropped = false;
}

abbrev boundary : Boundary
boundary = record {
  collectors = opened_boundary ∷ [];
  validity = valid;
  gen = handle ∷ [];
  base = [];
  health = [];
}

abbrev start_of_r1 : StartResult
start_of_r1 = record {
  run_id = "r1";
  nonce = "n1";
  epoch = 1;
  state = started;
  validity = valid;
  collectors = opened_boundary ∷ [];
  generation_window = record { min_at = 150; max_at = 150; spread = 0 };
  boundary_window = record { min_at = 150; max_at = 150; spread = 0 };
  preempted_run_id = "";
  started_at = 150;
}

abbrev opened : World
opened = record {
  ctl = begin_open (new_controller default_budgets) 100 "r1" "n1" "hub";
  duty = assign (λ e. none_left) 1 opens_boundary;
}

abbrev system : Starter → World → System
system h w = record { world = w; starter = h }

abbrev first_request : StartRunOptions
first_request = record { nonce = "n1"; preempt = false; reason = ""; trigger = "hub" }

abbrev running : World
running = record {
  ctl = (start_commit opened.ctl 200 start_of_r1 boundary).0;
  duty = assign opened.duty 1 none_left;
}

abbrev closing_ctl : Controller
closing_ctl = record running.ctl {
  slots = update 1 (finishing_slot running.ctl 300) running.ctl.slots;
}

abbrev closing_world : World
closing_world = record { ctl = closing_ctl; duty = assign running.duty 1 freezes_boundary }

abbrev accepted : FinishAccepted
accepted = record zero_finish { run_id = "r1"; epoch = 1; validity = valid; accepted_at = 400 }

abbrev accepted_world : World
accepted_world = record {
  ctl = (finish_commit closing_world.ctl 400 accepted boundary).0;
  duty =
      assign closing_world.duty 1
        (after_fence (passes (finish_commit closing_world.ctl 400 accepted boundary).1) collects);
}

abbrev snapshot : Snapshot
snapshot = record {
  run_id = "r1";
  epoch = 1;
  validity = valid;
  trigger = "hub";
  sections = ("http", 42) ∷ [];
  collectors = opened_boundary ∷ [];
  generation_window = zero_window;
  boundary_window = zero_window;
  started_at = 150;
  finished_at = 500;
}

abbrev published_world : World
published_world = record {
  ctl = (publish accepted_world.ctl 1 snapshot).0;
  duty =
      assign accepted_world.duty 1
        (after_fence (publish accepted_world.ctl 1 snapshot).1 has_published);
}

abbrev finished_world : World
finished_world = record {
  ctl = finish_settle published_world.ctl 1 600 valid;
  duty = assign published_world.duty 1 none_left;
}

-- The slot of the run at each of these moments.
abbrev starting_slot : RunSlot
starting_slot = new_slot "r1" "n1" 1 "hub" 100

abbrev started_slot : RunSlot
started_slot = notify (open_slot 200 start_of_r1 boundary starting_slot)

abbrev closing_slot : RunSlot
closing_slot = finishing_slot running.ctl 300 started_slot

abbrev ended_slot : RunSlot
ended_slot = notify (
    finished_slot 600 valid
      (record (notify (closed_slot closing_world.ctl 400 accepted boundary closing_slot)) {
        snapshot = some snapshot;
      }))

-- The abort of the started run.
abbrev fenced_ctl : Controller
fenced_ctl = record running.ctl {
  epoch = 2;
  slots = update 1 (fence_slot 700) running.ctl.slots;
  terminations = running.ctl.terminations ++ termination_of_abort started_slot explicit 700 ∷ [];
}

abbrev fenced_world : World
fenced_world = record { ctl = fenced_ctl; duty = assign running.duty 1 joins_workers }

abbrev aborted_world : World
aborted_world = record {
  ctl = (abort_settle fenced_ctl 800 "r1" 1 explicit false ("http" ∷ [])).0;
  duty = assign fenced_world.duty 1 none_left;
}

abbrev aborted_slot : RunSlot
aborted_slot =
    settle_slot 800 (abort_result "r1" 1 explicit false 800 ("http" ∷ []))
      (fence_slot 700 started_slot)

-- A StartRun plans to acknowledge the finished run, an AbortRun fences it, the acknowledgement is
-- refused, and the start goes ahead: its run and the one that is being aborted both block others.
abbrev second_request : StartRunOptions
second_request = record { nonce = "n2"; preempt = true; reason = ""; trigger = "hub" }

abbrev raced_ctl : Controller
raced_ctl = record finished_world.ctl {
  epoch = 2;
  slots = update 1 (fence_slot 700) finished_world.ctl.slots;
  terminations =
      finished_world.ctl.terminations ++ termination_of_abort ended_slot explicit 700 ∷ [];
}

abbrev raced_world : World
raced_world = record { ctl = raced_ctl; duty = assign finished_world.duty 1 joins_workers }

abbrev refused_world : World
refused_world = record raced_world { ctl = (ack_by raced_ctl 750 "r1" "preempt").0 }

abbrev both_world : World
both_world = record {
  ctl = begin_open refused_world.ctl 800 "r2" "n2" "hub";
  duty = assign refused_world.duty (refused_world.ctl.epoch + 1) opens_boundary;
}

both_block : length (keep_if (λ s. blocks_new_run s.state) both_world.ctl.slots) ≡ 2
unfolding ack_by ack_by_state publish finish_commit finish_settle begin_open start_commit add_slot
    retain evict update commit remember_nonce
both_block = refl
