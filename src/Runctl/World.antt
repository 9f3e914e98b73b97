-- ===== src/Runctl/World.antt =====
-- The controller among its goroutines: every critical section of internal/runctl as a step that may
-- happen between any two others. A duty says which goroutine still has to speak for a run, and a
-- starter is where the holder of startMu has come in StartRun.
pub mod Slots
pub mod Effects
pub mod Invariant
pub mod Steps
pub mod Others
pub mod Sweeps
pub mod Lifecycle
pub mod Safety
pub mod Fencing
pub mod Liveness
pub mod Answers
pub mod Calm
mod Examples
use isutools.Prelude.{
  ℕ, ◌+◌, ◌≡◌, Bool, true, false, String, List, [], ◌∷◌, Option, none, some, All, ◌==◌,
  if◌then◌else◌,
}
use isutools.Prelude.Int.{ℤ}
use isutools.Runctl.Types.{
  RunState, is_live, Epoch, Time, Reason, Registration, GenerationHandle, BaselineHandle,
}
use isutools.Runctl.Budget.{Budgets}
use isutools.Runctl.Phase.{RegisteredGeneration, RegisteredBaseline, Call}
use isutools.Runctl.Records.{
  RunSlot, StartRunOptions, AbortResult, StartResult, FinishAccepted, Snapshot,
}
use isutools.Runctl.Controller.{
  Controller, lookup, slot_at, publish, commit, leave, ack_by, sweep, register_generation,
  register_baseline,
}
use isutools.Runctl.Abort.{AbortStep, abort_look, abort_settle, reap}
use isutools.Runctl.Start.{
  Boundary, plan_start, proceed, begin_open, start_commit, start_drain_worker, discard_worker,
  state_after_opening,
}
use isutools.Runctl.Finish.{FinishStep, finish_look, finish_commit}
use isutools.Runctl.Finish.Worker.{finish_settle}

-- StartRun takes an opening boundary, FinishRun a closing one, the worker drains and collects, the
-- worker has published, an AbortRun joins; or nobody speaks for the run.
pub data Duty : Type 0 where
  none_left opens_boundary freezes_boundary collects has_published joins_workers : Duty

pub record World : Type 0 where
  pub ctl : Controller
  pub duty : Epoch → Duty

abbrev pub assign : (Epoch → Duty) → Epoch → Duty → Epoch → Duty
assign duty ep d e = if e == ep then d else duty e

-- No run may still give data.
abbrev pub Quiet : List RunSlot → Type 0
Quiet slots = All (λ s. is_live s.state ≡ false) slots

abbrev pub after_fence : Bool → Duty → Duty
after_fence passed d = if passed then d else none_left

abbrev pub passes : {A : Type 0} → Option A → Bool
passes none = false
passes (some a) = true

-- One critical section of some goroutine other than the opening of a run, or one collector
-- registered.
pub data Step (w : World) : World → Type 0 where
  commits_start :
      (now : Time) (res : StartResult) (b : Boundary)
      → w.duty res.epoch ≡ opens_boundary
      → res.state ≡ state_after_opening b.validity
      → Step w (record {
        ctl = (start_commit w.ctl now res b).0;
        duty = assign w.duty res.epoch none_left;
      })
  begins_finish :
      (now : Time) (run_id : String) (c : Controller) (ep : Epoch)
      → finish_look w.ctl now run_id ≡ FinishStep.freezes c ep
      → Step w (record { ctl = c; duty = assign w.duty ep freezes_boundary })
  commits_finish :
      (now : Time) (accepted : FinishAccepted) (b : Boundary)
      → w.duty accepted.epoch ≡ freezes_boundary
      → Step w (record {
        ctl = (finish_commit w.ctl now accepted b).0;
        duty =
            assign w.duty accepted.epoch
              (after_fence (passes (finish_commit w.ctl now accepted b).1) collects);
      })
  publishes :
      (ep : Epoch) (snap : Snapshot)
      → w.duty ep ≡ collects
      → Step w (record {
        ctl = (publish w.ctl ep snap).0;
        duty = assign w.duty ep (after_fence (publish w.ctl ep snap).1 has_published);
      })
  settles_finish :
      (ep : Epoch) (now : Time) (snap : Snapshot)
      → w.duty ep ≡ has_published
      → Step w (record {
        ctl = finish_settle w.ctl ep now snap.validity;
        duty = assign w.duty ep none_left;
      })
  fences :
      (now : Time) (run_id : String) (r : Reason) (c : Controller) (ep : Epoch)
      (names : List String)
      → abort_look w.ctl now run_id r ≡ AbortStep.fenced c ep names
      → Step w (record { ctl = c; duty = assign w.duty ep joins_workers })
  settles_abort :
      (now : Time) (run_id : String) (ep : Epoch) (r : Reason) (detached : Bool)
      (names : List String)
      → w.duty ep ≡ joins_workers
      → Step w (record {
        ctl = (abort_settle w.ctl now run_id ep r detached names).0;
        duty = assign w.duty ep none_left;
      })
  drains :
      (ep : Epoch) (hs : List GenerationHandle)
      → Step w (record w { ctl = start_drain_worker w.ctl ep hs })
  discards :
      (ep : Epoch) (hs : List GenerationHandle) (bs : List BaselineHandle)
      → Step w (record w { ctl = discard_worker w.ctl ep hs bs })
  leaves : (ep : Epoch) → Step w (record w { ctl = leave w.ctl ep })
  reaps : (ep : Epoch) → Step w (record w { ctl = reap w.ctl ep })
  acks :
      (now : Time) (run_id by : String) → Step w (record w { ctl = (ack_by w.ctl now run_id by).0 })
  sweeps : (now : Time) → Step w (record w { ctl = (sweep w.ctl now).0 })
  registers_generation :
      (r : Registration) (g : Option RegisteredGeneration) (budget : Option (Call ℤ))
      → Step w (record w { ctl = (register_generation w.ctl r g budget).0 })
  registers_baseline :
      (r : Registration) (g : Option RegisteredBaseline) (budget : Option (Call ℤ))
      → Step w (record w { ctl = (register_baseline w.ctl r g budget).0 })

-- What New leaves: no run, no epoch used.
abbrev pub new_controller : Budgets → Controller
new_controller b = record {
  budgets = b;
  epoch = 0;
  slots = [];
  gens = [];
  bases = [];
  nonces = [];
  stale = 0;
  published = 0;
  health = [];
  terminations = [];
  released = [];
  released_base = [];
}

abbrev pub new_world : Budgets → World
new_world b = record { ctl = new_controller b; duty = λ e. none_left }

-- Who holds startMu: nobody, a StartRun whose plan aborts or acknowledges the run of an identifier
-- and epoch first, one that has done so or need not, or one that has opened its run.
pub data Starter : Type 0 where
  nobody ready opening_run : Starter
  preempts acknowledges : String → Epoch → Starter

pub record System : Type 0 where
  pub world : World
  pub starter : Starter

abbrev pub after_plan : Option RunSlot → Option RunSlot → Starter
after_plan (some s) _ = preempts s.run_id s.epoch
after_plan none (some s) = acknowledges s.run_id s.epoch
after_plan none none = ready

-- startMu is given up where the opening boundary is committed.
abbrev pub after_step : {w u : World} → Step w u → Starter → Starter
after_step (commits_start now res b d e) h = nobody
after_step _ h = h

-- Identifiers are random and not repeated: one names the slot of the run it was made for.
abbrev pub Names : World → String → Epoch → Type 0
Names w run_id ep = lookup run_id w.ctl.slots ≡ slot_at ep w.ctl.slots

-- One step of some goroutine: a critical section, or what StartRun does under startMu. AckBy's
-- error is ignored, and AbortRun's ends the start.
pub data Turn (m : System) : System → Type 0 where
  works :
      {u : World}
      → (s : Step m.world u) → Turn m (record { world = u; starter = after_step s m.starter })
  plans :
      (now : Time) (o : StartRunOptions) (p a : Option RunSlot)
      → m.starter ≡ nobody
      → plan_start m.world.ctl now o ≡ proceed p a
      → Turn m (record m { starter = after_plan p a })
  has_preempted :
      (now : Time) (run_id : String) (ep : Epoch) (r : Reason) (result : AbortResult)
      → m.starter ≡ preempts run_id ep
      → Names m.world run_id ep
      → abort_look m.world.ctl now run_id r ≡ AbortStep.answered result
      → Turn m (record m { starter = ready })
  gives_up :
      (run_id : String) (ep : Epoch)
      → m.starter ≡ preempts run_id ep
      → Turn m (record m { starter = nobody })
  acks_finished :
      (now : Time) (run_id : String) (ep : Epoch)
      → m.starter ≡ acknowledges run_id ep
      → Names m.world run_id ep
      → Turn m (record {
        world = record m.world { ctl = (ack_by m.world.ctl now run_id "preempt").0 };
        starter = ready;
      })
  opens :
      (now : Time) (run_id nonce trigger : String)
      → m.starter ≡ ready
      → Turn m (record {
        world = record {
          ctl = begin_open m.world.ctl now run_id nonce trigger;
          duty = assign m.world.duty (m.world.ctl.epoch + 1) opens_boundary;
        };
        starter = opening_run;
      })

abbrev pub new_system : Budgets → System
new_system b = record { world = new_world b; starter = nobody }

pub data Reach (m : System) : System → Type 0 where
  here : Reach m m
  next : {u v : System} → Reach m u → Turn u v → Reach m v
