-- ===== src/Runctl/World/Liveness.antt =====
-- No run of internal/runctl is forgotten: whoever opens or closes a boundary is there, and can end it.
use isutools.Prelude.{◌≡◌, some}
use isutools.Runctl.Types.{RunState, Epoch}
use isutools.Runctl.Records.{RunSlot}
use isutools.Runctl.Controller.{Controller, slot_at}
use isutools.Runctl.World.{World, System, Reach}

-- Some steps lead to a world where the run of an epoch is in a state.
abbrev pub CanBe : RunState → System → Epoch → Type 0
CanBe st w ep =
    (v : System) × Reach w v
    × ((s : RunSlot) × (slot_at ep v.world.ctl.slots ≡ some s) × (s.state ≡ st))
