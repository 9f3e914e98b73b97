-- ===== src/Runctl/Phase/Baseline.antt =====
-- The baseline phases keep the contract of a boundary phase.
use isutools.Prelude.{
  ℕ, suc, ◌≡◌, refl, ◌∙◌, Bool, true, false, not, ◌&&◌, String, List, [], ◌∷◌, map, Option, none,
  some, if◌then◌else◌, All₂, arith,
}
use isutools.Runctl.Types.{Phase, baseline, Failure, Epoch, BaselineHandle, is_zero_handle}
use isutools.Runctl.Phase.{
  RegisteredBaseline, baseline_turn, baseline_turns, empty_outcome, run_baseline_phase, safe_result,
  baseline_call, zero_sample,
}
use isutools.Runctl.Phase.Contract.{
  IsTurnOf, KeepsContract, turns-KeepsContract, add_turns-handles, gather,
}

baseline_turn-IsTurnOf :
    (phase : Phase) (run_id : String) (ep : Epoch) (semaphore ctx : Option Failure)
    (rc : RegisteredBaseline)
    → IsTurnOf baseline phase rc.reg (baseline_turn phase run_id ep semaphore ctx rc)
unfolding baseline_turn
baseline_turn-IsTurnOf phase run_id ep semaphore ctx rc = ground arith

baseline_turns-IsTurnOf :
    (phase : Phase) (run_id : String) (ep : Epoch) (semaphore expired : ℕ → Option Failure)
    (regs : List RegisteredBaseline)
    → All₂
        (IsTurnOf baseline phase)
        (map (λ rc. rc.reg) regs)
        (baseline_turns phase run_id ep semaphore expired regs)
unfolding baseline_turns
baseline_turns-IsTurnOf phase run_id ep semaphore expired [] = tt
baseline_turns-IsTurnOf phase run_id ep semaphore expired (rc ∷ rcs) = (
  baseline_turn-IsTurnOf phase run_id ep (semaphore 0) (expired 0) rc,
  baseline_turns-IsTurnOf phase run_id ep (λ i. semaphore (suc i)) (λ i. expired (suc i)) rcs,
)

-- The opening and the closing phase of the baseline collectors record every collector, whichever
-- of them the semaphore or the deadline keeps from sampling.
pub run_baseline_phase-KeepsContract :
    (phase : Phase) (run_id : String) (ep : Epoch) (semaphore expired : ℕ → Option Failure)
    (regs : List RegisteredBaseline)
    → KeepsContract baseline phase
        (map (λ rc. rc.reg) regs)
        (run_baseline_phase phase run_id ep semaphore expired regs)
unfolding run_baseline_phase
run_baseline_phase-KeepsContract phase run_id ep semaphore expired regs =
    turns-KeepsContract baseline phase _ _
      (baseline_turns-IsTurnOf phase run_id ep semaphore expired regs)

-- Whether a parallel collector gets its place, and any collector its time.
abbrev pub reached : Bool → Option Failure → Option Failure → Bool
reached serial semaphore none = elim semaphore [ some e ↦ serial | none ↦ true ]
reached serial semaphore (some e) = false

-- The samples that were fixed: all those of the collectors that succeeded, and of those that
-- failed the ones that carry something.
abbrev pub committed_samples :
    Phase
    → String
    → Epoch
    → (ℕ → Option Failure)
    → (ℕ → Option Failure)
    → List RegisteredBaseline
    → List BaselineHandle
committed_samples phase run_id ep semaphore expired [] = []
committed_samples phase run_id ep semaphore expired (rc ∷ rcs) =
    let rest =
      committed_samples phase run_id ep (λ i. semaphore (suc i)) (λ i. expired (suc i)) rcs in
    let answer = safe_result zero_sample (baseline_call phase rc run_id ep) in
    let carries : Bool = elim answer.1 [
      | none ↦ true
      | some e ↦ not (is_zero_handle answer.0.handle)
    ] in
    if reached rc.reg.serial_only (semaphore 0) (expired 0) && (answer.0.committed && carries)
    then answer.0.handle ∷ rest
    else rest

gather-baseline_turns :
    (phase : Phase) (run_id : String) (ep : Epoch) (semaphore expired : ℕ → Option Failure)
    (regs : List RegisteredBaseline)
    → gather (baseline_turns phase run_id ep semaphore expired regs)
      ≡ committed_samples phase run_id ep semaphore expired regs
unfolding baseline_turns baseline_turn
gather-baseline_turns phase run_id ep semaphore expired [] = refl
gather-baseline_turns phase run_id ep semaphore expired (rc ∷ rcs) = ground (
  arith,
  gather-baseline_turns phase run_id ep (λ i. semaphore (suc i)) (λ i. expired (suc i)) rcs,
)

-- The phase hands over exactly the samples that were fixed, in registration order.
pub run_baseline_phase-handles :
    (phase : Phase) (run_id : String) (ep : Epoch) (semaphore expired : ℕ → Option Failure)
    (regs : List RegisteredBaseline)
    → (run_baseline_phase phase run_id ep semaphore expired regs).handles
      ≡ committed_samples phase run_id ep semaphore expired regs
unfolding run_baseline_phase
run_baseline_phase-handles phase run_id ep semaphore expired regs =
    add_turns-handles empty_outcome (baseline_turns phase run_id ep semaphore expired regs)
    ∙ gather-baseline_turns phase run_id ep semaphore expired regs
