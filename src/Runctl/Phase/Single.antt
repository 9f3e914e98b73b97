-- ===== src/Runctl/Phase/Single.antt =====
-- The generation phase over one collector that it reaches.
use isutools.Prelude.{◌≡◌, refl, String, true, [], ◌∷◌, none, some}
use isutools.Runctl.Types.{Epoch, Phase, BoundaryResult, valid}
use isutools.Runctl.Phase.{
  RegisteredGeneration, returns, generation_call, run_generation_phase, generation_turns,
  generation_turn, generation_answer, add_turns,
}

committed_turn :
    (phase : Phase) (run_id : String) (rc : RegisteredGeneration) (res : BoundaryResult)
    → res.committed ≡ true
    → let t = generation_answer phase run_id rc.reg res none in
      (t.degrade ≡ none) × (t.handle ≡ some res.handle)
unfolding generation_answer
committed_turn phase run_id rc res h = rw h (refl, refl)

-- A boundary that is committed without an error leaves the run valid and hands its handle over.
pub run_generation_phase-committed :
    (phase : Phase) (run_id : String) (ep : Epoch) (rc : RegisteredGeneration)
    (res : BoundaryResult)
    → generation_call phase rc run_id ep ≡ returns res none
    → res.committed ≡ true
    → let out = run_generation_phase phase run_id ep (λ i. none) (rc ∷ []) in
      (out.validity ≡ valid) × (out.handles ≡ res.handle ∷ [])
unfolding run_generation_phase generation_turns generation_turn add_turns
run_generation_phase-committed phase run_id ep rc res e h =
    let (a, b) = committed_turn phase run_id rc res h in rw (e, a, b) (refl, refl)
