-- ===== src/Runctl/Release.antt =====
-- internal/runctl/start.go, the cleanup paths: finding a handle's collector and releasing it.
use isutools.Prelude.{String, str_eq, List, [], ◌∷◌, ◌++◌, Option, none, some, find?, if◌then◌else◌}
use isutools.Runctl.Types.{
  GenerationHandle, BaselineHandle, HealthEvent, is_panic, CollectorBoundary,
}
use isutools.Runctl.Phase.{RegisteredGeneration, RegisteredBaseline, Call, safe_err, violation}
use isutools.Runctl.Controller.{Controller}

abbrev pub generation_by_name : List RegisteredGeneration → String → Option RegisteredGeneration
generation_by_name gens name = find? (λ rc. str_eq rc.reg.name name) gens

abbrev pub baseline_by_name : List RegisteredBaseline → String → Option RegisteredBaseline
baseline_by_name bases name = find? (λ rc. str_eq rc.reg.name name) bases

-- A panic on a cleanup path is reported and swallowed; any other error is ignored.
abbrev pub safe_invoke : String → Call (Unit {0}) → List HealthEvent
safe_invoke name call = elim (safe_err call) [
  | none ↦ []
  | some e ↦ if is_panic e then violation "" name ∷ [] else []
]

unfoldable pub release_generation_one :
    Controller → GenerationHandle → Option RegisteredGeneration → Controller
release_generation_one c h none = c
release_generation_one c h (some rc) = record c {
  released = c.released ++ h ∷ [];
  health = c.health ++ safe_invoke rc.reg.name (rc.release h);
}

unfoldable pub release_generation : Controller → List GenerationHandle → Controller
unfolding release_generation_one
release_generation c [] = c
release_generation c (h ∷ hs) =
    release_generation (release_generation_one c h (generation_by_name c.gens h.collector)) hs

unfoldable pub release_baseline_one :
    Controller → BaselineHandle → Option RegisteredBaseline → Controller
release_baseline_one c h none = c
release_baseline_one c h (some rc) = record c {
  released_base = c.released_base ++ h ∷ [];
  health = c.health ++ safe_invoke rc.reg.name (rc.release h);
}

unfoldable pub release_baseline : Controller → List BaselineHandle → Controller
unfolding release_baseline_one
release_baseline c [] = c
release_baseline c (h ∷ hs) =
    release_baseline (release_baseline_one c h (baseline_by_name c.bases h.collector)) hs

-- Settle, then free: a drain that fails does not keep the handle from being released.
unfoldable pub drain_and_release_one :
    Controller → GenerationHandle → Option RegisteredGeneration → Controller
drain_and_release_one c h none = c
drain_and_release_one c h (some rc) = record c {
  released = c.released ++ h ∷ [];
  health =
      (c.health ++ safe_invoke rc.reg.name (rc.drain h)) ++ safe_invoke rc.reg.name (rc.release h);
}

unfoldable pub drain_and_release : Controller → List GenerationHandle → Controller
unfolding drain_and_release_one
drain_and_release c [] = c
drain_and_release c (h ∷ hs) =
    drain_and_release (drain_and_release_one c h (generation_by_name c.gens h.collector)) hs

-- The collectors that had switched when a run died.
unfoldable pub committed_names : List CollectorBoundary → List String
committed_names [] = []
committed_names (b ∷ bs) =
    let rest = committed_names bs in if b.committed then b.name ∷ rest else rest
