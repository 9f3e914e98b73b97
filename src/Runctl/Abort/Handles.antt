-- ===== src/Runctl/Abort/Handles.antt =====
-- internal/runctl/abort.go: which handles an abort and its reaper give back.
use isutools.Prelude.{
  ◌≡◌, refl, sym, ap, ◌∙◌, inl, inr, Bool, true, false, String, List, [], ◌∷◌, ◌++◌, some, is_some,
  keep_if, Option-cases, Bool-cases, ◌==◌,
}
use mathlib.Core.List.{append-nil, append_assoc}
use isutools.Runctl.Types.{Epoch, Time, Reason, GenerationHandle, BaselineHandle}
use isutools.Runctl.Records.{RunSlot}
use isutools.Runctl.Controller.{Controller, update, slot_at}
use isutools.Runctl.Release.{
  generation_by_name, baseline_by_name, release_generation, release_generation_one,
  release_baseline, release_baseline_one,
}
use isutools.Runctl.Abort.{abort_result, settle_slot, abort_settle, slot_gen, slot_base, reap}

-- Whether a handle's collector is registered.
abbrev pub knows_generation : Controller → GenerationHandle → Bool
knows_generation c h = is_some (generation_by_name c.gens h.collector)

abbrev pub knows_baseline : Controller → BaselineHandle → Bool
knows_baseline c h = is_some (baseline_by_name c.bases h.collector)

-- From one controller to a later one, releases were asked for exactly for the handles of these
-- that have a collector, in order.
pub record GivesBack (c c' : Controller) (gen : List GenerationHandle) (base : List BaselineHandle)
    : Type 0 where
  pub generations : c'.released ≡ c.released ++ keep_if (knows_generation c) gen
  pub baselines : c'.released_base ≡ c.released_base ++ keep_if (knows_baseline c) base

-- The rest of a controller that a release does not touch.
record Keeps (c c' : Controller) : Type 0 where
  gens : c'.gens ≡ c.gens
  bases : c'.bases ≡ c.bases
  slots : c'.slots ≡ c.slots

release_generation-Keeps :
    (c : Controller) (hs : List GenerationHandle)
    → Keeps c (release_generation c hs)
      × ((release_generation c hs).released ≡ c.released ++ keep_if (knows_generation c) hs)
      × ((release_generation c hs).released_base ≡ c.released_base)
unfolding release_generation release_generation_one
release_generation-Keeps c [] =
    (record { gens = refl; bases = refl; slots = refl }, sym (append-nil c.released), refl)
release_generation-Keeps c (h ∷ hs) = elim (Option-cases (generation_by_name c.gens h.collector)) [
  | inl e ↦ rw (e, release_generation) (release_generation-Keeps c hs)
  | inr (rc, e) ↦
      let r = release_generation-Keeps (release_generation_one c h (some rc)) hs in
      rw (e, release_generation)
        (
          record { gens = r.0.gens; bases = r.0.bases; slots = r.0.slots },
          r.1 ∙ append_assoc c.released (h ∷ []) (keep_if (knows_generation c) hs),
          r.2,
        )
]

release_baseline-Keeps :
    (c : Controller) (hs : List BaselineHandle)
    → Keeps c (release_baseline c hs)
      × ((release_baseline c hs).released_base ≡ c.released_base ++ keep_if (knows_baseline c) hs)
      × ((release_baseline c hs).released ≡ c.released)
unfolding release_baseline release_baseline_one
release_baseline-Keeps c [] =
    (record { gens = refl; bases = refl; slots = refl }, sym (append-nil c.released_base), refl)
release_baseline-Keeps c (h ∷ hs) = elim (Option-cases (baseline_by_name c.bases h.collector)) [
  | inl e ↦ rw (e, release_baseline) (release_baseline-Keeps c hs)
  | inr (rc, e) ↦
      let r = release_baseline-Keeps (release_baseline_one c h (some rc)) hs in
      rw (e, release_baseline)
        (
          record { gens = r.0.gens; bases = r.0.bases; slots = r.0.slots },
          r.1 ∙ append_assoc c.released_base (h ∷ []) (keep_if (knows_baseline c) hs),
          r.2,
        )
]

-- A release of both kinds.
release_both-GivesBack :
    (c : Controller) (gen : List GenerationHandle) (base : List BaselineHandle)
    → GivesBack c (release_baseline (release_generation c gen) base) gen base
      × ((release_baseline (release_generation c gen) base).slots ≡ c.slots)
release_both-GivesBack c gen base =
    let g = release_generation-Keeps c gen in
    let b = release_baseline-Keeps (release_generation c gen) base in
    let d = release_generation c gen in
    let known : keep_if (knows_baseline d) base ≡ keep_if (knows_baseline c) base =
      ap (λ bs. keep_if (λ h. is_some (baseline_by_name bs h.collector)) base) g.0.bases in
    (
      record {
        generations = b.2 ∙ g.1;
        baselines =
            b.1
            ∙ ap (λ x. x ++ keep_if (knows_baseline d) base) g.2
            ∙ ap (λ x. c.released_base ++ x) known;
      },
      b.0.slots ∙ g.0.slots,
    )

-- A change of the slot of an epoch that takes its handles away leaves none there.
slot_at-forgets :
    (ep : Epoch) (f : RunSlot → RunSlot) (slots : List RunSlot)
    → ((s : RunSlot) → (f s).epoch ≡ s.epoch)
    → ((s : RunSlot) → (slot_gen (some (f s)) ≡ []) × (slot_base (some (f s)) ≡ []))
    → (slot_gen (slot_at ep (update ep f slots)) ≡ [])
      × (slot_base (slot_at ep (update ep f slots)) ≡ [])
unfolding update
slot_at-forgets ep f [] k e = (refl, refl)
slot_at-forgets ep f (s ∷ ss) k e = elim (Bool-cases (s.epoch == ep)) [
  | inl h ↦ rw (h, k s, h) (e s)
  | inr h ↦ rw (h, h) (slot_at-forgets ep f ss k e)
]

-- The reaper gives back exactly what its slot holds, once: it leaves nothing for another reaper.
pub reap-GivesBack :
    (c : Controller) (ep : Epoch)
    → let s = slot_at ep c.slots in
      let c' = reap c ep in
      GivesBack c c' (slot_gen s) (slot_base s)
      × (slot_gen (slot_at ep c'.slots) ≡ [])
      × (slot_base (slot_at ep c'.slots) ≡ [])
unfolding reap
reap-GivesBack c ep =
    let f : RunSlot → RunSlot =
      λ s. record s { gen = []; gen_final = []; base = []; base_f = [] } in
    let c' : Controller = record c { slots = update ep f c.slots } in
    let s = slot_at ep c.slots in
    let r = release_both-GivesBack c' (slot_gen s) (slot_base s) in
    let e = slot_at-forgets ep f c.slots (λ t. refl) (λ t. (refl, refl)) in
    (record { generations = r.0.generations; baselines = r.0.baselines }, rw r.1 e.0, rw r.1 e.1)

slot_at-keeps :
    (ep : Epoch) (f : RunSlot → RunSlot) (slots : List RunSlot)
    → ((s : RunSlot) → (f s).epoch ≡ s.epoch)
    → ((s : RunSlot)
        → (slot_gen (some (f s)) ≡ slot_gen (some s))
          × (slot_base (some (f s)) ≡ slot_base (some s)))
    → (slot_gen (slot_at ep (update ep f slots)) ≡ slot_gen (slot_at ep slots))
      × (slot_base (slot_at ep (update ep f slots)) ≡ slot_base (slot_at ep slots))
unfolding update
slot_at-keeps ep f [] k e = (refl, refl)
slot_at-keeps ep f (s ∷ ss) k e = elim (Bool-cases (s.epoch == ep)) [
  | inl h ↦ rw (h, k s, h) (e s)
  | inr h ↦ rw (h, h) (slot_at-keeps ep f ss k e)
]

-- An abort that joined its run gives back exactly the handles of the run's slot that have a
-- collector and leaves none there; one that gave up the join gives back none, and its reaper then
-- gives back exactly those.
pub abort_settle-GivesBack :
    (c : Controller) (now : Time) (run_id : String) (ep : Epoch) (r : Reason) (names : List String)
    → let s = slot_at ep c.slots in
      let joined = (abort_settle c now run_id ep r false names).0 in
      let gave_up = (abort_settle c now run_id ep r true names).0 in
      GivesBack c joined (slot_gen s) (slot_base s)
      × (slot_gen (slot_at ep joined.slots) ≡ [])
      × (slot_base (slot_at ep joined.slots) ≡ [])
      × GivesBack c gave_up [] []
      × GivesBack c (reap gave_up ep) (slot_gen s) (slot_base s)
unfolding abort_settle
abort_settle-GivesBack c now run_id ep r names =
    let s = slot_at ep c.slots in
    let f = settle_slot now (abort_result run_id ep r false now names) in
    let g = settle_slot now (abort_result run_id ep r true now names) in
    let c' : Controller = record c { slots = update ep f c.slots } in
    let rel = release_both-GivesBack c' (slot_gen s) (slot_base s) in
    let e = slot_at-forgets ep f c.slots (λ t. refl) (λ t. (refl, refl)) in
    let k = slot_at-keeps ep g c.slots (λ t. refl) (λ t. (refl, refl)) in
    let d = (abort_settle c now run_id ep r true names).0 in
    let p = (reap-GivesBack d ep).0 in
    (
      record { generations = rel.0.generations; baselines = rel.0.baselines },
      rw rel.1 e.0,
      rw rel.1 e.1,
      record {
        generations = sym (append-nil c.released);
        baselines = sym (append-nil c.released_base);
      },
      record {
        generations = p.generations ∙ ap (λ x. c.released ++ keep_if (knows_generation c) x) k.0;
        baselines = p.baselines ∙ ap (λ x. c.released_base ++ keep_if (knows_baseline c) x) k.1;
      },
    )
