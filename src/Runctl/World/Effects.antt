-- ===== src/Runctl/World/Effects.antt =====
-- What each operation does to the controller's epoch and slots.
use isutools.Prelude.{
  ◌+◌, ◌≡◌, refl, ◌∙◌, inl, inr, true, false, List, [], ◌∷◌, none, some, arith, Option-cases,
  Bool-cases, ◌==◌, ◌++◌,
}
use isutools.Runctl.Types.{Epoch, Time, GenerationHandle, BaselineHandle, Validity}
use isutools.Runctl.Records.{RunSlot, StartResult, FinishAccepted, Snapshot, notify}
use isutools.Runctl.Controller.{Controller, update, slot_at, fenced_slot, commit, publish}
use isutools.Runctl.Release.{
  release_generation, release_baseline, drain_and_release, release_generation_one,
  release_baseline_one, drain_and_release_one, generation_by_name, baseline_by_name,
}
use isutools.Runctl.Start.{Boundary, start_commit, open_slot}
use isutools.Runctl.World.{passes}
use isutools.Runctl.Finish.{finish_commit, closed_slot}
use isutools.Runctl.Finish.Worker.{finish_settle, finished_slot}

fenced_slot_at :
    (c : Controller) (ep : Epoch) (s : RunSlot)
    → fenced_slot c ep ≡ some s
    → slot_at ep c.slots ≡ some s
fenced_slot_at c ep s h = elim (Bool-cases (ep == c.epoch)) [
  | inl e ↦ rw e at h
  | inr e ↦ absurd (cc (rw e at h))
]

-- The epoch and the slots are what a controller had.
pub record Same (c c' : Controller) : Type 0 where
  pub epoch : c'.epoch ≡ c.epoch
  pub slots : c'.slots ≡ c.slots

pub Same-trans : (a b c : Controller) → Same a b → Same b c → Same a c
Same-trans a b c h k = record { epoch = k.epoch ∙ h.epoch; slots = k.slots ∙ h.slots }

Same-stale :
    (c c₁ c₂ : Controller) → c₁.epoch ≡ c.epoch → c₁.slots ≡ c.slots → Same c₁ c₂ → Same c c₂
Same-stale c c₁ c₂ h k m = record { epoch = m.epoch ∙ h; slots = m.slots ∙ k }

pub release_generation-Same :
    (c : Controller) (hs : List GenerationHandle) → Same c (release_generation c hs)
unfolding release_generation
release_generation-Same c [] = record { epoch = refl; slots = refl }
release_generation-Same c (h ∷ hs) =
    let c' = release_generation_one c h (generation_by_name c.gens h.collector) in
    Same-trans c c' (release_generation c' hs) (ground arith) (release_generation-Same c' hs)

pub release_baseline-Same :
    (c : Controller) (hs : List BaselineHandle) → Same c (release_baseline c hs)
unfolding release_baseline
release_baseline-Same c [] = record { epoch = refl; slots = refl }
release_baseline-Same c (h ∷ hs) =
    let c' = release_baseline_one c h (baseline_by_name c.bases h.collector) in
    Same-trans c c' (release_baseline c' hs) (ground arith) (release_baseline-Same c' hs)

pub drain_and_release-Same :
    (c : Controller) (hs : List GenerationHandle) → Same c (drain_and_release c hs)
unfolding drain_and_release
drain_and_release-Same c [] = record { epoch = refl; slots = refl }
drain_and_release-Same c (h ∷ hs) =
    let c' = drain_and_release_one c h (generation_by_name c.gens h.collector) in
    Same-trans c c' (drain_and_release c' hs) (ground arith) (drain_and_release-Same c' hs)

pub release_both-Same :
    (c : Controller) (hs : List GenerationHandle) (bs : List BaselineHandle)
    → Same c (release_baseline (release_generation c hs) bs)
release_both-Same c hs bs =
    Same-trans c _ _ (release_generation-Same c hs)
      (release_baseline-Same (release_generation c hs) bs)

-- A write that the fence lets through, or rejects.
pub record Fenced (c c' : Controller) (ep : Epoch) (f : RunSlot → RunSlot) : Type 0 where
  pub epoch : c'.epoch ≡ c.epoch
  pub passed : (s : RunSlot) → fenced_slot c ep ≡ some s → c'.slots ≡ update ep f c.slots
  pub rejected : fenced_slot c ep ≡ none → c'.slots ≡ c.slots

Fenced-of :
    (c c' : Controller) (ep : Epoch) (f : RunSlot → RunSlot)
    → ((s : RunSlot)
        → fenced_slot c ep ≡ some s
        → (c'.epoch ≡ c.epoch) × (c'.slots ≡ update ep f c.slots))
    → (fenced_slot c ep ≡ none → Same c c')
    → Fenced c c' ep f
Fenced-of c c' ep f hit miss = record {
  epoch = elim (Option-cases (fenced_slot c ep)) [
    | inl e ↦ (miss e).epoch
    | inr (s, e) ↦ (hit s e).0
  ];
  passed = λ s h. (hit s h).1;
  rejected = λ h. (miss h).slots;
}

-- The two answers of the fence.
pub commit_hit :
    (c : Controller) (ep : Epoch) (f : RunSlot → RunSlot) (s : RunSlot)
    → fenced_slot c ep ≡ some s
    → commit c ep f ≡ (record c { slots = update ep (λ s. notify (f s)) c.slots }, true)
unfolding commit update
commit_hit c ep f s h = rw (h, commit)

pub commit_miss :
    (c : Controller) (ep : Epoch) (f : RunSlot → RunSlot)
    → fenced_slot c ep ≡ none
    → commit c ep f ≡ (record c { stale = c.stale + 1 }, false)
unfolding commit
commit_miss c ep f h = rw (h, commit)

pub publish_hit :
    (c : Controller) (ep : Epoch) (snap : Snapshot) (s : RunSlot)
    → fenced_slot c ep ≡ some s
    → publish c ep snap ≡ (
      record c {
        slots = update ep (λ s. record s { snapshot = some snap }) c.slots;
        published = c.published + 1;
      },
      true,
    )
unfolding publish update
publish_hit c ep snap s h = rw (h, publish)

pub publish_miss :
    (c : Controller) (ep : Epoch) (snap : Snapshot)
    → fenced_slot c ep ≡ none
    → publish c ep snap ≡ (record c { stale = c.stale + 1 }, false)
unfolding publish
publish_miss c ep snap h = rw (h, publish)

pub commit-Fenced :
    (c : Controller) (ep : Epoch) (f : RunSlot → RunSlot)
    → Fenced c (commit c ep f).0 ep (λ s. notify (f s))
commit-Fenced c ep f =
    Fenced-of c _ ep _ (λ s h. rw (commit_hit c ep f s h) (refl, refl))
      (λ h. rw (commit_miss c ep f h) (record { epoch = refl; slots = refl }))

pub publish-Fenced :
    (c : Controller) (ep : Epoch) (snap : Snapshot)
    → Fenced c (publish c ep snap).0 ep (λ s. record s { snapshot = some snap })
publish-Fenced c ep snap =
    Fenced-of c _ ep _ (λ s h. rw (publish_hit c ep snap s h) (refl, refl))
      (λ h. rw (publish_miss c ep snap h) (record { epoch = refl; slots = refl }))

pub start_commit-Fenced :
    (c : Controller) (now : Time) (res : StartResult) (b : Boundary)
    → Fenced c (start_commit c now res b).0 res.epoch (λ s. notify (open_slot now res b s))
unfolding start_commit
start_commit-Fenced c now res b =
    let c₀ : Controller = record c { health = c.health ++ b.health } in
    Fenced-of c _ res.epoch _
      (λ s h. rw (commit_hit c₀ res.epoch (open_slot now res b) s h) (refl, refl))
      (λ h. rw (commit_miss c₀ res.epoch (open_slot now res b) h) (
        Same-stale c (record c₀ { stale = c₀.stale + 1 }) _ refl refl
          (release_both-Same (record c₀ { stale = c₀.stale + 1 }) b.gen b.base)))

pub finish_commit-Fenced :
    (c : Controller) (now : Time) (a : FinishAccepted) (b : Boundary)
    → Fenced c (finish_commit c now a b).0 a.epoch (λ s. notify (closed_slot c now a b s))
unfolding finish_commit
finish_commit-Fenced c now a b =
    let c₀ : Controller = record c { health = c.health ++ b.health } in
    Fenced-of c _ a.epoch _
      (λ s h.
        rw (fenced_slot_at c a.epoch s h, commit_hit c₀ a.epoch (closed_slot c now a b) s h)
          (refl, refl))
      (λ h. rw (commit_miss c₀ a.epoch (closed_slot c now a b) h) (
        Same-stale c (record c₀ { stale = c₀.stale + 1 }) _ refl refl
          (release_both-Same (record c₀ { stale = c₀.stale + 1 }) b.gen b.base)))

-- Whether a worker is started, and whether a publication passed, is the fence's answer.
pub finish_commit-passes :
    (c : Controller) (now : Time) (a : FinishAccepted) (b : Boundary)
    → ((s : RunSlot) → fenced_slot c a.epoch ≡ some s → passes (finish_commit c now a b).1 ≡ true)
      × (fenced_slot c a.epoch ≡ none → passes (finish_commit c now a b).1 ≡ false)
unfolding finish_commit
finish_commit-passes c now a b =
    let c₀ : Controller = record c { health = c.health ++ b.health } in
    (
      λ s h. rw (fenced_slot_at c a.epoch s h, commit_hit c₀ a.epoch (closed_slot c now a b) s h),
      λ h. rw (commit_miss c₀ a.epoch (closed_slot c now a b) h),
    )

pub finish_settle-Fenced :
    (c : Controller) (ep : Epoch) (now : Time) (v : Validity)
    → Fenced c (finish_settle c ep now v) ep (λ s. notify (finished_slot now v s))
unfolding finish_settle
finish_settle-Fenced c ep now v = commit-Fenced c ep (finished_slot now v)
