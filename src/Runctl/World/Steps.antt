-- ===== src/Runctl/World/Steps.antt =====
-- Every step keeps the invariant: the steps of a run's own goroutines.
use isutools.Prelude.{
  leb, ◌≤◌, ◌<◌, ◌≡◌, ◌≢◌, refl, ◌∙◌, sym, ap, subst, inl, inr, true, false, none, some, arith,
  Bool-cases, ◌==◌,
}
use isutools.Runctl.Types.{is_live, Epoch, Time, Validity}
use isutools.Runctl.Records.{RunSlot, StartResult, FinishAccepted, Snapshot}
use isutools.Runctl.Controller.{Controller, slot_at, fenced_slot, publish}
use isutools.Runctl.Start.{Boundary, start_commit, state_after_opening}
use isutools.Runctl.Finish.{finish_commit}
use isutools.Runctl.Finish.Worker.{finish_settle}
use isutools.Runctl.World.{
  Duty, none_left, opens_boundary, freezes_boundary, collects, has_published, World, assign,
  after_fence, passes,
}
use isutools.Runctl.World.Slots.{KeepsEpoch}
use isutools.Runctl.World.Effects.{
  Fenced, start_commit-Fenced, finish_commit-Fenced, finish_commit-passes, publish-Fenced,
  publish_hit, finish_settle-Fenced,
}
use isutools.Runctl.World.Invariant.{SlotOk, Agrees, Inv, fence-Inv}

pub assign_self : (duty : Epoch → Duty) (ep : Epoch) (d : Duty) → assign duty ep d ep ≡ d
assign_self duty ep d = ground arith

pub assign_ne :
    (duty : Epoch → Duty) (ep e : Epoch) (d : Duty) → e ≢ ep → assign duty ep d e ≡ duty e
assign_ne duty ep e d h = ground arith

-- A duty that somebody has is at no epoch to come.
pub assign-fresh :
    (w : World) (ep : Epoch) (d : Duty)
    → ep ≤ w.ctl.epoch
    → Inv w
    → (e : Epoch) → w.ctl.epoch < e
    → assign w.duty ep d e ≡ none_left
assign-fresh w ep d le v e h = ground (arith, v.fresh e h)

pub duty-le : (w : World) (ep : Epoch) → Inv w → w.duty ep ≢ none_left → ep ≤ w.ctl.epoch
duty-le w ep v h = elim (Bool-cases (leb ep w.ctl.epoch)) [
  | inl e ↦ ground arith
  | inr e ↦ absurd (h (v.fresh ep (ground arith)))
]

Agrees-none : (d : Duty) → d ≢ none_left → Agrees d none → ⊥
Agrees-none none_left h a = h refl
Agrees-none opens_boundary h a = a
Agrees-none freezes_boundary h a = a
Agrees-none collects h a = a
Agrees-none has_published h a = a
Agrees-none Duty.joins_workers h a = a

-- Where the fence rejects the controller's own epoch, there is no slot of it.
no_slot :
    (w : World) (ep : Epoch)
    → w.ctl.epoch ≡ ep
    → fenced_slot w.ctl ep ≡ none
    → Agrees (w.duty w.ctl.epoch) (slot_at w.ctl.epoch w.ctl.slots)
    → Agrees (w.duty ep) none
no_slot w ep same h a =
    let hit : (ep == w.ctl.epoch) ≡ true = ground arith in
    let gone : slot_at ep w.ctl.slots ≡ none = rw hit at h in
    subst (Agrees (w.duty ep)) gone (subst (λ x. Agrees (w.duty x) (slot_at x w.ctl.slots)) same a)

-- A write behind the fence by the goroutine that has the duty `d`, which goes over to `d'`.
pub duty-Inv :
    (w : World) (c : Controller) (ep : Epoch) (f : RunSlot → RunSlot) (d d' : Duty)
    → Inv w
    → w.duty ep ≡ d
    → d ≢ none_left
    → Fenced w.ctl c ep f
    → KeepsEpoch f
    → ((s : RunSlot)
        → fenced_slot w.ctl ep ≡ some s
        → Agrees d (some s)
        → SlotOk w.ctl.epoch s
        → (is_live s.state ≡ false → is_live (f s).state ≡ false)
          × SlotOk w.ctl.epoch (f s)
          × Agrees d' (some (f s)))
    → Inv (record { ctl = c; duty = assign w.duty ep d' })
duty-Inv w c ep f d d' v has real fenced keeps change =
    fence-Inv w c (assign w.duty ep d') ep f v fenced.epoch fenced.passed fenced.rejected keeps
      (λ s h a k.
        let r = change s h (subst (λ x. Agrees x (some s)) has a) k in
        (r.0, r.1, rw (assign_self w.duty ep d') r.2))
      (λ h a. elim (Bool-cases (w.ctl.epoch == ep)) [
        | inl e ↦
            let same : w.ctl.epoch ≡ ep = ground arith in
            absurd (Agrees-none d real (subst (λ x. Agrees x none) has (no_slot w ep same h a)))
        | inr e ↦ rw (assign_ne w.duty ep w.ctl.epoch d' (ground arith)) a
      ])
      (assign-fresh w ep d' (duty-le w ep v (λ n. real (sym has ∙ n))) v)

pub commits_start-Inv :
    (w : World) (now : Time) (res : StartResult) (b : Boundary)
    → Inv w
    → w.duty res.epoch ≡ opens_boundary
    → res.state ≡ state_after_opening b.validity
    → Inv (record {
      ctl = (start_commit w.ctl now res b).0;
      duty = assign w.duty res.epoch none_left;
    })
commits_start-Inv w now res b v has st =
    duty-Inv w _ res.epoch _ opens_boundary none_left v has (λ e. cc)
      (start_commit-Fenced w.ctl now res b) (λ s. ground arith) (λ s h a k. ground arith)

pub commits_finish-Inv :
    (w : World) (now : Time) (accepted : FinishAccepted) (b : Boundary)
    → Inv w
    → w.duty accepted.epoch ≡ freezes_boundary
    → Inv (record {
      ctl = (finish_commit w.ctl now accepted b).0;
      duty =
          assign w.duty accepted.epoch
            (after_fence (passes (finish_commit w.ctl now accepted b).1) collects);
    })
commits_finish-Inv w now a b v has =
    duty-Inv w _ a.epoch _ freezes_boundary _ v has (λ e. cc) (finish_commit-Fenced w.ctl now a b)
      (λ s. refl) (λ s h g k. rw ((finish_commit-passes w.ctl now a b).0 s h) (ground arith))

pub publishes-Inv :
    (w : World) (ep : Epoch) (snap : Snapshot)
    → Inv w
    → w.duty ep ≡ collects
    → Inv (record {
      ctl = (publish w.ctl ep snap).0;
      duty = assign w.duty ep (after_fence (publish w.ctl ep snap).1 has_published);
    })
publishes-Inv w ep snap v has =
    duty-Inv w _ ep _ collects _ v has (λ e. cc) (publish-Fenced w.ctl ep snap) (λ s. refl)
      (λ s h g k. rw (ap (λ r. r.1) (publish_hit w.ctl ep snap s h)) (ground arith))

pub settles_finish-Inv :
    (w : World) (ep : Epoch) (now : Time) (verdict : Validity)
    → Inv w
    → w.duty ep ≡ has_published
    → Inv (record { ctl = finish_settle w.ctl ep now verdict; duty = assign w.duty ep none_left })
settles_finish-Inv w ep now verdict v has =
    duty-Inv w _ ep _ has_published none_left v has (λ e. cc)
      (finish_settle-Fenced w.ctl ep now verdict) (λ s. refl) (λ s h g k. ground arith)
