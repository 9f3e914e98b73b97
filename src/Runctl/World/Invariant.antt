-- ===== src/Runctl/World/Invariant.antt =====
-- What holds of the controller and its goroutines between two critical sections.
use isutools.Prelude.{
  ◌<◌, ◌≡◌, ◌≢◌, inl, inr, Bool, true, false, List, Option, none, some, is_some, All, arith,
  Bool-cases, Option-cases, ◌∙◌, ◌==◌, if◌then◌else◌, sym, subst,
}
use mathlib.Core.Option
use isutools.Runctl.Types.{
  is_live, RunState, idle, starting, started, finishing, finished, aborted, expired, Epoch,
}
use isutools.Runctl.Records.{RunSlot}
use isutools.Runctl.Controller.{Controller, update, slot_at, fenced_slot}
use isutools.Runctl.World.{
  Duty, none_left, opens_boundary, freezes_boundary, collects, has_published, joins_workers, World,
}
use isutools.Runctl.World.Slots.{
  Rising, OnlyLast, slot_at-All, update-All, update-Rising, update-OnlyLast, length-update,
  slot_at-update, KeepsEpoch, CalmsAt,
}

abbrev pub is_dead : RunState → Bool
is_dead aborted = true
is_dead expired = true
is_dead _ = false

-- A live run holds the controller's epoch, a dead one no snapshot, and none is stored as idle.
pub record SlotOk (epoch : Epoch) (s : RunSlot) : Type 0 where
  pub current : is_live s.state ≡ true → s.epoch ≡ epoch
  pub buried : is_dead s.state ≡ true → s.snapshot ≡ none
  pub stored : s.state ≢ idle

-- What the duty at the current epoch says of that epoch's slot: a starting or finishing run has
-- its goroutine, a finished one its snapshot, and only an accepted finish its record.
abbrev pub Agrees : Duty → Option RunSlot → Type 0
Agrees none_left none = Unit
Agrees none_left (some s) =
    (s.state ≢ starting)
    × (s.state ≢ finishing)
    × (s.state ≡ finished → is_some s.snapshot ≡ true)
    × (s.state ≡ started → s.finish_set ≡ false)
Agrees opens_boundary (some s) = (s.state ≡ starting) × (s.finish_set ≡ false) × (s.snapshot ≡ none)
Agrees freezes_boundary (some s) = (s.state ≡ finishing) × (s.finish_set ≡ false)
Agrees collects (some s) = (s.state ≡ finishing) × (s.finish_set ≡ true)
Agrees has_published (some s) =
    (s.state ≡ finishing) × (s.finish_set ≡ true) × (is_some s.snapshot ≡ true)
Agrees _ _ = ⊥

pub record Inv (w : World) : Type 0 where
  pub ordered : Rising 0 w.ctl.epoch w.ctl.slots
  pub only_last : OnlyLast w.ctl.slots
  pub slots_ok : All (SlotOk w.ctl.epoch) w.ctl.slots
  pub agrees : Agrees (w.duty w.ctl.epoch) (slot_at w.ctl.epoch w.ctl.slots)
  pub fresh : (e : Epoch) → w.ctl.epoch < e → w.duty e ≡ none_left

-- A write at an epoch that leaves the controller's epoch alone, with the duties after it: the
-- invariant asks of it what it does to that one slot.
pub write-Inv :
    (w : World) (c : Controller) (duty : Epoch → Duty) (ep : Epoch) (f : RunSlot → RunSlot)
    → Inv w
    → c.epoch ≡ w.ctl.epoch
    → c.slots ≡ update ep f w.ctl.slots
    → KeepsEpoch f
    → CalmsAt ep w.ctl.slots f
    → ((s : RunSlot)
        → slot_at ep w.ctl.slots ≡ some s
        → SlotOk w.ctl.epoch s
        → SlotOk w.ctl.epoch (f s))
    → Agrees (duty w.ctl.epoch) (slot_at w.ctl.epoch (update ep f w.ctl.slots))
    → ((e : Epoch) → w.ctl.epoch < e → duty e ≡ none_left)
    → Inv (record { ctl = c; duty = duty })
write-Inv w c duty ep f v he hs keeps calms ok agrees fresh =
    let same = length-update ep f w.ctl.slots in
    let ordered = update-Rising ep 0 w.ctl.epoch f w.ctl.slots keeps v.ordered in
    let last = update-OnlyLast ep 0 w.ctl.epoch f w.ctl.slots calms v.ordered v.only_last in
    let all =
      update-All (SlotOk w.ctl.epoch) (SlotOk w.ctl.epoch) ep f w.ctl.slots ok (λ s n h. h) 0
        w.ctl.epoch v.ordered v.slots_ok in
    record {
      ordered = rw (he, hs) ordered;
      only_last = rw hs last;
      slots_ok = rw (he, hs) all;
      agrees = rw (he, hs) agrees;
      fresh = rw he fresh;
    }

-- Nothing that the invariant speaks of has changed.
pub same-Inv :
    (w : World) (c : Controller)
    → Inv w
    → c.epoch ≡ w.ctl.epoch
    → c.slots ≡ w.ctl.slots
    → Inv (record { ctl = c; duty = w.duty })
same-Inv w c v he hs = record {
  ordered = rw (he, hs) v.ordered;
  only_last = rw hs v.only_last;
  slots_ok = rw (he, hs) v.slots_ok;
  agrees = rw (he, hs) v.agrees;
  fresh = rw he v.fresh;
}

-- What the fence lets through, it lets through at the controller's epoch.
pub fenced_slot_iff :
    (c : Controller) (ep : Epoch) (s : RunSlot)
    → fenced_slot c ep ≡ some s
    → (ep ≡ c.epoch) × (slot_at ep c.slots ≡ some s)
fenced_slot_iff c ep s h = elim (Bool-cases (ep == c.epoch)) [
  | inl e ↦ (ground arith, rw e at h)
  | inr e ↦ absurd (cc (rw e at h))
]

pub slot_at-update_hit :
    (ep : Epoch) (f : RunSlot → RunSlot) (slots : List RunSlot) (s : RunSlot)
    → KeepsEpoch f
    → slot_at ep slots ≡ some s
    → slot_at ep (update ep f slots) ≡ some (f s)
slot_at-update_hit ep f slots s k h = slot_at-update ep ep f slots k ∙ ground (arith, h)

pub same_slot : {o : Option RunSlot} (s t : RunSlot) → o ≡ some s → o ≡ some t → t ≡ s
same_slot s t h k = cc

pub Agrees-hit :
    (duty : Epoch → Duty) (ep e : Epoch) (s : RunSlot) (slots : List RunSlot)
    → ep ≡ e
    → slot_at ep slots ≡ some s
    → Agrees (duty ep) (some s)
    → Agrees (duty e) (slot_at e slots)
Agrees-hit duty ep e s slots h k a =
    subst (λ x. Agrees (duty x) (slot_at x slots)) h (subst (Agrees (duty ep)) (sym k) a)

-- A write behind the fence: it may assume what the duty says of the slot, and has to say what the
-- duties after it say; where the fence rejects it nothing changes but duties.
pub fence-Inv :
    (w : World) (c : Controller) (duty : Epoch → Duty) (ep : Epoch) (f : RunSlot → RunSlot)
    → Inv w
    → c.epoch ≡ w.ctl.epoch
    → ((s : RunSlot) → fenced_slot w.ctl ep ≡ some s → c.slots ≡ update ep f w.ctl.slots)
    → (fenced_slot w.ctl ep ≡ none → c.slots ≡ w.ctl.slots)
    → KeepsEpoch f
    → ((s : RunSlot)
        → fenced_slot w.ctl ep ≡ some s
        → Agrees (w.duty ep) (some s)
        → SlotOk w.ctl.epoch s
        → (is_live s.state ≡ false → is_live (f s).state ≡ false)
          × SlotOk w.ctl.epoch (f s)
          × Agrees (duty ep) (some (f s)))
    → (fenced_slot w.ctl ep ≡ none
        → Agrees (w.duty w.ctl.epoch) (slot_at w.ctl.epoch w.ctl.slots)
        → Agrees (duty w.ctl.epoch) (slot_at w.ctl.epoch w.ctl.slots))
    → ((e : Epoch) → w.ctl.epoch < e → duty e ≡ none_left)
    → Inv (record { ctl = c; duty = duty })
fence-Inv w c duty ep f v he hit miss keeps change none_changes fresh =
    elim (Option-cases (fenced_slot w.ctl ep)) [
      | inl e ↦ record {
        ordered = rw (he, miss e) v.ordered;
        only_last = rw (miss e) v.only_last;
        slots_ok = rw (he, miss e) v.slots_ok;
        agrees = rw (he, miss e) (none_changes e v.agrees);
        fresh = rw he fresh;
      }
      | inr (s, e) ↦
          let at = fenced_slot_iff w.ctl ep s e in
          let was : Agrees (w.duty ep) (some s) = rw (← at.1, at.0) v.agrees in
          let ok = slot_at-All (SlotOk w.ctl.epoch) ep w.ctl.slots s at.1 v.slots_ok in
          let r = change s e was ok in
          write-Inv w c duty ep f v he (hit s e) keeps (λ t q. rw (same_slot s t at.1 q) r.0)
            (λ t q k. rw (same_slot s t at.1 q) r.1)
            (Agrees-hit duty ep w.ctl.epoch (f s) (update ep f w.ctl.slots) at.0
              (slot_at-update_hit ep f w.ctl.slots s keeps at.1) r.2)
            fresh
    ]

-- A change that the invariant does not speak of.
pub record IsTame (f : RunSlot → RunSlot) : Type 0 where
  pub epoch : (s : RunSlot) → (f s).epoch ≡ s.epoch
  pub state : (s : RunSlot) → (f s).state ≡ s.state
  pub snapshot : (s : RunSlot) → (f s).snapshot ≡ s.snapshot
  pub finish_set : (s : RunSlot) → (f s).finish_set ≡ s.finish_set

Agrees-tame :
    (f : RunSlot → RunSlot) (d : Duty) (o : Option RunSlot)
    → IsTame f
    → Agrees d o
    → Agrees d (Option.map f o)
Agrees-tame f none_left none t a = a
Agrees-tame f opens_boundary none t a = a
Agrees-tame f freezes_boundary none t a = a
Agrees-tame f collects none t a = a
Agrees-tame f has_published none t a = a
Agrees-tame f joins_workers none t a = a
Agrees-tame f none_left (some s) t a = rw (t.state s, t.snapshot s, t.finish_set s) a
Agrees-tame f opens_boundary (some s) t a = rw (t.state s, t.finish_set s, t.snapshot s) a
Agrees-tame f freezes_boundary (some s) t a = rw (t.state s, t.finish_set s) a
Agrees-tame f collects (some s) t a = rw (t.state s, t.finish_set s) a
Agrees-tame f has_published (some s) t a = rw (t.state s, t.finish_set s, t.snapshot s) a
Agrees-tame f joins_workers (some s) t a = a

Agrees-if :
    (d : Duty) (b : Bool) (o o' : Option RunSlot)
    → Agrees d o
    → Agrees d o'
    → Agrees d (if b then o else o')
Agrees-if d true o o' h k = h
Agrees-if d false o o' h k = k

-- Such a change, at any slot, keeps the invariant.
pub tame-Inv :
    (w : World) (c : Controller) (ep : Epoch) (f : RunSlot → RunSlot)
    → Inv w
    → c.epoch ≡ w.ctl.epoch
    → c.slots ≡ update ep f w.ctl.slots
    → IsTame f
    → Inv (record { ctl = c; duty = w.duty })
tame-Inv w c ep f v he hs t =
    write-Inv w c w.duty ep f v he hs t.epoch (λ s q k. rw (t.state s) k)
      (λ s q k. record {
        current = rw (t.state s, t.epoch s) k.current;
        buried = rw (t.state s, t.snapshot s) k.buried;
        stored = rw (t.state s) k.stored;
      })
      (rw (slot_at-update w.ctl.epoch ep f w.ctl.slots t.epoch) (
        Agrees-if (w.duty w.ctl.epoch) (w.ctl.epoch == ep) _ _
          (Agrees-tame f (w.duty w.ctl.epoch) _ t v.agrees) v.agrees))
      v.fresh
