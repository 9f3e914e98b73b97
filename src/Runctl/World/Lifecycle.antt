-- ===== src/Runctl/World/Lifecycle.antt =====
-- Every step keeps the invariant: closing, aborting and acknowledging a run.
use isutools.Prelude.{
  ℕ, ◌+◌, ◌≡◌, ◌≢◌, refl, ◌∙◌, sym, subst, ◌⊎◌, inl, inr, Bool, true, false, String, str_eq, List,
  Option, none, some, find?, arith, Option-cases, ◌==◌,
}
use isutools.Runctl.Types.{
  is_live, RunState, idle, started, finishing, starting, finished, Epoch, Time, Reason, or_explicit,
}
use isutools.Runctl.Records.{RunSlot}
use isutools.Runctl.Controller.{
  Controller, slot_at, update, lookup, ack_by, ack_by_state, acknowledge,
}
use isutools.Runctl.Abort.{
  fenced, abort_look, fence, fence_slot, abort_settle, settle_slot, abort_result,
}
use isutools.Runctl.Finish.{freezes, finish_look, finishing_slot}
use isutools.Runctl.World.{
  Duty, none_left, opens_boundary, freezes_boundary, joins_workers, World, assign,
}
use isutools.Runctl.World.Slots.{
  update-All, update-Rising, update-OnlyLast, slot_at-update, slot_at-All, slot_at_above,
  find?-slot_at, Rising-weaken,
}
use isutools.Runctl.World.Effects.{Same, release_both-Same}
use isutools.Runctl.World.Steps.{duty-le, assign_ne, assign_self, assign-fresh}
use isutools.Runctl.World.Invariant.{
  SlotOk, Agrees, Inv, write-Inv, slot_at-update_hit, Agrees-hit, same_slot,
}

-- What FinishRun does to a run that it begins to close.
pub freezes_started :
    (c c' : Controller) (now : Time) (run_id : String) (ep : Epoch)
    → finish_look c now run_id ≡ freezes c' ep
    → (s : RunSlot) × (lookup run_id c.slots ≡ some s)
      × (ep ≡ s.epoch)
      × (c' ≡ record c { slots = update s.epoch (finishing_slot c now) c.slots })
      × ((s.state ≡ started) ⊎ (s.state ≡ idle))
unfolding finish_look
freezes_started c c' now run_id ep h = elim (Option-cases (lookup run_id c.slots)) [
  | inl e ↦ absurd (ground arith)
  | inr (s, e) ↦ (s, e, ground arith, ground arith, ground arith)
]

-- What AbortRun does to a run that it fences.
pub fenced_live :
    (c c' : Controller) (now : Time) (run_id : String) (r : Reason) (ep : Epoch)
    (names : List String)
    → abort_look c now run_id r ≡ fenced c' ep names
    → (s : RunSlot) × (lookup run_id c.slots ≡ some s)
      × (ep ≡ s.epoch)
      × (c' ≡ fence c now s (or_explicit r))
      × ((is_live s.state ≡ true) ⊎ (s.state ≡ idle))
unfolding abort_look
fenced_live c c' now run_id r ep names h = elim (Option-cases (lookup run_id c.slots)) [
  | inl e ↦ absurd (ground arith)
  | inr (s, e) ↦ (s, e, ground arith, ground arith, ground arith)
]

pub found_current :
    (w : World) (p : RunSlot → Bool) (s : RunSlot)
    → Inv w
    → find? p w.ctl.slots ≡ some s
    → is_live s.state ≡ true
    → (slot_at s.epoch w.ctl.slots ≡ some s) × (s.epoch ≡ w.ctl.epoch) × SlotOk w.ctl.epoch s
found_current w p s v h l =
    let at = find?-slot_at p 0 w.ctl.epoch w.ctl.slots s v.ordered h in
    let ok = slot_at-All (SlotOk w.ctl.epoch) s.epoch w.ctl.slots s at v.slots_ok in
    (at, ok.current l, ok)

pub found_ok :
    (w : World) (p : RunSlot → Bool) (s : RunSlot)
    → Inv w
    → find? p w.ctl.slots ≡ some s
    → (slot_at s.epoch w.ctl.slots ≡ some s) × SlotOk w.ctl.epoch s
found_ok w p s v h =
    let at = find?-slot_at p 0 w.ctl.epoch w.ctl.slots s v.ordered h in
    (at, slot_at-All (SlotOk w.ctl.epoch) s.epoch w.ctl.slots s at v.slots_ok)

-- What the duty says of the slot that holds the controller's epoch.
pub Agrees-current :
    (w : World) (s : RunSlot)
    → Inv w
    → slot_at s.epoch w.ctl.slots ≡ some s
    → s.epoch ≡ w.ctl.epoch
    → Agrees (w.duty s.epoch) (some s)
Agrees-current w s v at e =
    subst (Agrees (w.duty s.epoch)) at
      (subst (λ x. Agrees (w.duty x) (slot_at x w.ctl.slots)) (sym e) v.agrees)

-- The duty `d` at the current epoch does not speak of a slot in another state.
Agrees-calm :
    (d : Duty) (s : RunSlot)
    → Agrees d (some s)
    → (s.state ≢ starting)
    → (s.state ≢ finishing)
    → d ≡ none_left
Agrees-calm none_left s a h k = refl
Agrees-calm opens_boundary s a h k = absurd (h a.0)
Agrees-calm freezes_boundary s a h k = absurd (k a.0)
Agrees-calm Duty.collects s a h k = absurd (k a.0)
Agrees-calm Duty.has_published s a h k = absurd (k a.0)
Agrees-calm joins_workers s a h k = elim a [ ]

pub begins_finish-Inv :
    (w : World) (now : Time) (run_id : String) (c : Controller) (ep : Epoch)
    → Inv w
    → finish_look w.ctl now run_id ≡ freezes c ep
    → Inv (record { ctl = c; duty = assign w.duty ep freezes_boundary })
begins_finish-Inv w now run_id c ep v h =
    let (s, found, es, ec, st) = freezes_started w.ctl c now run_id ep h in
    let (at, ok) = found_ok w (λ t. str_eq t.run_id run_id) s v found in
    let is_started : s.state ≡ started = elim st [ inl e ↦ e | inr e ↦ absurd (ok.stored e) ] in
    let cur = ok.current (rw is_started) in
    let a = Agrees-current w s v at cur in
    let d = Agrees-calm (w.duty s.epoch) s a (ground arith) (ground arith) in
    let was : Agrees none_left (some s) = subst (λ x. Agrees x (some s)) d a in
    let f = finishing_slot w.ctl now in
    rw (ec, es)
      (write-Inv w (record w.ctl { slots = update s.epoch f w.ctl.slots })
        (assign w.duty s.epoch freezes_boundary) s.epoch f v refl refl (λ t. refl)
        (λ t q. rw (same_slot s t at q) (ground arith))
        (λ t q k. rw (same_slot s t at q) (ground (arith, ok)))
        (Agrees-hit (assign w.duty s.epoch freezes_boundary) s.epoch w.ctl.epoch (f s)
          (update s.epoch f w.ctl.slots) cur
          (slot_at-update_hit s.epoch f w.ctl.slots s (λ t. refl) at)
          (rw (assign_self w.duty s.epoch freezes_boundary) (refl, was.3 is_started)))
        (assign-fresh w s.epoch freezes_boundary (ground arith) v))

pub fences-Inv :
    (w : World) (now : Time) (run_id : String) (r : Reason) (c : Controller) (ep : Epoch)
    (names : List String)
    → Inv w
    → abort_look w.ctl now run_id r ≡ fenced c ep names
    → Inv (record { ctl = c; duty = assign w.duty ep joins_workers })
unfolding fence
fences-Inv w now run_id r c ep names v h =
    let (s, found, es, ec, st) = fenced_live w.ctl c now run_id r ep names h in
    let (at, ok) = found_ok w (λ t. str_eq t.run_id run_id) s v found in
    let live : is_live s.state ≡ true = elim st [ inl e ↦ e | inr e ↦ absurd (ok.stored e) ] in
    let cur = ok.current live in
    let f = fence_slot now in
    let e = w.ctl.epoch in
    let rising =
      Rising-weaken 0 e (e + 1) (update s.epoch f w.ctl.slots) (omega arith)
        (update-Rising s.epoch 0 e f w.ctl.slots (λ t. refl) v.ordered) in
    let calm =
      update-OnlyLast s.epoch 0 e f w.ctl.slots
        (λ t q. rw (same_slot s t at q) (λ k. absurd (ground (arith, live)))) v.ordered
        v.only_last in
    let oks =
      update-All (SlotOk e) (SlotOk (e + 1)) s.epoch f w.ctl.slots (λ t q k. ground arith)
        (λ t n k.
          let old : is_live t.state ≡ true → ⊥ = λ l. n (k.current l ∙ sym cur) in
          record { current = λ l. absurd (old l); buried = k.buried; stored = k.stored })
        0 e v.ordered v.slots_ok in
    let gone =
      slot_at_above (e + 1) 0 e (update s.epoch f w.ctl.slots)
        (update-Rising s.epoch 0 e f w.ctl.slots (λ t. refl) v.ordered) (omega arith) in
    rw (ec, es)
      (record {
        ordered = rising;
        only_last = calm;
        slots_ok = oks;
        agrees =
            rw
              (
                gone,
                assign_ne w.duty s.epoch (e + 1) joins_workers (omega (arith, cur)),
                v.fresh (e + 1) (omega arith),
              )
              tt;
        fresh = λ x k. assign-fresh w s.epoch joins_workers (omega (arith, cur)) v x (omega arith);
      })

pub abort_settle_writes :
    (c : Controller) (now : Time) (run_id : String) (ep : Epoch) (r : Reason) (detached : Bool)
    (names : List String)
    → Same
        (record c {
          slots = update ep (settle_slot now (abort_result run_id ep r detached now names)) c.slots;
        })
        (abort_settle c now run_id ep r detached names).0
unfolding abort_settle
abort_settle_writes c now run_id ep r true names = record { epoch = refl; slots = refl }
abort_settle_writes c now run_id ep r false names = release_both-Same _ _ _

pub settles_abort-Inv :
    (w : World) (now : Time) (run_id : String) (ep : Epoch) (r : Reason) (detached : Bool)
    (names : List String)
    → Inv w
    → w.duty ep ≡ joins_workers
    → Inv (record {
      ctl = (abort_settle w.ctl now run_id ep r detached names).0;
      duty = assign w.duty ep none_left;
    })
settles_abort-Inv w now run_id ep r detached names v has =
    let e = w.ctl.epoch in
    let f = settle_slot now (abort_result run_id ep r detached now names) in
    let m = abort_settle_writes w.ctl now run_id ep r detached names in
    let other : e ≢ ep = λ q. joins_never (slot_at e w.ctl.slots) (
      subst (λ d. Agrees d (slot_at e w.ctl.slots)) has
        (subst (λ x. Agrees (w.duty x) (slot_at e w.ctl.slots)) q v.agrees)) in
    let le = duty-le w ep v (λ n. absurd (cc (has, n))) in
    write-Inv w _ (assign w.duty ep none_left) ep f v m.epoch m.slots (λ s. ground arith)
      (λ s q k. ground arith) (λ s q k. ground arith)
      (rw
        (
          assign_ne w.duty ep e none_left other,
          slot_at-update e ep f w.ctl.slots (λ s. ground arith),
          ne→==_false e ep other,
        )
        v.agrees)
      (assign-fresh w ep none_left le v)
  where
    joins_never : (o : Option RunSlot) → Agrees joins_workers o → ⊥
    joins_never none a = a
    joins_never (some s) a = a

    ne→==_false : (a b : ℕ) → a ≢ b → (a == b) ≡ false
    ne→==_false a b h = ground arith

ack_state_cases :
    (st : RunState) (c : Controller) (ep : Epoch) (by : String) (now : Time)
    → ((ack_by_state st c ep by now).0 ≡ c)
      ⊎ (((st ≡ finished) ⊎ (st ≡ idle))
          × ((ack_by_state st c ep by now).0
              ≡ record c { slots = update ep (acknowledge by now) c.slots }))
unfolding ack_by_state
ack_state_cases RunState.finished c ep by now = inr (inl refl, refl)
ack_state_cases RunState.idle c ep by now = inr (inr refl, refl)
ack_state_cases RunState.acknowledged c ep by now = inl refl
ack_state_cases _ c ep by now = inl refl

pub ack_cases :
    (c : Controller) (now : Time) (run_id by : String)
    → ((ack_by c now run_id by).0 ≡ c)
      ⊎ ((s : RunSlot) × (lookup run_id c.slots ≡ some s)
          × ((s.state ≡ finished) ⊎ (s.state ≡ idle))
          × ((ack_by c now run_id by).0
              ≡ record c { slots = update s.epoch (acknowledge by now) c.slots }))
unfolding ack_by
ack_cases c now run_id by = elim (Option-cases (lookup run_id c.slots)) [
  | inl e ↦ inl (ground arith)
  | inr (s, e) ↦ elim (ack_state_cases s.state c s.epoch by now) [
    | inl k ↦ inl (rw (e, ack_by) k)
    | inr (st, k) ↦ inr (s, e, st, rw (e, ack_by) k)
  ]
]

pub acks-Inv :
    (w : World) (now : Time) (run_id by : String)
    → Inv w
    → Inv (record w { ctl = (ack_by w.ctl now run_id by).0 })
acks-Inv w now run_id by v = elim (ack_cases w.ctl now run_id by) [
  | inl e ↦ rw e v
  | inr (s, found, st, ec) ↦
      let (at, ok) = found_ok w (λ t. str_eq t.run_id run_id) s v found in
      let was_finished : s.state ≡ finished = elim st [
        | inl e ↦ e
        | inr e ↦ absurd (ok.stored e)
      ] in
      let cur = ok.current (rw was_finished) in
      let a = Agrees-current w s v at cur in
      let d = Agrees-calm (w.duty s.epoch) s a (ground arith) (ground arith) in
      let f = acknowledge by now in
      rw ec (
        write-Inv w (record w.ctl { slots = update s.epoch f w.ctl.slots }) w.duty s.epoch f v refl
          refl (λ t. refl) (λ t q k. ground arith)
          (λ t q k. rw (same_slot s t at q) (ground (arith, ok)))
          (Agrees-hit w.duty s.epoch w.ctl.epoch (f s) (update s.epoch f w.ctl.slots) cur
            (slot_at-update_hit s.epoch f w.ctl.slots s (λ t. refl) at) (rw d (ground arith)))
          v.fresh)
]
