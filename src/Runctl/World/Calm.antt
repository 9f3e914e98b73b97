-- ===== src/Runctl/World/Calm.antt =====
-- Only the opening of a run brings one to life: a run that is over stays so.
use isutools.Prelude.{
  ◌≡◌, refl, inl, inr, Bool, true, false, str_eq, List, [], ◌∷◌, Option, none, some, ap, arith,
  Option-cases, String, if◌then◌else◌, Bool-cases, not, ◌||◌, ◌==◌, All,
}
use isutools.Runctl.Types.{is_live, RunState, starting, started, finishing, Epoch, Time}
use isutools.Runctl.Budget.{Budgets}
use isutools.Runctl.Records.{AbortResult, RunSlot, notify, end_owner, cancel}
use isutools.Runctl.Controller.{
  Controller, update, slot_at, fenced_slot, commit, leave, sweep, sweep_slot, put?,
  register_generation, register_baseline, acknowledge, ack_by,
}
use isutools.Runctl.Abort.{fence, fence_slot, reap, settle_slot, abort_result}
use isutools.Runctl.Release.{drain_and_release, release_baseline}
use isutools.Runctl.Finish.{finishing_slot}
use isutools.Runctl.Start.{start_drain_worker, discard_worker}
use isutools.Runctl.World.{
  World, Quiet, opens_boundary, has_published, Step, commits_start, begins_finish, commits_finish,
  publishes, settles_finish, fences, settles_abort, drains, discards, leaves, reaps, acks, sweeps,
  registers_generation, registers_baseline,
}
use isutools.Runctl.World.Slots.{update-All, KeepsEpoch, Rising}
use isutools.Runctl.World.Effects.{
  Fenced, commit-Fenced, publish-Fenced, start_commit-Fenced, finish_commit-Fenced,
  finish_settle-Fenced, release_both-Same, drain_and_release-Same, release_baseline-Same,
}
use isutools.Runctl.World.Invariant.{same_slot, Inv, Agrees, fenced_slot_iff}
use isutools.Runctl.World.Lifecycle.{
  freezes_started, fenced_live, found_ok, abort_settle_writes, ack_cases,
}
use isutools.Runctl.World.Sweeps.{swept, sweep_slots-swept, SweptTo, sweep_slot-SweptTo}

-- A state that gives no data any more, or one that a finished run may be in.
abbrev pub is_over : Bool → RunState → Bool
is_over fin starting = false
is_over fin started = false
is_over fin finishing = false
is_over fin RunState.finished = fin
is_over fin _ = true

abbrev CalmSlot : Bool → RunSlot → Type 0
CalmSlot fin s = is_over fin s.state ≡ true

-- The run that StartRun displaces, by its epoch, and whether it is one that finished.
abbrev pub Displaced : Type 0
Displaced = Epoch × Bool

-- Nobody may still give data, but for the run that is displaced; one that finished stays so or is
-- over.
abbrev pub ButOne : Displaced → RunSlot → Type 0
ButOne x s =
    (if s.epoch == x.0 then not x.1 || is_over true s.state else is_over false s.state) ≡ true

abbrev pub Calm : Displaced → List RunSlot → Type 0
Calm x slots = All (ButOne x) slots

but_kept :
    (x : Displaced) (s t : RunSlot)
    → t.epoch ≡ s.epoch
    → ((fin : Bool) → CalmSlot fin s → CalmSlot fin t)
    → ButOne x s
    → ButOne x t
but_kept (x, false) s t h k q = elim (Bool-cases (s.epoch == x)) [
  | inl e ↦ rw (h, e) refl
  | inr e ↦ rw (h, e) (k false (rw e at q))
]
but_kept (x, true) s t h k q = elim (Bool-cases (s.epoch == x)) [
  | inl e ↦ rw (h, e) (k true (rw e at q))
  | inr e ↦ rw (h, e) (k false (rw e at q))
]

Calm-write :
    (x : Displaced) (w : World) (ep : Epoch) (f : RunSlot → RunSlot)
    → Inv w
    → KeepsEpoch f
    → ((s : RunSlot)
        → slot_at ep w.ctl.slots ≡ some s
        → (fin : Bool) → CalmSlot fin s
        → CalmSlot fin (f s))
    → Calm x w.ctl.slots
    → Calm x (update ep f w.ctl.slots)
Calm-write x w ep f v e k q =
    update-All (ButOne x) (ButOne x) ep f w.ctl.slots (λ s g. but_kept x s (f s) (e s) (k s g))
      (λ s n h. h) 0 w.ctl.epoch v.ordered q

Calm-fence :
    (x : Displaced) (w : World) (c : Controller) (ep : Epoch) (f : RunSlot → RunSlot)
    → Inv w
    → Fenced w.ctl c ep f
    → KeepsEpoch f
    → ((s : RunSlot)
        → Agrees (w.duty ep) (some s)
        → (fin : Bool) → CalmSlot fin s
        → CalmSlot fin (f s))
    → Calm x w.ctl.slots
    → Calm x c.slots
Calm-fence x w c ep f v h u k q = elim (Option-cases (fenced_slot w.ctl ep)) [
  | inl e ↦ rw (h.rejected e) q
  | inr (s, e) ↦
      let at = fenced_slot_iff w.ctl ep s e in
      let was : Agrees (w.duty ep) (some s) = rw (← at.1, at.0) v.agrees in
      rw (h.passed s e) (Calm-write x w ep f v u (λ t g. rw (same_slot s t at.1 g) (k s was)) q)
]

-- A change that keeps states.
Calm-states :
    (x : Displaced) (ep : Epoch) (f : RunSlot → RunSlot) (slots : List RunSlot)
    → KeepsEpoch f
    → ((s : RunSlot) → (f s).state ≡ s.state)
    → Calm x slots
    → Calm x (update ep f slots)
unfolding update
Calm-states x ep f [] u k q = tt
Calm-states x ep f (s ∷ ss) u k q = elim (Bool-cases (s.epoch == ep)) [
  | inl e ↦ rw e (but_kept x s (f s) (u s) (λ fin c. rw (k s) c) q.0, Calm-states x ep f ss u k q.1)
  | inr e ↦ rw e (q.0, Calm-states x ep f ss u k q.1)
]

Calm-commit :
    (x : Displaced) (c : Controller) (ep : Epoch) (f : RunSlot → RunSlot)
    → KeepsEpoch f
    → ((s : RunSlot) → (f s).state ≡ s.state)
    → Calm x c.slots
    → Calm x (commit c ep f).0.slots
Calm-commit x c ep f u k q =
    let r = commit-Fenced c ep f in
    elim (Option-cases (fenced_slot c ep)) [
      | inl e ↦ rw (r.rejected e) q
      | inr (s, e) ↦ rw (r.passed s e) (Calm-states x ep (λ t. notify (f t)) c.slots u k q)
    ]

Calm-put :
    (x : Displaced) (o : Option RunSlot) (now : Time) (s : RunSlot) (ss : List RunSlot)
    → SweptTo now s o
    → ButOne x s
    → Calm x ss
    → Calm x (put? o ss)
Calm-put x none now s ss r k q = q
Calm-put x (some t) now s ss (inl e) k q = (rw e k, q)
Calm-put x (some t) now s ss (inr (e, st)) k q =
    (but_kept x s t (rw e refl) (λ fin c. rw e refl) k, q)

Calm-swept :
    (x : Displaced) (b : Budgets) (now : Time) (slots : List RunSlot)
    → Calm x slots
    → Calm x (swept b now slots)
Calm-swept x b now [] q = tt
Calm-swept x b now (s ∷ ss) q =
    let rest = Calm-swept x b now ss q.1 in
    let r = sweep_slot-SweptTo b now s in
    Calm-put x (sweep_slot b now s).kept now s (swept b now ss) r q.0 rest

not_state :
    (fin : Bool) (s : RunSlot) (st : RunState)
    → CalmSlot fin s
    → s.state ≡ st
    → is_over fin st ≡ false
    → ⊥
not_state fin s st q h b = absurd (cc (q, ap (is_over fin) h, b))

settled_over :
    (fin : Bool) (now : Time) (r : AbortResult) (s : RunSlot) → CalmSlot fin (settle_slot now r s)
settled_over fin now r s = elim (Bool-cases r.detached) [ inl e ↦ rw e refl | inr e ↦ rw e refl ]

pub acks-Calm :
    (x : Displaced) (w : World) (now : Time) (i by : String)
    → Inv w
    → Calm x w.ctl.slots
    → Calm x (ack_by w.ctl now i by).0.slots
acks-Calm x w now i by v q = elim (ack_cases w.ctl now i by) [
  | inl e ↦ rw e q
  | inr (s, found, st, ec) ↦
      rw ec (Calm-write x w s.epoch (acknowledge by now) v (λ t. refl) (λ t g fin k. refl) q)
]

-- No critical section but the opening of a run brings one to life: where all runs but one are over,
-- they stay so.
pub Step-Calm :
    {w u : World} (x : Displaced) → Step w u → Inv w → Calm x w.ctl.slots → Calm x u.ctl.slots
unfolding sweep leave start_drain_worker discard_worker register_generation register_baseline reap
    fence
Step-Calm {w} x (commits_start now res b d st) v q =
    Calm-fence x w _ res.epoch _ v (start_commit-Fenced w.ctl now res b) (λ s. ground arith)
      (λ s a fin k.
        let y : Agrees opens_boundary (some s) = rw d at a in
        absurd (not_state fin s starting k y.0 refl))
      q
Step-Calm {w} x (begins_finish now i c ep e) v q =
    let (s, found, es, ec, st) = freezes_started w.ctl c now i ep e in
    let (at, ok) = found_ok w (λ t. str_eq t.run_id i) s v found in
    rw ec (
      Calm-write x w s.epoch (finishing_slot w.ctl now) v (λ t. refl)
        (λ t g fin k. elim st [
          | inl a ↦ absurd (not_state fin s started (rw (same_slot s t at g) at k) a refl)
          | inr a ↦ absurd (ok.stored a)
        ])
        q)
Step-Calm {w} x (commits_finish now a b d) v q =
    Calm-fence x w _ a.epoch _ v (finish_commit-Fenced w.ctl now a b) (λ s. refl) (λ s a fin k. k) q
Step-Calm {w} x (publishes ep snap d) v q =
    Calm-fence x w _ ep _ v (publish-Fenced w.ctl ep snap) (λ s. refl) (λ s a fin k. k) q
Step-Calm {w} x (settles_finish ep now snap d) v q =
    Calm-fence x w _ ep _ v (finish_settle-Fenced w.ctl ep now snap.validity) (λ s. refl)
      (λ s a fin k.
        let y : Agrees has_published (some s) = rw d at a in
        absurd (not_state fin s finishing k y.0 refl))
      q
Step-Calm {w} x (fences now i r c ep names e) v q =
    let (s, found, es, ec, st) = fenced_live w.ctl c now i r ep names e in
    rw ec (Calm-write x w s.epoch (fence_slot now) v (λ t. refl) (λ t g fin k. refl) q)
Step-Calm {w} x (settles_abort now i ep r detached names d) v q =
    let m = abort_settle_writes w.ctl now i ep r detached names in
    rw m.slots (
      Calm-write x w ep (settle_slot now (abort_result i ep r detached now names)) v
        (λ s. ground arith)
        (λ s g fin k. settled_over fin now (abort_result i ep r detached now names) s) q)
Step-Calm {w} x (drains ep hs) v q =
    Calm-states x ep end_owner _ (λ s. refl) (λ s. refl)
      (Calm-commit x (drain_and_release w.ctl hs) ep _ (λ s. refl) (λ s. refl)
        (rw ((drain_and_release-Same w.ctl hs).slots) q))
Step-Calm {w} x (discards ep hs bs) v q =
    let c = drain_and_release w.ctl hs in
    Calm-states x ep end_owner _ (λ s. refl) (λ s. refl)
      (Calm-states x ep cancel _ (λ s. refl) (λ s. refl)
        (Calm-commit x (release_baseline c bs) ep _ (λ s. refl) (λ s. refl)
          (rw ((release_baseline-Same c bs).slots, (drain_and_release-Same w.ctl hs).slots) q)))
Step-Calm {w} x (leaves ep) v q = Calm-states x ep end_owner w.ctl.slots (λ s. refl) (λ s. refl) q
Step-Calm {w} x (reaps ep) v q =
    rw ((release_both-Same _ _ _).slots) (Calm-states x ep _ w.ctl.slots (λ s. refl) (λ s. refl) q)
Step-Calm {w} x (acks now i by) v q = acks-Calm x w now i by v q
Step-Calm {w} x (sweeps now) v q =
    rw (sweep_slots-swept w.ctl.budgets now w.ctl.slots)
      (Calm-swept x w.ctl.budgets now w.ctl.slots q)
Step-Calm {w} x (registers_generation r g b) v q = ground (arith, q)
Step-Calm {w} x (registers_baseline r g b) v q = ground (arith, q)

over_dead : (fin : Bool) (st : RunState) → is_live st ≡ false → is_over fin st ≡ true
over_dead fin st h = ground arith

pub quiet_one : (x : Displaced) (s : RunSlot) → is_live s.state ≡ false → ButOne x s
quiet_one x s h = elim (Bool-cases (s.epoch == x.0)) [
  | inl e ↦
      rw (e, over_dead true s.state h)
        (elim (Bool-cases x.1) [ inl f ↦ rw f refl | inr f ↦ rw f refl ])
  | inr e ↦ rw e (over_dead false s.state h)
]

-- From all runs over to all but one, and back where that one is.
pub Quiet-Calm : (x : Displaced) (slots : List RunSlot) → Quiet slots → Calm x slots
Quiet-Calm x [] q = tt
Quiet-Calm x (s ∷ ss) q = (quiet_one x s q.0, Quiet-Calm x ss q.1)

pub dead_over : (st : RunState) → is_over false st ≡ true → is_live st ≡ false
dead_over st h = ground arith

pub Calm-Quiet :
    (x : Displaced) (hi : Epoch) (slots : List RunSlot) (f : RunSlot → RunSlot)
    → Rising 0 hi slots
    → Calm x slots
    → ((s : RunSlot) → slot_at x.0 slots ≡ some s → is_live (f s).state ≡ false)
    → Quiet (update x.0 f slots)
Calm-Quiet x hi slots f r q k =
    update-All (ButOne x) (λ s. is_live s.state ≡ false) x.0 f slots (λ s g c. k s g)
      (λ s n h.
        let e : (s.epoch == x.0) ≡ false = ground (arith, n) in dead_over s.state (rw e at h))
      0 hi r q

pub update_id : (ep : Epoch) (slots : List RunSlot) → update ep (λ s. s) slots ≡ slots
unfolding update
update_id ep [] = refl
update_id ep (s ∷ ss) = elim (Bool-cases (s.epoch == ep)) [
  | inl e ↦ rw e (ap (λ l. s ∷ l) (update_id ep ss))
  | inr e ↦ rw e (ap (λ l. s ∷ l) (update_id ep ss))
]
