-- ===== src/Runctl/World/Safety.antt =====
-- Every critical section of internal/runctl keeps the invariant, so every reachable controller has it.
use isutools.Prelude.{
  ◌≡◌, true, false, Bool, Option, some, none, Option-cases, ap, ◌∙◌, sym, subst, ◌==◌, String, inl,
  inr, refl, List, [], ◌∷◌, arith, Bool-cases,
}
use isutools.Runctl.Types.{Epoch, Time, Reason, finished, is_finished, is_live}
use isutools.Runctl.Budget.{Budgets}
use isutools.Runctl.Records.{RunSlot, StartRunOptions, AbortResult}
use isutools.Runctl.Start.{plan_start, plan_by_nonce, plan_by_current, proceed}
use isutools.Runctl.Abort.{AbortStep, abort_look}
use isutools.Runctl.Controller.{
  Controller, current, lookup, slot_at, update, ack_by, ack_by_state, acknowledge,
}
use isutools.Runctl.World.{
  World, Step, commits_start, begins_finish, commits_finish, publishes, settles_finish, fences,
  settles_abort, drains, discards, leaves, reaps, acks, sweeps, registers_generation,
  registers_baseline, Reach, here, next, new_world, new_system, System, Starter, nobody, ready,
  opening_run, preempts, acknowledges, after_step, after_plan, Names, Turn, works, plans,
  has_preempted, gives_up, acks_finished, opens, Quiet,
}
use isutools.Runctl.World.Slots.{OnlyLast, Rising, slot_at-All}
use isutools.Runctl.World.Invariant.{Inv, same_slot}
use isutools.Runctl.World.Steps.{
  commits_start-Inv, commits_finish-Inv, publishes-Inv, settles_finish-Inv,
}
use isutools.Runctl.World.Others.{
  leaves-Inv, reaps-Inv, drains-Inv, discards-Inv, registers_generation-Inv, registers_baseline-Inv,
  opens-Inv,
}
use isutools.Runctl.World.Lifecycle.{
  begins_finish-Inv, fences-Inv, settles_abort-Inv, acks-Inv, ack_cases,
}
use isutools.Runctl.World.Sweeps.{sweeps-Inv}
use isutools.Runctl.World.Calm.{
  ButOne, Calm, Step-Calm, Calm-Quiet, Quiet-Calm, quiet_one, update_id,
}

pub Step-Inv : {w u : World} → Step w u → Inv w → Inv u
Step-Inv {w} (commits_start now res b d s) v = commits_start-Inv w now res b v d s
Step-Inv {w} (begins_finish now i c ep h) v = begins_finish-Inv w now i c ep v h
Step-Inv {w} (commits_finish now a b d) v = commits_finish-Inv w now a b v d
Step-Inv {w} (publishes ep snap d) v = publishes-Inv w ep snap v d
Step-Inv {w} (settles_finish ep now snap d) v = settles_finish-Inv w ep now snap.validity v d
Step-Inv {w} (fences now i r c ep names h) v = fences-Inv w now i r c ep names v h
Step-Inv {w} (settles_abort now i ep r detached names d) v =
    settles_abort-Inv w now i ep r detached names v d
Step-Inv {w} (drains ep hs) v = drains-Inv w ep hs v
Step-Inv {w} (discards ep hs bs) v = discards-Inv w ep hs bs v
Step-Inv {w} (leaves ep) v = leaves-Inv w ep v
Step-Inv {w} (reaps ep) v = reaps-Inv w ep v
Step-Inv {w} (acks now i by) v = acks-Inv w now i by v
Step-Inv {w} (sweeps now) v = sweeps-Inv w now v
Step-Inv {w} (registers_generation r g b) v = registers_generation-Inv w r g b v
Step-Inv {w} (registers_baseline r g b) v = registers_baseline-Inv w r g b v

-- What the holder of startMu may rely on: the run that its plan displaces is the only one that may
-- still give data, and one that it acknowledges was finished; when it opens its run there is none.
abbrev pub Starts : Starter → List RunSlot → Type 0
Starts nobody slots = Unit
Starts opening_run slots = Unit
Starts ready slots = Quiet slots
Starts (preempts run_id ep) slots = Calm (ep, false) slots
Starts (acknowledges run_id ep) slots = Calm (ep, true) slots

pub record SystemInv (m : System) : Type 0 where
  pub world_ok : Inv m.world
  pub start_ok : Starts m.starter m.world.ctl.slots

pub new_world-Inv : (b : Budgets) → Inv (new_world b)
new_world-Inv b = record {
  ordered = omega arith;
  only_last = tt;
  slots_ok = tt;
  agrees = tt;
  fresh = λ e h. refl;
}

pub new_system-Inv : (b : Budgets) → SystemInv (new_system b)
new_system-Inv b = record { world_ok = new_world-Inv b; start_ok = tt }

no_zero : (lo hi : Epoch) (slots : List RunSlot) → Rising lo hi slots → slot_at 0 slots ≡ none
no_zero lo hi [] r = refl
no_zero lo hi (s ∷ ss) r =
    let e : (s.epoch == 0) ≡ false = ground (arith, r.0) in rw e (no_zero s.epoch hi ss r.1)

-- Where no run may still give data, a critical section leaves it so.
Step-Quiet : {w u : World} → Step w u → Inv w → Quiet w.ctl.slots → Quiet u.ctl.slots
Step-Quiet {w} {u} s v q =
    let r = (Step-Inv s v).ordered in
    let c = Step-Calm (0, false) s v (Quiet-Calm (0, false) w.ctl.slots q) in
    rw (← update_id 0 u.ctl.slots) (
      Calm-Quiet (0, false) u.ctl.epoch u.ctl.slots (λ t. t) r c
        (λ t e. absurd (cc (e, no_zero 0 u.ctl.epoch u.ctl.slots r))))

Step-Starts :
    {w u : World} (h : Starter) → Step w u → Inv w → Starts h w.ctl.slots → Starts h u.ctl.slots
Step-Starts nobody s v k = tt
Step-Starts opening_run s v k = tt
Step-Starts ready s v k = Step-Quiet s v k
Step-Starts (preempts i ep) s v k = Step-Calm (ep, false) s v k
Step-Starts (acknowledges i ep) s v k = Step-Calm (ep, true) s v k

after_step-Starts :
    {w u : World} (s : Step w u) (h : Starter) (slots : List RunSlot)
    → Starts h slots
    → Starts (after_step s h) slots
after_step-Starts (commits_start now res b d e) h slots k = tt
after_step-Starts _ h slots k = k

current-Calm :
    (x : Epoch × Bool) (slots : List RunSlot)
    → OnlyLast slots
    → ((s : RunSlot) → current slots ≡ some s → ButOne x s)
    → Calm x slots
current-Calm x [] h k = tt
current-Calm x (s ∷ []) h k = (k s refl, tt)
current-Calm x (s ∷ (t ∷ ss)) h k = (quiet_one x s h.0, current-Calm x (t ∷ ss) h.1 k)

plan_preempts :
    (c : Controller) (now : Time) (o : StartRunOptions) (t : RunSlot) (a : Option RunSlot)
    → plan_start c now o ≡ proceed (some t) a
    → current c.slots ≡ some t
unfolding plan_start plan_by_nonce plan_by_current
plan_preempts c now o t a h = elim (Option-cases (current c.slots)) [
  | inl e ↦ absurd (ground (arith, e, h))
  | inr (s, e) ↦ ground (arith, e, h)
]

plan_acks :
    (c : Controller) (now : Time) (o : StartRunOptions) (t : RunSlot)
    → plan_start c now o ≡ proceed none (some t)
    → (current c.slots ≡ some t) × (t.state ≡ finished)
unfolding plan_start plan_by_nonce plan_by_current
plan_acks c now o t h = elim (Option-cases (current c.slots)) [
  | inl e ↦ absurd (ground (arith, e, h))
  | inr (s, e) ↦ ground (arith, e, h)
]

plan_free :
    (c : Controller) (now : Time) (o : StartRunOptions) (s : RunSlot)
    → plan_start c now o ≡ proceed none none
    → current c.slots ≡ some s
    → is_live s.state ≡ false
unfolding plan_start plan_by_nonce plan_by_current
plan_free c now o s h k = ground (arith, h, k)

preempted_one : (t : RunSlot) → ButOne (t.epoch, false) t
preempted_one t = let e : (t.epoch == t.epoch) ≡ true = ground arith in rw e refl

acked_one : (t : RunSlot) → t.state ≡ finished → ButOne (t.epoch, true) t
acked_one t st = let e : (t.epoch == t.epoch) ≡ true = ground arith in rw (e, st) refl

current-Quiet :
    (slots : List RunSlot)
    → OnlyLast slots
    → ((s : RunSlot) → current slots ≡ some s → is_live s.state ≡ false)
    → Quiet slots
current-Quiet [] h k = tt
current-Quiet (s ∷ []) h k = (k s refl, tt)
current-Quiet (s ∷ (t ∷ ss)) h k = (h.0, current-Quiet (t ∷ ss) h.1 k)

plans-Starts :
    (c : Controller) (now : Time) (o : StartRunOptions) (p a : Option RunSlot)
    → OnlyLast c.slots
    → plan_start c now o ≡ proceed p a
    → Starts (after_plan p a) c.slots
plans-Starts c now o (some t) a l h =
    let cur = plan_preempts c now o t a h in
    current-Calm (t.epoch, false) c.slots l
      (λ s e. subst (λ x. ButOne (t.epoch, false) x) (same_slot s t e cur) (preempted_one t))
plans-Starts c now o none (some t) l h =
    let (cur, st) = plan_acks c now o t h in
    current-Calm (t.epoch, true) c.slots l
      (λ s e. subst (λ x. ButOne (t.epoch, true) x) (same_slot s t e cur) (acked_one t st))
plans-Starts c now o none none l h = current-Quiet c.slots l (λ s e. plan_free c now o s h e)

-- AbortRun returns where the run is over or forgotten.
answered_dead :
    (c : Controller) (now : Time) (run_id : String) (r : Reason) (result : AbortResult)
    (s : RunSlot)
    → abort_look c now run_id r ≡ AbortStep.answered result
    → lookup run_id c.slots ≡ some s
    → is_live s.state ≡ false
unfolding abort_look
answered_dead c now run_id r result s h e = ground (arith, h, e)

preempted-Quiet :
    (w : World) (now : Time) (run_id : String) (ep : Epoch) (r : Reason) (result : AbortResult)
    → Inv w
    → Names w run_id ep
    → abort_look w.ctl now run_id r ≡ AbortStep.answered result
    → Calm (ep, false) w.ctl.slots
    → Quiet w.ctl.slots
preempted-Quiet w now run_id ep r result v n h q = rw (← update_id ep w.ctl.slots) (
    Calm-Quiet (ep, false) w.ctl.epoch w.ctl.slots (λ s. s) v.ordered q
      (λ s e. answered_dead w.ctl now run_id r result s h (n ∙ e)))

ack_finished :
    (c : Controller) (now : Time) (run_id by : String) (s : RunSlot)
    → lookup run_id c.slots ≡ some s
    → s.state ≡ finished
    → (ack_by c now run_id by).0 ≡ record c { slots = update s.epoch (acknowledge by now) c.slots }
unfolding ack_by ack_by_state
ack_finished c now run_id by s e st = ground (arith, e, st)

slot_at-epoch :
    (ep : Epoch) (slots : List RunSlot) (s : RunSlot) → slot_at ep slots ≡ some s → s.epoch ≡ ep
slot_at-epoch ep [] s h = absurd (cc (h))
slot_at-epoch ep (t ∷ ts) s h = elim (Bool-cases (t.epoch == ep)) [
  | inl e ↦
      let q : some t ≡ some s = rw e at h in
      let p : t ≡ s = cc (q) in
      let m : t.epoch ≡ ep = ground (arith, e) in sym (ap (λ x. x.epoch) p) ∙ m
  | inr e ↦ slot_at-epoch ep ts s (rw e at h)
]

Calm-over :
    (w : World) (ep : Epoch)
    → Inv w
    → Calm (ep, true) w.ctl.slots
    → ((s : RunSlot) → slot_at ep w.ctl.slots ≡ some s → is_live s.state ≡ false)
    → Quiet w.ctl.slots
Calm-over w ep v q k =
    rw (← update_id ep w.ctl.slots)
      (Calm-Quiet (ep, true) w.ctl.epoch w.ctl.slots (λ s. s) v.ordered q k)

acknowledged-Quiet :
    (w : World) (now : Time) (by : String) (ep : Epoch) (s : RunSlot)
    → Inv w
    → slot_at ep w.ctl.slots ≡ some s
    → Calm (ep, true) w.ctl.slots
    → (c : Controller)
    → c ≡ record w.ctl { slots = update s.epoch (acknowledge by now) w.ctl.slots }
    → Quiet c.slots
acknowledged-Quiet w now by ep s v h q c e =
    rw (e, slot_at-epoch ep w.ctl.slots s h)
      (Calm-Quiet (ep, true) w.ctl.epoch w.ctl.slots (acknowledge by now) v.ordered q (λ t k. refl))

unfinished_dead :
    (ep : Epoch) (s : RunSlot)
    → is_finished s.state ≡ false
    → ButOne (ep, true) s
    → is_live s.state ≡ false
unfinished_dead ep s f q = ground (arith, f, q)

acked-Quiet :
    (w : World) (now : Time) (run_id by : String) (ep : Epoch)
    → Inv w
    → Names w run_id ep
    → Calm (ep, true) w.ctl.slots
    → Quiet (ack_by w.ctl now run_id by).0.slots
acked-Quiet w now run_id by ep v n q = elim (ack_cases w.ctl now run_id by) [
  | inr (s, found, st, ec) ↦ acknowledged-Quiet w now by ep s v (sym n ∙ found) q _ ec
  | inl k ↦ elim (Option-cases (lookup run_id w.ctl.slots)) [
    | inl e ↦ rw k (Calm-over w ep v q (λ s h. absurd (cc (e, n, h))))
    | inr (s, e) ↦ elim (Bool-cases (is_finished s.state)) [
      | inl f ↦
          acknowledged-Quiet w now by ep s v (sym n ∙ e) q _
            (ack_finished w.ctl now run_id by s e (ground arith))
      | inr f ↦
          let one = slot_at-All (ButOne (ep, true)) ep w.ctl.slots s (sym n ∙ e) q in
          rw k (
            Calm-over w ep v q (λ t h.
              subst (λ x. is_live x.state ≡ false) (same_slot t s h (sym n ∙ e))
                (unfinished_dead ep s f one)))
    ]
  ]
]

Turn-Inv : {m n : System} → Turn m n → SystemInv m → SystemInv n
Turn-Inv {m} (works s) v = record {
  world_ok = Step-Inv s v.world_ok;
  start_ok = after_step-Starts s m.starter _ (Step-Starts m.starter s v.world_ok v.start_ok);
}
Turn-Inv {m} (plans now o p a e h) v = record {
  world_ok = v.world_ok;
  start_ok = plans-Starts m.world.ctl now o p a v.world_ok.only_last h;
}
Turn-Inv {m} (has_preempted now i ep r result e n h) v = record {
  world_ok = v.world_ok;
  start_ok =
      preempted-Quiet m.world now i ep r result v.world_ok n h
        (subst (λ x. Starts x m.world.ctl.slots) e v.start_ok);
}
Turn-Inv {m} (gives_up i ep e) v = record { world_ok = v.world_ok; start_ok = tt }
Turn-Inv {m} (acks_finished now i ep e n) v = record {
  world_ok = acks-Inv m.world now i "preempt" v.world_ok;
  start_ok =
      acked-Quiet m.world now i "preempt" ep v.world_ok n
        (subst (λ x. Starts x m.world.ctl.slots) e v.start_ok);
}
Turn-Inv {m} (opens now i nonce t e) v = record {
  world_ok =
      opens-Inv m.world now i nonce t v.world_ok
        (subst (λ x. Starts x m.world.ctl.slots) e v.start_ok);
  start_ok = tt;
}

pub Reach-Inv : {m n : System} → Reach m n → SystemInv m → SystemInv n
Reach-Inv here v = v
Reach-Inv (next r s) v = Turn-Inv s (Reach-Inv r v)

pub reached-Inv : {b : Budgets} {u : System} → Reach (new_system b) u → Inv u.world
reached-Inv {b} r = (Reach-Inv r (new_system-Inv b)).world_ok
