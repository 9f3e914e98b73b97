-- ===== src/Runctl/World/Sweeps.antt =====
-- A sweep keeps the invariant: what goes is dead, and what expires was handed over or finished.
use isutools.Prelude.{
  ◌≤◌, ◌<◌, ◌≡◌, refl, ◌⊎◌, inl, inr, true, false, List, [], ◌∷◌, Option, none, some, All, length,
  arith, Bool-cases, not, ◌&&◌, ltb, ap, suc, ◌==◌,
}
use isutools.Runctl.Types.{
  is_live, RunState, finished, acknowledged, is_zero, sub_time, Epoch, Time,
}
use isutools.Runctl.Budget.{Budgets, nanos}
use isutools.Runctl.Records.{RunSlot}
use isutools.Runctl.Controller.{
  slot_at, put?, expire, sweep_by_state, sweep_slot, sweep_slots, sweep,
}
use isutools.Runctl.World.{
  Duty, none_left, opens_boundary, freezes_boundary, collects, has_published, joins_workers, World,
}
use isutools.Runctl.World.Slots.{Rising, OnlyLast, slot_at_below}
use isutools.Runctl.World.Invariant.{SlotOk, is_dead, Agrees, Inv}

-- What a sweep leaves of a slot: the slot, or the slot expired, or nothing of a dead one.
abbrev pub SweptTo : Time → RunSlot → Option RunSlot → Type 0
SweptTo now s none = is_dead s.state ≡ true
SweptTo now s (some t) =
    (t ≡ s) ⊎ ((t ≡ expire now s) × ((s.state ≡ finished) ⊎ (s.state ≡ acknowledged)))

sweep_by_state-SweptTo :
    (st : RunState) (b : Budgets) (now : Time) (s : RunSlot)
    → s.state ≡ st
    → SweptTo now s (sweep_by_state st b now s).kept
unfolding sweep_by_state
sweep_by_state-SweptTo RunState.finishing b now s h =
    elim (Bool-cases (not (is_zero s.lease) && ltb s.lease now)) [
      | inl e ↦ rw e (inl refl)
      | inr e ↦ rw e (inl refl)
    ]
sweep_by_state-SweptTo RunState.started b now s h =
    elim (Bool-cases (ltb (nanos b.started_ttl) (sub_time now s.since))) [
      | inl e ↦ rw e (inl refl)
      | inr e ↦ rw e (inl refl)
    ]
sweep_by_state-SweptTo RunState.finished b now s h =
    elim (Bool-cases (ltb (nanos b.finished_ttl) (sub_time now s.since))) [
      | inl e ↦ rw e (inr (refl, inl h))
      | inr e ↦ rw e (inl refl)
    ]
sweep_by_state-SweptTo RunState.acknowledged b now s h =
    elim (Bool-cases (ltb (nanos b.finished_ttl) (sub_time now s.since))) [
      | inl e ↦ rw e (inr (refl, inr h))
      | inr e ↦ rw e (inl refl)
    ]
sweep_by_state-SweptTo RunState.aborted b now s h =
    elim (Bool-cases (ltb (nanos b.tombstone_ttl) (sub_time now s.since))) [
      | inl e ↦ rw e (rw h)
      | inr e ↦ rw e (inl refl)
    ]
sweep_by_state-SweptTo RunState.expired b now s h =
    elim (Bool-cases (ltb (nanos b.tombstone_ttl) (sub_time now s.since))) [
      | inl e ↦ rw e (rw h)
      | inr e ↦ rw e (inl refl)
    ]
sweep_by_state-SweptTo _ b now s h = inl refl

pub sweep_slot-SweptTo :
    (b : Budgets) (now : Time) (s : RunSlot) → SweptTo now s (sweep_slot b now s).kept
unfolding sweep_slot
sweep_slot-SweptTo b now s = sweep_by_state-SweptTo s.state b now s refl

-- The slots that a sweep leaves.
abbrev pub swept : Budgets → Time → List RunSlot → List RunSlot
swept b now [] = []
swept b now (s ∷ ss) = put? (sweep_slot b now s).kept (swept b now ss)

pub sweep_slots-swept :
    (b : Budgets) (now : Time) (slots : List RunSlot)
    → (sweep_slots b now slots).0 ≡ swept b now slots
unfolding sweep_slots
sweep_slots-swept b now [] = refl
sweep_slots-swept b now (s ∷ ss) = ap (put? (sweep_slot b now s).kept) (sweep_slots-swept b now ss)

Rising-lower :
    (lo lo' hi : Epoch) (slots : List RunSlot) → lo ≤ lo' → Rising lo' hi slots → Rising lo hi slots
Rising-lower lo lo' hi [] h r = omega arith
Rising-lower lo lo' hi (s ∷ ss) h r = (omega arith, r.1)

put?-Rising :
    (now : Time) (lo hi : Epoch) (s : RunSlot) (o : Option RunSlot) (ss : List RunSlot)
    → SweptTo now s o
    → lo < s.epoch
    → Rising s.epoch hi ss
    → Rising lo hi (put? o ss)
put?-Rising now lo hi s none ss k h r = Rising-lower lo s.epoch hi ss (omega arith) r
put?-Rising now lo hi s (some t) ss (inl e) h r = rw e (h, r)
put?-Rising now lo hi s (some t) ss (inr (e, st)) h r = rw e (h, r)

swept-Rising :
    (b : Budgets) (now : Time) (lo hi : Epoch) (slots : List RunSlot)
    → Rising lo hi slots
    → Rising lo hi (swept b now slots)
swept-Rising b now lo hi [] r = r
swept-Rising b now lo hi (s ∷ ss) r =
    put?-Rising now lo hi s (sweep_slot b now s).kept (swept b now ss) (sweep_slot-SweptTo b now s)
      r.0 (swept-Rising b now s.epoch hi ss r.1)

put?-All :
    (now : Time) (e : Epoch) (s : RunSlot) (o : Option RunSlot) (ss : List RunSlot)
    → SweptTo now s o
    → SlotOk e s
    → All (SlotOk e) ss
    → All (SlotOk e) (put? o ss)
put?-All now e s none ss k h a = a
put?-All now e s (some t) ss (inl q) h a = rw q (h, a)
put?-All now e s (some t) ss (inr (q, st)) h a = rw q (ground arith, a)

swept-All :
    (b : Budgets) (now : Time) (e : Epoch) (slots : List RunSlot)
    → All (SlotOk e) slots
    → All (SlotOk e) (swept b now slots)
swept-All b now e [] a = a
swept-All b now e (s ∷ ss) a =
    put?-All now e s (sweep_slot b now s).kept (swept b now ss) (sweep_slot-SweptTo b now s) a.0
      (swept-All b now e ss a.1)

length-put? : (o : Option RunSlot) (ss : List RunSlot) → length (put? o ss) ≤ suc (length ss)
length-put? none ss = omega arith
length-put? (some t) ss = omega arith

length-swept :
    (b : Budgets) (now : Time) (slots : List RunSlot) → length (swept b now slots) ≤ length slots
length-swept b now [] = omega arith
length-swept b now (s ∷ ss) =
    omega (arith, length-put? (sweep_slot b now s).kept (swept b now ss), length-swept b now ss)

OnlyLast-cons :
    (s : RunSlot) (ss : List RunSlot) → is_live s.state ≡ false → OnlyLast ss → OnlyLast (s ∷ ss)
OnlyLast-cons s [] h o = tt
OnlyLast-cons s (t ∷ ss) h o = (h, o)

put?-OnlyLast :
    (now : Time) (s : RunSlot) (o : Option RunSlot) (ss : List RunSlot)
    → SweptTo now s o
    → is_live s.state ≡ false
    → OnlyLast ss
    → OnlyLast (put? o ss)
put?-OnlyLast now s none ss k h l = l
put?-OnlyLast now s (some t) ss (inl e) h l = OnlyLast-cons t ss (rw e h) l
put?-OnlyLast now s (some t) ss (inr (e, st)) h l = OnlyLast-cons t ss (rw e) l

OnlyLast-one : (o : Option RunSlot) → OnlyLast (put? o [])
OnlyLast-one none = tt
OnlyLast-one (some t) = tt

swept-OnlyLast :
    (b : Budgets) (now : Time) (slots : List RunSlot)
    → OnlyLast slots
    → OnlyLast (swept b now slots)
swept-OnlyLast b now [] o = tt
swept-OnlyLast b now (s ∷ []) o = OnlyLast-one (sweep_slot b now s).kept
swept-OnlyLast b now (s ∷ (t ∷ ss)) o =
    put?-OnlyLast now s (sweep_slot b now s).kept (swept b now (t ∷ ss))
      (sweep_slot-SweptTo b now s) o.0 (swept-OnlyLast b now (t ∷ ss) o.1)

-- What the duty says survives a sweep: a run that somebody works for is left alone.
Agrees-SweptTo :
    (now : Time) (d : Duty) (s : RunSlot) (o : Option RunSlot)
    → SweptTo now s o
    → Agrees d (some s)
    → Agrees d o
Agrees-SweptTo now d s (some t) (inl e) a = rw e a
Agrees-SweptTo now none_left s (some t) (inr (e, st)) a = rw e (ground arith)
Agrees-SweptTo now none_left s none k a = tt
Agrees-SweptTo now opens_boundary s none k a = absurd (ground arith)
Agrees-SweptTo now freezes_boundary s none k a = absurd (ground arith)
Agrees-SweptTo now collects s none k a = absurd (ground arith)
Agrees-SweptTo now has_published s none k a = absurd (ground arith)
Agrees-SweptTo now joins_workers s none k a = elim a [ ]
Agrees-SweptTo now opens_boundary s (some t) (inr (e, st)) a = absurd (ground arith)
Agrees-SweptTo now freezes_boundary s (some t) (inr (e, st)) a = absurd (ground arith)
Agrees-SweptTo now collects s (some t) (inr (e, st)) a = absurd (ground arith)
Agrees-SweptTo now has_published s (some t) (inr (e, st)) a = absurd (ground arith)
Agrees-SweptTo now joins_workers s (some t) (inr (e, st)) a = elim a [ ]

SweptTo-epoch : (now : Time) (s t : RunSlot) → SweptTo now s (some t) → t.epoch ≡ s.epoch
SweptTo-epoch now s t (inl e) = rw e
SweptTo-epoch now s t (inr (e, st)) = rw e

put?-miss :
    (now : Time) (e : Epoch) (s : RunSlot) (o : Option RunSlot) (ss : List RunSlot)
    → SweptTo now s o
    → (s.epoch == e) ≡ false
    → slot_at e (put? o ss) ≡ slot_at e ss
put?-miss now e s none ss k h = refl
put?-miss now e s (some t) ss k h = rw (SweptTo-epoch now s t k, h)

put?-hit :
    (now : Time) (e : Epoch) (s : RunSlot) (o : Option RunSlot) (ss : List RunSlot)
    → SweptTo now s o
    → (s.epoch == e) ≡ true
    → slot_at e ss ≡ none
    → slot_at e (put? o ss) ≡ o
put?-hit now e s none ss k h n = n
put?-hit now e s (some t) ss k h n = rw (SweptTo-epoch now s t k, h)

swept-Agrees :
    (b : Budgets) (now : Time) (d : Duty) (e lo hi : Epoch) (slots : List RunSlot)
    → Rising lo hi slots
    → Agrees d (slot_at e slots)
    → Agrees d (slot_at e (swept b now slots))
swept-Agrees b now d e lo hi [] r a = a
swept-Agrees b now d e lo hi (s ∷ ss) r a = elim (Bool-cases (s.epoch == e)) [
  | inl h ↦
      let gone =
        slot_at_below e s.epoch hi (swept b now ss) (swept-Rising b now s.epoch hi ss r.1)
          (ground arith) in
      rw
        (put?-hit now e s (sweep_slot b now s).kept (swept b now ss) (sweep_slot-SweptTo b now s) h
          gone)
        (Agrees-SweptTo now d s (sweep_slot b now s).kept (sweep_slot-SweptTo b now s) (rw h at a))
  | inr h ↦
      rw
        (put?-miss now e s (sweep_slot b now s).kept (swept b now ss) (sweep_slot-SweptTo b now s)
          h)
        (swept-Agrees b now d e s.epoch hi ss r.1 (rw h at a))
]

pub sweeps-Inv : (w : World) (now : Time) → Inv w → Inv (record w { ctl = (sweep w.ctl now).0 })
unfolding sweep
sweeps-Inv w now v =
    let b = w.ctl.budgets in
    rw (sweep_slots-swept b now w.ctl.slots) (record {
      ordered = swept-Rising b now 0 w.ctl.epoch w.ctl.slots v.ordered;
      only_last = swept-OnlyLast b now w.ctl.slots v.only_last;
      slots_ok = swept-All b now w.ctl.epoch w.ctl.slots v.slots_ok;
      agrees =
          swept-Agrees b now (w.duty w.ctl.epoch) w.ctl.epoch 0 w.ctl.epoch w.ctl.slots v.ordered
            v.agrees;
      fresh = v.fresh;
    })
