-- ===== src/Runctl/World/Others.antt =====
-- Every step keeps the invariant: the steps that need no fence.
use isutools.Prelude.{
  ℕ, zero, suc, none, ltb, ◌⊎◌, true, false, Bool-cases, ◌+◌, ◌≤◌, ◌≡◌, refl, inl, inr, String,
  List, [], ◌∷◌, ◌++◌, Option, some, All, length, arith, Option-cases,
}
use isutools.Prelude.Int.{ℤ}
use isutools.Runctl.Types.{
  active, is_live, Epoch, Time, GenerationHandle, BaselineHandle, Registration,
}
use isutools.Runctl.Phase.{RegisteredGeneration, RegisteredBaseline, Call}
use isutools.Runctl.Records.{RunSlot, notify, new_slot, end_owner, cancel}
use isutools.Runctl.Controller.{
  Controller, slot_at, update, fenced_slot, leave, commit, add_slot, retain, evict, retained_runs,
  register_generation, register_baseline,
}
use isutools.Runctl.Release.{drain_and_release, release_baseline}
use isutools.Runctl.Abort.{reap, slot_gen, slot_base}
use isutools.Runctl.Start.{begin_open, start_drain_worker, discard_worker}
use isutools.Runctl.World.{opens_boundary, World, assign, Quiet}
use isutools.Runctl.World.Slots.{Rising, OnlyLast, Rising-bounds}
use isutools.Runctl.World.Effects.{
  commit-Fenced, release_both-Same, release_baseline-Same, drain_and_release-Same, Same-trans,
}
use isutools.Runctl.World.Steps.{assign_self}
use isutools.Runctl.World.Invariant.{SlotOk, Inv, IsTame, tame-Inv, same-Inv}

pub leaves-Inv : (w : World) (ep : Epoch) → Inv w → Inv (record w { ctl = leave w.ctl ep })
unfolding leave
leaves-Inv w ep v =
    tame-Inv w _ ep end_owner v refl refl (record {
      epoch = λ s. refl;
      state = λ s. refl;
      snapshot = λ s. refl;
      finish_set = λ s. refl;
    })

pub reaps-Inv : (w : World) (ep : Epoch) → Inv w → Inv (record w { ctl = reap w.ctl ep })
unfolding reap
reaps-Inv w ep v =
    let c : Controller = record w.ctl {
      slots =
          update ep (λ s. record s { gen = []; gen_final = []; base = []; base_f = [] })
            w.ctl.slots;
    } in
    let same =
      release_both-Same c (slot_gen (slot_at ep w.ctl.slots))
        (slot_base (slot_at ep w.ctl.slots)) in
    tame-Inv w _ ep (λ s. record s { gen = []; gen_final = []; base = []; base_f = [] }) v
      same.epoch same.slots
      (record {
        epoch = λ s. refl;
        state = λ s. refl;
        snapshot = λ s. refl;
        finish_set = λ s. refl;
      })

-- A fenced change that the invariant does not speak of.
tame_commit-Inv :
    (w : World) (ep : Epoch) (f : RunSlot → RunSlot)
    → Inv w
    → IsTame f
    → Inv (record w { ctl = (commit w.ctl ep f).0 })
tame_commit-Inv w ep f v t =
    let r = commit-Fenced w.ctl ep f in
    elim (Option-cases (fenced_slot w.ctl ep)) [
      | inl e ↦ same-Inv w _ v r.epoch (r.rejected e)
      | inr (s, e) ↦
          tame-Inv w _ ep (λ s. notify (f s)) v r.epoch (r.passed s e)
            (record {
              epoch = t.epoch;
              state = t.state;
              snapshot = t.snapshot;
              finish_set = t.finish_set;
            })
    ]

pub drains-Inv :
    (w : World) (ep : Epoch) (hs : List GenerationHandle)
    → Inv w
    → Inv (record w { ctl = start_drain_worker w.ctl ep hs })
unfolding start_drain_worker
drains-Inv w ep hs v =
    let same = drain_and_release-Same w.ctl hs in
    let w₁ : World = record w { ctl = drain_and_release w.ctl hs } in
    let v₁ : Inv w₁ = same-Inv w _ v same.epoch same.slots in
    let w₂ : World = record w { ctl = (commit w₁.ctl ep (λ s. record s { gen = [] })).0 } in
    let v₂ : Inv w₂ = tame_commit-Inv w₁ ep _ v₁ (record {
      epoch = λ s. refl;
      state = λ s. refl;
      snapshot = λ s. refl;
      finish_set = λ s. refl;
    }) in
    leaves-Inv w₂ ep v₂

pub discards-Inv :
    (w : World) (ep : Epoch) (hs : List GenerationHandle) (bs : List BaselineHandle)
    → Inv w
    → Inv (record w { ctl = discard_worker w.ctl ep hs bs })
unfolding discard_worker
discards-Inv w ep hs bs v =
    let same =
      Same-trans w.ctl _ _ (drain_and_release-Same w.ctl hs)
        (release_baseline-Same (drain_and_release w.ctl hs) bs) in
    let w₁ : World = record w { ctl = release_baseline (drain_and_release w.ctl hs) bs } in
    let v₁ : Inv w₁ = same-Inv w _ v same.epoch same.slots in
    let w₂ : World = record w {
      ctl = (commit w₁.ctl ep (λ s. record s { gen = []; base = [] })).0;
    } in
    let v₂ : Inv w₂ = tame_commit-Inv w₁ ep _ v₁ (record {
      epoch = λ s. refl;
      state = λ s. refl;
      snapshot = λ s. refl;
      finish_set = λ s. refl;
    }) in
    let w₃ : World = record w { ctl = record w₂.ctl { slots = update ep cancel w₂.ctl.slots } } in
    let v₃ : Inv w₃ = tame-Inv w₂ _ ep cancel v₂ refl refl (record {
      epoch = λ s. refl;
      state = λ s. refl;
      snapshot = λ s. refl;
      finish_set = λ s. refl;
    }) in
    leaves-Inv w₃ ep v₃

pub registers_generation-Inv :
    (w : World) (r : Registration) (g : Option RegisteredGeneration) (budget : Option (Call ℤ))
    → Inv w
    → Inv (record w { ctl = (register_generation w.ctl r g budget).0 })
unfolding register_generation
registers_generation-Inv w r g budget v =
    same-Inv w (register_generation w.ctl r g budget).0 v (ground arith) (ground arith)

pub registers_baseline-Inv :
    (w : World) (r : Registration) (g : Option RegisteredBaseline) (budget : Option (Call ℤ))
    → Inv w
    → Inv (record w { ctl = (register_baseline w.ctl r g budget).0 })
unfolding register_baseline
registers_baseline-Inv w r g budget v =
    same-Inv w (register_baseline w.ctl r g budget).0 v (ground arith) (ground arith)

-- Some of the slots, in their order: what is left has each property that all of them had.
record Part (ys xs : List RunSlot) : Type 1 where
  all_of : (P : RunSlot → Type 0) → All P xs → All P ys
  rising : (lo hi : Epoch) → Rising lo hi xs → Rising lo hi ys

Rising-lower :
    (lo lo' hi : Epoch) (slots : List RunSlot) → lo ≤ lo' → Rising lo' hi slots → Rising lo hi slots
Rising-lower lo lo' hi [] h r = omega arith
Rising-lower lo lo' hi (s ∷ ss) h r = (omega (arith, r.0), r.1)

Part-all : (xs : List RunSlot) → Part xs xs
Part-all xs = record { all_of = λ P h. h; rising = λ lo hi h. h }

Part-tail : (x : RunSlot) (xs : List RunSlot) → Part xs (x ∷ xs)
Part-tail x xs = record {
  all_of = λ P h. h.1;
  rising = λ lo hi h. Rising-lower lo x.epoch hi xs (omega (arith, h.0)) h.1;
}

Part-cons : (x : RunSlot) (ys xs : List RunSlot) → Part ys xs → Part (x ∷ ys) (x ∷ xs)
Part-cons x ys xs p = record {
  all_of = λ P h. (h.0, p.all_of P h.1);
  rising = λ lo hi h. (h.0, p.rising x.epoch hi h.1);
}

Part-trans : {zs ys xs : List RunSlot} → Part zs ys → Part ys xs → Part zs xs
Part-trans q p = record {
  all_of = λ P h. q.all_of P (p.all_of P h);
  rising = λ lo hi h. q.rising lo hi (p.rising lo hi h);
}

-- An eviction before an active slot takes one of the others away, or none.
evict-snoc :
    (s : RunSlot) (xs : List RunSlot)
    → active s.state ≡ true
    → (evict (xs ++ s ∷ []) ≡ none)
      ⊎ ((ys : List RunSlot) × (evict (xs ++ s ∷ []) ≡ some (ys ++ s ∷ [])) × Part ys xs)
unfolding evict
evict-snoc s [] h = inl (rw h refl)
evict-snoc s (x ∷ xs) h = elim (Bool-cases (active x.state)) [
  | inr e ↦ inr (xs, rw e refl, Part-tail x xs)
  | inl e ↦ elim (evict-snoc s xs h) [
    | inl k ↦ inl (rw (e, k) refl)
    | inr (ys, k, p) ↦ inr (x ∷ ys, rw (e, k) refl, Part-cons x ys xs p)
  ]
]

retain-snoc :
    (f : ℕ) (s : RunSlot) (xs : List RunSlot)
    → active s.state ≡ true
    → (ys : List RunSlot) × (retain f (xs ++ s ∷ []) ≡ ys ++ s ∷ []) × Part ys xs
unfolding retain
retain-snoc zero s xs h = (xs, refl, Part-all xs)
retain-snoc (suc f) s xs h = elim (Bool-cases (ltb retained_runs (length (xs ++ s ∷ [])))) [
  | inr e ↦ (xs, rw e refl, Part-all xs)
  | inl e ↦ elim (evict-snoc s xs h) [
    | inl k ↦ (xs, rw (e, k) refl, Part-all xs)
    | inr (ys, k, p) ↦ let (zs, r, q) = retain-snoc f s ys h in (zs, rw (e, k) r, Part-trans q p)
  ]
]

add_slot-snoc :
    (s : RunSlot) (xs : List RunSlot)
    → active s.state ≡ true
    → (ys : List RunSlot) × (add_slot s xs ≡ ys ++ s ∷ []) × Part ys xs
unfolding add_slot
add_slot-snoc s xs h = retain-snoc (length (xs ++ s ∷ [])) s xs h

Rising-append :
    (lo hi : Epoch) (front : List RunSlot) (s : RunSlot)
    → Rising lo hi front
    → s.epoch ≡ hi + 1
    → Rising lo (hi + 1) (front ++ s ∷ [])
Rising-append lo hi [] s r e = (omega arith, omega arith)
Rising-append lo hi (a ∷ ss) s r e = (r.0, Rising-append a.epoch hi ss s r.1 e)

OnlyLast-append : (front : List RunSlot) (s : RunSlot) → Quiet front → OnlyLast (front ++ s ∷ [])
OnlyLast-append [] s q = tt
OnlyLast-append (a ∷ []) s q = (q.0, tt)
OnlyLast-append (a ∷ (b ∷ ss)) s q = (q.0, OnlyLast-append (b ∷ ss) s q.1)

slots_ok-append :
    (e : Epoch) (front : List RunSlot) (s : RunSlot)
    → Quiet front
    → All (SlotOk e) front
    → SlotOk (e + 1) s
    → All (SlotOk (e + 1)) (front ++ s ∷ [])
slots_ok-append e [] s q a k = (k, tt)
slots_ok-append e (b ∷ ss) s q a k = (ground (arith, q.0, a.0), slots_ok-append e ss s q.1 a.1 k)

slot_at-append :
    (lo hi : Epoch) (front : List RunSlot) (s : RunSlot)
    → Rising lo hi front
    → s.epoch ≡ hi + 1
    → slot_at (hi + 1) (front ++ s ∷ []) ≡ some s
slot_at-append lo hi [] s r e = ground arith
slot_at-append lo hi (a ∷ ss) s r e =
    ground (arith, slot_at-append a.epoch hi ss s r.1 e, Rising-bounds a.epoch hi ss r.1)

-- The opening of a run, when no other one may still give data.
pub opens-Inv :
    (w : World) (now : Time) (run_id nonce trigger : String)
    → Inv w
    → Quiet w.ctl.slots
    → Inv (record {
      ctl = begin_open w.ctl now run_id nonce trigger;
      duty = assign w.duty (w.ctl.epoch + 1) opens_boundary;
    })
unfolding begin_open
opens-Inv w now run_id nonce trigger v q =
    let e = w.ctl.epoch in
    let s : RunSlot = new_slot run_id nonce (e + 1) trigger now in
    let (front, grown, part) = add_slot-snoc s w.ctl.slots refl in
    let rising = part.rising 0 e v.ordered in
    let calm = part.all_of (λ t. is_live t.state ≡ false) q in
    record {
      ordered = rw grown (Rising-append 0 e front s rising refl);
      only_last = rw grown (OnlyLast-append front s calm);
      slots_ok =
          rw grown
            (slots_ok-append e front s calm (part.all_of (SlotOk e) v.slots_ok) (ground arith));
      agrees =
          rw
            (
              grown,
              slot_at-append 0 e front s rising refl,
              assign_self w.duty (e + 1) opens_boundary,
            )
            (refl, refl, refl);
      fresh = λ x h. ground (arith, v.fresh x);
    }
