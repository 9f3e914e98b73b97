-- ===== src/Runctl/World/Slots.antt =====
-- Slots by epoch: what a write through one epoch, a publication or a sweep leaves alone.
use isutools.Prelude.{
  ◌≤◌, ◌<◌, ◌≡◌, ◌≢◌, refl, sym, subst, inl, inr, Bool, true, false, List, [], ◌∷◌, none, some, All,
  arith, length, Bool-cases, find?, ◌==◌, if◌then◌else◌,
}
use mathlib.Core.Option
use isutools.Runctl.Types.{is_live, Epoch}
use isutools.Runctl.Records.{RunSlot}
use isutools.Runctl.Controller.{update, slot_at}

-- Epochs rise along the list, from above the first bound up to the second.
abbrev pub Rising : Epoch → Epoch → List RunSlot → Type 0
Rising lo hi [] = lo ≤ hi
Rising lo hi (s ∷ ss) = (lo < s.epoch) × Rising s.epoch hi ss

-- Only the newest slot may block a new run.
abbrev pub OnlyLast : List RunSlot → Type 0
OnlyLast [] = Unit
OnlyLast (s ∷ []) = Unit
OnlyLast (s ∷ (t ∷ ss)) = (is_live s.state ≡ false) × OnlyLast (t ∷ ss)

pub Rising-weaken :
    (lo hi hi' : Epoch) (slots : List RunSlot) → hi ≤ hi' → Rising lo hi slots → Rising lo hi' slots
Rising-weaken lo hi hi' [] h r = omega arith
Rising-weaken lo hi hi' (s ∷ ss) h r = (r.0, Rising-weaken s.epoch hi hi' ss h r.1)

pub Rising-bounds : (lo hi : Epoch) (slots : List RunSlot) → Rising lo hi slots → lo ≤ hi
Rising-bounds lo hi [] r = r
Rising-bounds lo hi (s ∷ ss) r = omega (arith, Rising-bounds s.epoch hi ss r.1)

-- A change of a slot that keeps its epoch.
abbrev pub KeepsEpoch : (RunSlot → RunSlot) → Type 0
KeepsEpoch f = (s : RunSlot) → (f s).epoch ≡ s.epoch

pub update-Rising :
    (ep lo hi : Epoch) (f : RunSlot → RunSlot) (slots : List RunSlot)
    → KeepsEpoch f
    → Rising lo hi slots
    → Rising lo hi (update ep f slots)
unfolding update
update-Rising ep lo hi f [] k r = r
update-Rising ep lo hi f (s ∷ ss) k r =
    ground (arith, k s, r, update-Rising ep s.epoch hi f ss k r.1)

pub length-update :
    (ep : Epoch) (f : RunSlot → RunSlot) (slots : List RunSlot)
    → length (update ep f slots) ≡ length slots
unfolding update
length-update ep f [] = refl
length-update ep f (s ∷ ss) = omega (arith, length-update ep f ss)

update_above :
    (ep lo hi : Epoch) (f : RunSlot → RunSlot) (slots : List RunSlot)
    → Rising lo hi slots
    → ep ≤ lo
    → update ep f slots ≡ slots
unfolding update
update_above ep lo hi f [] r h = refl
update_above ep lo hi f (s ∷ ss) r h = ground (arith, update_above ep s.epoch hi f ss r.1)

update_hit :
    (ep lo hi : Epoch) (f : RunSlot → RunSlot) (s : RunSlot) (ss : List RunSlot)
    → (s.epoch == ep) ≡ true
    → Rising lo hi (s ∷ ss)
    → update ep f (s ∷ ss) ≡ f s ∷ ss
unfolding update
update_hit ep lo hi f s ss e r = rw (e, update_above ep s.epoch hi f ss r.1 (ground arith))

All-above :
    (P Q : RunSlot → Type 0) (ep lo hi : Epoch) (slots : List RunSlot)
    → ((s : RunSlot) → s.epoch ≢ ep → P s → Q s)
    → Rising lo hi slots
    → ep ≤ lo
    → All P slots
    → All Q slots
All-above P Q ep lo hi [] k r h a = tt
All-above P Q ep lo hi (s ∷ ss) k r h a =
    (k s (omega arith) a.0, All-above P Q ep s.epoch hi ss k r.1 (omega arith) a.1)

-- What holds of each slot after a write at an epoch, from what held before: the slot of that epoch
-- is the only one that changes.
pub update-All :
    (P Q : RunSlot → Type 0) (ep : Epoch) (f : RunSlot → RunSlot) (slots : List RunSlot)
    → ((s : RunSlot) → slot_at ep slots ≡ some s → P s → Q (f s))
    → ((s : RunSlot) → s.epoch ≢ ep → P s → Q s)
    → (lo hi : Epoch) → Rising lo hi slots
    → All P slots
    → All Q (update ep f slots)
unfolding update
update-All P Q ep f [] h k lo hi r a = tt
update-All P Q ep f (s ∷ ss) h k lo hi r a = elim (Bool-cases (s.epoch == ep)) [
  | inl e ↦
      rw (e, update_above ep s.epoch hi f ss r.1 (ground arith))
        (h s (rw e) a.0, All-above P Q ep s.epoch hi ss k r.1 (ground arith) a.1)
  | inr e ↦
      rw e
        (k s (ground arith) a.0, update-All P Q ep f ss (λ t q. h t (rw e q)) k s.epoch hi r.1 a.1)
]

-- A slot read after a write.
pub slot_at-update :
    (e ep : Epoch) (f : RunSlot → RunSlot) (slots : List RunSlot)
    → KeepsEpoch f
    → slot_at e (update ep f slots)
      ≡ (if e == ep then Option.map f (slot_at e slots) else slot_at e slots)
unfolding update
slot_at-update e ep f [] k = ground arith
slot_at-update e ep f (s ∷ ss) k = ground (arith, k s, slot_at-update e ep f ss k)

-- A change, at the slot of an epoch, that lets nobody block a new run who did not before.
abbrev pub CalmsAt : Epoch → List RunSlot → (RunSlot → RunSlot) → Type 0
CalmsAt ep slots f =
    (s : RunSlot)
    → slot_at ep slots ≡ some s
    → is_live s.state ≡ false
    → is_live (f s).state ≡ false

pub update-OnlyLast :
    (ep lo hi : Epoch) (f : RunSlot → RunSlot) (slots : List RunSlot)
    → CalmsAt ep slots f
    → Rising lo hi slots
    → OnlyLast slots
    → OnlyLast (update ep f slots)
unfolding update
update-OnlyLast ep lo hi f [] c r o = tt
update-OnlyLast ep lo hi f (s ∷ []) c r o = tt
update-OnlyLast ep lo hi f (s ∷ (t ∷ ss)) c r o = elim (Bool-cases (s.epoch == ep)) [
  | inl e ↦ subst OnlyLast (sym (update_hit ep lo hi f s (t ∷ ss) e r)) (c s (rw e) o.0, o.1)
  | inr e ↦ rw e (o.0, update-OnlyLast ep s.epoch hi f (t ∷ ss) (λ u q. c u (rw e q)) r.1 o.1)
]

-- What holds of every slot holds of the one of an epoch.
pub slot_at-All :
    (P : RunSlot → Type 0) (ep : Epoch) (slots : List RunSlot) (s : RunSlot)
    → slot_at ep slots ≡ some s
    → All P slots
    → P s
slot_at-All P ep [] s h a = absurd (cc)
slot_at-All P ep (t ∷ ts) s h a = elim (Bool-cases (t.epoch == ep)) [
  | inl e ↦ let q : some t ≡ some s = rw e at h in subst P (cc) a.0
  | inr e ↦ slot_at-All P ep ts s (rw e at h) a.1
]

-- No slot lies above the controller's epoch.
pub slot_at_above :
    (e lo hi : Epoch) (slots : List RunSlot) → Rising lo hi slots → hi < e → slot_at e slots ≡ none
slot_at_above e lo hi [] r h = refl
slot_at_above e lo hi (s ∷ ss) r h =
    ground (arith, slot_at_above e s.epoch hi ss r.1, Rising-bounds s.epoch hi ss r.1)

pub slot_at_below :
    (e lo hi : Epoch) (slots : List RunSlot) → Rising lo hi slots → e ≤ lo → slot_at e slots ≡ none
slot_at_below e lo hi [] r h = refl
slot_at_below e lo hi (s ∷ ss) r h = ground (arith, slot_at_below e s.epoch hi ss r.1)

-- A slot that a search finds is the slot of its epoch.
pub find?-slot_at :
    (p : RunSlot → Bool) (lo hi : Epoch) (slots : List RunSlot) (s : RunSlot)
    → Rising lo hi slots
    → find? p slots ≡ some s
    → slot_at s.epoch slots ≡ some s
find?-slot_at p lo hi [] s r h = absurd (cc)
find?-slot_at p lo hi (t ∷ ts) s r h = elim (Bool-cases (p t)) [
  | inl e ↦
      let q : some t ≡ some s = rw e at h in
      let te : t ≡ s = cc in subst (λ x. slot_at x.epoch (t ∷ ts) ≡ some x) te (ground arith)
  | inr e ↦
      let ih = find?-slot_at p t.epoch hi ts s r.1 (rw e at h) in
      elim (Bool-cases (t.epoch == s.epoch)) [
        | inl k ↦ absurd (cc (ih, slot_at_below s.epoch t.epoch hi ts r.1 (ground arith)))
        | inr k ↦ rw k ih
      ]
]
