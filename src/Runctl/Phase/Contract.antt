-- ===== src/Runctl/Phase/Contract.antt =====
-- What a boundary phase promises of its outcome, and that the generation phase keeps it.
use isutools.Prelude.{
  ℕ, suc, ◌≡◌, ◌≢◌, ◌↔◌, refl, ap, sym, ◌∙◌, inl, inr, true, false, String, List, [], ◌∷◌, ◌++◌,
  map, Option, none, some, cons?, if◌then◌else◌, All, Any, All₂, arith,
}
use mathlib.Core.List.{append-nil, append_assoc}
use isutools.Runctl.Types.{
  Validity, unset, valid, invalid, worse, Phase, Kind, generation, success, Failure, Epoch,
  GenerationHandle, CollectorBoundary, Registration,
}
use isutools.Runctl.Phase.{
  Turn, Outcome, RegisteredGeneration, generation_turn, generation_turns, empty_outcome, add_turn,
  add_turns, degraded, run_generation_phase, safe_result, generation_call, zero_boundary,
}

-- A turn is about the collector it was made for, is dropped unless committed, and degrades the run
-- exactly if the collector has a failure code.
pub record IsTurnOf {H : Type 0} (kind : Kind) (phase : Phase) (reg : Registration) (t : Turn H)
    : Type 0 where
  pub about : t.boundary.name ≡ reg.name
  pub is_required : t.boundary.required ≡ reg.required
  pub of_kind : t.boundary.kind ≡ kind
  pub of_phase : t.boundary.phase ≡ phase
  pub kept_committed : t.boundary.dropped ≡ false → t.boundary.committed ≡ true
  pub succeeded_kept : t.boundary.code ≡ success → t.boundary.dropped ≡ false
  pub clean : t.boundary.code ≡ success → degraded valid t.degrade ≡ valid
  pub spoiled : (t.boundary.code ≡ success → ⊥) → (degraded valid t.degrade ≡ valid → ⊥)
  pub fatal : (t.boundary.code ≡ success → ⊥) → reg.required ≡ true → t.degrade ≡ some invalid

generation_turn-IsTurnOf :
    (phase : Phase) (run_id : String) (ep : Epoch) (ctx : Option Failure)
    (rc : RegisteredGeneration)
    → IsTurnOf generation phase rc.reg (generation_turn phase run_id ep ctx rc)
unfolding generation_turn
generation_turn-IsTurnOf phase run_id ep ctx rc = ground arith

generation_turns-IsTurnOf :
    (phase : Phase) (run_id : String) (ep : Epoch) (expired : ℕ → Option Failure)
    (regs : List RegisteredGeneration)
    → All₂
        (IsTurnOf generation phase)
        (map (λ rc. rc.reg) regs)
        (generation_turns phase run_id ep expired regs)
unfolding generation_turns
generation_turns-IsTurnOf phase run_id ep expired [] = tt
generation_turns-IsTurnOf phase run_id ep expired (rc ∷ rcs) = (
  generation_turn-IsTurnOf phase run_id ep (expired 0) rc,
  generation_turns-IsTurnOf phase run_id ep (λ i. expired (suc i)) rcs,
)

-- The record that a phase keeps of one collector.
pub record IsRecordOf (kind : Kind) (phase : Phase) (reg : Registration) (b : CollectorBoundary)
    : Type 0 where
  pub about : b.name ≡ reg.name
  pub is_required : b.required ≡ reg.required
  pub of_kind : b.kind ≡ kind
  pub of_phase : b.phase ≡ phase
  pub kept_committed : b.dropped ≡ false → b.committed ≡ true
  pub succeeded_kept : b.code ≡ success → b.dropped ≡ false

abbrev pub Succeeded : CollectorBoundary → Type 0
Succeeded b = b.code ≡ success

abbrev pub RequiredFailed : CollectorBoundary → Type 0
RequiredFailed b = (b.required ≡ true) × (b.code ≡ success → ⊥)

-- One record for each registered collector, in order; the run stays valid exactly if all of them
-- succeeded, and is invalid if a required one failed.
pub record KeepsContract {H : Type 0} (kind : Kind) (phase : Phase) (regs : List Registration)
    (out : Outcome H) : Type 0 where
  pub records : All₂ (IsRecordOf kind phase) regs out.boundaries
  pub valid_if_all : All Succeeded out.boundaries → out.validity ≡ valid
  pub all_if_valid : out.validity ≡ valid → All Succeeded out.boundaries
  pub invalid_if_required : Any RequiredFailed out.boundaries → out.validity ≡ invalid

-- The handles that a list of turns hands over, in order.
abbrev pub gather : {H : Type 0} → List (Turn H) → List H
gather [] = []
gather (t ∷ ts) = cons? t.handle (gather ts)

abbrev verdict : {H : Type 0} → Validity → List (Turn H) → Validity
verdict v [] = v
verdict v (t ∷ ts) = verdict (degraded v t.degrade) ts

degraded-unset : (v : Validity) (d : Option Validity) → v ≢ unset → degraded v d ≢ unset
degraded-unset v d h e = ground arith

degraded-valid :
    (v : Validity) (d : Option Validity)
    → v ≢ unset
    → (degraded v d ≡ valid) ↔ ((v ≡ valid) × (degraded valid d ≡ valid))
degraded-valid v d h = ground arith

degraded-invalid : (d : Option Validity) → degraded invalid d ≡ invalid
degraded-invalid d = ground arith

worse-invalid : (v : Validity) → worse v invalid ≡ invalid
worse-invalid v = ground arith

module _ {H : Type 0} where
  pub add_turns-boundaries :
      (out : Outcome H) (ts : List (Turn H))
      → (add_turns out ts).boundaries ≡ out.boundaries ++ map (λ t. t.boundary) ts
  unfolding add_turns
  add_turns-boundaries out [] = sym (append-nil out.boundaries)
  add_turns-boundaries out (t ∷ ts) =
      add_turns-boundaries (add_turn out t) ts ∙ append_assoc out.boundaries (t.boundary ∷ []) _

  cons?-append : (o : Option H) (xs : List H) → cons? o [] ++ xs ≡ cons? o xs
  cons?-append none xs = refl
  cons?-append (some x) xs = refl

  pub add_turns-handles :
      (out : Outcome H) (ts : List (Turn H)) → (add_turns out ts).handles ≡ out.handles ++ gather ts
  unfolding add_turns
  add_turns-handles out [] = sym (append-nil out.handles)
  add_turns-handles out (t ∷ ts) =
      add_turns-handles (add_turn out t) ts
      ∙ append_assoc out.handles (cons? t.handle []) (gather ts)
      ∙ ap (◌++◌ out.handles) (cons?-append t.handle (gather ts))

  add_turns-validity :
      (out : Outcome H) (ts : List (Turn H)) → (add_turns out ts).validity ≡ verdict out.validity ts
  unfolding add_turns
  add_turns-validity out [] = refl
  add_turns-validity out (t ∷ ts) = add_turns-validity (add_turn out t) ts

  verdict-invalid : (ts : List (Turn H)) → verdict invalid ts ≡ invalid
  verdict-invalid [] = refl
  verdict-invalid (t ∷ ts) = rw (degraded-invalid t.degrade) (verdict-invalid ts)

  module _ (kind : Kind) (phase : Phase) where
    turns-records :
        (regs : List Registration) (ts : List (Turn H))
        → All₂ (IsTurnOf kind phase) regs ts
        → All₂ (IsRecordOf kind phase) regs (map (λ t. t.boundary) ts)
    turns-records [] [] h = tt
    turns-records [] (t ∷ ts) h = h
    turns-records (r ∷ rs) [] h = h
    turns-records (r ∷ rs) (t ∷ ts) h = (ground (arith, h.0), turns-records rs ts h.1)

    verdict-valid :
        (v : Validity) (regs : List Registration) (ts : List (Turn H))
        → All₂ (IsTurnOf kind phase) regs ts
        → v ≡ valid
        → All Succeeded (map (λ t. t.boundary) ts)
        → verdict v ts ≡ valid
    verdict-valid v [] [] h e all = e
    verdict-valid v [] (t ∷ ts) h e all = elim h [ ]
    verdict-valid v (r ∷ rs) [] h e all = e
    verdict-valid v (r ∷ rs) (t ∷ ts) h e all =
        verdict-valid (degraded v t.degrade) rs ts h.1 (rw e (h.0.clean all.0)) all.1

    valid-verdict :
        (v : Validity) (regs : List Registration) (ts : List (Turn H))
        → All₂ (IsTurnOf kind phase) regs ts
        → v ≢ unset
        → verdict v ts ≡ valid
        → (v ≡ valid) × All Succeeded (map (λ t. t.boundary) ts)
    valid-verdict v [] [] h s e = (e, tt)
    valid-verdict v [] (t ∷ ts) h s e = elim h [ ]
    valid-verdict v (r ∷ rs) [] h s e = elim h [ ]
    valid-verdict v (r ∷ rs) (t ∷ ts) h s e =
        let (now, rest) =
          valid-verdict (degraded v t.degrade) rs ts h.1 (degraded-unset v t.degrade s) e in
        let both = (degraded-valid v t.degrade s).0 now in
        (both.0, (ground (arith, h.0, both), rest))

    verdict-required :
        (v : Validity) (regs : List Registration) (ts : List (Turn H))
        → All₂ (IsTurnOf kind phase) regs ts
        → Any RequiredFailed (map (λ t. t.boundary) ts)
        → verdict v ts ≡ invalid
    verdict-required v [] [] h a = elim a [ ]
    verdict-required v [] (t ∷ ts) h a = elim h [ ]
    verdict-required v (r ∷ rs) [] h a = elim h [ ]
    verdict-required v (r ∷ rs) (t ∷ ts) h (inl a) =
        rw (h.0.fatal a.1 (sym h.0.is_required ∙ a.0)) (rw (worse-invalid v) (verdict-invalid ts))
    verdict-required v (r ∷ rs) (t ∷ ts) h (inr a) =
        verdict-required (degraded v t.degrade) rs ts h.1 a

    pub turns-KeepsContract :
        (regs : List Registration) (ts : List (Turn H))
        → All₂ (IsTurnOf kind phase) regs ts
        → KeepsContract kind phase regs (add_turns empty_outcome ts)
    turns-KeepsContract regs ts h =
        let bs = add_turns-boundaries empty_outcome ts in
        let vs = add_turns-validity empty_outcome ts in
        record {
          records = rw bs (turns-records regs ts h);
          valid_if_all = rw (bs, vs) (verdict-valid valid regs ts h refl);
          all_if_valid = rw (bs, vs) (λ e. (valid-verdict valid regs ts h (λ q. cc) e).1);
          invalid_if_required = rw (bs, vs) (verdict-required valid regs ts h);
        }

-- The opening and the closing phase of the generation collectors visit every collector and record
-- it, whatever fails on the way and whenever the budget runs out.
pub run_generation_phase-KeepsContract :
    (phase : Phase) (run_id : String) (ep : Epoch) (expired : ℕ → Option Failure)
    (regs : List RegisteredGeneration)
    → KeepsContract generation phase
        (map (λ rc. rc.reg) regs)
        (run_generation_phase phase run_id ep expired regs)
unfolding run_generation_phase
run_generation_phase-KeepsContract phase run_id ep expired regs =
    turns-KeepsContract generation phase _ _
      (generation_turns-IsTurnOf phase run_id ep expired regs)

-- The handles of the collectors whose switch took effect: those that the phase reached and whose
-- answer says `Committed`, with an error or without.
abbrev pub committed_handles :
    Phase
    → String
    → Epoch
    → (ℕ → Option Failure)
    → List RegisteredGeneration
    → List GenerationHandle
committed_handles phase run_id ep expired [] = []
committed_handles phase run_id ep expired (rc ∷ rcs) =
    let rest = committed_handles phase run_id ep (λ i. expired (suc i)) rcs in
    let answer = (safe_result zero_boundary (generation_call phase rc run_id ep)).0 in
    elim (expired 0) [
      | some e ↦ rest
      | none ↦ if answer.committed then answer.handle ∷ rest else rest
    ]

gather-generation_turns :
    (phase : Phase) (run_id : String) (ep : Epoch) (expired : ℕ → Option Failure)
    (regs : List RegisteredGeneration)
    → gather (generation_turns phase run_id ep expired regs)
      ≡ committed_handles phase run_id ep expired regs
unfolding generation_turns generation_turn
gather-generation_turns phase run_id ep expired [] = refl
gather-generation_turns phase run_id ep expired (rc ∷ rcs) =
    ground (arith, gather-generation_turns phase run_id ep (λ i. expired (suc i)) rcs)

-- No switch that took effect is forgotten: the phase hands over exactly the handles of the
-- committed answers, in registration order, also where the call failed and its section is dropped.
pub run_generation_phase-handles :
    (phase : Phase) (run_id : String) (ep : Epoch) (expired : ℕ → Option Failure)
    (regs : List RegisteredGeneration)
    → (run_generation_phase phase run_id ep expired regs).handles
      ≡ committed_handles phase run_id ep expired regs
unfolding run_generation_phase
run_generation_phase-handles phase run_id ep expired regs =
    add_turns-handles empty_outcome (generation_turns phase run_id ep expired regs)
    ∙ gather-generation_turns phase run_id ep expired regs
