-- ===== src/Runctl/Finish/Verdict.antt =====
-- What the background worker of a finish does to the run's verdict and records.
use isutools.Prelude.{
  ℕ, suc, ◌+◌, ◌≤◌, ◌<◌, ◌≡◌, refl, ◌⊎◌, inl, inr, Bool, true, false, String, List, [], ◌∷◌, ◌++◌,
  Option, none, some, length, arith, Bool-cases, Option-cases, if◌then◌else◌,
}
use isutools.Runctl.Types.{
  Validity, unset, valid, partial, invalid, validity_rank, worse, fail_validity, Kind, generation,
  baseline, Failure, is_panic, GenerationHandle, BaselineHandle, CollectorBoundary, Registration,
}
use isutools.Runctl.Phase.{RegisteredGeneration, RegisteredBaseline, safe_err}
use isutools.Runctl.Controller.{Controller}
use isutools.Runctl.Release.{generation_by_name, baseline_by_name}
use isutools.Runctl.Window.{contains}
use isutools.Runctl.Finish.{FinishWork}
use isutools.Runctl.Finish.Worker.{
  Progress, start_progress, fail_section, drain_late, drain_answer, drain_one, drain_all, collected,
  section_answer, collect_generation, collect_generations, collect_baseline, collect_baselines,
  final_by_name, gather_sections,
}

-- From one moment of the worker to a later one: nothing was recorded and the verdict is the same,
-- or failures were recorded and the verdict is not `valid`, and no better than before.
abbrev pub Degrades : Progress → Progress → Type 0
Degrades p q =
    ((q.boundaries ≡ p.boundaries) × (q.validity ≡ p.validity))
    ⊎ ((length p.boundaries < length q.boundaries)
        × (1 ≤ validity_rank q.validity)
        × (validity_rank p.validity ≤ validity_rank q.validity))

Degrades-refl : (p : Progress) → Degrades p p
Degrades-refl p = inl (refl, refl)

Degrades-trans : (p q r : Progress) → Degrades p q → Degrades q r → Degrades p r
Degrades-trans p q r h k = ground (arith, h, k)

length-snoc : {A : Type 0} (xs : List A) (x : A) → length (xs ++ x ∷ []) ≡ length xs + 1
length-snoc [] x = omega arith
length-snoc (y ∷ ys) x = omega (arith, length-snoc ys x)

rank-worse :
    (a b : Validity)
    → (validity_rank a ≤ validity_rank (worse a b)) × (validity_rank b ≤ validity_rank (worse a b))
rank-worse unset b = ground arith
rank-worse valid b = ground arith
rank-worse partial b = ground arith
rank-worse invalid b = ground arith

records_one :
    (p q : Progress) (b : CollectorBoundary) (v : Validity)
    → 1 ≤ validity_rank v
    → q.boundaries ≡ p.boundaries ++ b ∷ []
    → q.validity ≡ worse p.validity v
    → Degrades p q
records_one p q b v h k l = inr (
  rw k (omega (arith, length-snoc p.boundaries b)),
  rw l (omega (arith, rank-worse p.validity v)),
  rw l (omega (arith, rank-worse p.validity v)),
)

fail_rank : (b : Bool) → 1 ≤ validity_rank (fail_validity b)
fail_rank true = omega arith
fail_rank false = omega arith

fail_section-Degrades :
    (run_id : String) (reg : Registration) (kind : Kind) (e : Failure) (p : Progress)
    → Degrades p (fail_section run_id reg kind e p)
fail_section-Degrades run_id reg kind e p =
    records_one p (fail_section run_id reg kind e p) _ (fail_validity reg.required)
      (fail_rank reg.required) refl refl

Degrades-if :
    (b : Bool) (p q r : Progress) → Degrades p q → Degrades p r → Degrades p (if b then q else r)
Degrades-if true p q r h k = h
Degrades-if false p q r h k = k

drain_answer-Degrades :
    (run_id : String) (reg : Registration) (o : Option Failure) (p : Progress)
    → Degrades p (drain_answer run_id reg o p)
drain_answer-Degrades run_id reg none p = Degrades-refl p
drain_answer-Degrades run_id reg (some e) p =
    Degrades-if (is_panic e) p _ _ (fail_section-Degrades run_id reg generation e p)
      (records_one p (drain_late reg e p) _ partial (omega arith) refl refl)

drain_one-Degrades :
    (gens : List RegisteredGeneration) (run_id : String) (h : GenerationHandle) (p : Progress)
    → Degrades p (drain_one gens run_id h p)
unfolding drain_one
drain_one-Degrades gens run_id h p = elim (Option-cases (generation_by_name gens h.collector)) [
  | inl e ↦ rw (e, drain_one) (Degrades-refl p)
  | inr (rc, e) ↦ rw (e, drain_one) (drain_answer-Degrades run_id rc.reg (safe_err (rc.drain h)) p)
]

drain_all-Degrades :
    (gens : List RegisteredGeneration) (run_id : String) (hs : List GenerationHandle) (p : Progress)
    → Degrades p (drain_all gens run_id hs p)
unfolding drain_all
drain_all-Degrades gens run_id [] p = Degrades-refl p
drain_all-Degrades gens run_id (h ∷ hs) p =
    let q = drain_one gens run_id h p in
    Degrades-trans p q (drain_all gens run_id hs q) (drain_one-Degrades gens run_id h p)
      (drain_all-Degrades gens run_id hs q)

section_answer-Degrades :
    (run_id : String) (reg : Registration) (kind : Kind) (name : String) (a : ℕ × Option Failure)
    (p : Progress)
    → Degrades p (section_answer run_id reg kind name a p)
section_answer-Degrades run_id reg kind name (v, none) p = inl (refl, refl)
section_answer-Degrades run_id reg kind name (v, some e) p =
    fail_section-Degrades run_id reg kind e p

collect_generation-Degrades :
    (gens : List RegisteredGeneration) (run_id : String) (exhausted : Option Failure)
    (h : GenerationHandle) (p : Progress)
    → Degrades p (collect_generation gens run_id exhausted h p)
unfolding collect_generation
collect_generation-Degrades gens run_id exhausted h p =
    elim (Option-cases (generation_by_name gens h.collector)) [
      | inl e ↦ rw (e, collect_generation) (Degrades-refl p)
      | inr (rc, e) ↦ elim (Bool-cases (contains h.collector p.dropped)) [
        | inl k ↦ rw (e, collect_generation, k) (Degrades-refl p)
        | inr k ↦
            rw (e, collect_generation, k)
              (section_answer-Degrades run_id rc.reg generation h.collector
                (collected exhausted (rc.collect h)) p)
      ]
    ]

collect_generations-Degrades :
    (gens : List RegisteredGeneration) (run_id : String) (exhausted : ℕ → Option Failure)
    (hs : List GenerationHandle) (p : Progress)
    → Degrades p (collect_generations gens run_id exhausted hs p)
unfolding collect_generations
collect_generations-Degrades gens run_id exhausted [] p = Degrades-refl p
collect_generations-Degrades gens run_id exhausted (h ∷ hs) p =
    let q = collect_generation gens run_id (exhausted 0) h p in
    Degrades-trans p q (collect_generations gens run_id (λ i. exhausted (suc i)) hs q)
      (collect_generation-Degrades gens run_id (exhausted 0) h p)
      (collect_generations-Degrades gens run_id (λ i. exhausted (suc i)) hs q)

collect_baseline-Degrades :
    (bases : List RegisteredBaseline) (finals : List BaselineHandle) (run_id : String)
    (exhausted : Option Failure) (h : BaselineHandle) (p : Progress)
    → Degrades p (collect_baseline bases finals run_id exhausted h p)
unfolding collect_baseline
collect_baseline-Degrades bases finals run_id exhausted h p =
    elim (Option-cases (baseline_by_name bases h.collector)) [
      | inl e ↦ rw (e, collect_baseline) (Degrades-refl p)
      | inr (rc, e) ↦ elim (Bool-cases (contains h.collector p.dropped)) [
        | inl k ↦ rw (e, collect_baseline, k) (Degrades-refl p)
        | inr k ↦ elim (Option-cases (final_by_name finals h.collector)) [
          | inl f ↦ rw (e, collect_baseline, k, f) (Degrades-refl p)
          | inr (final, f) ↦
              rw (e, collect_baseline, k, f)
                (section_answer-Degrades run_id rc.reg baseline h.collector
                  (collected exhausted (rc.collect h final)) p)
        ]
      ]
    ]

collect_baselines-Degrades :
    (bases : List RegisteredBaseline) (finals : List BaselineHandle) (run_id : String)
    (exhausted : ℕ → Option Failure) (hs : List BaselineHandle) (p : Progress)
    → Degrades p (collect_baselines bases finals run_id exhausted hs p)
unfolding collect_baselines
collect_baselines-Degrades bases finals run_id exhausted [] p = Degrades-refl p
collect_baselines-Degrades bases finals run_id exhausted (h ∷ hs) p =
    let q = collect_baseline bases finals run_id (exhausted 0) h p in
    Degrades-trans p q (collect_baselines bases finals run_id (λ i. exhausted (suc i)) hs q)
      (collect_baseline-Degrades bases finals run_id (exhausted 0) h p)
      (collect_baselines-Degrades bases finals run_id (λ i. exhausted (suc i)) hs q)

-- Over draining and collecting, whatever the collectors answer and whenever a budget runs out, the
-- worker either records nothing and leaves the verdict as it was, or records a failure and ends
-- with a verdict that is neither valid nor better than before.
pub gather_sections-Degrades :
    (c : Controller) (w : FinishWork) (gen_exhausted base_exhausted : ℕ → Option Failure)
    → Degrades (start_progress w) (gather_sections c w gen_exhausted base_exhausted)
unfolding gather_sections
gather_sections-Degrades c w gen_exhausted base_exhausted =
    let p = start_progress w in
    let q = drain_all c.gens w.run_id w.gen_final p in
    let r = collect_generations c.gens w.run_id gen_exhausted w.gen_final q in
    let t = collect_baselines c.bases w.base_final w.run_id base_exhausted w.base_start r in
    Degrades-trans p q t (drain_all-Degrades c.gens w.run_id w.gen_final p) (
      Degrades-trans q r t
        (collect_generations-Degrades c.gens w.run_id gen_exhausted w.gen_final q)
        (collect_baselines-Degrades c.bases w.base_final w.run_id base_exhausted w.base_start r))
