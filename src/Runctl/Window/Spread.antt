-- ===== src/Runctl/Window/Spread.antt =====
-- judgeSpread and applySpread: which windows invalidate a run, and which records are marked.
use isutools.Prelude.{
  ℕ, ◌≤◌, ◌<◌, ◌≡◌, ◌≢◌, ◌↔◌, refl, ◌⊎◌, inl, inr, true, List, [], ◌∷◌, ◌++◌, String, none, some,
  arith, Any, Any-map, Bool-cases, ap, leb, All₂, All₂-map,
}
use isutools.Runctl.Types.{
  CollectorBoundary, sub_time, Validity, unset, valid, partial, invalid, success, spread_exceeded,
  worse,
}
use isutools.Runctl.Window.{
  Keep, counted, compute_window, keep_generation, required_only, late, judge_spread, mark, dedup,
  apply_spread, is_empty,
}
use isutools.Runctl.Window.Bounds.{spread_mono, window_attained, AtMax}

abbrev pub all_spread : List CollectorBoundary → Keep → ℕ
all_spread bs keep = (compute_window bs keep).spread

-- The width of the window of the required collectors alone.
abbrev pub required_spread : List CollectorBoundary → Keep → ℕ
required_spread bs keep = (compute_window bs (some (required_only keep))).spread

required-le-all :
    (bs : List CollectorBoundary) (keep : Keep) → required_spread bs keep ≤ all_spread bs keep
required-le-all bs keep = spread_mono bs (some (required_only keep)) keep (λ b h. ground arith)

late-ne-nil :
    (keep : Keep) (start limit : ℕ) (bs : List CollectorBoundary)
    → Any (λ b. (counted keep b ≡ true) × (limit < sub_time b.at start)) bs
    → late keep start limit bs ≢ []
unfolding late
late-ne-nil keep start limit [] h e = elim h [ ]
late-ne-nil keep start limit (b ∷ bs) (inl h) e = ground arith
late-ne-nil keep start limit (b ∷ bs) (inr h) e = ground (arith, late-ne-nil keep start limit bs h)

-- A window within its limit is valid and has no offender; one past it has an offender, and is
-- invalid exactly if the required collectors alone are past it, else partial.
pub judge_spread_cases :
    (bs : List CollectorBoundary) (keep : Keep) (limit : ℕ)
    → let v = judge_spread bs keep limit in
      ((v.validity ≡ valid) ↔ (all_spread bs keep ≤ limit))
      × ((v.validity ≡ invalid) ↔ (limit < required_spread bs keep))
      × ((v.offenders ≡ []) ↔ (all_spread bs keep ≤ limit))
unfolding judge_spread
judge_spread_cases bs keep limit =
    let mono = required-le-all bs keep in
    elim (Bool-cases (leb (all_spread bs keep) limit)) [
      | inl e ↦ ground arith
      | inr e ↦ elim (window_attained bs keep) [
        | inl (_, z) ↦ absurd (ground (arith, ap (λ w. w.spread) z))
        | inr (_, hi, f) ↦
            let past =
              late-ne-nil keep (compute_window bs keep).min_at limit bs
                (Any-map (AtMax keep bs) _ (λ b h. (h.0, ground (arith, f, h.1))) bs hi) in
            ground (arith, past)
      ]
    ]

-- A boundary is left as it was, or had no code and is now marked as outside the window.
abbrev pub SpreadMark : CollectorBoundary → CollectorBoundary → Type 0
SpreadMark b b' = (b' ≡ b) ⊎ ((b.code ≡ success) × (b' ≡ record b { code = spread_exceeded }))

mark-SpreadMark : (names : List String) (b : CollectorBoundary) → SpreadMark b (mark names b)
mark-SpreadMark names b = ground arith

All₂-SpreadMark_refl : (bs : List CollectorBoundary) → All₂ SpreadMark bs bs
All₂-SpreadMark_refl [] = tt
All₂-SpreadMark_refl (b ∷ bs) = (inl refl, All₂-SpreadMark_refl bs)

nil_of_append : (xs ys : List String) → is_empty (xs ++ ys) ≡ true → (xs ≡ []) × (ys ≡ [])
nil_of_append [] [] h = (refl, refl)
nil_of_append [] (y ∷ ys) h = absurd (cc)
nil_of_append (x ∷ xs) ys h = absurd (cc)

append_of_nil : (xs ys : List String) → xs ≡ [] → ys ≡ [] → is_empty (xs ++ ys) ≡ true
append_of_nil [] [] h k = refl
append_of_nil [] (y ∷ ys) h k = absurd (cc)
append_of_nil (x ∷ xs) ys h k = absurd (cc)

judge_spread-ne-unset :
    (bs : List CollectorBoundary) (keep : Keep) (limit : ℕ)
    → (judge_spread bs keep limit).validity ≢ unset
unfolding judge_spread
judge_spread-ne-unset bs keep limit h = ground arith

-- `worse` on verdicts that are set.
worse_cases :
    (a b : Validity)
    → a ≢ unset
    → b ≢ unset
    → ((worse a b ≡ valid) ↔ ((a ≡ valid) × (b ≡ valid)))
      × ((worse a b ≡ invalid) ↔ ((a ≡ invalid) ⊎ (b ≡ invalid)))
worse_cases unset b h k = absurd (h refl)
worse_cases valid b h k = ground arith
worse_cases partial b h k = ground arith
worse_cases invalid b h k = ground arith

apply_spread-worse :
    (gl bl : ℕ) (run_id : String) (bs : List CollectorBoundary)
    → (apply_spread gl bl run_id bs).validity
      ≡ worse
          (judge_spread bs (some keep_generation) gl).validity
          (judge_spread bs none bl).validity
unfolding apply_spread
apply_spread-worse gl bl run_id bs = ground arith

-- Taking both windows together: the run stays valid exactly if both are within their limits, and
-- becomes invalid exactly if the required collectors alone exceed one of them.
pub apply_spread_validity :
    (gl bl : ℕ) (run_id : String) (bs : List CollectorBoundary)
    → let r = apply_spread gl bl run_id bs in
      ((r.validity ≡ valid)
        ↔ ((all_spread bs (some keep_generation) ≤ gl) × (all_spread bs none ≤ bl)))
      × ((r.validity ≡ invalid)
          ↔ ((gl < required_spread bs (some keep_generation)) ⊎ (bl < required_spread bs none)))
apply_spread_validity gl bl run_id bs =
    let g = judge_spread_cases bs (some keep_generation) gl in
    let a = judge_spread_cases bs none bl in
    let w =
      worse_cases _ _ (judge_spread-ne-unset bs (some keep_generation) gl)
        (judge_spread-ne-unset bs none bl) in
    rw (apply_spread-worse gl bl run_id bs) (ground (arith, g.0, g.1, a.0, a.1, w.0, w.1))

-- A boundary already coded keeps its code, no other field changes, and health hears of it exactly
-- if the verdict is not `valid`.
pub apply_spread_marks :
    (gl bl : ℕ) (run_id : String) (bs : List CollectorBoundary)
    → let r = apply_spread gl bl run_id bs in
      All₂ SpreadMark bs r.boundaries × ((r.health ≡ []) ↔ (r.validity ≡ valid))
unfolding apply_spread
apply_spread_marks gl bl run_id bs =
    let gen = judge_spread bs (some keep_generation) gl in
    let all = judge_spread bs none bl in
    let g = judge_spread_cases bs (some keep_generation) gl in
    let a = judge_spread_cases bs none bl in
    let w =
      worse_cases gen.validity all.validity (judge_spread-ne-unset bs (some keep_generation) gl)
        (judge_spread-ne-unset bs none bl) in
    elim (Bool-cases (is_empty (gen.offenders ++ all.offenders))) [
      | inl e ↦ rw e (
        All₂-SpreadMark_refl bs,
        ground (arith, g, a, w, nil_of_append gen.offenders all.offenders e),
      )
      | inr e ↦ rw e (
        All₂-map SpreadMark (mark (dedup [] (gen.offenders ++ all.offenders))) (mark-SpreadMark _)
            bs,
        ground (arith, g, a, w, append_of_nil gen.offenders all.offenders),
      )
    ]
