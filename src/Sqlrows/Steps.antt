-- ===== src/Sqlrows/Steps.antt =====
-- sqlrows/delta.go: what one step of the loop puts in the section.
use isutools.Prelude.{
  Bool, true, false, not, ◌||◌, ◌&&◌, List, [], ◌∷◌, Option, none, some, ◌≡◌, refl, inl, inr,
  Bool-cases,
}
use isutools.Agg.{Key}
use isutools.Sqlrows.{DbClock, TargetSample, Code, no_code, is_no_code}
use isutools.Sqlrows.Section.{Reason, TextReader, Sample, target, evaluate_interval}
use isutools.Sqlrows.Verdict.{Holds, no_code-Holds}
use isutools.Sqlrows.Building.{
  TargetSection, no_overflow, blank_target, dropped_target, Building, put_refused, put_measured,
  put_pair, put_target, put_all,
}

-- What every target without numbers has.
pub record IsBlank (id : Key) (t : TargetSection) : Type 0 where
  pub same_id : t.target_id ≡ id
  pub not_usable : t.usable ≡ false
  pub no_rows : t.digests ≡ []
  pub none_shown : t.shown ≡ 0
  pub none_total : t.total ≡ 0
  pub none_dropped : t.dropped ≡ 0
  pub none_over : t.overflow ≡ no_overflow

blank_target-IsBlank :
    (id name : Key) (clock : DbClock) (c : Code) (r : Reason)
    → IsBlank id (blank_target id name clock c r)
blank_target-IsBlank id name clock c r = record {
  same_id = refl;
  not_usable = refl;
  no_rows = refl;
  none_shown = refl;
  none_total = refl;
  none_dropped = refl;
  none_over = refl;
}

dropped_target-IsBlank : (id : Key) (b f : Option TargetSample) → IsBlank id (dropped_target id b f)
unfolding dropped_target
dropped_target-IsBlank id (some b) (some f) = blank_target-IsBlank id _ _ _ _
dropped_target-IsBlank id (some b) none = blank_target-IsBlank id _ _ _ _
dropped_target-IsBlank id none (some f) = blank_target-IsBlank id _ _ _ _
dropped_target-IsBlank id none none = blank_target-IsBlank id _ _ _ _

-- Whether the two readings of a target give an interval: both are there and were captured, and no
-- rule of the interval is broken.
abbrev pub is_measurable : TextReader → Option TargetSample → Option TargetSample → Bool
is_measurable c (some b) (some f) =
    b.captured && f.captured && is_no_code (evaluate_interval c b f).code
is_measurable c _ _ = false

-- A target is refused, or it is measured over an interval that was accepted, by what its readings are.
pub data Put (c : TextReader) (id : Key) (p o : Option TargetSample) (s r : Building) : Type 0 where
  refused :
      (t : TargetSection)
      → IsBlank id t
      → is_measurable c p o ≡ false
      → r ≡ put_refused id t s
      → Put c id p o s r
  measured :
      (b f : TargetSample)
      → p ≡ some b
      → o ≡ some f
      → is_measurable c p o ≡ true
      → Holds c b f
      → r ≡ put_measured id f (evaluate_interval c b f) s
      → Put c id p o s r

is_no_code_eq : (k : Code) → is_no_code k ≡ true → k ≡ no_code
is_no_code_eq no_code h = refl
is_no_code_eq _ h = absurd (cc (h))

accepts : (a b d : Bool) → (not a || not b) ≡ false → d ≡ true → (a && b && d) ≡ true
accepts true true d h e = e
accepts true false d h e = absurd (cc (h))
accepts false b d h e = absurd (cc (h))

rejects : (a b d : Bool) → (not a || not b) ≡ false → d ≡ false → (a && b && d) ≡ false
rejects true true d h e = e
rejects true false d h e = refl
rejects false b d h e = refl

uncaptured : (a b d : Bool) → (not a || not b) ≡ true → (a && b && d) ≡ false
uncaptured true true d h = absurd (cc (h))
uncaptured true false d h = refl
uncaptured false b d h = refl

put_pair-Put :
    (c : TextReader) (id : Key) (b f : TargetSample) (s : Building)
    → (not b.captured || not f.captured) ≡ false
    → Put c id (some b) (some f) s (put_pair c id b f s)
put_pair-Put c id b f s h = elim (Bool-cases (is_no_code (evaluate_interval c b f).code)) [
  | inl e ↦ rw e (
      measured b f refl refl (accepts b.captured f.captured _ h e)
        (no_code-Holds c b f (is_no_code_eq _ e)) refl)
  | inr e ↦
      rw e (refused _ (blank_target-IsBlank id _ _ _ _) (rejects b.captured f.captured _ h e) refl)
]

pub put_target-Put :
    (c : TextReader) (id : Key) (b f : Option TargetSample) (s : Building)
    → Put c id b f s (put_target c id b f s)
put_target-Put c id (some b) (some f) s = elim (Bool-cases (not b.captured || not f.captured)) [
  | inl e ↦ rw e (
      refused _ (dropped_target-IsBlank id (some b) (some f)) (uncaptured b.captured f.captured _ e)
        refl)
  | inr e ↦ rw e (put_pair-Put c id b f s e)
]
put_target-Put c id (some b) none s = refused _ (dropped_target-IsBlank id (some b) none) refl refl
put_target-Put c id none (some f) s = refused _ (dropped_target-IsBlank id none (some f)) refl refl
put_target-Put c id none none s = refused _ (dropped_target-IsBlank id none none) refl refl

-- What every step keeps holds of the whole loop.
pub put_all_keeps {ℓ} :
    (P : Building → Type ℓ) (c : TextReader) (base final : Sample)
    → ((id : Key) (s r : Building) → Put c id (target base id) (target final id) s r → P s → P r)
    → (ids : List Key) (s : Building) → P s
    → P (put_all c base final ids s)
put_all_keeps P c base final step [] s p = p
put_all_keeps P c base final step (id ∷ ids) s p =
    put_all_keeps P c base final step ids _
      (step id s _ (put_target-Put c id (target base id) (target final id) s) p)
