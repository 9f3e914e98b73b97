-- ===== src/Sqlrows/Outcome.antt =====
-- sqlrows/delta.go: the verdict of a section, and how much of each target it shows.
use isutools.Prelude.{
  ℕ, ◌+◌, ◌≤◌, min, Bool, true, false, ◌&&◌, List, [], ◌∷◌, map, Option, none, some, length, ◌≡◌,
  refl, sym, ap, ◌∙◌, inl, inr, Bool-cases, arith, All, All-append, if◌then◌else◌, zero, suc, subst,
}
use isutools.Agg.{Key}
use isutools.Runctl.Types.{valid, partial}
use isutools.Sqlrows.{
  new_db_clock, TargetSample, take, digest_text_fetch_limit, active_digests, interval_digests,
}
use isutools.Sqlrows.Section.{TextReader, Sample, target, evaluate_interval, digest_stat}
use isutools.Sqlrows.Building.{
  put_all, TargetSection, Building, put_refused, put_measured, empty_section, build_section,
  union_ids,
}
use isutools.Sqlrows.Steps.{is_measurable, put_target-Put, Put, refused, measured, put_all_keeps}

-- Whether the two readings of a target give an interval, and the database's clock went forward.
abbrev pub is_sound : TextReader → Option TargetSample → Option TargetSample → Bool
is_sound c (some b) (some f) = is_measurable c (some b) (some f) && (new_db_clock b f).monotonic
is_sound c _ _ = false

abbrev pub all_ids : (Key → Bool) → List Key → Bool
all_ids p [] = true
all_ids p (id ∷ ids) = p id && all_ids p ids

if_same : {A : Type 0} (b : Bool) (a : A) → (if b then a else a) ≡ a
if_same true a = refl
if_same false a = refl

put-validity :
    (c : TextReader) (p o : Option TargetSample) (id : Key) (s r : Building)
    → Put c id p o s r
    → r.validity ≡ (if is_sound c p o then s.validity else partial)
unfolding put_refused put_measured
put-validity c (some b) (some f) id s r (refused t i h e) = rw (e, h) refl
put-validity c (some b) none id s r (refused t i h e) = rw e refl
put-validity c none o id s r (refused t i h e) = rw e refl
put-validity c p o id s r (measured b f x g h k e) =
    rw (e, x, g, (rw (x, g) at h), k.same_clock) refl

put_all-validity :
    (c : TextReader) (base final : Sample) (ids : List Key) (s : Building)
    → (put_all c base final ids s).validity ≡ (
        if all_ids (λ id. is_sound c (target base id) (target final id)) ids
        then s.validity
        else partial)
put_all-validity c base final [] s = refl
put_all-validity c base final (id ∷ ids) s =
    let p = target base id in
    let o = target final id in
    let step = put-validity c p o id s _ (put_target-Put c id p o s) in
    put_all-validity c base final ids _
    ∙ rw step (elim (Bool-cases (is_sound c p o)) [
      | inl e ↦ rw e refl
      | inr e ↦ rw e (if_same (all_ids _ ids) partial)
    ])

-- A section is valid exactly where every target that either reading has was captured at both
-- boundaries, its interval breaks no rule, and the database's clock went forward; where one was
-- not, the section is partial, and never invalid.
pub build_section-valid :
    (c : TextReader) (base final : Sample)
    → (build_section c base final).validity ≡ (
        if all_ids (λ id. is_sound c (target base id) (target final id)) (union_ids base final)
        then valid
        else partial)
unfolding build_section
build_section-valid c base final =
    put_all-validity c base final (union_ids base final) empty_section

-- What is shown of a target and what is left out make up the total, and the limit holds.
pub record Counted (t : TargetSection) : Type 0 where
  pub shown_rows : t.shown ≡ length t.digests
  pub within_limit : t.shown ≤ digest_text_fetch_limit
  pub all_counted : t.shown + t.dropped ≡ t.total

length-map {ℓ κ} :
    {A : Type ℓ} {B : Type κ} (f : A → B) (xs : List A) → length (map f xs) ≡ length xs
length-map f [] = refl
length-map f (x ∷ xs) = ap suc (length-map f xs)

length-take {ℓ} : {A : Type ℓ} (n : ℕ) (xs : List A) → length (take n xs) ≡ min n (length xs)
length-take zero xs = omega arith
length-take (suc n) [] = omega arith
length-take (suc n) (x ∷ xs) = omega (arith, length-take n xs)

put-Counted :
    (c : TextReader) (p o : Option TargetSample) (id : Key) (s r : Building)
    → Put c id p o s r
    → All Counted s.targets
    → All Counted r.targets
unfolding put_refused put_measured
put-Counted c p o id s r (refused t b x e) h = rw e (
    All-append Counted s.targets (t ∷ []) h (
      record {
        shown_rows = b.none_shown ∙ ap length (sym b.no_rows);
        within_limit = subst (λ n. n ≤ digest_text_fetch_limit) (sym b.none_shown) (omega arith);
        all_counted = omega (arith, b.none_shown, b.none_dropped, b.none_total);
      },
      tt,
    ))
put-Counted c p o id s r (measured b f y g x k e) h =
    let n = length (active_digests (interval_digests b.digests f.digests)) in
    let l : length (evaluate_interval c b f).stats ≡ min digest_text_fetch_limit n =
      ap length k.are_published
      ∙ length-map (digest_stat c f.texts) _
      ∙ length-take digest_text_fetch_limit _ in
    rw e (
      All-append Counted s.targets _ h (
        record {
          shown_rows = refl;
          within_limit = omega (arith, l);
          all_counted = omega (arith, l, k.is_total);
        },
        tt,
      ))

-- In every target of a section, as many rows are shown as its count says, at most 200, and those
-- shown and those dropped are together the digests that ran.
pub build_section-Counted :
    (c : TextReader) (base final : Sample) → All Counted (build_section c base final).targets
unfolding build_section
build_section-Counted c base final =
    put_all_keeps (λ s. All Counted s.targets) c base final
      (λ id. put-Counted c (target base id) (target final id) id) (union_ids base final)
      empty_section tt
