-- ===== src/Sqlrows/Overflow.antt =====
-- sqlrows/delta.go: the overflow row of a server, which several targets share, is reported once.
use isutools.Prelude.{
  ◌||◌, ℕ, ◌+◌, Bool, true, false, ◌&&◌, List, [], ◌∷◌, ◌++◌, Option, none, some, ◌≡◌, ◌≢◌, refl,
  sym, ap, ◌∙◌, inl, inr, ltb, ◌==◌, Bool-cases, Option-cases, arith, is_some, if◌then◌else◌, subst,
}
use isutools.Agg.{Key, same_key}
use isutools.Agg.Lookup.{same_key_refl, same_key-eq}
use isutools.Sqlrows.{overflow_delta, DigestRow, TargetSample, get}
use isutools.Sqlrows.Section.{TextReader, Sample, target, evaluate_interval}
use isutools.Sqlrows.Building.{
  put_all, put_target, TargetSection, OverflowBy, overflow_stat, measured as measured_target,
  Building, put_refused, put_measured, empty_section, build_section, union_ids,
}
use isutools.Sqlrows.Verdict.{Holds}
use isutools.Sqlrows.Steps.{is_measurable, put_target-Put, Put, refused, measured}

abbrev pub uuid_or_empty : Option TargetSample → Key
uuid_or_empty none = []
uuid_or_empty (some f) = f.server_uuid

-- Whether the closing reading finds the target on the server.
abbrev pub is_on : Sample → Key → TargetSection → Bool
is_on final u t = same_key (uuid_or_empty (target final t.target_id)) u

abbrev pub one_for : Bool → ℕ
one_for b = if b then 1 else 0

abbrev pub how_many : (TargetSection → Bool) → List TargetSection → ℕ
how_many p [] = 0
how_many p (t ∷ ts) = one_for (p t) + how_many p ts

how_many-append :
    (p : TargetSection → Bool) (ts : List TargetSection) (t : TargetSection)
    → how_many p (ts ++ t ∷ []) ≡ how_many p ts + one_for (p t)
how_many-append p [] t = omega arith
how_many-append p (u ∷ ts) t = omega (arith, how_many-append p ts t)

how_many-skip :
    (p : TargetSection → Bool) (ts : List TargetSection) (t : TargetSection)
    → p t ≡ false
    → how_many p (ts ++ t ∷ []) ≡ how_many p ts
how_many-skip p ts t h = how_many-append p ts t ∙ rw h (omega arith)

and_false : (a b : Bool) → b ≡ false → (a && b) ≡ false
and_false true b h = h
and_false false b h = refl

-- The targets of a server that report its overflow row.
abbrev pub reports : Sample → Key → TargetSection → Bool
reports final u t = is_on final u t && (t.overflow).detected

-- Whether the readings of a target, taken on the server, give an interval in which statements fell
-- into the overflow row.
abbrev pub meets : TextReader → Key → Option TargetSample → Option TargetSample → Bool
meets c u (some b) (some f) =
    same_key f.server_uuid u
    && is_measurable c (some b) (some f)
    && ltb 0 (overflow_delta b f).count_star
meets c u _ _ = false

abbrev pub any_id : (Key → Bool) → List Key → Bool
any_id p [] = false
any_id p (id ∷ ids) = p id || any_id p ids

abbrev Owned : Sample → Key → Building → Type 0
Owned final u s = how_many (reports final u) s.targets ≡ one_for (is_some (get u s.overflow_by))

overflow_stat-other :
    (w u id : Key) (delta : DigestRow) (m : OverflowBy)
    → same_key w u ≡ false
    → get u (overflow_stat w id delta m).1 ≡ get u m
unfolding overflow_stat
overflow_stat-other w u id delta m h = elim (Bool-cases (delta.count_star == 0)) [
  | inl e ↦ rw e refl
  | inr e ↦ elim (Bool-cases (same_key w [])) [
    | inl k ↦ rw (e, k) refl
    | inr k ↦ elim (Option-cases (get w m)) [
      | inl g ↦ rw (e, k, g, h) refl
      | inr (o, g) ↦ rw (e, k, g) refl
    ]
  ]
]

or_false : (b : Bool) → (b || false) ≡ b
or_false true = refl
or_false false = refl

overflow_stat-own :
    (u id : Key) (delta : DigestRow) (m : OverflowBy) (a : ℕ)
    → same_key u [] ≡ false
    → a ≡ one_for (is_some (get u m))
    → let o = overflow_stat u id delta m in
      (a + one_for (o.0).detected ≡ one_for (is_some (get u o.1)))
      × (is_some (get u o.1) ≡ (is_some (get u m) || ltb 0 delta.count_star))
unfolding overflow_stat
overflow_stat-own u id delta m a h r = elim (Bool-cases (delta.count_star == 0)) [
  | inl e ↦
      let p : ltb 0 delta.count_star ≡ false = ground (arith, e) in
      rw (e, p) (omega (arith, r), sym (or_false (is_some (get u m))))
  | inr e ↦
      let p : ltb 0 delta.count_star ≡ true = ground (arith, e) in
      elim (Option-cases (get u m)) [
        | inl g ↦
            let z : a ≡ 0 = rw g at r in rw (e, h, g, same_key_refl u, p) (omega (arith, z), refl)
        | inr (o, g) ↦ rw (e, h, g) (omega (arith, r), ap is_some g)
      ]
]

named : (u : Key) → u ≢ [] → same_key u [] ≡ false
named [] n = absurd (n refl)
named (a ∷ u) n = refl

unmeasured : (a b d : Bool) → b ≡ false → (a && b && d) ≡ false
unmeasured true b d h = rw h refl
unmeasured false b d h = refl

unmet :
    (c : TextReader) (u : Key) (p o : Option TargetSample)
    → is_measurable c p o ≡ false
    → meets c u p o ≡ false
unmet c u (some b) (some f) h = unmeasured (same_key f.server_uuid u) _ _ h
unmet c u (some b) none h = refl
unmet c u none o h = refl

off_server : (a b d : Bool) → a ≡ false → (a && b && d) ≡ false
off_server a b d h = rw h refl

all_three : (a b d e : Bool) → a ≡ true → b ≡ true → d ≡ e → (a && b && d) ≡ e
all_three a b d e h k l = rw (h, k) l

or_assoc : (a b d : Bool) → ((a || b) || d) ≡ (a || (b || d))
or_assoc true b d = refl
or_assoc false b d = refl

-- The step of a target on the server: who reports, and whether somebody does.
abbrev OwnStep :
    (c : TextReader) (final : Sample) (u : Key) (p o : Option TargetSample) (s r : Building)
    → Type 0
OwnStep c final u p o s r =
    Owned final u r
    × (is_some (get u r.overflow_by) ≡ (is_some (get u s.overflow_by) || meets c u p o))

put_own :
    (c : TextReader) (final : Sample) (id : Key) (b f : TargetSample) (s r : Building)
    → same_key f.server_uuid [] ≡ false
    → target final id ≡ some f
    → is_measurable c (some b) (some f) ≡ true
    → Holds c b f
    → r ≡ put_measured id f (evaluate_interval c b f) s
    → Owned final f.server_uuid s
    → OwnStep c final f.server_uuid (some b) (some f) s r
unfolding put_measured
put_own c final id b f s r n g y k p h =
    let u = f.server_uuid in
    let e = evaluate_interval c b f in
    let o = overflow_stat u id e.overflow s.overflow_by in
    let t = measured_target id f e o.0 in
    let here : is_on final u t ≡ true = rw g (same_key_refl u) in
    let a = how_many-append (reports final u) s.targets t in
    let w = overflow_stat-own u id e.overflow s.overflow_by _ n h in
    let over = ap (λ x. ltb 0 x.count_star) k.same_overflow in
    rw p (
      a ∙ rw here w.0,
      w.1
          ∙ ap (λ v. is_some (get u s.overflow_by) || v)
              (over ∙ sym (all_three (same_key u u) _ _ _ (same_key_refl u) y refl)),
    )

put-OwnStep :
    (c : TextReader) (final : Sample) (u : Key)
    → u ≢ []
    → (id : Key) (p : Option TargetSample) (s r : Building) → Put c id p (target final id) s r
    → Owned final u s
    → OwnStep c final u p (target final id) s r
unfolding put_refused put_measured
put-OwnStep c final u n id p s r (refused t i x e) h =
    let a =
      how_many-skip (reports final u) s.targets t
        (and_false _ _ (ap (λ o. o.detected) i.none_over)) in
    rw e (a ∙ h, sym (ap (λ m. is_some (get u s.overflow_by) || m) (unmet c u p _ x) ∙ or_false _))
put-OwnStep c final u n id p s r (measured b f q g x k e) h =
    let o = overflow_stat f.server_uuid id (evaluate_interval c b f).overflow s.overflow_by in
    let t = measured_target id f (evaluate_interval c b f) o.0 in
    let x' : is_measurable c (some b) (some f) ≡ true = rw (q, g) at x in
    rw q (elim (Bool-cases (same_key f.server_uuid u)) [
      | inl y ↦
          let z : f.server_uuid ≡ u = same_key-eq _ _ y in
          subst (λ v. OwnStep c final v (some b) (target final id) s r) z
            (subst (λ v. OwnStep c final f.server_uuid (some b) v s r) (sym g)
              (put_own c final id b f s r (named f.server_uuid (λ v. n (sym z ∙ v))) g x' k e
                (subst (λ v. Owned final v s) (sym z) h)))
      | inr y ↦
          let here : is_on final u t ≡ false = rw g y in
          let a = how_many-skip (reports final u) s.targets t (rw here refl) in
          let m =
            overflow_stat-other f.server_uuid u id (evaluate_interval c b f).overflow s.overflow_by
              y in
          let far : meets c u (some b) (target final id) ≡ false =
            rw g (off_server (same_key f.server_uuid u) _ _ y) in
          rw e (
            a ∙ h ∙ ap (λ v. one_for (is_some v)) (sym m),
            ap is_some m ∙ sym (ap (λ v. is_some (get u s.overflow_by) || v) far ∙ or_false _),
          )
    ])

put_all-OwnStep :
    (c : TextReader) (base final : Sample) (u : Key)
    → u ≢ []
    → (ids : List Key) (s : Building) → Owned final u s
    → let r = put_all c base final ids s in
      Owned final u r
      × (is_some (get u r.overflow_by) ≡ (
          is_some (get u s.overflow_by)
          || any_id (λ id. meets c u (target base id) (target final id)) ids))
put_all-OwnStep c base final u n [] s h = (h, sym (or_false _))
put_all-OwnStep c base final u n (id ∷ ids) s h =
    let p = target base id in
    let o = target final id in
    let one = put-OwnStep c final u n id p s _ (put_target-Put c id p o s) h in
    let rest = put_all-OwnStep c base final u n ids (put_target c id p o s) one.0 in
    let later = any_id (λ i. meets c u (target base i) (target final i)) ids in
    (
      rest.0,
      rest.1
          ∙ ap (λ v. v || later) one.1
          ∙ or_assoc (is_some (get u s.overflow_by)) (meets c u p o) later,
    )

-- Of the targets of a section that lie on one named server, exactly one reports the overflow of the
-- server where the readings of some target there were captured at both boundaries, break no rule
-- and have statements in the overflow row in between; and none does where there is no such target.
pub build_section-reports :
    (c : TextReader) (base final : Sample) (u : Key)
    → u ≢ []
    → how_many (reports final u) (build_section c base final).targets
      ≡ one_for (any_id (λ id. meets c u (target base id) (target final id)) (union_ids base final))
unfolding build_section
build_section-reports c base final u n =
    let k = put_all-OwnStep c base final u n (union_ids base final) empty_section refl in
    k.0 ∙ ap one_for k.1
