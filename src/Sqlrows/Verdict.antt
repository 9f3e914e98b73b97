-- ===== src/Sqlrows/Verdict.antt =====
-- sqlrows/delta.go: what evaluateInterval has established when it gives no code.
use isutools.Prelude.{
  true, false, ◌&&◌, List, [], ◌∷◌, map, length, ◌≡◌, refl, inl, inr, Bool-cases, All, is_some,
}
use isutools.Prelude.Int.{ltb_ℤ}
use isutools.Agg.{Key, same_key}
use isutools.Agg.Lookup.{same_key-eq}
use isutools.Sqlrows.{
  overflow_delta, DigestRow, TargetSample, no_code, db_restart, counter_reset, new_db_clock, get,
  lost_digest, rewound_digest, overflow_rewound, interval_digests, active_digests, take,
  digest_text_fetch_limit,
}
use isutools.Sqlrows.Section.{
  TextReader, DigestStat, digest_stat, is_other_server, evaluate_interval,
}
use isutools.Sqlrows.Interval.{
  Fits, IsNamed, AddsUp, lost_digest-start, rewound_digest-start, interval_digests-AddsUp,
  All-active_digests, All-take,
}

abbrev pub published : TextReader → TargetSample → TargetSample → List DigestStat
published c b f =
    map (digest_stat c f.texts)
      (take digest_text_fetch_limit (active_digests (interval_digests b.digests f.digests)))

-- No rule of the interval is broken.
pub record Holds (c : TextReader) (b f : TargetSample) : Type 0 where
  pub none_lost : lost_digest [] b.digests f.digests ≡ []
  pub none_rewound : rewound_digest [] b.digests f.digests ≡ []
  pub overflow_advanced : overflow_rewound b f ≡ false
  pub same_clock : (evaluate_interval c b f).clock ≡ new_db_clock b f
  pub same_overflow : (evaluate_interval c b f).overflow ≡ overflow_delta b f
  pub are_published : (evaluate_interval c b f).stats ≡ published c b f
  pub is_total :
      (evaluate_interval c b f).total
      ≡ length (active_digests (interval_digests b.digests f.digests))

no_restart : {A : Type 0} → db_restart ≡ no_code → A
no_restart h = absurd (cc (h))

no_reset : {A : Type 0} → counter_reset ≡ no_code → A
no_reset h = absurd (cc (h))

pub no_code-Holds :
    (c : TextReader) (b f : TargetSample) → (evaluate_interval c b f).code ≡ no_code → Holds c b f
unfolding evaluate_interval
no_code-Holds c b f h = elim (Bool-cases (is_other_server b f)) [
  | inl e ↦ no_restart (rw e at h)
  | inr e ↦ elim (Bool-cases (ltb_ℤ f.uptime_sec b.uptime_sec && (new_db_clock b f).monotonic)) [
    | inl u ↦ no_restart (rw (e, u) at h)
    | inr u ↦ elim (Bool-cases (same_key (lost_digest [] b.digests f.digests) [])) [
      | inr l ↦ no_reset (rw (e, u, l) at h)
      | inl l ↦ elim (Bool-cases (same_key (rewound_digest [] b.digests f.digests) [])) [
        | inr r ↦ no_reset (rw (e, u, l, r) at h)
        | inl r ↦ elim (Bool-cases (overflow_rewound b f)) [
          | inl o ↦ no_reset (rw (e, u, l, r, o) at h)
          | inr o ↦ record {
            none_lost = same_key-eq _ _ l;
            none_rewound = same_key-eq _ _ r;
            overflow_advanced = o;
            same_clock = rw (e, u, l, r, o) refl;
            same_overflow = rw (e, u, l, r, o) refl;
            are_published = rw (e, u, l, r, o) refl;
            is_total = rw (e, u, l, r, o) refl;
          }
        ]
      ]
    ]
  ]
]

All-stats :
    (P : Key × DigestRow → Type 0) (c : TextReader) (texts : List (Key × Key))
    (xs : List (Key × DigestRow))
    → All P xs
    → All (λ t. P (t.digest, t.row)) (map (digest_stat c texts) xs)
All-stats P c texts [] h = tt
All-stats P c texts ((d, r) ∷ xs) h = (h.0, All-stats P c texts xs h.1)

-- Where a target's interval is accepted, every statement of the opening reading is still there, and
-- every row that is shown is the difference of the two readings with no wrap around: added to the
-- opening row, or to zeros for a new statement, it gives a row of the closing reading, in each of
-- the nine counters. The condition is that no digest is empty and that counters are uint64.
pub evaluate_interval-AddsUp :
    (c : TextReader) (b f : TargetSample)
    → All IsNamed b.digests
    → All IsNamed f.digests
    → All (λ p. Fits p.1) f.digests
    → (evaluate_interval c b f).code ≡ no_code
    → All (λ p. is_some (get p.0 f.digests) ≡ true) b.digests
      × All (λ t. AddsUp b.digests f.digests (t.digest, t.row)) (evaluate_interval c b f).stats
evaluate_interval-AddsUp c b f nb nf fit h =
    let k = no_code-Holds c b f h in
    let lost = lost_digest-start [] b.digests f.digests nb k.none_lost in
    let kept = rewound_digest-start [] b.digests f.digests nf k.none_rewound in
    let sums = interval_digests-AddsUp b.digests f.digests fit kept.1 in
    let P = AddsUp b.digests f.digests in
    (
      lost.1,
      rw k.are_published (
          All-stats P c f.texts _
            (All-take P digest_text_fetch_limit _ (All-active_digests P _ sums))),
    )
