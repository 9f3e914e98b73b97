-- ===== src/Sqlrows/Examples.antt =====
-- Two readings of a database, on one server with two schemas, between which statements ran.
use isutools.Prelude.{
  ◌≡◌, refl, true, false, ◌||◌, [], ◌∷◌, some, arith, All, is_some, if◌then◌else◌,
}
use isutools.Prelude.Int.{pos}
use isutools.Agg.{Key}
use isutools.Runctl.Types.{valid, partial}
use isutools.Sqlrows.{DigestRow, zero_row, lost_digest, rewound_digest, TargetSample, no_code, get}
use isutools.Sqlrows.Section.{target, TextReader, kind_select, Sample, evaluate_interval}
use isutools.Sqlrows.Building.{union_ids, build_section}
use isutools.Sqlrows.Interval.{Fits, AddsUp}
use isutools.Sqlrows.Verdict.{evaluate_interval-AddsUp}
use isutools.Sqlrows.Outcome.{all_ids, is_sound, build_section-valid}
use isutools.Sqlrows.Overflow.{how_many, reports, one_for, any_id, meets, build_section-reports}
use isutools.Sqlrows.Targets.{ids_of, has_id, Ascending, build_section-ids}

abbrev reader : TextReader
reader = record { is_blank = λ t. false; classify = λ t. kind_select }

abbrev early : DigestRow
early = record zero_row { count_star = 3; timer_wait = 900; rows_sent = 2 }

abbrev late : DigestRow
late = record early { count_star = 5; timer_wait = 2900; rows_sent = 6 }

abbrev opening : TargetSample
opening = record {
  schema = 97 ∷ [];
  server_uuid = 117 ∷ [];
  uptime_sec = pos 10;
  utc_before = 100;
  utc_after = 101;
  digests = (49 ∷ [], early) ∷ [];
  overflow = zero_row;
  has_overflow = true;
  texts = [];
  captured = true;
  code = no_code;
  err = [];
}

abbrev closing : TargetSample
closing = record opening {
  uptime_sec = pos 70;
  utc_before = 160;
  utc_after = 161;
  digests = (50 ∷ [], early) ∷ (49 ∷ [], late) ∷ [];
  overflow = early;
}

early-Fits : Fits early
early-Fits = record {
  count_fits = omega arith;
  timer_fits = omega arith;
  examined_fits = omega arith;
  sent_fits = omega arith;
  affected_fits = omega arith;
  tables_fit = omega arith;
  merges_fit = omega arith;
  no_index_fits = omega arith;
  no_good_index_fits = omega arith;
}

late-Fits : Fits late
late-Fits = record {
  count_fits = omega arith;
  timer_fits = omega arith;
  examined_fits = omega arith;
  sent_fits = omega arith;
  affected_fits = omega arith;
  tables_fit = omega arith;
  merges_fit = omega arith;
  no_index_fits = omega arith;
  no_good_index_fits = omega arith;
}

is_accepted : (evaluate_interval reader opening closing).code ≡ no_code
unfolding evaluate_interval lost_digest rewound_digest
is_accepted = refl

evaluate_interval-AddsUp_example :
    All (λ p. is_some (get p.0 closing.digests) ≡ true) opening.digests
    × All
        (λ t. AddsUp opening.digests closing.digests (t.digest, t.row))
        (evaluate_interval reader opening closing).stats
evaluate_interval-AddsUp_example =
    evaluate_interval-AddsUp reader opening closing (λ e. absurd (cc (e)), tt)
      (λ e. absurd (cc (e)), (λ e. absurd (cc (e)), tt)) (early-Fits, (late-Fits, tt)) is_accepted

abbrev base : Sample
base = (97 ∷ [], some opening) ∷ (98 ∷ [], some opening) ∷ (99 ∷ [], some opening) ∷ []

abbrev final : Sample
final = (98 ∷ [], some closing) ∷ (97 ∷ [], some closing) ∷ []

build_section-valid_example : (build_section reader base final).validity ≡ (
    if all_ids (λ id. is_sound reader (target base id) (target final id)) (union_ids base final)
    then valid
    else partial)
build_section-valid_example = build_section-valid reader base final

build_section-reports_example :
    how_many (reports final (117 ∷ [])) (build_section reader base final).targets
    ≡ one_for (
        any_id
          (λ id. meets reader (117 ∷ []) (target base id) (target final id))
          (union_ids base final))
build_section-reports_example =
    build_section-reports reader base final (117 ∷ []) (λ e. absurd (cc (e)))

build_section-ids_example :
    let ids = ids_of (build_section reader base final) in
    Ascending ids × ((id : Key) → has_id id ids ≡ (is_some (get id base) || is_some (get id final)))
build_section-ids_example = build_section-ids reader base final
