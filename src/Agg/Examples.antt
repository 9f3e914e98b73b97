-- ===== src/Agg/Examples.antt =====
-- A table of internal/agg with a budget of one key, and the percentile of a row.
use isutools.Prelude.{◌≡◌, ◌≤◌, ◌<◌, ◌*◌, true, false, List, [], ◌∷◌, length, arith}
use isutools.Prelude.Int.{pos, negsuc}
use isutools.Agg.{Key, new_table, row, p95}
use isutools.Agg.Account.{
  Observation, Sample, observe_all, account_all, no_account, filed_under, stat_of, row_of,
}
use isutools.Agg.Refinement.{observe_all-account_all}
use isutools.Agg.Percentile.{at_most, under_half, p95-at_most, p95-under_half}

abbrev requests : List Observation
requests =
    record { key = 97 ∷ []; duration = pos 1500; failed = false }
    ∷ record { key = 98 ∷ []; duration = negsuc 4; failed = true }
    ∷ record { key = 97 ∷ []; duration = pos 900; failed = true }
    ∷ []

abbrev samples : List Sample
samples =
    record { filed = 97 ∷ []; ns = 900; failed = true }
    ∷ record { filed = 97 ∷ []; ns = 1500; failed = false }
    ∷ []

observe_all-account_all_example :
    let t = observe_all (new_table 1) requests in
    let a = account_all 1 no_account requests in
    ((k : Key) → row k t ≡ row_of (filed_under k a.samples))
    × (t.keys ≡ length a.admitted)
    × (length a.admitted ≤ 1)
observe_all-account_all_example = observe_all-account_all 1 requests

p95-at_most_example : length samples * 95 ≤ at_most (p95 (stat_of samples)) samples * 100
p95-at_most_example =
    p95-at_most samples (omega arith) (omega arith) (omega arith, (omega arith, tt))

p95-under_half_example : under_half (p95 (stat_of samples)) samples * 100 < length samples * 95
p95-under_half_example =
    p95-under_half samples (omega arith) (omega arith) (omega arith, (omega arith, tt))
