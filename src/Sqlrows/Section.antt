-- ===== src/Sqlrows/Section.antt =====
-- sqlrows/delta.go, sqlrows/section.go: the section of two frozen samples. A reason is held by its
-- parts and not by its words; the notes are listed as they are added, their grouping and wording
-- (noteSet) are left out. ExaminedPerSent, a float, is the quotient of two fields kept.
use isutools.Prelude.{
  ℕ, ◌/◌, Bool, true, false, not, ◌&&◌, List, [], map, Option, none, some, length, ltb,
  if◌then◌else◌,
}
use isutools.Prelude.Int.{ℤ, ltb_ℤ}
use isutools.Agg.{Key, same_key}
use isutools.Sqlrows.{
  DigestRow, zero_row, TargetSample, DbClock, new_db_clock, Code, no_code, db_restart,
  counter_reset, get, lost_digest, rewound_digest, overflow_rewound, interval_digests,
  active_digests, digest_text_fetch_limit, take, overflow_delta,
}

pub data StatementKind : Type 0 where
  kind_select kind_dml kind_other : StatementKind

pub data HealthKey : Type 0 where
  health_skip health_no_schema health_overflow health_db_restart : HealthKey
  health_counter_reset health_clock_anomaly health_target_dropped : HealthKey

-- `told` is a text of a sample, `told []` the empty text; `the_code` repeats a code.
pub data Reason : Type 0 where
  told : Key → Reason
  the_code : Code → Reason
  uuid_changed only_opening only_closing overflow_row_rewound : Reason
  uptime_fell : ℤ → ℤ → Reason
  digest_gone digest_rewound : Key → Reason
  overflowed : ℕ → Reason
  clock_stepped : DbClock → Reason

abbrev pub no_reason : Reason
no_reason = told []

abbrev pub is_no_reason : Reason → Bool
is_no_reason (told []) = true
is_no_reason _ = false

-- A sample: its map, an entry of which may be nil. A nil sample is the empty map.
abbrev pub Sample : Type 0
Sample = List (Key × Option TargetSample)

abbrev pub flat {ℓ} : {A : Type ℓ} → Option (Option A) → Option A
flat none = none
flat (some o) = o

abbrev pub target : Sample → Key → Option TargetSample
target s id = flat (get id s)

-- strings.TrimSpace(text) == "" and Classify.
pub record TextReader : Type 0 where
  pub is_blank : Key → Bool
  pub classify : Key → StatementKind

pub record DigestStat : Type 0 where
  pub digest : Key
  -- `none` is MissingQueryText.
  pub query : Option Key
  pub kind : StatementKind
  pub row : DigestRow
  pub total_time : ℕ
  pub has_ratio : Bool

abbrev pub is_select : StatementKind → Bool
is_select kind_select = true
is_select _ = false

abbrev pub usable_text : TextReader → Option Key → Option Key
usable_text c none = none
usable_text c (some t) = if c.is_blank t then none else some t

abbrev pub kind_of : TextReader → Option Key → StatementKind
kind_of c none = kind_other
kind_of c (some t) = c.classify t

abbrev pub digest_stat : TextReader → List (Key × Key) → Key × DigestRow → DigestStat
digest_stat c texts (d, r) =
    let q = usable_text c (get d texts) in
    let k = kind_of c q in
    record {
      digest = d;
      query = q;
      kind = k;
      row = r;
      total_time = r.timer_wait / 1000;
      has_ratio = is_select k && ltb 0 r.rows_sent;
    }

pub record IntervalEval : Type 0 where
  pub clock : DbClock
  pub code : Code
  pub reason : Reason
  pub stats : List DigestStat
  pub total : ℕ
  pub overflow : DigestRow

abbrev pub is_other_server : TargetSample → TargetSample → Bool
is_other_server b f =
    not (same_key b.server_uuid [])
    && not (same_key f.server_uuid [])
    && not (same_key b.server_uuid f.server_uuid)

abbrev pub refuse : DbClock → Code → Reason → IntervalEval
refuse k c r = record {
  clock = k;
  code = c;
  reason = r;
  stats = [];
  total = 0;
  overflow = zero_row;
}

unfoldable pub evaluate_interval : TextReader → TargetSample → TargetSample → IntervalEval
evaluate_interval c b f =
    let k = new_db_clock b f in
    let lost = lost_digest [] b.digests f.digests in
    let rewound = rewound_digest [] b.digests f.digests in
    let ordered = active_digests (interval_digests b.digests f.digests) in
    if is_other_server b f
    then refuse k db_restart uuid_changed
    else if ltb_ℤ f.uptime_sec b.uptime_sec && k.monotonic
    then refuse k db_restart (uptime_fell b.uptime_sec f.uptime_sec)
    else if not (same_key lost [])
    then refuse k counter_reset (digest_gone lost)
    else if not (same_key rewound [])
    then refuse k counter_reset (digest_rewound rewound)
    else if overflow_rewound b f
    then refuse k counter_reset overflow_row_rewound
    else record {
      clock = k;
      code = no_code;
      reason = no_reason;
      stats = map (digest_stat c f.texts) (take digest_text_fetch_limit ordered);
      total = length ordered;
      overflow = overflow_delta b f;
    }
