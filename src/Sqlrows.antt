-- ===== src/Sqlrows.antt =====
-- sqlrows/sample.go, sqlrows/delta.go: the interval between two readings of a database's cumulative
-- statement counters. A text is its bytes. A Go map is an association list with each key once; what
-- the source takes from a map does not depend on its order where no digest is empty. A counter is a
-- uint64. The clock of the database is a time, 0 where it was not read. The classification of a
-- statement (classify.go) and strings.TrimSpace are arguments; the wording of reasons is left out.
pub mod Section
pub mod Building
pub mod Interval
pub mod Overflow
pub mod Targets
pub mod Verdict
pub mod Steps
pub mod Outcome
mod Examples
use isutools.Prelude.{
  ℕ, zero, suc, ◌+◌, ◌-◌, ◌/◌, ◌%◌, Bool, true, false, not, ◌&&◌, ◌||◌, List, [], ◌∷◌, ◌++◌, Option,
  none, some, length, ltb, leb, ◌==◌, if◌then◌else◌, is_some,
}
use isutools.Prelude.Int.{ℤ, ltb_ℤ, word_mod}
use isutools.Agg.{Key, same_key, key_less}
use isutools.Runctl.Types.{Time, is_zero}

pub record DigestRow : Type 0 where
  pub count_star : ℕ
  pub timer_wait : ℕ
  pub rows_examined : ℕ
  pub rows_sent : ℕ
  pub rows_affected : ℕ
  pub created_tmp_disk_tables : ℕ
  pub sort_merge_passes : ℕ
  pub no_index_used : ℕ
  pub no_good_index_used : ℕ

abbrev pub zero_row : DigestRow
zero_row = record {
  count_star = 0;
  timer_wait = 0;
  rows_examined = 0;
  rows_sent = 0;
  rows_affected = 0;
  created_tmp_disk_tables = 0;
  sort_merge_passes = 0;
  no_index_used = 0;
  no_good_index_used = 0;
}

-- Subtraction of uint64 wraps around.
abbrev pub sub64 : ℕ → ℕ → ℕ
sub64 a b = (a + word_mod - b) % word_mod

abbrev pub sub_row : DigestRow → DigestRow → DigestRow
sub_row r prev = record {
  count_star = sub64 r.count_star prev.count_star;
  timer_wait = sub64 r.timer_wait prev.timer_wait;
  rows_examined = sub64 r.rows_examined prev.rows_examined;
  rows_sent = sub64 r.rows_sent prev.rows_sent;
  rows_affected = sub64 r.rows_affected prev.rows_affected;
  created_tmp_disk_tables = sub64 r.created_tmp_disk_tables prev.created_tmp_disk_tables;
  sort_merge_passes = sub64 r.sort_merge_passes prev.sort_merge_passes;
  no_index_used = sub64 r.no_index_used prev.no_index_used;
  no_good_index_used = sub64 r.no_good_index_used prev.no_good_index_used;
}

abbrev pub advanced_from : DigestRow → DigestRow → Bool
advanced_from r prev =
    leb prev.count_star r.count_star
    && leb prev.timer_wait r.timer_wait
    && leb prev.rows_examined r.rows_examined
    && leb prev.rows_sent r.rows_sent
    && leb prev.rows_affected r.rows_affected
    && leb prev.created_tmp_disk_tables r.created_tmp_disk_tables
    && leb prev.sort_merge_passes r.sort_merge_passes
    && leb prev.no_index_used r.no_index_used
    && leb prev.no_good_index_used r.no_good_index_used

pub data Anomaly : Type 0 where
  no_anomaly clock_missing backwards_baseline backwards_final backwards_interval : Anomaly

pub record DbClock : Type 0 where
  pub baseline_before : Time
  pub baseline_after : Time
  pub final_before : Time
  pub final_after : Time
  pub monotonic : Bool
  pub anomaly : Anomaly

pub data Code : Type 0 where
  no_code probe_skip no_schema inspector_default_db budget_exhausted query_error : Code
  unpaired_boundary db_restart counter_reset : Code

abbrev pub is_no_code : Code → Bool
is_no_code no_code = true
is_no_code _ = false

pub record TargetSample : Type 0 where
  pub schema : Key
  pub server_uuid : Key
  pub uptime_sec : ℤ
  pub utc_before : Time
  pub utc_after : Time
  pub digests : List (Key × DigestRow)
  pub overflow : DigestRow
  pub has_overflow : Bool
  pub texts : List (Key × Key)
  pub captured : Bool
  pub code : Code
  pub err : Key

abbrev pub get {ℓ} : {A : Type ℓ} → Key → List (Key × A) → Option A
get k [] = none
get k ((j, a) ∷ m) = if same_key j k then some a else get k m

abbrev pub anomaly_of : Time → Time → Time → Time → Anomaly
anomaly_of bb ba fb fa =
    if is_zero bb || is_zero ba || is_zero fb || is_zero fa
    then clock_missing
    else if ltb ba bb
    then backwards_baseline
    else if ltb fa fb
    then backwards_final
    else if ltb fb ba
    then backwards_interval
    else no_anomaly

abbrev pub is_no_anomaly : Anomaly → Bool
is_no_anomaly no_anomaly = true
is_no_anomaly _ = false

abbrev pub new_db_clock : TargetSample → TargetSample → DbClock
new_db_clock base final =
    let a = anomaly_of base.utc_before base.utc_after final.utc_before final.utc_after in
    record {
      baseline_before = base.utc_before;
      baseline_after = base.utc_after;
      final_before = final.utc_before;
      final_after = final.utc_after;
      monotonic = is_no_anomaly a;
      anomaly = a;
    }

abbrev pub smaller : Key → Key → Key
smaller d found = if same_key found [] || key_less d found then d else found

-- The digest found so far, the empty text at first: the smallest one of the opening reading that
-- the closing one lacks.
unfoldable pub lost_digest : Key → List (Key × DigestRow) → List (Key × DigestRow) → Key
lost_digest lost [] final = lost
lost_digest lost ((d, r) ∷ base) final =
    lost_digest (if is_some (get d final) then lost else smaller d lost) base final

abbrev pub is_rewound : DigestRow → Option DigestRow → Bool
is_rewound current none = false
is_rewound current (some previous) = not (advanced_from current previous)

-- The smallest digest of which a counter went backwards, likewise.
unfoldable pub rewound_digest : Key → List (Key × DigestRow) → List (Key × DigestRow) → Key
rewound_digest rewound base [] = rewound
rewound_digest rewound base ((d, current) ∷ final) =
    rewound_digest (if is_rewound current (get d base) then smaller d rewound else rewound) base
      final

abbrev pub overflow_rewound : TargetSample → TargetSample → Bool
overflow_rewound b f = b.has_overflow && f.has_overflow && not (advanced_from f.overflow b.overflow)

-- A row's value over the interval.
abbrev pub interval_row : DigestRow → Option DigestRow → DigestRow
interval_row current none = current
interval_row current (some previous) =
    if advanced_from current previous then sub_row current previous else current

abbrev pub interval_digests :
    List (Key × DigestRow) → List (Key × DigestRow) → List (Key × DigestRow)
interval_digests base [] = []
interval_digests base ((d, current) ∷ final) =
    (d, interval_row current (get d base)) ∷ interval_digests base final

-- Whether a digest comes before another: by total time, then by the digest.
abbrev pub ranks_before : Key × DigestRow → Key × DigestRow → Bool
ranks_before (d, r) (e, s) =
    if r.timer_wait == s.timer_wait then key_less d e else ltb s.timer_wait r.timer_wait

abbrev pub insert_digest : Key × DigestRow → List (Key × DigestRow) → List (Key × DigestRow)
insert_digest x [] = x ∷ []
insert_digest x (y ∷ ys) = if ranks_before y x then y ∷ insert_digest x ys else x ∷ y ∷ ys

-- The digests that ran, with their rows, in the order of sort.Slice; the order is strict on
-- different digests, so there is one result.
unfoldable pub active_digests : List (Key × DigestRow) → List (Key × DigestRow)
active_digests [] = []
active_digests ((d, r) ∷ m) =
    let rest = active_digests m in if r.count_star == 0 then rest else insert_digest (d, r) rest

abbrev pub digest_text_fetch_limit : ℕ
digest_text_fetch_limit = 200

abbrev pub take {ℓ} : {A : Type ℓ} → ℕ → List A → List A
take zero xs = []
take (suc n) [] = []
take (suc n) (x ∷ xs) = x ∷ take n xs

abbrev pub rank_digests : List (Key × DigestRow) → ℕ → List (Key × DigestRow)
rank_digests m limit = take limit (active_digests m)

unfoldable pub overflow_delta : TargetSample → TargetSample → DigestRow
overflow_delta b f =
    if not f.has_overflow
    then zero_row
    else if not b.has_overflow
    then f.overflow
    else if advanced_from f.overflow b.overflow
    then sub_row f.overflow b.overflow
    else zero_row
