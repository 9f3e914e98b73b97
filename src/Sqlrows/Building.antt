-- ===== src/Sqlrows/Building.antt =====
-- sqlrows/delta.go: the loop that builds a section, and what it says of each target.
use isutools.Prelude.{
  ℕ, ◌-◌, Bool, true, false, not, ◌&&◌, ◌||◌, List, [], ◌∷◌, ◌++◌, Option, none, some, length, ◌==◌,
  if◌then◌else◌,
}
use isutools.Agg.{Key, same_key, key_less}
use isutools.Runctl.Types.{Validity, valid, partial}
use isutools.Sqlrows.{
  DigestRow, TargetSample, DbClock, no_anomaly, Code, no_code, probe_skip, no_schema,
  inspector_default_db, query_error, unpaired_boundary, db_restart, counter_reset, is_no_code, get,
}
use isutools.Sqlrows.Section.{
  HealthKey, health_skip, health_no_schema, health_overflow, health_db_restart,
  health_counter_reset, health_clock_anomaly, health_target_dropped, Reason, told, the_code,
  only_opening, only_closing, overflowed, clock_stepped, no_reason, is_no_reason, Sample, target,
  TextReader, DigestStat, IntervalEval, evaluate_interval,
}

pub record OverflowStat : Type 0 where
  pub detected : Bool
  pub count_star : ℕ
  pub reported_by : Key

abbrev pub no_overflow : OverflowStat
no_overflow = record { detected = false; count_star = 0; reported_by = [] }

abbrev pub OverflowBy : Type 0
OverflowBy = List (Key × Key)

-- The target that reports a server's overflow already, if one does.
abbrev pub overflow_of : Key → DigestRow → Option Key → OverflowStat × Option Key
overflow_of id delta none =
    (record { detected = true; count_star = delta.count_star; reported_by = [] }, some id)
overflow_of id delta (some owner) =
    (record { detected = false; count_star = delta.count_star; reported_by = owner }, none)

abbrev pub add_owner : Key → Option Key → OverflowBy → OverflowBy
add_owner u none m = m
add_owner u (some id) m = (u, id) ∷ m

unfoldable pub overflow_stat : Key → Key → DigestRow → OverflowBy → OverflowStat × OverflowBy
overflow_stat u id delta by =
    let o = overflow_of id delta (get u by) in
    if delta.count_star == 0
    then (no_overflow, by)
    else if same_key u []
    then (record { detected = true; count_star = delta.count_star; reported_by = [] }, by)
    else (o.0, add_owner u o.1 by)

pub record TargetSection : Type 0 where
  pub target_id : Key
  pub schema : Key
  pub usable : Bool
  pub code : Code
  pub reason : Reason
  pub digests : List DigestStat
  pub shown : ℕ
  pub total : ℕ
  pub dropped : ℕ
  pub overflow : OverflowStat
  pub db_clock : DbClock

abbrev pub zero_clock : DbClock
zero_clock = record {
  baseline_before = 0;
  baseline_after = 0;
  final_before = 0;
  final_after = 0;
  monotonic = false;
  anomaly = no_anomaly;
}

-- A target without an interval.
abbrev pub blank_target : Key → Key → DbClock → Code → Reason → TargetSection
blank_target id name clock c r = record {
  target_id = id;
  schema = name;
  usable = false;
  code = c;
  reason = r;
  digests = [];
  shown = 0;
  total = 0;
  dropped = 0;
  overflow = no_overflow;
  db_clock = clock;
}

abbrev pub or_unpaired : Code → Code
or_unpaired no_code = unpaired_boundary
or_unpaired c = c

abbrev pub or_code : Code → Reason → Reason
or_code c r = if is_no_reason r then the_code c else r

abbrev pub without_interval : Key → Key → Code → Reason → TargetSection
without_interval id name c r =
    blank_target id name zero_clock (or_unpaired c) (or_code (or_unpaired c) r)

unfoldable pub dropped_target : Key → Option TargetSample → Option TargetSample → TargetSection
dropped_target id (some b) (some f) =
    let source = if b.captured then f else b in
    without_interval id source.schema source.code (told source.err)
dropped_target id (some b) none = without_interval id b.schema unpaired_boundary only_opening
dropped_target id none (some f) = without_interval id f.schema unpaired_boundary only_closing
dropped_target id none none = without_interval id [] unpaired_boundary no_reason

abbrev pub keeps_detail : Code → Bool
keeps_detail probe_skip = true
keeps_detail query_error = true
keeps_detail db_restart = true
keeps_detail counter_reset = true
keeps_detail inspector_default_db = true
keeps_detail _ = false

abbrev pub health_reason : Code → Reason → Reason
health_reason c detail = if keeps_detail c && not (is_no_reason detail) then detail else the_code c

abbrev pub health_key_for : Code → HealthKey
health_key_for probe_skip = health_skip
health_key_for inspector_default_db = health_skip
health_key_for no_schema = health_no_schema
health_key_for db_restart = health_db_restart
health_key_for counter_reset = health_counter_reset
health_key_for _ = health_target_dropped

pub record Note : Type 0 where
  pub health_key : HealthKey
  pub note_reason : Reason
  pub note_target : Key

-- The section under construction, with the targets that report an overflow row. Its limit, a
-- constant, is left out.
pub record Building : Type 0 where
  pub targets : List TargetSection
  pub notes : List Note
  pub validity : Validity
  pub overflow_by : OverflowBy

abbrev pub add_note : Bool → HealthKey → Reason → Key → List Note → List Note
add_note here k r id ns =
    if here then ns ++ record { health_key = k; note_reason = r; note_target = id } ∷ [] else ns

-- A target that gets no numbers.
unfoldable pub put_refused : Key → TargetSection → Building → Building
put_refused id t s = record {
  targets = s.targets ++ t ∷ [];
  notes = add_note true (health_key_for t.code) (health_reason t.code t.reason) id s.notes;
  validity = partial;
  overflow_by = s.overflow_by;
}

abbrev pub measured : Key → TargetSample → IntervalEval → OverflowStat → TargetSection
measured id f e o = record {
  target_id = id;
  schema = f.schema;
  usable = true;
  code = no_code;
  reason = no_reason;
  digests = e.stats;
  shown = length e.stats;
  total = e.total;
  dropped = e.total - length e.stats;
  overflow = o;
  db_clock = e.clock;
}

unfoldable pub put_measured : Key → TargetSample → IntervalEval → Building → Building
put_measured id f e s =
    let o = overflow_stat f.server_uuid id e.overflow s.overflow_by in
    let noted =
      add_note (o.0).detected health_overflow (overflowed (e.overflow).count_star) id s.notes in
    record {
      targets = s.targets ++ measured id f e o.0 ∷ [];
      notes =
          add_note (not (e.clock).monotonic) health_clock_anomaly (clock_stepped e.clock) id noted;
      validity = if (e.clock).monotonic then s.validity else partial;
      overflow_by = o.1;
    }

abbrev pub put_pair : TextReader → Key → TargetSample → TargetSample → Building → Building
put_pair c id b f s =
    let e = evaluate_interval c b f in
    if not (is_no_code e.code)
    then put_refused id (blank_target id f.schema e.clock e.code e.reason) s
    else put_measured id f e s

abbrev pub put_target :
    TextReader → Key → Option TargetSample → Option TargetSample → Building → Building
put_target c id (some b) (some f) s =
    if not b.captured || not f.captured
    then put_refused id (dropped_target id (some b) (some f)) s
    else put_pair c id b f s
put_target c id b f s = put_refused id (dropped_target id b f) s

abbrev pub put_all : TextReader → Sample → Sample → List Key → Building → Building
put_all c base final [] s = s
put_all c base final (id ∷ ids) s =
    put_all c base final ids (put_target c id (target base id) (target final id) s)

-- The sorted set of the keys of a map and of a sorted set.
abbrev pub insert_id : Key → List Key → List Key
insert_id k [] = k ∷ []
insert_id k (j ∷ js) =
    if same_key k j then j ∷ js else if key_less k j then k ∷ j ∷ js else j ∷ insert_id k js

abbrev pub ids_into : Sample → List Key → List Key
ids_into [] js = js
ids_into ((id, t) ∷ s) js = insert_id id (ids_into s js)

unfoldable pub union_ids : Sample → Sample → List Key
union_ids base final = ids_into base (ids_into final [])

abbrev pub empty_section : Building
empty_section = record { targets = []; notes = []; validity = valid; overflow_by = [] }

unfoldable pub build_section : TextReader → Sample → Sample → Building
build_section c base final = put_all c base final (union_ids base final) empty_section
