-- ===== src/Runctl/Window.antt =====
-- internal/runctl/window.go: the measured width of a boundary, and its verdict.
pub mod Bounds
pub mod Spread
use isutools.Prelude.{
  ℕ, ◌-◌, Bool, true, false, not, ◌&&◌, ◌||◌, String, str_eq, List, [], ◌∷◌, ◌++◌, map, Option,
  none, some, ltb, leb, ◌==◌, if◌then◌else◌,
}
use isutools.Runctl.Types.{
  Time, Duration, Validity, valid, partial, invalid, worse, Kind, generation, Code, success,
  spread_exceeded, is_success, is_zero, sub_time, BoundaryWindow, CollectorBoundary, HealthEvent,
  health_boundary_spread,
}

-- A filter on boundaries; `none` is Go's nil, which keeps every one.
abbrev pub Keep : Type 0
Keep = Option (CollectorBoundary → Bool)

abbrev pub keeps : Keep → CollectorBoundary → Bool
keeps none b = true
keeps (some f) b = f b

-- The boundaries that a window counts: they ran, and pass the filter.
abbrev pub counted : Keep → CollectorBoundary → Bool
counted keep b = not (is_zero b.at) && keeps keep b

-- The loop's variables: the ends so far, and whether a boundary was counted.
pub record Scan : Type 0 where
  pub min_at : Time
  pub max_at : Time
  pub seen : Bool

abbrev pub widen : Keep → Scan → CollectorBoundary → Scan
widen keep w b =
    if is_zero b.at || not (keeps keep b)
    then w
    else if not w.seen
    then record { min_at = b.at; max_at = b.at; seen = true }
    else record {
      min_at = if ltb b.at w.min_at then b.at else w.min_at;
      max_at = if ltb w.max_at b.at then b.at else w.max_at;
      seen = true;
    }

unfoldable pub scan : Keep → Scan → List CollectorBoundary → Scan
scan keep w [] = w
scan keep w (b ∷ bs) = scan keep (widen keep w b) bs

abbrev pub no_scan : Scan
no_scan = record { min_at = 0; max_at = 0; seen = false }

unfoldable pub compute_window : List CollectorBoundary → Keep → BoundaryWindow
compute_window bs keep =
    let w = scan keep no_scan bs in
    record {
      min_at = w.min_at;
      max_at = w.max_at;
      spread = if w.seen then sub_time w.max_at w.min_at else 0;
    }

abbrev pub keep_generation : CollectorBoundary → Bool
keep_generation b = elim b.kind [ generation ↦ true | _ ↦ false ]

pub record SpreadVerdict : Type 0 where
  pub validity : Validity
  pub offenders : List String

abbrev pub required_only : Keep → CollectorBoundary → Bool
required_only keep b = b.required && keeps keep b

-- The names of the counted boundaries that lie further than the limit from the window's start.
unfoldable pub late : Keep → Time → Duration → List CollectorBoundary → List String
late keep start limit [] = []
late keep start limit (b ∷ bs) =
    let rest = late keep start limit bs in
    if is_zero b.at || not (keeps keep b)
    then rest
    else if ltb limit (sub_time b.at start)
    then b.name ∷ rest
    else rest

unfoldable pub judge_spread : List CollectorBoundary → Keep → Duration → SpreadVerdict
judge_spread bs keep limit =
    let all = compute_window bs keep in
    let req = compute_window bs (some (required_only keep)) in
    if leb all.spread limit then record { validity = valid; offenders = [] } else record {
      validity = if ltb limit req.spread then invalid else partial;
      offenders = late keep all.min_at limit bs;
    }

unfoldable pub contains : String → List String → Bool
contains x [] = false
contains x (y ∷ ys) = str_eq y x || contains x ys

-- The names without repetition, in the order of their first occurrence.
unfoldable pub dedup : List String → List String → List String
dedup before [] = []
dedup before (x ∷ xs) =
    let skipped = dedup before xs in
    let rest = dedup (x ∷ before) xs in if contains x before then skipped else x ∷ rest

abbrev pub mark : List String → CollectorBoundary → CollectorBoundary
mark offenders b =
    if contains b.name offenders && is_success b.code
    then record b { code = spread_exceeded }
    else b

-- What `applySpread` does: the verdict, the boundaries it has marked, and what it reports.
pub record SpreadOutcome : Type 0 where
  pub validity : Validity
  pub boundaries : List CollectorBoundary
  pub health : List HealthEvent

abbrev pub is_empty : List String → Bool
is_empty [] = true
is_empty (x ∷ xs) = false

unfoldable pub apply_spread : Duration → Duration → String → List CollectorBoundary → SpreadOutcome
apply_spread spread_generation spread_boundary run_id bs =
    let gen = judge_spread bs (some keep_generation) spread_generation in
    let all = judge_spread bs none spread_boundary in
    let offenders = gen.offenders ++ all.offenders in
    let v = worse gen.validity all.validity in
    if is_empty offenders then record { validity = v; boundaries = bs; health = [] } else record {
      validity = v;
      boundaries = map (mark (dedup [] offenders)) bs;
      health =
          record { key = health_boundary_spread; run_id = run_id; subjects = dedup [] offenders }
          ∷ [];
    }
