-- ===== src/Requestwork.antt =====
-- internal/requestwork/requestwork.go: SQL and outbound calls attributed to one request.
-- A label is its bytes. Go's map of labels is an association list. A sum of durations is an int64,
-- held as its bit pattern, so a sum is taken modulo 2^64. sort.Slice orders edges by time and
-- leaves open how it orders those of one time, so the sorting function is an argument of `close`.
pub mod Ticks
pub mod Sweep
pub mod Edges
pub mod Wall
pub mod Requests
mod Examples
use isutools.Prelude.{
  ℕ, zero, suc, ◌+◌, ◌-◌, ◌%◌, min, max, Bool, true, false, not, ◌&&◌, ◌||◌, List, [], ◌∷◌, ◌++◌,
  map, Option, none, some, find?, length, ltb, leb, ◌==◌, if◌then◌else◌,
}
use isutools.Prelude.Int.{ℤ, pos, negsuc, word_mod}
use isutools.Runctl.Types.{Time, Duration, sub_time}

abbrev pub Label : Type 0
Label = List ℕ

abbrev pub same_label : Label → Label → Bool
same_label [] [] = true
same_label (a ∷ k) (b ∷ l) = a == b && same_label k l
same_label _ _ = false

abbrev pub max_intervals : ℕ
max_intervals = 256

abbrev pub max_labels : ℕ
max_labels = 32

abbrev pub max_label_length : ℕ
max_label_length = 64

-- "(other external calls)"
abbrev pub overflow_label : Label
overflow_label =
    40 ∷ 111 ∷ 116 ∷ 104 ∷ 101 ∷ 114 ∷ 32 ∷ 101 ∷ 120 ∷ 116 ∷ 101 ∷ 114 ∷ 110 ∷ 97 ∷ 108 ∷ 32 ∷ 99
    ∷ 97 ∷ 108 ∷ 108 ∷ 115 ∷ 41 ∷ []

pub record Interval : Type 0 where
  pub start : Time
  pub end : Time
  pub external : Bool

pub record Call : Type 0 where
  pub label : Label
  pub count : ℕ
  pub errors : ℕ
  pub reused : ℕ
  pub total : Duration
  pub acquire : Duration
  pub dns : Duration
  pub connect : Duration
  pub tls : Duration
  pub wait : Duration
  pub headers : Duration
  pub body : Duration

pub record Summary : Type 0 where
  pub sql_total : Duration
  pub external_total : Duration
  pub sql_only : Duration
  pub external_only : Duration
  pub overlap : Duration
  pub other : Duration
  pub external_count : ℕ
  pub external_errors : ℕ
  pub truncated : Bool
  pub calls : List Call

pub record External : Type 0 where
  pub label : Label
  pub start : Time
  pub end : Time
  pub failed : Bool
  pub reused : Bool
  pub acquire : Duration
  pub dns : Duration
  pub connect : Duration
  pub tls : Duration
  pub wait : Duration
  pub headers : Duration
  pub body : Duration

pub record Counter : Type 0 where
  pub closed : Bool
  pub summary : Summary
  pub intervals : List Interval
  pub labels : List (Label × ℕ)

abbrev pub new_counter : Counter
new_counter = record {
  closed = false;
  summary = record {
    sql_total = 0;
    external_total = 0;
    sql_only = 0;
    external_only = 0;
    overlap = 0;
    other = 0;
    external_count = 0;
    external_errors = 0;
    truncated = false;
    calls = [];
  };
  intervals = [];
  labels = [];
}

-- `+=` on an int64.
abbrev pub add64 : ℕ → ℕ → ℕ
add64 a b = (a + b) % word_mod

unfoldable pub add_interval : Counter → Time → Time → Bool → Counter
add_interval c start end external =
    if c.summary.truncated
    then c
    else if leb max_intervals (length c.intervals)
    then record c { summary = record c.summary { truncated = true }; intervals = [] }
    else record c {
      intervals = c.intervals ++ record { start = start; end = end; external = external } ∷ [];
    }

unfoldable pub completed_sql : Counter → Time → Time → Counter
completed_sql c start end =
    if not (ltb start end) || c.closed
    then c
    else add_interval
        (record c {
          summary = record c.summary { sql_total = add64 c.summary.sql_total (sub_time end start) };
        })
        start end false

abbrev pub cut : ℕ → Label → Label
cut zero l = []
cut (suc n) [] = []
cut (suc n) (b ∷ l) = b ∷ cut n l

abbrev pub index_of : Label → List (Label × ℕ) → Option ℕ
index_of l [] = none
index_of l ((k, i) ∷ m) = if same_label k l then some i else index_of l m

-- The label that a call is counted under, once the labels are full.
abbrev pub effective_label : List (Label × ℕ) → Label → Label
effective_label labels l = elim (index_of l labels) [
  | some i ↦ l
  | none ↦ if leb max_labels (length labels) then overflow_label else l
]

abbrev pub blank_call : Label → Call
blank_call l = record {
  label = l;
  count = 0;
  errors = 0;
  reused = 0;
  total = 0;
  acquire = 0;
  dns = 0;
  connect = 0;
  tls = 0;
  wait = 0;
  headers = 0;
  body = 0;
}

abbrev pub one_if : Bool → ℕ
one_if true = 1
one_if false = 0

abbrev pub add_call : External → Call → Call
add_call e c = record c {
  count = add64 c.count 1;
  errors = add64 c.errors (one_if e.failed);
  reused = add64 c.reused (one_if e.reused);
  total = add64 c.total (sub_time e.end e.start);
  acquire = add64 c.acquire e.acquire;
  dns = add64 c.dns e.dns;
  connect = add64 c.connect e.connect;
  tls = add64 c.tls e.tls;
  wait = add64 c.wait e.wait;
  headers = add64 c.headers e.headers;
  body = add64 c.body e.body;
}

-- A write at an index of the slice.
abbrev pub update_at : ℕ → (Call → Call) → List Call → List Call
update_at i f [] = []
update_at zero f (c ∷ cs) = f c ∷ cs
update_at (suc i) f (c ∷ cs) = c ∷ update_at i f cs

-- The call of a label, which is added at the end when the label is new.
unfoldable pub count_call : Counter → Label → External → Counter
count_call c l e = elim (index_of l c.labels) [
  | some i ↦ record c {
    summary = record c.summary { calls = update_at i (add_call e) c.summary.calls };
  }
  | none ↦ record c {
    labels = (l, length c.summary.calls) ∷ c.labels;
    summary = record c.summary { calls = c.summary.calls ++ add_call e (blank_call l) ∷ [] };
  }
]

unfoldable pub completed_external : Counter → External → Counter
completed_external c e =
    if not (ltb e.start e.end) || c.closed
    then c
    else let d = sub_time e.end e.start in
      let c₁ : Counter = record c {
        summary = record c.summary {
          external_total = add64 c.summary.external_total d;
          external_count = add64 c.summary.external_count 1;
          external_errors = add64 c.summary.external_errors (one_if e.failed);
        };
      } in
      let c₂ = add_interval c₁ e.start e.end true in
      count_call c₂ (effective_label c₂.labels (cut max_label_length e.label)) e

-- An edge's change of a count of running calls.
pub data Delta : Type 0 where
  same up down : Delta

pub record Edge : Type 0 where
  pub t : Time
  pub sql : Delta
  pub ext : Delta

abbrev pub edge_of : Bool → Delta → Time → Edge
edge_of external d t =
    if external
    then record { t = t; sql = same; ext = d }
    else record { t = t; sql = d; ext = same }

-- The edges of one interval, cut to the window; none if nothing of it is left.
abbrev pub interval_edges : Time → Time → Interval → List Edge
interval_edges start end v =
    let a = if ltb v.start start then start else v.start in
    let b = if ltb end v.end then end else v.end in
    if ltb a b then edge_of v.external up a ∷ edge_of v.external down b ∷ [] else []

abbrev pub all_edges : Time → Time → List Interval → List Edge
all_edges start end [] = []
all_edges start end (v ∷ vs) = interval_edges start end v ++ all_edges start end vs

unfoldable pub edges : Time → Time → List Interval → List Edge
edges start end vs =
    record { t = start; sql = same; ext = same }
    ∷ record { t = end; sql = same; ext = same }
    ∷ all_edges start end vs

-- A count that an edge changes. It stays far from the ends of Go's int: there are at most 256
-- intervals.
abbrev pub bump : ℤ → Delta → ℤ
bump z same = z
bump (pos n) up = pos (suc n)
bump (negsuc zero) up = pos 0
bump (negsuc (suc n)) up = negsuc n
bump (pos zero) down = negsuc 0
bump (pos (suc n)) down = pos n
bump (negsuc n) down = negsuc (suc n)

abbrev pub is_positive : ℤ → Bool
is_positive (pos zero) = false
is_positive (pos (suc n)) = true
is_positive (negsuc n) = false

-- The switch: which of the four sums a span of time goes to.
abbrev pub charge : Bool → Bool → Duration → Summary → Summary
charge true true d s = record s { overlap = add64 s.overlap d }
charge true false d s = record s { sql_only = add64 s.sql_only d }
charge false true d s = record s { external_only = add64 s.external_only d }
charge false false d s = record s { other = add64 s.other d }

-- The loop over neighbouring edges.
unfoldable pub sweep_edges : ℤ → ℤ → Summary → List Edge → Summary
sweep_edges sql ext s [] = s
sweep_edges sql ext s (e ∷ []) = s
sweep_edges sql ext s (e ∷ (f ∷ es)) =
    let sql' = bump sql e.sql in
    let ext' = bump ext e.ext in
    let d = sub_time f.t e.t in
    let s' = if d == 0 then s else charge (is_positive sql') (is_positive ext') d s in
    sweep_edges sql' ext' s' (f ∷ es)

-- Close, with its result; a repeated call gives the summary again.
unfoldable pub close : (List Edge → List Edge) → Counter → Time → Time → Counter × Summary
close sort c start end =
    if c.closed
    then (c, c.summary)
    else let s =
        (if not c.summary.truncated && ltb start end
          then sweep_edges (pos 0) (pos 0) c.summary (sort (edges start end c.intervals))
          else c.summary) in
      (record c { closed = true; summary = s }, s)
