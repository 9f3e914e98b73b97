-- ===== src/Agg.antt =====
-- internal/agg/agg.go: a bounded table of latencies by key, with histograms in powers of two.
-- A key is its bytes, and an array of a fixed length is a function of the index. Sums are int64,
-- held as bit patterns, so they are taken modulo 2^64; Snapshot divides and compares them as they
-- stand, which is what Go does below 2^63. One call is one step, under the lock of its shard.
pub mod Lookup
pub mod Account
pub mod Refinement
pub mod Percentile
mod Examples
use isutools.Prelude.{
  ℕ, zero, suc, ◌+◌, ◌-◌, ◌*◌, ◌/◌, ◌%◌, ◌^◌, bit_xor, Bool, true, false, not, ◌&&◌, ◌||◌, List, [],
  ◌∷◌, ◌++◌, map, Option, none, some, ltb, leb, ◌==◌, if◌then◌else◌,
}
use isutools.Prelude.Int.{ℤ, pos, negsuc, word_mod}

abbrev pub Key : Type 0
Key = List ℕ

abbrev pub same_key : Key → Key → Bool
same_key [] [] = true
same_key (a ∷ k) (b ∷ l) = a == b && same_key k l
same_key _ _ = false

-- The order of Go's strings.
abbrev pub key_less : Key → Key → Bool
key_less [] [] = false
key_less [] (b ∷ l) = true
key_less (a ∷ k) [] = false
key_less (a ∷ k) (b ∷ l) = if a == b then key_less k l else ltb a b

-- "(other)"
abbrev pub overflow_key : Key
overflow_key = 40 ∷ 111 ∷ 116 ∷ 104 ∷ 101 ∷ 114 ∷ 41 ∷ []

abbrev pub default_max_keys : ℕ
default_max_keys = 10000

abbrev pub num_shards : ℕ
num_shards = 16

abbrev pub num_buckets : ℕ
num_buckets = 40

abbrev pub add64 : ℕ → ℕ → ℕ
add64 a b = (a + b) % word_mod

pub record Stat : Type 0 where
  pub count : ℕ
  pub error_count : ℕ
  pub total : ℕ
  pub max : ℕ
  pub buckets : ℕ → ℕ

abbrev pub blank_stat : Stat
blank_stat = record { count = 0; error_count = 0; total = 0; max = 0; buckets = λ i. 0 }

-- A Go map, with each key once.
abbrev pub Stats : Type 0
Stats = List (Key × Stat)

pub record Table : Type 0 where
  pub max_keys : ℕ
  pub keys : ℕ
  pub shards : ℕ → Stats

abbrev pub new_table : ℕ → Table
new_table max_keys = record { max_keys = max_keys; keys = 0; shards = λ i. [] }

-- bits.Len64; 64 halvings are enough for a word.
unfoldable pub bits_len : ℕ → ℕ → ℕ
bits_len zero n = 0
bits_len (suc fuel) n = let rest = bits_len fuel (n / 2) in if n == 0 then 0 else suc rest

unfoldable pub bucket_for : ℕ → ℕ
bucket_for ns = let b = bits_len 64 ns in if leb num_buckets b then num_buckets - 1 else b

unfoldable pub fnv32a_from : ℕ → Key → ℕ
fnv32a_from h [] = h
fnv32a_from h (b ∷ k) = fnv32a_from ((bit_xor h b * 16777619) % 2 ^ 32) k

abbrev pub fnv32a : Key → ℕ
fnv32a k = fnv32a_from 2166136261 k

abbrev pub shard_of : Key → ℕ
shard_of k = fnv32a k % num_shards

-- A negative duration counts as none.
abbrev pub nanoseconds : ℤ → ℕ
nanoseconds (pos n) = n
nanoseconds (negsuc n) = 0

abbrev pub one_if : Bool → ℕ
one_if true = 1
one_if false = 0

abbrev pub add_stat : ℕ → Bool → Stat → Stat
add_stat ns failed s = record {
  count = add64 s.count 1;
  error_count = add64 s.error_count (one_if failed);
  total = add64 s.total ns;
  max = if ltb s.max ns then ns else s.max;
  buckets = λ i. if i == bucket_for ns then add64 (s.buckets i) 1 else s.buckets i;
}

abbrev pub stats_get : Key → Stats → Option Stat
stats_get k [] = none
stats_get k ((j, s) ∷ m) = if same_key j k then some s else stats_get k m

-- A write of the map.
abbrev pub stats_put : Key → Stat → Stats → Stats
stats_put k s [] = (k, s) ∷ []
stats_put k s ((j, r) ∷ m) = if same_key j k then (j, s) ∷ m else (j, r) ∷ stats_put k s m

-- The row of a key.
abbrev pub row : Key → Table → Option Stat
row k t = stats_get k (t.shards (shard_of k))

abbrev pub put_row : Key → Stat → Table → Table
put_row k s t = record t {
  shards = λ i. if i == shard_of k then stats_put k s (t.shards i) else t.shards i;
}

-- A new key is let in while the budget lasts.
abbrev pub reserve_key : Table → Option Table
reserve_key t = if leb t.max_keys t.keys then none else some (record t { keys = t.keys + 1 })

abbrev pub or_blank : Option Stat → Stat
or_blank none = blank_stat
or_blank (some s) = s

abbrev pub record_at : Key → ℕ → Bool → Table → Table
record_at k ns failed t = put_row k (add_stat ns failed (or_blank (row k t))) t

-- A key that has no row: the overflow key needs no reservation, another one a free place, and
-- without one the observation goes to the overflow key.
abbrev pub observe_new : Table → Key → ℕ → Bool → Table
observe_new t k ns failed =
    if same_key k overflow_key then record_at k ns failed t else elim (reserve_key t) [
      | none ↦ record_at overflow_key ns failed t
      | some t' ↦ record_at k ns failed t'
    ]

-- What follows the look-up of the key's row.
abbrev pub observe_found : Table → Key → ℕ → Bool → Option Stat → Table
observe_found t k ns failed (some s) = record_at k ns failed t
observe_found t k ns failed none = observe_new t k ns failed

unfoldable pub observe_result : Table → Key → ℤ → Bool → Table
observe_result t k d failed = observe_found t k (nanoseconds d) failed (row k t)

abbrev pub observe : Table → Key → ℤ → Table
observe t k d = observe_result t k d false

pub record Entry : Type 0 where
  pub key : Key
  pub count : ℕ
  pub error_count : ℕ
  pub total : ℕ
  pub avg : ℕ
  pub max : ℕ
  pub p95 : ℕ

-- The loop of p95 over the buckets from i on, of which `left` remain.
unfoldable pub p95_from : ℕ → ℕ → Stat → ℕ → ℕ → ℕ
p95_from zero i s target cum = s.max
p95_from (suc left) i s target cum =
    let c = s.buckets i in
    let cum' = add64 cum c in
    let rest = p95_from left (i + 1) s target cum' in
    if ltb 0 c && leb target cum'
    then (if i == 0 then 0 else if i == num_buckets - 1 then s.max else 2 ^ i)
    else rest

-- The product stays in an int64 for counts below 2^56.
unfoldable pub p95 : Stat → ℕ
p95 s = p95_from num_buckets 0 s ((s.count * 95 + 99) / 100) 0

abbrev pub entry_of : Key × Stat → Entry
entry_of (k, s) = record {
  key = k;
  count = s.count;
  error_count = s.error_count;
  total = s.total;
  avg = s.total / s.count;
  max = s.max;
  p95 = p95 s;
}

-- Whether an entry comes before another in a snapshot.
abbrev pub entry_less : Entry → Entry → Bool
entry_less a b = if a.total == b.total then key_less a.key b.key else ltb b.total a.total

abbrev pub insert_entry : Entry → List Entry → List Entry
insert_entry e [] = e ∷ []
insert_entry e (f ∷ fs) = if entry_less f e then f ∷ insert_entry e fs else e ∷ f ∷ fs

-- sort.Slice; the order is strict on entries of different keys, so there is one result.
unfoldable pub sort_entries : List Entry → List Entry
sort_entries [] = []
sort_entries (e ∷ es) = insert_entry e (sort_entries es)

-- The entries of the shards from i on, of which `left` remain.
abbrev pub entries_from : ℕ → ℕ → Table → List Entry
entries_from zero i t = []
entries_from (suc left) i t = map entry_of (t.shards i) ++ entries_from left (i + 1) t

unfoldable pub snapshot : Table → List Entry
snapshot t = sort_entries (entries_from num_shards 0 t)

abbrev pub reset : Table → Table
reset t = record t { keys = 0; shards = λ i. [] }
