-- ===== src/Agg/Account.antt =====
-- What the table promises: an account of every observation under the key it is filed under.
use isutools.Prelude.{
  ℕ, ◌+◌, ◌%◌, max, Bool, false, ◌||◌, List, [], ◌∷◌, Option, none, some, length, leb, ◌==◌,
  if◌then◌else◌,
}
use isutools.Prelude.Int.{ℤ, word_mod}
use isutools.Agg.{
  Key, Stat, Table, same_key, overflow_key, bucket_for, nanoseconds, one_if, observe_result,
}

-- A call of ObserveResult.
pub record Observation : Type 0 where
  pub key : Key
  pub duration : ℤ
  pub failed : Bool

abbrev pub observe_all : Table → List Observation → Table
observe_all t [] = t
observe_all t (o ∷ os) = observe_all (observe_result t o.key o.duration o.failed) os

-- An observation as it is filed.
pub record Sample : Type 0 where
  pub filed : Key
  pub ns : ℕ
  pub failed : Bool

-- The keys let in, without the overflow key, and the samples, the last one first.
pub record Account : Type 0 where
  pub admitted : List Key
  pub samples : List Sample

abbrev pub is_admitted : Key → List Key → Bool
is_admitted k [] = false
is_admitted k (j ∷ js) = same_key j k || is_admitted k js

abbrev pub file : Key → Observation → List Sample → List Sample
file k o ss = record { filed = k; ns = nanoseconds o.duration; failed = o.failed } ∷ ss

abbrev pub account_one : ℕ → Observation → Account → Account
account_one max_keys o a =
    if same_key o.key overflow_key || is_admitted o.key a.admitted
    then record a { samples = file o.key o a.samples }
    else if leb max_keys (length a.admitted)
    then record a { samples = file overflow_key o a.samples }
    else record { admitted = o.key ∷ a.admitted; samples = file o.key o a.samples }

abbrev pub account_all : ℕ → Account → List Observation → Account
account_all max_keys a [] = a
account_all max_keys a (o ∷ os) = account_all max_keys (account_one max_keys o a) os

abbrev pub no_account : Account
no_account = record { admitted = []; samples = [] }

-- The samples of one key.
abbrev pub filed_under : Key → List Sample → List Sample
filed_under k [] = []
filed_under k (s ∷ ss) =
    let rest = filed_under k ss in if same_key s.filed k then s ∷ rest else rest

abbrev pub failures : List Sample → ℕ
failures [] = 0
failures (s ∷ ss) = one_if s.failed + failures ss

abbrev pub time_of : List Sample → ℕ
time_of [] = 0
time_of (s ∷ ss) = s.ns + time_of ss

abbrev pub longest : List Sample → ℕ
longest [] = 0
longest (s ∷ ss) = max s.ns (longest ss)

abbrev pub in_bucket : ℕ → List Sample → ℕ
in_bucket i [] = 0
in_bucket i (s ∷ ss) = (if i == bucket_for s.ns then 1 else 0) + in_bucket i ss

-- The statistics of a list of samples, each by its own definition.
abbrev pub stat_of : List Sample → Stat
stat_of ss = record {
  count = length ss % word_mod;
  error_count = failures ss % word_mod;
  total = time_of ss % word_mod;
  max = longest ss;
  buckets = λ i. in_bucket i ss % word_mod;
}

abbrev pub row_of : List Sample → Option Stat
row_of [] = none
row_of (s ∷ ss) = some (stat_of (s ∷ ss))
