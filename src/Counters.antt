-- ===== src/Counters.antt =====
-- counters/counters.go, and `rotate` and `sortedEntries` of counters/generation.go: named counters.
-- A name is its bytes. Go's map is an association list with each name once. A count is an int64,
-- held as its bit pattern. strings.TrimSpace is an argument.
pub mod Collector
pub mod Conservation
pub mod Store
pub mod Boundaries
pub mod Lifecycle
pub mod Run
mod Examples
use isutools.Prelude.{
  ℕ, zero, suc, ◌+◌, ◌%◌, String, Bool, true, false, not, ◌&&◌, ◌||◌, List, [], ◌∷◌, Option, none,
  some, length, ltb, leb, ◌==◌, if◌then◌else◌, str_eq, find?,
}
use isutools.Prelude.Int.{ℤ, ltb_ℤ, to_word, of_word, word_mod}
use isutools.Runctl.Types.{
  Epoch, Time, Phase, start_boundary, finish_freeze, GenerationHandle, BoundaryResult,
}

abbrev pub Name : Type 0
Name = List ℕ

abbrev pub same_name : Name → Name → Bool
same_name [] [] = true
same_name (a ∷ k) (b ∷ l) = a == b && same_name k l
same_name _ _ = false

-- The order of Go's strings.
abbrev pub name_less : Name → Name → Bool
name_less [] [] = false
name_less [] (b ∷ l) = true
name_less (a ∷ k) [] = false
name_less (a ∷ k) (b ∷ l) = if a == b then name_less k l else ltb a b

abbrev pub default_max_names : ℕ
default_max_names = 1024

abbrev pub max_name_bytes : ℕ
max_name_bytes = 128

-- "(other)"
abbrev pub overflow_name : Name
overflow_name = 40 ∷ 111 ∷ 116 ∷ 104 ∷ 101 ∷ 114 ∷ 41 ∷ []

pub record Entry : Type 0 where
  pub name : Name
  pub count : ℤ

abbrev pub Counts : Type 0
Counts = List (Name × ℕ)

pub record Registry : Type 0 where
  pub counts : Counts
  pub dropped : ℕ

abbrev pub new_registry : Registry
new_registry = record { counts = []; dropped = 0 }

abbrev pub exists : Name → Counts → Bool
exists n [] = false
exists n ((k, c) ∷ m) = same_name k n || exists n m

-- `counts[name] += delta`
abbrev pub add_count : Name → ℕ → Counts → Counts
add_count n d [] = (n, d % word_mod) ∷ []
add_count n d ((k, c) ∷ m) =
    if same_name k n then (k, (c + d) % word_mod) ∷ m else (k, c) ∷ add_count n d m

abbrev pub is_empty : Name → Bool
is_empty [] = true
is_empty (b ∷ n) = false

-- Whether an observation of a trimmed name is merged into the overflow name.
abbrev pub overflows : Counts → Name → Bool
overflows m n =
    is_empty n
    || ltb max_name_bytes (length n)
    || not (exists n m) && leb default_max_names (length m)

unfoldable pub add : (Name → Name) → Registry → Name → ℤ → Registry
add trim r name delta =
    let n = trim name in
    if overflows r.counts n
    then record {
      counts = add_count overflow_name (to_word delta) r.counts;
      dropped = (r.dropped + 1) % word_mod;
    }
    else record r { counts = add_count n (to_word delta) r.counts }

-- Whether an entry comes before another.
abbrev pub entry_less : Entry → Entry → Bool
entry_less a b =
    if not (ltb_ℤ a.count b.count) && not (ltb_ℤ b.count a.count)
    then name_less a.name b.name
    else ltb_ℤ b.count a.count

abbrev pub insert_entry : Entry → List Entry → List Entry
insert_entry e [] = e ∷ []
insert_entry e (f ∷ fs) = if entry_less f e then f ∷ insert_entry e fs else e ∷ f ∷ fs

-- sort.Slice of the entries; the order is strict on different names, so there is one result.
unfoldable pub sorted_entries : Counts → List Entry
sorted_entries [] = []
sorted_entries ((n, c) ∷ m) = insert_entry record { name = n; count = of_word c } (sorted_entries m)

abbrev pub snapshot : Registry → List Entry
snapshot r = sorted_entries r.counts

abbrev pub reset : Registry → Registry
reset r = new_registry

-- Swaps an empty table in, with the table that was replaced.
abbrev pub rotate : Registry → Registry × Counts × ℕ
rotate r = (new_registry, r.counts, r.dropped)
