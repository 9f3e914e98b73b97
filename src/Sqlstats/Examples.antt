-- ===== src/Sqlstats/Examples.antt =====
-- A statement with a literal, a comment tag and a line comment, and a store with two queries.
use isutools.Prelude.{◌≡◌, ◌≤◌, refl, true, false, List, [], ◌∷◌, ◌++◌, map, some, length, arith}
use isutools.Prelude.Int.{pos}
use isutools.Agg.{snapshot, new_table}
use isutools.Agg.Account.{observe_all}
use isutools.Generation.{freeze, acquire, swap, finish}
use isutools.Sqlstats.{
  Bytes, TextTools, comment_tags_on, Cache, Others, normalize, compute_normalize, scrub_from,
  scrub_sql, turn, split_on, skip_quoted, write,
}
use isutools.Sqlstats.Total.{Done, scrub_sql-Done}
use isutools.Sqlstats.Clean.{Plain, scrub_sql_idem}
use isutools.Sqlstats.Literals.{escape, write_all, scrub_sql-literal}
use isutools.Sqlstats.Cached.{Right, Keep, normalize_all, normalize_all-Right}
use isutools.Sqlstats.Store.{Store, new_store}
use isutools.Sqlstats.Rotation.{Event, begins, ends, rotates, happen_all, no_ledger, note_all}
use isutools.Sqlstats.Report.{freeze-happen_all}

abbrev as_is : Bytes → Bytes
as_is q = q

-- /*t*/a='b''c'
abbrev statement : Bytes
statement =
    b'/' ∷ b'*' ∷ b't' ∷ b'*' ∷ b'/' ∷ b'a' ∷ b'=' ∷ b'\'' ∷ b'b' ∷ b'\'' ∷ b'\'' ∷ b'c' ∷ b'\''
    ∷ []

abbrev scrubbed : Bytes
scrubbed = b' ' ∷ b'a' ∷ b'=' ∷ b'?' ∷ []

scrub_sql-statement : scrub_sql as_is statement true ≡ some (scrubbed, b't' ∷ [])
unfolding scrub_from turn split_on skip_quoted
scrub_sql-statement = refl

scrub_sql-Done_example :
    Done (length statement) (scrub_sql as_is statement true)
    × (scrub_from 20 as_is true [] statement ≡ scrub_sql as_is statement true)
scrub_sql-Done_example = scrub_sql-Done 20 as_is true statement (omega arith)

scrub_sql_idem_example : Plain scrubbed × (scrub_sql as_is scrubbed false ≡ some (scrubbed, []))
scrub_sql_idem_example =
    scrub_sql_idem as_is true false statement scrubbed (b't' ∷ []) scrub_sql-statement

abbrev before : Bytes
before = b'a' ∷ b'=' ∷ []

abbrev value : Bytes
value = b'#' ∷ b'\'' ∷ b'\\' ∷ []

abbrev behind : Bytes
behind = b'#' ∷ b'x' ∷ []

scrub_sql-literal_example :
    scrub_sql as_is (before ++ b'\'' ∷ (escape true value ++ b'\'' ∷ behind)) true
    ≡ write_all before (write b'?' (scrub_sql as_is behind true))
scrub_sql-literal_example =
    scrub_sql-literal as_is true true before value behind (refl, (refl, tt)) refl

abbrev tools : TextTools
tools = record {
  trim = as_is;
  collapse = as_is;
  mask_hex = as_is;
  mask_numbers = as_is;
  mask_placeholders = as_is;
}

abbrev no_cache : Cache
no_cache = record { entries = []; size = 0 }

no_cache-Right : Right tools comment_tags_on no_cache
no_cache-Right = record { answers = tt; cacheable = tt }

-- A caller that is alone, and one that another one interrupts with the same statement.
abbrev alone : Others
alone = record { while_computing = λ c. c; before_store = λ c. c; before_count = λ c. c }

abbrev crowded : Others
crowded = record alone { before_store = λ c. (normalize tools comment_tags_on alone c statement).0 }

alone-Keep : Keep tools comment_tags_on alone
alone-Keep = record { computing = λ c h. h; storing = λ c h. h; counting = λ c h. h }

crowded-Keep : Keep tools comment_tags_on crowded
crowded-Keep = record {
  computing = λ c h. h;
  storing = λ c h.
      (normalize_all-Right tools comment_tags_on ((alone, statement) ∷ []) c (alone-Keep, tt) h).0;
  counting = λ c h. h;
}

abbrev calls : List (Others × Bytes)
calls = (crowded, statement) ∷ (alone, before) ∷ (alone, statement) ∷ []

normalize_all-Right_example :
    let r = normalize_all tools comment_tags_on no_cache calls in
    Right tools comment_tags_on r.0
    × (r.1 ≡ map (λ x. compute_normalize tools x.1 comment_tags_on) calls)
normalize_all-Right_example =
    normalize_all-Right tools comment_tags_on calls no_cache
      (crowded-Keep, (alone-Keep, (alone-Keep, tt))) no_cache-Right

-- Two queries begin, one ends, the generation is closed, the other one ends late.
abbrev events : List Event
events =
    begins
    ∷ begins
    ∷ ends 1 (record { key = before; duration = pos 5; failed = false })
    ∷ rotates
    ∷ ends 0 (record { key = scrubbed; duration = pos 9; failed = true })
    ∷ []

abbrev seen : Store
seen = happen_all 8 events (new_store 8)

zero_le : 0 ≤ seen.current
zero_le = omega arith

not_cut : (freeze snapshot seen (happen_all 8 (begins ∷ []) seen) 0).cut_short ≡ false
unfolding freeze acquire swap finish
not_cut = refl

freeze-happen_all_example :
    (freeze snapshot
      (happen_all 8 events (new_store 8))
      (happen_all 8 (begins ∷ []) (happen_all 8 events (new_store 8)))
      0).value
    ≡ snapshot (observe_all (new_table 8) ((note_all events no_ledger).filed 0))
freeze-happen_all_example = freeze-happen_all 8 events (begins ∷ []) 0 zero_le not_cut
