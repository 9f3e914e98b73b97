-- ===== src/Sqlstats.antt =====
-- sqlstats/normalize.go: the statement text that statistics are kept under, and its cache.
-- A statement is its bytes, and a position of the loop is what is left of the statement there.
-- strings.TrimSpace, strings.Fields and the three regular expressions that mask numbers, hex
-- literals and lists of placeholders are arguments. The environment variable is read before.
pub mod Turns
pub mod Total
pub mod Clean
pub mod Literals
pub mod Cached
pub mod Store
pub mod Rotation
pub mod Report
mod Examples
use isutools.Prelude.{
  ℕ, zero, suc, ◌+◌, Bool, true, false, not, ◌&&◌, ◌||◌, List, [], ◌∷◌, ◌++◌, Option, none, some,
  length, ltb, leb, ◌==◌, if◌then◌else◌, is_some,
}

abbrev pub Bytes : Type 0
Bytes = List ℕ

abbrev pub max_query_len : ℕ
max_query_len = 1000

abbrev pub max_cache_entries : ℕ
max_cache_entries = 50000

abbrev pub max_cacheable_len : ℕ
max_cacheable_len = 4096

abbrev pub max_tag_len : ℕ
max_tag_len = 64

pub data CommentTagPolicy : Type 0 where
  comment_tags_on comment_tags_off : CommentTagPolicy

abbrev pub same_bytes : Bytes → Bytes → Bool
same_bytes [] [] = true
same_bytes (a ∷ k) (b ∷ l) = a == b && same_bytes k l
same_bytes _ _ = false

abbrev pub is_empty : Bytes → Bool
is_empty [] = true
is_empty (c ∷ q) = false

-- Whether a byte comes next.
abbrev pub starts : ℕ → Bytes → Bool
starts b [] = false
starts b (c ∷ q) = c == b

abbrev pub tail : Bytes → Bytes
tail [] = []
tail (c ∷ q) = q

abbrev pub put_before : ℕ → Option (Bytes × Bytes) → Option (Bytes × Bytes)
put_before c none = none
put_before c (some (l, r)) = some (c ∷ l, r)

-- strings.IndexByte: what stands before the first such byte, and after it.
abbrev pub cut_at : ℕ → Bytes → Option (Bytes × Bytes)
cut_at b [] = none
cut_at b (c ∷ q) = let rest = cut_at b q in if c == b then some ([], q) else put_before c rest

-- What follows a prefix.
abbrev pub strip_prefix : Bytes → Bytes → Option Bytes
strip_prefix [] q = some q
strip_prefix (d ∷ ds) [] = none
strip_prefix (d ∷ ds) (c ∷ q) = let rest = strip_prefix ds q in if c == d then rest else none

abbrev pub or_later : Option Bytes → Option (Bytes × Bytes) → Option (Bytes × Bytes)
or_later (some rest) later = some ([], rest)
or_later none later = later

-- strings.Index: what stands before the first such part, and after it.
unfoldable pub split_on : Bytes → Bytes → Option (Bytes × Bytes)
split_on d [] = or_later (strip_prefix d []) none
split_on d (c ∷ q) = or_later (strip_prefix d (c ∷ q)) (put_before c (split_on d q))

abbrev pub is_letter : ℕ → Bool
is_letter c = leb b'a' c && leb c b'z' || leb b'A' c && leb c b'Z'

abbrev pub is_digit : ℕ → Bool
is_digit c = leb b'0' c && leb c b'9'

-- safeTag: a letter or an underscore, then up to 63 bytes of a name.
abbrev pub all_tag_bytes : Bytes → Bool
all_tag_bytes [] = true
all_tag_bytes (c ∷ q) =
    (is_letter c || is_digit c || c == b'_' || c == b'.' || c == b':' || c == b'-')
    && all_tag_bytes q

abbrev pub is_safe_tag : Bytes → Bool
is_safe_tag [] = false
is_safe_tag (c ∷ q) = (is_letter c || c == b'_') && leb (length q) 63 && all_tag_bytes q

-- What follows a quoted literal, from after its opening quote on.
unfoldable pub skip_quoted : ℕ → Bytes → Bytes
skip_quoted quote [] = []
skip_quoted quote (c ∷ []) = []
skip_quoted quote (c ∷ (d ∷ q)) =
    let after_two = skip_quoted quote q in
    let after_one = skip_quoted quote (d ∷ q) in
    if c == b'\\'
    then after_two
    else if c == quote
    then (if d == quote then after_two else d ∷ q)
    else after_one

abbrev pub is_dollar_tag_byte : Bool → ℕ → Bool
is_dollar_tag_byte first c = is_letter c || c == b'_' || not first && is_digit c

abbrev pub all_dollar_tag_bytes : Bool → Bytes → Bool
all_dollar_tag_bytes first [] = true
all_dollar_tag_bytes first (c ∷ q) = is_dollar_tag_byte first c && all_dollar_tag_bytes false q

-- The name of a dollar quote that opens here, after its first dollar, and what follows.
abbrev pub good_name : Option (Bytes × Bytes) → Option (Bytes × Bytes)
good_name none = none
good_name (some (name, rest)) =
    if not (ltb 64 (length name)) && all_dollar_tag_bytes true name then some (name, rest) else none

abbrev pub dollar_name : Bytes → Option (Bytes × Bytes)
dollar_name q = good_name (cut_at b'$' q)

abbrev pub rest_of : Option (Bytes × Bytes) → Bytes
rest_of none = []
rest_of (some (body, rest)) = rest

-- What follows a dollar quoted literal, after the name of its opening delimiter.
unfoldable pub skip_dollar_quoted : Bytes → Bytes → Bytes
skip_dollar_quoted name q = rest_of (split_on (b'$' ∷ (name ++ b'$' ∷ [])) q)

-- What one round of the loop does: it ends the loop with its last bytes, or writes one byte and
-- goes on, with the tag found so far and what is left.
pub data Turn : Type 0 where
  ends : Bytes → Turn
  goes : ℕ → Bytes → Bytes → Turn

abbrev pub comment_tag : (Bytes → Bytes) → Bool → Bytes → Bytes → Bytes
comment_tag trim extract tag comment =
    let c = trim comment in
    if extract && is_empty tag && leb (length c) max_tag_len && is_safe_tag c then c else tag

abbrev pub block_comment : (Bytes → Bytes) → Bool → Bytes → Option (Bytes × Bytes) → Turn
block_comment trim extract tag none = ends (b' ' ∷ [])
block_comment trim extract tag (some (comment, rest)) =
    goes b' ' (comment_tag trim extract tag comment) rest

abbrev pub line_comment : Bytes → Option (Bytes × Bytes) → Turn
line_comment tag none = ends []
line_comment tag (some (comment, rest)) = goes b' ' tag rest

abbrev pub dollar : Bytes → Bytes → Option (Bytes × Bytes) → Turn
dollar tag q none = goes b'$' tag q
dollar tag q (some (name, rest)) = goes b'?' tag (skip_dollar_quoted name rest)

-- One round at a byte and what follows it.
unfoldable pub turn : (Bytes → Bytes) → Bool → Bytes → ℕ → Bytes → Turn
turn trim extract tag c q =
    if c == b'/' && starts b'*' q
    then block_comment trim extract tag (split_on (b'*' ∷ b'/' ∷ []) (tail q))
    else if c == b'-' && starts b'-' q
    then line_comment tag (cut_at b'\n' (tail q))
    else if c == b'#'
    then line_comment tag (cut_at b'\n' q)
    else if c == b'\''
    then goes b'?' tag (skip_quoted b'\'' q)
    else if c == b'$'
    then dollar tag q (dollar_name q)
    else goes c tag q

-- The text and the tag, where the loop has come to an end.
abbrev pub write : ℕ → Option (Bytes × Bytes) → Option (Bytes × Bytes)
write c none = none
write c (some (out, tag)) = some (c ∷ out, tag)

abbrev pub then_on :
    (Bytes → Bytes → Option (Bytes × Bytes)) → Bytes → Turn → Option (Bytes × Bytes)
then_on loop tag (ends out) = some (out, tag)
then_on loop tag (goes b tag' rest) = write b (loop tag' rest)

-- The loop, with the rounds that it may take; none if they do not suffice.
unfoldable pub scrub_from : ℕ → (Bytes → Bytes) → Bool → Bytes → Bytes → Option (Bytes × Bytes)
scrub_from fuel trim extract tag [] = some ([], tag)
scrub_from zero trim extract tag (c ∷ q) = none
scrub_from (suc fuel) trim extract tag (c ∷ q) =
    then_on (scrub_from fuel trim extract) tag (turn trim extract tag c q)

abbrev pub scrub_sql : (Bytes → Bytes) → Bytes → Bool → Option (Bytes × Bytes)
scrub_sql trim q extract = scrub_from (length q) trim extract [] q

-- strings.Fields joined by spaces, the masks of the three expressions, and strings.TrimSpace.
pub record TextTools : Type 0 where
  pub trim : Bytes → Bytes
  pub collapse : Bytes → Bytes
  pub mask_hex : Bytes → Bytes
  pub mask_numbers : Bytes → Bytes
  pub mask_placeholders : Bytes → Bytes

abbrev pub with_tag : Bytes → Bytes → Bytes
with_tag [] s = s
with_tag (c ∷ tag) s = b'[' ∷ (c ∷ tag ++ b']' ∷ (b' ' ∷ s))

-- The first bytes of a text.
abbrev pub take : ℕ → Bytes → Bytes
take zero s = []
take (suc n) [] = []
take (suc n) (c ∷ s) = c ∷ take n s

abbrev pub extracts : CommentTagPolicy → Bool
extracts comment_tags_on = true
extracts comment_tags_off = false

abbrev pub finish_text : TextTools → Option (Bytes × Bytes) → Bytes
finish_text tools none = []
finish_text tools (some (s, tag)) =
    let masked = tools.mask_placeholders (tools.mask_numbers (tools.mask_hex (tools.collapse s))) in
    take max_query_len (with_tag tag masked)

unfoldable pub compute_normalize : TextTools → Bytes → CommentTagPolicy → Bytes
compute_normalize tools q policy = finish_text tools (scrub_sql tools.trim q (extracts policy))

-- The cache and the count of its entries. The policy of the process does not change.
pub record Cache : Type 0 where
  pub entries : List (Bytes × Bytes)
  pub size : ℕ

abbrev pub load : Bytes → List (Bytes × Bytes) → Option Bytes
load q [] = none
load q ((k, n) ∷ m) = if same_bytes k q then some n else load q m

abbrev pub has_room : Bytes → Cache → Bool
has_room q c = leb (length q) max_cacheable_len && ltb c.size max_cache_entries

-- LoadOrStore, with whether the key was there.
abbrev pub load_or_store : Bytes → Bytes → Cache → Cache × Bool
load_or_store q n c =
    if is_some (load q c.entries)
    then (c, true)
    else (record c { entries = (q, n) ∷ c.entries }, false)

abbrev pub add_one : Cache → Cache
add_one c = record c { size = c.size + 1 }

-- What other callers do to the cache between the operations of a call, which holds no lock: after
-- its Load, after its check for room, and after its LoadOrStore.
pub record Others : Type 0 where
  pub while_computing : Cache → Cache
  pub before_store : Cache → Cache
  pub before_count : Cache → Cache

abbrev pub count_new : Others → Cache × Bool → Cache
count_new others (c, loaded) = if loaded then c else add_one (others.before_count c)

abbrev pub store : Others → Bytes → Bytes → Cache → Cache
store others q n c =
    if has_room q c then count_new others (load_or_store q n (others.before_store c)) else c

abbrev pub normalize_found :
    TextTools → CommentTagPolicy → Others → Cache → Bytes → Option Bytes → Cache × Bytes
normalize_found tools policy others c q (some n) = (c, n)
normalize_found tools policy others c q none =
    let n = compute_normalize tools q policy in (store others q n (others.while_computing c), n)

unfoldable pub normalize : TextTools → CommentTagPolicy → Others → Cache → Bytes → Cache × Bytes
normalize tools policy others c q = normalize_found tools policy others c q (load q c.entries)
