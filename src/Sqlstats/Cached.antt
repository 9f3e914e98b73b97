-- ===== src/Sqlstats/Cached.antt =====
-- The cached normalization against the plain one.
use isutools.Prelude.{
  is_some, ℕ, zero, suc, ◌≤◌, ◌≡◌, refl, ap, sym, ◌∙◌, inl, inr, true, List, [], ◌∷◌, map, Option,
  none, some, arith, length, ◌==◌, Bool-cases, All,
}
use isutools.Sqlstats.{
  Bytes, CommentTagPolicy, same_bytes, TextTools, take, with_tag, finish_text, scrub_sql, extracts,
  compute_normalize, Cache, load, store, has_room, load_or_store, count_new, Others, normalize,
  normalize_found, max_query_len, max_cacheable_len,
}

same_bytes-eq : (k l : Bytes) → same_bytes k l ≡ true → k ≡ l
same_bytes-eq [] [] h = refl
same_bytes-eq [] (b ∷ l) h = absurd (cc)
same_bytes-eq (a ∷ k) [] h = absurd (cc)
same_bytes-eq (a ∷ k) (b ∷ l) h = elim (Bool-cases (a == b)) [
  | inl e ↦ let q = same_bytes-eq k l (rw e at h) in let p : a ≡ b = ground (arith, e) in cc
  | inr e ↦ absurd (cc (rw e at h))
]

-- A cache of right answers to statements short enough.
pub record Right (tools : TextTools) (policy : CommentTagPolicy) (c : Cache) : Type 0 where
  pub answers : All (λ e. e.1 ≡ compute_normalize tools e.0 policy) c.entries
  pub cacheable : All (λ e. length e.0 ≤ max_cacheable_len) c.entries

-- Other callers that leave such a cache behind where they find one.
pub record Keep (tools : TextTools) (policy : CommentTagPolicy) (others : Others) : Type 0 where
  pub computing : (c : Cache) → Right tools policy c → Right tools policy (others.while_computing c)
  pub storing : (c : Cache) → Right tools policy c → Right tools policy (others.before_store c)
  pub counting : (c : Cache) → Right tools policy c → Right tools policy (others.before_count c)

-- A call that others interrupt, for each statement.
abbrev pub normalize_all :
    TextTools → CommentTagPolicy → Cache → List (Others × Bytes) → Cache × List Bytes
normalize_all tools policy c [] = (c, [])
normalize_all tools policy c ((others, q) ∷ qs) =
    let (c', n) = normalize tools policy others c q in
    let (c'', ns) = normalize_all tools policy c' qs in (c'', n ∷ ns)

load-Right :
    (tools : TextTools) (policy : CommentTagPolicy) (q n : Bytes) (m : List (Bytes × Bytes))
    → All (λ e. e.1 ≡ compute_normalize tools e.0 policy) m
    → load q m ≡ some n
    → n ≡ compute_normalize tools q policy
load-Right tools policy q n [] a h = absurd (cc h)
load-Right tools policy q n ((k, l) ∷ m) (a, as') h = elim (Bool-cases (same_bytes k q)) [
  | inl e ↦
      let same : l ≡ n = cc (rw e at h) in
      sym same ∙ a ∙ ap (λ x. compute_normalize tools x policy) (same_bytes-eq k q e)
  | inr e ↦ load-Right tools policy q n m as' (rw e at h)
]

stored-Right :
    (tools : TextTools) (policy : CommentTagPolicy) (others : Others) (q : Bytes) (c : Cache)
    → length q ≤ max_cacheable_len
    → Keep tools policy others
    → Right tools policy c
    → Right tools policy (count_new others (load_or_store q (compute_normalize tools q policy) c))
stored-Right tools policy others q c short k h = elim (Bool-cases (is_some (load q c.entries))) [
  | inl e ↦ rw e h
  | inr e ↦
      let n = compute_normalize tools q policy in
      let grown : Cache = record c { entries = (q, n) ∷ c.entries } in
      let r =
        k.counting grown
          (record { answers = (refl, h.answers); cacheable = (short, h.cacheable) }) in
      rw e (record { answers = r.answers; cacheable = r.cacheable })
]

store-Right :
    (tools : TextTools) (policy : CommentTagPolicy) (others : Others) (q : Bytes) (c : Cache)
    → Keep tools policy others
    → Right tools policy c
    → Right tools policy (store others q (compute_normalize tools q policy) c)
store-Right tools policy others q c k h = elim (Bool-cases (has_room q c)) [
  | inl e ↦ rw e (
      stored-Right tools policy others q (others.before_store c) (ground (arith, e)) k
        (k.storing c h))
  | inr e ↦ rw e h
]

normalize_found-Right :
    (tools : TextTools) (policy : CommentTagPolicy) (others : Others) (c : Cache) (q : Bytes)
    (o : Option Bytes)
    → Keep tools policy others
    → Right tools policy c
    → load q c.entries ≡ o
    → Right tools policy (normalize_found tools policy others c q o).0
      × ((normalize_found tools policy others c q o).1 ≡ compute_normalize tools q policy)
normalize_found-Right tools policy others c q none k h e =
    (store-Right tools policy others q (others.while_computing c) k (k.computing c h), refl)
normalize_found-Right tools policy others c q (some n) k h e =
    (h, load-Right tools policy q n c.entries h.answers e)

-- The cached normalization is the plain one: each call gives what computing its statement afresh
-- gives, whatever was normalized before, and whatever other callers do between its operations on
-- the cache as long as they keep the cache right, as a whole call does: its entries are the plain
-- normalizations of statements of at most 4096 bytes. The bound on the number of entries is not
-- stated; callers that check it at once can pass it together.
pub normalize_all-Right :
    (tools : TextTools) (policy : CommentTagPolicy) (qs : List (Others × Bytes)) (c : Cache)
    → All (λ x. Keep tools policy x.0) qs
    → Right tools policy c
    → let r = normalize_all tools policy c qs in
      Right tools policy r.0 × (r.1 ≡ map (λ x. compute_normalize tools x.1 policy) qs)
unfolding normalize
normalize_all-Right tools policy [] c k h = (h, refl)
normalize_all-Right tools policy ((others, q) ∷ qs) c k h =
    let (h', e) = normalize_found-Right tools policy others c q (load q c.entries) k.0 h refl in
    let (h'', es) =
      normalize_all-Right tools policy qs (normalize tools policy others c q).0 k.1 h' in
    (h'', cc (e, es))

take-le : (n : ℕ) (s : Bytes) → length (take n s) ≤ n
take-le zero s = omega arith
take-le (suc n) [] = omega arith
take-le (suc n) (c ∷ s) = omega (arith, take-le n s)

finish_text-le :
    (tools : TextTools) (o : Option (Bytes × Bytes)) → length (finish_text tools o) ≤ max_query_len
finish_text-le tools none = omega arith
finish_text-le tools (some (s, tag)) = take-le max_query_len (
    with_tag tag (tools.mask_placeholders (tools.mask_numbers (tools.mask_hex (tools.collapse s)))))

-- Every normalized statement, with its tag, has at most 1000 bytes.
pub length-compute_normalize :
    (tools : TextTools) (q : Bytes) (policy : CommentTagPolicy)
    → length (compute_normalize tools q policy) ≤ max_query_len
unfolding compute_normalize
length-compute_normalize tools q policy =
    finish_text-le tools (scrub_sql tools.trim q (extracts policy))
