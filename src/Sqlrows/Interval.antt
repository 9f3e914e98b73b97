-- ===== src/Sqlrows/Interval.antt =====
-- sqlrows/delta.go: an interval that is published is the exact difference of the two readings.
use isutools.Prelude.{
  ℕ, ◌+◌, ◌<◌, Bool, true, false, ◌&&◌, List, [], ◌∷◌, Option, none, some, ◌≡◌, refl, ◌≢◌, inl, inr,
  ◌==◌, leb, Bool-cases, arith, All, Any, All-map, is_some, zero, suc,
}
use isutools.Prelude.Int.{word_mod}
use isutools.Agg.{Key, key_less}
use isutools.Sqlrows.{
  DigestRow, zero_row, sub64, sub_row, advanced_from, get, smaller, lost_digest, rewound_digest,
  is_rewound, interval_row, interval_digests, insert_digest, active_digests, take, ranks_before,
}

-- A row whose counters are uint64.
pub record Fits (r : DigestRow) : Type 0 where
  pub count_fits : r.count_star < word_mod
  pub timer_fits : r.timer_wait < word_mod
  pub examined_fits : r.rows_examined < word_mod
  pub sent_fits : r.rows_sent < word_mod
  pub affected_fits : r.rows_affected < word_mod
  pub tables_fit : r.created_tmp_disk_tables < word_mod
  pub merges_fit : r.sort_merge_passes < word_mod
  pub no_index_fits : r.no_index_used < word_mod
  pub no_good_index_fits : r.no_good_index_used < word_mod

-- The sum of two rows, in which nothing wraps.
abbrev pub add_row : DigestRow → DigestRow → DigestRow
add_row r s = record {
  count_star = r.count_star + s.count_star;
  timer_wait = r.timer_wait + s.timer_wait;
  rows_examined = r.rows_examined + s.rows_examined;
  rows_sent = r.rows_sent + s.rows_sent;
  rows_affected = r.rows_affected + s.rows_affected;
  created_tmp_disk_tables = r.created_tmp_disk_tables + s.created_tmp_disk_tables;
  sort_merge_passes = r.sort_merge_passes + s.sort_merge_passes;
  no_index_used = r.no_index_used + s.no_index_used;
  no_good_index_used = r.no_good_index_used + s.no_good_index_used;
}

abbrev pub or_zero : Option DigestRow → DigestRow
or_zero none = zero_row
or_zero (some r) = r

sub64_add : (a b : ℕ) → a < word_mod → leb b a ≡ true → sub64 a b + b ≡ a
sub64_add a b h l = ground arith

split_and : (a b : Bool) → (a && b) ≡ true → (a ≡ true) × (b ≡ true)
split_and true b h = (refl, h)
split_and false b h = absurd (cc)

row_ext :
    (r s : DigestRow)
    → r.count_star ≡ s.count_star
    → r.timer_wait ≡ s.timer_wait
    → r.rows_examined ≡ s.rows_examined
    → r.rows_sent ≡ s.rows_sent
    → r.rows_affected ≡ s.rows_affected
    → r.created_tmp_disk_tables ≡ s.created_tmp_disk_tables
    → r.sort_merge_passes ≡ s.sort_merge_passes
    → r.no_index_used ≡ s.no_index_used
    → r.no_good_index_used ≡ s.no_good_index_used
    → r ≡ s
row_ext r s a b c d e f g h j = λ i. record {
  count_star = a i;
  timer_wait = b i;
  rows_examined = c i;
  rows_sent = d i;
  rows_affected = e i;
  created_tmp_disk_tables = f i;
  sort_merge_passes = g i;
  no_index_used = h i;
  no_good_index_used = j i;
}

add_row-sub : (r s : DigestRow) → Fits r → advanced_from r s ≡ true → add_row (sub_row r s) s ≡ r
add_row-sub r s f h0 =
    let h1 = split_and _ _ h0 in
    let h2 = split_and _ _ h1.0 in
    let h3 = split_and _ _ h2.0 in
    let h4 = split_and _ _ h3.0 in
    let h5 = split_and _ _ h4.0 in
    let h6 = split_and _ _ h5.0 in
    let h7 = split_and _ _ h6.0 in
    let h8 = split_and _ _ h7.0 in
    row_ext _ _ (sub64_add r.count_star s.count_star f.count_fits h8.0)
      (sub64_add r.timer_wait s.timer_wait f.timer_fits h8.1)
      (sub64_add r.rows_examined s.rows_examined f.examined_fits h7.1)
      (sub64_add r.rows_sent s.rows_sent f.sent_fits h6.1)
      (sub64_add r.rows_affected s.rows_affected f.affected_fits h5.1)
      (sub64_add r.created_tmp_disk_tables s.created_tmp_disk_tables f.tables_fit h4.1)
      (sub64_add r.sort_merge_passes s.sort_merge_passes f.merges_fit h3.1)
      (sub64_add r.no_index_used s.no_index_used f.no_index_fits h2.1)
      (sub64_add r.no_good_index_used s.no_good_index_used f.no_good_index_fits h1.1)

add_row_zero : (r : DigestRow) → add_row r zero_row ≡ r
add_row_zero r =
    row_ext _ _ (omega arith) (omega arith) (omega arith) (omega arith) (omega arith) (omega arith)
      (omega arith) (omega arith) (omega arith)

pub add_row-interval :
    (r : DigestRow) (o : Option DigestRow)
    → Fits r
    → is_rewound r o ≡ false
    → add_row (interval_row r o) (or_zero o) ≡ r
add_row-interval r none f h = add_row_zero r
add_row-interval r (some s) f h = elim (Bool-cases (advanced_from r s)) [
  | inl e ↦ rw e (add_row-sub r s f e)
  | inr e ↦ absurd (cc (h, e))
]

-- What the loops say when they find nothing.
smaller-found : (d found : Key) → smaller d found ≡ [] → d ≡ []
smaller-found d [] h = h
smaller-found d (a ∷ k) h = elim (Bool-cases (key_less d (a ∷ k))) [
  | inl e ↦ rw e at h
  | inr e ↦ absurd (cc (rw e at h))
]

abbrev pub IsNamed {ℓ} : {A : Type ℓ} → Key × A → Type 0
IsNamed p = p.0 ≢ []

pub lost_digest-start :
    (lost : Key) (base final : List (Key × DigestRow))
    → All IsNamed base
    → lost_digest lost base final ≡ []
    → (lost ≡ []) × All (λ p. is_some (get p.0 final) ≡ true) base
unfolding lost_digest
lost_digest-start lost [] final n h = (h, tt)
lost_digest-start lost ((d, r) ∷ base) final n h = elim (Bool-cases (is_some (get d final))) [
  | inl e ↦ let q = lost_digest-start lost base final n.1 (rw e at h) in (q.0, (e, q.1))
  | inr e ↦
      let q = lost_digest-start (smaller d lost) base final n.1 (rw e at h) in
      absurd (n.0 (smaller-found d lost q.0))
]

pub rewound_digest-start :
    (rewound : Key) (base final : List (Key × DigestRow))
    → All IsNamed final
    → rewound_digest rewound base final ≡ []
    → (rewound ≡ []) × All (λ p. is_rewound p.1 (get p.0 base) ≡ false) final
unfolding rewound_digest
rewound_digest-start rewound base [] n h = (h, tt)
rewound_digest-start rewound base ((d, r) ∷ final) n h =
    elim (Bool-cases (is_rewound r (get d base))) [
      | inr e ↦ let q = rewound_digest-start rewound base final n.1 (rw e at h) in (q.0, (e, q.1))
      | inl e ↦
          let q = rewound_digest-start (smaller d rewound) base final n.1 (rw e at h) in
          absurd (n.0 (smaller-found d rewound q.0))
    ]

-- The row over the interval and the one at its beginning add up to the one at its end.
abbrev pub AddsUp : List (Key × DigestRow) → List (Key × DigestRow) → Key × DigestRow → Type 0
AddsUp base final p = Any (λ q. (q.0 ≡ p.0) × (add_row p.1 (or_zero (get p.0 base)) ≡ q.1)) final

pub interval_digests-AddsUp :
    (base final : List (Key × DigestRow))
    → All (λ p. Fits p.1) final
    → All (λ p. is_rewound p.1 (get p.0 base) ≡ false) final
    → All (AddsUp base final) (interval_digests base final)
interval_digests-AddsUp base [] f h = tt
interval_digests-AddsUp base ((d, r) ∷ final) f h = (
  inl (refl, add_row-interval r (get d base) f.0 h.0),
  All-map (AddsUp base final) (AddsUp base ((d, r) ∷ final)) (λ p. inr)
      (interval_digests base final) (interval_digests-AddsUp base final f.1 h.1),
)

All-insert_digest {ℓ} :
    (P : Key × DigestRow → Type ℓ) (x : Key × DigestRow) (ys : List (Key × DigestRow))
    → P x
    → All P ys
    → All P (insert_digest x ys)
All-insert_digest P x [] px h = (px, tt)
All-insert_digest P x (y ∷ ys) px h = elim (Bool-cases (ranks_before y x)) [
  | inl e ↦ rw e (h.0, All-insert_digest P x ys px h.1)
  | inr e ↦ rw e (px, h)
]

pub All-active_digests {ℓ} :
    (P : Key × DigestRow → Type ℓ) (m : List (Key × DigestRow)) → All P m → All P (active_digests m)
unfolding active_digests
All-active_digests P [] h = tt
All-active_digests P ((d, r) ∷ m) h = elim (Bool-cases (r.count_star == 0)) [
  | inl e ↦ rw e (All-active_digests P m h.1)
  | inr e ↦ rw e (All-insert_digest P (d, r) (active_digests m) h.0 (All-active_digests P m h.1))
]

pub All-take {ℓ κ} :
    {A : Type ℓ} (P : A → Type κ) (n : ℕ) (xs : List A) → All P xs → All P (take n xs)
All-take P zero xs h = tt
All-take P (suc n) [] h = tt
All-take P (suc n) (x ∷ xs) h = (h.0, All-take P n xs h.1)
