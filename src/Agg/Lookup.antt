-- ===== src/Agg/Lookup.antt =====
-- Rows of the table by key: a write of one key's row leaves the other keys' rows alone.
use isutools.Prelude.{
  ℕ, ◌≡◌, refl, ap, sym, ◌∙◌, inl, inr, true, false, [], ◌∷◌, some, arith, ◌==◌, if◌then◌else◌,
  Bool-cases,
}
use isutools.Agg.{Key, Stat, Stats, Table, same_key, stats_get, stats_put, row, put_row, shard_of}

pub same_key_refl : (k : Key) → same_key k k ≡ true
same_key_refl [] = refl
same_key_refl (a ∷ k) = ground (arith, same_key_refl k)

pub same_key-eq : (k l : Key) → same_key k l ≡ true → k ≡ l
same_key-eq [] [] h = refl
same_key-eq [] (b ∷ l) h = absurd (cc)
same_key-eq (a ∷ k) [] h = absurd (cc)
same_key-eq (a ∷ k) (b ∷ l) h = elim (Bool-cases (a == b)) [
  | inl e ↦ let q = same_key-eq k l (rw e at h) in let p : a ≡ b = ground (arith, e) in cc
  | inr e ↦ absurd (cc (rw e at h))
]

-- Equality of keys, with a third one.
pub same_key_trans :
    (i j k : Key) → same_key i j ≡ true → same_key i k ≡ false → same_key k j ≡ false
same_key_trans i j k h n = elim (Bool-cases (same_key k j)) [
  | inl w ↦
      let e : i ≡ k = same_key-eq i j h ∙ sym (same_key-eq k j w) in
      let f : same_key i k ≡ true = ap (same_key i) (sym e) ∙ same_key_refl i in absurd (cc (n, f))
  | inr w ↦ w
]

stats_get-put :
    (k j : Key) (s : Stat) (m : Stats)
    → stats_get j (stats_put k s m) ≡ (if same_key k j then some s else stats_get j m)
stats_get-put k j s [] = refl
stats_get-put k j s ((i, r) ∷ m) = elim (Bool-cases (same_key i k)) [
  | inl h ↦ rw (same_key-eq i k h) (
      rw (same_key_refl k)
        (elim (Bool-cases (same_key k j)) [ inl w ↦ rw w refl | inr w ↦ rw w refl ]))
  | inr h ↦ elim (Bool-cases (same_key i j)) [
    | inl w ↦ rw (h, w, same_key_trans i j k w h) refl
    | inr w ↦ rw (h, w) (stats_get-put k j s m)
  ]
]

nat_same : (n : ℕ) → (n == n) ≡ true
nat_same n = ground arith

-- What a write of a row does to every row.
pub row-put_row :
    (k j : Key) (s : Stat) (t : Table)
    → row j (put_row k s t) ≡ (if same_key k j then some s else row j t)
row-put_row k j s t = elim (Bool-cases (same_key k j)) [
  | inl w ↦
      rw
        (
          same_key-eq k j w,
          nat_same (shard_of j),
          stats_get-put j j s (t.shards (shard_of j)),
          same_key_refl j,
        )
        refl
  | inr w ↦ elim (Bool-cases (shard_of j == shard_of k)) [
    | inl e ↦ rw (e, stats_get-put k j s (t.shards (shard_of j)), w) refl
    | inr e ↦ rw (e, w) refl
  ]
]
