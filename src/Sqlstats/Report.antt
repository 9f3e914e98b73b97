-- ===== src/Sqlstats/Report.antt =====
-- A rotation that waited for its queries, against the ledger.
use isutools.Prelude.{
  ℕ, ◌≤◌, ◌≡◌, ap, ◌∙◌, inl, inr, true, false, List, [], ◌∷◌, arith, ltb, Bool-cases,
}
use isutools.Agg.{Table, new_table, observe_result, snapshot}
use isutools.Agg.Account.{Observation, observe_all}
use isutools.Generation.{freeze}
use isutools.Generation.Steps.{write, acquires, finishes, works, swaps, Reach, here, next}
use isutools.Generation.Freezing.{freeze_stays}
use isutools.Sqlstats.Store.{Store, new_store, finish}
use isutools.Sqlstats.Rotation.{
  Event, begins, ends, discards, rotates, happen, happen_all, no_ledger, note_all, new_store-Agrees,
  happen_all-Agrees,
}

abbrev Gets : Store → Store → Type 0
Gets m n = Reach Table m n

reach_on : {m n o : Store} → Gets m n → Gets n o → Gets m o
reach_on (here m) r = r
reach_on (next m n o s q) r = next _ _ _ s (reach_on q r)

ends-Reach :
    (s : Store) (l : ℕ) (o : Observation)
    → ltb l s.granted ≡ true
    → Gets s (finish s l o.key o.duration o.failed)
ends-Reach s l o k = elim (Bool-cases (s.leases l).done) [
  | inl w ↦ rw w (here s)
  | inr w ↦
      let f : Table → Table = λ t. observe_result t o.key o.duration o.failed in
      rw w (
        next s (write s l f) _ (works s l f (ground (arith, k)) w)
          (next _ _ _ (finishes (write s l f) l (ground (arith, k))) (here _)))
]

happen-Reach : (max_keys : ℕ) (e : Event) (s : Store) → Gets s (happen max_keys e s)
happen-Reach max_keys begins s = next _ _ _ (acquires s) (here _)
happen-Reach max_keys (ends l o) s = elim (Bool-cases (ltb l s.granted)) [
  | inl k ↦ rw k (ends-Reach s l o k)
  | inr k ↦ rw k (here s)
]
happen-Reach max_keys (discards l) s = elim (Bool-cases (ltb l s.granted)) [
  | inl k ↦ rw k (next _ _ _ (finishes s l (ground (arith, k))) (here _))
  | inr k ↦ rw k (here s)
]
happen-Reach max_keys rotates s = next _ _ _ (swaps s (new_table max_keys)) (here _)

happen_all-Reach : (max_keys : ℕ) (es : List Event) (s : Store) → Gets s (happen_all max_keys es s)
happen_all-Reach max_keys [] s = here s
happen_all-Reach max_keys (e ∷ es) s =
    reach_on (happen-Reach max_keys e s) (happen_all-Reach max_keys es (happen max_keys e s))

-- After any beginnings and ends of queries and any rotations of a new store, a freeze of a
-- generation that is not cut short, with any more of them between its two reads, reports exactly
-- the queries that began in that generation and have ended: the snapshot is the one of a new
-- table that was given their observations in the order in which they ended.
pub freeze-happen_all :
    (max_keys : ℕ) (es fs : List Event) (a : ℕ)
    → a ≤ (happen_all max_keys es (new_store max_keys)).current
    → (freeze snapshot
        (happen_all max_keys es (new_store max_keys))
        (happen_all max_keys fs (happen_all max_keys es (new_store max_keys)))
        a).cut_short
      ≡ false
    → (freeze snapshot
        (happen_all max_keys es (new_store max_keys))
        (happen_all max_keys fs (happen_all max_keys es (new_store max_keys)))
        a).value
      ≡ snapshot (observe_all (new_table max_keys) ((note_all es no_ledger).filed a))
unfolding freeze
freeze-happen_all max_keys es fs a k w =
    let m = happen_all max_keys es (new_store max_keys) in
    let n = happen_all max_keys fs m in
    let h =
      happen_all-Agrees max_keys es (new_store max_keys) no_ledger (new_store-Agrees max_keys) in
    ap (λ f. f.value)
      (freeze_stays snapshot m m m n a h.sound (here m) (here m) (happen_all-Reach max_keys fs m) k
        w)
    ∙ ap snapshot (h.tables a)
