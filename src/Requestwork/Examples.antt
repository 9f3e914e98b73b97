-- ===== src/Requestwork/Examples.antt =====
-- One request of internal/requestwork: two statements and an outbound call that overlaps one.
use isutools.Prelude.{
  ◌≡◌, ◌≤◌, ◌<◌, inl, inr, true, false, List, [], ◌∷◌, length, arith, ltb, if◌then◌else◌,
  Bool-cases,
}
use mathlib.Core.List.{Perm}
use mathlib.Core.List.Perm
use isutools.Requestwork.{Edge, External, close, new_counter, max_intervals}
use isutools.Requestwork.Sweep.{Sorted}
use isutools.Requestwork.Edges.{SortsByTime}
use isutools.Requestwork.Wall.{Partitions, IsUncharged}
use isutools.Requestwork.Requests.{Work, sql, call, run, intervals_of, close-Partitions}

-- An insertion sort, for sort.Slice.
insert : Edge → List Edge → List Edge
insert e [] = e ∷ []
insert e (f ∷ fs) = if ltb f.t e.t then f ∷ insert e fs else e ∷ f ∷ fs

sort_edges : List Edge → List Edge
sort_edges [] = []
sort_edges (e ∷ es) = insert e (sort_edges es)

insert-Perm : (e : Edge) (es : List Edge) → Perm (insert e es) (e ∷ es)
unfolding insert
insert-Perm e [] = Perm.rfl
insert-Perm e (f ∷ fs) = elim (Bool-cases (ltb f.t e.t)) [
  | inl h ↦ rw h (Perm.trans (Perm.cons f (insert-Perm e fs)) (Perm.swap e f fs))
  | inr h ↦ rw h Perm.rfl
]

sort_edges-Perm : (es : List Edge) → Perm (sort_edges es) es
unfolding sort_edges
sort_edges-Perm [] = Perm.rfl
sort_edges-Perm (e ∷ es) =
    Perm.trans (insert-Perm e (sort_edges es)) (Perm.cons e (sort_edges-Perm es))

insert_after :
    (f e : Edge) (es : List Edge) → f.t ≤ e.t → Sorted (f ∷ es) → Sorted (f ∷ insert e es)
unfolding insert
insert_after f e [] h s = (h, tt)
insert_after f e (g ∷ gs) h (k, s) = elim (Bool-cases (ltb g.t e.t)) [
  | inl w ↦ rw w (k, insert_after g e gs (ground (arith, w)) s)
  | inr w ↦ rw w (h, (ground (arith, w), s))
]

insert-Sorted : (e : Edge) (es : List Edge) → Sorted es → Sorted (insert e es)
unfolding insert
insert-Sorted e [] s = tt
insert-Sorted e (f ∷ fs) s = elim (Bool-cases (ltb f.t e.t)) [
  | inl w ↦ rw w (insert_after f e fs (ground (arith, w)) s)
  | inr w ↦ rw w (ground (arith, w), s)
]

sort_edges-Sorted : (es : List Edge) → Sorted (sort_edges es)
unfolding sort_edges
sort_edges-Sorted [] = tt
sort_edges-Sorted (e ∷ es) = insert-Sorted e (sort_edges es) (sort_edges-Sorted es)

sort_edges-SortsByTime : SortsByTime sort_edges
sort_edges-SortsByTime = record { same_edges = sort_edges-Perm; sorted = sort_edges-Sorted }

abbrev outbound : External
outbound = record {
  label = 97 ∷ [];
  start = 140;
  end = 180;
  failed = false;
  reused = true;
  acquire = 1;
  dns = 2;
  connect = 3;
  tls = 4;
  wait = 5;
  headers = 6;
  body = 7;
}

abbrev calls : List Work
calls = sql 90 150 ∷ call outbound ∷ sql 190 260 ∷ []

close-Partitions_example :
    let c = run new_counter calls in
    let s = (close sort_edges c 100 200).1 in
    (length (intervals_of calls) ≤ max_intervals → Partitions s (intervals_of calls) 100 100)
    × (max_intervals < length (intervals_of calls) → (s.truncated ≡ true) × IsUncharged s)
    × ((close sort_edges (close sort_edges c 100 200).0 7 8).1 ≡ s)
close-Partitions_example =
    close-Partitions sort_edges calls 100 200 7 8 sort_edges-SortsByTime (omega arith) (omega arith)
