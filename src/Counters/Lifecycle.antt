-- ===== src/Counters/Lifecycle.antt =====
-- A generation of the counters from its boundary to its release, among other calls.
use isutools.Prelude.{
  ℕ, ◌≡◌, subst, refl, ap, sym, ◌∙◌, inl, inr, Bool, true, false, List, [], ◌∷◌, none, some, length,
  ltb, Bool-cases, All,
}
use isutools.Runctl.Types.{Time, GenerationHandle}
use isutools.Counters.{Name, sorted_entries}
use isutools.Counters.Collector.{
  GenerationCollector, CountersGeneration, Frozen, gives, fails, handle_released, boundary, drain,
  collect, closed_table, collect_found, release, at_place, generation_for, drain_found,
  release_found, boundary_found, settle, let_go, result_of, BoundaryKey,
}
use isutools.Counters.Store.{
  Use, use_all, spares, place_last, Stands, Kept, use_all-Stands, change_here,
}

-- A generation with fixed data, which nothing has released; it is settled or is still to be.
record Holds (f : Frozen) (g : CountersGeneration) : Type 0 where
  kept : g.released ≡ false
  ready : g.done ≡ g.settled
  waiting :
      g.settled ≡ false → record { entries = sorted_entries g.counts; dropped = g.dropped } ≡ f
  fixed : g.settled ≡ true → g.frozen ≡ f

settle-Holds :
    (f : Frozen) (g : CountersGeneration)
    → Holds f g
    → g.done ≡ false
    → Holds f (settle g) × ((settle g).settled ≡ true)
settle-Holds f g h d =
    let e : g.settled ≡ false = sym h.ready ∙ d in
    rw (e, h.kept)
      (
        record {
          kept = refl;
          ready = refl;
          waiting = λ w. absurd (cc w);
          fixed = λ w. h.waiting e;
        },
        refl,
      )

Holds-Kept : (i : ℕ) (f : Frozen) (u : Use) → spares i u ≡ true → Kept i (Holds f) u
Holds-Kept i f u s = record {
  settled = λ g h d. (settle-Holds f g h d).0;
  let_go = λ n g h. absurd (cc (s, n));
}

All-Kept :
    (i : ℕ) (f : Frozen) (us : List Use)
    → All (λ u. spares i u ≡ true) us
    → All (Kept i (Holds f)) us
All-Kept i f [] s = s
All-Kept i f (u ∷ us) (s, ss) = (Holds-Kept i f u s, All-Kept i f us ss)

-- A drain that is given time settles the generation, and a collect then gives its data.
drain_settles :
    (i : ℕ) (f : Frozen) (c : GenerationCollector) (h : GenerationHandle)
    → h.token ≡ some i
    → Stands i (Holds f) c
    → ((drain c false h).1 ≡ none)
      × Stands i (λ g. Holds f g × (g.settled ≡ true)) (drain c false h).0
drain_settles i f c h t (g, e, p) =
    let q : generation_for c h ≡ some (i, g) = rw (t, e) refl in
    subst
      (λ o.
        ((drain_found c false o).1 ≡ none)
        × Stands i (λ g. Holds f g × (g.settled ≡ true)) (drain_found c false o).0)
      (sym q)
      (elim (Bool-cases g.done) [
        | inl d ↦ rw d (refl, (g, e, (p, sym p.ready ∙ d)))
        | inr d ↦
            rw d (refl, (settle g, change_here i settle c.generations g e, settle-Holds f g p d))
      ])

collect_gives :
    (i : ℕ) (f : Frozen) (c : GenerationCollector) (h : GenerationHandle)
    → h.token ≡ some i
    → Stands i (λ g. Holds f g × (g.settled ≡ true)) c
    → collect c h ≡ gives f
collect_gives i f c h t (g, e, p) =
    let q : generation_for c h ≡ some (i, g) = rw (t, e) refl in
    ap collect_found q ∙ rw (p.0.kept, p.1) (ap gives (p.0.fixed p.1))

settled-Kept :
    (i : ℕ) (f : Frozen) (us : List Use)
    → All (λ u. spares i u ≡ true) us
    → All (Kept i (λ g. Holds f g × (g.settled ≡ true))) us
settled-Kept i f [] s = s
settled-Kept i f (u ∷ us) (s, ss) = (
  record { settled = λ g h d. settle-Holds f g h.0 d; let_go = λ n g h. absurd (cc (s, n)) },
  settled-Kept i f us ss,
)

-- A first boundary of a run's epoch and phase, at an epoch that is not stale, takes what was
-- counted up to it. Whatever is counted, drained, released or cut off afterwards, as long as it is
-- not that generation that is released, a drain whose context has not ended succeeds, and from then
-- on a collect gives the sorted counts and the number of dropped observations at the moment of the
-- boundary.
pub collect-boundary :
    (trim : Name → Name) (c : GenerationCollector) (key : BoundaryKey) (now : Time)
    (us vs : List Use)
    → ltb key.epoch c.epoch ≡ false
    → result_of key c.results ≡ none
    → All (λ u. spares (length c.generations) u ≡ true) us
    → All (λ u. spares (length c.generations) u ≡ true) vs
    → let b = boundary c key.run_id key.epoch key.phase now in
      let h = b.1.handle in
      let d = drain (use_all trim us b.0) false h in
      (b.2 ≡ none)
      × (d.1 ≡ none)
      × (collect (use_all trim vs d.0) h
          ≡ gives
              record { entries = sorted_entries c.registry.counts; dropped = c.registry.dropped })
collect-boundary trim c key now us vs fresh new s t =
    let i = length c.generations in
    let f : Frozen = record {
      entries = sorted_entries c.registry.counts;
      dropped = c.registry.dropped;
    } in
    let g = closed_table c.gen c.registry.counts c.registry.dropped in
    let start : Holds f g = record {
      kept = refl;
      ready = refl;
      waiting = λ w. refl;
      fixed = λ w. absurd (cc w);
    } in
    rw fresh (
      rw new (
        let b = boundary_found c key now none in
        let (fine, st) = drain_settles i f (use_all trim us b.0) b.1.handle refl (
          use_all-Stands trim i (Holds f) us b.0 (All-Kept i f us s)
            (g, place_last c.generations g, start)) in
        (
          refl,
          fine,
          collect_gives i f (use_all trim vs (drain (use_all trim us b.0) false b.1.handle).0)
              b.1.handle refl
              (use_all-Stands trim i (λ g. Holds f g × (g.settled ≡ true)) vs
                (drain (use_all trim us b.0) false b.1.handle).0 (settled-Kept i f vs t) st),
        )))

-- A generation that was released.
abbrev Gone : CountersGeneration → Type 0
Gone g = (g.released ≡ true) × (g.done ≡ true)

let_go-Gone : (g : CountersGeneration) → (g.released ≡ true → g.done ≡ true) → Gone (let_go g)
let_go-Gone g h = elim (Bool-cases g.released) [
  | inl e ↦ rw e (refl, h e)
  | inr e ↦ rw e (refl, refl)
]

Gone-Kept : (i : ℕ) (us : List Use) → All (Kept i Gone) us
Gone-Kept i [] = tt
Gone-Kept i (u ∷ us) = (
  record { settled = λ g h d. absurd (cc (h.1, d)); let_go = λ n g h. let_go-Gone g (λ r. h.1) },
  Gone-Kept i us,
)

released_answers :
    (i : ℕ) (c : GenerationCollector) (h : GenerationHandle) (ended : Bool)
    → h.token ≡ some i
    → Stands i Gone c
    → (collect c h ≡ fails handle_released) × (drain c ended h ≡ (c, none))
released_answers i c h ended t (k, p, w) =
    let q : generation_for c h ≡ some (i, k) = rw (t, p) refl in
    (ap collect_found q ∙ rw w.0 refl, ap (drain_found c ended) q ∙ rw w.1 refl)

-- After the release of a generation of the store (whose channel is closed if it was released
-- before), whatever happens then, a collect of its handle fails with the
-- error of a released handle, and a drain of it succeeds and changes nothing.
pub release-collect :
    (trim : Name → Name) (c : GenerationCollector) (h : GenerationHandle) (i : ℕ)
    (g : CountersGeneration) (ended : Bool) (us : List Use)
    → h.token ≡ some i
    → at_place i c.generations ≡ some g
    → (g.released ≡ true → g.done ≡ true)
    → let c' = use_all trim us (release c h) in
      (collect c' h ≡ fails handle_released) × (drain c' ended h ≡ (c', none))
release-collect trim c h i g ended us t e r =
    let q : generation_for c h ≡ some (i, g) = rw (t, e) refl in
    let st : Stands i Gone (release c h) =
      subst (λ o. Stands i Gone (release_found c o)) (sym q)
        (let_go g, change_here i let_go c.generations g e, let_go-Gone g r) in
    released_answers i (use_all trim us (release c h)) h ended t
      (use_all-Stands trim i Gone us (release c h) (Gone-Kept i us) st)
