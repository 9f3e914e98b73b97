-- ===== src/Counters/Store.antt =====
-- The collector's store of generations, and what a use of the collector does to one of them.
use isutools.Prelude.{
  ℕ, zero, suc, ◌≡◌, refl, ap, ◌∙◌, inl, inr, String, Bool, true, false, not, List, [], ◌∷◌, ◌++◌,
  Option, none, some, arith, length, ltb, ◌==◌, Bool-cases, All,
}
use isutools.Prelude.Int.{ℤ}
use isutools.Runctl.Types.{Epoch, Time, Phase, GenerationHandle, BoundaryResult}
use isutools.Counters.{Name, add}
use isutools.Counters.Collector.{
  closed_table, GenerationCollector, CountersGeneration, boundary, drain, release, at_place,
  change_at, generation_for, generation_at, with_place, drain_found, release_found, boundary_found,
  settle, let_go, put_generation, result_of, BoundaryKey,
}

-- What the program and the run controller do with a collector, in the order of its locks.
pub data Use : Type 0 where
  counts_up : Name → ℤ → Use
  takes : String → Epoch → Phase → Time → Use
  drains : Bool → GenerationHandle → Use
  releases : GenerationHandle → Use

abbrev pub use_one : (Name → Name) → Use → GenerationCollector → GenerationCollector
use_one trim (counts_up n d) c = record c { registry = add trim c.registry n d }
use_one trim (takes run_id ep phase now) c = (boundary c run_id ep phase now).0
use_one trim (drains ended h) c = (drain c ended h).0
use_one trim (releases h) c = release c h

abbrev pub use_all : (Name → Name) → List Use → GenerationCollector → GenerationCollector
use_all trim [] c = c
use_all trim (u ∷ us) c = use_all trim us (use_one trim u c)

-- A use that does not release the generation of a place.
abbrev pub spares : ℕ → Use → Bool
spares i (releases h) = elim h.token [ none ↦ true | some j ↦ not (j == i) ]
spares i _ = true

pub change_here :
    (i : ℕ) (f : CountersGeneration → CountersGeneration) (gs : List CountersGeneration)
    (g : CountersGeneration)
    → at_place i gs ≡ some g
    → at_place i (change_at i f gs) ≡ some (f g)
change_here i f [] g h = absurd (cc h)
change_here zero f (k ∷ gs) g h = cc h
change_here (suc i) f (k ∷ gs) g h = change_here i f gs g h

change_elsewhere :
    (i j : ℕ) (f : CountersGeneration → CountersGeneration) (gs : List CountersGeneration)
    → (i == j) ≡ false
    → at_place j (change_at i f gs) ≡ at_place j gs
change_elsewhere i j f [] h = refl
change_elsewhere zero zero f (k ∷ gs) h = absurd (ground (arith, h))
change_elsewhere zero (suc j) f (k ∷ gs) h = refl
change_elsewhere (suc i) zero f (k ∷ gs) h = refl
change_elsewhere (suc i) (suc j) f (k ∷ gs) h = change_elsewhere i j f gs (ground (arith, h))

place_append :
    (i : ℕ) (gs hs : List CountersGeneration) (g : CountersGeneration)
    → at_place i gs ≡ some g
    → at_place i (gs ++ hs) ≡ some g
place_append i [] hs g h = absurd (cc h)
place_append zero (k ∷ gs) hs g h = h
place_append (suc i) (k ∷ gs) hs g h = place_append i gs hs g h

pub place_last :
    (gs : List CountersGeneration) (g : CountersGeneration)
    → at_place (length gs) (gs ++ g ∷ []) ≡ some g
place_last [] g = refl
place_last (k ∷ gs) g = place_last gs g

place_of :
    (i j : ℕ) (o : Option CountersGeneration) (g : CountersGeneration)
    → with_place i o ≡ some (j, g)
    → (i ≡ j) × (o ≡ some g)
place_of i j none g h = absurd (cc h)
place_of i j (some k) g h = (cc h, cc h)

generation_of :
    (gs : List CountersGeneration) (t : Option ℕ) (j : ℕ) (g : CountersGeneration)
    → generation_at gs t ≡ some (j, g)
    → (t ≡ some j) × (at_place j gs ≡ some g)
generation_of gs none j g h = absurd (cc h)
generation_of gs (some i) j g h =
    let (e, p) = place_of i j (at_place i gs) g h in (ap some e, rw e at p)

-- A generation with a property, at a place.
abbrev pub Stands : ℕ → (CountersGeneration → Type 0) → GenerationCollector → Type 0
Stands i P c = (g : CountersGeneration) × (at_place i c.generations ≡ some g) × P g

-- A change of one generation of the store.
put-Stands :
    (i j : ℕ) (P : CountersGeneration → Type 0) (f : CountersGeneration → CountersGeneration)
    (c : GenerationCollector)
    → ((g : CountersGeneration)
        → (j == i) ≡ true
        → at_place i c.generations ≡ some g
        → P g
        → P (f g))
    → Stands i P c
    → Stands i P (put_generation c j f)
put-Stands i j P f c h (g, e, p) = elim (Bool-cases (j == i)) [
  | inl q ↦
      let r : j ≡ i = ground (arith, q) in
      (f g, rw r (change_here i f c.generations g e), h g q e p)
  | inr q ↦ (g, change_elsewhere j i f c.generations q ∙ e, p)
]

drain_found-Stands :
    (i : ℕ) (P : CountersGeneration → Type 0) (c : GenerationCollector) (ended : Bool)
    (o : Option (ℕ × CountersGeneration))
    → ((j : ℕ) (g : CountersGeneration) → o ≡ some (j, g) → at_place j c.generations ≡ some g)
    → ((g : CountersGeneration) → P g → g.done ≡ false → P (settle g))
    → Stands i P c
    → Stands i P (drain_found c ended o).0
drain_found-Stands i P c ended none h s t = t
drain_found-Stands i P c ended (some (j, g)) h s t = elim (Bool-cases g.done) [
  | inl e ↦ rw e t
  | inr e ↦ elim (Bool-cases ended) [
    | inl w ↦ rw (e, w) t
    | inr w ↦
        rw (e, w)
          (put-Stands i j P settle c
            (λ k q r p.
              let u = h j g refl in
              let v : j ≡ i = ground (arith, q) in
              let same : k ≡ g = cc (rw v at u, r) in s k p (ap (λ g. g.done) same ∙ e))
            t)
  ]
]

release_found-Stands :
    (i : ℕ) (P : CountersGeneration → Type 0) (c : GenerationCollector)
    (o : Option (ℕ × CountersGeneration))
    → ((j : ℕ) (g : CountersGeneration)
        → o ≡ some (j, g)
        → (j == i) ≡ true
        → (k : CountersGeneration) → P k
        → P (let_go k))
    → Stands i P c
    → Stands i P (release_found c o)
release_found-Stands i P c none h t = t
release_found-Stands i P c (some (j, g)) h t =
    put-Stands i j P let_go c (λ k q r p. h j g refl q k p) t

boundary_found-Stands :
    (i : ℕ) (P : CountersGeneration → Type 0) (c : GenerationCollector) (key : BoundaryKey)
    (now : Time) (o : Option BoundaryResult)
    → Stands i P c
    → Stands i P (boundary_found c key now o).0
boundary_found-Stands i P c key now (some r) t = t
boundary_found-Stands i P c key now none (g, e, p) = (
  g,
  place_append i c.generations (closed_table c.gen c.registry.counts c.registry.dropped ∷ []) g e,
  p,
)

boundary-Stands :
    (i : ℕ) (P : CountersGeneration → Type 0) (c : GenerationCollector) (run_id : String)
    (ep : Epoch) (phase : Phase) (now : Time)
    → Stands i P c
    → Stands i P (boundary c run_id ep phase now).0
boundary-Stands i P c run_id ep phase now t =
    let key : BoundaryKey = record { run_id = run_id; epoch = ep; phase = phase } in
    elim (Bool-cases (ltb ep c.epoch)) [
      | inl e ↦ rw e t
      | inr e ↦ rw e (boundary_found-Stands i P c key now (result_of key c.results) t)
    ]

-- A property of a generation that a settling keeps, and a release where the use is one.
pub record Kept (i : ℕ) (P : CountersGeneration → Type 0) (u : Use) : Type 0 where
  pub settled : (g : CountersGeneration) → P g → g.done ≡ false → P (settle g)
  pub let_go : spares i u ≡ false → (g : CountersGeneration) → P g → P (let_go g)

release_hits :
    (i : ℕ) (k : GenerationHandle) (c : GenerationCollector) (j : ℕ) (g : CountersGeneration)
    → generation_for c k ≡ some (j, g)
    → (j == i) ≡ true
    → spares i (releases k) ≡ false
release_hits i k c j g e q = rw ((generation_of c.generations k.token j g e).0, q) refl

use_one-Stands :
    (trim : Name → Name) (i : ℕ) (P : CountersGeneration → Type 0) (u : Use)
    (c : GenerationCollector)
    → Kept i P u
    → Stands i P c
    → Stands i P (use_one trim u c)
use_one-Stands trim i P (counts_up n d) c h t = t
use_one-Stands trim i P (takes run_id ep phase now) c h t =
    boundary-Stands i P c run_id ep phase now t
use_one-Stands trim i P (drains ended k) c h t =
    drain_found-Stands i P c ended (generation_for c k)
      (λ j g e. (generation_of c.generations k.token j g e).1) h.settled t
use_one-Stands trim i P (releases k) c h t =
    release_found-Stands i P c (generation_for c k)
      (λ j g e q. h.let_go (release_hits i k c j g e q)) t

pub use_all-Stands :
    (trim : Name → Name) (i : ℕ) (P : CountersGeneration → Type 0) (us : List Use)
    (c : GenerationCollector)
    → All (Kept i P) us
    → Stands i P c
    → Stands i P (use_all trim us c)
use_all-Stands trim i P [] c h t = t
use_all-Stands trim i P (u ∷ us) c (h, hs) t =
    use_all-Stands trim i P us (use_one trim u c) hs (use_one-Stands trim i P u c h t)
