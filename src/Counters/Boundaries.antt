-- ===== src/Counters/Boundaries.antt =====
-- A boundary that is asked for again, and one of an older epoch.
use isutools.Prelude.{
  ℕ, ◌≡◌, refl, ap, sym, ◌∙◌, inl, inr, String, Bool, true, false, List, [], ◌∷◌, Option, none,
  some, arith, ltb, leb, ◌==◌, if◌then◌else◌, str_eq, str_eq_iff, Bool-cases, All,
}
use isutools.Runctl.Types.{
  Epoch, Time, Phase, start_boundary, start_baseline, finish_freeze, finish_final,
  collect as collect_phase, BoundaryResult,
}
use isutools.Runctl.Phase.{zero_boundary}
use isutools.Counters.{Name}
use isutools.Counters.Collector.{
  GenerationCollector, BoundaryKey, stale_epoch, boundary, boundary_found, result_of, same_key,
  phase_code, drain_found, release_found, generation_for,
}
use isutools.Counters.Store.{Use, counts_up, takes, drains, releases, use_one, use_all}

code_of : ℕ → Phase
code_of n =
    if n == 0
    then start_boundary
    else if n == 1
    then start_baseline
    else if n == 2
    then finish_freeze
    else if n == 3
    then finish_final
    else collect_phase

code_of-phase_code : (p : Phase) → code_of (phase_code p) ≡ p
unfolding code_of
code_of-phase_code start_boundary = refl
code_of-phase_code start_baseline = refl
code_of-phase_code finish_freeze = refl
code_of-phase_code finish_final = refl
code_of-phase_code collect_phase = refl

same_key-eq : (j k : BoundaryKey) → same_key j k ≡ true → j ≡ k
same_key-eq j k h =
    let a : j.run_id ≡ k.run_id =
      (str_eq_iff j.run_id k.run_id).0 (elim (Bool-cases (str_eq j.run_id k.run_id)) [
        | inl e ↦ e
        | inr e ↦ absurd (cc (rw e at h))
      ]) in
    let b : j.epoch ≡ k.epoch = ground (arith, h) in
    let c : phase_code j.phase ≡ phase_code k.phase = ground (arith, h) in
    let d : j.phase ≡ k.phase =
      sym (code_of-phase_code j.phase) ∙ ap code_of c ∙ code_of-phase_code k.phase in
    cc (a, b, d)

-- The epoch that a use names, at most a bound.
abbrev pub up_to : Epoch → Use → Bool
up_to ep (takes run_id e phase now) = leb e ep
up_to ep _ = true

-- The epoch stands, with a recorded result of a key of it.
abbrev Recorded : BoundaryKey → BoundaryResult → GenerationCollector → Type 0
Recorded k r c = (c.epoch ≡ k.epoch) × (result_of k c.results ≡ some r)

drain_found-same :
    (c : GenerationCollector) (ended : Bool) (o : Option (ℕ × _))
    → ((drain_found c ended o).0.epoch ≡ c.epoch) × ((drain_found c ended o).0.results ≡ c.results)
drain_found-same c ended none = (refl, refl)
drain_found-same c ended (some (i, g)) = elim (Bool-cases g.done) [
  | inl e ↦ rw e (refl, refl)
  | inr e ↦ elim (Bool-cases ended) [
    | inl w ↦ rw (e, w) (refl, refl)
    | inr w ↦ rw (e, w) (refl, refl)
  ]
]

release_found-same :
    (c : GenerationCollector) (o : Option (ℕ × _))
    → ((release_found c o).epoch ≡ c.epoch) × ((release_found c o).results ≡ c.results)
release_found-same c none = (refl, refl)
release_found-same c (some (i, g)) = (refl, refl)

boundary_found-Recorded :
    (k j : BoundaryKey) (r : BoundaryResult) (c : GenerationCollector) (now : Time)
    (o : Option BoundaryResult)
    → Recorded k r c
    → result_of j c.results ≡ o
    → j.epoch ≡ c.epoch
    → Recorded k r (boundary_found c j now o).0
boundary_found-Recorded k j r c now (some q) h e w = h
boundary_found-Recorded k j r c now none (a, b) e w = (
  w ∙ a,
  elim (Bool-cases (same_key j k)) [
    | inl f ↦ absurd (cc (rw (same_key-eq j k f) at e, b))
    | inr f ↦ let g : ltb c.epoch j.epoch ≡ false = ground (arith, w) in rw (f, g) b
  ],
)

boundary-Recorded :
    (k : BoundaryKey) (r : BoundaryResult) (c : GenerationCollector) (run_id : String) (ep : Epoch)
    (phase : Phase) (now : Time)
    → leb ep k.epoch ≡ true
    → Recorded k r c
    → Recorded k r (boundary c run_id ep phase now).0
boundary-Recorded k r c run_id ep phase now h t =
    let j : BoundaryKey = record { run_id = run_id; epoch = ep; phase = phase } in
    elim (Bool-cases (ltb ep c.epoch)) [
      | inl e ↦ rw e t
      | inr e ↦ rw e (
          boundary_found-Recorded k j r c now (result_of j c.results) t refl
            (ground (arith, e, h, t.0)))
    ]

use_one-Recorded :
    (trim : Name → Name) (k : BoundaryKey) (r : BoundaryResult) (u : Use) (c : GenerationCollector)
    → up_to k.epoch u ≡ true
    → Recorded k r c
    → Recorded k r (use_one trim u c)
use_one-Recorded trim k r (counts_up n d) c h t = t
use_one-Recorded trim k r (takes run_id ep phase now) c h t =
    boundary-Recorded k r c run_id ep phase now h t
use_one-Recorded trim k r (drains ended j) c h (a, b) =
    let (x, y) = drain_found-same c ended (generation_for c j) in (x ∙ a, ap (result_of k) y ∙ b)
use_one-Recorded trim k r (releases j) c h (a, b) =
    let (x, y) = release_found-same c (generation_for c j) in (x ∙ a, ap (result_of k) y ∙ b)

use_all-Recorded :
    (trim : Name → Name) (k : BoundaryKey) (r : BoundaryResult) (us : List Use)
    (c : GenerationCollector)
    → All (λ u. up_to k.epoch u ≡ true) us
    → Recorded k r c
    → Recorded k r (use_all trim us c)
use_all-Recorded trim k r [] c h t = t
use_all-Recorded trim k r (u ∷ us) c (h, hs) t =
    use_all-Recorded trim k r us (use_one trim u c) hs (use_one-Recorded trim k r u c h t)

str_eq_refl : (s : String) → str_eq s s ≡ true
str_eq_refl s = (str_eq_iff s s).1 refl

same_key_refl : (k : BoundaryKey) → same_key k k ≡ true
same_key_refl k = rw (str_eq_refl k.run_id) (ground arith)

-- A collector at an epoch, asked for a recorded key and for an older one.
replays :
    (c : GenerationCollector) (k : BoundaryKey) (r : BoundaryResult) (later : Time)
    → Recorded k r c
    → boundary c k.run_id k.epoch k.phase later ≡ (c, r, none)
replays c k r later (a, b) =
    let e : ltb k.epoch c.epoch ≡ false = ground (arith, a) in rw (e, b) refl

refuses :
    (c : GenerationCollector) (k old : BoundaryKey) (r : BoundaryResult) (later : Time)
    → Recorded k r c
    → ltb old.epoch k.epoch ≡ true
    → boundary c old.run_id old.epoch old.phase later
      ≡ (c, record zero_boundary { at = later }, some stale_epoch)
refuses c k old r later (a, b) h =
    let e : ltb old.epoch c.epoch ≡ true = ground (arith, a, h) in rw e refl

-- A first boundary of a run's phase, at an epoch that is not stale, is replayed: asked for again,
-- after any uses that name no newer epoch, it gives the first result and changes nothing. A
-- boundary of an older epoch fails with the error of a stale epoch and changes nothing.
pub boundary_again :
    (trim : Name → Name) (c : GenerationCollector) (key old : BoundaryKey) (now later : Time)
    (us : List Use)
    → ltb key.epoch c.epoch ≡ false
    → result_of key c.results ≡ none
    → All (λ u. up_to key.epoch u ≡ true) us
    → ltb old.epoch key.epoch ≡ true
    → let b = boundary c key.run_id key.epoch key.phase now in
      let c' = use_all trim us b.0 in
      (boundary c' key.run_id key.epoch key.phase later ≡ (c', b.1, none))
      × (boundary c' old.run_id old.epoch old.phase later
          ≡ (c', record zero_boundary { at = later }, some stale_epoch))
boundary_again trim c key old now later us fresh new h w = rw fresh (
    rw new (
      let b = boundary_found c key now none in
      let start : Recorded key b.1 b.0 = (refl, rw (same_key_refl key) refl) in
      let t = use_all-Recorded trim key b.1 us b.0 h start in
      (
        replays (use_all trim us b.0) key b.1 later t,
        refuses (use_all trim us b.0) key old b.1 later t w,
      )))
