-- ===== src/Sqlstats/Rotation.antt =====
-- What a rotation of the SQL statistics reports, against a ledger of the measurements.
use isutools.Prelude.{
  ℕ, ◌+◌, ◌-◌, ◌≤◌, ◌<◌, ◌≡◌, refl, ap, sym, ◌∙◌, inl, inr, Bool, true, false, not, ◌&&◌, List, [],
  ◌∷◌, ◌++◌, arith, ltb, ◌==◌, if◌then◌else◌, Bool-cases,
}
use isutools.Agg.{Table, new_table, observe_result}
use isutools.Agg.Account.{Observation, observe_all}
use isutools.Generation.{
  Manager, Slot, Lease, put_at, settle_locked, acquire, swap, freeze, new_slot,
}
use isutools.Generation
use isutools.Generation.Steps.{write, acquires, finishes, works, swaps}
use isutools.Generation.Leases.{all_put_at, put_at-here, put_at-other}
use isutools.Generation.Invariant.{Sound, settle_locked-rest, Step-Sound, new_manager-Sound}
use isutools.Sqlstats.Store.{Store, new_store, begin, finish, discard}

-- What queries and rotations do with a store; a measurement is named by the order of beginnings.
pub data Event : Type 0 where
  begins : Event
  ends : ℕ → Observation → Event
  discards : ℕ → Event
  rotates : Event

abbrev pub happen : ℕ → Event → Store → Store
happen max_keys begins s = (begin s).0
happen max_keys (ends l o) s = if ltb l s.granted then finish s l o.key o.duration o.failed else s
happen max_keys (discards l) s = if ltb l s.granted then discard s l else s
happen max_keys rotates s = (swap (new_table max_keys) s).0

abbrev pub happen_all : ℕ → List Event → Store → Store
happen_all max_keys [] s = s
happen_all max_keys (e ∷ es) s = happen_all max_keys es (happen max_keys e s)

-- In which rotation each measurement began, which ones are over, and what was filed where: an
-- observation goes where its measurement began.
pub record Ledger : Type 0 where
  pub rotations : ℕ
  pub begun : ℕ
  pub began_in : ℕ → ℕ
  pub over : ℕ → Bool
  pub filed : ℕ → List Observation

abbrev pub no_ledger : Ledger
no_ledger = record {
  rotations = 0;
  begun = 0;
  began_in = λ l. 0;
  over = λ l. true;
  filed = λ a. [];
}

abbrev pub note : Event → Ledger → Ledger
note begins d = record d {
  begun = d.begun + 1;
  began_in = put_at d.began_in d.begun d.rotations;
  over = put_at d.over d.begun false;
}
note (ends l o) d =
    if ltb l d.begun && not (d.over l)
    then record d {
      over = put_at d.over l true;
      filed = put_at d.filed (d.began_in l) (d.filed (d.began_in l) ++ o ∷ []);
    }
    else d
note (discards l) d =
    if ltb l d.begun && not (d.over l) then record d { over = put_at d.over l true } else d
note rotates d = record d { rotations = d.rotations + 1 }

abbrev pub note_all : List Event → Ledger → Ledger
note_all [] d = d
note_all (e ∷ es) d = note_all es (note e d)

pub record Agrees (max_keys : ℕ) (s : Store) (d : Ledger) : Type 0 where
  pub sound : Sound s
  rotated : s.current ≡ d.rotations
  granted : s.granted ≡ d.begun
  pins : (l : ℕ) → (s.leases l).slot ≡ d.began_in l
  dones : (l : ℕ) → (s.leases l).done ≡ d.over l
  pub tables : (a : ℕ) → (s.slots a).value ≡ observe_all (new_table max_keys) (d.filed a)
  later : (a : ℕ) → d.rotations < a → d.filed a ≡ []

observe_all-snoc :
    (os : List Observation) (o : Observation) (t : Table)
    → observe_all t (os ++ o ∷ []) ≡ observe_result (observe_all t os) o.key o.duration o.failed
observe_all-snoc [] o t = refl
observe_all-snoc (p ∷ os) o t = observe_all-snoc os o (observe_result t p.key p.duration p.failed)

begins-Agrees :
    (max_keys : ℕ) (s : Store) (d : Ledger)
    → Agrees max_keys s d
    → Agrees max_keys (happen max_keys begins s) (note begins d)
unfolding acquire
begins-Agrees max_keys s d h = record {
  sound = Step-Sound (acquires s) h.sound;
  rotated = h.rotated;
  granted = omega (arith, h.granted);
  pins = λ l. rw (h.granted, h.rotated) (ground (arith, h.pins l));
  dones = λ l. rw (h.granted) (ground (arith, h.dones l));
  tables =
      all_put_at (λ a x. x.value ≡ observe_all (new_table max_keys) (d.filed a)) s.slots s.current _
        (h.tables s.current) (λ a e. h.tables a);
  later = h.later;
}

rotates-Agrees :
    (max_keys : ℕ) (s : Store) (d : Ledger)
    → Agrees max_keys s d
    → Agrees max_keys (happen max_keys rotates s) (note rotates d)
unfolding swap
rotates-Agrees max_keys s d h =
    let P = λ (a : ℕ) (x : Slot Table). x.value ≡ observe_all (new_table max_keys) (d.filed a) in
    record {
      sound = Step-Sound (swaps s (new_table max_keys)) h.sound;
      rotated = omega (arith, h.sound.newest, h.rotated);
      granted = h.granted;
      pins = h.pins;
      dones = h.dones;
      tables =
          all_put_at P (put_at s.slots s.allocated _) s.current _
            ((settle_locked-rest (record (s.slots s.current) { sealed = true })).3
              ∙ h.tables s.current)
            (λ a e.
              all_put_at P s.slots s.allocated _
                (ap (observe_all (new_table max_keys))
                  (sym (h.later s.allocated (omega (arith, h.sound.newest, h.rotated)))))
                (λ b f. h.tables b) a);
      later = λ a k. h.later a (omega (arith, k));
    }

-- Done does not touch the values.
finish-value : (m : Store) (l a : ℕ) → ((Generation.finish m l).slots a).value ≡ (m.slots a).value
unfolding Generation.finish
finish-value m l a = elim (Bool-cases (m.leases l).done) [
  | inl e ↦ rw e refl
  | inr e ↦
      let s = m.slots (m.leases l).slot in
      let s' : Slot Table = record s { inflight = s.inflight - 1 } in
      rw e (
        all_put_at (λ b x. x.value ≡ (m.slots b).value) m.slots (m.leases l).slot (settle_locked s')
          (settle_locked-rest s').3 (λ b f. refl) a)
]

write-tables :
    (max_keys l : ℕ) (o : Observation) (s : Store) (d : Ledger)
    → Agrees max_keys s d
    → (a : ℕ)
    → ((write s l (λ t. observe_result t o.key o.duration o.failed)).slots a).value
      ≡ observe_all
          (new_table max_keys)
          (put_at d.filed (d.began_in l) (d.filed (d.began_in l) ++ o ∷ []) a)
write-tables max_keys l o s d h a =
    let b = (s.leases l).slot in
    let os = d.filed (d.began_in l) in
    let f : Table → Table = λ t. observe_result t o.key o.duration o.failed in
    let p = h.pins l in
    let here' : f (s.slots b).value
        ≡ observe_all (new_table max_keys) (put_at d.filed (d.began_in l) (os ++ o ∷ []) b) =
      ap f (h.tables b)
      ∙ rw p (
          rw (put_at-here d.filed (d.began_in l) (os ++ o ∷ []))
            (sym (observe_all-snoc os o (new_table max_keys)))) in
    all_put_at
      (λ j x.
        x.value ≡ observe_all (new_table max_keys) (put_at d.filed (d.began_in l) (os ++ o ∷ []) j))
      s.slots b _ here'
      (λ j e.
        h.tables j
        ∙ ap (observe_all (new_table max_keys))
            (sym (put_at-other d.filed (d.began_in l) j (os ++ o ∷ []) (rw p at e))))
      a

-- The leases after a measurement is over.
finish-leases :
    (m : Store) (l i : ℕ)
    → (m.leases l).done ≡ false
    → (((Generation.finish m l).leases i).slot ≡ (m.leases i).slot)
      × (((Generation.finish m l).leases i).done ≡ put_at (λ j. (m.leases j).done) l true i)
unfolding Generation.finish
finish-leases m l i e = elim (Bool-cases (i == l)) [
  | inl f ↦ let q : l ≡ i = ground (arith, f) in rw (e, f, q) (refl, refl)
  | inr f ↦ rw (e, f) (refl, refl)
]

finish-rest :
    (m : Store) (l : ℕ)
    → ((Generation.finish m l).current ≡ m.current) × ((Generation.finish m l).granted ≡ m.granted)
unfolding Generation.finish
finish-rest m l = elim (Bool-cases (m.leases l).done) [
  | inl e ↦ rw e (refl, refl)
  | inr e ↦ rw e (refl, refl)
]

-- A flag set in two stores that agree.
put_at-same :
    (f g : ℕ → Bool) (l i : ℕ) → ((j : ℕ) → f j ≡ g j) → put_at f l true i ≡ put_at g l true i
put_at-same f g l i h = rw (h i) refl

ends_open :
    (max_keys l : ℕ) (o : Observation) (s : Store) (d : Ledger)
    → Agrees max_keys s d
    → l < s.granted
    → (s.leases l).done ≡ false
    → Agrees max_keys
        (Generation.finish (write s l (λ t. observe_result t o.key o.duration o.failed)) l)
        (record d {
          over = put_at d.over l true;
          filed = put_at d.filed (d.began_in l) (d.filed (d.began_in l) ++ o ∷ []);
        })
ends_open max_keys l o s d h k e =
    let s' = write s l (λ t. observe_result t o.key o.duration o.failed) in
    let in_time : d.began_in l ≤ d.rotations =
      omega (arith, h.sound.pinned l k, h.pins l, h.rotated) in
    record {
      sound =
          Step-Sound (finishes s' l k)
            (Step-Sound (works s l (λ t. observe_result t o.key o.duration o.failed) k e) h.sound);
      rotated = (finish-rest s' l).0 ∙ h.rotated;
      granted = (finish-rest s' l).1 ∙ h.granted;
      pins = λ i. (finish-leases s' l i e).0 ∙ h.pins i;
      dones =
          λ i. (finish-leases s' l i e).1 ∙ put_at-same (λ j. (s.leases j).done) d.over l i h.dones;
      tables = λ a. finish-value s' l a ∙ write-tables max_keys l o s d h a;
      later = λ a n.
          put_at-other d.filed (d.began_in l) a (d.filed (d.began_in l) ++ o ∷ [])
            (ground (arith, n, in_time))
          ∙ h.later a n;
    }

discards_open :
    (max_keys l : ℕ) (s : Store) (d : Ledger)
    → Agrees max_keys s d
    → l < s.granted
    → (s.leases l).done ≡ false
    → Agrees max_keys (Generation.finish s l) (record d { over = put_at d.over l true })
discards_open max_keys l s d h k e = record {
  sound = Step-Sound (finishes s l k) h.sound;
  rotated = (finish-rest s l).0 ∙ h.rotated;
  granted = (finish-rest s l).1 ∙ h.granted;
  pins = λ i. (finish-leases s l i e).0 ∙ h.pins i;
  dones = λ i. (finish-leases s l i e).1 ∙ put_at-same (λ j. (s.leases j).done) d.over l i h.dones;
  tables = λ a. finish-value s l a ∙ h.tables a;
  later = h.later;
}

finish_over : (m : Store) (l : ℕ) → (m.leases l).done ≡ true → Generation.finish m l ≡ m
unfolding Generation.finish
finish_over m l e = rw e refl

happen-Agrees :
    (max_keys : ℕ) (e : Event) (s : Store) (d : Ledger)
    → Agrees max_keys s d
    → Agrees max_keys (happen max_keys e s) (note e d)
happen-Agrees max_keys begins s d h = begins-Agrees max_keys s d h
happen-Agrees max_keys rotates s d h = rotates-Agrees max_keys s d h
happen-Agrees max_keys (ends l o) s d h = elim (Bool-cases (ltb l s.granted)) [
  | inl k ↦
      let k' : ltb l d.begun ≡ true = ground (arith, k, h.granted) in
      elim (Bool-cases (s.leases l).done) [
        | inl w ↦ let v = sym (h.dones l) ∙ w in rw (k, k', w, v) h
        | inr w ↦
            let v = sym (h.dones l) ∙ w in
            rw (k, k', w, v) (ends_open max_keys l o s d h (ground (arith, k)) w)
      ]
  | inr k ↦ let k' : ltb l d.begun ≡ false = ground (arith, k, h.granted) in rw (k, k') h
]
happen-Agrees max_keys (discards l) s d h = elim (Bool-cases (ltb l s.granted)) [
  | inl k ↦
      let k' : ltb l d.begun ≡ true = ground (arith, k, h.granted) in
      elim (Bool-cases (s.leases l).done) [
        | inl w ↦ let v = sym (h.dones l) ∙ w in rw (k, k', v, finish_over s l w) h
        | inr w ↦
            let v = sym (h.dones l) ∙ w in
            rw (k, k', v) (discards_open max_keys l s d h (ground (arith, k)) w)
      ]
  | inr k ↦ let k' : ltb l d.begun ≡ false = ground (arith, k, h.granted) in rw (k, k') h
]

pub new_store-Agrees : (max_keys : ℕ) → Agrees max_keys (new_store max_keys) no_ledger
new_store-Agrees max_keys = record {
  sound = new_manager-Sound (new_table max_keys);
  rotated = refl;
  granted = refl;
  pins = λ l. refl;
  dones = λ l. refl;
  tables = λ a. refl;
  later = λ a k. refl;
}

pub happen_all-Agrees :
    (max_keys : ℕ) (es : List Event) (s : Store) (d : Ledger)
    → Agrees max_keys s d
    → Agrees max_keys (happen_all max_keys es s) (note_all es d)
happen_all-Agrees max_keys [] s d h = h
happen_all-Agrees max_keys (e ∷ es) s d h =
    happen_all-Agrees max_keys es (happen max_keys e s) (note e d) (happen-Agrees max_keys e s d h)
