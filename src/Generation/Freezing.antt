-- ===== src/Generation/Freezing.antt =====
-- What a frozen generation holds, against the work that is still to come.
use isutools.Prelude.{
  ℕ, ◌-◌, ◌≤◌, ◌<◌, ◌≡◌, ◌↔◌, refl, sym, ap, ◌∙◌, subst, inl, inr, Bool, true, false, Option, none,
  some, arith, ◌==◌, Bool-cases,
}
use isutools.Generation.{
  Slot, Manager, settle_locked, acquire, finish, swap, settled, wait, completes, freeze,
  swap_and_snapshot, current_generation,
}
use isutools.Generation.Steps.{Step, acquires, finishes, works, swaps, Reach, here, next}
use isutools.Generation.Leases.{active_none, none_active}
use isutools.Generation.Invariant.{
  Sound, current_open, in_flight, settle_locked-rest, Step-Sound, Reach-Sound,
}

-- A slot whose channel is closed is sealed, and nothing is in flight.
done_parts :
    {T : Type 0} (m : Manager T) (a : ℕ)
    → Sound m
    → (m.slots a).done ≡ true
    → ((m.slots a).sealed ≡ true) × ((m.slots a).inflight ≡ 0)
done_parts m a h d = let e = sym (h.settles a) ∙ d in (ground (arith, e), ground (arith, e))

-- It is another slot than one that is current, or that work is done under.
not_current :
    {T : Type 0} (m : Manager T) (a : ℕ)
    → Sound m
    → (m.slots a).done ≡ true
    → (a == m.current) ≡ false
not_current m a h d = elim (Bool-cases (a == m.current)) [
  | inl e ↦
      let s = current_open m h in
      let q : a ≡ m.current = ground (arith, e) in absurd (cc (rw q at (done_parts m a h d).0, s))
  | inr e ↦ e
]

not_pinned :
    {T : Type 0} (m : Manager T) (a l : ℕ)
    → Sound m
    → (m.slots a).done ≡ true
    → l < m.granted
    → (m.leases l).done ≡ false
    → (a == (m.leases l).slot) ≡ false
not_pinned m a l h d k w = elim (Bool-cases (a == (m.leases l).slot)) [
  | inl e ↦
      let q : (m.leases l).slot ≡ a = ground (arith, e) in
      let p = rw q at (in_flight m l h k w) in absurd (omega (arith, p, (done_parts m a h d).1))
  | inr e ↦ e
]

-- Nothing writes to a slot whose channel is closed.
done_slot_kept :
    {T : Type 0} {m n : Manager T} (a : ℕ)
    → Step T m n
    → Sound m
    → a ≤ m.current
    → (m.slots a).done ≡ true
    → (n.slots a ≡ m.slots a) × (a ≤ n.current)
unfolding acquire finish swap
done_slot_kept a (acquires m) h k d = (rw (not_current m a h d) refl, k)
done_slot_kept a (finishes m l j) h k d = elim (Bool-cases (m.leases l).done) [
  | inl e ↦ rw e (refl, k)
  | inr e ↦ rw (e, not_pinned m a l h d j e) (refl, k)
]
done_slot_kept a (works m l f j w) h k d = (rw (not_pinned m a l h d j w) refl, k)
done_slot_kept a (swaps m made) h k d =
    let e : (a == m.allocated) ≡ false = ground (arith, k, h.newest) in
    (rw (not_current m a h d, e) refl, omega (arith, k, h.newest))

done_slot_lasts :
    {T : Type 0} {m n : Manager T} (a : ℕ)
    → Reach T m n
    → Sound m
    → a ≤ m.current
    → (m.slots a).done ≡ true
    → (n.slots a ≡ m.slots a) × Sound n × (a ≤ n.current)
done_slot_lasts a (here m) h k d = (refl, h, k)
done_slot_lasts a (next m o n s r) h k d =
    let (same, k') = done_slot_kept a s h k d in
    let (rest, h', k'') = done_slot_lasts a r (Step-Sound s h) k' (ap (λ s. s.done) same ∙ d) in
    (rest ∙ same, h', k'')

-- In a sound manager, a freeze that is not cut short, with whatever steps between its two reads,
-- holds what every later freeze of that generation holds: no work writes to it any more, whatever
-- leases are taken, used and done meanwhile.
pub freeze_stays :
    {T S : Type 0} (snapshot : T → S) (m n o p : Manager T) (a : ℕ)
    → Sound m
    → Reach T m n
    → Reach T n o
    → Reach T o p
    → a ≤ m.current
    → (freeze snapshot m n a).cut_short ≡ false
    → freeze snapshot o p a ≡ freeze snapshot m n a
unfolding freeze
freeze_stays {T} snapshot m n o p a h r s t k w =
    let d : (m.slots a).done ≡ true = ground (arith, w) in
    let (x, hn, kn) = done_slot_lasts a r h k d in
    let (y, ho, ko) = done_slot_lasts a s hn kn (ap (λ s. s.done) x ∙ d) in
    let (z, hp, kp) = done_slot_lasts a t ho ko (ap (λ s. s.done) (y ∙ x) ∙ d) in
    rw (settled, z, y, x) refl

wait_done :
    {T : Type 0} (m : Manager T) (a : ℕ) (ctx : Option Bool)
    → wait m a ctx ≡ completes
    → (m.slots a).done ≡ true
wait_done m a none w = elim (Bool-cases (m.slots a).done) [
  | inl d ↦ d
  | inr d ↦ absurd (cc (rw d at w))
]
wait_done m a (some true) w = elim (Bool-cases (m.slots a).done) [
  | inl d ↦ d
  | inr d ↦ absurd (cc (rw d at w))
]
wait_done m a (some false) w = elim (Bool-cases (m.slots a).done) [
  | inl d ↦ d
  | inr d ↦ absurd (cc (rw d at w))
]

-- In a sound manager, a freeze of a sealed generation is cut short exactly when a lease that pins
-- it is not done, and the wait for it completes exactly when each is done, whatever has become of
-- the context.
pub freeze-cut_short :
    {T S : Type 0} (snapshot : T → S) (m n : Manager T) (a : ℕ) (ctx : Option Bool)
    → Sound m
    → a < m.current
    → (((freeze snapshot m n a).cut_short ≡ false)
        ↔ ((l : ℕ) → l < m.granted → (m.leases l).slot ≡ a → (m.leases l).done ≡ true))
      × ((wait m a ctx ≡ completes)
          ↔ ((l : ℕ) → l < m.granted → (m.leases l).slot ≡ a → (m.leases l).done ≡ true))
unfolding freeze
freeze-cut_short snapshot m n a ctx h k =
    let seal : (m.slots a).sealed ≡ true =
      h.sealed_before a (omega (arith, k)) ∙ ground (arith, k) in
    let to : (m.slots a).done ≡ true
        → (l : ℕ) → l < m.granted
        → (m.leases l).slot ≡ a
        → (m.leases l).done ≡ true =
      λ d l j e.
        none_active m.leases a m.granted l (sym (h.counted a) ∙ (done_parts m a h d).1) j e in
    let from : ((l : ℕ) → l < m.granted → (m.leases l).slot ≡ a → (m.leases l).done ≡ true)
        → (m.slots a).done ≡ true =
      λ f.
        let z = h.counted a ∙ active_none m.leases a m.granted f in
        h.settles a ∙ rw (seal, z) refl in
    (
      (λ w. to (ground (arith, w)), λ f. rw (from f) refl),
      (λ w. to (wait_done m a ctx w), λ f. rw (from f) refl),
    )

-- A seal lasts, and the count of a sealed generation does not grow.
sealed_count_falls :
    {T : Type 0} {m n : Manager T} (a : ℕ)
    → Step T m n
    → Sound m
    → a < m.current
    → ((n.slots a).inflight ≤ (m.slots a).inflight) × (a < n.current)
unfolding acquire finish swap
sealed_count_falls a (acquires m) h k =
    let e : (a == m.current) ≡ false = ground (arith, k) in rw e (omega arith, k)
sealed_count_falls {T} a (finishes m l j) h k = elim (Bool-cases (m.leases l).done) [
  | inl e ↦ rw e (omega arith, k)
  | inr e ↦ elim (Bool-cases (a == (m.leases l).slot)) [
    | inl q ↦
        let p : (m.leases l).slot ≡ a = ground (arith, q) in
        let s = m.slots (m.leases l).slot in
        let s' : Slot T = record s { inflight = s.inflight - 1 } in
        rw (e, q)
          (
            subst (λ b. (settle_locked s').inflight ≤ (m.slots b).inflight) p
                (omega (arith, (settle_locked-rest s').0)),
            k,
          )
    | inr q ↦ rw (e, q) (omega arith, k)
  ]
]
sealed_count_falls a (works m l f j w) h k = elim (Bool-cases (a == (m.leases l).slot)) [
  | inl q ↦ let p : (m.leases l).slot ≡ a = ground (arith, q) in rw (q, p) (omega arith, k)
  | inr q ↦ rw q (omega arith, k)
]
sealed_count_falls a (swaps m made) h k =
    let e : (a == m.allocated) ≡ false = ground (arith, k, h.newest) in
    let f : (a == m.current) ≡ false = ground (arith, k) in
    rw (f, e) (omega arith, omega (arith, k, h.newest))

-- From the moment a generation is sealed, the count of the work that pins it only falls.
pub inflight_falls :
    {T : Type 0} {m n : Manager T} (a : ℕ)
    → Reach T m n
    → Sound m
    → a < m.current
    → (n.slots a).inflight ≤ (m.slots a).inflight
inflight_falls a (here m) h k = omega arith
inflight_falls a (next m o n s r) h k =
    let (le, k') = sealed_count_falls a s h k in
    omega (arith, le, inflight_falls a r (Step-Sound s h) k')

numbers_grow : {T : Type 0} {m n : Manager T} → Step T m n → Sound m → m.current ≤ n.current
unfolding acquire finish swap
numbers_grow (acquires m) h = omega arith
numbers_grow (finishes m l j) h = elim (Bool-cases (m.leases l).done) [
  | inl e ↦ rw e (omega arith)
  | inr e ↦ rw e (omega arith)
]
numbers_grow (works m l f j w) h = omega arith
numbers_grow (swaps m made) h = omega (arith, h.newest)

current_grows : {T : Type 0} {m n : Manager T} → Reach T m n → Sound m → m.current ≤ n.current
current_grows (here m) h = omega arith
current_grows (next m o n s r) h = omega (arith, numbers_grow s h, current_grows r (Step-Sound s h))

-- SwapAndSnapshot on a sound manager, with any steps of goroutines in its wait and its freeze: the
-- frozen generation is the one that was current, and its number is below the one that is current in
-- the end. So frozen generations come in order.
pub swap_and_snapshot-generation :
    {T S : Type 0} (snapshot : T → S) (made : T) (waiting freezing : Manager T → Manager T)
    (m : Manager T)
    → Sound m
    → Reach T (swap made m).0 (waiting (swap made m).0)
    → Reach T (waiting (swap made m).0) (freezing (waiting (swap made m).0))
    → let r = swap_and_snapshot snapshot made waiting freezing m in
      (r.1.generation ≡ current_generation m) × (r.1.generation < current_generation r.0)
unfolding freeze swap swap_and_snapshot
swap_and_snapshot-generation snapshot made waiting freezing m h r q =
    let h' = Step-Sound (swaps m made) h in
    let s = Reach-Sound r h' in
    let e = Reach-Sound q s in
    let g = current_grows r h' in
    let f = current_grows q s in
    let x = s.numbered m.current (omega (arith, g, h.newest)) in
    let y = e.numbered (freezing (waiting (swap made m).0)).current (omega arith) in
    let z = h.numbered m.current (omega arith) in (x ∙ sym z, omega (arith, x, y, g, f, h.newest))
