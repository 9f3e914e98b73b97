-- ===== src/Generation/Invariant.antt =====
-- What holds of a manager whatever its goroutines have done.
use isutools.Prelude.{
  ℕ, ◌+◌, ◌-◌, ◌≤◌, ◌<◌, ◌≡◌, refl, sym, ◌∙◌, inl, inr, true, false, not, ◌&&◌, ◌||◌, arith, ltb,
  ◌==◌, Bool-cases,
}
use isutools.Generation.{
  Slot, Lease, Manager, put_at, settle_locked, new_slot, new_manager, acquire, finish, swap,
}
use isutools.Generation.Steps.{
  write, Step, acquires, finishes, works, swaps, Reach, here, next, active,
}
use isutools.Generation.Leases.{
  active_acquire, active_finish, active_none, none_active, all_put_at, one_of,
}

-- A slot says it is done when it is sealed and nothing is in flight.
abbrev pub Settles : {T : Type 0} → Slot T → Type 0
Settles s = s.done ≡ (s.sealed && s.inflight == 0)

pub record Sound {T : Type 0} (m : Manager T) : Type 0 where
  pub newest : m.allocated ≡ m.current + 1
  pub pinned : (l : ℕ) → l < m.granted → (m.leases l).slot ≤ m.current
  pub counted : (a : ℕ) → (m.slots a).inflight ≡ active m.leases a m.granted
  pub sealed_before : (a : ℕ) → a ≤ m.current → (m.slots a).sealed ≡ ltb a m.current
  pub settles : (a : ℕ) → Settles (m.slots a)
  pub numbered : (a : ℕ) → a ≤ m.current → (m.slots a).generation ≡ a + 1

pub new_manager-Sound : {T : Type 0} (made : T) → Sound (new_manager made)
unfolding active
new_manager-Sound made = record {
  newest = refl;
  pinned = λ l h. absurd (omega (arith, h));
  counted = λ a. refl;
  sealed_before = λ a h. ground arith;
  settles = λ a. refl;
  numbered = λ a h. ground (arith, h);
}

settle_locked-Settles :
    {T : Type 0} (s : Slot T)
    → (s.done ≡ true → (s.sealed && s.inflight == 0) ≡ true)
    → Settles (settle_locked s)
settle_locked-Settles s h = ground (arith, h)

-- A write of one slot, which keeps the number and the seal.
pub settle_locked-rest :
    {T : Type 0} (s : Slot T)
    → ((settle_locked s).inflight ≡ s.inflight)
      × ((settle_locked s).sealed ≡ s.sealed)
      × ((settle_locked s).generation ≡ s.generation)
      × ((settle_locked s).value ≡ s.value)
settle_locked-rest s = elim (Bool-cases (not s.sealed || not (s.inflight == 0))) [
  | inl e ↦ rw e (refl, refl, refl, refl)
  | inr e ↦ rw e (refl, refl, refl, refl)
]

-- The current generation is not sealed.
pub current_open : {T : Type 0} (m : Manager T) → Sound m → (m.slots m.current).sealed ≡ false
current_open m h = h.sealed_before m.current (omega arith) ∙ ground arith

pub acquire-Sound : {T : Type 0} (m : Manager T) → Sound m → Sound (acquire m).0
unfolding acquire
acquire-Sound {T} m h =
    let s = m.slots m.current in
    let s' : Slot T = record s { inflight = s.inflight + 1 } in
    let grown : (a : ℕ)
        → active (put_at m.leases m.granted record { slot = m.current; done = false }) a
            (m.granted + 1)
          ≡ one_of (m.current == a) + active m.leases a m.granted =
      λ a. active_acquire m.leases a m.current m.granted (m.granted + 1) refl in
    record {
      newest = h.newest;
      pinned =
          all_put_at (λ l x. l < m.granted + 1 → x.slot ≤ m.current) m.leases m.granted
            record { slot = m.current; done = false } (λ k. omega arith)
            (λ l e k. h.pinned l (ground (arith, e, k)));
      counted =
          all_put_at
            (λ a x.
              x.inflight
              ≡ active (put_at m.leases m.granted record { slot = m.current; done = false }) a
                  (m.granted + 1))
            m.slots m.current s' (rw (grown m.current) (ground (arith, h.counted m.current)))
            (λ a e. rw (grown a) (ground (arith, e, h.counted a)));
      sealed_before =
          all_put_at (λ a x. a ≤ m.current → x.sealed ≡ ltb a m.current) m.slots m.current s'
            (h.sealed_before m.current) (λ a e. h.sealed_before a);
      settles =
          all_put_at (λ a x. Settles x) m.slots m.current s'
            (ground (arith, h.settles m.current, current_open m h)) (λ a e. h.settles a);
      numbered =
          all_put_at (λ a x. a ≤ m.current → x.generation ≡ a + 1) m.slots m.current s'
            (h.numbered m.current) (λ a e. h.numbered a);
    }

-- The lease of a slot that something is done under is counted.
pub in_flight :
    {T : Type 0} (m : Manager T) (l : ℕ)
    → Sound m
    → l < m.granted
    → (m.leases l).done ≡ false
    → 0 < (m.slots (m.leases l).slot).inflight
in_flight m l h k w = elim (Bool-cases (ltb 0 (m.slots (m.leases l).slot).inflight)) [
  | inl e ↦ ground (arith, e)
  | inr e ↦
      let d =
        none_active m.leases (m.leases l).slot m.granted l
          (sym (h.counted (m.leases l).slot) ∙ ground (arith, e)) k refl in
      absurd (cc (d, w))
]

finish_open :
    {T : Type 0} (m : Manager T) (l : ℕ)
    → Sound m
    → l < m.granted
    → (m.leases l).done ≡ false
    → Sound (finish m l)
unfolding finish
finish_open {T} m l h k w =
    let a = (m.leases l).slot in
    let s = m.slots a in
    let s' : Slot T = record s { inflight = s.inflight - 1 } in
    let x : Lease = record { slot = a; done = true } in
    let (same, seal, gen, val) = settle_locked-rest s' in
    let shrunk : (b : ℕ)
        → active m.leases b m.granted ≡ one_of (a == b) + active (put_at m.leases l x) b m.granted =
      λ b. active_finish m.leases b l m.granted k w in
    rw w record {
      newest = h.newest;
      pinned =
          all_put_at (λ i x. i < m.granted → x.slot ≤ m.current) m.leases l x (λ j. h.pinned l j)
            (λ i e j. h.pinned i j);
      counted =
          all_put_at (λ b y. y.inflight ≡ active (put_at m.leases l x) b m.granted) m.slots a
            (settle_locked s') (same ∙ ground (arith, h.counted a, shrunk a))
            (λ b e. ground (arith, e, h.counted b, shrunk b));
      sealed_before =
          all_put_at (λ b y. b ≤ m.current → y.sealed ≡ ltb b m.current) m.slots a
            (settle_locked s') (λ j. seal ∙ h.sealed_before a j) (λ b e. h.sealed_before b);
      settles =
          all_put_at (λ b y. Settles y) m.slots a (settle_locked s')
            (settle_locked-Settles s' (ground (arith, h.settles a, in_flight m l h k w)))
            (λ b e. h.settles b);
      numbered =
          all_put_at (λ b y. b ≤ m.current → y.generation ≡ b + 1) m.slots a (settle_locked s')
            (λ j. gen ∙ h.numbered a j) (λ b e. h.numbered b);
    }

pub finish-Sound :
    {T : Type 0} (m : Manager T) (l : ℕ) → Sound m → l < m.granted → Sound (finish m l)
unfolding finish
finish-Sound m l h k = elim (Bool-cases (m.leases l).done) [
  | inl e ↦ rw e h
  | inr e ↦ finish_open m l h k e
]

write-Sound : {T : Type 0} (m : Manager T) (l : ℕ) (f : T → T) → Sound m → Sound (write m l f)
write-Sound {T} m l f h =
    let a = (m.leases l).slot in
    let s = m.slots a in
    let s' : Slot T = record s { value = f s.value } in
    record {
      newest = h.newest;
      pinned = h.pinned;
      counted =
          all_put_at (λ b y. y.inflight ≡ active m.leases b m.granted) m.slots a s' (h.counted a)
            (λ b e. h.counted b);
      sealed_before =
          all_put_at (λ b y. b ≤ m.current → y.sealed ≡ ltb b m.current) m.slots a s'
            (h.sealed_before a) (λ b e. h.sealed_before b);
      settles = all_put_at (λ b y. Settles y) m.slots a s' (h.settles a) (λ b e. h.settles b);
      numbered =
          all_put_at (λ b y. b ≤ m.current → y.generation ≡ b + 1) m.slots a s' (h.numbered a)
            (λ b e. h.numbered b);
    }

swap-Sound : {T : Type 0} (m : Manager T) (made : T) → Sound m → Sound (swap made m).0
unfolding swap
swap-Sound {T} m made h =
    let s = m.slots m.current in
    let s' : Slot T = record s { sealed = true } in
    let t : Slot T = new_slot made (s.generation + 1) in
    let (same, seal, gen, val) = settle_locked-rest s' in
    let shut : s.done ≡ true → (s'.sealed && s'.inflight == 0) ≡ true =
      λ d. absurd (ground (arith, d, h.settles m.current, current_open m h)) in
    let unpinned : active m.leases m.allocated m.granted ≡ 0 =
      active_none m.leases m.allocated m.granted
        (λ i k e. absurd (omega (arith, e, h.pinned i k, h.newest))) in
    record {
      newest = refl;
      pinned = λ l k. omega (arith, h.pinned l k, h.newest);
      counted =
          all_put_at (λ b y. y.inflight ≡ active m.leases b m.granted)
            (put_at m.slots m.allocated t) m.current (settle_locked s') (same ∙ h.counted m.current)
            (λ b e.
              all_put_at (λ b y. y.inflight ≡ active m.leases b m.granted) m.slots m.allocated t
                (sym unpinned) (λ c f. h.counted c) b);
      sealed_before =
          all_put_at (λ b y. b ≤ m.allocated → y.sealed ≡ ltb b m.allocated)
            (put_at m.slots m.allocated t) m.current (settle_locked s')
            (λ j. seal ∙ ground (arith, h.newest))
            (λ b e.
              all_put_at
                (λ b y. (b == m.current) ≡ false → b ≤ m.allocated → y.sealed ≡ ltb b m.allocated)
                m.slots m.allocated t (λ n j. ground arith)
                (λ c f n j.
                  h.sealed_before c (ground (arith, f, j, h.newest))
                  ∙ ground (arith, f, n, j, h.newest))
                b e);
      settles =
          all_put_at (λ b y. Settles y) (put_at m.slots m.allocated t) m.current (settle_locked s')
            (settle_locked-Settles s' shut)
            (λ b e.
              all_put_at (λ b y. Settles y) m.slots m.allocated t refl (λ c f. h.settles c) b);
      numbered =
          all_put_at (λ b y. b ≤ m.allocated → y.generation ≡ b + 1) (put_at m.slots m.allocated t)
            m.current (settle_locked s') (λ j. gen ∙ h.numbered m.current (omega arith))
            (λ b e.
              all_put_at (λ b y. b ≤ m.allocated → y.generation ≡ b + 1) m.slots m.allocated t
                (λ j. omega (arith, h.newest, h.numbered m.current (omega arith)))
                (λ c f j. h.numbered c (ground (arith, f, j, h.newest))) b);
    }

pub Step-Sound : {T : Type 0} {m n : Manager T} → Step T m n → Sound m → Sound n
Step-Sound (acquires m) h = acquire-Sound m h
Step-Sound (finishes m l k) h = finish-Sound m l h k
Step-Sound (works m l f k w) h = write-Sound m l f h
Step-Sound (swaps m made) h = swap-Sound m made h

-- Whatever goroutines do with a manager that is sound: the count of every generation is the number
-- of its leases that are not done, the generations before the current one are exactly the sealed
-- ones, a generation's channel is closed exactly when it is sealed and nothing is in flight, and
-- the generations are numbered in order from 1.
pub Reach-Sound : {T : Type 0} {m n : Manager T} → Reach T m n → Sound m → Sound n
Reach-Sound (here m) h = h
Reach-Sound (next m k n s r) h = Reach-Sound r (Step-Sound s h)
