-- ===== src/Generation.antt =====
-- internal/generation/generation.go: generations of a collector, and leases that pin work to one.
-- A slot and a lease are shared objects, so the manager's state holds a store of each, by the order
-- of their making. What the factory makes and what a snapshot takes of it are the caller's. The
-- channel `done` is whether it is closed; the mutex makes each operation one step.
pub mod Steps
pub mod Leases
pub mod Invariant
pub mod Freezing
mod Examples
use isutools.Prelude.{
  ℕ, ◌+◌, ◌-◌, Bool, true, false, not, ◌||◌, Option, none, some, ◌==◌, if◌then◌else◌,
}
use isutools.Prelude.Int.{ℤ, pos, negsuc}

-- A write of a store.
abbrev pub put_at {ℓ} : {A : Type ℓ} → (ℕ → A) → ℕ → A → ℕ → A
put_at f i x j = if j == i then x else f j

pub record Slot (T : Type 0) : Type 0 where
  pub generation : ℕ
  pub value : T
  pub inflight : ℕ
  pub sealed : Bool
  pub done : Bool

pub record Lease : Type 0 where
  pub slot : ℕ
  pub done : Bool

pub record Manager (T : Type 0) : Type 0 where
  pub slots : ℕ → Slot T
  pub allocated : ℕ
  pub current : ℕ
  pub leases : ℕ → Lease
  pub granted : ℕ
  pub compat_wait : ℤ

pub record Frozen (S : Type 0) : Type 0 where
  pub generation : ℕ
  pub value : S
  pub cut_short : Bool

abbrev pub settle_locked : {T : Type 0} → Slot T → Slot T
settle_locked s = if not s.sealed || not (s.inflight == 0) then s else record s { done = true }

abbrev pub seal_locked : {T : Type 0} → Slot T → Slot T
seal_locked s = settle_locked (record s { sealed = true })

abbrev pub new_slot : {T : Type 0} → T → ℕ → Slot T
new_slot made generation = record {
  generation = generation;
  value = made;
  inflight = 0;
  sealed = false;
  done = false;
}

abbrev pub new_manager : {T : Type 0} → T → Manager T
new_manager made = record {
  slots = λ i. new_slot made 1;
  allocated = 1;
  current = 0;
  leases = λ i. record { slot = 0; done = true };
  granted = 0;
  compat_wait = pos 0;
}

-- Acquire, with the lease.
unfoldable pub acquire : {T : Type 0} → Manager T → Manager T × ℕ
acquire m =
    let s = m.slots m.current in
    (
      record m {
        slots = put_at m.slots m.current (record s { inflight = s.inflight + 1 });
        leases = put_at m.leases m.granted record { slot = m.current; done = false };
        granted = m.granted + 1;
      },
      m.granted,
    )

abbrev pub value : {T : Type 0} → Manager T → ℕ → T
value m l = (m.slots (m.leases l).slot).value

abbrev pub lease_generation : {T : Type 0} → Manager T → ℕ → ℕ
lease_generation m l = (m.slots (m.leases l).slot).generation

-- Done; the count of a lease's slot is positive until then.
unfoldable pub finish : {T : Type 0} → Manager T → ℕ → Manager T
finish m l =
    let a = (m.leases l).slot in
    let s = m.slots a in
    if (m.leases l).done then m else record m {
      slots = put_at m.slots a (settle_locked (record s { inflight = s.inflight - 1 }));
      leases = put_at m.leases l record { slot = a; done = true };
    }

abbrev pub current_generation : {T : Type 0} → Manager T → ℕ
current_generation m = (m.slots m.current).generation

abbrev pub set_compat_wait : {T : Type 0} → Manager T → ℤ → Manager T
set_compat_wait m wait = record m { compat_wait = wait }

-- The default is runctl's drain budget.
abbrev pub compat_wait_or : {T : Type 0} → ℤ → Manager T → ℤ
compat_wait_or default m = elim m.compat_wait [
  | pos n ↦ if n == 0 then default else pos n
  | negsuc n ↦ default
]

abbrev pub snapshot_current : {T S : Type 0} → (T → S) → Manager T → Frozen S
snapshot_current snapshot m =
    let s = m.slots m.current in
    record { generation = s.generation; value = snapshot s.value; cut_short = false }

-- Swap, with the sealed generation. The factory made the value of the new one.
unfoldable pub swap : {T : Type 0} → T → Manager T → Manager T × ℕ
swap made m =
    let old = m.slots m.current in
    (
      record m {
        slots =
            put_at (put_at m.slots m.allocated (new_slot made (old.generation + 1))) m.current
              (seal_locked old);
        allocated = m.allocated + 1;
        current = m.allocated;
      },
      m.current,
    )

abbrev pub settled : {T : Type 0} → Manager T → ℕ → Bool
settled m a = (m.slots a).done

pub data Waited : Type 0 where
  completes gives_up blocks : Waited

-- Wait at one moment. No context never ends; a context says whether it has ended.
abbrev pub wait : {T : Type 0} → Manager T → ℕ → Option Bool → Waited
wait m a ctx =
    if settled m a
    then completes
    else (elim ctx [ none ↦ blocks | some ended ↦ if ended then gives_up else blocks ])

-- Freeze. It reads whether the generation is settled at one moment and the value at a later one.
unfoldable pub freeze : {T S : Type 0} → (T → S) → Manager T → Manager T → ℕ → Frozen S
freeze snapshot m later a = record {
  generation = (m.slots a).generation;
  value = snapshot (later.slots a).value;
  cut_short = not (settled m a);
}

-- SwapAndSnapshotContext: the wait ends at a moment that other goroutines and the contexts decide,
-- and its result is not looked at. What goroutines do in the wait and in the freeze are arguments.
unfoldable pub swap_and_snapshot :
    {T S : Type 0}
    → (T → S)
    → T
    → (Manager T → Manager T)
    → (Manager T → Manager T)
    → Manager T
    → Manager T × Frozen S
swap_and_snapshot snapshot made waiting freezing m =
    let (swapped, a) = swap made m in
    let waited = waiting swapped in
    let later = freezing waited in (later, freeze snapshot waited later a)
