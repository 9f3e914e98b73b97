-- ===== src/Generation/Steps.antt =====
-- The steps that goroutines take on one manager, in any order.
use isutools.Prelude.{ℕ, zero, suc, ◌+◌, ◌<◌, ◌≡◌, false, not, ◌&&◌, ◌==◌, if◌then◌else◌}
use isutools.Generation.{Lease, Manager, put_at, acquire, finish, swap}

-- Work writes to the value of its lease's generation.
abbrev pub write : {T : Type 0} → Manager T → ℕ → (T → T) → Manager T
write m l f =
    let a = (m.leases l).slot in
    let s = m.slots a in record m { slots = put_at m.slots a (record s { value = f s.value }) }

-- Work is done under a lease that is not done; Done may be called again.
pub data Step (T : Type 0) : Manager T → Manager T → Type 0 where
  acquires : (m : Manager T) → Step T m (acquire m).0
  finishes : (m : Manager T) (l : ℕ) → l < m.granted → Step T m (finish m l)
  works :
      (m : Manager T) (l : ℕ) (f : T → T)
      → l < m.granted
      → (m.leases l).done ≡ false
      → Step T m (write m l f)
  swaps : (m : Manager T) (made : T) → Step T m (swap made m).0

pub data Reach (T : Type 0) : Manager T → Manager T → Type 0 where
  here : (m : Manager T) → Reach T m m
  next : (m n o : Manager T) → Step T m n → Reach T n o → Reach T m o

-- How many of the first n leases pin a slot and are not done.
unfoldable pub active : (ℕ → Lease) → ℕ → ℕ → ℕ
active ls a zero = 0
active ls a (suc n) = (if (ls n).slot == a && not (ls n).done then 1 else 0) + active ls a n
