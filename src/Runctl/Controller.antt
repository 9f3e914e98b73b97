-- ===== src/Runctl/Controller.antt =====
-- internal/runctl/controller.go: the controller's state and the operations that hold its mutex.
-- The clock is an argument, `now`. What goes to sinks outside is logged, oldest first: health
-- reports, termination events, and the handles that a collector was asked to release.
pub mod Retention
pub mod Queries
pub mod Sweeping
use isutools.Prelude.{
  ℕ, zero, suc, ◌+◌, ◌-◌, Bool, true, false, not, ◌&&◌, ◌||◌, String, str_eq, List, [], ◌∷◌, ◌++◌,
  map, Option, none, some, find?, get_last?, length, ltb, leb, ◌==◌, if◌then◌else◌,
}
use isutools.Prelude.Int.{ℤ, ltb_ℤ}
use isutools.Runctl.Types.{
  GenerationHandle, BaselineHandle, RunState, starting, started, finishing, finished, acknowledged,
  aborting, aborted, expired, active, blocks_new_run, is_zero, Epoch, Time, Result, ok, err,
  run_active, run_aborted, unknown_run, stale_epoch, invalid_registration, collector_registered,
  budget_inversion, Reason, finish_lease_expired, started_ttl, HealthEvent, health_lease_expired,
  RunTerminationEvent, Failure, Registration, sub_time,
}
use isutools.Runctl.Budget.{Budgets, nanos}
use isutools.Runctl.Phase.{RegisteredGeneration, RegisteredBaseline, Call, safe_result}
use isutools.Runctl.Records.{
  RunSlot, StartResult, RunStatus, Snapshot, notify, status_of, end_owner,
}

pub record NonceEntry : Type 0 where
  pub nonce : String
  pub result : StartResult
  pub at : Time

pub record Controller : Type 0 where
  pub budgets : Budgets
  pub epoch : Epoch
  -- Oldest first.
  pub slots : List RunSlot
  pub gens : List RegisteredGeneration
  pub bases : List RegisteredBaseline
  pub nonces : List NonceEntry
  pub stale : ℕ
  pub published : ℕ
  pub health : List HealthEvent
  pub terminations : List RunTerminationEvent
  pub released : List GenerationHandle
  pub released_base : List BaselineHandle

abbrev pub retained_runs : ℕ
retained_runs = 2

abbrev pub nonce_history_max : ℕ
nonce_history_max = 64

-- A write through a pointer to the slot of an epoch.
unfoldable pub update : Epoch → (RunSlot → RunSlot) → List RunSlot → List RunSlot
update ep f [] = []
update ep f (s ∷ ss) = (if s.epoch == ep then f s else s) ∷ update ep f ss

abbrev pub slot_at : Epoch → List RunSlot → Option RunSlot
slot_at ep = find? (λ s. s.epoch == ep)

abbrev pub fenced_slot : Controller → Epoch → Option RunSlot
fenced_slot c ep = if ep == c.epoch then slot_at ep c.slots else none

-- A worker's change of its run, and whether the fence let it through.
unfoldable pub commit : Controller → Epoch → (RunSlot → RunSlot) → Controller × Bool
commit c ep mutate = elim (fenced_slot c ep) [
  | none ↦ (record c { stale = c.stale + 1 }, false)
  | some s ↦ (record c { slots = update ep (λ s. notify (mutate s)) c.slots }, true)
]

-- The same fence before a snapshot becomes visible.
unfoldable pub publish : Controller → Epoch → Snapshot → Controller × Bool
publish c ep snap = elim (fenced_slot c ep) [
  | none ↦ (record c { stale = c.stale + 1 }, false)
  | some s ↦ (
    record c {
      slots = update ep (λ s. record s { snapshot = some snap }) c.slots;
      published = c.published + 1;
    },
    true,
  )
]

-- A goroutine leaves its run.
unfoldable pub leave : Controller → Epoch → Controller
leave c ep = record c { slots = update ep end_owner c.slots }

abbrev pub lookup : String → List RunSlot → Option RunSlot
lookup run_id = find? (λ s. str_eq s.run_id run_id)

abbrev pub current : List RunSlot → Option RunSlot
current = get_last?

abbrev pub slot_by_nonce : String → List RunSlot → Option RunSlot
slot_by_nonce nonce slots =
    if str_eq nonce "" then none else find? (λ s. str_eq s.nonce nonce) slots

-- The slots without the oldest one that is not active, if there is one.
unfoldable pub evict : List RunSlot → Option (List RunSlot)
evict [] = none
evict (s ∷ ss) =
    let rest = evict ss in
    if active s.state then (elim rest [ none ↦ none | some ts ↦ some (s ∷ ts) ]) else some ss

-- The eviction loop. A round removes a slot, so the number of slots is fuel enough.
unfoldable pub retain : ℕ → List RunSlot → List RunSlot
retain zero slots = slots
retain (suc f) slots =
    if ltb retained_runs (length slots)
    then elim (evict slots) [ none ↦ slots | some rest ↦ retain f rest ]
    else slots

unfoldable pub add_slot : RunSlot → List RunSlot → List RunSlot
add_slot s slots = retain (length (slots ++ s ∷ [])) (slots ++ s ∷ [])

abbrev pub is_started : RunState → Bool
is_started started = true
is_started _ = false

abbrev pub drop : {A : Type 0} → ℕ → List A → List A
drop zero xs = xs
drop (suc n) [] = []
drop (suc n) (x ∷ xs) = drop n xs

-- Only a start that succeeded is cached, and only the newest entries are kept.
unfoldable pub remember_nonce : Time → String → StartResult → List NonceEntry → List NonceEntry
remember_nonce now nonce r entries =
    if str_eq nonce "" || not (is_started r.state)
    then entries
    else let grown = entries ++ record { nonce = nonce; result = r; at = now } ∷ [] in
      if ltb nonce_history_max (length grown)
      then drop (length grown - nonce_history_max) grown
      else grown

-- The newest entry of a nonce, if it has not aged out.
newest_nonce : String → List NonceEntry → Option NonceEntry
newest_nonce nonce [] = none
newest_nonce nonce (e ∷ es) =
    let rest = newest_nonce nonce es in
    elim rest [ some later ↦ some later | none ↦ if str_eq e.nonce nonce then some e else none ]

unfoldable pub lookup_nonce : Budgets → Time → String → List NonceEntry → Option StartResult
unfolding newest_nonce
lookup_nonce b now nonce entries =
    if str_eq nonce "" then none else elim (newest_nonce nonce entries) [
      | none ↦ none
      | some e ↦ if ltb e.at (now - nanos b.nonce_ttl) then none else some e.result
    ]

unfoldable pub status : Controller → String → Option RunStatus
status c run_id = elim (lookup run_id c.slots) [ none ↦ none | some s ↦ some (status_of s) ]

abbrev or_active : Option Snapshot → Result Snapshot
or_active none = err run_active
or_active (some snap) = ok snap

unfoldable pub snapshot_by_state : RunState → Option Snapshot → Result Snapshot
snapshot_by_state expired snap = err unknown_run
snapshot_by_state aborted snap = err run_aborted
snapshot_by_state aborting snap = err run_aborted
snapshot_by_state _ snap = or_active snap

unfoldable pub snapshot_of : Controller → String → Result Snapshot
unfolding snapshot_by_state
snapshot_of c run_id = elim (lookup run_id c.slots) [
  | none ↦ err unknown_run
  | some s ↦ snapshot_by_state s.state s.snapshot
]

-- One look of a call that may have to wait: it answers, or it waits for the slot's next change.
pub data Look {ℓ} (A : Type ℓ) : Type ℓ where
  answers : Result A → Look A
  waits : Epoch → ℕ → Look A

unfoldable pub await_by_state : RunState → RunSlot → Look RunStatus
await_by_state expired s = answers (err unknown_run)
await_by_state started s = answers (ok (status_of s))
await_by_state finished s = answers (ok (status_of s))
await_by_state acknowledged s = answers (ok (status_of s))
await_by_state aborted s = answers (ok (status_of s))
await_by_state _ s = waits s.epoch s.changed

unfoldable pub await : Controller → String → Look RunStatus
unfolding await_by_state
await c run_id = elim (lookup run_id c.slots) [
  | none ↦ answers (err unknown_run)
  | some s ↦ await_by_state s.state s
]

abbrev pub acknowledge : String → Time → RunSlot → RunSlot
acknowledge by now s = notify (record s { state = acknowledged; acked_by = by; since = now })

unfoldable pub ack_by_state :
    RunState → Controller → Epoch → String → Time → Controller × Result (Unit {0})
ack_by_state starting c ep by now = (c, err run_active)
ack_by_state started c ep by now = (c, err run_active)
ack_by_state finishing c ep by now = (c, err run_active)
ack_by_state aborting c ep by now = (c, err run_aborted)
ack_by_state aborted c ep by now = (c, err run_aborted)
ack_by_state expired c ep by now = (c, err unknown_run)
ack_by_state acknowledged c ep by now = (c, ok tt)
ack_by_state _ c ep by now = (record c { slots = update ep (acknowledge by now) c.slots }, ok tt)

-- Whether the newest run keeps others out.
abbrev pub blocked : List RunSlot → Bool
blocked slots = elim (current slots) [ none ↦ false | some s ↦ blocks_new_run s.state ]

unfoldable pub ack_by : Controller → Time → String → String → Controller × Result (Unit {0})
unfolding ack_by_state
ack_by c now run_id by = elim (lookup run_id c.slots) [
  | none ↦ (c, err (if blocked c.slots then run_active else unknown_run))
  | some s ↦ ack_by_state s.state c s.epoch by now
]

pub record AbortReq : Type 0 where
  pub run_id : String
  pub reason : Reason
  pub lease_expired : Bool

-- What a sweep does to one slot: it stays, perhaps changed, or goes; and an abort it asks for.
pub record Swept : Type 0 where
  pub kept : Option RunSlot
  pub abort : Option AbortReq

abbrev stays : RunSlot → Swept
stays s = record { kept = some s; abort = none }

abbrev pub expire : Time → RunSlot → RunSlot
expire now s = notify (record s { state = expired; snapshot = none; since = now })

abbrev expire_if_old : Budgets → Time → RunSlot → Swept
expire_if_old b now s =
    if ltb (nanos b.finished_ttl) (sub_time now s.since) then stays (expire now s) else stays s

abbrev forget_if_old : Budgets → Time → RunSlot → Swept
forget_if_old b now s =
    if ltb (nanos b.tombstone_ttl) (sub_time now s.since)
    then record { kept = none; abort = none }
    else stays s

unfoldable pub sweep_by_state : RunState → Budgets → Time → RunSlot → Swept
sweep_by_state finishing b now s =
    if not (is_zero s.lease) && ltb s.lease now
    then record {
      kept = some s;
      abort =
          some (record { run_id = s.run_id; reason = finish_lease_expired; lease_expired = true });
    }
    else stays s
sweep_by_state started b now s =
    if ltb (nanos b.started_ttl) (sub_time now s.since)
    then record {
      kept = some s;
      abort = some (record { run_id = s.run_id; reason = started_ttl; lease_expired = false });
    }
    else stays s
sweep_by_state finished b now s = expire_if_old b now s
sweep_by_state acknowledged b now s = expire_if_old b now s
sweep_by_state aborted b now s = forget_if_old b now s
sweep_by_state expired b now s = forget_if_old b now s
sweep_by_state _ b now s = stays s

unfoldable pub sweep_slot : Budgets → Time → RunSlot → Swept
unfolding sweep_by_state
sweep_slot b now s = sweep_by_state s.state b now s

abbrev pub put? : {A : Type 0} → Option A → List A → List A
put? none xs = xs
put? (some x) xs = x ∷ xs

unfoldable pub sweep_slots : Budgets → Time → List RunSlot → List RunSlot × List AbortReq
sweep_slots b now [] = ([], [])
sweep_slots b now (s ∷ ss) =
    let rest = sweep_slots b now ss in
    let r = sweep_slot b now s in (put? r.kept rest.0, put? r.abort rest.1)

-- The part of a sweep that holds the mutex, with the runs that it then aborts.
unfoldable pub sweep : Controller → Time → Controller × List AbortReq
sweep c now = let r = sweep_slots c.budgets now c.slots in (record c { slots = r.0 }, r.1)

-- A collector that declares its own budget is asked for it behind the panic barrier.
unfoldable pub check_budget : Option (Call ℤ) → ℤ → Result (Unit {0})
check_budget none parent = ok tt
check_budget (some call) parent =
    let (want, e) = safe_result (ℤ.pos 0) call in
    elim e [
      | some _ ↦ err invalid_registration
      | none ↦ if ltb_ℤ parent want then err budget_inversion else ok tt
    ]

abbrev taken : String → List Registration → Bool
taken name [] = false
taken name (r ∷ rs) = str_eq r.name name || taken name rs

-- `g` is none for Go's nil; its own registration is replaced by `r`.
unfoldable pub register_generation :
    Controller
    → Registration
    → Option RegisteredGeneration
    → Option (Call ℤ)
    → Controller × Result (Unit {0})
register_generation c r none budget = (c, err invalid_registration)
register_generation c r (some g) budget =
    if str_eq r.name ""
    then (c, err invalid_registration)
    else elim (check_budget budget c.budgets.per_collector_generation) [
      | err e ↦ (c, err e)
      | ok _ ↦
          if taken r.name (map (λ rc. rc.reg) c.gens)
          then (c, err collector_registered)
          else (record c { gens = c.gens ++ record g { reg = r } ∷ [] }, ok tt)
    ]

unfoldable pub register_baseline :
    Controller
    → Registration
    → Option RegisteredBaseline
    → Option (Call ℤ)
    → Controller × Result (Unit {0})
register_baseline c r none budget = (c, err invalid_registration)
register_baseline c r (some g) budget =
    if str_eq r.name ""
    then (c, err invalid_registration)
    else elim (check_budget budget c.budgets.per_collector_baseline) [
      | err e ↦ (c, err e)
      | ok _ ↦
          if taken r.name (map (λ rc. rc.reg) c.bases)
          then (c, err collector_registered)
          else (record c { bases = c.bases ++ record g { reg = r } ∷ [] }, ok tt)
    ]
