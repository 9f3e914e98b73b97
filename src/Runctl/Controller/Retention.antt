-- ===== src/Runctl/Controller/Retention.antt =====
-- internal/runctl/controller.go: which slots and which nonces the controller keeps.
use isutools.Prelude.{
  ℕ, zero, suc, ◌+◌, ◌-◌, ◌≤◌, ◌≡◌, refl, sym, ap, ◌∙◌, ◌⊎◌, inl, inr, Bool, true, false, String,
  str_eq, str_eq_iff, List, [], ◌∷◌, ◌++◌, none, some, keep_if, length, arith, ltb, Bool-cases,
}
use isutools.Runctl.Types.{started, active, Time}
use isutools.Runctl.Budget.{Budgets, nanos}
use isutools.Runctl.Records.{RunSlot, StartResult}
use isutools.Runctl.Controller.{
  NonceEntry, retained_runs, nonce_history_max, evict, retain, add_slot, is_started, drop,
  remember_nonce, newest_nonce, lookup_nonce,
}

abbrev pub is_active : RunSlot → Bool
is_active s = active s.state

-- What one eviction does: with an inactive slot it takes one away and no active one.
evict_cases :
    (slots : List RunSlot)
    → ((evict slots ≡ none) × (keep_if is_active slots ≡ slots))
      ⊎ ((rest : List RunSlot) × (evict slots ≡ some rest)
          × (length slots ≡ suc (length rest))
          × (keep_if is_active rest ≡ keep_if is_active slots))
unfolding evict
evict_cases [] = inl (refl, refl)
evict_cases (s ∷ ss) = elim (Bool-cases (active s.state)) [
  | inl e ↦ elim (evict_cases ss) [
    | inl (h, k) ↦ inl (rw (e, h) refl, rw e (ap (λ x. s ∷ x) k))
    | inr (rest, h, n, k) ↦
        inr (s ∷ rest, rw (e, h) refl, omega (arith, n), rw e (ap (λ x. s ∷ x) k))
  ]
  | inr e ↦ inr (ss, rw e refl, omega arith, rw e refl)
]

retain_keeps :
    (f : ℕ) (slots : List RunSlot)
    → length slots ≤ f
    → (keep_if is_active (retain f slots) ≡ keep_if is_active slots)
      × ((length (retain f slots) ≤ retained_runs) ⊎ (retain f slots ≡ keep_if is_active slots))
unfolding retain
retain_keeps zero [] h = (refl, inl (omega arith))
retain_keeps zero (s ∷ ss) h = absurd (omega arith)
retain_keeps (suc f) slots h = elim (Bool-cases (ltb retained_runs (length slots))) [
  | inl e ↦ elim (evict_cases slots) [
    | inl (n, k) ↦ rw (e, n) (refl, inr (sym k))
    | inr (rest, n, l, k) ↦
        let ih = retain_keeps f rest (omega arith) in
        rw (e, n) (ih.0 ∙ k, elim ih.1 [ inl b ↦ inl b | inr b ↦ inr (b ∙ k) ])
  ]
  | inr e ↦ rw e (refl, inl (ground arith))
]

-- Adding a slot evicts no active one, and leaves at most RetainedRuns slots, unless exactly the
-- active ones are left.
pub add_slot_retention :
    (s : RunSlot) (slots : List RunSlot)
    → (keep_if is_active (add_slot s slots) ≡ keep_if is_active (slots ++ s ∷ []))
      × ((length (add_slot s slots) ≤ retained_runs)
          ⊎ (add_slot s slots ≡ keep_if is_active (slots ++ s ∷ [])))
unfolding add_slot
add_slot_retention s slots = retain_keeps (length (slots ++ s ∷ [])) (slots ++ s ∷ []) (omega arith)

length-drop : {A : Type 0} (n : ℕ) (xs : List A) → length (drop n xs) ≡ length xs - n
length-drop zero xs = omega arith
length-drop (suc n) [] = omega arith
length-drop (suc n) (x ∷ xs) = omega (arith, length-drop n xs)

length-snoc : {A : Type 0} (xs : List A) (x : A) → length (xs ++ x ∷ []) ≡ length xs + 1
length-snoc [] x = omega arith
length-snoc (y ∷ ys) x = omega (arith, length-snoc ys x)

-- However many starts are remembered, the history keeps within its bound.
pub remember_nonce-bounded :
    (now : Time) (nonce : String) (r : StartResult) (entries : List NonceEntry)
    → length entries ≤ nonce_history_max
    → length (remember_nonce now nonce r entries) ≤ nonce_history_max
unfolding remember_nonce
remember_nonce-bounded now nonce r entries h =
    let grown = entries ++ record { nonce = nonce; result = r; at = now } ∷ [] in
    ground (arith, length-drop (length grown - nonce_history_max) grown)

newest-snoc :
    (nonce : String) (entries : List NonceEntry) (e : NonceEntry)
    → str_eq e.nonce nonce ≡ true
    → newest_nonce nonce (entries ++ e ∷ []) ≡ some e
unfolding newest_nonce
newest-snoc nonce [] e h = rw h refl
newest-snoc nonce (x ∷ xs) e h = rw (newest-snoc nonce xs e h) refl

drop-snoc :
    {A : Type 0} (n : ℕ) (xs : List A) (x : A)
    → n ≤ length xs
    → drop n (xs ++ x ∷ []) ≡ drop n xs ++ x ∷ []
drop-snoc zero xs x h = refl
drop-snoc (suc n) [] x h = absurd (omega arith)
drop-snoc (suc n) (y ∷ ys) x h = drop-snoc n ys x (omega arith)

-- The newest entry of a remembered nonce.
remembered_newest :
    (now : Time) (nonce : String) (r : StartResult) (entries : List NonceEntry)
    → str_eq nonce "" ≡ false
    → str_eq nonce nonce ≡ true
    → r.state ≡ started
    → length entries ≤ nonce_history_max
    → newest_nonce nonce (remember_nonce now nonce r entries)
      ≡ some (record { nonce = nonce; result = r; at = now })
unfolding remember_nonce
remembered_newest now nonce r entries h same st len =
    let e : NonceEntry = record { nonce = nonce; result = r; at = now } in
    let n = length (entries ++ e ∷ []) - nonce_history_max in
    let d = drop-snoc n entries e (omega (arith, length-snoc entries e)) in
    let q : is_started r.state ≡ true = rw st refl in
    elim (Bool-cases (ltb nonce_history_max (length (entries ++ e ∷ [])))) [
      | inl k ↦ rw (h, q, k, d) (newest-snoc nonce (drop n entries) e same)
      | inr k ↦ rw (h, q, k) (newest-snoc nonce entries e same)
    ]

-- A start that succeeded under a nonce and is remembered among at most 64 entries is what a lookup
-- of the nonce gives while the entry is not older than the nonce TTL, where no other start is
-- remembered between the two.
pub remembered_nonce_found :
    (b : Budgets) (now later : Time) (nonce : String) (r : StartResult) (entries : List NonceEntry)
    → str_eq nonce "" ≡ false
    → r.state ≡ started
    → length entries ≤ nonce_history_max
    → later - nanos b.nonce_ttl ≤ now
    → lookup_nonce b later nonce (remember_nonce now nonce r entries) ≡ some r
unfolding lookup_nonce
remembered_nonce_found b now later nonce r entries h st len age =
    let same : str_eq nonce nonce ≡ true = (str_eq_iff nonce nonce).1 refl in
    let late : ltb now (later - nanos b.nonce_ttl) ≡ false = ground arith in
    rw (h, remembered_newest now nonce r entries h same st len, late) refl
