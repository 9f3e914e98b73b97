-- ===== src/Sqlstats/Literals.antt =====
-- Literals: what a statement says inside a quoted literal does not reach the text.
use isutools.Prelude.{
  ℕ, zero, suc, ◌≤◌, ◌≡◌, refl, ap, ◌∙◌, inl, inr, Bool, true, false, not, ◌&&◌, [], ◌∷◌, ◌++◌,
  Option, arith, length, length-append, ◌==◌, if◌then◌else◌, Bool-cases, All,
}
use isutools.Sqlstats.{
  Bytes, starts, turn, goes, write, then_on, scrub_from, scrub_sql, skip_quoted,
}
use isutools.Sqlstats.Total.{scrub_from_fuel}

-- A literal's value as MySQL's default mode writes it: quotes are doubled, or a backslash stands
-- before them; a backslash always has one before it.
abbrev pub escape : Bool → Bytes → Bytes
escape doubled [] = []
escape doubled (c ∷ v) =
    let rest = escape doubled v in
    if c == b'\\'
    then b'\\' ∷ (b'\\' ∷ rest)
    else if c == b'\''
    then (if doubled then b'\'' ∷ (b'\'' ∷ rest) else b'\\' ∷ (b'\'' ∷ rest))
    else c ∷ rest

-- The end of the literal: a quote that no other one follows.
quote_ends : (s : Bytes) → starts b'\'' s ≡ false → skip_quoted b'\'' (b'\'' ∷ s) ≡ s
unfolding skip_quoted
quote_ends [] h = refl
quote_ends (c ∷ s) h = rw h refl

-- A byte that is no quote and no backslash is passed over.
passes :
    (c : ℕ) (q : Bytes)
    → (c == b'\\') ≡ false
    → (c == b'\'') ≡ false
    → skip_quoted b'\'' (c ∷ q) ≡ skip_quoted b'\'' q
unfolding skip_quoted
passes c [] h k = refl
passes c (d ∷ q) h k = rw (h, k) refl

skip_quoted-escape :
    (doubled : Bool) (v s : Bytes)
    → starts b'\'' s ≡ false
    → skip_quoted b'\'' (escape doubled v ++ b'\'' ∷ s) ≡ s
unfolding skip_quoted
skip_quoted-escape doubled [] s h = quote_ends s h
skip_quoted-escape doubled (c ∷ v) s h = elim (Bool-cases (c == b'\\')) [
  | inl e ↦ rw e (skip_quoted-escape doubled v s h)
  | inr e ↦ elim (Bool-cases (c == b'\'')) [
    | inl f ↦ elim (Bool-cases doubled) [
      | inl d ↦ rw (e, f, d) (skip_quoted-escape doubled v s h)
      | inr d ↦ rw (e, f, d) (skip_quoted-escape doubled v s h)
    ]
    | inr f ↦
        rw (e, f) (passes c (escape doubled v ++ b'\'' ∷ s) e f ∙ skip_quoted-escape doubled v s h)
  ]
]

-- A byte that opens nothing, whatever follows.
abbrev pub is_ordinary : ℕ → Bool
is_ordinary c =
    not (c == b'/') && not (c == b'-') && not (c == b'#') && not (c == b'\'') && not (c == b'$')

turn-ordinary :
    (trim : Bytes → Bytes) (extract : Bool) (tag : Bytes) (c : ℕ) (q : Bytes)
    → is_ordinary c ≡ true
    → turn trim extract tag c q ≡ goes c tag q
unfolding turn
turn-ordinary trim extract tag c q h =
    let a : (c == b'/') ≡ false = ground (arith, h) in
    let b : (c == b'-') ≡ false = ground (arith, h) in
    let d : (c == b'#') ≡ false = ground (arith, h) in
    let e : (c == b'\'') ≡ false = ground (arith, h) in
    let f : (c == b'$') ≡ false = ground (arith, h) in rw (a, b, d, e, f) refl

turn-quote :
    (trim : Bytes → Bytes) (extract : Bool) (tag : Bytes) (q : Bytes)
    → turn trim extract tag b'\'' q ≡ goes b'?' tag (skip_quoted b'\'' q)
unfolding turn
turn-quote trim extract tag q = refl

abbrev pub write_all : Bytes → Option (Bytes × Bytes) → Option (Bytes × Bytes)
write_all [] o = o
write_all (c ∷ p) o = write c (write_all p o)

scrub_from-literal :
    (fuel : ℕ) (trim : Bytes → Bytes) (extract doubled : Bool) (tag p v s : Bytes)
    → All (λ c. is_ordinary c ≡ true) p
    → starts b'\'' s ≡ false
    → length (p ++ b'\'' ∷ (escape doubled v ++ b'\'' ∷ s)) ≤ fuel
    → scrub_from fuel trim extract tag (p ++ b'\'' ∷ (escape doubled v ++ b'\'' ∷ s))
      ≡ write_all p (write b'?' (scrub_from (length s) trim extract tag s))
unfolding scrub_from
scrub_from-literal zero trim extract doubled tag [] v s a h k = absurd (omega (arith, k))
scrub_from-literal zero trim extract doubled tag (c ∷ p) v s a h k = absurd (omega (arith, k))
scrub_from-literal (suc fuel) trim extract doubled tag [] v s a h k =
    let n = length-append (escape doubled v) (b'\'' ∷ s) in
    ap (then_on (scrub_from fuel trim extract) tag)
      (turn-quote trim extract tag (escape doubled v ++ b'\'' ∷ s))
    ∙ ap (λ r. write b'?' (scrub_from fuel trim extract tag r)) (skip_quoted-escape doubled v s h)
    ∙ ap (write b'?')
        (scrub_from_fuel fuel (length s) trim extract tag s (omega (arith, n, k)) (omega arith))
scrub_from-literal (suc fuel) trim extract doubled tag (c ∷ p) v s (a, as') h k =
    ap (then_on (scrub_from fuel trim extract) tag)
      (turn-ordinary trim extract tag c (p ++ b'\'' ∷ (escape doubled v ++ b'\'' ∷ s)) a)
    ∙ ap (write c) (scrub_from-literal fuel trim extract doubled tag p v s as' h (omega (arith, k)))

-- Where only bytes that open nothing stand before a quoted literal and no quote follows it, the
-- literal becomes one question mark, and what follows is scrubbed on its own: no byte of the value
-- shows in the text or in the tag. The literal is written as MySQL's default mode has it: every
-- backslash of the value is doubled, and its quotes are all doubled, or all have a backslash before
-- them. A literal with a backslash that stands for itself is not covered.
pub scrub_sql-literal :
    (trim : Bytes → Bytes) (extract doubled : Bool) (p v s : Bytes)
    → All (λ c. is_ordinary c ≡ true) p
    → starts b'\'' s ≡ false
    → scrub_sql trim (p ++ b'\'' ∷ (escape doubled v ++ b'\'' ∷ s)) extract
      ≡ write_all p (write b'?' (scrub_sql trim s extract))
scrub_sql-literal trim extract doubled p v s a h =
    scrub_from-literal (length (p ++ b'\'' ∷ (escape doubled v ++ b'\'' ∷ s))) trim extract doubled
      [] p v s a h (omega arith)
