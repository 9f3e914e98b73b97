-- ===== src/Sqlstats/Total.antt =====
-- The loop of scrubSQL comes to an end: it takes at most one round for each byte of the statement.
use isutools.Prelude.{
  ℕ, zero, suc, ◌≤◌, ◌≡◌, refl, ap, inl, inr, Bool, [], ◌∷◌, Option, some, arith, length,
}
use isutools.Sqlstats.{Bytes, Turn, write, then_on, scrub_from, scrub_sql}
use isutools.Sqlstats.Turns.{Round, stops, masks, copied, turn-Round}

-- A text and a tag, the text no longer than a bound.
abbrev pub Done : ℕ → Option (Bytes × Bytes) → Type 0
Done n o = (out : Bytes) × (tag : Bytes) × (o ≡ some (out, tag)) × (length out ≤ n)

write-Done : (n b : ℕ) (o : Option (Bytes × Bytes)) → Done n o → Done (suc n) (write b o)
write-Done n b o (out, tag, e, h) = (b ∷ out, tag, ap (write b) e, omega (arith, h))

more_rounds : (m n : ℕ) (o : Option (Bytes × Bytes)) → m ≤ n → Done m o → Done n o
more_rounds m n o k (out, tag, e, h) = (out, tag, e, omega (arith, h, k))

then_on-Done :
    {tag : Bytes} {c : ℕ} {q : Bytes} {t : Turn} (loop : Bytes → Bytes → Option (Bytes × Bytes))
    → Round tag c q t
    → ((tag' r : Bytes) → length r ≤ length q → Done (length r) (loop tag' r))
    → Done (suc (length q)) (then_on loop tag t)
then_on-Done {tag} loop (stops out n (inl e)) h = (out, tag, refl, omega (arith, ap length e))
then_on-Done {tag} loop (stops out n (inr e)) h = (out, tag, refl, omega (arith, ap length e))
then_on-Done {q = q} loop (masks b tag' r n m k) h =
    more_rounds (suc (length r)) (suc (length q)) (write b (loop tag' r)) (omega (arith, k))
      (write-Done (length r) b (loop tag' r) (h tag' r k))
then_on-Done {tag} {c} {q} loop (copied k) h =
    write-Done (length q) c (loop tag q) (h tag q (omega arith))

then_on_agree :
    {tag : Bytes} {c : ℕ} {q : Bytes} {t : Turn}
    (loop other : Bytes → Bytes → Option (Bytes × Bytes))
    → Round tag c q t
    → ((tag' r : Bytes) → length r ≤ length q → loop tag' r ≡ other tag' r)
    → then_on loop tag t ≡ then_on other tag t
then_on_agree loop other (stops out n e) h = refl
then_on_agree loop other (masks b tag' r n m k) h = ap (write b) (h tag' r k)
then_on_agree {tag} {c} {q} loop other (copied k) h = ap (write c) (h tag q (omega arith))

scrub_from-Done :
    (fuel : ℕ) (trim : Bytes → Bytes) (extract : Bool) (tag q : Bytes)
    → length q ≤ fuel
    → Done (length q) (scrub_from fuel trim extract tag q)
unfolding scrub_from
scrub_from-Done fuel trim extract tag [] h = ([], tag, refl, omega arith)
scrub_from-Done zero trim extract tag (c ∷ q) h = absurd (omega (arith, h))
scrub_from-Done (suc fuel) trim extract tag (c ∷ q) h =
    then_on-Done (scrub_from fuel trim extract) (turn-Round trim extract tag c q)
      (λ tag' r k. scrub_from-Done fuel trim extract tag' r (omega (arith, h, k)))

pub scrub_from_fuel :
    (f g : ℕ) (trim : Bytes → Bytes) (extract : Bool) (tag q : Bytes)
    → length q ≤ f
    → length q ≤ g
    → scrub_from f trim extract tag q ≡ scrub_from g trim extract tag q
unfolding scrub_from
scrub_from_fuel f g trim extract tag [] h k = refl
scrub_from_fuel zero g trim extract tag (c ∷ q) h k = absurd (omega (arith, h))
scrub_from_fuel (suc f) zero trim extract tag (c ∷ q) h k = absurd (omega (arith, k))
scrub_from_fuel (suc f) (suc g) trim extract tag (c ∷ q) h k =
    then_on_agree (scrub_from f trim extract) (scrub_from g trim extract)
      (turn-Round trim extract tag c q)
      (λ tag' r w.
        scrub_from_fuel f g trim extract tag' r (omega (arith, h, w)) (omega (arith, k, w)))

-- scrubSQL returns on every statement, after at most as many rounds as it has bytes; rounds left
-- over change nothing; and its text is no longer than the statement.
pub scrub_sql-Done :
    (fuel : ℕ) (trim : Bytes → Bytes) (extract : Bool) (q : Bytes)
    → length q ≤ fuel
    → Done (length q) (scrub_sql trim q extract)
      × (scrub_from fuel trim extract [] q ≡ scrub_sql trim q extract)
scrub_sql-Done fuel trim extract q h = (
  scrub_from-Done (length q) trim extract [] q (omega arith),
  scrub_from_fuel fuel (length q) trim extract [] q h (omega arith),
)
