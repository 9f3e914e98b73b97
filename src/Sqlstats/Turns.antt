-- ===== src/Sqlstats/Turns.antt =====
-- The rounds of the loop: what each one writes, and that it comes closer to the end.
use isutools.Prelude.{
  ℕ, ◌≤◌, ◌≡◌, refl, subst, ◌⊎◌, inl, inr, Bool, true, false, not, ◌&&◌, ◌||◌, [], ◌∷◌, ◌++◌,
  Option, none, some, arith, length, ltb, ◌==◌, Bool-cases,
}
use isutools.Sqlstats.{
  Bytes, starts, tail, cut_at, put_before, strip_prefix, or_later, split_on, skip_quoted, good_name,
  dollar_name, rest_of, skip_dollar_quoted, Turn, ends, goes, block_comment, line_comment, dollar,
  turn, comment_tag, all_dollar_tag_bytes,
}

-- A part of the statement that is left, at most as long.
abbrev pub Shorter : Bytes → Option (Bytes × Bytes) → Type 0
Shorter q none = Unit
Shorter q (some (l, r)) = length r ≤ length q

put_before-Shorter :
    (c : ℕ) (q : Bytes) (o : Option (Bytes × Bytes))
    → Shorter q o
    → Shorter (c ∷ q) (put_before c o)
put_before-Shorter c q none h = tt
put_before-Shorter c q (some (l, r)) h = omega (arith, h)

pub cut_at-Shorter : (b : ℕ) (q : Bytes) → Shorter q (cut_at b q)
cut_at-Shorter b [] = tt
cut_at-Shorter b (c ∷ q) = elim (Bool-cases (c == b)) [
  | inl e ↦ rw e (omega arith)
  | inr e ↦ rw e (put_before-Shorter c q (cut_at b q) (cut_at-Shorter b q))
]

abbrev Left : Bytes → Option Bytes → Type 0
Left q none = Unit
Left q (some r) = length r ≤ length q

Left-longer : (c : ℕ) (q : Bytes) (o : Option Bytes) → Left q o → Left (c ∷ q) o
Left-longer c q none h = tt
Left-longer c q (some r) h = omega (arith, h)

strip_prefix-Left : (d q : Bytes) → Left q (strip_prefix d q)
strip_prefix-Left [] q = omega arith
strip_prefix-Left (x ∷ d) [] = tt
strip_prefix-Left (x ∷ d) (c ∷ q) = elim (Bool-cases (c == x)) [
  | inl e ↦ rw e (Left-longer c q (strip_prefix d q) (strip_prefix-Left d q))
  | inr e ↦ rw e tt
]

or_later-Shorter :
    (q : Bytes) (o : Option Bytes) (p : Option (Bytes × Bytes))
    → Left q o
    → Shorter q p
    → Shorter q (or_later o p)
or_later-Shorter q none p h k = k
or_later-Shorter q (some r) p h k = h

pub split_on-Shorter : (d q : Bytes) → Shorter q (split_on d q)
unfolding split_on
split_on-Shorter d [] = or_later-Shorter [] (strip_prefix d []) none (strip_prefix-Left d []) tt
split_on-Shorter d (c ∷ q) =
    or_later-Shorter (c ∷ q) (strip_prefix d (c ∷ q)) (put_before c (split_on d q))
      (strip_prefix-Left d (c ∷ q)) (put_before-Shorter c q (split_on d q) (split_on-Shorter d q))

skip_quoted-le : (quote : ℕ) (q : Bytes) → length (skip_quoted quote q) ≤ length q
unfolding skip_quoted
skip_quoted-le quote [] = omega arith
skip_quoted-le quote (c ∷ []) = omega arith
skip_quoted-le quote (c ∷ (d ∷ q)) =
    ground (arith, skip_quoted-le quote q, skip_quoted-le quote (d ∷ q))

rest_of-le : (q : Bytes) (o : Option (Bytes × Bytes)) → Shorter q o → length (rest_of o) ≤ length q
rest_of-le q none h = omega arith
rest_of-le q (some (l, r)) h = h

skip_dollar_quoted-le : (name q : Bytes) → length (skip_dollar_quoted name q) ≤ length q
unfolding skip_dollar_quoted
skip_dollar_quoted-le name q =
    rest_of-le q (split_on (b'$' ∷ (name ++ b'$' ∷ [])) q)
      (split_on-Shorter (b'$' ∷ (name ++ b'$' ∷ [])) q)

good_name-Shorter : (q : Bytes) (o : Option (Bytes × Bytes)) → Shorter q o → Shorter q (good_name o)
good_name-Shorter q none h = h
good_name-Shorter q (some (name, r)) h =
    elim (Bool-cases (not (ltb 64 (length name)) && all_dollar_tag_bytes true name)) [
      | inl e ↦ rw e h
      | inr e ↦ rw e tt
    ]

tail-le : (q : Bytes) → length (tail q) ≤ length q
tail-le [] = omega arith
tail-le (c ∷ q) = omega arith

abbrev pub opens : Option (Bytes × Bytes) → Bool
opens none = false
opens (some p) = true

-- A byte that is copied to the text.
abbrev pub copies : ℕ → Bytes → Bool
copies c q =
    not (c == b'/' && starts b'*' q)
    && not (c == b'-' && starts b'-' q)
    && not (c == b'#')
    && not (c == b'\'')
    && not (c == b'$' && opens (dollar_name q))

-- A round ends the loop with at most a space, or replaces what it passes over by a space or a
-- question mark, or copies one byte.
abbrev pub is_mask : ℕ → Bool
is_mask b = b == b' ' || b == b'?'

pub data Round (tag : Bytes) (c : ℕ) (q : Bytes) : Turn → Type 0 where
  stops :
      (out : Bytes) → copies c q ≡ false → (out ≡ []) ⊎ (out ≡ b' ' ∷ []) → Round tag c q (ends out)
  masks :
      (b : ℕ) (tag' r : Bytes)
      → copies c q ≡ false
      → is_mask b ≡ true
      → length r ≤ length q
      → Round tag c q (goes b tag' r)
  copied : copies c q ≡ true → Round tag c q (goes c tag q)

block_comment-Round :
    (trim : Bytes → Bytes) (extract : Bool) (tag : Bytes) (c : ℕ) (q p : Bytes)
    (o : Option (Bytes × Bytes))
    → copies c q ≡ false
    → length p ≤ length q
    → Shorter p o
    → Round tag c q (block_comment trim extract tag o)
block_comment-Round trim extract tag c q p none h k s = stops (b' ' ∷ []) h (inr refl)
block_comment-Round trim extract tag c q p (some (l, r)) h k s =
    masks b' ' (comment_tag trim extract tag l) r h refl (omega (arith, k, s))

line_comment-Round :
    (tag : Bytes) (c : ℕ) (q p : Bytes) (o : Option (Bytes × Bytes))
    → copies c q ≡ false
    → length p ≤ length q
    → Shorter p o
    → Round tag c q (line_comment tag o)
line_comment-Round tag c q p none h k s = stops [] h (inl refl)
line_comment-Round tag c q p (some (l, r)) h k s = masks b' ' tag r h refl (omega (arith, k, s))

dollar-Round :
    (tag : Bytes) (c : ℕ) (q : Bytes) (o : Option (Bytes × Bytes))
    → c ≡ b'$'
    → copies c q ≡ not (opens o)
    → Shorter q o
    → Round tag c q (dollar tag q o)
dollar-Round tag c q none e h s = subst (λ b. Round tag c q (goes b tag q)) e (copied h)
dollar-Round tag c q (some (name, r)) e h s =
    masks b'?' tag (skip_dollar_quoted name r) h refl
      (omega (arith, s, skip_dollar_quoted-le name r))

-- Every round is one of the three.
pub turn-Round :
    (trim : Bytes → Bytes) (extract : Bool) (tag : Bytes) (c : ℕ) (q : Bytes)
    → Round tag c q (turn trim extract tag c q)
unfolding turn
turn-Round trim extract tag c q = elim (Bool-cases (c == b'/' && starts b'*' q)) [
  | inl e ↦ rw e (
      block_comment-Round trim extract tag c q (tail q) (split_on (b'*' ∷ b'/' ∷ []) (tail q))
        (rw e refl) (tail-le q) (split_on-Shorter (b'*' ∷ b'/' ∷ []) (tail q)))
  | inr e ↦ elim (Bool-cases (c == b'-' && starts b'-' q)) [
    | inl f ↦
        rw (e, f)
          (line_comment-Round tag c q (tail q) (cut_at b'\n' (tail q)) (rw (e, f) refl) (tail-le q)
            (cut_at-Shorter b'\n' (tail q)))
    | inr f ↦ elim (Bool-cases (c == b'#')) [
      | inl g ↦
          rw (e, f, g)
            (line_comment-Round tag c q q (cut_at b'\n' q) (rw (e, f, g) refl) (omega arith)
              (cut_at-Shorter b'\n' q))
      | inr g ↦ elim (Bool-cases (c == b'\'')) [
        | inl h ↦
            rw (e, f, g, h)
              (masks b'?' tag (skip_quoted b'\'' q) (rw (e, f, g, h) refl) refl
                (skip_quoted-le b'\'' q))
        | inr h ↦ elim (Bool-cases (c == b'$')) [
          | inl i ↦
              rw (e, f, g, h, i)
                (dollar-Round tag c q (dollar_name q) (ground (arith, i)) (rw (e, f, g, h, i) refl)
                  (good_name-Shorter q (cut_at b'$' q) (cut_at-Shorter b'$' q)))
          | inr i ↦ rw (e, f, g, h, i) (copied (rw (e, f, g, h, i) refl))
        ]
      ]
    ]
  ]
]
