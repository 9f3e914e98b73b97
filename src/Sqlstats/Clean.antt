-- ===== src/Sqlstats/Clean.antt =====
-- The text that scrubSQL gives: nothing in it opens a literal or a comment.
use isutools.Prelude.{
  ℕ, zero, suc, ◌≡◌, refl, ap, sym, ◌∙◌, subst, ◌⊎◌, inl, inr, Bool, true, false, not, ◌&&◌, [],
  ◌∷◌, Option, none, some, arith, length, ltb, ◌==◌, Bool-cases, All,
}
use isutools.Sqlstats.{
  Bytes, Turn, goes, write, then_on, scrub_from, scrub_sql, starts, cut_at, put_before, dollar_name,
  good_name, all_dollar_tag_bytes,
}
use isutools.Sqlstats.Turns.{Round, stops, masks, copied, turn-Round, copies, opens, is_mask}

-- A text of which every byte would be copied.
abbrev pub Plain : Bytes → Type 0
Plain [] = Unit
Plain (c ∷ q) = (copies c q ≡ true) × Plain q

copied_turn :
    {tag : Bytes} {c : ℕ} {q : Bytes} {t : Turn}
    → Round tag c q t
    → copies c q ≡ true
    → t ≡ goes c tag q
copied_turn (stops out n e) h = absurd (cc (n, h))
copied_turn (masks b tag' r n m k) h = absurd (cc (n, h))
copied_turn (copied k) h = refl

pub scrub_from-Plain :
    (trim : Bytes → Bytes) (extract : Bool) (tag l : Bytes)
    → Plain l
    → scrub_from (length l) trim extract tag l ≡ some (l, tag)
unfolding scrub_from
scrub_from-Plain trim extract tag [] h = refl
scrub_from-Plain trim extract tag (c ∷ q) (h, hs) =
    ap (then_on (scrub_from (length q) trim extract) tag)
      (copied_turn (turn-Round trim extract tag c q) h)
    ∙ ap (write c) (scrub_from-Plain trim extract tag q hs)

-- How a text comes about.
data Wrote : Bytes → Bytes → Type 0 where
  stop : (q out : Bytes) → (out ≡ []) ⊎ (out ≡ b' ' ∷ []) → Wrote q out
  masked : (q r o : Bytes) (b : ℕ) → is_mask b ≡ true → Wrote r o → Wrote q (b ∷ o)
  kept : (q o : Bytes) (c : ℕ) → copies c q ≡ true → Wrote q o → Wrote (c ∷ q) (c ∷ o)

write_inv :
    (b : ℕ) (o : Option (Bytes × Bytes)) (out tag : Bytes)
    → write b o ≡ some (out, tag)
    → (l : Bytes) × (out ≡ b ∷ l) × (o ≡ some (l, tag))
write_inv b none out tag e = absurd (cc e)
write_inv b (some (l, t)) out tag e = (l, cc e, cc e)

then_on-Wrote :
    {tag : Bytes} {c : ℕ} {q : Bytes} {t : Turn} (loop : Bytes → Bytes → Option (Bytes × Bytes))
    (out tag'' : Bytes)
    → Round tag c q t
    → ((tag' r o : Bytes) → loop tag' r ≡ some (o, tag'') → Wrote r o)
    → then_on loop tag t ≡ some (out, tag'')
    → Wrote (c ∷ q) out
then_on-Wrote {tag} {c} {q} loop out tag'' (stops l n e) h w =
    let s : l ≡ out = cc w in subst (λ x. Wrote (c ∷ q) x) s (stop (c ∷ q) l e)
then_on-Wrote {tag} {c} {q} loop out tag'' (masks b tag' r n m k) h w =
    let (l, e, f) = write_inv b (loop tag' r) out tag'' w in
    subst (λ x. Wrote (c ∷ q) x) (sym e) (masked (c ∷ q) r l b m (h tag' r l f))
then_on-Wrote {tag} {c} {q} loop out tag'' (copied k) h w =
    let (l, e, f) = write_inv c (loop tag q) out tag'' w in
    subst (λ x. Wrote (c ∷ q) x) (sym e) (kept q l c k (h tag q l f))

scrub_from-Wrote :
    (fuel : ℕ) (trim : Bytes → Bytes) (extract : Bool) (tag q out tag'' : Bytes)
    → scrub_from fuel trim extract tag q ≡ some (out, tag'')
    → Wrote q out
unfolding scrub_from
scrub_from-Wrote fuel trim extract tag [] out tag'' h = stop [] out (inl (cc h))
scrub_from-Wrote zero trim extract tag (c ∷ q) out tag'' h = absurd (cc h)
scrub_from-Wrote (suc fuel) trim extract tag (c ∷ q) out tag'' h =
    then_on-Wrote (scrub_from fuel trim extract) out tag'' (turn-Round trim extract tag c q)
      (λ tag' r o e. scrub_from-Wrote fuel trim extract tag' r o tag'' e) h

-- A byte that is no mask comes from the statement.
starts_before :
    {q o : Bytes} (b : ℕ) → Wrote q o → is_mask b ≡ false → starts b o ≡ true → starts b q ≡ true
starts_before b (stop q out (inl e)) m s = absurd (cc (rw e at s))
starts_before b (stop q out (inr e)) m s = absurd (ground (arith, m, rw e at s))
starts_before b (masked q r o a n w) m s = absurd (ground (arith, m, n, s))
starts_before b (kept q o c k w) m s = s

put_before_inv :
    (c : ℕ) (o : Option (Bytes × Bytes)) (l r : Bytes)
    → put_before c o ≡ some (l, r)
    → (k : Bytes) × (l ≡ c ∷ k) × (o ≡ some (k, r))
put_before_inv c none l r e = absurd (cc e)
put_before_inv c (some (k, s)) l r e = (k, cc e, cc e)

-- What stands before a dollar sign of the text, without masks, stands before one of the statement.
cut_before :
    {q o : Bytes} (name r : Bytes)
    → Wrote q o
    → cut_at b'$' o ≡ some (name, r)
    → All (λ b. is_mask b ≡ false) name
    → (r' : Bytes) × (cut_at b'$' q ≡ some (name, r'))
cut_before name r (stop q out (inl e)) h a = absurd (cc (rw e at h))
cut_before name r (stop q out (inr e)) h a = absurd (cc (rw e at h))
cut_before name r (masked q s o b n w) h a =
    let d : (b == b'$') ≡ false = ground (arith, n) in
    let (k, e, f) = put_before_inv b (cut_at b'$' o) name r (rw d at h) in
    absurd (cc (n, (rw e at a).0))
cut_before name r (kept q o c k w) h a = elim (Bool-cases (c == b'$')) [
  | inl d ↦ let h' = rw d at h in let e : name ≡ [] = cc h' in (q, rw (d, e) refl)
  | inr d ↦
      let (l, e, f) = put_before_inv c (cut_at b'$' o) name r (rw d at h) in
      let (r', g) = cut_before l r w f (rw e at a).1 in (r', rw (d, g, e) refl)
]

dollar_tag-unmasked :
    (first : Bool) (name : Bytes)
    → all_dollar_tag_bytes first name ≡ true
    → All (λ b. is_mask b ≡ false) name
dollar_tag-unmasked first [] h = tt
dollar_tag-unmasked first (c ∷ name) h =
    (ground (arith, h), dollar_tag-unmasked false name (ground (arith, h)))

good_name_inv :
    (o : Option (Bytes × Bytes))
    → opens (good_name o) ≡ true
    → (name : Bytes) × (r : Bytes) × (o ≡ some (name, r))
      × ((not (ltb 64 (length name)) && all_dollar_tag_bytes true name) ≡ true)
good_name_inv none h = absurd (cc h)
good_name_inv (some (name, r)) h =
    elim (Bool-cases (not (ltb 64 (length name)) && all_dollar_tag_bytes true name)) [
      | inl e ↦ (name, r, refl, e)
      | inr e ↦ absurd (cc (rw e at h))
    ]

opens_before :
    {q o : Bytes} → Wrote q o → opens (dollar_name o) ≡ true → opens (dollar_name q) ≡ true
opens_before {q} {o} w h =
    let (name, r, e, g) = good_name_inv (cut_at b'$' o) h in
    let (r', f) = cut_before name r w e (dollar_tag-unmasked true name (ground (arith, g))) in
    rw (f, g) refl

kept-copies : {q o : Bytes} (c : ℕ) → Wrote q o → copies c q ≡ true → copies c o ≡ true
kept-copies {q} {o} c w h =
    ground (arith, h, starts_before b'*' w refl, starts_before b'-' w refl, opens_before w)

mask-copies : (b : ℕ) (o : Bytes) → is_mask b ≡ true → copies b o ≡ true
mask-copies b o h = ground (arith, h)

Wrote-Plain : {q o : Bytes} → Wrote q o → Plain o
Wrote-Plain (stop q o (inl e)) = rw e tt
Wrote-Plain (stop q o (inr e)) = rw e (refl, tt)
Wrote-Plain (masked q r o b n w) = (mask-copies b o n, Wrote-Plain w)
Wrote-Plain (kept q o c k w) = (kept-copies c w k, Wrote-Plain w)

-- The text of scrubSQL holds no quote, no hash, no comment opener and no opener of a dollar quoted
-- literal: each of its bytes is one that is copied, and so scrubbing it again changes nothing and
-- finds no tag, whichever way tags are treated.
pub scrub_sql_idem :
    (trim : Bytes → Bytes) (extract extract' : Bool) (q out tag : Bytes)
    → scrub_sql trim q extract ≡ some (out, tag)
    → Plain out × (scrub_sql trim out extract' ≡ some (out, []))
scrub_sql_idem trim extract extract' q out tag h =
    let p = Wrote-Plain (scrub_from-Wrote (length q) trim extract [] q out tag h) in
    (p, scrub_from-Plain trim extract' [] out p)
