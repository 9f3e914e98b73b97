-- ===== src/Sqlrows/Targets.antt =====
-- sqlrows/delta.go: the targets a section lists.
use isutools.Prelude.{
  Bool, true, false, ◌||◌, List, [], ◌∷◌, ◌++◌, map, Option, ◌≡◌, refl, sym, ap, ◌∙◌, inl, inr,
  Bool-cases, arith, is_some,
}
use isutools.Agg.{Key, same_key, key_less}
use isutools.Agg.Lookup.{same_key-eq}
use isutools.Sqlrows.{TargetSample, get}
use isutools.Sqlrows.Section.{TextReader, Sample, target}
use isutools.Sqlrows.Building.{
  Building, put_refused, put_measured, put_target, put_all, empty_section, build_section, insert_id,
  ids_into, union_ids,
}
use isutools.Sqlrows.Steps.{Put, refused, measured, put_target-Put}

abbrev pub has_id : Key → List Key → Bool
has_id k [] = false
has_id k (j ∷ js) = same_key j k || has_id k js

-- Each entry is less than the next one.
abbrev pub Ascending : List Key → Type 0
Ascending [] = Unit
Ascending (k ∷ []) = Unit
Ascending (k ∷ (j ∷ js)) = (key_less k j ≡ true) × Ascending (j ∷ js)

key_less_total : (k j : Key) → same_key k j ≡ false → key_less k j ≡ false → key_less j k ≡ true
key_less_total [] [] h l = absurd (cc)
key_less_total [] (b ∷ j) h l = absurd (cc)
key_less_total (a ∷ k) [] h l = refl
key_less_total (a ∷ k) (b ∷ j) h l = ground (arith, key_less_total k j)

insert_id-Ascending : (k : Key) (js : List Key) → Ascending js → Ascending (insert_id k js)
insert_id-Ascending k [] h = tt
insert_id-Ascending k (j ∷ []) h = elim (Bool-cases (same_key k j)) [
  | inl e ↦ rw e tt
  | inr e ↦ elim (Bool-cases (key_less k j)) [
    | inl l ↦ rw (e, l) (l, tt)
    | inr l ↦ rw (e, l) (key_less_total k j e l, tt)
  ]
]
insert_id-Ascending k (j ∷ (i ∷ js)) h = elim (Bool-cases (same_key k j)) [
  | inl e ↦ rw e h
  | inr e ↦ elim (Bool-cases (key_less k j)) [
    | inl l ↦ rw (e, l) (l, h)
    | inr l ↦
        let q = insert_id-Ascending k (i ∷ js) h.1 in
        let p = key_less_total k j e l in
        elim (Bool-cases (same_key k i)) [
          | inl f ↦ rw (e, l, f) h
          | inr f ↦ elim (Bool-cases (key_less k i)) [
            | inl m ↦ rw (e, l, f, m) (p, (rw (f, m) at q))
            | inr m ↦ rw (e, l, f, m) (h.0, (rw (f, m) at q))
          ]
        ]
  ]
]

ids_into-Ascending : (s : Sample) (js : List Key) → Ascending js → Ascending (ids_into s js)
ids_into-Ascending [] js h = h
ids_into-Ascending ((id, t) ∷ s) js h = insert_id-Ascending id _ (ids_into-Ascending s js h)

has_id-insert_id :
    (k id : Key) (js : List Key) → has_id k (insert_id id js) ≡ (same_key id k || has_id k js)
has_id-insert_id k id [] = refl
has_id-insert_id k id (j ∷ js) = elim (Bool-cases (same_key id j)) [
  | inl e ↦
      rw (e, same_key-eq id j e)
        (elim (Bool-cases (same_key j k)) [ inl f ↦ rw f refl | inr f ↦ rw f refl ])
  | inr e ↦ elim (Bool-cases (key_less id j)) [
    | inl l ↦ rw (e, l) refl
    | inr l ↦
        rw (e, l, has_id-insert_id k id js)
          (elim (Bool-cases (same_key j k)) [
            | inl f ↦ elim (Bool-cases (same_key id k)) [
              | inl g ↦ rw (f, g) refl
              | inr g ↦ rw (f, g) refl
            ]
            | inr f ↦ rw f refl
          ])
  ]
]

has_id-ids_into :
    (k : Key) (s : Sample) (js : List Key)
    → has_id k (ids_into s js) ≡ (is_some (get k s) || has_id k js)
has_id-ids_into k [] js = refl
has_id-ids_into k ((id, t) ∷ s) js =
    has_id-insert_id k id (ids_into s js) ∙ elim (Bool-cases (same_key id k)) [
      | inl e ↦ rw e refl
      | inr e ↦ rw e (has_id-ids_into k s js)
    ]

or_false : (b : Bool) → (b || false) ≡ b
or_false true = refl
or_false false = refl

append_assoc {ℓ} :
    {A : Type ℓ} (xs : List A) (y : A) (zs : List A) → (xs ++ y ∷ []) ++ zs ≡ xs ++ y ∷ zs
append_assoc [] y zs = refl
append_assoc (x ∷ xs) y zs = ap (λ l. x ∷ l) (append_assoc xs y zs)

map-append {ℓ κ} :
    {A : Type ℓ} {B : Type κ} (f : A → B) (xs ys : List A) → map f (xs ++ ys) ≡ map f xs ++ map f ys
map-append f [] ys = refl
map-append f (x ∷ xs) ys = ap (λ l. f x ∷ l) (map-append f xs ys)

append_empty {ℓ} : {A : Type ℓ} (xs : List A) → xs ++ [] ≡ xs
append_empty [] = refl
append_empty (x ∷ xs) = ap (λ l. x ∷ l) (append_empty xs)

abbrev pub ids_of : Building → List Key
ids_of s = map (λ t. t.target_id) s.targets

ids_of-put :
    (c : TextReader) (p o : Option TargetSample) (id : Key) (s r : Building)
    → Put c id p o s r
    → ids_of r ≡ ids_of s ++ id ∷ []
unfolding put_refused put_measured
ids_of-put c p o id s r (refused t b x e) =
    ap ids_of e
    ∙ map-append (λ t. t.target_id) s.targets (t ∷ [])
    ∙ ap (λ k. ids_of s ++ k ∷ []) b.same_id
ids_of-put c p o id s r (measured b f h g x k e) =
    ap ids_of e ∙ map-append (λ t. t.target_id) s.targets _

ids_of-put_all :
    (c : TextReader) (base final : Sample) (ids : List Key) (s : Building)
    → ids_of (put_all c base final ids s) ≡ ids_of s ++ ids
ids_of-put_all c base final [] s = sym (append_empty (ids_of s))
ids_of-put_all c base final (id ∷ ids) s =
    let b = target base id in
    let f = target final id in
    ids_of-put_all c base final ids (put_target c id b f s)
    ∙ ap (λ l. l ++ ids) (ids_of-put c b f id s _ (put_target-Put c id b f s))
    ∙ append_assoc (ids_of s) id ids

-- A section lists the targets in strictly ascending order, and lists a target exactly where the
-- opening or the closing reading has it: none is lost, and none is listed twice.
pub build_section-ids :
    (c : TextReader) (base final : Sample)
    → let ids = ids_of (build_section c base final) in
      Ascending ids
      × ((id : Key) → has_id id ids ≡ (is_some (get id base) || is_some (get id final)))
unfolding build_section union_ids
build_section-ids c base final =
    let e = ids_of-put_all c base final (union_ids base final) empty_section in
    (
      rw e (ids_into-Ascending base _ (ids_into-Ascending final [] tt)),
      λ id. rw e (
          has_id-ids_into id base _
          ∙ ap (λ b. is_some (get id base) || b)
              (has_id-ids_into id final [] ∙ or_false (is_some (get id final)))),
    )
