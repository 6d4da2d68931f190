-- ===== src/MapReduce/Emit.antt =====
-- `mr_emit_i` against a finite map from keys to lists of values.
use cmpt201_coursework.Prelude.{
  ◌+◌, ◌≤◌, ◌<◌, ◌≡◌, refl, ap, ◌∙◌, subst, inl, inr, true, false, ◌||◌, Bool-cases, List, [], ◌∷◌,
  ◌++◌, arith, ltb, leb, if◌then◌else◌, length, length-append, ok,
}
use cmpt201_coursework.Text.{Text, same, same_refl, eq_of_same}
use cmpt201_coursework.MapReduce.{
  max_intermediate, max_values_per_key, max_size, OutKv, Intermediate, find_intermediate, add_value,
  mr_emit_i,
}

-- The values of a key: those of its first entry.
unfoldable pub values : Text → Intermediate → List Text
values k [] = []
values k (kv ∷ xs) = if same kv.key k then kv.value else values k xs

-- No key has two entries.
abbrev pub Distinct : Intermediate → Type 0
Distinct [] = Unit
Distinct (kv ∷ xs) = (find_intermediate kv.key xs ≡ false) × Distinct xs

-- `ys` is `xs` with `value` behind the values of `key`, and still without a key that has two entries.
pub record Added (key value : Text) (xs ys : Intermediate) : Type 0 where
  pub at_key :
      (k : Text) → values k ys ≡ (if same key k then values k xs ++ (value ∷ []) else values k xs)
  pub distinct : Distinct ys
  pub grows : length ys ≤ length xs + 1
  pub found : (k : Text) → find_intermediate k ys ≡ (find_intermediate k xs || same key k)

pub same-sym : (s t : Text) → same s t ≡ true → same t s ≡ true
same-sym s t h = subst (λ u. same u s ≡ true) (eq_of_same s t h) (same_refl s)

pub same_trans : (s t u : Text) → same s t ≡ true → same s u ≡ same t u
same_trans s t u h = ap (λ z. same z u) (eq_of_same s t h)

pub clash : (s t u : Text) → same s u ≡ true → same t u ≡ true → same s t ≡ true
clash s t u h h' = same_trans s u t h ∙ same-sym t u h'

abbrev pub fresh : Text → OutKv
fresh key = record { key = key; value = [] }

module _ (key value : Text) (short : length value < max_size) where
  pub add_value-Added :
      (xs : Intermediate)
      → find_intermediate key xs ≡ true
      → length (values key xs) < max_values_per_key
      → Distinct xs
      → (ys : Intermediate) × (add_value key value xs ≡ ok ys)
        × Added key value xs ys
        × (length ys ≡ length xs)
  unfolding add_value find_intermediate values
  add_value-Added [] h room d = cc
  add_value-Added (kv ∷ xs) h room d = elim (Bool-cases (same kv.key key)) [
    | inl hit ↦ (
      record kv { value = kv.value ++ (value ∷ []) } ∷ xs,
      ground arith,
      record {
        at_key = λ k. ground (arith, same_trans kv.key key k);
        distinct = d;
        grows = omega arith;
        found = λ k. ground (arith, same_trans kv.key key k);
      },
      refl,
    )
    | inr miss ↦
        let (ys, e, a, l) = add_value-Added xs (ground arith) (ground arith) d.1 in
        (
          kv ∷ ys,
          rw (miss, e),
          record {
            at_key = λ k. ground (arith, a.at_key k, clash kv.key key k);
            distinct = (ground (arith, a.found kv.key, same-sym key kv.key), a.distinct);
            grows = omega (arith, a.grows);
            found = λ k. ground (arith, a.found k);
          },
          omega arith,
        )
  ]

-- The entry that is made for a new key holds no value.
pub values-fresh :
    (key k : Text) (xs : Intermediate)
    → find_intermediate key xs ≡ false
    → values k (xs ++ (fresh key ∷ [])) ≡ values k xs
unfolding values find_intermediate
values-fresh key k [] h = ground arith
values-fresh key k (kv ∷ xs) h = ground (arith, values-fresh key k xs)

pub find-fresh :
    (key k : Text) (xs : Intermediate)
    → find_intermediate k (xs ++ (fresh key ∷ [])) ≡ (find_intermediate k xs || same key k)
unfolding find_intermediate
find-fresh key k [] = ground arith
find-fresh key k (kv ∷ xs) = ground (arith, find-fresh key k xs)

pub Distinct-fresh :
    (key : Text) (xs : Intermediate)
    → find_intermediate key xs ≡ false
    → Distinct xs
    → Distinct (xs ++ (fresh key ∷ []))
unfolding find_intermediate
Distinct-fresh key [] h d = (refl, tt)
Distinct-fresh key (kv ∷ xs) h d = (
  ground (arith, find-fresh key kv.key xs, same-sym key kv.key),
  Distinct-fresh key xs (ground arith) d.1,
)

values_unfound : (k : Text) (xs : Intermediate) → find_intermediate k xs ≡ false → values k xs ≡ []
unfolding values find_intermediate
values_unfound k [] h = refl
values_unfound k (kv ∷ xs) h = ground (arith, values_unfound k xs)

-- An emission whose texts fit, into a table with a free entry and with room for one more value of
-- the key, succeeds: the value goes behind those of its key, the values of every other key stay, the
-- key and no other becomes known, and distinct keys stay distinct.
pub mr_emit_i-Added :
    (key value : Text) (xs : Intermediate)
    → length key < max_size
    → length value < max_size
    → length xs < max_intermediate
    → length (values key xs) < max_values_per_key
    → Distinct xs
    → (ys : Intermediate) × (mr_emit_i (key, value) xs ≡ ok (true, ys)) × Added key value xs ys
unfolding mr_emit_i
mr_emit_i-Added key value xs short short' few room d =
    elim (Bool-cases (find_intermediate key xs)) [
      | inl old ↦
          let (ys, e, a, _) = add_value-Added key value short' xs old room d in (ys, rw (old, e), a)
      | inr new ↦
          let (ys, e, a, l) =
            add_value-Added key value short' (xs ++ (fresh key ∷ []))
              (ground (arith, find-fresh key key xs, same_refl key))
              (rw (values-fresh key key xs new) room) (Distinct-fresh key xs new d) in
          (
            ys,
            (let not_full : leb max_intermediate (length xs) ≡ false = ground arith in
                let fits : ltb (length key) max_size ≡ true = ground arith in
                rw (new, not_full, fits, e)),
            record {
              at_key = λ k. a.at_key k ∙ rw (values-fresh key k xs new) refl;
              distinct = a.distinct;
              grows = omega (arith, length-append xs (fresh key ∷ []));
              found = λ k. ground (arith, a.found k, find-fresh key k xs);
            },
          )
    ]
