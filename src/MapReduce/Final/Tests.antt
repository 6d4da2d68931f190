-- ===== src/MapReduce/Final/Tests.antt =====
-- A run of `mr_exec` with a hash table that is a list.
use mathlib.Core.List.{Permᴰ}
use cmpt201_coursework.Prelude.{
  ◌+◌, ◌≡◌, ◌≤◌, refl, inl, inr, Bool-cases, Bool, true, ◌||◌, List, [], ◌∷◌, ◌++◌, arith,
  if◌then◌else◌, length, All, ok,
}
use cmpt201_coursework.Text.{Text, same}
use cmpt201_coursework.MapReduce.{
  max_values_per_key, Pair, OutKv, Intermediate, map_phase, mr_emit_i, emit_all,
  find_or_create_intermediate, find_intermediate, add_value, pieces, thread_emits,
}
use cmpt201_coursework.MapReduce.Emit.{values, Distinct}
use cmpt201_coursework.MapReduce.Threads.{Interleave, stop, pick, count, sent}
use cmpt201_coursework.MapReduce.Final.{
  Ordered, Uthash, find_item, replace_item, final_kv_cmp, reducers, mr_exec,
}
use cmpt201_coursework.MapReduce.Final.Output.{mr_exec-output}

itself : (xs : List OutKv) → Permᴰ xs xs
itself [] = Permᴰ.nil
itself (x ∷ xs) = Permᴰ.cons refl (itself xs)

module _ (before : OutKv → OutKv → Bool) where
  unfoldable put_in : OutKv → List OutKv → List OutKv
  put_in x [] = x ∷ []
  put_in x (y ∷ ys) = if before x y then x ∷ y ∷ ys else y ∷ put_in x ys

  unfoldable sorted : List OutKv → List OutKv
  sorted [] = []
  sorted (x ∷ xs) = put_in x (sorted xs)

  put_in-Perm : (x : OutKv) (ys : List OutKv) → Permᴰ (x ∷ ys) (put_in x ys)
  unfolding put_in
  put_in-Perm x [] = Permᴰ.cons refl Permᴰ.nil
  put_in-Perm x (y ∷ ys) = elim (Bool-cases (before x y)) [
    | inl e ↦ rw (e) (itself (x ∷ y ∷ ys))
    | inr e ↦ rw (e) (Permᴰ.trans (Permᴰ.swap refl refl) (Permᴰ.cons refl (put_in-Perm x ys)))
  ]

  sorted-Perm : (xs : List OutKv) → Permᴰ xs (sorted xs)
  unfolding sorted
  sorted-Perm [] = Permᴰ.nil
  sorted-Perm (x ∷ xs) = Permᴰ.trans (Permᴰ.cons refl (sorted-Perm xs)) (put_in-Perm x (sorted xs))

  module _ (total : (a b : OutKv) → (before a b || before b a) ≡ true)
      (transitive : (a b c : OutKv)
        → before a b ≡ true
        → before b c ≡ true
        → before a c ≡ true) where
    below :
        (x y : OutKv) (ys : List OutKv)
        → before x y ≡ true
        → All (λ z. before y z ≡ true) ys
        → All (λ z. before x z ≡ true) ys
    below x y [] h a = tt
    below x y (z ∷ ys) h a = (transitive x y z h a.0, below x y ys h a.1)

    put_in-above :
        (y x : OutKv) (ys : List OutKv)
        → before y x ≡ true
        → All (λ z. before y z ≡ true) ys
        → All (λ z. before y z ≡ true) (put_in x ys)
    unfolding put_in
    put_in-above y x [] h a = (h, tt)
    put_in-above y x (z ∷ ys) h a = elim (Bool-cases (before x z)) [
      | inl e ↦ rw (e) (h, a)
      | inr e ↦ rw (e) (a.0, put_in-above y x ys h a.1)
    ]

    put_in-Ordered :
        (x : OutKv) (ys : List OutKv) → Ordered before ys → Ordered before (put_in x ys)
    unfolding put_in
    put_in-Ordered x [] o = (tt, tt)
    put_in-Ordered x (y ∷ ys) o = elim (Bool-cases (before x y)) [
      | inl e ↦ rw (e) ((e, below x y ys e o.0), o)
      | inr e ↦
          let h : before y x ≡ true = ground (arith, total x y) in
          rw (e) (put_in-above y x ys h o.0, put_in-Ordered x ys o.1)
    ]

    sorted-Ordered : (xs : List OutKv) → Ordered before (sorted xs)
    unfolding sorted
    sorted-Ordered [] = tt
    sorted-Ordered (x ∷ xs) = put_in-Ordered x (sorted xs) (sorted-Ordered xs)

abbrev list_table : Uthash
list_table = record {
  Table = List OutKv;
  null_table = [];
  items = λ t. t;
  hash_find = find_item;
  hash_add = λ kv t. t ++ (kv ∷ []);
  hash_write = replace_item;
  hash_sort = sorted;
  hash_count = length;
  items-null = refl;
  items-find = λ key t. refl;
  items-add = λ kv t. refl;
  items-write = λ kv t. refl;
  items-sort = sorted-Perm;
  sort-Ordered = λ before t total transitive. sorted-Ordered before total transitive t;
  items-count = λ t. refl;
}

-- The words "b" and "a", and again "b", each with the value "1".
abbrev emitted : List Pair
emitted = (98 ∷ [], 49 ∷ []) ∷ (97 ∷ [], 49 ∷ []) ∷ (98 ∷ [], 49 ∷ []) ∷ []

abbrev intermediate : Intermediate
intermediate =
    record { key = 98 ∷ []; value = (49 ∷ []) ∷ (49 ∷ []) ∷ [] }
    ∷ record { key = 97 ∷ []; value = (49 ∷ []) ∷ [] }
    ∷ []

mapped : map_phase 1 emitted ≡ ok intermediate
unfolding map_phase emit_all mr_emit_i find_or_create_intermediate find_intermediate add_value
mapped = refl

-- A callback that emits the first value of its key.
unfoldable first : OutKv → List Pair
first kv = elim kv.value [ [] ↦ [] | v ∷ vs ↦ (kv.key, v) ∷ [] ]

-- The second of two reducers is first.
abbrev order : List Pair
order = (97 ∷ [], 49 ∷ []) ∷ (98 ∷ [], 49 ∷ []) ∷ []

order-Interleave : Interleave (reducers first intermediate 2) order
unfolding pieces thread_emits first
order-Interleave =
    pick (((98 ∷ [], 49 ∷ []) ∷ []) ∷ []) [] (97 ∷ [], 49 ∷ []) [] refl
      (pick [] ([] ∷ []) (98 ∷ [], 49 ∷ []) [] refl (stop refl))

first-few :
    (k : Text)
    → length (values k []) + length (sent k (thread_emits first intermediate)) ≤ max_values_per_key
unfolding sent thread_emits first values
first-few k = ground arith

mr_exec-output_example :
    (out : List OutKv) × (t' : List OutKv) × (mr_exec list_table 1 emitted 2 order []
      ≡ ok (out, t'))
    × Ordered final_kv_cmp out
    × Distinct out
    × ((k v : Text)
        → count (λ w. same w v) (values k out)
          ≡ count (λ w. same w v) (values k [])
            + count (λ w. same w v) (sent k (thread_emits first intermediate)))
unfolding thread_emits first
mr_exec-output_example =
    mr_exec-output list_table 1 emitted intermediate first 2 order [] mapped order-Interleave
      (omega arith) (omega arith) tt (ground arith) first-few
