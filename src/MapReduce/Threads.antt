-- ===== src/MapReduce/Threads.antt =====
-- The map phase under every interleaving of its threads.
use cmpt201_coursework.Prelude.{
  ℕ, ◌+◌, ◌≤◌, ◌<◌, ◌≡◌, ◌^◌, refl, sym, ap, ◌∙◌, inl, inr, Bool, true, false, not, ltb, ◌&&◌,
  Bool-cases, List, [], ◌∷◌, ◌++◌, map, arith, ◌==◌, if◌then◌else◌, length, length-append, All, ok,
}
use mathlib.Core.List.{append-nil, append_assoc}
use cmpt201_coursework.Text.{Text, same, same_refl}
use cmpt201_coursework.MapReduce.{
  max_intermediate, max_values_per_key, max_size, Pair, Intermediate, emit_all, thread_emits,
  mappers, map_phase, pieces, chunk_size,
}
use cmpt201_coursework.MapReduce.Chunks.{joined, pieces-cover}
use cmpt201_coursework.MapReduce.Emit.{values, Distinct, mr_emit_i-Added}

-- `order` takes the steps of the threads one at a time, each thread's in its order.
pub data Interleave {A : Type 0} : List (List A) → List A → Type 0 where
  stop : {threads : List (List A)} → joined threads ≡ [] → Interleave threads []
  pick :
      (before after : List (List A)) (x : A) (xs : List A) {threads : List (List A)}
      {order : List A}
      → threads ≡ before ++ ((x ∷ xs) ∷ after)
      → Interleave (before ++ (xs ∷ after)) order
      → Interleave threads (x ∷ order)

abbrev pub count : {A : Type 0} → (A → Bool) → List A → ℕ
count p [] = 0
count p (x ∷ xs) = (if p x then 1 else 0) + count p xs

module _ {A : Type 0} (p : A → Bool) where
  pub count-append : (xs ys : List A) → count p (xs ++ ys) ≡ count p xs + count p ys
  count-append [] ys = omega arith
  count-append (x ∷ xs) ys = omega (arith, count-append xs ys)

  count-picked :
      (before after : List (List A)) (x : A) (xs : List A)
      → count p (joined (before ++ ((x ∷ xs) ∷ after)))
        ≡ (if p x then 1 else 0) + count p (joined (before ++ (xs ∷ after)))
  count-picked [] after x xs = omega arith
  count-picked (b ∷ before) after x xs = omega (
    arith,
    count-picked before after x xs,
    count-append b (joined (before ++ ((x ∷ xs) ∷ after))),
    count-append b (joined (before ++ (xs ∷ after))),
  )

  -- An interleaving has the steps of its threads, each as often.
  Interleave-count :
      {threads : List (List A)} {order : List A}
      → Interleave threads order
      → count p order ≡ count p (joined threads)
  Interleave-count (stop e) = ap (count p) (sym e)
  Interleave-count (pick before after x xs e i) =
      ap (λ n. (if p x then 1 else 0) + n) (Interleave-count i)
      ∙ sym (count-picked before after x xs)
      ∙ ap (λ t. count p (joined t)) (sym e)

-- The values emitted for a key, in order.
unfoldable pub sent : Text → List Pair → List Text
sent k [] = []
sent k ((key, value) ∷ es) = if same key k then value ∷ sent k es else sent k es

abbrev pub Short : Pair → Type 0
Short (key, value) = (length key < max_size) × (length value < max_size)

-- The emissions of a phase succeed in any order, if their texts fit, they are no more than the
-- table has entries and no key gets more values than a value array holds. Each key then has its
-- values in the order of emission.
emit_all-sent :
    (es : List Pair) (xs : Intermediate)
    → All Short es
    → length xs + length es ≤ max_intermediate
    → ((k : Text) → length (values k xs) + length (sent k es) ≤ max_values_per_key)
    → Distinct xs
    → (ys : Intermediate) × (emit_all es xs ≡ ok ys)
      × Distinct ys
      × ((k : Text) → values k ys ≡ values k xs ++ sent k es)
unfolding emit_all sent
emit_all-sent [] xs short few room d = (xs, refl, d, λ k. sym (append-nil (values k xs)))
emit_all-sent ((key, value) ∷ es) xs short few room d =
    let (ys, e, a) =
      mr_emit_i-Added key value xs short.0.0 short.0.1 (omega arith)
        (ground (arith, room key, same_refl key)) d in
    let (zs, e', d', v) =
      emit_all-sent es ys short.1 (omega (arith, a.grows))
        (λ k. ground (arith, room k, a.at_key k, length-append (values k xs) (value ∷ [])))
        a.distinct in
    (
      zs,
      rw e e',
      d',
      λ k. v k ∙ elim (Bool-cases (same key k)) [
        | inl h ↦ rw (a.at_key k, h) (append_assoc (values k xs) (value ∷ []) (sent k es))
        | inr h ↦ rw (a.at_key k, h)
      ],
    )

-- Whether a pair is the key `k`, and whether it is the value `v` under it.
abbrev pub to_key : Text → Pair → Bool
to_key k (key, value) = same key k

abbrev pub is_pair : Text → Text → Pair → Bool
is_pair k v (key, value) = same key k && same value v

pub length-sent : (k : Text) (es : List Pair) → length (sent k es) ≡ count (to_key k) es
unfolding sent
length-sent k [] = refl
length-sent k ((key, value) ∷ es) = ground (arith, length-sent k es)

pub count-sent :
    (k v : Text) (es : List Pair) → count (λ w. same w v) (sent k es) ≡ count (is_pair k v) es
unfolding sent
count-sent k v [] = refl
count-sent k v ((key, value) ∷ es) = ground (arith, count-sent k v es)

length-count : {A : Type 0} (xs : List A) → length xs ≡ count (λ _. true) xs
length-count [] = refl
length-count (x ∷ xs) = omega (arith, length-count xs)

-- `All` as a count of exceptions, which no interleaving changes.
pub is_short : Pair → Bool
is_short (key, value) = ltb (length key) max_size && ltb (length value) max_size

pub texts_fit : (es : List Pair) → count (λ e. not (is_short e)) es ≡ 0 → All Short es
unfolding is_short
texts_fit [] h = tt
texts_fit ((key, value) ∷ es) h = (ground arith, texts_fit es (ground arith))

pub fits_none : (es : List Pair) → All Short es → count (λ e. not (is_short e)) es ≡ 0
unfolding is_short
fits_none [] h = refl
fits_none ((key, value) ∷ es) h = ground (arith, fits_none es h.1)

thread_emits-append :
    {A B : Type 0} (call : A → List B) (xs ys : List A)
    → thread_emits call (xs ++ ys) ≡ thread_emits call xs ++ thread_emits call ys
unfolding thread_emits
thread_emits-append call [] ys = refl
thread_emits-append call (x ∷ xs) ys =
    rw (thread_emits-append call xs ys)
      (sym (append_assoc (call x) (thread_emits call xs) (thread_emits call ys)))

-- The threads' emissions, one thread after another, are those of one thread over the whole input.
joined-emits :
    {A B : Type 0} (call : A → List B) (xss : List (List A))
    → joined (map (thread_emits call) xss) ≡ thread_emits call (joined xss)
unfolding thread_emits
joined-emits call [] = refl
joined-emits call (xs ∷ xss) =
    rw (joined-emits call xss) (sym (thread_emits-append call xs (joined xss)))

-- In any interleaving, the threads of a phase emit each pair as often as one thread over all items.
pub phase-count :
    {A : Type 0} (call : A → List Pair) (items : List A) (threads : ℕ) (order : List Pair)
    → Interleave
        (map
          (thread_emits call)
          (pieces (length items) (chunk_size (length items) threads) items threads 0))
        order
    → 0 < threads
    → length items + threads < 2 ^ 64
    → (p : Pair → Bool) → count p order ≡ count p (thread_emits call items)
phase-count call items threads order i some small p =
    Interleave-count p i
    ∙ ap (count p) (
        joined-emits call
          (pieces (length items) (chunk_size (length items) threads) items threads 0)
        ∙ ap (thread_emits call) (pieces-cover threads items some small))

-- The map phase, with at least one mapper and fewer than 2^64 input items and mappers together, however
-- the emissions of the mappers interleave: it ends, no key has two entries, and a key has each value as
-- often as one mapper that goes through the whole input emits it. The texts must fit, the emissions be no
-- more than the table's entries, and those of one key no more than a value array holds.
pub map_phase-any_order :
    (call : Pair → List Pair) (input : List Pair) (mapper_count : ℕ) (order : List Pair)
    → let all = thread_emits call input in
      Interleave (mappers call input mapper_count) order
      → 0 < mapper_count
      → length input + mapper_count < 2 ^ 64
      → All Short all
      → length all ≤ max_intermediate
      → ((k : Text) → length (sent k all) ≤ max_values_per_key)
      → (ys : Intermediate) × (map_phase mapper_count order ≡ ok ys)
        × Distinct ys
        × ((k v : Text) → count (λ w. same w v) (values k ys) ≡ count (λ w. same w v) (sent k all))
unfolding map_phase values
map_phase-any_order call input mapper_count order i some small short few room =
    let (ys, e, d, v) =
      emit_all-sent order []
        (texts_fit order (same_count (λ e. not (is_short e)) ∙ fits_none all short))
        (rw (length-count order, same_count (λ _. true), ← length-count all) (omega arith))
        (λ k.
          rw (length-sent k order, same_count (to_key k), ← length-sent k all)
            (omega (arith, room k)))
        tt in
    (
      ys,
      rw running e,
      d,
      λ k v'.
          ap (count (λ w. same w v')) (v k)
          ∙ count-sent k v' order
          ∙ same_count (is_pair k v')
          ∙ sym (count-sent k v' all),
    )
  where
    all : List Pair
    all = thread_emits call input

    running : (mapper_count == 0) ≡ false
    running = ground arith

    same_count : (p : Pair → Bool) → count p order ≡ count p all
    same_count = phase-count call input mapper_count order i some small
