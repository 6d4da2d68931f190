-- ===== src/MapReduce.antt =====
-- The map-reduce framework of lecture/test3/src/interface.c. A `map` or `reduce` callback is a
-- function from its argument to the pairs that it emits, in order. A mutex makes each emission one
-- step, so that a phase is the emissions of its threads in some interleaving.
pub mod Chunks
pub mod Emit
pub mod Threads
pub mod Final
mod Tests
use cmpt201_coursework.Prelude.{
  ℕ, zero, suc, ◌+◌, ◌-◌, ◌*◌, ◌/◌, ◌%◌, ◌^◌, Bool, true, false, ◌&&◌, Option, none, some, List, [],
  ◌∷◌, ◌++◌, ltb, leb, ◌==◌, if◌then◌else◌, length, map, take, drop, Run, ok, fault, ◌>>=◌,
}
use cmpt201_coursework.Text.{Text, same}

abbrev pub max_intermediate : ℕ
max_intermediate = 1024

abbrev pub max_values_per_key : ℕ
max_values_per_key = 256

-- `MAX_KEY_SIZE` and `MAX_VALUE_SIZE`
abbrev pub max_size : ℕ
max_size = 16

-- A key and a value: `struct mr_in_kv`, and the arguments of an emission.
abbrev pub Pair : Type 0
Pair = Text × Text

-- `struct mr_out_kv`, with the `count` values in use.
pub record OutKv : Type 0 where
  pub key : Text
  pub value : List Text

-- The `intermediate_count` entries of `intermediate` in use.
abbrev pub Intermediate : Type 0
Intermediate = List OutKv

-- `for (…) if (strcmp(intermediate[i].key, key) == 0) return &intermediate[i];`
unfoldable pub find_intermediate : Text → Intermediate → Bool
find_intermediate key [] = false
find_intermediate key (kv ∷ xs) = if same kv.key key then true else find_intermediate key xs

-- `strcpy(kv->value[kv->count], value); kv->count++;` on the entry of `key`. A write beyond the
-- value array, or of a value that does not fit its slot, is undefined.
unfoldable pub add_value : Text → Text → Intermediate → Run Intermediate
add_value key value [] = ok []
add_value key value (kv ∷ xs) =
    let rest = add_value key value xs in
    if same kv.key key
    then if ltb (length kv.value) max_values_per_key && ltb (length value) max_size
      then ok (record kv { value = kv.value ++ (value ∷ []) } ∷ xs)
      else fault
    else rest >>= λ ys. ok (kv ∷ ys)

-- The entry of `key`, made if there is none: `none` for `NULL`.
unfoldable pub find_or_create_intermediate : Text → Intermediate → Run (Option Intermediate)
find_or_create_intermediate key xs =
    if find_intermediate key xs
    then ok (some xs)
    else if leb max_intermediate (length xs)
    then ok none
    else if ltb (length key) max_size
    then ok (some (xs ++ (record { key = key; value = [] } ∷ [])))
    else fault

-- Whether the call returned 0 (and not -1), and the table after it.
unfoldable pub mr_emit_i : Pair → Intermediate → Run (Bool × Intermediate)
unfolding find_or_create_intermediate
mr_emit_i (key, value) xs = find_or_create_intermediate key xs >>= λ found. elim found [
  | none ↦ ok (false, xs)
  | some ys ↦ add_value key value ys >>= λ zs. ok (true, zs)
]

-- `(count + threads - 1) / threads`
abbrev pub chunk_size : ℕ → ℕ → ℕ
chunk_size count threads = (count + threads + 2 ^ 64 - 1) % 2 ^ 64 / threads

-- `args.start` and `args.end` of thread `t`
abbrev pub start_of : ℕ → ℕ → ℕ
start_of chunk t = t * chunk % 2 ^ 64

abbrev pub end_of : ℕ → ℕ → ℕ → ℕ
end_of count chunk t = let end = (t + 1) * chunk % 2 ^ 64 in if ltb count end then count else end

-- The items that one thread visits: `for (i = args->start; i < args->end; i++)`.
abbrev pub visited {ℓ} : {A : Type ℓ} → List A → ℕ → ℕ → List A
visited items start end = take (end - start) (drop start items)

-- `map_thread` and `reduce_thread`: what the thread emits.
unfoldable pub thread_emits : {A B : Type 0} → (A → List B) → List A → List B
thread_emits call [] = []
thread_emits call (x ∷ xs) = call x ++ thread_emits call xs

-- What thread `t`, then `t + 1`, …, for `n` threads, is given.
unfoldable pub pieces : {A : Type 0} → (count chunk : ℕ) → List A → (n t : ℕ) → List (List A)
pieces count chunk items zero t = []
pieces count chunk items (suc n) t =
    visited items (start_of chunk t) (end_of count chunk t) ∷ pieces count chunk items n (t + 1)

-- The emissions of a phase, in the order in which they take the mutex. Callbacks ignore what
-- `mr_emit_i` returns.
unfoldable pub emit_all : List Pair → Intermediate → Run Intermediate
emit_all [] xs = ok xs
emit_all (e ∷ es) xs = mr_emit_i e xs >>= λ r. emit_all es r.1

-- What each mapper thread emits: the threads that `mr_exec` creates in its map phase.
abbrev pub mappers : (Pair → List Pair) → List Pair → ℕ → List (List Pair)
mappers call input mapper_count =
    map (thread_emits call)
      (pieces (length input) (chunk_size (length input) mapper_count) input mapper_count 0)

-- The map phase of `mr_exec`, with its emissions in the order `order`. With no mapper the chunk
-- size divides by zero.
unfoldable pub map_phase : (mapper_count : ℕ) (order : List Pair) → Run Intermediate
map_phase mapper_count order = if mapper_count == 0 then fault else emit_all order []
