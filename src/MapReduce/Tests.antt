-- ===== src/MapReduce/Tests.antt =====
-- Runs of the map-reduce framework of lecture/test3 on a small input.
use cmpt201_coursework.Prelude.{
  ℕ, zero, suc, ◌≤◌, ◌≡◌, refl, false, List, [], ◌∷◌, arith, length, ok,
}
use cmpt201_coursework.Text.{Text, same}
use cmpt201_coursework.MapReduce.{
  max_values_per_key, Pair, Intermediate, find_intermediate, thread_emits, mappers, map_phase,
  pieces, chunk_size,
}
use cmpt201_coursework.MapReduce.Chunks.{joined, pieces-cover}
use cmpt201_coursework.MapReduce.Emit.{values, Distinct}
use cmpt201_coursework.MapReduce.Threads.{Interleave, stop, pick, count, sent, map_phase-any_order}

pieces-cover_example :
    joined {A = ℕ} (pieces 5 (chunk_size 5 3) (1 ∷ 2 ∷ 3 ∷ 4 ∷ 5 ∷ []) 3 0) ≡ 1 ∷ 2 ∷ 3 ∷ 4 ∷ 5 ∷ []
pieces-cover_example = pieces-cover 3 (1 ∷ 2 ∷ 3 ∷ 4 ∷ 5 ∷ []) (omega arith) (omega arith)

abbrev table : Intermediate
table = record { key = 97 ∷ []; value = (49 ∷ []) ∷ [] } ∷ []

-- A table with `n` entries of the key "b".
unfoldable filled : ℕ → Intermediate
filled zero = []
filled (suc n) = record { key = 98 ∷ []; value = [] } ∷ filled n

filled-unknown : (n : ℕ) → find_intermediate (97 ∷ []) (filled n) ≡ false
unfolding filled find_intermediate
filled-unknown zero = refl
filled-unknown (suc n) = filled-unknown n

length-filled : (n : ℕ) → length (filled n) ≡ n
unfolding filled
length-filled zero = refl
length-filled (suc n) = omega (arith, length-filled n)

-- A callback that emits its key with its value, once.
abbrev echo : Pair → List Pair
echo p = p ∷ []

abbrev input : List Pair
input = (97 ∷ [], 49 ∷ []) ∷ (97 ∷ [], 50 ∷ []) ∷ []

-- The second of two mappers is first.
abbrev swapped : List Pair
swapped = (97 ∷ [], 50 ∷ []) ∷ (97 ∷ [], 49 ∷ []) ∷ []

swapped-Interleave : Interleave (mappers echo input 2) swapped
unfolding pieces thread_emits
swapped-Interleave =
    pick (((97 ∷ [], 49 ∷ []) ∷ []) ∷ []) [] (97 ∷ [], 50 ∷ []) [] refl
      (pick [] ([] ∷ []) (97 ∷ [], 49 ∷ []) [] refl (stop refl))

echo-few : (k : Text) → length (sent k (thread_emits echo input)) ≤ max_values_per_key
unfolding sent thread_emits
echo-few k = ground arith

map_phase-any_order_example :
    (ys : Intermediate) × (map_phase 2 swapped ≡ ok ys)
    × Distinct ys
    × ((k v : Text)
        → count (λ w. same w v) (values k ys)
          ≡ count (λ w. same w v) (sent k (thread_emits echo input)))
unfolding thread_emits
map_phase-any_order_example =
    map_phase-any_order echo input 2 swapped swapped-Interleave (omega arith) (omega arith)
      (ground arith) (omega arith) echo-few
