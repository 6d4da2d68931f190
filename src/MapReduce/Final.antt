-- ===== src/MapReduce/Final.antt =====
-- The reduce phase and the output of lecture/test3/src/interface.c. The table `final_table` is one
-- of uthash.h, which is not code of the repository: what interface.c relies on is an interface.
pub mod Emit
pub mod Output
mod Tests
use mathlib.Core.List.{Permᴰ}
use cmpt201_coursework.Prelude.{
  ℕ, zero, suc, ◌+◌, ◌≡◌, Bool, true, false, ◌&&◌, ◌||◌, Option, none, some, List, [], ◌∷◌, ◌++◌,
  map, ltb, ◌==◌, if◌then◌else◌, length, All, Run, ok, fault, ◌>>=◌,
}
use cmpt201_coursework.Text.{Text, same}
use cmpt201_coursework.MapReduce.{
  max_values_per_key, max_size, Pair, OutKv, Intermediate, chunk_size, thread_emits, pieces,
  map_phase,
}

-- The first item of a key.
unfoldable pub find_item : Text → List OutKv → Option OutKv
find_item key [] = none
find_item key (kv ∷ xs) = if same kv.key key then some kv else find_item key xs

-- The items once the first one of a key has been written to.
unfoldable pub replace_item : OutKv → List OutKv → List OutKv
replace_item new [] = []
replace_item new (kv ∷ xs) = if same kv.key new.key then new ∷ xs else kv ∷ replace_item new xs

-- Each item stands before all that come behind it.
abbrev pub Ordered : (OutKv → OutKv → Bool) → List OutKv → Type 0
Ordered before [] = Unit
Ordered before (x ∷ xs) = All (λ y. before x y ≡ true) xs × Ordered before xs

-- `HASH_FIND_STR`, `HASH_ADD_STR`, a write through the pointer to an item, `HASH_SORT` and
-- `HASH_COUNT`; `items` is the order of `HASH_ITER`, which is that of the additions until a sort.
pub record Uthash : Type 1 where
  pub Table : Type 0
  pub null_table : Table
  pub items : Table → List OutKv
  pub hash_find : Text → Table → Option OutKv
  pub hash_add : OutKv → Table → Table
  pub hash_write : OutKv → Table → Table
  pub hash_sort : (OutKv → OutKv → Bool) → Table → Table
  pub hash_count : Table → ℕ
  pub items-null : items null_table ≡ []
  pub items-find : (key : Text) (t : Table) → hash_find key t ≡ find_item key (items t)
  pub items-add : (kv : OutKv) (t : Table) → items (hash_add kv t) ≡ items t ++ (kv ∷ [])
  pub items-write : (kv : OutKv) (t : Table) → items (hash_write kv t) ≡ replace_item kv (items t)
  pub items-sort :
      (before : OutKv → OutKv → Bool) (t : Table) → Permᴰ (items t) (items (hash_sort before t))
  pub sort-Ordered :
      (before : OutKv → OutKv → Bool) (t : Table)
      → ((a b : OutKv) → (before a b || before b a) ≡ true)
      → ((a b c : OutKv) → before a b ≡ true → before b c ≡ true → before a c ≡ true)
      → Ordered before (items (hash_sort before t))
  pub items-count : (t : Table) → hash_count t ≡ length (items t)

-- `strcmp(s, t) <= 0`
unfoldable pub leb_text : Text → Text → Bool
leb_text [] t = true
leb_text (a ∷ s) [] = false
leb_text (a ∷ s) (b ∷ t) = ltb a b || ((a == b) && leb_text s t)

-- `final_kv_cmp(a, b) <= 0`
abbrev pub final_kv_cmp : OutKv → OutKv → Bool
final_kv_cmp a b = leb_text a.key b.key

-- What each reducer thread emits.
abbrev pub reducers : (OutKv → List Pair) → Intermediate → ℕ → List (List Pair)
reducers reduce intermediate reducer_count = map (thread_emits reduce) (
    pieces (length intermediate) (chunk_size (length intermediate) reducer_count) intermediate
      reducer_count 0)

-- The copy of the entries to `output->kv_lst`, which has room for `n` of them.
unfoldable pub copy_entries : ℕ → List OutKv → Run (List OutKv)
copy_entries n [] = ok []
copy_entries zero (kv ∷ kvs) = fault
copy_entries (suc n) (kv ∷ kvs) = copy_entries n kvs >>= λ rest. ok (kv ∷ rest)

module _ (uthash : Uthash) where
  open uthash use {Table, items, hash_find, hash_add, hash_write, hash_sort, hash_count}

  -- `strcpy(entry->value[entry->count], value); entry->count++;`
  unfoldable pub push_value : Text → OutKv → Table → Run Table
  push_value value entry t =
      if ltb (length entry.value) max_values_per_key && ltb (length value) max_size
      then ok (hash_write (record entry { value = entry.value ++ (value ∷ []) }) t)
      else fault

  unfoldable pub mr_emit_f : Pair → Table → Run Table
  mr_emit_f (key, value) t =
      let entry : OutKv = record { key = key; value = [] } in
      elim (hash_find key t) [
        | some old ↦ push_value value old t
        | none ↦
            if ltb (length key) max_size then push_value value entry (hash_add entry t) else fault
      ]

  -- The emissions of the phase, in the order in which they take the mutex.
  unfoldable pub emit_all_f : List Pair → Table → Run Table
  emit_all_f [] t = ok t
  emit_all_f (e ∷ es) t = mr_emit_f e t >>= λ t'. emit_all_f es t'

  -- With no reducer the chunk size divides by zero.
  unfoldable pub reduce_phase : (reducer_count : ℕ) (order : List Pair) → Table → Run Table
  reduce_phase reducer_count order t = if reducer_count == 0 then fault else emit_all_f order t

  unfoldable pub write_output : Table → Run (List OutKv × Table)
  write_output t =
      let sorted = hash_sort final_kv_cmp t in
      copy_entries (hash_count sorted) (items sorted) >>= λ kv_lst. ok (kv_lst, sorted)

  -- `mr_exec` with the emissions of its two phases in the orders given: the output, and
  -- `final_table`, which is kept from call to call.
  unfoldable pub mr_exec :
      (mapper_count : ℕ) (map_order : List Pair) (reducer_count : ℕ) (reduce_order : List Pair)
      → Table
      → Run (List OutKv × Table)
  mr_exec mapper_count map_order reducer_count reduce_order t =
      map_phase mapper_count map_order >>= λ intermediate.
      reduce_phase reducer_count reduce_order t >>= λ t'. write_output t'
