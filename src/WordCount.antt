-- ===== src/WordCount.antt =====
-- The word counts of lab/lab8.c, by one thread and by three. The table is one of uthash.h, which is
-- not code of the repository: what lab8.c relies on is an interface.
pub mod Occurs
pub mod Stuck
mod Tests
use cmpt201_coursework.Prelude.{
  ℕ, zero, suc, ◌+◌, ◌*◌, ◌/◌, ◌%◌, ◌^◌, ◌≡◌, Bool, true, false, ◌&&◌, Option, none, some, List, [],
  ◌∷◌, ◌==◌, if◌then◌else◌, length, get_elem?, set, take, drop,
}
use cmpt201_coursework.Text.{Text, same}

abbrev pub thread_count : ℕ
thread_count = 3

-- `find` is `HASH_FIND_STR` with the count of the entry, `add` is `HASH_ADD_STR` of a new entry, and
-- `write` sets the count of an entry.
pub record CountMap : Type 1 where
  pub Table : Type 0
  pub null_table : Table
  pub find : Text → Table → Option ℕ
  pub add : Text → ℕ → Table → Table
  pub write : Text → ℕ → Table → Table
  pub find-null : (k : Text) → find k null_table ≡ none
  pub find-add :
      (word k : Text) (n : ℕ) (t : Table)
      → find word t ≡ none
      → find k (add word n t) ≡ (if same word k then some n else find k t)
  pub find-write :
      (word k : Text) (m n : ℕ) (t : Table)
      → find word t ≡ some m
      → find k (write word n t) ≡ (if same word k then some n else find k t)

-- The words that the threads have still to count, whether a thread holds the lock, and the table.
pub record State (Table : Type 0) : Type 0 where
  pub remaining : List (List Text)
  pub locked : Bool
  pub map : Table

module _ (counts : CountMap) where
  open counts use {Table, null_table, find, add, write}

  -- The body of the loop, behind the lock.
  unfoldable pub add_word : Text → Table → Table
  add_word word map = elim (find word map) [
    | some count ↦ write word ((count + 1) % 2 ^ 64) map
    | none ↦ add word 1 map
  ]

  -- `add_word_counts_in_chunk` without a lock.
  unfoldable pub add_word_counts : List Text → Table → Table
  add_word_counts [] map = map
  add_word_counts (word ∷ words) map = add_word_counts words (add_word word map)

  unfoldable pub count_words_seq : List Text → Table
  count_words_seq words = add_word_counts words null_table

  -- A round of the loop of a thread with the lock, which no round gives back.
  unfoldable pub thread_round : ℕ → State Table → State Table
  thread_round i s = elim (get_elem? s.remaining i) [
    | none ↦ s
    | some chunk ↦ elim chunk [
      | [] ↦ s
      | word ∷ words ↦ if s.locked then s else record {
        remaining = set s.remaining i words;
        locked = true;
        map = add_word word s.map;
      }
    ]
  ]

  -- The rounds of the threads in the order given.
  unfoldable pub run : List ℕ → State Table → State Table
  run [] s = s
  run (i ∷ schedule) s = run schedule (thread_round i s)

  -- The threads of `count_words_parallel` with their chunks.
  unfoldable pub launch : List Text → State Table
  launch words =
      let chunk_size = length words / thread_count in
      record {
        remaining =
            take chunk_size words
            ∷ take chunk_size (drop chunk_size words)
            ∷ take (chunk_size + length words % thread_count) (drop (2 * chunk_size) words)
            ∷ [];
        locked = false;
        map = null_table;
      }

-- Whether all threads are through, so that `pthread_join` returns for each of them.
unfoldable pub finished : List (List Text) → Bool
finished [] = true
finished (chunk ∷ chunks) = (length chunk == 0) && finished chunks
