-- ===== src/WordCount/Tests.antt =====
-- Counts of lab/lab8.c with a table that is a function.
use cmpt201_coursework.Prelude.{
  ℕ, ◌≡◌, refl, false, Option, none, some, List, [], ◌∷◌, arith, if◌then◌else◌,
}
use cmpt201_coursework.Text.{Text, same}
use cmpt201_coursework.WordCount.{CountMap, run, launch, finished, count_words_seq}
use cmpt201_coursework.WordCount.Occurs.{or_zero, occurs, count_words_seq-occurs}
use cmpt201_coursework.WordCount.Stuck.{parallel-stuck}

abbrev function_map : CountMap
function_map = record {
  Table = Text → Option ℕ;
  null_table = λ k. none;
  find = λ k t. t k;
  add = λ word n t. λ k. if same word k then some n else t k;
  write = λ word n t. λ k. if same word k then some n else t k;
  find-null = λ k. refl;
  find-add = λ word k n t h. refl;
  find-write = λ word k m n t h. refl;
}

-- "the", "fox", "the"
abbrev words : List Text
words = (116 ∷ 104 ∷ 101 ∷ []) ∷ (102 ∷ 111 ∷ 120 ∷ []) ∷ (116 ∷ 104 ∷ 101 ∷ []) ∷ []

parallel-stuck_example :
    finished (run function_map (1 ∷ 0 ∷ 2 ∷ 1 ∷ 0 ∷ []) (launch function_map words)).remaining
    ≡ false
parallel-stuck_example = parallel-stuck function_map words (1 ∷ 0 ∷ 2 ∷ 1 ∷ 0 ∷ []) (omega arith)

count_words_seq-occurs_example :
    or_zero (function_map.find (116 ∷ 104 ∷ 101 ∷ []) (count_words_seq function_map words))
    ≡ occurs (116 ∷ 104 ∷ 101 ∷ []) words
count_words_seq-occurs_example =
    count_words_seq-occurs function_map words (116 ∷ 104 ∷ 101 ∷ []) (omega arith)
