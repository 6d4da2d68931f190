-- ===== src/InputHistory.antt =====
-- The history of lab/lab3.c: `input_hist` is the list of its `history` cells in use. A write behind
-- the array is undefined.
pub mod Enqueue
use cmpt201_coursework.Prelude.{
  ℕ, List, [], ◌∷◌, ◌++◌, ltb, if◌then◌else◌, length, Run, ok, fault, ◌>>=◌,
}
use cmpt201_coursework.Text.{Text}

abbrev pub max_len : ℕ
max_len = 5

abbrev pub History : Type 0
History = List Text

-- The cells move down by one; the first is freed.
unfoldable pub dequeue : History → History
dequeue [] = []
dequeue (x ∷ xs) = xs

unfoldable pub enqueue : Text → History → Run History
unfolding dequeue
enqueue input hist =
    let kept = if ltb max_len (length hist) then dequeue hist else hist in
    if ltb (length kept) max_len then ok (kept ++ (input ∷ [])) else fault

-- The loop of `main` over its inputs.
unfoldable pub enqueue_all : List Text → History → Run History
enqueue_all [] hist = ok hist
enqueue_all (input ∷ inputs) hist = enqueue input hist >>= λ h. enqueue_all inputs h
