-- ===== src/Shell2/History.antt =====
-- The history of the shell of lecture/test/test2.c, `hist_size` and `hist_count` in the place of `hist`
-- and `count`.
pub mod Recall
use cmpt201_coursework.Prelude.{
  ℕ, zero, suc, ◌+◌, ◌-◌, ◌*◌, ◌/◌, Bool, true, false, ◌&&◌, ◌||◌, List, [], ◌∷◌, ltb, leb, ◌==◌,
  if◌then◌else◌, length, set, Run, ok, fault, out_of_fuel, ◌>>=◌,
}
use cmpt201_coursework.Prelude.Int.{ℤ, pos, negsuc}
use cmpt201_coursework.Text.{Text}
use cmpt201_coursework.Shell.History.{Cell, null, held, freed, Hist, shift, cell_at}

abbrev pub hist_size_max : ℕ
hist_size_max = 10

unfoldable pub enqueue_history : Text → Hist → Hist
enqueue_history input h =
    let full = record h {
      input_hist = shift (hist_size_max - 1) (set h.input_hist 0 freed);
      hist = h.hist - 1;
    } in
    let k = if h.hist == hist_size_max then full else h in
    record k {
      input_hist = set k.input_hist k.hist (held input);
      hist = k.hist + 1;
      count = k.count + 1;
    }

unfoldable pub get_last_history : Hist → Run Cell
get_last_history h = if ltb 0 h.hist then cell_at (h.hist - 1) h else ok null

-- The index is `n - lost - 1`, with the number of commands that the history has lost.
unfoldable pub get_history : ℤ → Hist → Run Cell
get_history (negsuc n) h = ok null
get_history (pos n) h =
    let lost = if ltb hist_size_max h.count then h.count - hist_size_max else 0 in
    if (n == 0) || ltb h.count n
    then ok null
    else if ltb n (lost + 1) || leb h.hist (n - lost - 1)
    then ok null
    else cell_at (n - lost - 1) h

-- How many digits a number has, on fuel.
unfoldable pub digits_of : ℕ → ℕ → ℕ
digits_of zero n = 1
digits_of (suc k) n = let rest = digits_of k (n / 10) in if ltb n 10 then 1 else 1 + rest

-- What `snprintf` returns for "%d: %s\n", also if the buffer is too short.
abbrev pub entry_length : ℕ → Text → ℕ
entry_length num text = digits_of 10 num + length text + 3

-- The loop of `print_history` at `i`, with `k` rounds to go. The `write` of a line that is longer than
-- `buf` reads behind it.
unfoldable pub print_from : ℕ → ℕ → Hist → Run (List (ℕ × Text))
print_from zero i h = ok []
print_from (suc k) i h =
    let num = h.count - h.hist + i + 1 in
    let rest = print_from k (i + 1) h in
    cell_at i h >>= λ c. elim c [
      | null ↦ fault
      | freed ↦ fault
      | held text ↦
          if ltb 64 (entry_length num text)
          then fault
          else rest >>= (λ lines. ok ((num, text) ∷ lines))
    ]

unfoldable pub print_history : Hist → Run (List (ℕ × Text))
print_history h = print_from h.hist 0 h
