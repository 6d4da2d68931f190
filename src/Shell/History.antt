-- ===== src/Shell/History.antt =====
-- The history of the shell of lecture/test/test.c: the array `input_hist` of ten pointers, of which
-- `hist` are in use, and the count of all commands.
pub mod Refine
pub mod Recall
use cmpt201_coursework.Prelude.{
  ℕ, zero, suc, ◌+◌, ◌-◌, ◌*◌, Bool, true, false, not, ◌&&◌, ◌||◌, List, [], ◌∷◌, ◌++◌, ltb, leb,
  ◌==◌, if◌then◌else◌, length, get_or, get_elem?, set, drop, Option, none, some, Run, ok, fault,
  ◌>>=◌,
}
use cmpt201_coursework.Prelude.Int.{ℤ, pos, negsuc, ltb_ℤ, sub_ℕ, ◌+ℤ◌, ◌-ℤ◌}
use cmpt201_coursework.Text.{Text}

-- A pointer of the array: `NULL`, to a string, or to one that has been freed.
pub data Cell : Type 0 where
  null : Cell
  held : Text → Cell
  freed : Cell

pub record Hist : Type 0 where
  pub input_hist : List Cell
  pub hist : ℕ
  pub count : ℕ

-- The globals are zero when the shell starts.
abbrev pub no_history : Hist
no_history = record {
  input_hist = null ∷ null ∷ null ∷ null ∷ null ∷ null ∷ null ∷ null ∷ null ∷ null ∷ [];
  hist = 0;
  count = 0;
}

-- `for (i = 1; i < hist; i++) input_hist[i - 1] = input_hist[i];` with `n` rounds to go.
unfoldable pub shift : ℕ → List Cell → List Cell
shift zero cells = cells
shift (suc n) [] = []
shift (suc n) (c ∷ []) = c ∷ []
shift (suc n) (c ∷ d ∷ cells) = d ∷ shift n (d ∷ cells)

unfoldable pub dequeue : Hist → Hist
unfolding shift
dequeue h = record h {
  input_hist = shift (h.hist - 1) (set h.input_hist 0 freed);
  hist = h.hist - 1;
}

-- `removeLast`
unfoldable pub remove_last : Hist → Hist
remove_last h =
    let n = h.hist - 1 in
    if h.hist == 0
    then h
    else record h { input_hist = set h.input_hist n freed; hist = n; count = h.count - 1 }

unfoldable pub enqueue : Text → Hist → Hist
unfolding dequeue
enqueue input h =
    let k = if ltb 9 h.hist then dequeue h else h in
    record k {
      input_hist = set k.input_hist k.hist (held input);
      hist = k.hist + 1;
      count = k.count + 1;
    }

-- `input_hist[i]`; outside the array the read is undefined.
unfoldable pub cell_at : ℕ → Hist → Run Cell
cell_at i h = elim (get_elem? h.input_hist i) [ none ↦ fault | some c ↦ ok c ]

-- A negative number is below `count - hist`.
unfoldable pub get_hist : ℤ → Hist → Run Cell
unfolding cell_at
get_hist (negsuc n) h = ok null
get_hist (pos num) h =
    if num == 0
    then if leb 1 h.count then cell_at 0 h else ok null
    else if ltb h.count num || ltb (num + h.hist) h.count
    then ok null
    else if ltb h.count 10
    then cell_at num h
    else cell_at (num + h.hist - h.count) h

-- With no command `input_hist[-1]` is read.
unfoldable pub get_last : Hist → Run Cell
unfolding cell_at
get_last h = if h.hist == 0 then fault else cell_at (h.hist - 1) h

-- What `print_hist` writes for the first `n` cells, from the last of them: a number and a command. With
-- more than seven digits, ": " and the NUL the number does not fit the ten bytes of `counter`.
unfoldable pub print_loop : ℕ → Hist → Run (List (ℕ × Text))
unfolding cell_at
print_loop zero h = ok []
print_loop (suc i) h =
    let rest = print_loop i h in
    let temp = h.count - h.hist + i + 1 in
    if ltb 9999999 temp
    then fault
    else cell_at i h >>= λ c. elim c [
      | null ↦ fault
      | freed ↦ fault
      | held text ↦ rest >>= λ lines. ok ((temp, text) ∷ lines)
    ]

unfoldable pub print_hist : Hist → Run (List (ℕ × Text))
unfolding print_loop
print_hist h = print_loop h.hist h
