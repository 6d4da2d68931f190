-- ===== src/Shell/History/Recall.antt =====
-- `get_hist`, which `!num` uses with a number of at most two digits before the newline (a longer one
-- overflows `intHist`), against the numbers that `print_hist` shows.
use cmpt201_coursework.Prelude.{
  ℕ, zero, suc, ◌+◌, ◌-◌, ◌≤◌, ◌<◌, ◌≡◌, refl, ap, sym, ◌∙◌, inl, inr, Bool-cases, true, false,
  ◌||◌, List, [], ◌∷◌, ◌++◌, map, arith, ltb, leb, ◌==◌, if◌then◌else◌, length, length-append,
  length-map, get_elem?, some_at, no_such, Option, none, some, ok, fault,
}
use native.Mathlib.Decide.{dec_lt}
use cmpt201_coursework.Prelude.Int.{pos}
use cmpt201_coursework.Text.{Text}
use cmpt201_coursework.Shell.History.{
  Cell, held, Hist, cell_at, get_hist, get_last, print_loop, print_hist,
}
use cmpt201_coursework.Shell.History.Refine.{Holds}

-- The command that is shown under a number.
unfoldable pub shown : ℕ → List (ℕ × Text) → Option Text
shown n [] = none
shown n ((k, text) ∷ lines) = if k == n then some text else shown n lines

held_at :
    (i : ℕ) (x : Text) (xs : List Text) (rest : List Cell)
    → get_elem? xs i ≡ some x
    → get_elem? (map held xs ++ rest) i ≡ some (held x)
held_at i x [] rest h = cc
held_at zero x (y ∷ xs) rest h = let e : y ≡ x = cc in ap (λ z. some (held z)) e
held_at (suc i) x (y ∷ xs) rest h = held_at i x xs rest h

-- The cell of the command at a place.
pub cell-held :
    (i : ℕ) (x : Text) (xs : List Text) (n : ℕ) (h : Hist)
    → Holds xs n h
    → get_elem? xs i ≡ some x
    → cell_at i h ≡ ok (held x)
unfolding cell_at
cell-held i x xs n h r e =
    let g : get_elem? h.input_hist i ≡ some (held x) =
      ap (λ l. get_elem? l i) r.cells ∙ held_at i x xs r.rest e in
    rw (cell_at, g)

print_loop-shown :
    (k : ℕ) (xs : List Text) (n : ℕ) (h : Hist)
    → Holds xs n h
    → k ≤ length xs
    → n < 10000000
    → (lines : List (ℕ × Text)) × (print_loop k h ≡ ok lines)
      × ((j : ℕ) → j < k → shown (n - length xs + j + 1) lines ≡ get_elem? xs j)
unfolding print_loop shown
print_loop-shown zero xs n h r b small = ([], refl, λ j l. absurd (omega arith))
print_loop-shown (suc k) xs n h r b small =
    let (x, e) = some_at k xs (omega arith) in
    let (lines, p, s) = print_loop-shown k xs n h r (omega arith) small in
    let first : h.count - h.hist + k + 1 ≡ n - length xs + k + 1 =
      omega (arith, r.counted, r.used) in
    let fits : ltb 9999999 (n - length xs + k + 1) ≡ false = let z = r.enough in ground arith in
    (
      (n - length xs + k + 1, x) ∷ lines,
      rw (first, fits, cell-held k x xs n h r e, p, first),
      λ j l. elim (dec_lt j k) [
        | yes less ↦
            let t : (n - length xs + k + 1 == n - length xs + j + 1) ≡ false = ground arith in
            rw (t) (s j less)
        | no more ↦
            let same : j ≡ k = omega arith in
            let t : (n - length xs + k + 1 == n - length xs + k + 1) ≡ true = ground arith in
            rw (same, t) (sym e)
      ],
    )

print_hist-shown :
    (j : ℕ) (xs : List Text) (n : ℕ) (h : Hist)
    → Holds xs n h
    → j < length xs
    → n < 10000000
    → (lines : List (ℕ × Text)) × (print_hist h ≡ ok lines)
      × (shown (n - length xs + j + 1) lines ≡ get_elem? xs j)
unfolding print_hist
print_hist-shown j xs n h r b small =
    let (lines, p, s) = print_loop-shown (length xs) xs n h r (omega arith) small in
    (lines, ap (λ k. print_loop k h) r.used ∙ p, s j b)

pub get-cell :
    (i : ℕ) (xs : List Text) (n : ℕ) (h : Hist)
    → Holds xs n h
    → i < length xs
    → get_hist (pos (n - length xs + i)) h ≡ cell_at i h
unfolding get_hist
get-cell i xs n h r b =
    let num = n - length xs + i in
    let c = r.counted in
    let u = r.used in
    let y = r.early in
    let z = r.enough in
    elim (Bool-cases (num == 0)) [
      | inl e ↦
          let k : i ≡ 0 = ground arith in
          let t : leb 1 h.count ≡ true = ground arith in rw (e, t, k)
      | inr e ↦
          let t : (ltb h.count num || ltb (num + h.hist) h.count) ≡ false = ground arith in
          elim (Bool-cases (ltb h.count 10)) [
            | inl f ↦ let k : num ≡ i = ground arith in rw (e, t, f) (ap (λ j. cell_at j h) k)
            | inr f ↦
                let k : num + h.hist - h.count ≡ i = ground arith in
                rw (e, t, f) (ap (λ j. cell_at j h) k)
          ]
    ]

-- As long as fewer than 10,000,000 commands have been counted: of the commands that the history holds,
-- `get_hist` takes under a number `num` the one that `print_hist` shows as `num + 1`.
pub get_hist-shown :
    (i : ℕ) (xs : List Text) (n : ℕ) (h : Hist)
    → Holds xs n h
    → i < length xs
    → n < 10000000
    → let num = n - length xs + i in
      (text : Text) × (lines : List (ℕ × Text)) × (print_hist h ≡ ok lines)
      × (shown (num + 1) lines ≡ some text)
      × (get_hist (pos num) h ≡ ok (held text))
get_hist-shown i xs n h r b small =
    let (x, e) = some_at i xs b in
    let (lines, p, s) = print_hist-shown i xs n h r b small in
    (x, lines, p, s ∙ e, get-cell i xs n h r b ∙ cell-held i x xs n h r e)

cell-outside : (xs : List Text) (n : ℕ) (h : Hist) → Holds xs n h → cell_at 10 h ≡ fault
unfolding cell_at
cell-outside xs n h r =
    let l = length-append (map held xs) r.rest in
    let m = length-map xs held in
    let z = r.size in
    let g : get_elem? h.input_hist 10 ≡ none =
      ap (λ l. get_elem? l 10) r.cells ∙ no_such 10 (map held xs ++ r.rest) (omega arith) in
    rw (cell_at, g)

-- With ten commands in the history, the number of all commands makes `get_hist` read behind the
-- array.
pub get_hist-outside :
    (xs : List Text) (n : ℕ) (h : Hist) → Holds xs n h → length xs ≡ 10 → get_hist (pos n) h ≡ fault
unfolding get_hist
get_hist-outside xs n h r full =
    let c = r.counted in
    let u = r.used in
    let z = r.enough in
    let e : (n == 0) ≡ false = ground arith in
    let t : (ltb h.count n || ltb (n + h.hist) h.count) ≡ false = ground arith in
    let f : ltb h.count 10 ≡ false = ground arith in
    let k : n + h.hist - h.count ≡ 10 = omega arith in rw (e, t, f, k) (cell-outside xs n h r)

-- `!!` takes the newest command; with no command it reads before the array.
pub get_last-newest :
    (xs : List Text) (n : ℕ) (h : Hist)
    → Holds xs n h
    → get_last h
      ≡ (elim (get_elem? xs (length xs - 1)) [ none ↦ fault | some text ↦ ok (held text) ])
unfolding get_last
get_last-newest [] n h r = let t : (h.hist == 0) ≡ true = ground (arith, r.used) in rw (t)
get_last-newest (x ∷ xs) n h r =
    let t : (h.hist == 0) ≡ false = ground (arith, r.used) in
    let (y, e) = some_at (length xs) (x ∷ xs) (omega arith) in
    let k : h.hist - 1 ≡ length xs = omega (arith, r.used) in
    let k' : length (x ∷ xs) - 1 ≡ length xs = omega arith in
    rw (t, k, k', e) (cell-held (length xs) y (x ∷ xs) n h r e)
