-- ===== src/Shell/History/Refine.antt =====
-- The array of commands against the list of the last commands that it stands for.
use cmpt201_coursework.Prelude.{
  ℕ, ◌+◌, ◌-◌, ◌≤◌, ◌<◌, ◌≡◌, refl, ap, ap₂, sym, ◌∙◌, inl, inr, ◌⊎◌, Bool-cases, true, false, List,
  [], ◌∷◌, ◌++◌, map, arith, ltb, ◌==◌, if◌then◌else◌, length, length-append, set, drop, drop-drop,
  drop-append, length-drop,
}
use mathlib.Core.List.{append-nil, append_assoc}
use cmpt201_coursework.Text.{Text}
use cmpt201_coursework.Shell.History.{
  Cell, held, freed, Hist, no_history, shift, dequeue, remove_last, enqueue,
}

-- The array holds the commands `xs`, oldest first, in its first cells, and `count` of all commands
-- have been counted.
pub record Holds (xs : List Text) (count : ℕ) (h : Hist) : Type 0 where
  pub rest : List Cell
  pub cells : h.input_hist ≡ map held xs ++ rest
  pub used : h.hist ≡ length xs
  pub size : length xs + length rest ≡ 10
  pub counted : h.count ≡ count
  pub enough : length xs ≤ count
  pub early : (count ≡ length xs) ⊎ (10 ≤ count)

-- What a history of ten commands keeps when one is added: all but the oldest, if it is full.
abbrev pub kept : List Text → List Text
kept xs = if ltb 9 (length xs) then drop 1 xs else xs

set-behind :
    (xs : List Text) (c d : Cell) (rest : List Cell)
    → set (map held xs ++ (d ∷ rest)) (length xs) c ≡ map held xs ++ (c ∷ rest)
set-behind [] c d rest = refl
set-behind (x ∷ xs) c d rest = ap (λ l. held x ∷ l) (set-behind xs c d rest)

-- The loop leaves the last pointer where it was.
shift-map :
    (x : Text) (c : Cell) (xs : List Text) (rest : List Cell)
    → (d : Cell) × (shift (length xs) (c ∷ (map held xs ++ rest)) ≡ map held xs ++ (d ∷ rest))
unfolding shift
shift-map x c [] rest = (c, refl)
shift-map x c (y ∷ xs) rest =
    let (d, e) = shift-map x (held y) xs rest in (d, ap (λ l. held y ∷ l) e)

map-snoc :
    (xs : List Text) (x : Text) (rest : List Cell)
    → map held xs ++ (held x ∷ rest) ≡ map held (xs ++ (x ∷ [])) ++ rest
map-snoc [] x rest = refl
map-snoc (y ∷ xs) x rest = ap (λ l. held y ∷ l) (map-snoc xs x rest)

pushed : Text → Hist → Hist
pushed input h = record h {
  input_hist = set h.input_hist h.hist (held input);
  hist = h.hist + 1;
  count = h.count + 1;
}

-- The store of a command behind those that the array holds.
push-Holds :
    (input : Text) (xs : List Text) (n : ℕ) (h : Hist) (rest : List Cell)
    → Holds xs n h
    → length xs < 10
    → h.input_hist ≡ map held xs ++ rest
    → length xs + length rest ≡ 10
    → Holds (xs ++ (input ∷ [])) (n + 1) (pushed input h)
unfolding pushed
push-Holds input xs n h [] r small e l = absurd (omega arith)
push-Holds input xs n h (c ∷ rest) r small e l =
    let m = length-append xs (input ∷ []) in
    record {
      rest = rest;
      cells =
          ap₂ (λ a i. set a i (held input)) e r.used
          ∙ (set-behind xs (held input) c rest ∙ map-snoc xs input rest);
      used = omega (arith, r.used);
      size = omega arith;
      counted = omega (arith, r.counted);
      enough = omega (arith, r.enough);
      early = omega (arith, r.early);
    }

dequeue-Holds :
    (x : Text) (xs : List Text) (n : ℕ) (h : Hist)
    → Holds (x ∷ xs) n h
    → 9 < length (x ∷ xs)
    → Holds xs n (dequeue h)
unfolding dequeue
dequeue-Holds x xs n h r full =
    let (d, e) = shift-map x freed xs r.rest in
    let k : h.hist - 1 ≡ length xs = omega (arith, r.used) in
    record {
      rest = d ∷ r.rest;
      cells = ap₂ (λ a i. shift i (set a 0 freed)) r.cells k ∙ e;
      used = k;
      size = omega (arith, r.size);
      counted = r.counted;
      enough = omega (arith, r.enough);
      early = inr (omega (arith, r.enough));
    }

enqueue-pushed :
    (input : Text) (h : Hist)
    → enqueue input h ≡ pushed input (if ltb 9 h.hist then dequeue h else h)
unfolding enqueue pushed
enqueue-pushed input h = refl

-- `enqueue` adds a command to the history, which keeps the last ten.
pub enqueue-Holds :
    (input : Text) (xs : List Text) (n : ℕ) (h : Hist)
    → Holds xs n h
    → Holds (kept xs ++ (input ∷ [])) (n + 1) (enqueue input h)
enqueue-Holds input [] n h r =
    let t : ltb 9 h.hist ≡ false = ground (arith, r.used) in
    rw (enqueue-pushed, t) (push-Holds input [] n h r.rest r (omega arith) r.cells r.size)
enqueue-Holds input (x ∷ xs) n h r = elim (Bool-cases (ltb 9 (length (x ∷ xs)))) [
  | inl full ↦
      let t : ltb 9 h.hist ≡ true = ground (arith, r.used) in
      let d = dequeue-Holds x xs n h r (ground arith) in
      rw (enqueue-pushed, t, full)
        (push-Holds input xs n (dequeue h) d.rest d (omega (arith, r.size)) d.cells d.size)
  | inr room ↦
      let t : ltb 9 h.hist ≡ false = ground (arith, r.used) in
      rw (enqueue-pushed, t, room)
        (push-Holds input (x ∷ xs) n h r.rest r (ground arith) r.cells r.size)
]

remove-Holds :
    (xs : List Text) (x : Text) (n : ℕ) (h : Hist)
    → Holds (xs ++ (x ∷ [])) (n + 1) h
    → (n ≡ length xs) ⊎ (10 ≤ n)
    → Holds xs n (remove_last h)
unfolding remove_last
remove-Holds xs x n h r early =
    let m = length-append xs (x ∷ []) in
    let k : h.hist - 1 ≡ length xs = omega (arith, r.used) in
    let t : (h.hist == 0) ≡ false = ground (arith, r.used) in
    rw (t) (record {
      rest = freed ∷ r.rest;
      cells =
          ap₂ (λ a i. set a i freed) (r.cells ∙ sym (map-snoc xs x r.rest)) k
          ∙ set-behind xs freed (held x) r.rest;
      used = k;
      size = omega (arith, r.size);
      counted = omega (arith, r.counted);
      enough = omega (arith, r.enough);
      early = early;
    })

-- A command that `removeLast` takes back has cost a full history its oldest command.
pub remove-enqueue :
    (input : Text) (xs : List Text) (n : ℕ) (h : Hist)
    → Holds xs n h
    → Holds (kept xs) n (remove_last (enqueue input h))
remove-enqueue input xs n h r =
    remove-Holds (kept xs) input n (enqueue input h) (enqueue-Holds input xs n h r)
      (early xs r.early r.enough)
  where
    early :
        (ys : List Text)
        → (n ≡ length ys) ⊎ (10 ≤ n)
        → length ys ≤ n
        → (n ≡ length (kept ys)) ⊎ (10 ≤ n)
    early [] e h = e
    early (y ∷ ys) e h = ground arith

pub no_history-Holds : Holds [] 0 no_history
no_history-Holds = record {
  rest = no_history.input_hist;
  cells = refl;
  used = refl;
  size = refl;
  counted = refl;
  enough = omega arith;
  early = inl refl;
}

-- The history of the shell after a sequence of commands.
unfoldable pub enqueue_all : List Text → Hist → Hist
enqueue_all [] h = h
enqueue_all (x ∷ xs) h = enqueue_all xs (enqueue x h)

-- The last ten commands.
abbrev pub latest : List Text → List Text
latest xs = drop (length xs - 10) xs

pub kept-latest :
    (xs : List Text) (x : Text) → kept (latest xs) ++ (x ∷ []) ≡ latest (xs ++ (x ∷ []))
kept-latest xs x =
    let n = length xs - 10 in
    let l = length-drop n xs in
    let m = length-append xs (x ∷ []) in
    elim (Bool-cases (ltb 9 (length xs))) [
      | inl full ↦
          let t : ltb 9 (length (latest xs)) ≡ true = ground arith in
          let k : length (xs ++ (x ∷ [])) - 10 ≡ n + 1 = ground arith in
          rw (t, k, drop-append (n + 1) xs (x ∷ []) (ground arith))
            (ap (λ l. l ++ (x ∷ [])) (drop-drop n 1 (n + 1) xs refl))
      | inr room ↦
          let t : ltb 9 (length (latest xs)) ≡ false = ground arith in
          let k : length (xs ++ (x ∷ [])) - 10 ≡ 0 = ground arith in
          let k' : n ≡ 0 = ground arith in rw (t, k, k')
    ]

enqueue_all-latest :
    (ys xs : List Text) (h : Hist)
    → Holds (latest ys) (length ys) h
    → Holds (latest (ys ++ xs)) (length (ys ++ xs)) (enqueue_all xs h)
unfolding enqueue_all
enqueue_all-latest ys [] h r = rw append-nil r
enqueue_all-latest ys (x ∷ xs) h r =
    let q : Holds (latest (ys ++ (x ∷ []))) (length (ys ++ (x ∷ []))) (enqueue x h) =
      rw (← kept-latest ys x, length-append ys (x ∷ []))
        (enqueue-Holds x (latest ys) (length ys) h r) in
    rw (← append_assoc ys (x ∷ []) xs) (enqueue_all-latest (ys ++ (x ∷ [])) xs (enqueue x h) q)

-- After any sequence of commands the array holds the last ten of them, in order, and the count is
-- that of all.
pub enqueue_all-Holds : (xs : List Text) → Holds (latest xs) (length xs) (enqueue_all xs no_history)
enqueue_all-Holds xs = enqueue_all-latest [] xs no_history no_history-Holds
