-- ===== src/Shell2/History/Recall.antt =====
-- The history of test2.c after any sequence of commands: what it holds, prints and gives for `!n`.
use cmpt201_coursework.Prelude.{
  ℕ, zero, suc, ◌+◌, ◌-◌, ◌/◌, ◌≤◌, ◌<◌, ◌≡◌, refl, ap, ◌∙◌, inl, inr, ◌⊎◌, Bool-cases, true, false,
  ◌||◌, Option, List, [], ◌∷◌, ◌++◌, arith, ltb, leb, ◌==◌, if◌then◌else◌, length, length-append,
  length-drop, get_elem?, some_at, no_such, none, some, set, All, Run, ok,
}
use mathlib.Core.List.{append-nil, append_assoc}
use cmpt201_coursework.Prelude.Int.{pos}
use cmpt201_coursework.Text.{Text}
use cmpt201_coursework.Shell.History.{
  Cell, held, null, freed, Hist, no_history, shift, dequeue, enqueue, cell_at,
}
use cmpt201_coursework.Shell.History.Refine.{
  Holds, kept, latest, kept-latest, no_history-Holds, enqueue-Holds,
}
use cmpt201_coursework.Shell.History.Recall.{shown, cell-held}
use cmpt201_coursework.Shell2.History.{
  hist_size_max, enqueue_history, get_last_history, get_history, digits_of, entry_length,
  print_from, print_history,
}

pushed : Text → Hist → Hist
pushed input h = record h {
  input_hist = set h.input_hist h.hist (held input);
  hist = h.hist + 1;
  count = h.count + 1;
}

-- test.c and test2.c add a command to the array in the same way.
pub enqueue-same :
    (input : Text) (h : Hist) → h.hist ≤ 10 → enqueue_history input h ≡ enqueue input h
unfolding enqueue_history enqueue dequeue pushed
enqueue-same input h b = elim (Bool-cases (h.hist == 10)) [
  | inl e ↦
      let t : ltb 9 h.hist ≡ true = ground arith in
      let k : 9 ≡ h.hist - 1 = ground arith in
      rw (e, t)
        (ap
          (λ i.
            pushed input
              (record h { input_hist = shift i (set h.input_hist 0 freed); hist = h.hist - 1 }))
          k)
  | inr e ↦ let t : ltb 9 h.hist ≡ false = ground arith in rw (e, t)
]

-- The array holds the commands `xs`, which are all or the last ten.
pub record Keeps (xs : List Text) (n : ℕ) (h : Hist) : Type 0 where
  pub holds : Holds xs n h
  pub last_ten : (n ≡ length xs) ⊎ (length xs ≡ 10)

enqueue_history-Holds :
    (input : Text) (xs : List Text) (n : ℕ) (h : Hist)
    → Holds xs n h
    → Holds (kept xs ++ (input ∷ [])) (n + 1) (enqueue_history input h)
enqueue_history-Holds input xs n h r =
    rw (enqueue-same input h (omega (arith, r.used, r.size))) (enqueue-Holds input xs n h r)

-- The history after a sequence of commands.
unfoldable pub after : List Text → Hist → Hist
after [] h = h
after (x ∷ xs) h = after xs (enqueue_history x h)

after-latest :
    (ys xs : List Text) (h : Hist)
    → Holds (latest ys) (length ys) h
    → Holds (latest (ys ++ xs)) (length (ys ++ xs)) (after xs h)
unfolding after
after-latest ys [] h r = rw append-nil r
after-latest ys (x ∷ xs) h r =
    let q : Holds (latest (ys ++ (x ∷ []))) (length (ys ++ (x ∷ []))) (enqueue_history x h) =
      rw (← kept-latest ys x, length-append ys (x ∷ []))
        (enqueue_history-Holds x (latest ys) (length ys) h r) in
    rw (← append_assoc ys (x ∷ []) xs) (after-latest (ys ++ (x ∷ [])) xs (enqueue_history x h) q)

pub after-Keeps : (xs : List Text) → Keeps (latest xs) (length xs) (after xs no_history)
after-Keeps xs =
    let l = length-drop (length xs - 10) xs in
    record { holds = after-latest [] xs no_history no_history-Holds; last_ten = omega arith }

-- `history` prints the commands with the numbers from `base + 1` on.
abbrev pub numbered : ℕ → List Text → List (ℕ × Text)
numbered base [] = []
numbered base (x ∷ xs) = (base + 1, x) ∷ numbered (base + 1) xs

pub shown-numbered :
    (n base : ℕ) (xs : List Text)
    → shown n (numbered base xs) ≡ (if ltb base n then get_elem? xs (n - base - 1) else none)
unfolding shown
shown-numbered n base [] = ground arith
shown-numbered n base (x ∷ xs) =
    let rest = shown-numbered n (base + 1) xs in
    elim (Bool-cases (base + 1 == n)) [
      | inl e ↦
          let t : ltb base n ≡ true = ground arith in
          let k : n - base - 1 ≡ 0 = ground arith in rw (e, t, k)
      | inr e ↦ elim (Bool-cases (ltb base n)) [
        | inl l ↦
            let t : ltb (base + 1) n ≡ true = ground arith in
            let k : n - base - 1 ≡ suc (n - (base + 1) - 1) = ground arith in rw (e, rest, l, t, k)
        | inr l ↦ let t : ltb (base + 1) n ≡ false = ground arith in rw (e, rest, l, t)
      ]
    ]

shown-none :
    (n base : ℕ) (xs : List Text)
    → (n ≤ base) ⊎ (base + length xs < n)
    → shown n (numbered base xs) ≡ none
shown-none n base xs h =
    let e = shown-numbered n base xs in
    elim (Bool-cases (ltb base n)) [
      | inl l ↦ rw (e, l) (no_such (n - base - 1) xs (ground arith))
      | inr l ↦ rw (e, l)
    ]

digits_of-le : (k n : ℕ) → digits_of k n ≤ k + 1
unfolding digits_of
digits_of-le zero n = omega arith
digits_of-le (suc k) n = ground (arith, digits_of-le k (n / 10))

-- Of a command of at most 50 characters the whole line is in the buffer.
abbrev pub IsShort : Text → Type 0
IsShort text = length text ≤ 50

print_from-numbered :
    (k i base : ℕ) (ys : List Text) (h : Hist)
    → length ys ≡ k
    → All IsShort ys
    → ((j : ℕ) (x : Text) → get_elem? ys j ≡ some x → cell_at (i + j) h ≡ ok (held x))
    → h.count - h.hist + i ≡ base
    → print_from k i h ≡ ok (numbered base ys)
unfolding print_from
print_from-numbered zero i base [] h l s c b = refl
print_from-numbered zero i base (y ∷ ys) h l s c b = absurd (omega arith)
print_from-numbered (suc k) i base [] h l s c b = absurd (omega arith)
print_from-numbered (suc k) i base (y ∷ ys) h l s c b =
    let d = digits_of-le 10 (base + 1) in
    let t : ltb 64 (entry_length (base + 1) y) ≡ false = ground (arith, s.0) in
    let e : cell_at i h ≡ ok (held y) = ap (λ m. cell_at m h) (omega arith) ∙ c 0 y refl in
    let rest =
      print_from-numbered k (i + 1) (base + 1) ys h (omega arith) s.1
        (λ j x g. ap (λ m. cell_at m h) (omega arith) ∙ c (suc j) x g) (omega arith) in
    rw (e, b, t, rest)

-- What `main` copies of a command that is found, or `NULL`.
abbrev pub recalled : Option Text → Run Cell
recalled none = ok null
recalled (some text) = ok (held text)

pub print_history-numbered :
    (xs : List Text) (n : ℕ) (h : Hist)
    → Holds xs n h
    → All IsShort xs
    → print_history h ≡ ok (numbered (n - length xs) xs)
unfolding print_history
print_history-numbered xs n h r s =
    let u = r.used in
    let c = r.counted in
    print_from-numbered h.hist 0 (n - length xs) xs h (omega arith) s
      (λ j x g. ap (λ m. cell_at m h) (omega arith) ∙ cell-held j x xs n h r g) (omega arith)

pub get_history-shown :
    (num : ℕ) (xs : List Text) (n : ℕ) (h : Hist)
    → Keeps xs n h
    → get_history (pos num) h ≡ recalled (shown num (numbered (n - length xs) xs))
unfolding get_history
get_history-shown num xs n h q =
    let r = q.holds in
    let u = r.used in
    let c = r.counted in
    let o = q.last_ten in
    let w = r.enough in
    let z = r.size in
    let lost : (if ltb hist_size_max h.count then h.count - hist_size_max else 0) ≡ n - length xs =
      ground arith in
    let base = n - length xs in
    elim (Bool-cases ((num == 0) || ltb h.count num)) [
      | inl a ↦ rw (a, shown-none num base xs (ground arith))
      | inr a ↦ elim (Bool-cases (ltb num (base + 1) || leb h.hist (num - base - 1))) [
        | inl b ↦ rw (a, lost, b, shown-none num base xs (ground arith))
        | inr b ↦
            let (x, e) = some_at (num - base - 1) xs (ground arith) in
            let t : ltb base num ≡ true = ground arith in
            rw (a, lost, b, shown-numbered num base xs, t, e)
              (cell-held (num - base - 1) x xs n h r e)
      ]
    ]

pub get_last_history-newest :
    (xs : List Text) (n : ℕ) (h : Hist)
    → Holds xs n h
    → get_last_history h ≡ recalled (get_elem? xs (length xs - 1))
unfolding get_last_history
get_last_history-newest [] n h r = let t : ltb 0 h.hist ≡ false = ground (arith, r.used) in rw (t)
get_last_history-newest (x ∷ xs) n h r =
    let t : ltb 0 h.hist ≡ true = ground (arith, r.used) in
    let (y, e) = some_at (length xs) (x ∷ xs) (omega arith) in
    let k : h.hist - 1 ≡ length xs = omega (arith, r.used) in
    let k' : length (x ∷ xs) - 1 ≡ length xs = omega arith in
    rw (t, k, k', e) (cell-held (length xs) y (x ∷ xs) n h r e)

-- After any commands, if the last ten have at most 50 characters each, `history` prints these ten
-- with the numbers that they had, `!num` takes the command printed under `num` and no other, and `!!`
-- the newest, if there is one.
pub after-shown :
    (cs : List Text) (num : ℕ)
    → All IsShort (latest cs)
    → let h = after cs no_history in
      let lines = numbered (length cs - length (latest cs)) (latest cs) in
      (print_history h ≡ ok lines)
      × (get_history (pos num) h ≡ recalled (shown num lines))
      × (get_last_history h ≡ recalled (get_elem? (latest cs) (length (latest cs) - 1)))
after-shown cs num s =
    let q = after-Keeps cs in
    let h = after cs no_history in
    (
      print_history-numbered (latest cs) (length cs) h q.holds s,
      get_history-shown num (latest cs) (length cs) h q,
      get_last_history-newest (latest cs) (length cs) h q.holds,
    )

pub enqueue-Keeps :
    (input : Text) (xs : List Text) (n : ℕ) (h : Hist)
    → Keeps xs n h
    → Keeps (kept xs ++ (input ∷ [])) (n + 1) (enqueue_history input h)
enqueue-Keeps input xs n h q = record {
  holds = enqueue_history-Holds input xs n h q.holds;
  last_ten = go xs q.holds.size q.last_ten;
}
  where
    go :
        (ys : List Text)
        → length ys + length q.holds.rest ≡ 10
        → (n ≡ length ys) ⊎ (length ys ≡ 10)
        → (n + 1 ≡ length (kept ys ++ (input ∷ []))) ⊎ (length (kept ys ++ (input ∷ [])) ≡ 10)
    go [] z o = omega arith
    go (y ∷ ys) z o =
        let m = length-append (kept (y ∷ ys)) (input ∷ []) in
        let k : length (kept (y ∷ ys))
            ≡ (if ltb 9 (length (y ∷ ys)) then length ys else length (y ∷ ys)) =
          ground arith in
        ground arith
