-- ===== src/MapReduce/Chunks.antt =====
-- How `mr_exec` shares its items among the threads of a phase.
use cmpt201_coursework.Prelude.{
  ℕ, zero, suc, ◌+◌, ◌-◌, ◌*◌, ◌%◌, ◌^◌, ◌≤◌, ◌<◌, ◌≡◌, refl, sym, ap, List, [], ◌∷◌, ◌++◌, arith,
  ltb, if◌then◌else◌, length, take, drop, take-append-drop, drop-drop, length-drop, true, false,
}
use mathlib.Core.List.{append-nil}
use native.Mathlib.Decide.{dec_lt}
use cmpt201_coursework.MapReduce.{chunk_size, visited, pieces}

-- The shares one after another.
abbrev pub joined : {A : Type 0} → List (List A) → List A
joined [] = []
joined (xs ∷ xss) = xs ++ joined xss

module _ {A : Type 0} where
  take_all : (m : ℕ) (xs : List A) → length xs ≤ m → take m xs ≡ xs
  take_all zero [] h = refl
  take_all zero (x ∷ xs) h = absurd (omega arith)
  take_all (suc m) [] h = refl
  take_all (suc m) (x ∷ xs) h = ap (λ l. x ∷ l) (take_all m xs (omega arith))

  drop_all : (m : ℕ) (xs : List A) → length xs ≤ m → drop m xs ≡ []
  drop_all zero [] h = refl
  drop_all zero (x ∷ xs) h = absurd (omega arith)
  drop_all (suc m) [] h = refl
  drop_all (suc m) (x ∷ xs) h = drop_all m xs (omega arith)

  -- The share from `a` and what comes after it are what comes from `a`.
  share-append :
      (a chunk : ℕ) (items : List A)
      → visited items a (if ltb (length items) (a + chunk) then length items else a + chunk)
          ++ drop (a + chunk) items
        ≡ drop a items
  share-append a chunk items = elim (dec_lt (length items) (a + chunk)) [
    | yes last ↦
        let test : ltb (length items) (a + chunk) ≡ true = ground arith in
        rw (
          test,
          take_all (length items - a) (drop a items) (omega (arith, length-drop a items)),
          drop_all (a + chunk) items (omega arith),
          append-nil,
        )
    | no inner ↦
        let test : ltb (length items) (a + chunk) ≡ false = ground arith in
        let size : a + chunk - a ≡ chunk = omega arith in
        rw (test, size, ← drop-drop a chunk (a + chunk) items refl)
          (take-append-drop chunk (drop a items))
  ]

  joined-pieces :
      (chunk n t a total : ℕ) (items : List A)
      → a ≡ t * chunk
      → a + n * chunk ≡ total
      → length items ≤ total
      → total < 2 ^ 64
      → joined (pieces (length items) chunk items n t) ≡ drop a items
  unfolding pieces
  joined-pieces chunk zero t a total items e e' enough small = sym (drop_all a items (omega arith))
  joined-pieces chunk (suc n) t a total items e e' enough small =
      rw
        (
          from,
          to,
          joined-pieces chunk n (t + 1) (a + chunk) total items (omega arith) (omega arith) enough
              small,
        )
        (share-append a chunk items)
    where
      from : t * chunk % 2 ^ 64 ≡ a
      from = rw (← e) (omega arith)

      to : (t + 1) * chunk % 2 ^ 64 ≡ a + chunk
      to = omega arith

  -- With fewer than 2^64 items and threads together, the shares of at least one thread, in the order of the threads, are the items, each once.
  pub pieces-cover :
      (threads : ℕ) (items : List A)
      → 0 < threads
      → length items + threads < 2 ^ 64
      → joined (pieces (length items) (chunk_size (length items) threads) items threads 0) ≡ items
  pieces-cover threads items some small =
      joined-pieces chunk threads 0 0 (threads * chunk) items (omega arith) (omega arith)
        (grind arith) (grind arith)
    where
      chunk : ℕ
      chunk = chunk_size (length items) threads
