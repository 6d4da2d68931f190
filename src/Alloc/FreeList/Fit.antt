-- ===== src/Alloc/FreeList/Fit.antt =====
-- The three placement policies against what they choose from the free list.
use cmpt201_coursework.Prelude.{
  ℕ, zero, suc, ◌≤◌, ◌<◌, ◌≡◌, refl, sym, ap, subst, ◌⊎◌, inl, inr, Bool-cases, false, ◌&&◌, List,
  [], ◌∷◌, ◌++◌, arith, ltb, leb, ◌==◌, length, All, Run, ok,
}
use cmpt201_coursework.Memory.{Mem, Block, Chain, null}
use cmpt201_coursework.Memory.Cover.{Fits}
use cmpt201_coursework.Alloc.FreeList.{
  Algs, first_fit, best_fit, worst_fit, uint64_max, find_first_fit, best_fit_loop, find_best_fit,
  worst_fit_loop, find_worst_fit, find_fit,
}

abbrev pub Small : ℕ → Block → Type 0
Small n (a, s) = s < n

-- Which block of the list a policy takes: it has size `s`, `pre` stands before it and `post` behind.
abbrev pub Policy : Algs → ℕ → List Block → ℕ → List Block → Type 0
Policy first_fit n pre s post = All (Small n) pre
Policy best_fit n pre s post =
    All (λ b. (b.1 < n) ⊎ (s < b.1)) pre × All (λ b. (b.1 < n) ⊎ (s ≤ b.1)) post
Policy worst_fit n pre s post =
    All (λ b. (b.1 < n) ⊎ (b.1 < s)) pre × All (λ b. (b.1 < n) ⊎ (b.1 ≤ s)) post

pub record Chosen (a : Algs) (n : ℕ) (xs : List Block) (r : Run ℕ) : Type 0 where
  pub pre : List Block
  pub addr : ℕ
  pub size : ℕ
  pub post : List Block
  pub split : xs ≡ pre ++ ((addr, size) ∷ post)
  pub found : r ≡ ok addr
  pub enough : n ≤ size
  pub policy : Policy a n pre size post

-- A policy returns `NULL` if every block is too small, and else the block that it stands for.
abbrev pub Choice : Algs → ℕ → List Block → Run ℕ → Type 0
Choice a n xs r = ((r ≡ ok null) × All (Small n) xs) ⊎ Chosen a n xs r

find_first_fit-Choice :
    (k : ℕ) (m : Mem) (p n : ℕ) (xs : List Block)
    → Chain m p xs
    → length xs < k
    → Choice first_fit n xs (find_first_fit k m p n)
unfolding find_first_fit
find_first_fit-Choice zero m p n xs c fuel = absurd (omega arith)
find_first_fit-Choice (suc k) m p n [] c fuel = rw c (inl (refl, tt))
find_first_fit-Choice (suc k) m p n ((d, t) ∷ xs) c fuel =
    subst (λ z. Choice first_fit n ((d, t) ∷ xs) (find_first_fit (suc k) m z n)) (sym c.0)
      (rw (live, c.2)
        (elim (Bool-cases (leb n t)) [
          | inl big ↦ rw big (
              inr (record {
                pre = [];
                addr = d;
                size = t;
                post = xs;
                split = refl;
                found = refl;
                enough = ground arith;
                policy = tt;
              }))
          | inr small ↦
              rw small
                (later (ground arith) (find_first_fit-Choice k m (m.next d) n xs c.3 (omega arith)))
        ]))
  where
    live : (d == null) ≡ false
    live = ground (arith, c.1)

    later : {r : Run ℕ} → t < n → Choice first_fit n xs r → Choice first_fit n ((d, t) ∷ xs) r
    later h (inl e) = inl (e.0, (h, e.1))
    later h (inr w) = inr (record {
      pre = (d, t) ∷ w.pre;
      addr = w.addr;
      size = w.size;
      post = w.post;
      split = ap (λ l. (d, t) ∷ l) w.split;
      found = w.found;
      enough = w.enough;
      policy = (h, w.policy);
    })

best_closer : (t b n s : ℕ) → (t < n) ⊎ (b ≤ t) → s < b → (t < n) ⊎ (s < t)
best_closer t b n s (inl h) lt = inl h
best_closer t b n s (inr h) lt = inr (omega arith)

worst_closer : (t b n s : ℕ) → (t < n) ⊎ (t ≤ b) → b < s → (t < n) ⊎ (t < s)
worst_closer t b n s (inl h) lt = inl h
worst_closer t b n s (inr h) lt = inr (omega arith)

-- The loop of find_best_fit from a candidate of size `b`, over the rest of the list.
abbrev BestLoop : (best b n : ℕ) → List Block → Run ℕ → Type 0
BestLoop best b n xs r =
    ((r ≡ ok best) × All (λ c. (c.1 < n) ⊎ (b ≤ c.1)) xs)
    ⊎ ((w : Chosen best_fit n xs r) × (w.size < b))

best_head :
    (d t best b n : ℕ) (xs : List Block) {r : Run ℕ}
    → n ≤ t
    → t < b
    → BestLoop d t n xs r
    → BestLoop best b n ((d, t) ∷ xs) r
best_head d t best b n xs h h' (inl e) = inr (
  record {
    pre = [];
    addr = d;
    size = t;
    post = xs;
    split = refl;
    found = e.0;
    enough = h;
    policy = (tt, e.1);
  },
  h',
)
best_head d t best b n xs h h' (inr (w, lt)) = inr (
  record {
    pre = (d, t) ∷ w.pre;
    addr = w.addr;
    size = w.size;
    post = w.post;
    split = ap (λ l. (d, t) ∷ l) w.split;
    found = w.found;
    enough = w.enough;
    policy = ((inr lt, w.policy.0), w.policy.1);
  },
  omega arith,
)

best_skip :
    (d t best b n : ℕ) (xs : List Block) {r : Run ℕ}
    → (t < n) ⊎ (b ≤ t)
    → BestLoop best b n xs r
    → BestLoop best b n ((d, t) ∷ xs) r
best_skip d t best b n xs h (inl e) = inl (e.0, (h, e.1))
best_skip d t best b n xs h (inr (w, lt)) = inr (
  record {
    pre = (d, t) ∷ w.pre;
    addr = w.addr;
    size = w.size;
    post = w.post;
    split = ap (λ l. (d, t) ∷ l) w.split;
    found = w.found;
    enough = w.enough;
    policy = ((best_closer t b n w.size h lt, w.policy.0), w.policy.1);
  },
  lt,
)

best_fit_loop-Loop :
    (k : ℕ) (m : Mem) (p n best b : ℕ) (xs : List Block)
    → Chain m p xs
    → length xs < k
    → BestLoop best b n xs (best_fit_loop k m p n best b)
unfolding best_fit_loop
best_fit_loop-Loop zero m p n best b xs c fuel = absurd (omega arith)
best_fit_loop-Loop (suc k) m p n best b [] c fuel = rw c (inl (refl, tt))
best_fit_loop-Loop (suc k) m p n best b ((d, t) ∷ xs) c fuel =
    subst (λ z. BestLoop best b n ((d, t) ∷ xs) (best_fit_loop (suc k) m z n best b)) (sym c.0)
      (rw (live, c.2)
        (elim (Bool-cases (leb n t && ltb t b)) [
          | inl take ↦ rw take (
              best_head d t best b n xs (ground arith) (ground arith)
                (best_fit_loop-Loop k m (m.next d) n d t xs c.3 (omega arith)))
          | inr leave ↦ rw leave (
              best_skip d t best b n xs (ground arith)
                (best_fit_loop-Loop k m (m.next d) n best b xs c.3 (omega arith)))
        ]))
  where
    live : (d == null) ≡ false
    live = ground (arith, c.1)

-- The loop of find_worst_fit from a candidate of size `b`, over the rest of the list.
abbrev WorstLoop : (best b n : ℕ) → List Block → Run ℕ → Type 0
WorstLoop best b n xs r =
    ((r ≡ ok best) × All (λ c. (c.1 < n) ⊎ (c.1 ≤ b)) xs)
    ⊎ ((w : Chosen worst_fit n xs r) × (b < w.size))

worst_head :
    (d t best b n : ℕ) (xs : List Block) {r : Run ℕ}
    → n ≤ t
    → b < t
    → WorstLoop d t n xs r
    → WorstLoop best b n ((d, t) ∷ xs) r
worst_head d t best b n xs h h' (inl e) = inr (
  record {
    pre = [];
    addr = d;
    size = t;
    post = xs;
    split = refl;
    found = e.0;
    enough = h;
    policy = (tt, e.1);
  },
  h',
)
worst_head d t best b n xs h h' (inr (w, lt)) = inr (
  record {
    pre = (d, t) ∷ w.pre;
    addr = w.addr;
    size = w.size;
    post = w.post;
    split = ap (λ l. (d, t) ∷ l) w.split;
    found = w.found;
    enough = w.enough;
    policy = ((inr lt, w.policy.0), w.policy.1);
  },
  omega arith,
)

worst_skip :
    (d t best b n : ℕ) (xs : List Block) {r : Run ℕ}
    → (t < n) ⊎ (t ≤ b)
    → WorstLoop best b n xs r
    → WorstLoop best b n ((d, t) ∷ xs) r
worst_skip d t best b n xs h (inl e) = inl (e.0, (h, e.1))
worst_skip d t best b n xs h (inr (w, lt)) = inr (
  record {
    pre = (d, t) ∷ w.pre;
    addr = w.addr;
    size = w.size;
    post = w.post;
    split = ap (λ l. (d, t) ∷ l) w.split;
    found = w.found;
    enough = w.enough;
    policy = ((worst_closer t b n w.size h lt, w.policy.0), w.policy.1);
  },
  lt,
)

worst_fit_loop-Loop :
    (k : ℕ) (m : Mem) (p n best b : ℕ) (xs : List Block)
    → Chain m p xs
    → length xs < k
    → WorstLoop best b n xs (worst_fit_loop k m p n best b)
unfolding worst_fit_loop
worst_fit_loop-Loop zero m p n best b xs c fuel = absurd (omega arith)
worst_fit_loop-Loop (suc k) m p n best b [] c fuel = rw c (inl (refl, tt))
worst_fit_loop-Loop (suc k) m p n best b ((d, t) ∷ xs) c fuel =
    subst (λ z. WorstLoop best b n ((d, t) ∷ xs) (worst_fit_loop (suc k) m z n best b)) (sym c.0)
      (rw (live, c.2)
        (elim (Bool-cases (leb n t && ltb b t)) [
          | inl take ↦ rw take (
              worst_head d t best b n xs (ground arith) (ground arith)
                (worst_fit_loop-Loop k m (m.next d) n d t xs c.3 (omega arith)))
          | inr leave ↦ rw leave (
              worst_skip d t best b n xs (ground arith)
                (worst_fit_loop-Loop k m (m.next d) n best b xs c.3 (omega arith)))
        ]))
  where
    live : (d == null) ≡ false
    live = ground (arith, c.1)

best_rejects :
    (n : ℕ) (xs : List Block)
    → All Fits xs
    → All (λ c. (c.1 < n) ⊎ (uint64_max ≤ c.1)) xs
    → All (Small n) xs
best_rejects n [] f h = tt
best_rejects n ((a, s) ∷ xs) f h =
    (elim h.0 [ inl small ↦ small | inr huge ↦ absurd (omega arith) ], best_rejects n xs f.1 h.1)

worst_rejects :
    (n : ℕ) (xs : List Block) → 0 < n → All (λ c. (c.1 < n) ⊎ (c.1 ≤ 0)) xs → All (Small n) xs
worst_rejects n [] p h = tt
worst_rejects n ((a, s) ∷ xs) p h =
    (elim h.0 [ inl small ↦ small | inr empty ↦ omega arith ], worst_rejects n xs p h.1)

-- On a free list of blocks that fit, for a size above 0 and with a fuel above the length of the list,
-- each policy finds the block that it is named for: the first one that is large enough, the first
-- of the smallest such, or the first of the largest. With none large enough it returns `NULL`.
pub find_fit-Choice :
    (a : Algs) (k : ℕ) (m : Mem) (p n : ℕ) (xs : List Block)
    → Chain m p xs
    → All Fits xs
    → 0 < n
    → length xs < k
    → Choice a n xs (find_fit a k m p n)
unfolding find_fit find_best_fit find_worst_fit
find_fit-Choice first_fit k m p n xs c f pos fuel = find_first_fit-Choice k m p n xs c fuel
find_fit-Choice best_fit k m p n xs c f pos fuel =
    elim (best_fit_loop-Loop k m p n null uint64_max xs c fuel) [
      | inl (e, h) ↦ inl (e, best_rejects n xs f h)
      | inr (w, _) ↦ inr w
    ]
find_fit-Choice worst_fit k m p n xs c f pos fuel =
    elim (worst_fit_loop-Loop k m p n null 0 xs c fuel) [
      | inl (e, h) ↦ inl (e, worst_rejects n xs pos h)
      | inr (w, _) ↦ inr w
    ]
