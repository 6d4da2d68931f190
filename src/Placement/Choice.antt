-- ===== src/Placement/Choice.antt =====
-- The policies of lab/lab5.c against the blocks that they are named for.
use cmpt201_coursework.Prelude.{
  ℕ, ◌-◌, ◌^◌, ◌<◌, ◌≡◌, refl, ◌∙◌, true, ◌&&◌, Option, none, some, Option-cases, List, [], ◌∷◌,
  arith, ltb, leb, if◌then◌else◌, inl, inr, All,
}
use cmpt201_coursework.Prelude.Int.{ℤ, negsuc}
use cmpt201_coursework.Placement.{
  Header, find_first_fit, best_loop, find_best_fit, worst_loop, find_worst_fit,
}

-- The blocks that are large enough.
unfoldable pub fitting : ℕ → List Header → List Header
fitting size [] = []
fitting size (h ∷ hs) = if leb size h.size then h ∷ fitting size hs else fitting size hs

-- The first block, the first of the smallest and the first of the largest, with their tails decided
-- before them.
unfoldable pub first : List Header → Option Header
first [] = none
first (h ∷ hs) = some h

unfoldable pub smallest : List Header → Option Header
smallest [] = none
smallest (h ∷ hs) = elim (smallest hs) [
  | none ↦ some h
  | some g ↦ if ltb g.size h.size then some g else some h
]

unfoldable pub largest : List Header → Option Header
largest [] = none
largest (h ∷ hs) = elim (largest hs) [
  | none ↦ some h
  | some g ↦ if ltb h.size g.size then some g else some h
]

-- The id of a block, -1 for none.
abbrev pub id_of : Option Header → ℤ
id_of none = negsuc 0
id_of (some h) = h.id

first_lem : (hs : List Header) (size : ℕ) → find_first_fit hs size ≡ id_of (first (fitting size hs))
unfolding find_first_fit first fitting
first_lem [] size = refl
first_lem (h ∷ hs) size = ground (arith, first_lem hs size)

abbrev better_id : Option Header → ℤ → ℕ → ℤ
better_id none i s = i
better_id (some h) i s = if ltb h.size s then h.id else i

abbrev worse_id : Option Header → ℤ → ℕ → ℤ
worse_id none i s = i
worse_id (some h) i s = if ltb s h.size then h.id else i

best_loop_lem :
    (hs : List Header) (size : ℕ) (i : ℤ) (s : ℕ)
    → best_loop hs size i s ≡ better_id (smallest (fitting size hs)) i s
unfolding best_loop smallest fitting
best_loop_lem [] size i s = refl
best_loop_lem (h ∷ hs) size i s =
    let better = leb size h.size && ltb h.size s in
    let r = best_loop_lem hs size (if better then h.id else i) (if better then h.size else s) in
    elim (Option-cases (smallest (fitting size hs))) [
      | inl e ↦ ground arith
      | inr (g, e) ↦ ground arith
    ]

worst_loop_lem :
    (hs : List Header) (size : ℕ) (i : ℤ) (s : ℕ)
    → worst_loop hs size i s ≡ worse_id (largest (fitting size hs)) i s
unfolding worst_loop largest fitting
worst_loop_lem [] size i s = refl
worst_loop_lem (h ∷ hs) size i s =
    let worse = leb size h.size && ltb s h.size in
    let r = worst_loop_lem hs size (if worse then h.id else i) (if worse then h.size else s) in
    elim (Option-cases (largest (fitting size hs))) [
      | inl e ↦ ground arith
      | inr (g, e) ↦ ground arith
    ]

-- A size that a block can have: more than 0, less than the largest 64-bit number.
abbrev pub IsSize : Header → Type 0
IsSize h = (0 < h.size) × (h.size < 2 ^ 64 - 1)

smallest-bound :
    (size : ℕ) (hs : List Header)
    → All IsSize hs
    → (g : Header) → smallest (fitting size hs) ≡ some g
    → g.size < 2 ^ 64 - 1
unfolding smallest fitting
smallest-bound size [] a g e = cc
smallest-bound size (h ∷ hs) a g e = elim (Option-cases (smallest (fitting size hs))) [
  | inl n ↦ ground (arith, a.0)
  | inr (f, n) ↦ let i = smallest-bound size hs a.1 f n in ground (arith, a.0)
]

largest-bound :
    (size : ℕ) (hs : List Header)
    → All IsSize hs
    → (g : Header) → largest (fitting size hs) ≡ some g
    → 0 < g.size
unfolding largest fitting
largest-bound size [] a g e = cc
largest-bound size (h ∷ hs) a g e = elim (Option-cases (largest (fitting size hs))) [
  | inl n ↦ ground (arith, a.0)
  | inr (f, n) ↦ let i = largest-bound size hs a.1 f n in ground (arith, a.0)
]

-- Of blocks whose sizes are more than 0 and less than the largest 64-bit number, the policies return
-- the id of the first that is large enough, of the first of the smallest such and of the first of the
-- largest such; without one they return -1.
pub policies_lem :
    (hs : List Header) (size : ℕ)
    → All IsSize hs
    → (find_first_fit hs size ≡ id_of (first (fitting size hs)))
      × (find_best_fit hs size ≡ id_of (smallest (fitting size hs)))
      × (find_worst_fit hs size ≡ id_of (largest (fitting size hs)))
unfolding find_best_fit find_worst_fit
policies_lem hs size a = (
  first_lem hs size,
  best_loop_lem hs size (negsuc 0) (2 ^ 64 - 1) ∙ elim (Option-cases (smallest (fitting size hs))) [
    | inl e ↦ rw (e)
    | inr (g, e) ↦
        let b = smallest-bound size hs a g e in
        let t : ltb g.size (2 ^ 64 - 1) ≡ true = ground arith in rw (e, t)
  ],
  worst_loop_lem hs size (negsuc 0) 0 ∙ elim (Option-cases (largest (fitting size hs))) [
    | inl e ↦ rw (e)
    | inr (g, e) ↦
        let b = largest-bound size hs a g e in
        let t : ltb 0 g.size ≡ true = ground arith in rw (e, t)
  ],
)
