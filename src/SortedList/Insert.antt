-- ===== src/SortedList/Insert.antt =====
-- `insert_sorted` of lab/lab6.c keeps the list sorted and its sum right.
use cmpt201_coursework.Prelude.{
  ℕ, ◌+◌, ◌%◌, ◌^◌, ◌≤◌, ◌<◌, ◌≡◌, refl, inl, inr, Bool-cases, Bool, true, false, List, [], ◌∷◌,
  arith, ltb, ◌==◌, if◌then◌else◌, add64, ok, fault,
}
use cmpt201_coursework.SortedList.{
  State, sum_loop, sum_list, insert_loop, insert_node, insert_sorted,
}

-- No number is below `b`.
abbrev pub AtLeast : ℕ → List ℕ → Type 0
AtLeast b [] = Unit
AtLeast b (x ∷ xs) = (b ≤ x) × AtLeast b xs

abbrev pub Sorted : List ℕ → Type 0
Sorted [] = Unit
Sorted (x ∷ xs) = AtLeast x xs × Sorted xs

-- How often a number occurs.
abbrev pub occurs : ℕ → List ℕ → ℕ
occurs n [] = 0
occurs n (x ∷ xs) = (if x == n then 1 else 0) + occurs n xs

abbrev pub total : List ℕ → ℕ
total [] = 0
total (x ∷ xs) = x + total xs

-- Whether the first node holds `new`.
abbrev pub starts : ℕ → List ℕ → Bool
starts new [] = false
starts new (x ∷ xs) = x == new

AtLeast-less : (a b : ℕ) (xs : List ℕ) → a ≤ b → AtLeast b xs → AtLeast a xs
AtLeast-less a b [] h l = tt
AtLeast-less a b (x ∷ xs) h l = (omega arith, AtLeast-less a b xs h l.1)

loop-AtLeast : (b new : ℕ) (xs : List ℕ) → b ≤ new → AtLeast b xs → AtLeast b (insert_loop new xs)
unfolding insert_loop
loop-AtLeast b new [] h l = (h, tt)
loop-AtLeast b new (x ∷ xs) h l = elim (Bool-cases (ltb x new)) [
  | inl e ↦ rw e ((l.0, loop-AtLeast b new xs h l.1))
  | inr e ↦ rw e ((h, l))
]

loop-Sorted : (new : ℕ) (xs : List ℕ) → Sorted xs → Sorted (insert_loop new xs)
unfolding insert_loop
loop-Sorted new [] s = (tt, tt)
loop-Sorted new (x ∷ xs) s = elim (Bool-cases (ltb x new)) [
  | inl e ↦ rw e ((loop-AtLeast x new xs (ground arith) s.0, loop-Sorted new xs s.1))
  | inr e ↦ rw e (((ground arith, AtLeast-less new x xs (ground arith) s.0), s))
]

loop-occurs :
    (new n : ℕ) (xs : List ℕ)
    → occurs n (insert_loop new xs) ≡ (if new == n then 1 else 0) + occurs n xs
unfolding insert_loop
loop-occurs new n [] = refl
loop-occurs new n (x ∷ xs) = ground (arith, loop-occurs new n xs)

loop-total : (new : ℕ) (xs : List ℕ) → total (insert_loop new xs) ≡ new + total xs
unfolding insert_loop
loop-total new [] = refl
loop-total new (x ∷ xs) = ground (arith, loop-total new xs)

sum_loop-total : (s : ℕ) (xs : List ℕ) → s < 2 ^ 64 → sum_loop s xs ≡ (s + total xs) % 2 ^ 64
unfolding sum_loop
sum_loop-total s [] h = omega arith
sum_loop-total s (x ∷ xs) h = omega (arith, sum_loop-total (add64 s x) xs (omega arith))

-- The state after `new` is inserted into `s`.
pub record Inserted (new : ℕ) (s t : State) : Type 0 where
  pub sorted : Sorted t.head
  pub occurs_eq : (n : ℕ) → occurs n t.head ≡ (if new == n then 1 else 0) + occurs n s.head
  pub sum_eq : t.sum ≡ sum_list t.head

node-Inserted :
    (new : ℕ) (xs : List ℕ)
    → Sorted xs
    → starts new xs ≡ false
    → (ys : List ℕ) × (insert_node new xs ≡ ok ys)
      × Sorted ys
      × ((n : ℕ) → occurs n ys ≡ (if new == n then 1 else 0) + occurs n xs)
      × (total ys ≡ new + total xs)
unfolding insert_node
node-Inserted new [] s f = (new ∷ [], refl, (tt, tt), λ n. refl, refl)
node-Inserted new (x ∷ xs) s f = elim (Bool-cases (ltb new x)) [
  | inl e ↦ (
    new ∷ x ∷ xs,
    rw (e),
    ((ground arith, AtLeast-less new x xs (ground arith) s.0), s),
    λ n. refl,
    refl,
  )
  | inr e ↦
      let e' : ltb x new ≡ true = ground arith in
      (
        x ∷ insert_loop new xs,
        rw (e, e'),
        (loop-AtLeast x new xs (ground arith) s.0, loop-Sorted new xs s.1),
        λ n. omega (arith, loop-occurs new n xs),
        omega (arith, loop-total new xs),
      )
]

-- Into a sorted list that does not begin with `new`, and whose sum is right, `insert_sorted` puts
-- `new` once and changes nothing else; the list stays sorted, and the sum stays that of the list.
pub insert_sorted-Inserted :
    (new : ℕ) (s : State)
    → Sorted s.head
    → s.sum ≡ sum_list s.head
    → starts new s.head ≡ false
    → (t : State) × (insert_sorted new s ≡ ok t) × Inserted new s t
unfolding insert_sorted sum_list
insert_sorted-Inserted new s h e f =
    let (ys, r, o, c, a) = node-Inserted new s.head h f in
    let p = sum_loop-total 0 s.head (omega arith) in
    let q = sum_loop-total 0 ys (omega arith) in
    (
      record { head = ys; sum = add64 s.sum new },
      rw (r),
      record { sorted = o; occurs_eq = c; sum_eq = omega arith },
    )

-- Inserting what the first node already holds writes through `NULL`.
pub insert_sorted-duplicate :
    (new sum : ℕ) (xs : List ℕ) → insert_sorted new (record { head = new ∷ xs; sum = sum }) ≡ fault
unfolding insert_sorted insert_node
insert_sorted-duplicate new sum xs = let e : ltb new new ≡ false = ground arith in rw (e)
