-- ===== src/SortedList/Index.antt =====
-- `index_of` of lab/lab6.c on a sorted list.
use cmpt201_coursework.Prelude.{
  ℕ, ◌+◌, ◌≤◌, ◌<◌, ◌≡◌, refl, ◌∙◌, List, [], ◌∷◌, arith, ltb, ◌==◌, if◌then◌else◌,
}
use cmpt201_coursework.Prelude.Int.{pos, negsuc}
use cmpt201_coursework.SortedList.{index_loop, index_of}
use cmpt201_coursework.SortedList.Insert.{AtLeast, Sorted, occurs}

-- How many numbers are below `n`.
abbrev pub below : ℕ → List ℕ → ℕ
below n [] = 0
below n (x ∷ xs) = (if ltb x n then 1 else 0) + below n xs

none_below : (b n : ℕ) (xs : List ℕ) → n ≤ b → AtLeast b xs → below n xs ≡ 0
none_below b n [] h l = refl
none_below b n (x ∷ xs) h l = ground (arith, none_below b n xs h l.1)

none_occurs : (b n : ℕ) (xs : List ℕ) → n < b → AtLeast b xs → occurs n xs ≡ 0
none_occurs b n [] h l = refl
none_occurs b n (x ∷ xs) h l = ground (arith, none_occurs b n xs h l.1)

index_loop_lem :
    (new i : ℕ) (xs : List ℕ)
    → Sorted xs
    → index_loop new i xs ≡ (if occurs new xs == 0 then negsuc 0 else pos (i + below new xs))
unfolding index_loop
index_loop_lem new i [] s = refl
index_loop_lem new i (x ∷ xs) s =
    let h = index_loop_lem new (i + 1) xs s.1 in
    let z = none_below x new xs in let z' = none_occurs x new xs in ground arith

-- In a sorted list, the index of a number that occurs is how many numbers are below it; that of
-- another number is -1.
pub index_of_lem :
    (new : ℕ) (xs : List ℕ)
    → Sorted xs
    → index_of new xs ≡ (if occurs new xs == 0 then negsuc 0 else pos (below new xs))
unfolding index_of
index_of_lem new xs s = index_loop_lem new 0 xs s ∙ ground arith
