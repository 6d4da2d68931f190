-- ===== src/Grouping.antt =====
-- The map-reduce of lab/lab7.c up to its reduce phase. An array is the list of its entries in use.
-- A value that is doubled beyond an `int` is undefined, as is a write behind an array.
pub mod Group
pub mod Double
mod Tests
use cmpt201_coursework.Prelude.{
  ℕ, zero, suc, ◌+◌, ◌^◌, Bool, true, false, ◌&&◌, List, [], ◌∷◌, ◌++◌, ltb, leb, ◌==◌,
  if◌then◌else◌, length, Run, ok, fault, ◌>>=◌,
}
use cmpt201_coursework.Prelude.Int.{ℤ, pos_part, neg_part, ◌+ℤ◌}

abbrev pub max_input : ℕ
max_input = 100

-- `int` comparison
unfoldable pub same_int : ℤ → ℤ → Bool
same_int a b = (pos_part a == pos_part b) && (neg_part a == neg_part b)

pub record Input : Type 0 where
  pub line_number : ℕ
  pub value : ℤ

pub record IntermediateInput : Type 0 where
  pub line_number : ℕ
  pub doubled_value : ℤ

-- The `count` line numbers in use.
pub record Output : Type 0 where
  pub doubled_value : ℤ
  pub line_numbers : List ℕ

-- Whether an integer is one of a 32-bit `int`.
abbrev pub fits_int : ℤ → Bool
fits_int a = ltb (pos_part a) (2 ^ 31) && leb (neg_part a) (2 ^ 31)

-- `map`
unfoldable pub map_input : Input → Run IntermediateInput
map_input i =
    let doubled = i.value +ℤ i.value in
    if fits_int doubled
    then ok (record { line_number = i.line_number; doubled_value = doubled })
    else fault

-- `matchesValue` of some entry
unfoldable pub matches : ℤ → List Output → Bool
matches v [] = false
matches v (o ∷ os) = if same_int o.doubled_value v then true else matches v os

-- `thisOutput->line_numbers[thisOutput->count] = …; thisOutput->count++` on the first that matches.
unfoldable pub add_line : ℤ → ℕ → List Output → Run (List Output)
add_line v n [] = ok []
add_line v n (o ∷ os) =
    let rest = add_line v n os in
    if same_int o.doubled_value v
    then if ltb (length o.line_numbers) max_input
      then ok (record o { line_numbers = o.line_numbers ++ (n ∷ []) } ∷ os)
      else fault
    else rest >>= λ ys. ok (o ∷ ys)

-- `groupByKey`
unfoldable pub group_by_key : IntermediateInput → List Output → Run (List Output)
group_by_key i output =
    let v = i.doubled_value in
    let n = i.line_number in
    if matches v output
    then add_line v n output
    else if ltb (length output) max_input
    then ok (output ++ (record { doubled_value = v; line_numbers = n ∷ [] } ∷ []))
    else fault

-- The mapping loop of `main`, and its grouping loop.
unfoldable pub map_all : List Input → Run (List IntermediateInput)
map_all [] = ok []
map_all (i ∷ is) = do m ← map_input i; ms ← map_all is; ok (m ∷ ms)

unfoldable pub group_all : List IntermediateInput → List Output → Run (List Output)
group_all [] output = ok output
group_all (m ∷ ms) output = group_by_key m output >>= λ o. group_all ms o
