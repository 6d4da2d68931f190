-- ===== src/Grouping/Tests.antt =====
-- Runs of lab/lab7.c on a short input.
use cmpt201_coursework.Prelude.{◌≡◌, refl, List, [], ◌∷◌, arith, ok}
use cmpt201_coursework.Prelude.Int.{ℤ, pos, negsuc, ◌+ℤ◌}
use cmpt201_coursework.Grouping.{Input, IntermediateInput, Output, map_all, group_all}
use cmpt201_coursework.Grouping.Group.{lines_of, Distinct}
use cmpt201_coursework.Grouping.Double.{InRange, lines_with, group_all-lines}

-- The values 3, -2 and 3 on three lines.
abbrev inputs : List Input
inputs =
    record { line_number = 1; value = pos 3 }
    ∷ record { line_number = 2; value = negsuc 1 }
    ∷ record { line_number = 3; value = pos 3 }
    ∷ []

inputs-InRange : InRange inputs
unfolding ◌+ℤ◌
inputs-InRange = (refl, (refl, (refl, tt)))

group_all-lines_example :
    (ms : List IntermediateInput) × (ys : List Output) × (map_all inputs ≡ ok ms)
    × (group_all ms [] ≡ ok ys)
    × Distinct ys
    × ((v : ℤ) → lines_of (v +ℤ v) ys ≡ lines_with v inputs)
group_all-lines_example = group_all-lines inputs inputs-InRange (omega arith)
