-- ===== src/Placement/Tests.antt =====
-- The run of lab/lab5.c on its five blocks.
use cmpt201_coursework.Prelude.{◌≡◌, refl, List, [], ◌∷◌, All, arith}
use cmpt201_coursework.Prelude.Int.{pos}
use cmpt201_coursework.Placement.{Header, find_first_fit, find_best_fit, find_worst_fit}
use cmpt201_coursework.Placement.Choice.{
  IsSize, id_of, fitting, first, smallest, largest, policies_lem,
}

abbrev blocks : List Header
blocks =
    record { size = 6; id = pos 1 }
    ∷ record { size = 12; id = pos 2 }
    ∷ record { size = 24; id = pos 3 }
    ∷ record { size = 8; id = pos 4 }
    ∷ record { size = 4; id = pos 5 }
    ∷ []

policies :
    (find_first_fit blocks 7 ≡ pos 2)
    × (find_best_fit blocks 7 ≡ pos 4)
    × (find_worst_fit blocks 7 ≡ pos 3)
unfolding find_first_fit find_best_fit find_worst_fit
policies = (refl, refl, refl)

blocks-IsSize : All IsSize blocks
blocks-IsSize = ground arith

policies_example :
    (find_first_fit blocks 7 ≡ id_of (first (fitting 7 blocks)))
    × (find_best_fit blocks 7 ≡ id_of (smallest (fitting 7 blocks)))
    × (find_worst_fit blocks 7 ≡ id_of (largest (fitting 7 blocks)))
policies_example = policies_lem blocks 7 blocks-IsSize
