-- ===== src/SortedList/Tests.antt =====
-- Runs of lab/lab6.c on its own example.
use cmpt201_coursework.Prelude.{◌≡◌, refl, [], ◌∷◌, arith, ok}
use cmpt201_coursework.SortedList.{State, sum_list, sum_loop, insert_sorted}
use cmpt201_coursework.SortedList.Insert.{Sorted, Inserted, insert_sorted-Inserted}

abbrev state : State
state = record { head = 1 ∷ 3 ∷ 5 ∷ []; sum = 9 }

state-Sorted : Sorted state.head
state-Sorted = ground arith

state-sum : 9 ≡ sum_list (1 ∷ 3 ∷ 5 ∷ [])
unfolding sum_list sum_loop
state-sum = refl

insert_sorted-Inserted_example : (t : State) × (insert_sorted 2 state ≡ ok t) × Inserted 2 state t
insert_sorted-Inserted_example = insert_sorted-Inserted 2 state state-Sorted state-sum refl
