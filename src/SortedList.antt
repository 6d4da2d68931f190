-- ===== src/SortedList.antt =====
-- The sorted list of lab/lab6.c, in its second version, which keeps the sum of the list beside it.
-- A list is the data of the nodes that `head` leads to; a node is at one place of it.
pub mod Insert
pub mod Index
mod Tests
use cmpt201_coursework.Prelude.{
  ℕ, zero, suc, ◌+◌, ◌%◌, ◌^◌, List, [], ◌∷◌, ltb, ◌==◌, if◌then◌else◌, add64, Run, ok, fault,
  ◌>>=◌,
}
use cmpt201_coursework.Prelude.Int.{ℤ, pos, negsuc}

-- `head` and `info`.
pub record State : Type 0 where
  pub head : List ℕ
  pub sum : ℕ

-- `for (node_t *p = head; p != NULL; p = p->next) s += p->data;`
unfoldable pub sum_loop : ℕ → List ℕ → ℕ
sum_loop s [] = s
sum_loop s (x ∷ xs) = sum_loop (add64 s x) xs

unfoldable pub sum_list : List ℕ → ℕ
unfolding sum_loop
sum_list head = sum_loop 0 head

-- The loop from `curr` on, once there is a node before it: what `prev->next` leads to then.
unfoldable pub insert_loop : ℕ → List ℕ → List ℕ
insert_loop new [] = new ∷ []
insert_loop new (x ∷ curr) = if ltb x new then x ∷ insert_loop new curr else new ∷ x ∷ curr

-- If the loop stops at the first node, `prev->next` writes through `NULL`.
unfoldable pub insert_node : ℕ → List ℕ → Run (List ℕ)
unfolding insert_loop
insert_node new [] = ok (new ∷ [])
insert_node new (x ∷ xs) =
    if ltb new x
    then ok (new ∷ x ∷ xs)
    else if ltb x new
    then ok (x ∷ insert_loop new xs)
    else fault

unfoldable pub insert_sorted : ℕ → State → Run State
insert_sorted new s =
    insert_node new s.head >>= λ l. ok (record { head = l; sum = add64 s.sum new })

-- The loop of `index_of` at the node of index `index`.
unfoldable pub index_loop : ℕ → ℕ → List ℕ → ℤ
index_loop new index [] = negsuc 0
index_loop new index (x ∷ curr) = if x == new then pos index else index_loop new (index + 1) curr

unfoldable pub index_of : ℕ → List ℕ → ℤ
unfolding index_loop
index_of new head = index_loop new 0 head
