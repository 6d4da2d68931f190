-- ===== src/Placement.antt =====
-- The placement policies of lab/lab5.c: a free list is the list of its headers.
pub mod Choice
mod Tests
use cmpt201_coursework.Prelude.{ℕ, ◌-◌, ◌^◌, ◌&&◌, List, [], ◌∷◌, ltb, leb, if◌then◌else◌}
use cmpt201_coursework.Prelude.Int.{ℤ, negsuc}

pub record Header : Type 0 where
  pub size : ℕ
  pub id : ℤ

unfoldable pub find_first_fit : List Header → ℕ → ℤ
find_first_fit [] size = negsuc 0
find_first_fit (h ∷ hs) size = if leb size h.size then h.id else find_first_fit hs size

unfoldable pub best_loop : List Header → (size : ℕ) → (best_fit_id : ℤ) → (best_fit_size : ℕ) → ℤ
best_loop [] size best_fit_id best_fit_size = best_fit_id
best_loop (h ∷ hs) size best_fit_id best_fit_size =
    let better = leb size h.size && ltb h.size best_fit_size in
    best_loop hs size (if better then h.id else best_fit_id)
      (if better then h.size else best_fit_size)

unfoldable pub find_best_fit : List Header → ℕ → ℤ
unfolding best_loop
find_best_fit hs size = best_loop hs size (negsuc 0) (2 ^ 64 - 1)

unfoldable pub worst_loop : List Header → (size : ℕ) → (worst_fit_id : ℤ) → (worst_fit_size : ℕ) → ℤ
worst_loop [] size worst_fit_id worst_fit_size = worst_fit_id
worst_loop (h ∷ hs) size worst_fit_id worst_fit_size =
    let worse = leb size h.size && ltb worst_fit_size h.size in
    worst_loop hs size (if worse then h.id else worst_fit_id)
      (if worse then h.size else worst_fit_size)

unfoldable pub find_worst_fit : List Header → ℕ → ℤ
unfolding worst_loop
find_worst_fit hs size = worst_loop hs size (negsuc 0) 0
