-- ===== src/Alloc/Sbrk.antt =====
-- `sbrk`, which is not code of the repository: what alloc.c relies on, as an interface.
use cmpt201_coursework.Prelude.{ℕ, ◌+◌, ◌-◌, ◌^◌, ◌≡◌, ◌≢◌}
use cmpt201_coursework.Prelude.Int.{ℤ, pos}

-- `(void *)-1`
abbrev pub failed : ℕ
failed = 2 ^ 64 - 1

-- `sbrk` returns the break from before the call, or `failed`.
pub record Kernel : Type 1 where
  pub World : Type 0
  pub break : World → ℕ
  pub sbrk : ℤ → World → ℕ × World
  pub sbrk_zero : (w : World) → sbrk (pos 0) w ≡ (break w, w)
  pub sbrk_grow :
      (n : ℕ) (w : World)
      → (sbrk (pos n) w).0 ≢ failed
      → ((sbrk (pos n) w).0 ≡ break w) × (break (sbrk (pos n) w).1 ≡ break w + n)
