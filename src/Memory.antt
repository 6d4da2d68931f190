-- ===== src/Memory.antt =====
-- The memory that the allocators of lecture/test2 share: a `struct header` at an address, and the
-- free list that the `next` pointers make. User bytes are not kept: no allocator reads them.
pub mod Seg
pub mod Cover
use cmpt201_coursework.Prelude.{
  ℕ, ◌+◌, ◌≡◌, ◌≢◌, Bool, false, ◌||◌, List, [], ◌∷◌, ◌==◌, if◌then◌else◌,
}

abbrev pub null : ℕ
null = 0

-- `sizeof(struct header)`, packed
abbrev pub header_size : ℕ
header_size = 16

-- The two fields of the header at each address.
pub record Mem : Type 0 where
  pub size : ℕ → ℕ
  pub next : ℕ → ℕ

abbrev pub update : (ℕ → ℕ) → ℕ → ℕ → ℕ → ℕ
update f p v q = if p == q then v else f q

abbrev pub set_size : Mem → ℕ → ℕ → Mem
set_size m p v = record m { size = update m.size p v }

abbrev pub set_next : Mem → ℕ → ℕ → Mem
set_next m p v = record m { next = update m.next p v }

-- An address and a size.
abbrev pub Block : Type 0
Block = ℕ × ℕ

-- The `next` pointers lead from `p` through the blocks to `q`.
abbrev pub Seg : Mem → ℕ → List Block → ℕ → Type 0
Seg m p [] q = p ≡ q
Seg m p ((a, s) ∷ xs) q = (p ≡ a) × (a ≢ null) × (m.size a ≡ s) × Seg m (m.next a) xs q

abbrev pub Chain : Mem → ℕ → List Block → Type 0
Chain m p xs = Seg m p xs null

abbrev pub has : ℕ → List Block → Bool
has p [] = false
has p ((a, s) ∷ xs) = (a == p) || has p xs

-- The address of the last block, `d` if there is none.
abbrev pub last : List Block → ℕ → ℕ
last [] d = d
last ((a, s) ∷ xs) d = last xs a

abbrev pub total : List Block → ℕ
total [] = 0
total ((a, s) ∷ xs) = s + total xs
