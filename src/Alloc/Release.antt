-- ===== src/Alloc/Release.antt =====
-- `dealloc` of alloc.c.
use cmpt201_coursework.Prelude.{
  ℕ, ◌+◌, ◌^◌, ◌<◌, ◌≡◌, refl, true, false, List, ◌∷◌, arith, ◌==◌, length, ok, sub64,
}
use cmpt201_coursework.Memory.{Block, Chain, set_next, null, header_size}
use cmpt201_coursework.Memory.Seg.{Seg-set_next}
use cmpt201_coursework.Memory.Cover.{IsValid, not-has}
use cmpt201_coursework.Alloc.{Allocator, dealloc}
use cmpt201_coursework.Alloc.FreeList.{Free}
use cmpt201_coursework.Alloc.FreeList.Coalesce.{Coalesced, coalesce-Coalesced}

-- The list with a block in front, in the memory where its `next` is set.
abbrev listed : Allocator → ℕ → Free
listed s block = record { head = block; mem = set_next s.free.mem block s.free.head }

listed-Chain :
    (s : Allocator) (block : ℕ) (xs : List Block)
    → Chain s.free.mem s.free.head xs
    → IsValid ((block, s.free.mem.size block) ∷ xs)
    → Chain (listed s block).mem block ((block, s.free.mem.size block) ∷ xs)
listed-Chain s block xs c v = (
  refl,
  (let f = v.fits in omega arith),
  refl,
  rw hit (
      Seg-set_next s.free.mem s.free.head null block s.free.head xs
        (not-has block (s.free.mem.size block) xs v) c),
)
  where
    hit : (listed s block).mem.next block ≡ s.free.head
    hit = ground arith

-- `dealloc` of a block that does not overlap the free list puts it there and merges: the list then
-- covers its old bytes and those of the block, and no others; no block of it begins where another
-- ends; the later calls of `alloc` use the list. A fuel above the number of blocks is enough.
pub dealloc-Coalesced :
    (k header : ℕ) (s : Allocator) (xs : List Block)
    → header_size < header
    → header < 2 ^ 64
    → Chain s.free.mem s.free.head xs
    → let block = sub64 header header_size in
      IsValid ((block, s.free.mem.size block) ∷ xs)
      → length xs + 1 < k
      → (t : Allocator) × (ys : List Block) × (dealloc k header s ≡ ok t)
        × (t.dealloc_called ≡ true)
        × Coalesced
            ((sub64 header header_size, s.free.mem.size (sub64 header header_size)) ∷ xs)
            t.free
            ys
unfolding dealloc
dealloc-Coalesced k header s xs low high c v fuel =
    let (free, ys, e, d) =
      coalesce-Coalesced k k (listed s block) ((block, s.free.mem.size block) ∷ xs)
        (listed-Chain s block xs c v) v (omega arith) (omega arith) in
    (record s { free = free; dealloc_called = true }, ys, rw (live, e), refl, d)
  where
    block : ℕ
    block = sub64 header header_size

    live : (header == null) ≡ false
    live = ground arith

-- `dealloc(NULL)` does nothing.
dealloc-null : (k : ℕ) (s : Allocator) → dealloc k null s ≡ ok s
unfolding dealloc
dealloc-null k s = refl
