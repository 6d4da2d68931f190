-- ===== src/Alloc/Tests.antt =====
-- Runs of the allocator of lecture/test2/alloc.c on small heaps.
use cmpt201_coursework.Prelude.{ℕ, ◌+◌, ◌≡◌, refl, true, false, List, [], ◌∷◌, arith, ok}
use cmpt201_coursework.Prelude.Int.{ℤ, pos, negsuc}
use cmpt201_coursework.Memory.{Block, Chain, update}
use cmpt201_coursework.Memory.Cover.{IsValid, cover, inside}
use cmpt201_coursework.Alloc.{Allocator, place, dealloc, with_free}
use cmpt201_coursework.Alloc.Sbrk.{Kernel}
use cmpt201_coursework.Alloc.FreeList.{
  Free, Algs, first_fit, best_fit, worst_fit, find_fit, coalesce_unsorted,
}
use cmpt201_coursework.Alloc.FreeList.Fit.{Choice, find_fit-Choice}
use cmpt201_coursework.Alloc.FreeList.Coalesce.{Coalesced, coalesce-Coalesced}
use cmpt201_coursework.Alloc.Release.{dealloc-Coalesced}
use cmpt201_coursework.Alloc.Place.{Placed, place-Placed}
use cmpt201_coursework.Alloc.Reuse.{Reused, alloc_list-Reused, place-overrun}
use cmpt201_coursework.Alloc.Bump.{IsBump}

-- Three blocks at 1000, 1100 and 2000, the first two of which meet.
abbrev blocks : List Block
blocks = (1000, 100) ∷ (1100, 50) ∷ (2000, 80) ∷ []

abbrev heap : Free
heap = record {
  head = 1000;
  mem = record {
    size = update (update (update (update (λ _. 0) 2000 80) 1100 50) 1000 100) 3000 64;
    next = update (update (λ _. 0) 1100 2000) 1000 1100;
  };
}

abbrev allocator : Algs → Allocator
allocator a = record {
  limit = 4096;
  algs = a;
  free = heap;
  heap_origin = 512;
  heap_end = 4608;
  dealloc_called = true;
}

heap-Chain : Chain heap.mem 1000 blocks
heap-Chain =
    (refl, ground arith, refl, (refl, ground arith, refl, (refl, ground arith, refl, refl)))

blocks-IsValid : IsValid blocks
unfolding cover inside
blocks-IsValid = record { fits = ground arith; apart = λ x. ground arith }

coalesce-Coalesced_example :
    (g : Free) × (ys : List Block) × (coalesce_unsorted 5 5 heap ≡ ok g) × Coalesced blocks g ys
coalesce-Coalesced_example =
    coalesce-Coalesced 5 5 heap blocks heap-Chain blocks-IsValid (omega arith) (omega arith)

freed-IsValid : IsValid ((3000, 64) ∷ blocks)
unfolding cover inside
freed-IsValid = record { fits = ground arith; apart = λ x. ground arith }

dealloc-Coalesced_example :
    (t : Allocator) × (ys : List Block) × (dealloc 6 3016 (allocator first_fit) ≡ ok t)
    × (t.dealloc_called ≡ true)
    × Coalesced ((3000, 64) ∷ blocks) t.free ys
dealloc-Coalesced_example =
    dealloc-Coalesced 6 3016 (allocator first_fit) blocks (omega arith) (omega arith) heap-Chain
      freed-IsValid (omega arith)

alloc_list-Reused_example : Reused 5 20 (allocator best_fit) blocks
alloc_list-Reused_example =
    alloc_list-Reused 5 20 (allocator best_fit) blocks heap-Chain blocks-IsValid (omega arith)
      (omega arith)

place-Placed_example :
    (t : Free) × (place 5 20 (allocator first_fit) 2000 0
      ≡ ok (2016, with_free (allocator first_fit) t.head t.mem))
    × Placed 20 2000 80 ((1000, 100) ∷ (1100, 50) ∷ []) [] t
place-Placed_example =
    place-Placed 5 20 (allocator first_fit) 2000 80 [] ((1000, 100) ∷ (1100, 50) ∷ []) heap-Chain
      blocks-IsValid (omega arith) (omega arith)

place-overrun_example :
    (t : Allocator) × (place 5 84 (allocator first_fit) 1000 1100 ≡ ok (1016, t))
    × (t.free.mem.size 1100 ≡ 0)
place-overrun_example =
    place-overrun 5 84 1000 (allocator first_fit) 1100 refl (omega arith) refl (omega arith)

find_fit-Choice_example : Choice worst_fit 60 blocks (find_fit worst_fit 5 heap.mem 1000 60)
find_fit-Choice_example =
    find_fit-Choice worst_fit 5 heap.mem 1000 60 blocks heap-Chain blocks-IsValid.fits (omega arith)
      (omega arith)

-- A kernel whose break has no limit.
abbrev sbrk : ℤ → ℕ → ℕ × ℕ
sbrk (pos n) w = (w, w + n)
sbrk (negsuc n) w = (w, w)

abbrev kernel : Kernel
kernel = record {
  World = ℕ;
  break = λ w. w;
  sbrk = sbrk;
  sbrk_zero = λ w. ground arith;
  sbrk_grow = λ n w h. (refl, refl);
}

-- The heap after a first `alloc` of 64 bytes at 4096.
abbrev bump : ℕ → Allocator
bump limit = record {
  limit = limit;
  algs = first_fit;
  free = record {
    head = 4176;
    mem = record { size = update (update (λ _. 0) 4096 80) 4176 160; next = λ _. 0 };
  };
  heap_origin = 4096;
  heap_end = 4352;
  dealloc_called = false;
}

bump-IsBump : IsBump (bump 512) 4352
bump-IsBump = record {
  fresh = refl;
  live = omega arith;
  tail = refl;
  at_break = refl;
  small = omega arith;
}

full-IsBump : IsBump (bump 256) 4352
full-IsBump = record {
  fresh = refl;
  live = omega arith;
  tail = refl;
  at_break = refl;
  small = omega arith;
}
