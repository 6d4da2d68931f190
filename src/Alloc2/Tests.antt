-- ===== src/Alloc2/Tests.antt =====
-- Runs of the allocator of lecture/test2/alloc2.c on small heaps.
use cmpt201_coursework.Prelude.{ℕ, ◌≡◌, refl, true, List, [], ◌∷◌, arith, ok, inl}
use cmpt201_coursework.Prelude.Int.{ℤ, pos, negsuc}
use cmpt201_coursework.Prelude.{◌+◌}
use cmpt201_coursework.Memory.{Block, Chain, update}
use cmpt201_coursework.Alloc
use cmpt201_coursework.Alloc.{Allocator}
use cmpt201_coursework.Alloc.Sbrk.{Kernel}
use cmpt201_coursework.Alloc.FreeList.{worst_fit}
use cmpt201_coursework.Alloc2.{dealloc}
use cmpt201_coursework.Alloc2.Pass.{listed, dealloc-adjoining}

-- A free block at 1080, behind one of 80 bytes at 1000 that is in use.
abbrev blocks : List Block
blocks = (1080, 80) ∷ (2000, 200) ∷ []

abbrev heap : Allocator
heap = record {
  limit = 4096;
  algs = worst_fit;
  free = record {
    head = 1080;
    mem = record {
      size = update (update (update (λ _. 0) 2000 200) 1080 80) 1000 80;
      next = update (λ _. 0) 1080 2000;
    };
  };
  heap_origin = 512;
  heap_end = 4608;
  dealloc_called = true;
}

-- A kernel whose break has no limit.
abbrev sbrk : ℤ → ℕ → ℕ × ℕ
sbrk (pos n) w = (w, w + n)
sbrk (negsuc n) w = (w, w)

abbrev kernel : Kernel
kernel = record {
  World = ℕ;
  break = λ w. w;
  sbrk = sbrk;
  sbrk_zero = λ w. ground arith;
  sbrk_grow = λ n w h. (refl, refl);
}

-- Only the block at 1080 is free; that at 1000 ends where it begins.
abbrev one_free : Allocator
one_free = record heap {
  free = record {
    head = 1080;
    mem = record {
      size = update heap.free.mem.size 1080 80;
      next = update heap.free.mem.next 1080 0;
    };
  };
}

dealloc-adjoining_example :
    (dealloc 6 1016 one_free
      ≡ ok (record one_free { free = listed one_free.free 1000; dealloc_called = true }))
    × Chain (listed one_free.free 1000).mem 1000 ((1000, 80) ∷ (1080, 80) ∷ [])
dealloc-adjoining_example =
    dealloc-adjoining 6 1000 one_free ((1080, 80) ∷ []) (omega arith)
      (refl, ground arith, refl, refl) refl (omega arith, (omega arith, tt)) (inl refl, tt)
      (omega arith)
