-- ===== src/Alloc/Bump.antt =====
-- `alloc` of alloc.c before any `dealloc`: a bump pointer with a header before the free space.
use cmpt201_coursework.Prelude.{
  ℕ, ◌+◌, ◌*◌, ◌^◌, ◌≤◌, ◌<◌, ◌≡◌, ◌≢◌, ap, ◌∙◌, true, false, ◌&&◌, ◌||◌, arith, ltb, leb, ◌==◌, ok,
  add64,
}
use cmpt201_coursework.Prelude.Int.{pos}
use cmpt201_coursework.Memory.{set_size, null, header_size}
use cmpt201_coursework.Alloc.{
  Allocator, increment, carve, alloc_bump, at_limit, under_limit, alloc, with_free,
}
use cmpt201_coursework.Alloc.Sbrk.{Kernel, failed}

-- The free space runs from the header at `head` to the end of the heap, which is the break.
pub record IsBump (s : Allocator) (break : ℕ) : Type 0 where
  pub fresh : s.dealloc_called ≡ false
  pub live : 0 < s.free.head
  pub tail : s.free.head + header_size + s.free.mem.size s.free.head ≡ s.heap_end
  pub at_break : s.heap_end ≡ break
  pub small : s.heap_end + 2 * increment < 2 ^ 64

-- The state once `n` bytes are taken from the free space of `s`, whose size was `size`.
pub record Taken (n size : ℕ) (s t : Allocator) : Type 0 where
  pub head : t.free.head ≡ s.free.head + header_size + n
  pub left : t.free.mem.size t.free.head + n + header_size ≡ size
  pub header : t.free.mem.size s.free.head ≡ n + header_size
  pub limit : t.limit ≡ s.limit

carve-Taken :
    (n break : ℕ) (s : Allocator)
    → IsBump s break
    → n + header_size * 2 ≤ s.free.mem.size s.free.head
    → let (p, t) = carve n s in
      (p ≡ s.free.head + header_size) × IsBump t break × Taken n (s.free.mem.size s.free.head) s t
unfolding carve
carve-Taken n break s b room = ground arith

module _ (kernel : Kernel) (k n : ℕ) (s : Allocator) (w : kernel.World) where
  open kernel use {World, break, sbrk, sbrk_zero, sbrk_grow}

  abbrev size : ℕ
  size = s.free.mem.size s.free.head

  -- Without a freed block `alloc` is the branch of the bump pointer.
  alloc-alloc_bump : IsBump s (break w) → alloc kernel k n s w ≡ ok (alloc_bump kernel n s w)
  unfolding alloc
  alloc-alloc_bump b = rw (b.fresh, live)
    where
      live : (s.free.head == null) ≡ false
      live = let h = b.live in ground arith

  bump-carve :
      ltb size n ≡ false
      → ltb size (add64 n (header_size * 2)) ≡ false
      → ltb size (add64 n header_size) ≡ false
      → alloc_bump kernel n s w ≡ ((carve n s).0, (carve n s).1, w)
  unfolding alloc_bump
  bump-carve e e' e'' = ground arith

  abbrev grown : Allocator
  grown =
      record (with_free s s.free.head (set_size s.free.mem s.free.head (add64 size increment))) {
        heap_end = (sbrk (pos 0) (sbrk (pos increment) w).1).0;
      }

  bump-grow :
      under_limit s ≡ true
      → at_limit s ≡ false
      → ltb n size ≡ false
      → ((ltb size n) || (leb n size && ltb size (add64 n header_size))) ≡ true
      → ((sbrk (pos increment) w).0 == failed) ≡ false
      → alloc_bump kernel n s w
        ≡ ((carve n grown).0, (carve n grown).1, (sbrk (pos 0) (sbrk (pos increment) w).1).1)
  unfolding alloc_bump
  bump-grow e e' e'' t f = ground arith

  bump-exhausted : at_limit s ≡ true → ltb size n ≡ true → alloc_bump kernel n s w ≡ (null, s, w)
  unfolding alloc_bump
  bump-exhausted e e' = ground arith

-- A call of `alloc` while the free space is more than a header larger than what is asked for: the
-- pointer is behind the old `head`, whose header says `n + 16`; `head` moves by `n + 16`; the free
-- space shrinks by as much; and it still runs to the break.
alloc-carve :
    (kernel : Kernel) (k n : ℕ) (s : Allocator) (w : kernel.World)
    → IsBump s (kernel.break w)
    → n + header_size * 2 ≤ s.free.mem.size s.free.head
    → (t : Allocator) × (alloc kernel k n s w ≡ ok (s.free.head + header_size, t, w))
      × IsBump t (kernel.break w)
      × Taken n (s.free.mem.size s.free.head) s t
alloc-carve kernel k n s w b room =
    let (at, b', t) = carve-Taken n (kernel.break w) s b room in
    (
      (carve n s).1,
      alloc-alloc_bump kernel k n s w b
          ∙ ap ok (
              bump-carve kernel k n s w (ground arith) (ground arith) (ground arith)
              ∙ ap (λ p. (p, (carve n s).1, w)) at),
      b',
      t,
    )

-- At the limit, a request larger than the free space returns `NULL` and changes nothing.
alloc-exhausted :
    (kernel : Kernel) (k n : ℕ) (s : Allocator) (w : kernel.World)
    → IsBump s (kernel.break w)
    → at_limit s ≡ true
    → s.free.mem.size s.free.head < n
    → alloc kernel k n s w ≡ ok (null, s, w)
alloc-exhausted kernel k n s w b e h =
    alloc-alloc_bump kernel k n s w b ∙ ap ok (bump-exhausted kernel k n s w e (ground arith))

-- Under the limit, a request that the free space is too small for raises the break by 256 bytes and
-- is served from the larger space, if it fits there with two headers and `sbrk` does not fail.
pub alloc-grow :
    (kernel : Kernel) (k n : ℕ) (s : Allocator) (w : kernel.World)
    → IsBump s (kernel.break w)
    → under_limit s ≡ true
    → s.free.mem.size s.free.head ≤ n
    → n + header_size * 2 ≤ s.free.mem.size s.free.head + increment
    → (kernel.sbrk (pos increment) w).0 ≢ failed
    → kernel.break w + 4 * increment < 2 ^ 64
    → (t : Allocator) × (w' : kernel.World) × (alloc kernel k n s w
        ≡ ok (s.free.head + header_size, t, w'))
      × (kernel.break w' ≡ kernel.break w + increment)
      × IsBump t (kernel.break w')
      × Taken n (s.free.mem.size s.free.head + increment) s t
alloc-grow kernel k n s w b under low room up far =
    let (at, b', t) = carve-Taken n (kernel.break w2) g larger (ground (arith, size_lem)) in
    (
      (carve n g).1,
      w2,
      alloc-alloc_bump kernel k n s w b
          ∙ ap ok (
              bump-grow kernel k n s w under (ground arith) (ground arith) (ground arith)
                (ground arith)
              ∙ ap (λ p. (p, (carve n g).1, w2)) at),
      break_lem,
      b',
      record { head = t.head; left = t.left ∙ size_lem; header = t.header; limit = t.limit },
    )
  where
    g : Allocator
    g = grown kernel k n s w

    w2 : kernel.World
    w2 = (kernel.sbrk (pos 0) (kernel.sbrk (pos increment) w).1).1

    size_lem : g.free.mem.size g.free.head ≡ s.free.mem.size s.free.head + increment
    size_lem = ground arith

    break_lem : kernel.break w2 ≡ kernel.break w + increment
    break_lem =
        ap (λ r. kernel.break r.1) (kernel.sbrk_zero (kernel.sbrk (pos increment) w).1)
        ∙ (kernel.sbrk_grow increment w up).1

    end_lem : g.heap_end ≡ kernel.break w + increment
    end_lem =
        ap (λ r. r.0) (kernel.sbrk_zero (kernel.sbrk (pos increment) w).1)
        ∙ (kernel.sbrk_grow increment w up).1

    larger : IsBump g (kernel.break w2)
    larger = record {
      fresh = b.fresh;
      live = b.live;
      tail = omega (arith, size_lem, end_lem, b.tail, b.at_break);
      at_break = omega (arith, end_lem, break_lem);
      small = omega (arith, end_lem);
    }
