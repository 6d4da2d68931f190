-- ===== src/Alloc.antt =====
-- The allocator of lecture/test2/alloc.c: first a bump pointer that grows by `sbrk`, and after the
-- first `dealloc` a list of free blocks with three placement policies. Each loop runs on fuel.
-- An `int size` enters as the `uint64_t` that the code converts it to before every use.
pub mod Sbrk
pub mod FreeList
pub mod Release
pub mod Statistics
pub mod Bump
pub mod Reuse
pub mod Place
mod Tests
use cmpt201_coursework.Prelude.{
  ℕ, zero, suc, ◌+◌, ◌-◌, ◌*◌, ◌^◌, Bool, true, false, not, ◌&&◌, ◌||◌, ltb, leb, ◌==◌,
  if◌then◌else◌, Run, ok, fault, out_of_fuel, ◌>>=◌, add64, sub64,
}
use cmpt201_coursework.Prelude.Int.{ℤ, pos, sub_ℕ}
use cmpt201_coursework.Memory.{Mem, set_size, set_next, null, header_size}
use Sbrk.{Kernel, failed}
use FreeList.{
  Free, Algs, uint64_max, first_fit, best_fit, worst_fit, find_fit, get_next, get_last,
  coalesce_unsorted,
}

abbrev pub increment : ℕ
increment = 256

-- The static variables. A limit is a number of bytes, as `allocopt` is given it.
pub record Allocator : Type 0 where
  pub limit : ℕ
  pub algs : Algs
  pub free : Free
  pub heap_origin : ℕ
  pub heap_end : ℕ
  pub dealloc_called : Bool

abbrev pub with_free : Allocator → ℕ → Mem → Allocator
with_free s p m = record s { free = record { head = p; mem = m } }

-- Two words are written: `p->size = v; p->next = q`.
abbrev pub put : Mem → ℕ → ℕ → ℕ → Mem
put m p v q = set_next (set_size m p v) p q

-- `heap_end - heap_origin == limit` and `heap_end - heap_origin < limit`
abbrev pub at_limit : Allocator → Bool
at_limit s = s.heap_end == s.heap_origin + s.limit

abbrev pub under_limit : Allocator → Bool
under_limit s = ltb s.heap_end (s.heap_origin + s.limit)

-- Splits the free space at `head` and returns its front.
unfoldable pub carve : ℕ → Allocator → ℕ × Allocator
carve n s =
    let block = s.free.head in
    let next_block = add64 (add64 block header_size) n in
    let rest = sub64 (sub64 (s.free.mem.size block) n) header_size in
    let m = set_size (put s.free.mem next_block rest null) block (add64 n header_size) in
    if m.size next_block == 0
    then (
      add64 block header_size,
      with_free s (add64 next_block header_size)
          (set_size m block (add64 (m.size block) header_size)),
    )
    else (add64 block header_size, with_free s next_block m)

-- What `alloc` does with the block `temp` that it found. With none, `temp->size` reads through
-- `NULL`; so does `last->next` with no block before `temp`.
unfoldable pub place : ℕ → ℕ → Allocator → (temp next_block : ℕ) → Run (ℕ × Allocator)
place k n s temp next_block =
    let m = s.free.mem in
    let new_block = add64 (add64 temp header_size) n in
    let rest = sub64 (sub64 (m.size temp) n) header_size in
    let m' = set_size (put m new_block rest next_block) temp (add64 n header_size) in
    let user_ptr = add64 temp header_size in
    if temp == null
    then fault
    else if ltb (m.size temp) (add64 n header_size)
    then ok (user_ptr, with_free s next_block m)
    else if temp == s.free.head
    then ok (user_ptr, with_free s new_block m')
    else get_last k m' s.free.head temp >>= λ last.
        if last == null
        then fault
        else ok (user_ptr, with_free s s.free.head (set_next m' last new_block))

-- The branch of `alloc` after the first `dealloc`.
unfoldable pub alloc_list : ℕ → ℕ → Allocator → Run (ℕ × Allocator)
alloc_list k n s = do
  temp ← find_fit s.algs k s.free.mem s.free.head (add64 n header_size)
  next_block ← get_next k s.free.mem s.free.head temp
  place k n s temp next_block

-- `k` bounds each loop over the list.
unfoldable pub dealloc : ℕ → ℕ → Allocator → Run Allocator
dealloc k header s =
    let block = sub64 header header_size in
    let listed : Free = record { head = block; mem = set_next s.free.mem block s.free.head } in
    if header == null
    then ok s
    else coalesce_unsorted k k listed >>= λ free.
        ok (record s { free = free; dealloc_called = true })

module _ (kernel : Kernel) where
  open kernel use {World, sbrk}

  unfoldable pub alloc_init : ℕ → Allocator → World → ℕ × Allocator × World
  alloc_init n s w =
      let (start, w1) = sbrk (pos increment) w in
      let (end, w2) = sbrk (pos 0) w1 in
      let next_block = add64 (add64 start header_size) n in
      let m = put s.free.mem start (add64 n header_size) null in
      let m' = put m next_block (sub64 (increment - header_size * 2) n) null in
      if start == failed then (null, s, w1) else (
        add64 start header_size,
        record s {
          heap_origin = start;
          heap_end = end;
          free = record { head = next_block; mem = m' };
        },
        w2,
      )

  unfoldable pub alloc_bump : ℕ → Allocator → World → ℕ × Allocator × World
  alloc_bump n s w =
      let block = s.free.head in
      let m = s.free.mem in
      let size = m.size block in
      let (res, w1) = sbrk (pos increment) w in
      let (end, w2) = sbrk (pos 0) w1 in
      let grown = with_free s block (set_size m block (add64 size increment)) in
      let (p, t) = carve n s in
      let (p', t') = carve n (record grown { heap_end = end }) in
      if ltb size n && at_limit s
      then (null, s, w)
      else if ltb n size && ltb size (add64 n (header_size * 2)) && under_limit s
      then (
        add64 block header_size,
        with_free s null (set_size m block (add64 size header_size)),
        w,
      )
      else if ltb n size && ltb size (add64 n header_size) && at_limit s
      then (add64 block header_size, with_free s null m, w)
      else if (under_limit s && ltb size n)
          || (under_limit s && leb n size && ltb size (add64 n header_size))
      then if res == failed then (null, s, w1) else (p', t', w2)
      else (p, t, w)

  unfoldable pub alloc : ℕ → ℕ → Allocator → World → Run (ℕ × Allocator × World)
  unfolding carve alloc_init alloc_bump
  alloc k n s w =
      if not s.dealloc_called
      then ok (if s.free.head == null then alloc_init n s w else alloc_bump n s w)
      else do (p, t) ← alloc_list k n s; ok (p, t, w)

  resetalloc : Allocator → World → Allocator × World
  resetalloc s w =
      let (current, w1) = sbrk (pos 0) w in
      let w2 =
        if ltb s.heap_origin current then (sbrk (sub_ℕ s.heap_origin current) w1).1 else w1 in
      let fresh = record s {
        limit = 0;
        heap_origin = null;
        heap_end = null;
        free = record { head = null; mem = s.free.mem };
        dealloc_called = false;
      } in
      if s.heap_origin == null then (s, w) else (fresh, w2)

  unfoldable pub allocopt : Algs → ℕ → Allocator → World → Allocator × World
  unfolding resetalloc
  allocopt a size s w =
      let (t, w1) = resetalloc s w in
      let (origin, w2) = sbrk (pos 0) w1 in
      (record t { algs = a; heap_origin = origin; limit = size; heap_end = add64 origin size }, w2)

-- `struct allocinfo`
pub record Info : Type 0 where
  pub free_size : ℕ
  pub free_chunks : ℕ
  pub largest_free_chunk_size : ℕ
  pub smallest_free_chunk_size : ℕ

unfoldable pub info_loop : ℕ → Mem → (p temp max min count : ℕ) → Run Info
info_loop zero m p temp max min count = out_of_fuel
info_loop (suc k) m p temp max min count =
    let size = m.size p in
    let rest =
      info_loop k m (m.next p) (add64 temp size) (if ltb max size then size else max)
        (if ltb size min then size else min) (add64 count 1) in
    if p == null
    then ok (record {
      free_size = temp;
      free_chunks = count;
      largest_free_chunk_size = max;
      smallest_free_chunk_size = min;
    })
    else rest

unfoldable pub allocinfo : ℕ → Allocator → Run Info
allocinfo k s = info_loop k s.free.mem s.free.head 0 0 uint64_max 0 >>= λ i. ok (record i {
  free_size = if i.free_size == s.limit then sub64 i.free_size header_size else i.free_size;
  smallest_free_chunk_size = if i.free_size == 0 then i.free_size else i.smallest_free_chunk_size;
})
