-- ===== src/Alloc2.antt =====
-- The allocator of lecture/test2/alloc2.c, next to that of alloc.c in Alloc: it does not test what
-- `sbrk` returns, takes the block behind a found one from its header, and merges free blocks in a
-- pass of its own over the list. Each loop runs on fuel.
pub mod Same
pub mod Pass
mod Tests
use cmpt201_coursework.Prelude.{
  ℕ, zero, suc, ◌-◌, ◌*◌, Bool, true, false, not, ◌&&◌, ◌||◌, ltb, leb, ◌==◌, if◌then◌else◌, Run,
  ok, fault, out_of_fuel, ◌>>=◌, add64, sub64,
}
use cmpt201_coursework.Prelude.Int.{pos, sub_ℕ}
use cmpt201_coursework.Memory.{Mem, set_size, set_next, null, header_size}
use cmpt201_coursework.Alloc.{
  Allocator, Info, increment, with_free, put, at_limit, under_limit, carve, place, info_loop,
}
use cmpt201_coursework.Alloc.Sbrk.{Kernel}
use cmpt201_coursework.Alloc.FreeList.{Free, Algs, uint64_max, find_fit}

-- The branch of `alloc` after the first `dealloc`; `get_next(NULL)` reads through `NULL`.
unfoldable pub alloc_list : ℕ → ℕ → Allocator → Run (ℕ × Allocator)
alloc_list k n s = find_fit s.algs k s.free.mem s.free.head (add64 n header_size) >>= λ temp.
    if temp == null then fault else place k n s temp (s.free.mem.next temp)

-- `(char *)a + sizeof(struct header) + a->size == (char *)b`
abbrev pub touches : Mem → ℕ → ℕ → Bool
touches m a b = add64 (add64 a header_size) (m.size a) == b

-- `temp` takes the block behind it in the list.
unfoldable pub absorb_next : Mem → ℕ → Mem
absorb_next m temp =
    let next = m.next temp in
    set_next (set_size m temp (add64 (m.size temp) (add64 header_size (m.size next)))) temp
      (m.next next)

-- `temp` takes the block before it in the list, which leaves the list only if it was its head.
unfoldable pub absorb_last : Free → (temp last : ℕ) → Free
absorb_last f temp last =
    let m = f.mem in
    let grown = set_size m temp (add64 (m.size temp) (add64 header_size (m.size last))) in
    let head = if f.head == last then temp else f.head in
    let next = grown.next head in
    let cut = set_next (set_size grown head (add64 (grown.size head) header_size)) head null in
    if not (next == null) && (grown.size next == 0) && touches grown head next
    then record { head = head; mem = cut }
    else record { head = head; mem = grown }

-- The inner loop of `dealloc` over `temp`: `coal`, and the list after it.
unfoldable pub pass : ℕ → Free → (temp last : ℕ) → Bool → Run (Bool × Free)
pass zero f temp last coal = out_of_fuel
pass (suc k) f temp last coal =
    let behind = not (f.mem.next temp == null) && touches f.mem temp (f.mem.next temp) in
    let f1 = if behind then record f { mem = absorb_next f.mem temp } else f in
    let before = not (last == null) && touches f1.mem temp last in
    let f2 = if before then absorb_last f1 temp last else f1 in
    let rest = pass k f2 (f2.mem.next temp) temp (coal || behind || before) in
    if temp == null then ok (coal, f) else rest

-- `while (coal == true)`; `n` bounds each pass.
unfoldable pub coalesce : ℕ → ℕ → Free → Run Free
coalesce zero n f = out_of_fuel
coalesce (suc k) n f = elim (pass n f f.head null false) [
  | ok (coal, f') ↦ elim coal [ true ↦ coalesce k n f' | false ↦ ok f' ]
  | fault ↦ fault
  | out_of_fuel ↦ out_of_fuel
]

-- Without a test for `NULL`: the header in front of it is no memory of the program.
unfoldable pub dealloc : ℕ → ℕ → Allocator → Run Allocator
dealloc k header s =
    let block = sub64 header header_size in
    let listed : Free = record { head = block; mem = set_next s.free.mem block s.free.head } in
    if header == null
    then fault
    else coalesce k k listed >>= λ free. ok (record s { free = free; dealloc_called = true })

module _ (kernel : Kernel) where
  open kernel use {World, sbrk}

  unfoldable pub alloc_init : ℕ → Allocator → World → ℕ × Allocator × World
  alloc_init n s w =
      let (start, w1) = sbrk (pos increment) w in
      let (end, w2) = sbrk (pos 0) w1 in
      let next_block = add64 (add64 start header_size) n in
      let m = put s.free.mem start (add64 n header_size) null in
      let m' = put m next_block (sub64 (increment - header_size * 2) n) null in
      (
        add64 start header_size,
        record s {
          heap_origin = start;
          heap_end = end;
          free = record { head = next_block; mem = m' };
        },
        w2,
      )

  unfoldable pub alloc_bump : ℕ → Allocator → World → ℕ × Allocator × World
  alloc_bump n s w =
      let block = s.free.head in
      let m = s.free.mem in
      let size = m.size block in
      let (_, w1) = sbrk (pos increment) w in
      let (end, w2) = sbrk (pos 0) w1 in
      let grown = with_free s block (set_size m block (add64 size increment)) in
      let (p, t) = carve n s in
      let (p', t') = carve n (record grown { heap_end = end }) in
      if ltb size n && at_limit s
      then (null, s, w)
      else if ltb n size && ltb size (add64 n (header_size * 2)) && under_limit s
      then (
        add64 block header_size,
        with_free s null (set_size m block (add64 size header_size)),
        w,
      )
      else if ltb n size && ltb size (add64 n header_size) && at_limit s
      then (add64 block header_size, with_free s null m, w)
      else if under_limit s && (ltb size n || (leb n size && ltb size (add64 n header_size)))
      then (p', t', w2)
      else (p, t, w)

  unfoldable pub alloc : ℕ → ℕ → Allocator → World → Run (ℕ × Allocator × World)
  unfolding alloc_init alloc_bump
  alloc k n s w =
      if not s.dealloc_called
      then ok (if s.free.head == null then alloc_init n s w else alloc_bump n s w)
      else alloc_list k n s >>= (λ t. ok (t.0, t.1, w))

  -- The break is moved back to `heap_origin` also when that is still `NULL`.
  unfoldable pub allocopt : Algs → ℕ → Allocator → World → Allocator × World
  allocopt a size s w =
      let (current, w1) = sbrk (pos 0) w in
      let w2 =
        if ltb s.heap_origin current then (sbrk (sub_ℕ s.heap_origin current) w1).1 else w1 in
      let (origin, w3) = sbrk (pos 0) w2 in
      (
        record {
          limit = size;
          algs = a;
          free = record { head = null; mem = s.free.mem };
          heap_origin = origin;
          heap_end = add64 origin size;
          dealloc_called = false;
        },
        w3,
      )

-- The loop is that of alloc.c.
unfoldable pub allocinfo : ℕ → Allocator → Run Info
allocinfo k s = info_loop k s.free.mem s.free.head 0 0 uint64_max 0 >>= λ i.
    let low = if i.free_size == 0 then i.free_size else i.smallest_free_chunk_size in
    let temp = if i.free_size == s.limit then sub64 i.free_size header_size else i.free_size in
    ok (record i { free_size = temp; smallest_free_chunk_size = low })
