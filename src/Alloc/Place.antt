-- ===== src/Alloc/Place.antt =====
-- `place`: how `alloc` of alloc.c splits the block that a policy has found.
use cmpt201_coursework.Prelude.{
  ℕ, zero, suc, ◌+◌, ◌-◌, ◌^◌, ◌≤◌, ◌<◌, ◌≡◌, ◌≢◌, refl, sym, ap, ◌∙◌, subst, true, false, List, [],
  ◌∷◌, ◌++◌, arith, ltb, ◌==◌, length, ok, add64, sub64,
}
use cmpt201_coursework.Memory.{
  Mem, Block, Seg, Chain, has, last, set_next, set_size, null, header_size,
}
use cmpt201_coursework.Memory.Seg.{
  Seg-split, Seg-frame, Seg-link, NoDup, NoDup-append, NoDup-apart, has-append, last-has,
  last-ne_null,
}
use cmpt201_coursework.Memory.Cover.{
  inside, cover, Fits, IsValid, Fits-remove, Fits-insert, inside-join, cover-remove, inner-not-has,
  IsValid-NoDup,
}
use cmpt201_coursework.Alloc.{Allocator, place, put, with_free}
use cmpt201_coursework.Alloc.FreeList.{Free, get_last, get_last_loop}

get_last_loop-last :
    (k : ℕ) (m : Mem) (p d q : ℕ) (pre : List Block)
    → Seg m p pre q
    → q ≢ null
    → has q pre ≡ false
    → length pre < k
    → get_last_loop k m p d q ≡ ok (last pre d)
unfolding get_last_loop
get_last_loop-last zero m p d q pre s ne out fuel = absurd (omega arith)
get_last_loop-last (suc k) m p d q [] s ne out fuel = ground arith
get_last_loop-last (suc k) m p d q ((e, j) ∷ pre) s ne out fuel =
    subst (λ z. get_last_loop (suc k) m z d q ≡ ok (last pre e)) (sym s.0)
      (rw (live, other)
        (get_last_loop-last k m (m.next e) e q pre s.3 ne (ground arith) (omega arith)))
  where
    live : (e == null) ≡ false
    live = ground (arith, s.1)

    other : (e == q) ≡ false
    other = ground arith

get_last-last :
    (k : ℕ) (m : Mem) (p q : ℕ) (pre : List Block)
    → Seg m p pre q
    → q ≢ null
    → has q pre ≡ false
    → length pre < k
    → get_last k m p q ≡ ok (last pre null)
unfolding get_last
get_last-last k m p q pre = get_last_loop-last k m p null q pre

inside-split :
    (q z n x : ℕ)
    → n + header_size + header_size ≤ z
    → inside x q z
      ≡ inside x q (n + header_size) + inside x (q + header_size + n) (z - n - header_size)
inside-split q z n x room =
    let whole : z ≡ n + header_size + (z - n - header_size) = omega arith in
    let place : q + header_size + n ≡ q + (n + header_size) = omega arith in
    ap (λ k. inside x q k) whole
    ∙ inside-join x q (n + header_size) (z - n - header_size)
    ∙ ap (λ k. inside x q (n + header_size) + inside x k (z - n - header_size)) (sym place)

-- The block that `place` makes of what is left of `(q, z)`.
abbrev pub next_block : ℕ → ℕ → ℕ
next_block q n = q + header_size + n

abbrev pub rest : ℕ → ℕ → ℕ
rest z n = z - n - header_size

-- What splitting the block `(q, z)` for `n` bytes leads to, in the list and memory `t`.
pub record Placed (n q z : ℕ) (pre post : List Block) (t : Free) : Type 0 where
  pub chain : Chain t.mem t.head (pre ++ ((next_block q n, rest z n) ∷ post))
  pub valid : IsValid (pre ++ ((next_block q n, rest z n) ∷ post))
  pub taken :
      (x : ℕ)
      → cover x (pre ++ ((q, z) ∷ post))
        ≡ cover x (pre ++ ((next_block q n, rest z n) ∷ post)) + inside x q (n + header_size)
  pub header : t.mem.size q ≡ n + header_size

module _ (n : ℕ) (s : Allocator) (q z : ℕ) (pre post : List Block)
    (c : Chain s.free.mem s.free.head (pre ++ ((q, z) ∷ post)))
    (v : IsValid (pre ++ ((q, z) ∷ post))) (room : n + header_size + header_size ≤ z) where
  -- The headers once the block is split.
  abbrev split : Mem
  split =
      set_size (put s.free.mem (next_block q n) (rest z n) (s.free.mem.next q)) q (n + header_size)

  fits : Fits (q, z)
  fits = (Fits-remove q z post pre v.fits).0

  outside : (x : ℕ) → q ≤ x → x < q + z → (has x pre ≡ false) × (has x post ≡ false)
  outside x lo hi = ground (arith, inner-not-has x q z pre post v lo hi, has-append x pre post)

  parts :
      Seg s.free.mem s.free.head pre q
      × (s.free.mem.size q ≡ z)
      × Seg s.free.mem (s.free.mem.next q) post null
  parts =
      let (r, t, u) = Seg-split s.free.mem s.free.head null pre ((q, z) ∷ post) c in
      (subst (λ y. Seg s.free.mem s.free.head pre y) u.0 t, u.2, u.3)

  spared :
      (xs : List Block)
      → has q xs ≡ false
      → has (next_block q n) xs ≡ false
      → (a : ℕ) → has a xs ≡ true
      → (split.size a ≡ s.free.mem.size a) × (split.next a ≡ s.free.mem.next a)
  spared xs oq ob a i =
      let nq : q ≢ a = λ e. cc (ap (λ y. has y xs) e) in
      let nb : (next_block q n) ≢ a = λ e. cc (ap (λ y. has y xs) e) in ground arith

  front : Seg split s.free.head pre q
  front =
      Seg-frame s.free.mem split s.free.head q pre
        (spared pre (outside q (omega arith) (omega (arith, fits))).0
          (outside (next_block q n) (omega arith) (omega (arith, fits))).0)
        parts.0

  back : Seg split (next_block q n) ((next_block q n, rest z n) ∷ post) null
  back = (
    refl,
    omega (arith, fits),
    ground (arith, fits),
    (let e : split.next (next_block q n) ≡ s.free.mem.next q = ground arith in
        rw e (
          Seg-frame s.free.mem split (s.free.mem.next q) null post
            (spared post (outside q (omega arith) (omega (arith, fits))).1
              (outside (next_block q n) (omega arith) (omega (arith, fits))).1)
            parts.2)),
  )

  taken_lem :
      (x : ℕ)
      → cover x (pre ++ ((q, z) ∷ post))
        ≡ cover x (pre ++ ((next_block q n, rest z n) ∷ post)) + inside x q (n + header_size)
  taken_lem x =
      let join : inside x q z
          ≡ inside x q (n + header_size) + inside x (next_block q n) (rest z n) =
        inside-split q z n x room in
      omega (
        arith,
        cover-remove q z post x pre,
        cover-remove (next_block q n) (rest z n) post x pre,
        join,
      )

  valid_lem : IsValid (pre ++ ((next_block q n, rest z n) ∷ post))
  valid_lem = record {
    fits =
        Fits-insert (next_block q n) (rest z n) post pre (omega (arith, fits))
          (Fits-remove q z post pre v.fits).1;
    apart = λ x. omega (arith, v.apart x, taken_lem x);
  }

  -- The values that `place` computes do not wrap.
  user_ptr_lem : add64 q header_size ≡ q + header_size
  user_ptr_lem = omega (arith, fits)

  next_block_lem : add64 (q + header_size) n ≡ next_block q n
  next_block_lem = omega (arith, fits)

  taken_size : add64 n header_size ≡ n + header_size
  taken_size = omega (arith, fits)

  rest_lem : sub64 (sub64 z n) header_size ≡ rest z n
  rest_lem = omega (arith, fits)

  live : (q == null) ≡ false
  live = ground (arith, fits)

  enough : ltb z (n + header_size) ≡ false
  enough = ground arith

  place-first :
      (k : ℕ)
      → (q == s.free.head) ≡ true
      → place k n s q (s.free.mem.next q) ≡ ok (q + header_size, with_free s (next_block q n) split)
  unfolding place
  place-first k here =
      rw (parts.1, user_ptr_lem, next_block_lem, taken_size, rest_lem, live, enough, here)

  place-later :
      (k l : ℕ)
      → (q == s.free.head) ≡ false
      → get_last k split s.free.head q ≡ ok l
      → (l == null) ≡ false
      → place k n s q (s.free.mem.next q)
        ≡ ok (q + header_size, with_free s s.free.head (set_next split l (next_block q n)))
  unfolding place
  place-later k l there found some_last = rw (
    parts.1, user_ptr_lem, next_block_lem, taken_size, rest_lem, live, enough, there, found,
    some_last,
  )

module _ (k n : ℕ) (s : Allocator) (q z : ℕ) (post : List Block) where
  -- Splitting a block of a valid free list for `n` bytes, where the rest has room for a header: the pointer returned is
  -- behind the block's header, which says `n + 16`; the rest takes the block's place in the list;
  -- and the list loses exactly the `n + 16` bytes from the block's start.
  pub place-Placed :
      (pre : List Block)
      → (c : Chain s.free.mem s.free.head (pre ++ ((q, z) ∷ post)))
      → (v : IsValid (pre ++ ((q, z) ∷ post))) → (room : n + header_size + header_size ≤ z)
      → length pre < k
      → (t : Free) × (place k n s q (s.free.mem.next q)
          ≡ ok (q + header_size, with_free s t.head t.mem))
        × Placed n q z pre post t
  place-Placed [] c v room fuel = (
    record { head = next_block q n; mem = split n s q z [] post c v room },
    place-first n s q z [] post c v room k (let e = c.0 in ground arith),
    record {
      chain = back n s q z [] post c v room;
      valid = valid_lem n s q z [] post c v room;
      taken = taken_lem n s q z [] post c v room;
      header = ground arith;
    },
  )
  place-Placed ((e, j) ∷ pre) c v room fuel = (
    record { head = s.free.head; mem = after },
    place-later n s q z ((e, j) ∷ pre) post c v room k (last pre e) there found
        (let ne = last-ne_null s.free.mem s.free.head q e j pre before.0 in ground arith),
    record {
      chain =
          Seg-link split' s.free.head q null (next_block q n) e j pre
            ((next_block q n, rest z n) ∷ post) nodup apart before'
            (back n s q z ((e, j) ∷ pre) post c v room);
      valid = valid_lem n s q z ((e, j) ∷ pre) post c v room;
      taken = taken_lem n s q z ((e, j) ∷ pre) post c v room;
      header = ground arith;
    },
  )
    where
      split' : Mem
      split' = split n s q z ((e, j) ∷ pre) post c v room

      after : Mem
      after = set_next split' (last pre e) (next_block q n)

      before :
          Seg s.free.mem s.free.head ((e, j) ∷ pre) q
          × (s.free.mem.size q ≡ z)
          × Seg s.free.mem (s.free.mem.next q) post null
      before = parts n s q z ((e, j) ∷ pre) post c v room

      before' : Seg split' s.free.head ((e, j) ∷ pre) q
      before' = front n s q z ((e, j) ∷ pre) post c v room

      in_block : q + z + 32 < 2 ^ 64
      in_block = (fits n s q z ((e, j) ∷ pre) post c v room).2

      out : (has q ((e, j) ∷ pre) ≡ false) × (has q post ≡ false)
      out = outside n s q z ((e, j) ∷ pre) post c v room q (omega arith) (omega arith)

      out' : (has (next_block q n) ((e, j) ∷ pre) ≡ false) × (has (next_block q n) post ≡ false)
      out' =
          outside n s q z ((e, j) ∷ pre) post c v room (next_block q n) (omega arith) (omega arith)

      there : (q == s.free.head) ≡ false
      there = ground (arith, out, before'.0)

      found : get_last k split' s.free.head q ≡ ok (last pre e)
      found =
          get_last-last k split' s.free.head q ((e, j) ∷ pre) before'
            (let ne : 0 < q = (fits n s q z ((e, j) ∷ pre) post c v room).0 in omega arith) out.0
            fuel

      nodup : NoDup ((e, j) ∷ pre)
      nodup =
          NoDup-append ((e, j) ∷ pre) ((q, z) ∷ post)
            (IsValid-NoDup (((e, j) ∷ pre) ++ ((q, z) ∷ post)) v)

      behind : has (last pre e) ((q, z) ∷ post) ≡ false
      behind =
          NoDup-apart (last pre e) ((e, j) ∷ pre) ((q, z) ∷ post)
            (IsValid-NoDup (((e, j) ∷ pre) ++ ((q, z) ∷ post)) v) (last-has e j pre)

      distinct : next_block q n ≢ last pre e
      distinct h = cc (ap (λ y. has y ((e, j) ∷ pre)) h, out'.0, last-has e j pre)

      apart : has (last pre e) ((next_block q n, rest z n) ∷ post) ≡ false
      apart = ground (arith, last-has e j pre, behind, distinct)
