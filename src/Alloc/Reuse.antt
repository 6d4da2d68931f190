-- ===== src/Alloc/Reuse.antt =====
-- `alloc` of alloc.c once a block has been freed: policy, `get_next` and `place` together.
use cmpt201_coursework.Prelude.{
  ℕ, zero, suc, ◌+◌, ◌^◌, ◌≤◌, ◌<◌, ◌≡◌, refl, sym, ap, ◌∙◌, subst, true, false, ◌⊎◌, List, [], ◌∷◌,
  ◌++◌, arith, inl, inr, Bool-cases, ==_iff, ltb, ◌==◌, length, length-append, All, Run, ok, fault,
  add64, sub64,
}
use native.Mathlib.Decide.{dec_lt}
use cmpt201_coursework.Memory.{Mem, Block, Chain, has, set_size, null, header_size}
use cmpt201_coursework.Memory.Seg.{has-middle}
use cmpt201_coursework.Memory.Cover.{IsValid}
use cmpt201_coursework.Alloc.{Allocator, alloc_list, place, with_free, put}
use cmpt201_coursework.Alloc.FreeList.{Free, find_fit, get_next}
use cmpt201_coursework.Alloc.FreeList.Fit.{Small, Choice, Chosen, find_fit-Choice}
use cmpt201_coursework.Alloc.Place.{Placed, place-Placed}

pub get_next-mem :
    (k : ℕ) (m : Mem) (p q : ℕ) (xs : List Block)
    → Chain m p xs
    → has q xs ≡ true
    → length xs < k
    → get_next k m p q ≡ ok (m.next q)
unfolding get_next
get_next-mem zero m p q xs c h fuel = absurd (omega arith)
get_next-mem (suc k) m p q [] c h fuel = cc
get_next-mem (suc k) m p q ((d, t) ∷ xs) c h fuel =
    subst (λ z. get_next (suc k) m z q ≡ ok (m.next q)) (sym c.0)
      (rw live (elim (Bool-cases (d == q)) [
        | inl e ↦ rw e (ap (λ z. ok (m.next z)) ((==_iff d q).0 e))
        | inr n ↦ rw n (get_next-mem k m (m.next d) q xs c.3 (ground arith) (omega arith))
      ]))
  where
    live : (d == null) ≡ false
    live = ground (arith, c.1)

pub get_next-null :
    (k : ℕ) (m : Mem) (p : ℕ) (xs : List Block)
    → Chain m p xs
    → length xs < k
    → get_next k m p null ≡ ok null
unfolding get_next
get_next-null zero m p xs c fuel = absurd (omega arith)
get_next-null (suc k) m p [] c fuel = rw c refl
get_next-null (suc k) m p ((d, t) ∷ xs) c fuel =
    subst (λ z. get_next (suc k) m z null ≡ ok null) (sym c.0)
      (rw live (get_next-null k m (m.next d) xs c.3 (omega arith)))
  where
    live : (d == null) ≡ false
    live = ground (arith, c.1)

-- With nothing found, `alloc` reads the size of the block at `NULL`.
pub place-null : (k n nb : ℕ) (s : Allocator) → place k n s null nb ≡ fault
unfolding place
place-null k n nb s = refl

module _ (k n : ℕ) (s : Allocator) (xs : List Block) where
  abbrev search : Run ℕ
  search = find_fit s.algs k s.free.mem s.free.head (add64 n header_size)

  -- The outcomes of `alloc`: a fault, a block that leaves no room for a header, or a split block.
  abbrev pub Reused : Type 0
  Reused =
      ((alloc_list k n s ≡ fault) × All (Small (n + header_size)) xs)
      ⊎ ((w : Chosen s.algs (n + header_size) xs search) × ((w.size < n + header_size + header_size)
            ⊎ ((t : Free) × (alloc_list k n s ≡ ok (w.addr + header_size, with_free s t.head t.mem))
                × Placed n w.addr w.size w.pre w.post t)))

  alloc_list-step :
      (q nb : ℕ)
      → search ≡ ok q
      → get_next k s.free.mem s.free.head q ≡ ok nb
      → alloc_list k n s ≡ place k n s q nb
  unfolding alloc_list
  alloc_list-step q nb e e' = rw (e, e')

  split_block :
      (q z : ℕ) (pre post : List Block)
      → xs ≡ pre ++ ((q, z) ∷ post)
      → search ≡ ok q
      → Chain s.free.mem s.free.head xs
      → IsValid xs
      → length xs < k
      → n + header_size + header_size ≤ z
      → (t : Free) × (alloc_list k n s ≡ ok (q + header_size, with_free s t.head t.mem))
        × Placed n q z pre post t
  split_block q z pre post e found c v fuel room =
      let (t, r, p) =
        place-Placed k n s q z post pre (subst (λ ys. Chain s.free.mem s.free.head ys) e c)
          (subst IsValid e v) room shorter in
      (t, alloc_list-step q (s.free.mem.next q) found next ∙ r, p)
    where
      shorter : length pre < k
      shorter = omega (arith, ap length e, length-append pre ((q, z) ∷ post))

      next : get_next k s.free.mem s.free.head q ≡ ok (s.free.mem.next q)
      next =
          get_next-mem k s.free.mem s.free.head q xs c
            (subst (λ ys. has q ys ≡ true) (sym e) (has-middle q z pre post)) fuel

  chosen_block :
      Chain s.free.mem s.free.head xs
      → IsValid xs
      → length xs < k
      → Chosen s.algs (n + header_size) xs search
      → Reused
  chosen_block c v fuel w = inr (
    w,
    elim (dec_lt w.size (n + header_size + header_size)) [
      | yes tight ↦ inl tight
      | no room ↦
          inr (split_block w.addr w.size w.pre w.post w.split w.found c v fuel (omega arith))
    ],
  )

  -- `alloc` after a `dealloc`, of a valid free list and a size that does not overflow with a header
  -- added: if every block is smaller than `size + 16` it dereferences `NULL`.
  -- Else it takes the block that its policy stands for, and if that one has room for one more
  -- header it returns the address behind the block's header, and the list loses exactly the
  -- `size + 16` bytes from the block's start.
  pub alloc_list-Reused :
      Chain s.free.mem s.free.head xs
      → IsValid xs
      → n + header_size < 2 ^ 64
      → length xs < k
      → Reused
  alloc_list-Reused c v small fuel = elim choice [
    | inl (none_fits, h) ↦ inl (
      alloc_list-step null null none_fits (get_next-null k s.free.mem s.free.head xs c fuel)
          ∙ place-null k n null s,
      h,
    )
    | inr w ↦ chosen_block c v fuel w
  ]
    where
      wanted : add64 n header_size ≡ n + header_size
      wanted = omega arith

      choice : Choice s.algs (n + header_size) xs search
      choice =
          subst (λ z. Choice s.algs z xs search) wanted
            (find_fit-Choice s.algs k s.free.mem s.free.head (add64 n header_size) xs c v.fits
              (omega arith) fuel)

-- On an exact fit at the head of the list, below the end of the address space, the header of the rest, of size 0, is written over what
-- stands behind the block.
pub place-overrun :
    (k n q : ℕ) (s : Allocator) (nb : ℕ)
    → s.free.head ≡ q
    → 0 < q
    → s.free.mem.size q ≡ n + header_size
    → q + s.free.mem.size q < 2 ^ 64
    → (t : Allocator) × (place k n s q nb ≡ ok (q + header_size, t))
      × (t.free.mem.size (q + s.free.mem.size q) ≡ 0)
unfolding place
place-overrun k n q s nb at live exact small =
    (with_free s new_block after, rw (not_null, enough, first, user), cleared)
  where
    m : Mem
    m = s.free.mem

    new_block : ℕ
    new_block = add64 (add64 q header_size) n

    after : Mem
    after =
        set_size (put m new_block (sub64 (sub64 (m.size q) n) header_size) nb) q
          (add64 n header_size)

    not_null : (q == null) ≡ false
    not_null = ground arith

    enough : ltb (m.size q) (add64 n header_size) ≡ false
    enough = ground arith

    first : (q == s.free.head) ≡ true
    first = ground arith

    user : add64 q header_size ≡ q + header_size
    user = omega arith

    cleared : after.size (q + s.free.mem.size q) ≡ 0
    cleared = ground arith
