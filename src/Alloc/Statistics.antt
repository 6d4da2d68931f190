-- ===== src/Alloc/Statistics.antt =====
-- `allocinfo` of alloc.c against the list that it walks.
use cmpt201_coursework.Prelude.{
  ℕ, zero, suc, ◌+◌, ◌^◌, ◌<◌, ◌≡◌, refl, sym, ap, subst, ◌∙◌, List, [], ◌∷◌, arith, ltb, ◌==◌,
  if◌then◌else◌, length, min, max, ok, add64, sub64, false,
}
use cmpt201_coursework.Memory.{Mem, Block, Chain, total, null, header_size}
use cmpt201_coursework.Alloc.{Allocator, Info, info_loop, allocinfo}
use cmpt201_coursework.Alloc.FreeList.{uint64_max}

abbrev pub largest : List Block → ℕ
largest [] = 0
largest ((a, s) ∷ xs) = max s (largest xs)

-- The smallest size, `top` if there is none below it.
abbrev pub smallest : ℕ → List Block → ℕ
smallest top [] = top
smallest top ((a, s) ∷ xs) = min s (smallest top xs)

abbrev pub counted : ℕ → ℕ → ℕ → ℕ → Info
counted temp high low count = record {
  free_size = temp;
  free_chunks = count;
  largest_free_chunk_size = high;
  smallest_free_chunk_size = low;
}

counted-eq :
    {t t' h h' l l' c c' : ℕ}
    → t ≡ t'
    → h ≡ h'
    → l ≡ l'
    → c ≡ c'
    → counted t h l c ≡ counted t' h' l' c'
counted-eq p q r s = λ i. counted (p i) (q i) (r i) (s i)

smallest-min : (a b : ℕ) (xs : List Block) → smallest (min a b) xs ≡ min a (smallest b xs)
smallest-min a b [] = refl
smallest-min a b ((d, t) ∷ xs) = omega (arith, smallest-min a b xs)

info_loop_lem :
    (k : ℕ) (m : Mem) (p temp high low count : ℕ) (xs : List Block)
    → Chain m p xs
    → length xs < k
    → temp + total xs < 2 ^ 64
    → count + length xs < 2 ^ 64
    → info_loop k m p temp high low count
      ≡ ok (counted (temp + total xs) (max high (largest xs)) (smallest low xs) (count + length xs))
unfolding info_loop
info_loop_lem zero m p temp high low count xs c fuel b b' = absurd (omega arith)
info_loop_lem (suc k) m p temp high low count [] c fuel b b' = rw c (ground arith)
info_loop_lem (suc k) m p temp high low count ((d, t) ∷ xs) c fuel b b' =
    subst
      (λ z.
        info_loop (suc k) m z temp high low count
        ≡ ok (
            counted (temp + total ((d, t) ∷ xs)) (max high (largest ((d, t) ∷ xs)))
              (smallest low ((d, t) ∷ xs)) (count + length ((d, t) ∷ xs))))
      (sym c.0)
      (rw (live, c.2)
        (info_loop_lem k m (m.next d) (add64 temp t) (if ltb high t then t else high)
            (if ltb t low then t else low) (add64 count 1) xs c.3 (omega arith) (omega arith)
            (omega arith)
          ∙ ap ok (
              counted-eq (omega arith) (ground arith) (low_step ∙ smallest-min t low xs)
                (omega arith))))
  where
    live : (d == null) ≡ false
    live = ground (arith, c.1)

    low_step : smallest (if ltb t low then t else low) xs ≡ smallest (min t low) xs
    low_step = ap (λ b. smallest b xs) (ground arith)

-- Where the total and the number of blocks are below 2^64, `allocinfo` reports the sum, the number and the extremes of the sizes in the free list. Of an
-- empty list the smallest is 0; a sum that is the limit is reported less a header.
pub allocinfo_lem :
    (k : ℕ) (s : Allocator) (xs : List Block)
    → Chain s.free.mem s.free.head xs
    → length xs < k
    → total xs < 2 ^ 64
    → length xs < 2 ^ 64
    → s.limit < 2 ^ 64
    → allocinfo k s
      ≡ ok (
          counted
            (if total xs == s.limit then sub64 (total xs) header_size else total xs)
            (largest xs)
            (if total xs == 0 then 0 else smallest uint64_max xs)
            (length xs))
unfolding allocinfo
allocinfo_lem k s xs c fuel b b' l =
    rw
      (info_loop_lem k s.free.mem s.free.head 0 0 uint64_max 0 xs c fuel (omega arith)
        (omega arith))
      (ap ok (counted-eq (ground arith) (omega arith) (ground arith) (omega arith)))
