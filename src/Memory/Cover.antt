-- ===== src/Memory/Cover.antt =====
-- Which bytes a list of blocks occupies, and how often.
use cmpt201_coursework.Prelude.{
  ℕ, ◌+◌, ◌≤◌, ◌<◌, ◌≡◌, refl, ◌≢◌, ◌^◌, subst, inl, inr, Bool-cases, ==_iff, length, ◌==◌, ◌&&◌,
  true, false, List, [], ◌∷◌, ◌++◌, arith, ltb, leb, ◌==◌, if◌then◌else◌, All,
}
use cmpt201_coursework.Memory.{Mem, Block, Seg, has, total}
use cmpt201_coursework.Memory.Seg.{resize, NoDup}

-- 1 if the byte `x` lies in `[a, a + s)`, else 0
unfoldable pub inside : ℕ → ℕ → ℕ → ℕ
inside x a s = if leb a x && ltb x (a + s) then 1 else 0

unfoldable pub cover : ℕ → List Block → ℕ
cover x [] = 0
cover x ((a, s) ∷ xs) = inside x a s + cover x xs

-- A block that the free list may hold: not empty, and below the end of the address space.
abbrev pub Fits : Block → Type 0
Fits (a, s) = (0 < a) × (0 < s) × (a + s + 32 < 2 ^ 64)

-- No two blocks overlap.
pub record IsValid (xs : List Block) : Type 0 where
  pub fits : All Fits xs
  pub apart : (x : ℕ) → cover x xs ≤ 1

pub inside-join : (x a s t : ℕ) → inside x a (s + t) ≡ inside x a s + inside x (a + s) t
unfolding inside
inside-join x a s t = ground arith

inside-start : (a s : ℕ) → 0 < s → inside a a s ≡ 1
unfolding inside
inside-start a s h = ground arith

cover-append : (x : ℕ) (xs ys : List Block) → cover x (xs ++ ys) ≡ cover x xs + cover x ys
unfolding cover
cover-append x [] ys = omega arith
cover-append x (b ∷ xs) ys = omega (arith, cover-append x xs ys)

total-append : (xs ys : List Block) → total (xs ++ ys) ≡ total xs + total ys
total-append [] ys = omega arith
total-append (b ∷ xs) ys = omega (arith, total-append xs ys)

has→cover : (a : ℕ) (xs : List Block) → All Fits xs → has a xs ≡ true → 1 ≤ cover a xs
unfolding cover
has→cover a [] f h = cc
has→cover a ((b, s) ∷ xs) f h = ground (arith, has→cover a xs f.1, inside-start b s f.0.1)

-- The tail of a valid list is valid, and does not hold the head's address.
pub not-has : (a s : ℕ) (xs : List Block) → IsValid ((a, s) ∷ xs) → has a xs ≡ false
unfolding cover
not-has a s xs v = ground (arith, v.apart a, v.fits, has→cover a xs, inside-start a s)

IsValid-tail : (b : Block) (xs : List Block) → IsValid (b ∷ xs) → IsValid xs
unfolding cover
IsValid-tail b xs v = record { fits = v.fits.1; apart = λ x. omega (arith, v.apart x) }

pub IsValid-NoDup : (xs : List Block) → IsValid xs → NoDup xs
IsValid-NoDup [] v = tt
IsValid-NoDup ((a, s) ∷ xs) v = (not-has a s xs v, IsValid-NoDup xs (IsValid-tail (a, s) xs v))

-- The size of the first block at `a`, 0 if there is none.
abbrev pub size_at : ℕ → List Block → ℕ
size_at a [] = 0
size_at a ((b, s) ∷ xs) = if b == a then s else size_at a xs

resize_id : (a v : ℕ) (xs : List Block) → has a xs ≡ false → resize a v xs ≡ xs
resize_id a v [] h = refl
resize_id a v ((b, s) ∷ xs) h = ground (arith, resize_id a v xs)

-- Growing a block by `t` covers `t` bytes behind it once more.
pub cover-resize :
    (x a t : ℕ) (xs : List Block)
    → NoDup xs
    → has a xs ≡ true
    → cover x (resize a (size_at a xs + t) xs) ≡ cover x xs + inside x (a + size_at a xs) t
unfolding cover
cover-resize x a t [] d h = cc
cover-resize x a t ((b, s) ∷ xs) d h =
    ground (arith, resize_id a (s + t) xs, inside-join x a s t, cover-resize x a t xs d.1)

pub total-resize :
    (a t : ℕ) (xs : List Block)
    → NoDup xs
    → has a xs ≡ true
    → total (resize a (size_at a xs + t) xs) ≡ total xs + t
total-resize a t [] d h = cc
total-resize a t ((b, s) ∷ xs) d h = ground (arith, resize_id a (s + t) xs, total-resize a t xs d.1)

pub Fits-resize :
    (a v : ℕ) (xs : List Block)
    → 0 < v
    → a + v + 32 < 2 ^ 64
    → All Fits xs
    → All Fits (resize a v xs)
Fits-resize a v [] p h f = tt
Fits-resize a v ((b, s) ∷ xs) p h f = (ground arith, Fits-resize a v xs p h f.1)

-- A list without one of its blocks.
module _ (a s : ℕ) (post : List Block) where
  pub Fits-remove :
      (pre : List Block) → All Fits (pre ++ ((a, s) ∷ post)) → Fits (a, s) × All Fits (pre ++ post)
  Fits-remove [] f = f
  Fits-remove (b ∷ pre) f = let (one, rest) = Fits-remove pre f.1 in (one, (f.0, rest))

  pub Fits-insert :
      (pre : List Block) → Fits (a, s) → All Fits (pre ++ post) → All Fits (pre ++ ((a, s) ∷ post))
  Fits-insert [] one f = (one, f)
  Fits-insert (b ∷ pre) one f = (f.0, Fits-insert pre one f.1)

  pub cover-remove :
      (x : ℕ) (pre : List Block)
      → cover x (pre ++ ((a, s) ∷ post)) ≡ cover x (pre ++ post) + inside x a s
  unfolding cover
  cover-remove x [] = omega arith
  cover-remove x (b ∷ pre) = omega (arith, cover-remove x pre)

  pub total-remove : (pre : List Block) → total (pre ++ ((a, s) ∷ post)) ≡ total (pre ++ post) + s
  total-remove [] = omega arith
  total-remove (b ∷ pre) = omega (arith, total-remove pre)

  pub length-remove :
      (pre : List Block) → length (pre ++ ((a, s) ∷ post)) ≡ length (pre ++ post) + 1
  length-remove [] = omega arith
  length-remove (b ∷ pre) = omega (arith, length-remove pre)

  pub IsValid-remove : (pre : List Block) → IsValid (pre ++ ((a, s) ∷ post)) → IsValid (pre ++ post)
  IsValid-remove pre v = record {
    fits = (Fits-remove pre v.fits).1;
    apart = λ x. omega (arith, v.apart x, cover-remove x pre);
  }

  pub has-remove :
      (k : ℕ) (pre : List Block) → a ≢ k → has k (pre ++ ((a, s) ∷ post)) ≡ has k (pre ++ post)
  has-remove k [] ne = ground arith
  has-remove k (b ∷ pre) ne = ground (arith, has-remove k pre ne)

  pub size_at-remove :
      (k : ℕ) (pre : List Block)
      → a ≢ k
      → size_at k (pre ++ ((a, s) ∷ post)) ≡ size_at k (pre ++ post)
  size_at-remove k [] ne = ground arith
  size_at-remove k (b ∷ pre) ne = ground (arith, size_at-remove k pre ne)

pub size_at-Seg :
    (m : Mem) (p q a : ℕ) (xs : List Block)
    → Seg m p xs q
    → has a xs ≡ true
    → m.size a ≡ size_at a xs
size_at-Seg m p q a [] c h = cc
size_at-Seg m p q a ((b, s) ∷ xs) c h = elim (Bool-cases (b == a)) [
  | inl e ↦ let e' : b ≡ a = (==_iff b a).0 e in rw e (subst (λ z. m.size z ≡ s) e' c.2)
  | inr n ↦ rw n (size_at-Seg m (m.next b) q a xs c.3 (ground arith))
]

-- A byte of one block is the address of no other.
pub inner-not-has :
    (x a s : ℕ) (pre post : List Block)
    → IsValid (pre ++ ((a, s) ∷ post))
    → a ≤ x
    → x < a + s
    → has x (pre ++ post) ≡ false
unfolding inside
inner-not-has x a s pre post v lo hi = ground (
  arith,
  v.apart x,
  cover-remove a s post x pre,
  has→cover x (pre ++ post) (Fits-remove a s post pre v.fits).1,
)
