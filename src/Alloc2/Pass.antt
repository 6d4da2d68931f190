-- ===== src/Alloc2/Pass.antt =====
-- `dealloc` of alloc2.c on blocks that adjoin.
use cmpt201_coursework.Prelude.{
  ℕ, zero, suc, ◌+◌, ◌^◌, ◌<◌, ◌≡◌, ◌≢◌, refl, sym, ap, subst, true, false, not, ◌&&◌, List, [],
  ◌∷◌, arith, ◌==◌, length, ok, sub64, inl, inr, ◌⊎◌, All,
}
use cmpt201_coursework.Memory.{Mem, Block, Chain, set_next, has, null, header_size}
use cmpt201_coursework.Memory.Seg.{Seg-frame}
use cmpt201_coursework.Alloc.{Allocator}
use cmpt201_coursework.Alloc.FreeList.{Free}
use cmpt201_coursework.Alloc2.{touches, pass, coalesce, dealloc}

-- No block of the list touches its neighbour in the list, on either side.
abbrev pub AreApart : Mem → List Block → Type 0
AreApart m [] = Unit
AreApart m ((a, s) ∷ []) = Unit
AreApart m ((a, s) ∷ (b, t) ∷ xs) =
    (touches m a b ≡ false) × (touches m b a ≡ false) × AreApart m ((b, t) ∷ xs)

-- Nor does the first block touch the one at `last`.
abbrev IsBehind : Mem → ℕ → List Block → Type 0
IsBehind m last [] = Unit
IsBehind m last ((b, t) ∷ xs) = (not (last == null) && touches m b last) ≡ false

later : (m : Mem) (b t : ℕ) (xs : List Block) → AreApart m ((b, t) ∷ xs) → IsBehind m b xs
later m b t [] a = tt
later m b t ((d, u) ∷ xs) a = rw (a.1) (ground arith)

tail : (m : Mem) (b t : ℕ) (xs : List Block) → AreApart m ((b, t) ∷ xs) → AreApart m xs
tail m b t [] a = tt
tail m b t (x ∷ xs) a = a.2

before :
    (m : Mem) (b t : ℕ) (xs : List Block)
    → AreApart m ((b, t) ∷ xs)
    → Chain m (m.next b) xs
    → (not (m.next b == null) && touches m b (m.next b)) ≡ false
before m b t [] a c = rw (c) refl
before m b t ((d, u) ∷ xs) a c = rw (c.0, a.0) (ground arith)

pass-apart :
    (k : ℕ) (f : Free) (last p : ℕ) (xs : List Block)
    → IsBehind f.mem last xs
    → AreApart f.mem xs
    → Chain f.mem p xs
    → length xs < k
    → pass k f p last false ≡ ok (false, f)
unfolding pass
pass-apart zero f last p xs i a c h = absurd (omega arith)
pass-apart (suc k) f last p [] i a c h = rw c refl
pass-apart (suc k) f last p ((b, t) ∷ xs) i a c h =
    let live : (b == null) ≡ false = ground (arith, c.1) in
    let q = before f.mem b t xs a c.3 in
    subst (λ z. pass (suc k) f z last false ≡ ok (false, f)) (sym c.0)
      (rw (live, q, i)
        (pass-apart k f b (f.mem.next b) xs (later f.mem b t xs a) (tail f.mem b t xs a) c.3
          (omega arith)))

-- The free list with the block put in front.
abbrev pub listed : Free → ℕ → Free
listed f block = record { head = block; mem = set_next f.mem block f.head }

coalesce-apart :
    (k : ℕ) (f : Free) (xs : List Block)
    → AreApart f.mem xs
    → Chain f.mem f.head xs
    → length xs < k
    → coalesce k k f ≡ ok f
unfolding coalesce
coalesce-apart zero f xs a c h = absurd (omega arith)
coalesce-apart (suc k) f xs a c h =
    rw (coalesce, pass-apart (suc k) f null f.head xs (first xs) a c h)
  where
    first : (ys : List Block) → IsBehind f.mem null ys
    first [] = tt
    first (y ∷ ys) = refl

listed-Chain :
    (f : Free) (block : ℕ) (xs : List Block)
    → 0 < block
    → has block xs ≡ false
    → Chain f.mem f.head xs
    → Chain (listed f block).mem block ((block, f.mem.size block) ∷ xs)
listed-Chain f block xs live out c = (refl, omega arith, refl, rest)
  where
    here : (listed f block).mem.next block ≡ f.head
    here = ground arith

    spared :
        (a : ℕ)
        → has a xs ≡ true
        → ((listed f block).mem.size a ≡ f.mem.size a)
          × ((listed f block).mem.next a ≡ f.mem.next a)
    spared a i = let ne : block ≢ a = λ e. cc (ap (λ y. has y xs) e) in ground arith

    rest : Chain (listed f block).mem ((listed f block).mem.next block) xs
    rest = rw here (Seg-frame f.mem (listed f block).mem f.head null xs spared c)

-- Of two neighbours in the list, in either order, one begins where the other ends; the size of a block
-- that `alloc` has returned counts its header.
abbrev pub AreAdjoining : List Block → Type 0
AreAdjoining [] = Unit
AreAdjoining ((a, s) ∷ []) = Unit
AreAdjoining ((a, s) ∷ (b, t) ∷ xs) = ((a + s ≡ b) ⊎ (b + t ≡ a)) × AreAdjoining ((b, t) ∷ xs)

-- The addresses do not wrap around.
abbrev pub IsLow : Block → Type 0
IsLow x = x.0 + x.1 + header_size < 2 ^ 64

-- 16 bytes behind the end of the one there is no beginning of the other.
touches-adjoining :
    (m : Mem) (a s b t : ℕ)
    → m.size a ≡ s
    → m.size b ≡ t
    → a + s + header_size < 2 ^ 64
    → b + t + header_size < 2 ^ 64
    → (a + s ≡ b) ⊎ (b + t ≡ a)
    → (touches m a b ≡ false) × (touches m b a ≡ false)
touches-adjoining m a s b t e f h k (inl z) = (ground arith, ground arith)
touches-adjoining m a s b t e f h k (inr z) = (ground arith, ground arith)

adjoining-AreApart :
    (m : Mem) (p : ℕ) (xs : List Block)
    → Chain m p xs
    → All IsLow xs
    → AreAdjoining xs
    → AreApart m xs
adjoining-AreApart m p [] c l a = tt
adjoining-AreApart m p ((b, t) ∷ []) c l a = tt
adjoining-AreApart m p ((b, t) ∷ (d, u) ∷ xs) c l a =
    let (q, r) = touches-adjoining m b t d u c.2 c.3.2 l.0 l.1.0 a.0 in
    (q, r, adjoining-AreApart m (m.next b) ((d, u) ∷ xs) c.3 l.1 a.1)

-- In alloc2.c freed blocks that adjoin are not merged: if, in the list with the freed block in front, of
-- every two neighbours one begins where the other ends, `dealloc` leaves all of them in the list, as they
-- are.
pub dealloc-adjoining :
    (k block : ℕ) (s : Allocator) (xs : List Block)
    → 0 < block
    → Chain s.free.mem s.free.head xs
    → has block xs ≡ false
    → All IsLow ((block, s.free.mem.size block) ∷ xs)
    → AreAdjoining ((block, s.free.mem.size block) ∷ xs)
    → length xs + 1 < k
    → (dealloc k (block + header_size) s
        ≡ ok (record s { free = listed s.free block; dealloc_called = true }))
      × Chain (listed s.free block).mem block ((block, s.free.mem.size block) ∷ xs)
unfolding dealloc
dealloc-adjoining k block s xs live c out low a fuel =
    let chain = listed-Chain s.free block xs live out c in
    let apart =
      adjoining-AreApart (listed s.free block).mem block ((block, s.free.mem.size block) ∷ xs) chain
        low a in
    let here : block + s.free.mem.size block + header_size < 2 ^ 64 = low.0 in
    let e : sub64 (block + header_size) header_size ≡ block = omega arith in
    let ne : (block + header_size == null) ≡ false = ground arith in
    let q =
      coalesce-apart k (listed s.free block) ((block, s.free.mem.size block) ∷ xs) apart chain
        (omega arith) in
    (rw (ne, e, q), chain)
