-- ===== src/Memory/Seg.antt =====
-- Segments of the free list under the writes that the allocators make.
use cmpt201_coursework.Prelude.{
  ℕ, ◌≡◌, ◌≢◌, refl, ◌∙◌, ap, subst, true, false, ◌||◌, inl, inr, Bool-cases, ==_iff, List, [], ◌∷◌,
  ◌++◌, arith, ◌==◌, if◌then◌else◌, length,
}
use cmpt201_coursework.Memory.{Mem, set_size, set_next, Block, Seg, has, last, null}

-- Gives the block at `a` the size `v`.
abbrev pub resize : ℕ → ℕ → List Block → List Block
resize a v [] = []
resize a v ((b, s) ∷ xs) = (b, if a == b then v else s) ∷ resize a v xs

pub length-resize : (a v : ℕ) (xs : List Block) → length (resize a v xs) ≡ length xs
length-resize a v [] = refl
length-resize a v (x ∷ xs) = ground (arith, length-resize a v xs)

pub has-append : (p : ℕ) (xs ys : List Block) → has p (xs ++ ys) ≡ (has p xs || has p ys)
has-append p [] ys = refl
has-append p (x ∷ xs) ys = ground (arith, has-append p xs ys)

Seg-append :
    (m : Mem) (p q r : ℕ) (xs ys : List Block) → Seg m p xs q → Seg m q ys r → Seg m p (xs ++ ys) r
Seg-append m p q r [] ys s t = rw s t
Seg-append m p q r ((a, n) ∷ xs) ys s t = (s.0, s.1, s.2, Seg-append m (m.next a) q r xs ys s.3 t)

pub Seg-split :
    (m : Mem) (p q : ℕ) (xs ys : List Block)
    → Seg m p (xs ++ ys) q
    → (r : ℕ) × Seg m p xs r × Seg m r ys q
Seg-split m p q [] ys s = (p, refl, s)
Seg-split m p q ((a, n) ∷ xs) ys s =
    let (r, t, u) = Seg-split m (m.next a) q xs ys s.3 in (r, (s.0, s.1, s.2, t), u)

pub last-ne_null :
    (m : Mem) (p q e k : ℕ) (xs : List Block) → Seg m p ((e, k) ∷ xs) q → last xs e ≢ null
last-ne_null m p q e k [] s = s.1
last-ne_null m p q e k ((d, j) ∷ xs) s = last-ne_null m (m.next e) q d j xs s.3

pub Seg-set_size :
    (m : Mem) (p q a v : ℕ) (xs : List Block)
    → Seg m p xs q
    → Seg (set_size m a v) p (resize a v xs) q
Seg-set_size m p q a v [] s = s
Seg-set_size m p q a v ((b, n) ∷ xs) s =
    (s.0, s.1, ground arith, Seg-set_size m (m.next b) q a v xs s.3)

pub Seg-set_next :
    (m : Mem) (p q a v : ℕ) (xs : List Block)
    → has a xs ≡ false
    → Seg m p xs q
    → Seg (set_next m a v) p xs q
Seg-set_next m p q a v [] out s = s
Seg-set_next m p q a v ((b, n) ∷ xs) out s =
    (s.0, s.1, s.2, rw skip (Seg-set_next m (m.next b) q a v xs (ground arith) s.3))
  where
    skip : (set_next m a v).next b ≡ m.next b
    skip = ground arith

-- Each address occurs once.
abbrev pub NoDup : List Block → Type 0
NoDup [] = Unit
NoDup ((a, s) ∷ xs) = (has a xs ≡ false) × NoDup xs

pub NoDup-append : (xs ys : List Block) → NoDup (xs ++ ys) → NoDup xs
NoDup-append [] ys d = tt
NoDup-append ((a, s) ∷ xs) ys d = (ground (arith, has-append a xs ys), NoDup-append xs ys d.1)

pub NoDup-apart :
    (p : ℕ) (xs ys : List Block) → NoDup (xs ++ ys) → has p xs ≡ true → has p ys ≡ false
NoDup-apart p [] ys d h = cc
NoDup-apart p ((a, s) ∷ xs) ys d h = elim (Bool-cases (a == p)) [
  | inl e ↦
      let e' : a ≡ p = (==_iff a p).0 e in
      let out : has p (xs ++ ys) ≡ false = subst (λ z. has z (xs ++ ys) ≡ false) e' d.0 in
      ground (arith, has-append p xs ys)
  | inr n ↦ NoDup-apart p xs ys d.1 (ground arith)
]

pub last-has : (e k : ℕ) (xs : List Block) → has (last xs e) ((e, k) ∷ xs) ≡ true
last-has e k [] = ground arith
last-has e k ((d, j) ∷ xs) = ground (arith, last-has d j xs)

-- Writing the last block's `next` joins a segment to another.
pub Seg-link :
    (m : Mem) (p q r v c n : ℕ) (xs ys : List Block)
    → NoDup ((c, n) ∷ xs)
    → has (last xs c) ys ≡ false
    → Seg m p ((c, n) ∷ xs) q
    → Seg m v ys r
    → Seg (set_next m (last xs c) v) p ((c, n) ∷ (xs ++ ys)) r
Seg-link m p q r v c n [] ys d out s t = (s.0, s.1, s.2, rw hit (Seg-set_next m v r c v ys out t))
  where
    hit : (set_next m c v).next c ≡ v
    hit = ground arith
Seg-link m p q r v c n ((e, k) ∷ xs) ys d out s t =
    (s.0, s.1, s.2, rw skip (Seg-link m (m.next c) q r v e k xs ys d.1 out s.3 t))
  where
    ne : c ≢ last xs e
    ne h =
        let same : has c ((e, k) ∷ xs) ≡ has (last xs e) ((e, k) ∷ xs) =
          ap (λ z. has z ((e, k) ∷ xs)) h in
        let out' : has c ((e, k) ∷ xs) ≡ false = d.0 in cc (same, out', last-has e k xs)

    skip : (set_next m (last xs e) v).next c ≡ m.next c
    skip = let ne' : c ≢ last xs e = ne in ground arith

pub last-append : (b t d : ℕ) (xs : List Block) → last (xs ++ ((b, t) ∷ [])) d ≡ b
last-append b t d [] = refl
last-append b t d ((a, s) ∷ xs) = last-append b t a xs

pub has-middle : (b t : ℕ) (pre post : List Block) → has b (pre ++ ((b, t) ∷ post)) ≡ true
has-middle b t [] post = ground arith
has-middle b t (x ∷ pre) post = ground (arith, has-middle b t pre post)

-- A segment survives any write that spares its own headers.
pub Seg-frame :
    (m m' : Mem) (p q : ℕ) (xs : List Block)
    → ((a : ℕ) → has a xs ≡ true → (m'.size a ≡ m.size a) × (m'.next a ≡ m.next a))
    → Seg m p xs q
    → Seg m' p xs q
Seg-frame m m' p q [] same s = s
Seg-frame m m' p q ((a, n) ∷ xs) same s =
    let here = same a (ground arith) in
    (
      s.0,
      s.1,
      here.0 ∙ s.2,
      rw here.1 (Seg-frame m m' (m.next a) q xs (λ b i. same b (ground arith)) s.3),
    )
