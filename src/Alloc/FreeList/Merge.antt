-- ===== src/Alloc/FreeList/Merge.antt =====
-- `merge`, the step of `coalesce_unsorted`: two adjacent blocks become one.
use cmpt201_coursework.Prelude.{
  ℕ, ◌+◌, ◌^◌, ◌<◌, ◌≡◌, ◌≢◌, subst, sym, ap, ◌∙◌, true, false, List, [], ◌∷◌, ◌++◌, arith, inl,
  inr, Bool-cases, ◌==◌, length, All, add64,
}
use cmpt201_coursework.Memory.{set_size, set_next, Block, Seg, Chain, has, last, total, null}
use cmpt201_coursework.Memory.Seg.{
  resize, length-resize, Seg-split, last-has, last-ne_null, NoDup-append, NoDup-apart, Seg-set_size,
  Seg-link, NoDup,
}
use cmpt201_coursework.Memory.Cover.{
  cover, Fits, IsValid, size_at, cover-resize, total-resize, Fits-resize, IsValid-NoDup,
  IsValid-remove, Fits-remove, cover-remove, total-remove, length-remove, has-remove,
  size_at-remove, size_at-Seg,
}
use cmpt201_coursework.Alloc.FreeList.{Free, unlink, merge}

-- What merging keeps of the free list `xs`: the bytes that it covers and their number.
pub record Merged (xs : List Block) (f : Free) (ys : List Block) : Type 0 where
  pub chain : Chain f.mem f.head ys
  pub valid : IsValid ys
  pub cover_eq : (x : ℕ) → cover x ys ≡ cover x xs
  pub total_eq : total ys ≡ total xs
  pub shorter : length ys + 1 ≡ length xs

unlink-behind :
    (f : Free) (drop prev : ℕ)
    → prev ≢ null
    → unlink f drop prev ≡ record f { mem = set_next f.mem prev (f.mem.next drop) }
unfolding unlink
unlink-behind f drop prev h = let e : (prev == null) ≡ false = ground arith in rw e

unlink-Chain :
    (f : Free) (a s : ℕ) (pre post : List Block)
    → NoDup (pre ++ ((a, s) ∷ post))
    → Chain f.mem f.head (pre ++ ((a, s) ∷ post))
    → let g = unlink f a (last pre null) in Chain g.mem g.head (pre ++ post)
unfolding unlink
unlink-Chain f a s [] post d c = c.3
unlink-Chain f a s ((e, k) ∷ pre) post d c =
    subst (λ g. Chain g.mem g.head ((e, k) ∷ (pre ++ post)))
      (sym (unlink-behind f a (last pre e) live)) joined
  where
    open f use {mem, head}

    parts : (r : ℕ) × Seg mem head ((e, k) ∷ pre) r × Seg mem r ((a, s) ∷ post) null
    parts = Seg-split mem head null ((e, k) ∷ pre) ((a, s) ∷ post) c

    live : last pre e ≢ null
    live = last-ne_null mem head parts.0 e k pre parts.1

    joined : Chain (set_next mem (last pre e) (mem.next a)) head ((e, k) ∷ (pre ++ post))
    joined =
        Seg-link mem head parts.0 null (mem.next a) e k pre post
          (NoDup-append ((e, k) ∷ pre) ((a, s) ∷ post) d)
          (ground
            (arith, NoDup-apart (last pre e) ((e, k) ∷ pre) ((a, s) ∷ post) d (last-has e k pre)))
          parts.1 parts.2.3

merge-unlink :
    (f : Free) (keep drop prev : ℕ)
    → merge f keep drop prev ≡ record (unlink f drop prev) {
      mem = set_size (unlink f drop prev).mem keep (add64 (f.mem.size keep) (f.mem.size drop));
    }
unfolding merge
merge-unlink f keep drop prev = elim (Bool-cases (prev == null)) [ inl e ↦ rw e | inr e ↦ rw e ]

-- Merging a block of a valid free list with another one that begins where it ends keeps the list
-- valid and the bytes that it covers, and makes it one block shorter.
pub merge-Merged :
    (f : Free) (keep drop t : ℕ) (pre post : List Block)
    → let xs = pre ++ ((drop, t) ∷ post) in
      Chain f.mem f.head xs
      → IsValid xs
      → has keep xs ≡ true
      → keep ≢ drop
      → keep + size_at keep xs ≡ drop
      → Merged xs
          (merge f keep drop (last pre null))
          (resize keep (size_at keep (pre ++ post) + t) (pre ++ post))
unfolding merge
merge-Merged f keep drop t pre post c v i ne e = record {
  chain =
      rw (merge-unlink, grown)
        (Seg-set_size g.mem g.head null keep (s + t) ys
          (unlink-Chain f drop t pre post (IsValid-NoDup (pre ++ ((drop, t) ∷ post)) v) c));
  valid = record {
    fits =
        Fits-resize keep (s + t) ys (omega (arith, bounds)) (omega (arith, bounds, behind)) fits.1;
    apart = λ x. omega (arith, same x, v.apart x);
  };
  cover_eq = same;
  total_eq = omega (arith, total-resize keep t ys nodup held, total-remove drop t post pre);
  shorter = omega (arith, length-resize keep (s + t) ys, length-remove drop t post pre);
}
  where
    ys : List Block
    ys = pre ++ post

    s : ℕ
    s = size_at keep ys

    fits : Fits (drop, t) × All Fits ys
    fits = Fits-remove drop t post pre v.fits

    bounds : (0 < drop) × (0 < t) × (drop + t + 32 < 2 ^ 64)
    bounds = fits.0

    g : Free
    g = unlink f drop (last pre null)

    nodup : NoDup ys
    nodup = IsValid-NoDup ys (IsValid-remove drop t post pre v)

    held : has keep ys ≡ true
    held = sym (has-remove drop t post keep pre (λ h. ne (sym h))) ∙ i

    behind : keep + s ≡ drop
    behind = ap (λ n. keep + n) (sym (size_at-remove drop t post keep pre (λ h. ne (sym h)))) ∙ e

    dropped : f.mem.size drop ≡ t
    dropped = let (r, _, p) = Seg-split f.mem f.head null pre ((drop, t) ∷ post) c in p.2

    grown : add64 (f.mem.size keep) (f.mem.size drop) ≡ s + t
    grown =
        let kept = size_at-Seg f.mem f.head null keep (pre ++ ((drop, t) ∷ post)) c i in
        omega (
          arith,
          kept,
          dropped,
          bounds,
          behind,
          size_at-remove drop t post keep pre (λ h. ne (sym h)),
        )

    same : (x : ℕ) → cover x (resize keep (s + t) ys) ≡ cover x (pre ++ ((drop, t) ∷ post))
    same x = cover-resize x keep t ys nodup held ∙ rw behind (sym (cover-remove drop t post x pre))
