-- ===== src/Alloc/FreeList/Coalesce.antt =====
-- `coalesce_unsorted`: it ends, keeps the free bytes, and leaves no two adjacent blocks.
use mathlib.Core.List.{append_assoc}
use cmpt201_coursework.Prelude.{
  ℕ, zero, suc, ◌+◌, ◌^◌, ◌≤◌, ◌<◌, ◌≡◌, ◌≢◌, refl, sym, ap, ◌∙◌, subst, ◌⊎◌, Bool, true, false,
  List, [], ◌∷◌, ◌++◌, arith, inl, inr, Bool-cases, ◌==◌, length, All, Run, ok,
}
use cmpt201_coursework.Memory.{Mem, Block, Seg, Chain, has, last, total, null}
use cmpt201_coursework.Memory.Seg.{resize, Seg-split, last-append, has-middle}
use cmpt201_coursework.Memory.Cover.{cover, Fits, IsValid, Fits-remove, size_at, size_at-Seg}
use cmpt201_coursework.Alloc.FreeList.{
  Free, merge, meets, coalesce_inner, coalesce_outer, coalesce_unsorted,
}
use cmpt201_coursework.Alloc.FreeList.Merge.{Merged, merge-Merged}

meets→eq :
    (m : Mem) (a s b : ℕ)
    → m.size a ≡ s
    → a + s + 32 < 2 ^ 64
    → b + 32 < 2 ^ 64
    → meets m a b ≡ true
    → a + s ≡ b
meets→eq m a s b e h h' t = ground arith

not_meets→ne :
    (m : Mem) (a s b : ℕ)
    → m.size a ≡ s
    → a + s + 32 < 2 ^ 64
    → b + 32 < 2 ^ 64
    → meets m a b ≡ false
    → a + s ≢ b
not_meets→ne m a s b e h h' t = ground arith

-- No block of `xs` begins where `b` ends.
abbrev pub Separate : List Block → Block → Type 0
Separate xs (a, s) = has (a + s) xs ≡ false

module _ (f : Free) (xs : List Block) (c : Chain f.mem f.head xs) (v : IsValid xs) where
  -- A block of the list, the header at its address and what stands before it.
  record At (a s prev : ℕ) : Type 0 where
    pre : List Block
    post : List Block
    here : xs ≡ pre ++ ((a, s) ∷ post)
    before : prev ≡ last pre null
    size : f.mem.size a ≡ s
    fits : Fits (a, s)
    held : has a xs ≡ true

  at :
      (a s prev : ℕ) (pre post : List Block)
      → xs ≡ pre ++ ((a, s) ∷ post)
      → prev ≡ last pre null
      → At a s prev
  at a s prev pre post e p = record {
    pre = pre;
    post = post;
    here = e;
    before = p;
    size =
        let c' : Chain f.mem f.head (pre ++ ((a, s) ∷ post)) =
          subst (λ zs. Chain f.mem f.head zs) e c in
        let (r, _, q) = Seg-split f.mem f.head null pre ((a, s) ∷ post) c' in q.2;
    fits = (Fits-remove a s post pre (subst (λ zs. All Fits zs) e v.fits)).0;
    held = rw e (has-middle a s pre post);
  }

  abbrev Mergeable : Free → Type 0
  Mergeable g = (ys : List Block) × Merged xs g ys

  -- Merging `drop` into the block in front of it.
  merge-At :
      {keep s kp drop t dp : ℕ}
      → At keep s kp
      → At drop t dp
      → keep + s ≡ drop
      → Mergeable (merge f keep drop dp)
  merge-At {keep} {s} {kp} {drop} {t} {dp} k d e =
      let size : size_at keep xs ≡ s =
        sym (size_at-Seg f.mem f.head null keep xs c k.held) ∙ k.size in
      let ne : keep ≢ drop = omega arith in
      (
        resize keep (size_at keep (d.pre ++ d.post) + t) (d.pre ++ d.post),
        rw d.before (merged d.pre d.post d.here ne (ap (λ n. keep + n) size ∙ e)),
      )
    where
      merged :
          (pre post : List Block)
          → xs ≡ pre ++ ((drop, t) ∷ post)
          → keep ≢ drop
          → keep + size_at keep xs ≡ drop
          → Merged xs
              (merge f keep drop (last pre null))
              (resize keep (size_at keep (pre ++ post) + t) (pre ++ post))
      merged pre post h ne e' =
          subst
            (λ zs.
              Merged zs (merge f keep drop (last pre null))
                (resize keep (size_at keep (pre ++ post) + t) (pre ++ post)))
            (sym h)
            (merge-Merged f keep drop t pre post (subst (λ zs. Chain f.mem f.head zs) h c)
              (subst IsValid h v) (subst (λ zs. has keep zs ≡ true) h k.held) ne
              (subst (λ zs. keep + size_at keep zs ≡ drop) h e'))

  abbrev Inner : ℕ → ℕ → List Block → Run (Bool × Free) → Type 0
  Inner a s rest r =
      ((g : Free) × (r ≡ ok (true, g)) × Mergeable g)
      ⊎ ((r ≡ ok (false, f)) × (has (a + s) rest ≡ false))

  widen :
      (a s d t : ℕ) (rest : List Block) {r : Run (Bool × Free)}
      → a + s ≢ d
      → Inner a s rest r
      → Inner a s ((d, t) ∷ rest) r
  widen a s d t rest ne (inl h) = inl h
  widen a s d t rest ne (inr h) = inr (h.0, ground arith)

  inner_lem :
      (k : ℕ) {a s prev : ℕ} (b b_prev : ℕ) (pre rest : List Block)
      → At a s prev
      → xs ≡ pre ++ rest
      → b_prev ≡ last pre null
      → Seg f.mem b rest null
      → length rest < k
      → Inner a s rest (coalesce_inner k f a prev b b_prev)
  unfolding coalesce_inner
  inner_lem zero b bp pre rest p e q seg fuel = absurd (omega arith)
  inner_lem (suc k) b bp pre [] p e q seg fuel = rw seg (inr (refl, refl))
  inner_lem (suc k) {a} {s} {prev} b bp pre ((d, t) ∷ rest) p e q seg fuel =
      rw (seg.0, live)
        (elim (Bool-cases (a == d)) [
          | inl same ↦ rw same (
              widen a s d t rest (ground arith) (
                inner_lem k (f.mem.next d) d (pre ++ ((d, t) ∷ [])) rest p
                  (e ∙ sym (append_assoc pre ((d, t) ∷ []) rest)) (sym (last-append d t null pre))
                  seg.3 (omega arith)))
          | inr other ↦ rw other (elim (Bool-cases (meets f.mem a d)) [
            | inl hit ↦ rw hit (
                inl (
                  merge f a d bp,
                  refl,
                  merge-At p d-At
                      (meets→eq f.mem a s d p.size (omega arith) (omega (arith, d-fits)) hit),
                ))
            | inr miss ↦ rw miss (elim (Bool-cases (meets f.mem d a)) [
              | inl hit ↦ rw hit (
                  inl (
                    merge f d a prev,
                    refl,
                    merge-At d-At p
                        (meets→eq f.mem d t a d-At.size (omega (arith, d-fits)) (omega arith) hit),
                  ))
              | inr none_here ↦ rw none_here (
                  widen a s d t rest
                    (not_meets→ne f.mem a s d p.size (omega arith) (omega (arith, d-fits)) miss)
                    (inner_lem k (f.mem.next d) d (pre ++ ((d, t) ∷ [])) rest p
                      (e ∙ sym (append_assoc pre ((d, t) ∷ []) rest))
                      (sym (last-append d t null pre)) seg.3 (omega arith)))
            ])
          ])
        ])
    where
      d-At : At d t bp
      d-At = at d t bp pre rest e q

      d-fits : Fits (d, t)
      d-fits = d-At.fits

      live : (d == null) ≡ false
      live = ground (arith, d-fits)

  abbrev Outer : List Block → Run (Bool × Free) → Type 0
  Outer rest r =
      ((g : Free) × (r ≡ ok (true, g)) × Mergeable g)
      ⊎ ((r ≡ ok (false, f)) × All (Separate xs) rest)

  extend :
      (d t : ℕ) (rest : List Block) {r : Run (Bool × Free)}
      → has (d + t) xs ≡ false
      → Outer rest r
      → Outer ((d, t) ∷ rest) r
  extend d t rest h (inl m) = inl m
  extend d t rest h (inr m) = inr (m.0, (h, m.1))

  outer_lem :
      (k n a prev : ℕ) (pre rest : List Block)
      → xs ≡ pre ++ rest
      → prev ≡ last pre null
      → Seg f.mem a rest null
      → length rest < k
      → length xs < n
      → Outer rest (coalesce_outer k n f a prev)
  unfolding coalesce_outer
  outer_lem zero n a prev pre rest e q seg fuel fuel' = absurd (omega arith)
  outer_lem (suc k) n a prev pre [] e q seg fuel fuel' = rw seg (inr (refl, tt))
  outer_lem (suc k) n a prev pre ((d, t) ∷ rest) e q seg fuel fuel' =
      subst (λ z. Outer ((d, t) ∷ rest) (coalesce_outer (suc k) n f z prev)) (sym seg.0)
        (rw live
          (elim (inner_lem n f.head null [] xs (at d t prev pre rest e q) refl refl c fuel') [
            | inl (g, r, m) ↦ rw r (inl (g, refl, m))
            | inr (r, h) ↦ rw r (
                extend d t rest h (
                  outer_lem k n (f.mem.next d) d (pre ++ ((d, t) ∷ [])) rest
                    (e ∙ sym (append_assoc pre ((d, t) ∷ []) rest)) (sym (last-append d t null pre))
                    seg.3 (omega arith) fuel'))
          ]))
    where
      live : (d == null) ≡ false
      live = let ne : d ≢ null = seg.1 in ground arith

-- What `coalesce_unsorted` makes of the free list `xs`.
pub record Coalesced (xs : List Block) (f : Free) (ys : List Block) : Type 0 where
  pub chain : Chain f.mem f.head ys
  pub valid : IsValid ys
  pub separate : All (Separate ys) ys
  pub cover_eq : (x : ℕ) → cover x ys ≡ cover x xs
  pub total_eq : total ys ≡ total xs
  pub no_longer : length ys ≤ length xs

after :
    {xs ys zs : List Block} {f g : Free} → Merged xs f ys → Coalesced ys g zs → Coalesced xs g zs
after m d = record {
  chain = d.chain;
  valid = d.valid;
  separate = d.separate;
  cover_eq = λ x. d.cover_eq x ∙ m.cover_eq x;
  total_eq = d.total_eq ∙ m.total_eq;
  no_longer = omega (arith, m.shorter, d.no_longer);
}

-- `coalesce_unsorted` of a valid free list ends, with a fuel above its length, in a valid free list
-- of the same bytes and the same total size, no longer than before, in which no block begins where
-- another one ends.
pub coalesce-Coalesced :
    (k n : ℕ) (f : Free) (xs : List Block)
    → Chain f.mem f.head xs
    → IsValid xs
    → length xs < k
    → length xs < n
    → (g : Free) × (ys : List Block) × (coalesce_unsorted k n f ≡ ok g) × Coalesced xs g ys
unfolding coalesce_unsorted
coalesce-Coalesced zero n f xs c v fuel fuel' = absurd (omega arith)
coalesce-Coalesced (suc k) n f xs c v fuel fuel' =
    elim (outer_lem f xs c v n n f.head null [] xs refl refl c fuel' fuel') [
      | inl (g, r, (ys, m)) ↦
          rw (r, coalesce_unsorted)
            (let (h, zs, e, d) =
                coalesce-Coalesced k n g ys m.chain m.valid (omega (arith, m.shorter))
                  (omega (arith, m.shorter)) in
              (h, zs, e, after m d))
      | inr (r, s) ↦
          rw (r, coalesce_unsorted)
            (
              f,
              xs,
              refl,
              record {
                chain = c;
                valid = v;
                separate = s;
                cover_eq = λ x. refl;
                total_eq = refl;
                no_longer = omega arith;
              },
            )
    ]
