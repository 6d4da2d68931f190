-- ===== src/Chat/Drain.antt =====
-- The loop of `run_client_io` over its buffer: it ends, and where a read cuts the stream of a
-- client into pieces does not matter.
use cmpt201_coursework.Prelude.{
  ℕ, zero, suc, ◌+◌, ◌<◌, ◌≡◌, refl, sym, subst, ap₂, ◌∙◌, ◌⊎◌, inl, inr, Option-cases, true, false,
  none, some, [], ◌∷◌, ◌++◌, arith, ◌==◌, length, drop, length-append, length-drop, Run, ok,
  out_of_fuel,
}
use cmpt201_coursework.Prelude.Int.{ℤ, pos, negsuc}
use cmpt201_coursework.Chat.{
  newline, Bytes, memchr, Peer, Server, handle_message, Drained, drained, drain,
}
use cmpt201_coursework.Chat.Frame.{handle-append, handle_incomplete, handle_complete, memchr-lt}

-- The loop after a call of `handle_message` on a buffer.
unfoldable next : ℕ → Peer → Bytes → ℤ × Bytes × Server → Run Drained
next k peer a t = elim t.0 [
  | pos n ↦ elim n [ zero ↦ ok (drained true a t.2) | suc _ ↦ drain k peer t.1 t.2 ]
  | negsuc n ↦ ok (drained false t.1 t.2)
]

drain-next :
    (peer : Peer) (k x : ℕ) (a : Bytes) (s : Server)
    → drain (suc k) peer (x ∷ a) s ≡ next k peer (x ∷ a) (handle_message peer (x ∷ a) s)
unfolding drain next
drain-next peer k x a s = let q : (length (x ∷ a) == 0) ≡ false = ground arith in rw (q)

drain_incomplete :
    (peer : Peer) (k x : ℕ) (a : Bytes) (s : Server)
    → memchr newline (x ∷ a) ≡ none
    → drain (suc k) peer (x ∷ a) s ≡ ok (drained true (x ∷ a) s)
unfolding next
drain_incomplete peer k x a s m = rw (drain-next peer k x a s, handle_incomplete peer x a s m)

drain-nil : (peer : Peer) (k : ℕ) (s : Server) → drain (suc k) peer [] s ≡ ok (drained true [] s)
unfolding drain
drain-nil peer k s = refl

-- Either the loop goes on behind the message, or it ends with the shutdown.
drain_complete :
    (peer : Peer) (i x : ℕ) (a : Bytes) (s : Server)
    → memchr newline (x ∷ a) ≡ some i
    → (t : Server) × (((handle_message peer (x ∷ a) s ≡ (pos (i + 1), drop (i + 1) (x ∷ a), t))
          × ((k : ℕ) → drain (suc k) peer (x ∷ a) s ≡ drain k peer (drop i a) t))
        ⊎ ((k : ℕ) → drain (suc k) peer (x ∷ a) s ≡ ok (drained false (drop i a) t)))
unfolding next
drain_complete peer i x a s m =
    let (t, c) = handle_complete peer i x a s m in
    let j : i + 1 ≡ suc i = omega arith in
    elim c [
      | inl e ↦ (t, inl (e, λ k. rw (drain-next peer k x a s, e, j)))
      | inr e ↦ (t, inr (λ k. rw (drain-next peer k x a s, e, j)))
    ]

-- With more fuel than bytes in the buffer, the loop ends.
pub drain-ends :
    (peer : Peer) (k : ℕ) (a : Bytes) (s : Server)
    → length a < k
    → (d : Drained) × (drain k peer a s ≡ ok d)
drain-ends peer zero a s h = absurd (omega arith)
drain-ends peer (suc k) [] s h = (drained true [] s, drain-nil peer k s)
drain-ends peer (suc k) (x ∷ a) s h = elim (Option-cases (memchr newline (x ∷ a))) [
  | inl m ↦ (drained true (x ∷ a) s, drain_incomplete peer k x a s m)
  | inr (i, m) ↦
      let (t, c) = drain_complete peer i x a s m in
      elim c [
        | inl (e, f) ↦
            let (d, g) = drain-ends peer k (drop i a) t (omega (arith, length-drop i a)) in
            (d, f k ∙ g)
        | inr f ↦ (drained false (drop i a) t, f k)
      ]
]

-- More fuel changes nothing.
drain-fuel :
    (peer : Peer) (k l : ℕ) (a : Bytes) (s : Server)
    → length a < k
    → length a < l
    → drain k peer a s ≡ drain l peer a s
drain-fuel peer zero l a s h h' = absurd (omega arith)
drain-fuel peer (suc k) zero a s h h' = absurd (omega arith)
drain-fuel peer (suc k) (suc l) [] s h h' = drain-nil peer k s ∙ sym (drain-nil peer l s)
drain-fuel peer (suc k) (suc l) (x ∷ a) s h h' = elim (Option-cases (memchr newline (x ∷ a))) [
  | inl m ↦ drain_incomplete peer k x a s m ∙ sym (drain_incomplete peer l x a s m)
  | inr (i, m) ↦
      let (t, c) = drain_complete peer i x a s m in
      elim c [
        | inl (e, f) ↦
            let w = length-drop i a in
            let g = drain-fuel peer k l (drop i a) t (omega (arith, w)) (omega (arith, w)) in
            f k ∙ (g ∙ sym (f l))
        | inr f ↦ f k ∙ sym (f l)
      ]
]

ok-drained :
    (a b : Bytes) (s t : Server) → ok (drained true a s) ≡ ok (drained true b t) → (a ≡ b) × (s ≡ t)
ok-drained a b s t h = (cc, cc)

out_of_fuel-ok : (d : Drained) → ¬ (out_of_fuel ≡ ok d)
out_of_fuel-ok d h = cc

going_only : (a b : Bytes) (s t : Server) → ¬ (ok (drained false a s) ≡ ok (drained true b t))
going_only a b s t h = cc

drain-same :
    (peer : Peer) (n m : ℕ) (a r b : Bytes) (s s' : Server)
    → a ≡ r
    → s ≡ s'
    → length (a ++ b) < n
    → length (r ++ b) < m
    → drain n peer (a ++ b) s ≡ drain m peer (r ++ b) s'
drain-same peer n m a r b s s' e f p q =
    let q' : length (a ++ b) < m = subst (λ z. length (z ++ b) < m) (sym e) q in
    drain-fuel peer n m (a ++ b) s p q' ∙ ap₂ (λ z t. drain m peer (z ++ b) t) e f

drain-behind :
    (peer : Peer) (n i x : ℕ) (a b : Bytes) (s t : Server)
    → memchr newline (x ∷ a) ≡ some i
    → handle_message peer (x ∷ a) s ≡ (pos (i + 1), drop (i + 1) (x ∷ a), t)
    → drain (suc n) peer ((x ∷ a) ++ b) s ≡ drain n peer (drop i a ++ b) t
unfolding next
drain-behind peer n i x a b s t w e =
    let j : i + 1 ≡ suc i = omega arith in
    let g = handle-append peer i (x ∷ a) b s w in rw (drain-next peer n x (a ++ b) s, g, e, j)

-- Once the messages of `a` are handled, the loop goes on with what is left of `a` and the bytes `b`
-- behind it.
pub drain-append :
    (peer : Peer) (k n m : ℕ) (a b r : Bytes) (s s' : Server)
    → drain k peer a s ≡ ok (drained true r s')
    → length (a ++ b) < n
    → length (r ++ b) < m
    → drain n peer (a ++ b) s ≡ drain m peer (r ++ b) s'
unfolding drain
drain-append peer zero n m a b r s s' h p q = absurd (out_of_fuel-ok (drained true r s') h)
drain-append peer (suc k) zero m a b r s s' h p q = absurd (omega arith)
drain-append peer (suc k) (suc n) m [] b r s s' h p q =
    let (e, f) = ok-drained [] r s s' (sym (drain-nil peer k s) ∙ h) in
    drain-same peer (suc n) m [] r b s s' e f p q
drain-append peer (suc k) (suc n) m (x ∷ a) b r s s' h p q =
    elim (Option-cases (memchr newline (x ∷ a))) [
      | inl w ↦
          let (e, f) = ok-drained (x ∷ a) r s s' (sym (drain_incomplete peer k x a s w) ∙ h) in
          drain-same peer (suc n) m (x ∷ a) r b s s' e f p q
      | inr (i, w) ↦
          let (t, c) = drain_complete peer i x a s w in
          elim c [
            | inl (e, f) ↦
                let l = length-append (drop i a) b in
                let l' = length-append a b in
                let d = length-drop i a in
                let lt = memchr-lt newline i (x ∷ a) w in
                let g =
                  drain-append peer k n m (drop i a) b r t s' (sym (f k) ∙ h) (omega arith) q in
                drain-behind peer n i x a b s t w e ∙ g
            | inr f ↦ absurd (going_only (drop i a) r t s' (sym (f k) ∙ h))
          ]
    ]
