-- ===== src/Chat/Client/Part.antt =====
-- A message of which only a part has reached the receiver of client.c.
use cmpt201_coursework.Prelude.{
  ℕ, zero, suc, ◌≤◌, ◌<◌, ◌≡◌, refl, ap, sym, subst, Option-cases, inl, inr, false, none, List, [],
  ◌∷◌, ◌++◌, arith, ltb, ◌==◌, length, length-append, take, ok,
}
use cmpt201_coursework.Chat.{newline, Bytes, memchr, Peer, broadcast}
use cmpt201_coursework.Chat.Client.{Receiver, receive}
use cmpt201_coursework.Chat.Client.Receive.{message}

module _ {ℓ} {A : Type ℓ} where
  -- Two ways to cut a list: the first cut is before the second, or not.
  pub cut_before :
      (xs ys zs ws : List A)
      → xs ++ ys ≡ zs ++ ws
      → length xs ≤ length zs
      → xs ≡ take (length xs) zs
  cut_before [] ys zs ws e h = refl
  cut_before (x ∷ xs) ys [] ws e h = absurd (omega arith)
  cut_before (x ∷ xs) ys (z ∷ zs) ws e h =
      let q : x ≡ z = cc in
      let q' : xs ++ ys ≡ zs ++ ws = cc in let r = cut_before xs ys zs ws q' (omega arith) in cc

  pub cut_behind :
      (xs ys zs ws : List A)
      → xs ++ ys ≡ zs ++ ws
      → length zs ≤ length xs
      → (vs : List A) × (xs ≡ zs ++ vs) × (vs ++ ys ≡ ws)
  cut_behind xs ys [] ws e h = (xs, refl, e)
  cut_behind [] ys (z ∷ zs) ws e h = absurd (omega arith)
  cut_behind (x ∷ xs) ys (z ∷ zs) ws e h =
      let q : x ≡ z = cc in
      let q' : xs ++ ys ≡ zs ++ ws = cc in
      let (vs, r, t) = cut_behind xs ys zs ws q' (omega arith) in (vs, cc, t)

memchr-take : (c n : ℕ) (xs : Bytes) → memchr c xs ≡ none → memchr c (take n xs) ≡ none
unfolding memchr
memchr-take c zero xs h = refl
memchr-take c (suc n) [] h = refl
memchr-take c (suc n) (x ∷ xs) h = elim (Option-cases (memchr c xs)) [
  | inl e ↦ let i = memchr-take c n xs e in ground arith
  | inr (j, e) ↦ ground arith
]

take-within : (n : ℕ) (xs ys : Bytes) → n ≤ length xs → take n (xs ++ ys) ≡ take n xs
take-within zero xs ys h = refl
take-within (suc n) [] ys h = absurd (omega arith)
take-within (suc n) (x ∷ xs) ys h = ap (λ l. x ∷ l) (take-within n xs ys (omega arith))

-- Behind a whole header there is no newline yet.
receive-header :
    (k : ℕ) (p : Peer) (text : Bytes) (r : Receiver)
    → memchr newline text ≡ none
    → receive (suc k) (broadcast p text) r ≡ ok (broadcast p text, r)
unfolding receive
receive-header k p text r m =
    let z : (length (broadcast p text) == 0) ≡ false = ground arith in
    let few : ltb (length (broadcast p text)) 7 ≡ false = ground arith in rw (z, few, m)

-- A message that has not come in as a whole stays in the buffer.
receive-take :
    (k n : ℕ) (p : Peer) (text : Bytes) (r : Receiver)
    → memchr newline text ≡ none
    → n < length (message p text)
    → receive (suc k) (take n (message p text)) r ≡ ok (take n (message p text), r)
unfolding receive
receive-take k zero p text r t h = refl
receive-take k (suc zero) p text r t h = refl
receive-take k (suc (suc zero)) p text r t h = refl
receive-take k (suc (suc (suc zero))) p text r t h = refl
receive-take k (suc (suc (suc (suc zero)))) p text r t h = refl
receive-take k (suc (suc (suc (suc (suc zero))))) p text r t h = refl
receive-take k (suc (suc (suc (suc (suc (suc zero)))))) p text r t h = refl
receive-take k (suc (suc (suc (suc (suc (suc (suc j))))))) p text r t h =
    let l = length-append text (newline ∷ []) in
    let e = take-within j text (newline ∷ []) (omega arith) in
    let m = memchr-take newline j text t in
    subst (λ z. receive (suc k) (broadcast p z) r ≡ ok (broadcast p z, r)) (sym e)
      (receive-header k p (take j text) r m)

pub receive-part :
    (k : ℕ) (ptr text : Bytes) (p : Peer) (r : Receiver)
    → memchr newline text ≡ none
    → ptr ≡ take (length ptr) (message p text)
    → length ptr < length (message p text)
    → receive (suc k) ptr r ≡ ok (ptr, r)
receive-part k ptr text p r t e h =
    subst (λ z. receive (suc k) z r ≡ ok (z, r)) (sym e) (receive-take k (length ptr) p text r t h)
