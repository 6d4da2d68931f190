-- ===== src/Chat/Frame.antt =====
-- `memchr`, and what a message at the front of a buffer has to do with the bytes behind it.
use cmpt201_coursework.Prelude.{
  take-append, drop-append, ℕ, ◌+◌, ◌-◌, ◌<◌, ◌≡◌, ap, sym, ◌∙◌, ap₂, false, none, some, [], ◌∷◌,
  ◌++◌, arith, ◌⊎◌, inl, inr, Option-cases, Bool-cases, ◌==◌, if◌then◌else◌, length, take, drop,
}
use cmpt201_coursework.Prelude.Int.{ℤ, pos, negsuc}
use cmpt201_coursework.Chat.{
  type_regular, type_end_execution, newline, Bytes, memchr, Peer, Server, handle_regular,
  handle_end, handle_message,
}

pub memchr-lt : (c i : ℕ) (xs : Bytes) → memchr c xs ≡ some i → i < length xs
unfolding memchr
memchr-lt c i [] h = cc
memchr-lt c i (b ∷ xs) h = elim (Option-cases (memchr c xs)) [
  | inl e ↦ ground arith
  | inr (j, e) ↦ let l = memchr-lt c j xs e in ground arith
]

memchr-append : (c i : ℕ) (xs ys : Bytes) → memchr c xs ≡ some i → memchr c (xs ++ ys) ≡ some i
unfolding memchr
memchr-append c i [] ys h = cc
memchr-append c i (b ∷ xs) ys h = elim (Option-cases (memchr c xs)) [
  | inl e ↦ ground arith
  | inr (j, e) ↦ let l = memchr-append c j xs ys e in ground arith
]

payload-append :
    (i : ℕ) (a b : Bytes)
    → i < length a
    → take ((i + 1) - 1) (drop 1 (a ++ b)) ≡ take ((i + 1) - 1) (drop 1 a)
payload-append i [] b h = absurd (omega arith)
payload-append i (x ∷ a) b h = take-append ((i + 1) - 1) a b (omega arith)

regular-append :
    (peer : Peer) (i : ℕ) (a b : Bytes) (s : Server)
    → i < length a
    → handle_regular peer (a ++ b) (i + 1) s ≡ handle_regular peer a (i + 1) s
unfolding handle_regular
regular-append peer i a b s h = rw (payload-append i a b h)

-- What `handle_message` leaves of a message of type `type` and `n` bytes.
abbrev pub framed : ℕ → ℕ → Bytes → Server → Server → ℤ × Bytes × Server
framed type n rest s regular =
    if type == type_regular
    then (pos n, rest, regular)
    else if type == type_end_execution
    then if (handle_end n s).0
      then (negsuc 1, rest, (handle_end n s).1)
      else (pos n, rest, (handle_end n s).1)
    else (pos n, rest, s)

pub handle-framed :
    (peer : Peer) (i x : ℕ) (a : Bytes) (s : Server)
    → memchr newline (x ∷ a) ≡ some i
    → handle_message peer (x ∷ a) s
      ≡ framed x (i + 1) (drop (i + 1) (x ∷ a)) s (handle_regular peer (x ∷ a) (i + 1) s)
unfolding handle_message
handle-framed peer i x a s m = let q : (length (x ∷ a) == 0) ≡ false = ground arith in rw (m, q)

-- Without a newline the message is incomplete, and nothing changes.
pub handle_incomplete :
    (peer : Peer) (x : ℕ) (a : Bytes) (s : Server)
    → memchr newline (x ∷ a) ≡ none
    → handle_message peer (x ∷ a) s ≡ (pos 0, x ∷ a, s)
unfolding handle_message
handle_incomplete peer x a s m = let q : (length (x ∷ a) == 0) ≡ false = ground arith in rw (m, q)

framed-result :
    (type n : ℕ) (rest : Bytes) (s regular : Server)
    → (t : Server) × ((framed type n rest s regular ≡ (pos n, rest, t))
        ⊎ (framed type n rest s regular ≡ (negsuc 1, rest, t)))
framed-result type n rest s regular = elim (Bool-cases (type == type_regular)) [
  | inl e ↦ (regular, inl (rw (e)))
  | inr e ↦ elim (Bool-cases (type == type_end_execution)) [
    | inl e' ↦ elim (Bool-cases (handle_end n s).0) [
      | inl e'' ↦ ((handle_end n s).1, inr (rw (e, e', e'')))
      | inr e'' ↦ ((handle_end n s).1, inl (rw (e, e', e'')))
    ]
    | inr e' ↦ (s, inl (rw (e, e')))
  ]
]

-- A complete message is taken off the buffer, and its length is returned, or the shutdown.
pub handle_complete :
    (peer : Peer) (i x : ℕ) (a : Bytes) (s : Server)
    → memchr newline (x ∷ a) ≡ some i
    → (t : Server) × ((handle_message peer (x ∷ a) s ≡ (pos (i + 1), drop (i + 1) (x ∷ a), t))
        ⊎ (handle_message peer (x ∷ a) s ≡ (negsuc 1, drop (i + 1) (x ∷ a), t)))
handle_complete peer i x a s m =
    let e = handle-framed peer i x a s m in
    let (t, c) =
      framed-result x (i + 1) (drop (i + 1) (x ∷ a)) s (handle_regular peer (x ∷ a) (i + 1) s) in
    elim c [ inl f ↦ (t, inl (e ∙ f)) | inr f ↦ (t, inr (e ∙ f)) ]

abbrev pub behind : Bytes → ℤ × Bytes × Server → ℤ × Bytes × Server
behind b t = (t.0, t.1 ++ b, t.2)

framed-behind :
    (type n : ℕ) (rest b : Bytes) (s regular : Server)
    → framed type n (rest ++ b) s regular ≡ behind b (framed type n rest s regular)
framed-behind type n rest b s regular = elim (Bool-cases (type == type_regular)) [
  | inl e ↦ rw (e)
  | inr e ↦ elim (Bool-cases (type == type_end_execution)) [
    | inl e' ↦ elim (Bool-cases (handle_end n s).0) [
      | inl e'' ↦ rw (e, e', e'')
      | inr e'' ↦ rw (e, e', e'')
    ]
    | inr e' ↦ rw (e, e')
  ]
]

-- What `handle_message` makes of a complete message does not depend on the bytes behind it, which
-- stay behind what it leaves.
pub handle-append :
    (peer : Peer) (i : ℕ) (a b : Bytes) (s : Server)
    → memchr newline a ≡ some i
    → handle_message peer (a ++ b) s ≡ behind b (handle_message peer a s)
unfolding memchr
handle-append peer i [] b s m = cc
handle-append peer i (x ∷ a) b s m =
    let l = memchr-lt newline i (x ∷ a) m in
    let m' = memchr-append newline i (x ∷ a) b m in
    let d = drop-append (i + 1) (x ∷ a) b (omega arith) in
    let g = regular-append peer i (x ∷ a) b s l in
    let e = handle-framed peer i x a s m in
    let e' = handle-framed peer i x (a ++ b) s m' in
    let f =
      framed-behind x (i + 1) (drop (i + 1) (x ∷ a)) b s (handle_regular peer (x ∷ a) (i + 1) s) in
    e' ∙ (ap₂ (λ z w. framed x (i + 1) z s w) d g ∙ (f ∙ ap (behind b) (sym e)))
