-- ===== src/Chat/Client/Stream.antt =====
-- The reads of the receiver of client.c, which cut the stream of the server anywhere.
use mathlib.Core.List.{append-nil, append_assoc}
use cmpt201_coursework.Prelude.{
  ℕ, zero, suc, ◌-◌, ◌≤◌, ◌<◌, ◌≡◌, refl, ap, sym, subst, ◌∙◌, inl, inr, true, false, List, [], ◌∷◌,
  ◌++◌, arith, ◌==◌, length, length-append, length-take, length-drop, take, drop, All, Run, ok, ◌⊎◌,
}
use native.Mathlib.Decide.{dec_lt}
use cmpt201_coursework.Text.{before_nul}
use cmpt201_coursework.Chat.{max_msg_size, newline, Bytes, Peer, commit_msg}
use cmpt201_coursework.Chat.Client.{Line, Receiver, received, receive, receiver_thread}
use cmpt201_coursework.Chat.Client.Receive.{
  message, logged, receive-message, Chatter, messages, lines, AreTexts,
}
use cmpt201_coursework.Chat.Client.Part.{cut_before, cut_behind, receive-part}

-- What a read leaves: the commit, or a part of the messages that are still to come.
Leaves : Bytes → List Line → Chatter → Run (Bytes × Receiver) → Type 0
Leaves stream log es o =
    ((o ≡ ok (commit_msg, received (log ++ lines es) false)) × (stream ≡ []))
    ⊎ ((rest : Bytes) × (log' : List Line) × (es' : Chatter) × (o ≡ ok (rest, received log' true))
        × (rest ++ stream ≡ messages es')
        × (log' ++ lines es' ≡ log ++ lines es)
        × AreTexts es'
        × (length rest < max_msg_size)
        × (length rest < length (messages es')))

Leaves-behind :
    (p : Peer) (text stream : Bytes) (log : List Line) (es : Chatter) (o : Run (Bytes × Receiver))
    → Leaves stream (log ++ (logged p (before_nul text) ∷ [])) es o
    → Leaves stream log ((p, text) ∷ es) o
unfolding Leaves
Leaves-behind p text stream log es o (inl (e, s)) = inl (
  e
      ∙ ap (λ l. ok (commit_msg, received l false))
          (append_assoc log (logged p (before_nul text) ∷ []) (lines es)),
  s,
)
Leaves-behind p text stream log es o (inr (rest, log', es', e, c, l, t, h, h')) = inr (
  rest,
  log',
  es',
  e,
  c,
  l ∙ append_assoc log (logged p (before_nul text) ∷ []) (lines es),
  t,
  h,
  h',
)

receive-Leaves :
    (k : ℕ) (es : Chatter) (ptr stream : Bytes) (log : List Line)
    → AreTexts es
    → ptr ++ stream ≡ messages es
    → length ptr < k
    → Leaves stream log es (receive k ptr (received log true))
unfolding Leaves receive messages
receive-Leaves zero es ptr stream log t e fuel = absurd (omega arith)
receive-Leaves (suc k) [] [] stream log t e fuel =
    inr ([], log, [], refl, e, refl, tt, omega arith, omega arith)
receive-Leaves (suc k) [] (a ∷ []) stream log t e fuel =
    let q : a ≡ 1 = cc in inr (a ∷ [], log, [], rw (q) refl, e, refl, tt, omega arith, omega arith)
receive-Leaves (suc k) [] (a ∷ b ∷ []) stream log t e fuel =
    let q : a ≡ 1 = cc in let q' : b ≡ newline = cc in inl (rw (q, q', append-nil log) refl, cc)
receive-Leaves (suc k) [] (a ∷ b ∷ c ∷ ptr) stream log t e fuel = absurd cc
receive-Leaves (suc k) ((p, text) ∷ es) ptr stream log t e fuel =
    let l = length-append text (newline ∷ []) in
    let l' = length-append (message p text) (messages es) in
    let small = t.0.1 in
    elim (dec_lt (length ptr) (length (message p text))) [
      | yes part ↦
          let c = cut_before ptr stream (message p text) (messages es) e (omega arith) in
          let o = receive-part k ptr text p (received log true) t.0.0 c part in
          inr (ptr, log, (p, text) ∷ es, o, e, refl, t, omega arith, omega arith)
      | no whole ↦
          let (vs, c, d) = cut_behind ptr stream (message p text) (messages es) e (omega arith) in
          let o =
            ap (λ z. receive (suc k) z (received log true)) c
            ∙ receive-message k p text vs (received log true) t.0 in
          let m = length-append (message p text) vs in
          let m' : length ptr ≡ length (message p text ++ vs) = ap length c in
          let next = log ++ (logged p (before_nul text) ∷ []) in
          subst (λ z. Leaves stream log ((p, text) ∷ es) z) (sym o)
            (Leaves-behind p text stream log es _
              (receive-Leaves k es vs stream next t.1 d (omega arith)))
    ]

got-rest :
    (n m : ℕ) (stream : Bytes)
    → let got = take n (take m stream) in got ++ drop (length got) stream ≡ stream
got-rest zero m stream = refl
got-rest (suc n) zero stream = refl
got-rest (suc n) (suc m) [] = refl
got-rest (suc n) (suc m) (x ∷ stream) = ap (λ l. x ∷ l) (got-rest n m stream)

stopped_lem :
    (reads : List ℕ) (stream buffer : Bytes) (log : List Line)
    → receiver_thread reads stream buffer (received log false) ≡ ok (buffer, received log false)
unfolding receiver_thread
stopped_lem [] stream buffer log = refl
stopped_lem (n ∷ reads) stream buffer log = refl

receiver_thread-step :
    (n : ℕ) (reads : List ℕ) (stream buffer rest : Bytes) (log : List Line) (r : Receiver)
    → let got = take n (take (max_msg_size - length buffer) stream) in
      (length got == 0) ≡ false
      → receive (suc (length (buffer ++ got))) (buffer ++ got) (received log true) ≡ ok (rest, r)
      → receiver_thread (n ∷ reads) stream buffer (received log true)
        ≡ receiver_thread reads (drop (length got) stream) rest r
unfolding receiver_thread
receiver_thread-step n reads stream buffer rest log r z o = rw (receiver_thread, z, o)

goes_on :
    (reads : List ℕ) (stream buffer : Bytes) (log : List Line) (es : Chatter)
    → AreTexts es
    → buffer ++ stream ≡ messages es
    → length buffer < max_msg_size
    → length buffer < length (messages es)
    → All (λ n. 0 < n) reads
    → length stream ≤ length reads
    → receiver_thread reads stream buffer (received log true)
      ≡ ok (commit_msg, received (log ++ lines es) false)
unfolding Leaves
goes_on [] stream buffer log es t e room some_left pos enough =
    let l = length-append buffer stream in
    let l' : length (buffer ++ stream) ≡ length (messages es) = ap length e in absurd (omega arith)
goes_on (n ∷ reads) stream buffer log es t e room some_left pos enough =
    let l = length-append buffer stream in
    let l' : length (buffer ++ stream) ≡ length (messages es) = ap length e in
    let space = max_msg_size - length buffer in
    let got = take n (take space stream) in
    let rest = drop (length got) stream in
    let a = length-take n (take space stream) in
    let b = length-take space stream in
    let live = pos.0 in
    let z : (length got == 0) ≡ false = ground arith in
    let d = length-drop (length got) stream in
    let c : (buffer ++ got) ++ rest ≡ messages es =
      append_assoc buffer got rest ∙ (ap (λ y. buffer ++ y) (got-rest n space stream) ∙ e) in
    elim (receive-Leaves (suc (length (buffer ++ got))) es (buffer ++ got) rest log t c
      (omega arith)) [
        | inl (o, s) ↦
            receiver_thread-step n reads stream buffer commit_msg log _ z o
            ∙ stopped_lem reads rest commit_msg (log ++ lines es)
        | inr (kept, log', es', o, c', g, t', h, h') ↦
            receiver_thread-step n reads stream buffer kept log _ z o
            ∙ (goes_on reads rest kept log' es' t' c' h h' pos.1 (omega arith)
                ∙ ap (λ y. ok (commit_msg, received y false)) g)
      ]

messages-some : (es : Chatter) → 0 < length (messages es)
unfolding messages
messages-some [] = omega arith
messages-some ((p, text) ∷ es) = omega arith

-- The stream of the server, its broadcasts with the commit behind them, reaches the receiver in reads of
-- any sizes, no more at a time than its buffer has room for: if there are enough reads and each gives a
-- byte at least, the receiver logs each broadcast, in order, with its sender's address and its text up to
-- the first NUL, and at the commit it stops.
pub receiver_thread-lines :
    (reads : List ℕ) (es : Chatter) (log : List Line)
    → AreTexts es
    → All (λ n. 0 < n) reads
    → length (messages es) ≤ length reads
    → receiver_thread reads (messages es) [] (received log true)
      ≡ ok (commit_msg, received (log ++ lines es) false)
receiver_thread-lines reads es log t pos enough =
    goes_on reads (messages es) [] log es t refl (omega arith) (messages-some es) pos enough
