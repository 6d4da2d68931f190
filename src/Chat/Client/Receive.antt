-- ===== src/Chat/Client/Receive.antt =====
-- The receiver of client.c on a broadcast of the server.
use cmpt201_coursework.Prelude.{
  ℕ, suc, ◌+◌, ◌≤◌, ◌≡◌, refl, ap, ◌∙◌, Option-cases, inl, inr, false, none, some, List, [], ◌∷◌,
  ◌++◌, arith, ltb, leb, ◌==◌, if◌then◌else◌, length, take, drop,
}
use mathlib.Core.List.{append_assoc}
use cmpt201_coursework.Text.{before_nul}
use cmpt201_coursework.Chat.{max_msg_size, newline, Bytes, memchr, Peer, broadcast, commit_msg}
use cmpt201_coursework.Chat.Client.{Line, Receiver, receive}

-- Behind bytes without a newline, the first newline is the one that follows them.
pub memchr-behind :
    (c : ℕ) (xs ys : Bytes) → memchr c xs ≡ none → memchr c (xs ++ (c ∷ ys)) ≡ some (length xs)
unfolding memchr
memchr-behind c [] ys h = ground arith
memchr-behind c (x ∷ xs) ys h = elim (Option-cases (memchr c xs)) [
  | inl e ↦ let i = memchr-behind c xs ys e in ground arith
  | inr (j, e) ↦ ground arith
]

module _ {ℓ} {A : Type ℓ} where
  take-front : (xs ys : List A) → take (length xs) (xs ++ ys) ≡ xs
  take-front [] ys = refl
  take-front (x ∷ xs) ys = ap (λ l. x ∷ l) (take-front xs ys)

  drop-front : (xs ys : List A) → drop (length xs) (xs ++ ys) ≡ ys
  drop-front [] ys = refl
  drop-front (x ∷ xs) ys = drop-front xs ys

pub drop-suc : (xs ys : Bytes) → drop (length xs + 1) (xs ++ (newline ∷ ys)) ≡ ys
drop-suc [] ys = refl
drop-suc (x ∷ xs) ys =
    let j : suc (length xs) + 1 ≡ suc (length xs + 1) = omega arith in rw j (drop-suc xs ys)

-- A text that fits a broadcast, and in which no newline ends it early.
abbrev pub IsText : Bytes → Type 0
IsText text = (memchr newline text ≡ none) × (length text + 8 ≤ max_msg_size)

-- The broadcast of a text.
abbrev pub message : Peer → Bytes → Bytes
message p text = broadcast p (text ++ (newline ∷ []))

abbrev pub logged : Peer → Bytes → Line
logged p text = record {
  ip = p.ip_0 ∷ p.ip_1 ∷ p.ip_2 ∷ p.ip_3 ∷ [];
  port = p.port_0 ∷ p.port_1 ∷ [];
  chat_data = text;
}

-- The header and the text of a message at the front of the buffer.
receive-found :
    (k i : ℕ) (p : Peer) (xs : Bytes) (r : Receiver)
    → memchr newline xs ≡ some i
    → receive (suc k) (broadcast p xs) r
      ≡ receive k (drop (i + 1) xs) (record r {
        log_file =
            r.log_file
            ++ (logged p (before_nul (take (if leb max_msg_size i then 1023 else i) xs)) ∷ []);
      })
unfolding receive
receive-found k i p xs r m =
    let j : i + 8 ≡ suc (suc (suc (suc (suc (suc (suc (i + 1))))))) = omega arith in
    let q : ltb (length (broadcast p xs)) 7 ≡ false = ground arith in
    let q' : (length (broadcast p xs) == 0) ≡ false = ground arith in rw (q, q', m, j)

pub receive-message :
    (k : ℕ) (p : Peer) (text rest : Bytes) (r : Receiver)
    → IsText text
    → receive (suc k) (message p text ++ rest) r
      ≡ receive k rest (record r { log_file = r.log_file ++ (logged p (before_nul text) ∷ []) })
receive-message k p text rest r t =
    let e = append_assoc text (newline ∷ []) rest in
    let m = memchr-behind newline text rest t.0 in
    let d : drop (length text + 1) (text ++ (newline ∷ rest)) ≡ rest = drop-suc text rest in
    let n : leb max_msg_size (length text) ≡ false = ground arith in
    let f = take-front text (newline ∷ rest) in
    ap (λ z. receive (suc k) (broadcast p z) r) e
    ∙ (receive-found k (length text) p (text ++ (newline ∷ rest)) r m ∙ rw (n, f, d))

-- What the server sends for a sequence of texts of its clients.
abbrev pub Chatter : Type 0
Chatter = List (Peer × Bytes)

unfoldable pub messages : Chatter → Bytes
messages [] = commit_msg
messages ((p, text) ∷ es) = message p text ++ messages es

abbrev pub lines : Chatter → List Line
lines [] = []
lines ((p, text) ∷ es) = logged p (before_nul text) ∷ lines es

abbrev pub AreTexts : Chatter → Type 0
AreTexts [] = Unit
AreTexts ((p, text) ∷ es) = IsText text × AreTexts es
