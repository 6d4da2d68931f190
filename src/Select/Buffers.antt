-- ===== src/Select/Buffers.antt =====
-- Which buffer of server.c belongs to which client.
use cmpt201_coursework.Prelude.{
  ℕ, zero, suc, ◌-◌, ◌<◌, ◌≡◌, refl, ap, ◌∙◌, inl, inr, Bool-cases, Option-cases, true, Option,
  none, some, List, [], ◌∷◌, arith, ltb, ◌==◌, length, get_elem?, set, take,
}
use cmpt201_coursework.Chat.{Bytes}
use cmpt201_coursework.Select.{Client, State, index_of_fd, remove_client}

-- The bytes that have been read from a socket and not yet handled.
unfoldable pub buffer_of : ℕ → State → Option Bytes
buffer_of fd st = elim (index_of_fd fd st.clients) [
  | none ↦ none
  | some i ↦ get_elem? st.client_buffers i
]

index-moved :
    (fd i n : ℕ) (v : Client) (cs : List Client)
    → index_of_fd fd cs ≡ some n
    → i < n
    → v.fd ≡ fd
    → index_of_fd fd (take n (set cs i v)) ≡ some i
unfolding index_of_fd
index-moved fd i n v [] h b e = cc
index-moved fd i zero v (d ∷ cs) h b e = absurd (omega arith)
index-moved fd zero (suc n) v (d ∷ cs) h b e = let q : (v.fd == fd) ≡ true = ground arith in rw (q)
index-moved fd (suc i) (suc n) v (d ∷ cs) h b e = elim (Bool-cases (d.fd == fd)) [
  | inl t ↦ ground arith
  | inr t ↦ elim (Option-cases (index_of_fd fd cs)) [
    | inl f ↦ ground arith
    | inr (j, f) ↦
        let k : index_of_fd fd cs ≡ some n = ground arith in
        let r = index-moved fd i n v cs k (omega arith) e in rw (t, r)
  ]
]

removed :
    (fd i : ℕ) (last : Client) (cs : List Client)
    → index_of_fd fd cs ≡ some i
    → i < length cs - 1
    → get_elem? cs (length cs - 1) ≡ some last
    → remove_client fd cs ≡ take (length cs - 1) (set cs i last)
unfolding remove_client
removed fd i last cs e b l =
    let t : ltb i (length cs - 1) ≡ true = ground arith in rw (remove_client, e, l, t)

-- When a client that is not the last one is removed, the last one, which moves into its slot, is
-- left with the bytes that were read from the removed client: the buffers do not move.
pub remove-mixes :
    (fd i : ℕ) (last : Client) (st : State)
    → index_of_fd fd st.clients ≡ some i
    → i < length st.clients - 1
    → get_elem? st.clients (length st.clients - 1) ≡ some last
    → index_of_fd last.fd st.clients ≡ some (length st.clients - 1)
    → buffer_of last.fd (record st { clients = remove_client fd st.clients }) ≡ buffer_of fd st
unfolding buffer_of
remove-mixes fd i last st e b l m =
    let n = length st.clients - 1 in
    let r = removed fd i last st.clients e b l in
    let q = index-moved last.fd i n last st.clients m b refl in
    let q' : index_of_fd last.fd (remove_client fd st.clients) ≡ some i =
      ap (index_of_fd last.fd) r ∙ q in
    rw (buffer_of, q', e)
