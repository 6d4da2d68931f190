-- ===== src/Select/Loop.antt =====
-- The loop of server.c over its clients ends, and keeps to the bounds of its arrays.
use cmpt201_coursework.Prelude.{
  ℕ, zero, suc, ◌+◌, ◌-◌, ◌≤◌, ◌<◌, ◌≡◌, refl, ap, ◌∙◌, inl, inr, Bool-cases, Option-cases, Bool,
  true, false, Option, none, some, List, [], ◌∷◌, ◌++◌, arith, ltb, leb, ◌==◌, length,
  length-append, length-take, length-drop, length-set, get_or, get_elem?, some_at, index_lt, set,
  take, drop, All, All-set, ok,
}
use cmpt201_coursework.Prelude.Int.{negsuc}
use cmpt201_coursework.Chat.{max_msg_size, Bytes, memchr, newline, Peer, Server}
use cmpt201_coursework.Chat.Frame.{handle_incomplete, handle_complete}
use cmpt201_coursework.Select.{
  max_clients, Client, State, handle_message, process, index_of_fd, remove_client, Read, closed,
  bytes, read_into, serve, accept_client, round,
}
use cmpt201_coursework.Select.Message.{handle-same}

-- A buffer within its array.
abbrev pub Fits : Bytes → Type 0
Fits b = length b ≤ max_msg_size

-- At most 100 clients, and 100 buffers of at most 1024 bytes.
pub record IsBounded (st : State) : Type 0 where
  pub few : length st.clients ≤ max_clients
  pub buffers : length st.client_buffers ≡ max_clients
  pub fit : All Fits st.client_buffers

handle-empty : (peer : Peer) (s : Server) → handle_message peer [] s ≡ ok (negsuc 0, [], s)
unfolding handle_message
handle-empty peer s = refl

-- The loop over the messages of a buffer ends, and the buffer does not grow.
process-ends :
    (k : ℕ) (peer : Peer) (b : Bytes) (s : Server)
    → length b < k
    → (stop : Bool) × (rest : Bytes) × (t : Server) × (process k peer b s ≡ ok (stop, rest, t))
      × (length rest ≤ length b)
unfolding process
process-ends zero peer b s h = absurd (omega arith)
process-ends (suc k) peer [] s h = (false, [], s, rw (handle-empty peer s), omega arith)
process-ends (suc k) peer (x ∷ b) s h = elim (Option-cases (memchr newline (x ∷ b))) [
  | inl m ↦
      let e = handle-same peer (x ∷ b) s ∙ ap ok (handle_incomplete peer x b s m) in
      (false, x ∷ b, s, rw (e), omega arith)
  | inr (i, m) ↦
      let (t, c) = handle_complete peer i x b s m in
      let l = length-drop i b in
      let j : i + 1 ≡ suc i = omega arith in
      elim c [
        | inl e ↦
            let e' = handle-same peer (x ∷ b) s ∙ ap ok e in
            let (stop, rest, u, p, q) = process-ends k peer (drop i b) t (omega arith) in
            (stop, rest, u, rw (e', j) p, omega arith)
        | inr e ↦
            let e' = handle-same peer (x ∷ b) s ∙ ap ok e in
            (true, drop i b, t, rw (e', j), omega arith)
      ]
]

-- A client of the table is found, at its index or before.
pub index-found :
    (i : ℕ) (c : Client) (cs : List Client)
    → get_elem? cs i ≡ some c
    → (j : ℕ) × (index_of_fd c.fd cs ≡ some j)
unfolding index_of_fd
index-found i c [] h = cc
index-found zero c (d ∷ cs) h =
    let e : d.fd ≡ c.fd = cc in let t : (d.fd == c.fd) ≡ true = ground arith in (0, rw (t))
index-found (suc i) c (d ∷ cs) h = elim (Bool-cases (d.fd == c.fd)) [
  | inl e ↦ (0, rw (e))
  | inr e ↦ let (j, f) = index-found i c cs h in (suc j, rw (e, f))
]

length-remove_client :
    (i : ℕ) (c : Client) (cs : List Client)
    → get_elem? cs i ≡ some c
    → length (remove_client c.fd cs) + 1 ≡ length cs
unfolding remove_client
length-remove_client i c cs h =
    let b = index_lt i c cs h in
    let n = length cs - 1 in
    let (j, e) = index-found i c cs h in
    let (last, f) = some_at n cs (omega arith) in
    let l = length-take n (set cs j last) in
    let l' = length-take n cs in
    let m = length-set cs j last in
    elim (Bool-cases (ltb j n)) [
      | inl t ↦ rw (remove_client, e, f, t) (omega arith)
      | inr t ↦ rw (remove_client, e, f, t) (omega arith)
    ]

read_into-Fits : (b b' : Bytes) (r : Read) → read_into b r ≡ some b' → Fits b'
unfolding read_into
read_into-Fits b b' closed h = cc
read_into-Fits b b' (bytes d) h = elim (Bool-cases (leb max_msg_size (length b))) [
  | inl t ↦ ground arith
  | inr t ↦ elim (Bool-cases (length d == 0)) [
    | inl u ↦ ground arith
    | inr u ↦
        let e : b' ≡ b ++ take (max_msg_size - length b) d = ground arith in
        let l = length-append b (take (max_msg_size - length b) d) in
        let l' = length-take (max_msg_size - length b) d in let m = ap length e in ground arith
  ]
]

-- The loop over the clients from an index on ends, with a fuel above the number of clients that are
-- left, and keeps the bounds.
serve-ends :
    (k i : ℕ) (reads : ℕ → Option Read) (st : State)
    → IsBounded st
    → i ≤ length st.clients
    → length st.clients < i + k
    → (stop : Bool) × (st' : State) × (serve k i reads st ≡ ok (stop, st')) × IsBounded st'
unfolding serve
serve-ends zero i reads st b a h = absurd (omega arith)
serve-ends (suc k) i reads st b a h = elim (Option-cases (get_elem? st.clients i)) [
  | inl n ↦ (false, st, rw (serve, n), b)
  | inr (c, e) ↦
      let lt = index_lt i c st.clients e in
      elim (Option-cases (reads c.fd)) [
        | inl n ↦
            let (stop, u, p, q) = serve-ends k (i + 1) reads st b (omega arith) (omega arith) in
            (stop, u, rw (serve, e, n) p, q)
        | inr (r, f) ↦ elim (Option-cases (read_into (get_or st.client_buffers i []) r)) [
          | inl n ↦
              let l = length-remove_client i c st.clients e in
              let (stop, u, p, q) =
                serve-ends k i reads (record st { clients = remove_client c.fd st.clients })
                  (record { few = omega (arith, b.few); buffers = b.buffers; fit = b.fit })
                  (omega arith) (omega arith) in
              (stop, u, rw (serve, e, f, n) p, q)
          | inr (buffer, n) ↦
              let (stop, rest, t, p, q) =
                process-ends (suc (length buffer)) c.peer buffer st.server (omega arith) in
              let g = read_into-Fits (get_or st.client_buffers i []) buffer r n in
              let st' : State = record st {
                client_buffers = set st.client_buffers i rest;
                server = t;
              } in
              let b' : IsBounded st' = record {
                few = b.few;
                buffers = length-set st.client_buffers i rest ∙ b.buffers;
                fit = All-set Fits st.client_buffers i rest b.fit (omega arith);
              } in
              elim (Bool-cases stop) [
                | inl s ↦ (true, st', rw (serve, e, f, n, p, s), b')
                | inr s ↦
                    let (stop', u, p', q') =
                      serve-ends k (i + 1) reads st' b' (omega arith) (omega arith) in
                    (stop', u, rw (serve, e, f, n, p, s) p', q')
              ]
        ]
      ]
]

accept-IsBounded : (c : Client) (st : State) → IsBounded st → IsBounded (accept_client c st).1
unfolding accept_client
accept-IsBounded c st b = elim (Bool-cases (ltb (length st.clients) max_clients)) [
  | inl t ↦
      rw (accept_client, t)
        (record {
          few = ground (arith, length-append st.clients (c ∷ []));
          buffers = length-set st.client_buffers (length st.clients) [] ∙ b.buffers;
          fit = All-set Fits st.client_buffers (length st.clients) [] b.fit (omega arith);
        })
  | inr t ↦ rw (accept_client, t) b
]

-- A round of the loop of `main` ends, whatever connects and whatever is read, and keeps to the
-- bounds: at most 100 clients, and at most 1024 bytes in each of the 100 buffers.
pub round-IsBounded :
    (new : Option Client) (reads : ℕ → Option Read) (st : State)
    → IsBounded st
    → (stop : Bool) × (st' : State) × (round new reads st ≡ ok (stop, st')) × IsBounded st'
unfolding round accept_client
round-IsBounded none reads st b =
    serve-ends (suc (length st.clients)) 0 reads st b (omega arith) (omega arith)
round-IsBounded (some c) reads st b = elim (Bool-cases (ltb (length st.clients) max_clients)) [
  | inl t ↦
      let a = accept-IsBounded c st b in (false, (accept_client c st).1, rw (accept_client, t), a)
  | inr t ↦
      let (stop, u, p, q) =
        serve-ends (suc (length st.clients)) 0 reads st b (omega arith) (omega arith) in
      (stop, u, rw (accept_client, t) p, q)
]
