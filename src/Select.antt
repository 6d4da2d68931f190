-- ===== src/Select.antt =====
-- The chat server of lecture/test4/server.c: one thread reads from all clients with `select`. Its
-- messages, and what it shares with the broadcast worker, are those of the server in Chat.
-- A buffer of `client_buffers` is the list of its `client_data_len` bytes in use.
pub mod Message
pub mod Loop
pub mod Buffers
pub mod Threads
mod Tests
use cmpt201_coursework.Prelude.{
  ℕ, zero, suc, ◌+◌, ◌-◌, Bool, true, false, not, Option, none, some, List, [], ◌∷◌, ◌++◌, ltb, leb,
  ◌==◌, if◌then◌else◌, length, get_or, get_elem?, set, take, drop, Run, ok, fault, out_of_fuel,
  ◌>>=◌,
}
use cmpt201_coursework.Prelude.Int.{ℤ, pos, negsuc}
use cmpt201_coursework.Chat.{
  max_msg_size, type_regular, type_end_execution, newline, Bytes, memchr, Peer, Server, commit_msg,
  broadcast,
}

abbrev pub max_clients : ℕ
max_clients = 100

-- `client_t`: the address gives the peer of the socket.
pub record Client : Type 0 where
  pub fd : ℕ
  pub peer : Peer

-- The `num_clients` clients, the buffers of `main`, and what the threads share.
pub record State : Type 0 where
  pub clients : List Client
  pub client_buffers : List Bytes
  pub server : Server

-- A message is copied to the 1024 bytes of a node, whatever its length. `malloc` is taken to give the
-- node; where it does not, the source drops the message.
unfoldable pub enqueue_message : Bytes → Server → Run Server
enqueue_message message s =
    if ltb max_msg_size (length message)
    then fault
    else ok (record s { queue = s.queue ++ (message ∷ []) })

unfoldable pub handle_regular : Peer → Bytes → ℕ → Server → Run Server
handle_regular peer buffer msg_len s =
    if ltb max_msg_size (msg_len + 6)
    then ok s
    else enqueue_message (broadcast peer (take (msg_len - 1) (drop 1 buffer))) s

-- A termination signal; the `bool` is `shutdown_triggered`.
unfoldable pub handle_end : ℕ → Server → Run (Bool × Server)
handle_end msg_len s =
    let n = s.finished_clients_count + 1 in
    let counted = record s { finished_clients_count = n } in
    if not (msg_len == 2)
    then ok (false, s)
    else if n == s.expected_clients
    then enqueue_message commit_msg counted
      >>= (λ t. ok (true, record t { server_running = false }))
    else ok (false, counted)

-- Its result, what is left of the buffer, and the server after it.
unfoldable pub handle_message : Peer → Bytes → Server → Run (ℤ × Bytes × Server)
handle_message peer buffer s =
    let type = get_or buffer 0 0 in
    if length buffer == 0 then ok (negsuc 0, buffer, s) else elim (memchr newline buffer) [
      | none ↦ ok (pos 0, buffer, s)
      | some i ↦
          let msg_len = i + 1 in
          let rest = drop msg_len buffer in
          if type == type_regular
          then handle_regular peer buffer msg_len s >>= (λ t. ok (pos msg_len, rest, t))
          else if type == type_end_execution
          then handle_end msg_len s >>= (λ t. ok (if t.0 then negsuc 1 else pos msg_len, rest, t.1))
          else ok (pos msg_len, rest, s)
    ]

-- `while ((process_result = handle_message(…)) > 0)`, on fuel: whether the result was -2, the
-- buffer and the server.
unfoldable pub process : ℕ → Peer → Bytes → Server → Run (Bool × Bytes × Server)
process zero peer buffer s = out_of_fuel
process (suc k) peer buffer s = handle_message peer buffer s >>= λ t. elim t.0 [
  | pos n ↦ elim n [ zero ↦ ok (false, t.1, t.2) | suc _ ↦ process k peer t.1 t.2 ]
  | negsuc n ↦ ok (n == 1, t.1, t.2)
]

-- The index of the first client of a socket.
unfoldable pub index_of_fd : ℕ → List Client → Option ℕ
index_of_fd fd [] = none
index_of_fd fd (c ∷ cs) =
    if c.fd == fd then some 0 else elim (index_of_fd fd cs) [ none ↦ none | some i ↦ some (suc i) ]

-- The last client moves into the slot of the one removed. The buffers stay where they are.
unfoldable pub remove_client : ℕ → List Client → List Client
remove_client fd clients = elim (index_of_fd fd clients) [
  | none ↦ clients
  | some i ↦
      let n = length clients - 1 in
      elim (get_elem? clients n) [
        | none ↦ clients
        | some last ↦ take n (if ltb i n then set clients i last else clients)
      ]
]

-- What `read` gives for a socket that `select` reports: nothing more, or bytes.
pub data Read : Type 0 where
  closed : Read
  bytes : Bytes → Read

-- The read into the room behind the buffer. Without room it asks for no bytes and gives none.
unfoldable pub read_into : Bytes → Read → Option Bytes
read_into buffer closed = none
read_into buffer (bytes data_read) =
    if leb max_msg_size (length buffer)
    then none
    else if length data_read == 0
    then none
    else some (buffer ++ take (max_msg_size - length buffer) data_read)

-- The loop over the clients from index `i` on, on fuel: whether it ends with the shutdown, and the
-- state. `reads` is what `select` and `read` report of a socket.
unfoldable pub serve : ℕ → ℕ → (ℕ → Option Read) → State → Run (Bool × State)
serve zero i reads st = out_of_fuel
serve (suc k) i reads st = elim (get_elem? st.clients i) [
  | none ↦ ok (false, st)
  | some c ↦ elim (reads c.fd) [
    | none ↦ serve k (i + 1) reads st
    | some r ↦ elim (read_into (get_or st.client_buffers i []) r) [
      | none ↦ serve k i reads (record st { clients = remove_client c.fd st.clients })
      | some buffer ↦ process (suc (length buffer)) c.peer buffer st.server >>= λ t.
          let st' = record st { client_buffers = set st.client_buffers i t.1; server = t.2 } in
          if t.0 then ok (true, st') else serve k (i + 1) reads st'
    ]
  ]
]

-- A new connection, with its buffer emptied; it is rejected when the table is full.
unfoldable pub accept_client : Client → State → Bool × State
accept_client c st =
    let n = length st.clients in
    if ltb n max_clients
    then (
      true,
      record st { clients = st.clients ++ (c ∷ []); client_buffers = set st.client_buffers n [] },
    )
    else (false, st)

-- A round of the loop of `main` after `select`, with the client that `accept` gives, if any. After
-- a new connection the round is over.
unfoldable pub round : Option Client → (ℕ → Option Read) → State → Run (Bool × State)
round none reads st = serve (suc (length st.clients)) 0 reads st
round (some c) reads st =
    let (added, st') = accept_client c st in
    if added then ok (false, st') else serve (suc (length st.clients)) 0 reads st'
