-- ===== src/Chat.antt =====
-- The group chat of lecture/test4: the server of servertest.c. A buffer
-- is the list of the bytes in use, a socket the bytes that are read from it.
pub mod Frame
pub mod Drain
pub mod Commit
pub mod Client
pub mod Clients
pub mod Threads
mod Tests
use cmpt201_coursework.Prelude.{
  ℕ, zero, suc, ◌+◌, ◌-◌, Bool, true, false, not, Option, none, some, List, [], ◌∷◌, ◌++◌, ltb, leb,
  ◌==◌, if◌then◌else◌, length, get_or, take, drop, Run, ok, out_of_fuel,
}
use cmpt201_coursework.Prelude.Int.{ℤ, pos, negsuc}

abbrev pub max_msg_size : ℕ
max_msg_size = 1024

abbrev pub type_regular : ℕ
type_regular = 0

abbrev pub type_end_execution : ℕ
type_end_execution = 1

-- '\n'
abbrev pub newline : ℕ
newline = 10

abbrev pub Bytes : Type 0
Bytes = List ℕ

-- `memchr`: the index of the first byte `c`.
unfoldable pub memchr : ℕ → Bytes → Option ℕ
memchr c [] = none
memchr c (b ∷ xs) =
    if b == c then some 0 else elim (memchr c xs) [ none ↦ none | some i ↦ some (suc i) ]

-- The bytes of `sin_addr` and `sin_port` of a peer, in network order.
pub record Peer : Type 0 where
  pub ip_0 : ℕ
  pub ip_1 : ℕ
  pub ip_2 : ℕ
  pub ip_3 : ℕ
  pub port_0 : ℕ
  pub port_1 : ℕ

-- The globals that the threads of the server share, but for the table of clients.
pub record Server : Type 0 where
  pub queue : List Bytes
  pub expected_clients : ℕ
  pub finished_clients_count : ℕ
  pub server_running : Bool

-- `malloc` is taken to give the node; where it does not, the source exits.
unfoldable pub enqueue_message : Bytes → Server → Server
enqueue_message message s =
    if ltb max_msg_size (length message) then s else record s { queue = s.queue ++ (message ∷ []) }

-- The broadcast of a regular message: `[type | ip | port | data … '\n']`.
abbrev pub broadcast : Peer → Bytes → Bytes
broadcast peer payload =
    type_regular ∷ peer.ip_0 ∷ peer.ip_1 ∷ peer.ip_2 ∷ peer.ip_3 ∷ peer.port_0 ∷ peer.port_1
    ∷ payload

-- A regular message of `msg_len` bytes at the front of the buffer.
unfoldable pub handle_regular : Peer → Bytes → ℕ → Server → Server
unfolding enqueue_message
handle_regular peer buffer msg_len s =
    if ltb max_msg_size (msg_len + 6)
    then s
    else enqueue_message (broadcast peer (take (msg_len - 1) (drop 1 buffer))) s

abbrev pub commit_msg : Bytes
commit_msg = type_end_execution ∷ newline ∷ []

-- A termination signal of `msg_len` bytes; the `bool` is `shutdown_triggered`.
unfoldable pub handle_end : ℕ → Server → Bool × Server
unfolding enqueue_message
handle_end msg_len s =
    let n = s.finished_clients_count + 1 in
    let counted = record s { finished_clients_count = n } in
    let committed = record (enqueue_message commit_msg counted) { server_running = false } in
    if not (msg_len == 2)
    then (false, s)
    else if n == s.expected_clients
    then (true, committed)
    else (false, counted)

-- Its result, what is left of the buffer, and the server after it.
unfoldable pub handle_message : Peer → Bytes → Server → ℤ × Bytes × Server
unfolding handle_regular handle_end
handle_message peer buffer s =
    let type = get_or buffer 0 0 in
    if length buffer == 0 then (negsuc 0, buffer, s) else elim (memchr newline buffer) [
      | none ↦ (pos 0, buffer, s)
      | some i ↦
          let msg_len = i + 1 in
          let rest = drop msg_len buffer in
          let (shutdown, ended) = handle_end msg_len s in
          if type == type_regular
          then (pos msg_len, rest, handle_regular peer buffer msg_len s)
          else if type == type_end_execution
          then if shutdown then (negsuc 1, rest, ended) else (pos msg_len, rest, ended)
          else (pos msg_len, rest, s)
    ]

-- What a client's thread has after a read: whether it goes on (or the server shuts down), its
-- buffer and the server.
pub record Drained : Type 0 where
  pub going : Bool
  pub buffer : Bytes
  pub server : Server

abbrev pub drained : Bool → Bytes → Server → Drained
drained g b s = record { going = g; buffer = b; server = s }

-- The loop of `run_client_io` over the messages in its buffer, on fuel.
unfoldable pub drain : ℕ → Peer → Bytes → Server → Run Drained
drain zero peer buffer s = out_of_fuel
drain (suc k) peer buffer s =
    if length buffer == 0
    then ok (drained true buffer s)
    else let (result, rest, s') = handle_message peer buffer s in
      elim result [
        | pos n ↦ elim n [ zero ↦ ok (drained true buffer s') | suc _ ↦ drain k peer rest s' ]
        | negsuc n ↦ ok (drained false rest s')
      ]
