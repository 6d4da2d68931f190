-- ===== src/Chat/Clients.antt =====
-- The table of clients of lecture/test4/servertest.c, and what the broadcast worker sends to it.
-- The table is the list of the entries in use; a write to a socket is a pair of the socket and what
-- is written.
pub mod Remove
pub mod Deliver
use cmpt201_coursework.Prelude.{
  ℕ, zero, suc, ◌+◌, ◌-◌, Bool, true, false, Option, none, some, List, [], ◌∷◌, ◌++◌, ltb, ◌==◌,
  if◌then◌else◌, length, get_or, set, take, not, Run, ok, out_of_fuel, ◌>>=◌,
}
use cmpt201_coursework.Chat.{Bytes, Server}

-- `client_t`, with the address left out, which nothing reads.
pub record Client : Type 0 where
  pub fd : ℕ
  pub io_tid : ℕ

-- The index of the first entry of `fd`.
unfoldable pub index_of_fd : ℕ → List Client → Option ℕ
index_of_fd fd [] = none
index_of_fd fd (c ∷ cs) =
    if c.fd == fd then some 0 else elim (index_of_fd fd cs) [ none ↦ none | some i ↦ some (suc i) ]

-- The last client moves into the slot of the one removed, and `num_clients` decreases.
unfoldable pub remove_client : ℕ → List Client → List Client
unfolding index_of_fd
remove_client fd clients =
    let num_clients = length clients in
    elim (index_of_fd fd clients) [
      | none ↦ clients
      | some i ↦
          let none_there : Client = record { fd = 0; io_tid = 0 } in
          let last_client = get_or clients (num_clients - 1) none_there in
          let moved = if ltb i (num_clients - 1) then set clients i last_client else clients in
          take (num_clients - 1) moved
    ]

-- `dequeue_message`: `none` for `NULL`, of an empty queue once the server is stopped. While it runs
-- an empty queue makes the caller wait; `broadcast_worker` below has that case apart.
unfoldable pub dequeue_message : Server → Option Bytes × Server
dequeue_message s = elim s.queue [ [] ↦ (none, s) | m ∷ ms ↦ (some m, record s { queue = ms }) ]

abbrev pub Write : Type 0
Write = ℕ × Bytes

-- `for (int i = 0; i < num_clients; i++) write(clients[i].fd, node->buffer, node->len)`
unfoldable pub write_all : Bytes → List Client → List Write
write_all m [] = []
write_all m (c ∷ cs) = (c.fd, m) ∷ write_all m cs

-- What the worker has done when it stops: ended, or waiting for a message.
pub record Worked : Type 0 where
  pub ended : Bool
  pub writes : List Write
  pub server : Server

-- The worker from its loop's test on, while no other thread runs, on fuel.
unfoldable pub broadcast_worker : ℕ → List Client → Server → Run Worked
broadcast_worker zero clients s = out_of_fuel
broadcast_worker (suc k) clients s =
    let (node, s') = dequeue_message s in
    let rest = broadcast_worker k clients s' in
    if not s.server_running
    then ok (record { ended = true; writes = []; server = s })
    else elim node [
      | none ↦ ok (record { ended = false; writes = []; server = s' })
      | some m ↦ rest >>= λ w. ok (record w { writes = write_all m clients ++ w.writes })
    ]
