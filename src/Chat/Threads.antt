-- ===== src/Chat/Threads.antt =====
-- The threads of lecture/test4/servertest.c: one for each client, the acceptor, the broadcast worker
-- and `main`. A turn of a thread is what it does up to its next look at what the threads share; a
-- thread that waits, for a lock or for another thread, has a turn that changes nothing. The lock of
-- the table is held from one turn to the next only by `cleanup_and_exit`, while it joins the threads
-- of the clients.
pub mod Stuck
pub mod Turns
pub mod Bounds
pub mod Phases
pub mod Ends
pub mod Exit
mod Tests
use cmpt201_coursework.Prelude.{
  ℕ, zero, suc, ◌+◌, ◌-◌, Bool, true, false, ◌&&◌, none, some, List, [], ◌∷◌, ◌++◌, ltb, ◌==◌,
  if◌then◌else◌, length, get_or, get_elem?, set, take,
}
use cmpt201_coursework.Prelude.Int.{ℤ, pos, negsuc}
use cmpt201_coursework.Chat.{
  Bytes, max_msg_size, newline, type_end_execution, memchr, Peer, Server, handle_message,
}
use cmpt201_coursework.Chat.Clients.{Client, remove_client, dequeue_message, Write, write_all}

abbrev pub max_clients : ℕ
max_clients = 100

-- Where `run_client_io` stands: at the test of its loop, before `read`, in the loop over its buffer,
-- behind `close`, or at its end.
pub data Stage : Type 0 where
  testing : Stage
  reading : Stage
  handling : Stage
  leaving : Stage
  ended : Stage

pub record Thread : Type 0 where
  pub client_fd : ℕ
  pub stage : Stage
  pub buffer : Bytes

-- What `read` finds: nothing yet, an error, or the bytes that are there.
pub data Read : Type 0 where
  again : Read
  broken : Read
  received : Bytes → Read

-- `read` into what is free of the buffer. No bytes are the end of the connection.
unfoldable pub read_into : Read → Thread → Thread
read_into again t = record t { stage = testing }
read_into broken t = record t { stage = leaving }
read_into (received bytes) t =
    let got = take (max_msg_size - length t.buffer) bytes in
    if length got == 0
    then record t { stage = leaving }
    else record t { buffer = t.buffer ++ got; stage = handling }

-- Whether `handle_message` takes the lock of the table for the message at the front.
unfoldable pub takes_lock : Bytes → Bool
takes_lock buffer = elim (memchr newline buffer) [
  | none ↦ false
  | some i ↦ (get_or buffer 0 0 == type_end_execution) && (i + 1 == 2)
]

-- What `run_client_io` does with the result of `handle_message`.
abbrev pub after_message : ℤ → Bytes → Thread → Thread
after_message (pos zero) left t = record t { stage = testing }
after_message (pos (suc n)) left t = record t { buffer = left; stage = handling }
after_message (negsuc zero) left t = record t { stage = leaving }
after_message (negsuc (suc n)) left t = record t { stage = ended }

-- A round of the loop over the buffer.
unfoldable pub handle_next : Peer → Bool → Thread → Server → Thread × Server
handle_next peer locked t s =
    let (result, left, s') = handle_message peer t.buffer s in
    if length t.buffer == 0
    then (record t { stage = testing }, s)
    else if locked && takes_lock t.buffer
    then (t, s)
    else (after_message result left t, s')

-- The next part of `run_client_io`.
unfoldable pub run_client_io :
    Peer → Read → Bool → Thread → Server → List Client → Thread × Server × List Client
run_client_io peer r locked t s clients = elim t.stage [
  | testing ↦ (record t { stage = if s.server_running then reading else leaving }, s, clients)
  | reading ↦ (read_into r t, s, clients)
  | handling ↦ let (t', s') = handle_next peer locked t s in (t', s', clients)
  | leaving ↦
      if locked
      then (t, s, clients)
      else (record t { stage = ended }, s, remove_client t.client_fd clients)
  | ended ↦ (t, s, clients)
]

-- Where `run_acceptor` stands: at the test of its loop, before `accept`, with a new socket, or at its
-- end.
pub data Acceptor : Type 0 where
  polling : Acceptor
  accepting : Acceptor
  accepted : ℕ → Acceptor
  stopped : Acceptor

-- What `accept` finds: no connection, an error, or the socket of a connection.
pub data Accept : Type 0 where
  no_connection : Accept
  accept_error : Accept
  connection : ℕ → Accept

-- Where `broadcast_worker` stands: at the test of its loop, in `dequeue_message`, with a message, or
-- at its end.
pub data Worker : Type 0 where
  looking : Worker
  dequeuing : Worker
  sending : Bytes → Worker
  finished : Worker

-- Where `main` stands: in its loop, in `cleanup_and_exit` before the acceptor is joined, before
-- `clients[k]` is joined, and before the worker is joined, or at the exit. What a turn does behind the
-- exit has no meaning.
pub data Main : Type 0 where
  waiting : Main
  joining_acceptor : Main
  joining : ℕ → Main
  joining_worker : Main
  exited : Main

-- The server with the table of clients in use, the threads by their ids, and what has been written.
pub record World : Type 0 where
  pub server : Server
  pub clients : List Client
  pub threads : List Thread
  pub acceptor : Acceptor
  pub worker : Worker
  pub writes : List Write
  pub main : Main

-- The server when its threads have been created.
abbrev pub begin : ℕ → World
begin expected = record {
  server = record {
    queue = [];
    expected_clients = expected;
    finished_clients_count = 0;
    server_running = true;
  };
  clients = [];
  threads = [];
  acceptor = polling;
  worker = looking;
  writes = [];
  main = waiting;
}

-- Whether `cleanup_and_exit` holds the lock of the table.
abbrev pub is_locked : Main → Bool
is_locked waiting = false
is_locked joining_acceptor = false
is_locked (joining k) = true
is_locked joining_worker = false
is_locked exited = false

unfoldable pub client_turn : ℕ → Peer → Read → World → World
client_turn i peer r w = elim (get_elem? w.threads i) [
  | none ↦ w
  | some t ↦
      let (t', s, clients) = run_client_io peer r (is_locked w.main) t w.server w.clients in
      record w { server = s; clients = clients; threads = set w.threads i t' }
]

-- A new client, if its thread can be created; its id is the number of threads before it.
unfoldable pub add_client : ℕ → Bool → World → World
add_client new_fd created w =
    let new : Client = record { fd = new_fd; io_tid = length w.threads } in
    let thread : Thread = record { client_fd = new_fd; stage = testing; buffer = [] } in
    if ltb (length w.clients) max_clients && created
    then record w {
      clients = w.clients ++ (new ∷ []);
      threads = w.threads ++ (thread ∷ []);
      acceptor = polling;
    }
    else record w { acceptor = polling }

unfoldable pub acceptor_turn : Accept → Bool → World → World
acceptor_turn a created w = elim w.acceptor [
  | polling ↦ record w { acceptor = if w.server.server_running then accepting else stopped }
  | accepting ↦ elim a [
    | no_connection ↦ record w { acceptor = polling }
    | accept_error ↦ record w {
      server = record w.server { server_running = false };
      acceptor = stopped;
    }
    | connection new_fd ↦ record w { acceptor = accepted new_fd }
  ]
  | accepted new_fd ↦ if is_locked w.main then w else add_client new_fd created w
  | stopped ↦ w
]

-- With an empty queue the worker waits while the server runs.
unfoldable pub worker_turn : World → World
worker_turn w = elim w.worker [
  | looking ↦ record w { worker = if w.server.server_running then dequeuing else finished }
  | dequeuing ↦
      let (node, s) = dequeue_message w.server in
      elim node [
        | none ↦ record w { worker = if w.server.server_running then dequeuing else finished }
        | some m ↦ record w { server = s; worker = sending m }
      ]
  | sending m ↦
      if is_locked w.main
      then w
      else record w { writes = w.writes ++ write_all m w.clients; worker = looking }
  | finished ↦ w
]

-- Whether `pthread_join` of a thread returns.
unfoldable pub has_ended : ℕ → List Thread → Bool
has_ended i threads = elim (get_elem? threads i) [
  | none ↦ false
  | some t ↦ elim t.stage [
    | testing ↦ false
    | reading ↦ false
    | handling ↦ false
    | leaving ↦ false
    | ended ↦ true
  ]
]

abbrev pub is_stopped : Acceptor → Bool
is_stopped polling = false
is_stopped accepting = false
is_stopped (accepted fd) = false
is_stopped stopped = true

abbrev pub is_finished : Worker → Bool
is_finished looking = false
is_finished dequeuing = false
is_finished (sending m) = false
is_finished finished = true

unfoldable pub main_turn : World → World
main_turn w = elim w.main [
  | waiting ↦ if w.server.server_running then w else record w { main = joining_acceptor }
  | joining_acceptor ↦ if is_stopped w.acceptor then record w { main = joining 0 } else w
  | joining k ↦ elim (get_elem? w.clients k) [
    | none ↦ record w { clients = []; main = joining_worker }
    | some c ↦ if has_ended c.io_tid w.threads then record w { main = joining (k + 1) } else w
  ]
  | joining_worker ↦ if is_finished w.worker then record w { main = exited } else w
  | exited ↦ w
]

-- What the turns of the threads lead to, in any order.
pub data Goes : World → World → Type 0 where
  rest : {w : World} → Goes w w
  client_goes :
      (i : ℕ) (peer : Peer) (r : Read) {w v : World} → Goes (client_turn i peer r w) v → Goes w v
  acceptor_goes :
      (a : Accept) (created : Bool) {w v : World} → Goes (acceptor_turn a created w) v → Goes w v
  worker_goes : {w v : World} → Goes (worker_turn w) v → Goes w v
  main_goes : {w v : World} → Goes (main_turn w) v → Goes w v
