-- ===== src/Select/Threads.antt =====
-- The two threads of lecture/test4/server.c: `main` with its clean-up, and the broadcast worker. A
-- turn is what a thread does up to its next look at what they share; a thread that waits has a turn
-- that changes nothing. `main` holds the lock of the table while it goes through the clients, and
-- gives it back where it removes one.
pub mod Exit
mod Tests
use cmpt201_coursework.Prelude.{
  ℕ, suc, ◌+◌, Bool, true, false, Option, none, some, List, [], ◌∷◌, ◌++◌, if◌then◌else◌, length,
  get_or, get_elem?, set, Run, ok, fault, out_of_fuel,
}
use cmpt201_coursework.Chat.{Bytes, Server}
use cmpt201_coursework.Chat.Clients.{Write}
use cmpt201_coursework.Chat.Threads.{Worker, looking, dequeuing, sending, finished, is_finished}
use cmpt201_coursework.Select.{
  Client, State, process, remove_client, Read, read_into, accept_client,
}

-- What `select` reports: an error, nothing, or what there is to read, with the client of a connection
-- that `accept` takes.
pub data Activity : Type 0 where
  select_error : Activity
  nothing : Activity
  ready : Option Client → (ℕ → Option Read) → Activity

-- Where `main` stands: at the test of its loop, at a client of the loop over the clients, before
-- `remove_client`, before the worker is joined, or at the exit.
pub data Main : Type 0 where
  selecting : Main
  serving : ℕ → (ℕ → Option Read) → Main
  removing : ℕ → ℕ → (ℕ → Option Read) → Main
  cleaning : Main
  exited : Main

pub record World : Type 0 where
  pub state : State
  pub worker : Worker
  pub writes : List Write
  pub main : Main

abbrev pub is_locked : Main → Bool
is_locked selecting = false
is_locked (serving i reads) = true
is_locked (removing fd i reads) = false
is_locked cleaning = false
is_locked exited = false

-- `dequeue_message`: `none` for an empty queue, at which the caller waits while the server runs.
unfoldable pub dequeue_message : Server → Option Bytes × Server
dequeue_message s = elim s.queue [ [] ↦ (none, s) | m ∷ ms ↦ (some m, record s { queue = ms }) ]

-- `for (int i = 0; i < num_clients; i++) write(clients[i].fd, node->buffer, node->len)`
unfoldable pub write_all : Bytes → List Client → List Write
write_all m [] = []
write_all m (c ∷ cs) = (c.fd, m) ∷ write_all m cs

-- `broadcast_worker`
unfoldable pub worker_turn : World → World
worker_turn w =
    let s = w.state.server in
    elim w.worker [
      | looking ↦ record w { worker = if s.server_running then dequeuing else finished }
      | dequeuing ↦
          let (node, s') = dequeue_message s in
          elim node [
            | none ↦ record w { worker = if s.server_running then dequeuing else finished }
            | some m ↦ record w { state = record w.state { server = s' }; worker = sending m }
          ]
      | sending m ↦
          if is_locked w.main
          then w
          else record w { writes = w.writes ++ write_all m w.state.clients; worker = looking }
      | finished ↦ w
    ]

-- `clients[i]` in the loop over the clients, in which the lock is held.
unfoldable pub serve_turn : ℕ → (ℕ → Option Read) → World → World
serve_turn i reads w =
    let st = w.state in
    elim (get_elem? st.clients i) [
      | none ↦ record w { main = selecting }
      | some c ↦ elim (reads c.fd) [
        | none ↦ record w { main = serving (i + 1) reads }
        | some r ↦ elim (read_into (get_or st.client_buffers i []) r) [
          | none ↦ record w { main = removing c.fd i reads }
          | some buffer ↦ elim (process (suc (length buffer)) c.peer buffer st.server) [
            | fault ↦ w
            | out_of_fuel ↦ w
            | ok t ↦ record w {
              state = record st { client_buffers = set st.client_buffers i t.1; server = t.2 };
              main = if t.0 then cleaning else serving (i + 1) reads;
            }
          ]
        ]
      ]
    ]

-- `main` at the test of its loop, and `accept`, after which a round is over if the client is added.
unfoldable pub select_turn : Activity → World → World
select_turn a w = elim a [
  | select_error ↦ record w { main = cleaning }
  | nothing ↦ w
  | ready new reads ↦ elim new [
    | none ↦ record w { main = serving 0 reads }
    | some c ↦
        let (added, st) = accept_client c w.state in
        record w { state = st; main = if added then selecting else serving 0 reads }
  ]
]

-- `main` and `cleanup_and_exit`, which joins the worker.
unfoldable pub main_turn : Activity → World → World
main_turn a w = elim w.main [
  | selecting ↦
      if w.state.server.server_running then select_turn a w else record w { main = cleaning }
  | serving i reads ↦ serve_turn i reads w
  | removing fd i reads ↦ record w {
    state = record w.state { clients = remove_client fd w.state.clients };
    main = serving i reads;
  }
  | cleaning ↦ if is_finished w.worker then record w { main = exited } else w
  | exited ↦ w
]

-- What the turns of the two threads lead to, in any order.
pub data Goes : World → World → Type 0 where
  rest : {w : World} → Goes w w
  worker_goes : {w v : World} → Goes (worker_turn w) v → Goes w v
  main_goes : (a : Activity) {w v : World} → Goes (main_turn a w) v → Goes w v
