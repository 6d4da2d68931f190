-- ===== src/Chat/Threads/Tests.antt =====
-- Runs of the threads of lecture/test4/servertest.c.
use cmpt201_coursework.Prelude.{
  ℕ, ◌<◌, ◌≤◌, ◌≡◌, ◌≢◌, refl, inl, true, some, [], ◌∷◌, arith, length, get_elem?, All,
}
use cmpt201_coursework.Chat.{Peer, handle_message, memchr, handle_end, enqueue_message}
use cmpt201_coursework.Chat.Clients.{Client}
use cmpt201_coursework.Chat.Commit.{commits}
use cmpt201_coursework.Chat.Threads.{
  max_clients, testing, Thread, again, received, no_connection, connection, World, begin, waiting,
  joining, exited, read_into, takes_lock, handle_next, run_client_io, client_turn, add_client,
  acceptor_turn, main_turn, Goes, rest, client_goes, acceptor_goes, main_goes,
}
use cmpt201_coursework.Chat.Threads.Stuck.{join-stuck}
use cmpt201_coursework.Chat.Threads.Bounds.{IsOrdered, Goes-bounds}
use cmpt201_coursework.Chat.Threads.Turns.{Fits, Has}
use cmpt201_coursework.Chat.Threads.Phases.{messages, commit-after}
use cmpt201_coursework.Chat.Threads.Ends.{IsOff}
use cmpt201_coursework.Chat.Threads.Exit.{server-exits}

abbrev peer : Peer
peer = record { ip_0 = 127; ip_1 = 0; ip_2 = 0; ip_3 = 1; port_0 = 31; port_1 = 64 }

-- A client connects.
abbrev connect : ℕ → World → World
connect fd w =
    acceptor_turn no_connection true
      (acceptor_turn (connection fd) true (acceptor_turn no_connection true w))

-- The first client sends its termination signal.
abbrev signal : World → World
signal w =
    client_turn 0 peer again
      (client_turn 0 peer (received (1 ∷ 10 ∷ [])) (client_turn 0 peer again w))

-- The acceptor ends, and `main` takes the lock of the table.
abbrev clean_up : World → World
clean_up w = main_turn (main_turn (acceptor_turn no_connection true w))

abbrev connected : World
connected = connect 6 (connect 5 (begin 1))

abbrev signalled : World
signalled = signal connected

abbrev locked : World
locked = clean_up signalled

connect-Goes : (fd : ℕ) (w v : World) → Goes (connect fd w) v → Goes w v
connect-Goes fd w v p =
    acceptor_goes no_connection true
      (acceptor_goes (connection fd) true (acceptor_goes no_connection true p))

connected-Goes : Goes (begin 1) connected
connected-Goes =
    connect-Goes 5 (begin 1) connected (connect-Goes 6 (connect 5 (begin 1)) connected rest)

signalled-Goes : Goes (begin 1) signalled
signalled-Goes = connect-Goes 5 (begin 1) signalled (
    connect-Goes 6 (connect 5 (begin 1)) signalled (
      client_goes 0 peer again
        (client_goes 0 peer (received (1 ∷ 10 ∷ [])) (client_goes 0 peer again rest))))

connected-early : connected.server.finished_clients_count < connected.server.expected_clients
unfolding acceptor_turn add_client
connected-early = omega arith

signalled-IsOff : IsOff signalled.server
unfolding acceptor_turn add_client client_turn run_client_io read_into handle_next takes_lock
    handle_message memchr handle_end enqueue_message
signalled-IsOff = refl

signalled-waiting : signalled.main ≡ waiting
unfolding acceptor_turn add_client client_turn run_client_io read_into handle_next takes_lock
    handle_message memchr handle_end enqueue_message
signalled-waiting = refl

abbrev second : Client
second = record { fd = 6; io_tid = 1 }

abbrev its_thread : Thread
its_thread = record { client_fd = 6; stage = testing; buffer = [] }

locked-holds :
    (locked.main ≡ joining 0)
    × (get_elem? locked.clients 1 ≡ some second)
    × (get_elem? locked.threads 1 ≡ some its_thread)
unfolding acceptor_turn add_client client_turn run_client_io read_into handle_next takes_lock
    handle_message memchr handle_end enqueue_message main_turn
locked-holds = (refl, refl, refl)

join-stuck_example : (main_turn (main_turn locked)).main ≢ exited
join-stuck_example =
    join-stuck 1 second its_thread locked (main_turn (main_turn locked)) locked-holds.0
      locked-holds.1 locked-holds.2 tt (main_goes (main_goes rest))

Goes-bounds_example :
    (length connected.clients ≤ max_clients)
    × All Fits connected.threads
    × All (Has connected.threads) connected.clients
    × IsOrdered connected.main connected.acceptor connected.worker
Goes-bounds_example = Goes-bounds 1 connected connected-Goes

commit-after_example :
    (commits connected.server.queue ≡ 0) × (commits (messages connected.writes) ≡ 0)
commit-after_example = commit-after 1 connected connected-Goes connected-early

server-exits_example : (v : World) × Goes signalled v × (v.main ≡ exited)
server-exits_example =
    server-exits 1 signalled signalled-Goes signalled-IsOff (inl signalled-waiting)
