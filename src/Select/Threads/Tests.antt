-- ===== src/Select/Threads/Tests.antt =====
-- Runs of the two threads of lecture/test4/server.c.
use cmpt201_coursework.Prelude.{ℕ, ◌≡◌, ◌≢◌, refl, false, [], ◌∷◌, replicate}
use cmpt201_coursework.Chat.{Peer}
use cmpt201_coursework.Chat.Commit.{started}
use cmpt201_coursework.Chat.Threads.{dequeuing, sending}
use cmpt201_coursework.Select.{Client, State}
use cmpt201_coursework.Select.Threads.{
  select_error, selecting, cleaning, exited, World, main_turn, worker_turn, Goes, rest, worker_goes,
  main_goes,
}
use cmpt201_coursework.Select.Threads.Exit.{select_error-stuck, clean_up-exits}

abbrev peer : Peer
peer = record { ip_0 = 127; ip_1 = 0; ip_2 = 0; ip_3 = 1; port_0 = 31; port_1 = 144 }

abbrev client : ℕ → Client
client fd = record { fd = fd; peer = peer }

abbrev state : State
state = record {
  clients = client 5 ∷ client 6 ∷ client 7 ∷ [];
  client_buffers = replicate 100 [];
  server = started 2;
}

abbrev idle : World
idle = record { state = state; worker = dequeuing; writes = []; main = selecting }

select_error-stuck_example :
    (worker_turn (main_turn select_error (main_turn select_error idle))).main ≢ exited
select_error-stuck_example =
    select_error-stuck idle (worker_turn (main_turn select_error (main_turn select_error idle)))
      refl refl refl refl (main_goes select_error (worker_goes rest))

-- The worker still has the commit to write.
abbrev committed : World
committed = record idle {
  state = record state { server = record (started 2) { server_running = false } };
  worker = sending (1 ∷ 10 ∷ []);
  main = cleaning;
}

clean_up-exits_example : (v : World) × Goes committed v × (v.main ≡ exited)
clean_up-exits_example = clean_up-exits committed refl refl
