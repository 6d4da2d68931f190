-- ===== src/Tally/Tests.antt =====
-- A run of the server of lab/lab9.c/server.c.
use cmpt201_coursework.Prelude.{◌+◌, ◌≡◌, refl, [], ◌∷◌, length, replicate, ok, fault}
use cmpt201_coursework.Tally.{
  reading, counting, message, State, Read, received, start, read_turn, handle_client, client_turn,
  accept_turn, Goes, rest, client_goes, main_goes,
}
use cmpt201_coursework.Tally.Counts.{numbers, totals, messages, uncounted, ids, Goes-counts}

-- Two clients have connected.
abbrev alone : State
alone = record start {
  client_id_counter = 2;
  clients = record { cfd = 4; client_id = 1; stage = reading } ∷ [];
}

abbrev connected : State
connected = record start {
  client_id_counter = 3;
  clients =
      record { cfd = 4; client_id = 1; stage = reading }
      ∷ record { cfd = 5; client_id = 2; stage = reading }
      ∷ [];
}

first_accepted : accept_turn 4 start ≡ ok alone
unfolding accept_turn
first_accepted = refl

second_accepted : accept_turn 5 alone ≡ ok connected
unfolding accept_turn
second_accepted = refl

-- The second client has sent "a\n", which its thread has yet to count.
abbrev reached : State
reached = record connected {
  clients =
      record { cfd = 4; client_id = 1; stage = reading }
      ∷ record { cfd = 5; client_id = 2; stage = counting }
      ∷ [];
  printed = message 2 (97 ∷ 10 ∷ []) ∷ [];
}

sent : client_turn 1 (received (97 ∷ 10 ∷ [])) connected ≡ ok reached
unfolding client_turn handle_client read_turn
sent = refl

reached-Goes : Goes start reached
reached-Goes =
    main_goes 4 first_accepted
      (main_goes 5 second_accepted (client_goes 1 (received (97 ∷ 10 ∷ [])) sent rest))

Goes-counts_example :
    (ids reached.clients ≡ numbers (length reached.clients))
    × (totals reached.printed ≡ numbers reached.total_message_count)
    × (messages reached.printed ≡ reached.total_message_count + uncounted reached.clients)
Goes-counts_example = Goes-counts reached reached-Goes

-- A message of 64 bytes fills the buffer, and the NUL is written behind it.
abbrev long_message : Read
long_message = received (replicate 64 97)

full_buffer : read_turn long_message (record { cfd = 4; client_id = 1; stage = reading }) ≡ fault
unfolding read_turn
full_buffer = refl
