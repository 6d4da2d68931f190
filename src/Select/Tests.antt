-- ===== src/Select/Tests.antt =====
-- Runs of the chat server of lecture/test4/server.c.
use cmpt201_coursework.Prelude.{
  ℕ, suc, zero, ◌≡◌, refl, Bool, Option, none, some, List, [], ◌∷◌, arith, length, if◌then◌else◌,
  ◌==◌, All, ok,
}
use cmpt201_coursework.Chat.{Bytes, Peer}
use cmpt201_coursework.Chat.Commit.{started}
use cmpt201_coursework.Select.{
  Client, State, index_of_fd, remove_client, Read, closed, bytes, round,
}
use cmpt201_coursework.Select.Loop.{Fits, IsBounded, round-IsBounded}
use cmpt201_coursework.Select.Buffers.{buffer_of, remove-mixes}

abbrev peer : Peer
peer = record { ip_0 = 127; ip_1 = 0; ip_2 = 0; ip_3 = 1; port_0 = 31; port_1 = 144 }

abbrev client : ℕ → Client
client fd = record { fd = fd; peer = peer }

-- The message "hi".
abbrev hi : Bytes
hi = 0 ∷ 104 ∷ 105 ∷ 10 ∷ []

abbrev repeated : ℕ → List Bytes
repeated zero = []
repeated (suc n) = [] ∷ repeated n

-- Three clients, of which the first has sent a part of a message.
abbrev state : State
state = record {
  clients = client 5 ∷ client 6 ∷ client 7 ∷ [];
  client_buffers = (0 ∷ 121 ∷ []) ∷ repeated 99;
  server = started 2;
}

repeated-Fits : (n : ℕ) → All Fits (repeated n)
repeated-Fits zero = tt
repeated-Fits (suc n) = (omega arith, repeated-Fits n)

length-repeated : (n : ℕ) → length (repeated n) ≡ n
length-repeated zero = refl
length-repeated (suc n) = omega (arith, length-repeated n)

state-IsBounded : IsBounded state
state-IsBounded = record {
  few = omega arith;
  buffers = omega (arith, length-repeated 99);
  fit = (omega arith, repeated-Fits 99);
}

-- The second client has sent a message, and the third has closed its socket.
abbrev reads : ℕ → Option Read
reads fd = if fd == 6 then some (bytes hi) else if fd == 7 then some closed else none

round-IsBounded_example :
    (stop : Bool) × (st' : State) × (round none reads state ≡ ok (stop, st')) × IsBounded st'
round-IsBounded_example = round-IsBounded none reads state state-IsBounded

remove-mixes_example :
    buffer_of 7 (record state { clients = remove_client 5 state.clients }) ≡ buffer_of 5 state
unfolding index_of_fd
remove-mixes_example = remove-mixes 5 0 (client 7) state refl (omega arith) refl refl
