-- ===== src/Chat/Tests.antt =====
-- Runs of the chat server of lecture/test4/servertest.c on short streams.
use cmpt201_coursework.Prelude.{
  replicate, All, ◌≤◌, ◌<◌, ◌≡◌, refl, ◌⊎◌, true, false, some, [], ◌∷◌, ◌++◌, arith, List, Bool,
  ◌==◌, length, ok,
}
use cmpt201_coursework.Prelude.Int.{pos}
use cmpt201_coursework.Chat.{
  newline, Bytes, memchr, Peer, Server, handle_message, commit_msg, enqueue_message, handle_regular,
  handle_end, Drained, drained, drain,
}
use cmpt201_coursework.Chat.Client.{
  sender_message, receive, received, receiver_thread, convert_loop,
}
use cmpt201_coursework.Chat.Client.Receive.{logged, Chatter, messages, lines, AreTexts}
use cmpt201_coursework.Chat.Client.Stream.{receiver_thread-lines}
use cmpt201_coursework.Chat.Client.Trip.{message-arrives}
use cmpt201_coursework.Chat.Clients.{Client, Worked, broadcast_worker}
use cmpt201_coursework.Chat.Clients.Deliver.{sent_to, worker-delivers, worker-misses_commit}
use cmpt201_coursework.Chat.Drain.{drain-ends, drain-append}
use cmpt201_coursework.Chat.Commit.{started, Serves, idle, call, commits, commit-once}

abbrev peer : Peer
peer = record { ip_0 = 127; ip_1 = 0; ip_2 = 0; ip_3 = 1; port_0 = 31; port_1 = 144 }

abbrev server : Server
server = started 2

-- The message "hi", and the first bytes of one that begins with "yo".
abbrev hi : Bytes
hi = 0 ∷ 104 ∷ 105 ∷ 10 ∷ []

abbrev first_read : Bytes
first_read = hi ++ (0 ∷ 121 ∷ [])

abbrev second_read : Bytes
second_read = 111 ∷ 10 ∷ []

-- The server with the broadcast of "hi" in its queue.
abbrev greeted : Server
greeted = record server { queue = (0 ∷ 127 ∷ 0 ∷ 0 ∷ 1 ∷ 31 ∷ 144 ∷ 104 ∷ 105 ∷ 10 ∷ []) ∷ [] }

drain-first : drain 3 peer first_read server ≡ ok (drained true (0 ∷ 121 ∷ []) greeted)
unfolding drain handle_message handle_regular handle_end memchr enqueue_message
drain-first = refl

drain-append_example :
    drain 10 peer (first_read ++ second_read) server
    ≡ drain 6 peer ((0 ∷ 121 ∷ []) ++ second_read) greeted
drain-append_example =
    drain-append peer 3 10 6 first_read second_read (0 ∷ 121 ∷ []) server greeted drain-first
      (omega arith) (omega arith)

drain-ends_example : (d : Drained) × (drain 7 peer first_read server ≡ ok d)
drain-ends_example = drain-ends peer 7 first_read server (omega arith)

memchr-hi : memchr newline hi ≡ some 3
unfolding memchr
memchr-hi = refl

-- After the termination signals of both clients.
abbrev stopped : Server
stopped = record server {
  queue = commit_msg ∷ [];
  finished_clients_count = 2;
  server_running = false;
}

stopped-Serves : Serves server stopped
unfolding handle_message handle_end memchr enqueue_message
stopped-Serves = call peer commit_msg (call peer commit_msg idle)

commit-once_example :
    ((2 < 2) × (false ≡ true) × (commits (commit_msg ∷ []) ≡ 0))
    ⊎ ((2 ≤ 2) × (false ≡ false) × (commits (commit_msg ∷ []) ≡ 1))
commit-once_example = commit-once 2 stopped (omega arith) stopped-Serves

-- Ten bytes, and a receiver that has logged nothing.
abbrev random : Bytes
random = 0 ∷ 10 ∷ 255 ∷ 1 ∷ 2 ∷ 3 ∷ 4 ∷ 5 ∷ 6 ∷ 7 ∷ []

message-arrives_example :
    (m b : Bytes) × (sender_message random ≡ some m)
    × (handle_message peer (m ++ hi) server
        ≡ (pos (length m), hi, record server { queue = [] ++ (b ∷ []) }))
    × (receive 5 (b ++ commit_msg) (received [] true)
        ≡ receive 4 commit_msg (received ([] ++ (logged peer (convert_loop random) ∷ [])) true))
message-arrives_example = message-arrives random peer server (received [] true) 4 hi commit_msg refl

abbrev chatter : Chatter
chatter = (peer, 104 ∷ 105 ∷ []) ∷ (peer, 121 ∷ 111 ∷ []) ∷ []

chatter-AreTexts : AreTexts chatter
unfolding memchr
chatter-AreTexts = ((refl, omega arith), ((refl, omega arith), tt))

-- The 30 bytes of the two messages and the commit come in one by one.
reads-IsPositive : All (λ n. 0 < n) (replicate 40 1)
reads-IsPositive = ground arith

receiver_thread-lines_example :
    receiver_thread (replicate 40 1) (messages chatter) [] (received [] true)
    ≡ ok (commit_msg, received ([] ++ lines chatter) false)
unfolding messages
receiver_thread-lines_example =
    receiver_thread-lines (replicate 40 1) chatter [] chatter-AreTexts reads-IsPositive
      (omega arith)

abbrev table : List Client
table =
    record { fd = 4; io_tid = 1 }
    ∷ record { fd = 5; io_tid = 2 }
    ∷ record { fd = 6; io_tid = 3 }
    ∷ []

abbrev is_six : Client → Bool
is_six c = c.fd == 6

worker-delivers_example :
    (w : Worked) × (broadcast_worker 3 table greeted ≡ ok w)
    × (w.server.queue ≡ [])
    × (sent_to 5 w.writes ≡ greeted.queue)
worker-delivers_example = worker-delivers 3 5 table greeted refl refl (omega arith)

worker-misses_commit_example :
    (broadcast_worker 2 table stopped ≡ ok (record { ended = true; writes = []; server = stopped }))
    × (commits stopped.queue ≡ 1)
worker-misses_commit_example =
    worker-misses_commit 1 2 table stopped (omega arith) stopped-Serves (omega arith)
