-- ===== src/Collect.antt =====
-- The server of lab/server.c: its threads put messages in a list, and `main` collects them. A turn
-- of a thread is one round of its loop, and a run is a sequence of turns in any order; the list is
-- changed under a lock, so that an addition is one step. Sockets are not modelled, and an error of
-- `accept`, which ends the process, is not a turn.
pub mod Chain
pub mod Turns
pub mod Ends
mod Tests
use cmpt201_coursework.Prelude.{
  ℕ, zero, suc, ◌+◌, ◌*◌, ◌%◌, ◌^◌, Bool, true, false, not, ◌&&◌, Option, none, some, List, [], ◌∷◌,
  ◌++◌, ltb, leb, ◌==◌, if◌then◌else◌, length, get_elem?, set, take, drop, replicate, Run, ok,
  fault, out_of_fuel, ◌>>=◌,
}
use cmpt201_coursework.Text.{Text}

abbrev pub buf_size : ℕ
buf_size = 1024

abbrev pub max_clients : ℕ
max_clients = 4

abbrev pub num_msg_per_client : ℕ
num_msg_per_client = 5

abbrev pub null : ℕ
null = 0

-- `struct list_node` at each address.
pub record Nodes : Type 0 where
  pub next : ℕ → ℕ
  pub data_of : ℕ → Text

-- `struct list_handle`, with the nodes.
pub record Handle : Type 0 where
  pub nodes : Nodes
  pub last : ℕ
  pub count : ℕ

abbrev pub set_next : Nodes → ℕ → ℕ → Nodes
set_next m p q = record m { next = λ a. if a == p then q else m.next a }

-- `malloc` gives the address; `next` is set to `NULL`, and `data` to a copy of the message.
abbrev pub new_node : Nodes → ℕ → Text → Nodes
new_node m p msg = record (set_next m p null) { data_of = λ a. if a == p then msg else m.data_of a }

-- The `uint32_t` count wraps around.
unfoldable pub add_to_list : ℕ → Handle → Handle
add_to_list new h =
    let linked = set_next h.nodes h.last new in
    record { nodes = linked; last = linked.next h.last; count = (h.count + 1) % 2 ^ 32 }

-- The string that `printf` takes from a buffer with `%s`: the bytes before the first NUL. Without a
-- NUL it reads on behind the buffer, which is undefined.
unfoldable pub c_string : Text → Run Text
c_string [] = fault
c_string (b ∷ buf) = let rest = c_string buf in if b == 0 then ok [] else rest >>= λ s. ok (b ∷ s)

-- The loop of `collect_all` from a node on, on fuel: the strings that it prints.
unfoldable pub collect_loop : ℕ → Nodes → ℕ → Run (List Text)
collect_loop zero m p = out_of_fuel
collect_loop (suc k) m p =
    let rest = collect_loop k m (m.next p) in
    if p == null then ok [] else c_string (m.data_of p) >>= λ msg. rest >>= λ msgs. ok (msg ∷ msgs)

unfoldable pub collect_all : ℕ → Nodes → ℕ → Run (List Text)
collect_all k m head = collect_loop k m (m.next head)

-- What `read` gives: nothing yet, an error, the end of the stream, or bytes.
pub data Read : Type 0 where
  again failed closed : Read
  bytes : Text → Read

-- `struct client_args` with the thread's buffer, and whether the thread is still in its loop.
pub record Client : Type 0 where
  pub run : Bool
  pub in_loop : Bool
  pub msg_buf : Text

-- A round of the loop of `run_client`, and the message that it adds: the whole buffer.
unfoldable pub client_round : Read → Client → Client × Option Text
client_round r c =
    if not c.in_loop
    then (c, none)
    else if not c.run
    then (record c { in_loop = false }, none)
    else elim r [
      | again ↦ (c, none)
      | failed ↦ (record c { in_loop = false }, none)
      | closed ↦ (c, none)
      | bytes read ↦
          let got = take buf_size read in
          let msg_buf = got ++ drop (length got) c.msg_buf in
          if length got == 0 then (c, none) else (record c { msg_buf = msg_buf }, some msg_buf)
    ]

-- The list; the clients, and the acceptor's index in its loop that joins them; whether the acceptor
-- is in its first loop, its flag `run`; and whether `main` is in its loop.
pub record State : Type 0 where
  pub handle : Handle
  pub clients : List Client
  pub joined : ℕ
  pub accepting : Bool
  pub run : Bool
  pub waiting : Bool

-- A turn of the thread of client `i`, where `malloc` would give the address `new`.
unfoldable pub client_turn : ℕ → Read → ℕ → State → State
client_turn i r new s = elim (get_elem? s.clients i) [
  | none ↦ s
  | some c ↦
      let (c', message) = client_round r c in
      let s' = record s { clients = set s.clients i c' } in
      elim message [
        | none ↦ s'
        | some msg ↦
            let made = record s.handle { nodes = new_node s.handle.nodes new msg } in
            record s' { handle = add_to_list new made }
      ]
]

-- A round of the first loop of `run_acceptor`; the `bool` is whether `accept` gives a client. The
-- buffer of a new thread holds what its stack does.
unfoldable pub acceptor_round : Bool → Text → State → State
acceptor_round connected stack s =
    let new : Client = record { run = true; in_loop = true; msg_buf = stack } in
    if not s.accepting
    then s
    else if not s.run
    then record s { accepting = false }
    else if ltb (length s.clients) max_clients && connected
    then record s { clients = s.clients ++ (new ∷ []) }
    else s

-- A turn in the second loop: a client's flag is cleared, and then its thread is joined.
unfoldable pub acceptor_join : State → State
acceptor_join s = if s.accepting then s else elim (get_elem? s.clients s.joined) [
  | none ↦ s
  | some c ↦
      if c.run
      then record s { clients = set s.clients s.joined (record c { run = false }) }
      else if c.in_loop
      then s
      else record s { joined = s.joined + 1 }
]

-- A round of the loop of `main`.
unfoldable pub main_round : State → State
main_round s =
    if s.waiting && leb (max_clients * num_msg_per_client) s.handle.count
    then record s { waiting = false; run = false }
    else s

-- The threads have ended, and `main` has left `pthread_join`.
abbrev pub has_joined : State → Bool
has_joined s = not s.waiting && not s.accepting && (s.joined == length s.clients)

-- The rest of `main`: what it returns, and the strings that it prints.
unfoldable pub finish : ℕ → (head : ℕ) → State → Run (ℕ × List Text)
finish k head s =
    if not (s.handle.count == max_clients * num_msg_per_client)
    then ok (1, [])
    else collect_all k s.handle.nodes head >>= λ msgs.
        ok (if not (length msgs == s.handle.count) then 1 else 0, msgs)

-- The state in which the threads begin, with the head of the list at an address, and whatever the
-- other addresses hold.
abbrev pub initial : ℕ → Nodes → State
initial head m = record {
  handle = record { nodes = set_next m head null; last = head; count = 0 };
  clients = [];
  joined = 0;
  accepting = true;
  run = true;
  waiting = true;
}
