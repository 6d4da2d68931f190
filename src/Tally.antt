-- ===== src/Tally.antt =====
-- The server of lab/lab9.c/server.c: a thread for each client, which counts its messages. A call that
-- fails ends the program, so that nothing comes after it. A turn of a thread is what it does up to its
-- next look at the count.
pub mod Counts
mod Tests
use cmpt201_coursework.Prelude.{
  ℕ, ◌+◌, ◌^◌, ◌≡◌, Option, none, some, List, [], ◌∷◌, ◌++◌, ltb, leb, if◌then◌else◌, length,
  get_elem?, set, take, Run, ok, fault, ◌>>=◌,
}
use cmpt201_coursework.Text.{Text}

abbrev pub buf_size : ℕ
buf_size = 64

-- Where `handle_client` stands: before `read`, before the count, or at its end.
pub data Stage : Type 0 where
  reading : Stage
  counting : Stage
  ended : Stage

-- `struct client_info`, with its thread.
pub record Client : Type 0 where
  pub cfd : ℕ
  pub client_id : ℕ
  pub stage : Stage

-- What is printed: a message with the id of its client, or the count.
pub data Event : Type 0 where
  message : ℕ → Text → Event
  total : ℕ → Event

pub record State : Type 0 where
  pub total_message_count : ℕ
  pub client_id_counter : ℕ
  pub clients : List Client
  pub printed : List Event

-- What `read` finds: the end of the connection, or bytes.
pub data Read : Type 0 where
  closed : Read
  received : Text → Read

abbrev pub start : State
start = record { total_message_count = 0; client_id_counter = 1; clients = []; printed = [] }

-- The client and the events of a `read`. `buf[num_read]` is behind the buffer when it is full.
unfoldable pub read_turn : Read → Client → Run (Client × List Event)
read_turn closed c = ok (record c { stage = ended }, [])
read_turn (received text) c =
    let num_read = length (take buf_size text) in
    if ltb num_read 1
    then ok (record c { stage = ended }, [])
    else if ltb num_read buf_size
    then ok (record c { stage = counting }, message c.client_id (take buf_size text) ∷ [])
    else fault

-- The next part of `handle_client`. The count is an `int`.
unfoldable pub handle_client : Read → Client → ℕ → Run (Client × ℕ × List Event)
handle_client r c count = elim c.stage [
  | reading ↦ read_turn r c >>= (λ p. ok (p.0, count, p.1))
  | counting ↦
      if ltb (count + 1) (2 ^ 31)
      then ok (record c { stage = reading }, count + 1, total (count + 1) ∷ [])
      else fault
  | ended ↦ ok (c, count, [])
]

unfoldable pub client_turn : ℕ → Read → State → Run State
client_turn i r s = elim (get_elem? s.clients i) [
  | none ↦ ok s
  | some c ↦ handle_client r c s.total_message_count >>= (λ p. ok (record s {
    total_message_count = p.1;
    clients = set s.clients i p.0;
    printed = s.printed ++ p.2;
  }))
]

-- A round of the loop of `main`, with the socket of a new client. The counter is an `int`, too.
unfoldable pub accept_turn : ℕ → State → Run State
accept_turn cfd s =
    let new : Client = record { cfd = cfd; client_id = s.client_id_counter; stage = reading } in
    let counted = s.client_id_counter + 1 in
    if ltb counted (2 ^ 31)
    then ok (record s { client_id_counter = counted; clients = s.clients ++ (new ∷ []) })
    else fault

-- What the turns of the threads lead to, in any order.
pub data Goes : State → State → Type 0 where
  rest : {s : State} → Goes s s
  client_goes : (i : ℕ) (r : Read) {s t v : State} → client_turn i r s ≡ ok t → Goes t v → Goes s v
  main_goes : (cfd : ℕ) {s t v : State} → accept_turn cfd s ≡ ok t → Goes t v → Goes s v
