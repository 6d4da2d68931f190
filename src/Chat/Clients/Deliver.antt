-- ===== src/Chat/Clients/Deliver.antt =====
-- What the broadcast worker of servertest.c sends to the clients.
use cmpt201_coursework.Prelude.{
  ℕ, zero, suc, ◌≤◌, ◌<◌, ◌≡◌, refl, ap, inl, inr, Bool-cases, Bool, true, false, not, none, some,
  List, [], ◌∷◌, ◌++◌, arith, ◌==◌, if◌then◌else◌, length, ok,
}
use cmpt201_coursework.Chat.{Bytes, Server}
use cmpt201_coursework.Chat.Clients.{
  Client, dequeue_message, Write, write_all, Worked, broadcast_worker,
}
use cmpt201_coursework.Chat.Clients.Remove.{tally}
use cmpt201_coursework.Chat.Commit.{started, Serves, commits, commit-once}

-- The messages that are written to one socket, in order.
unfoldable pub sent_to : ℕ → List Write → List Bytes
sent_to fd [] = []
sent_to fd ((g, m) ∷ ws) = if g == fd then m ∷ sent_to fd ws else sent_to fd ws

abbrev pub is_at : ℕ → Client → Bool
is_at fd c = c.fd == fd

sent_to-append :
    (fd : ℕ) (xs ys : List Write) → sent_to fd (xs ++ ys) ≡ sent_to fd xs ++ sent_to fd ys
unfolding sent_to
sent_to-append fd [] ys = refl
sent_to-append fd ((g, m) ∷ xs) ys = elim (Bool-cases (g == fd)) [
  | inl e ↦ rw (e) (ap (λ l. m ∷ l) (sent_to-append fd xs ys))
  | inr e ↦ rw (e) (sent_to-append fd xs ys)
]

none-sent :
    (fd : ℕ) (m : Bytes) (cs : List Client)
    → tally (is_at fd) cs ≡ 0
    → sent_to fd (write_all m cs) ≡ []
unfolding sent_to write_all
none-sent fd m [] h = refl
none-sent fd m (c ∷ cs) h = elim (Bool-cases (c.fd == fd)) [
  | inl e ↦ ground arith
  | inr e ↦ rw (e) (none-sent fd m cs (ground arith))
]

one-sent :
    (fd : ℕ) (m : Bytes) (cs : List Client)
    → tally (is_at fd) cs ≡ 1
    → sent_to fd (write_all m cs) ≡ m ∷ []
unfolding sent_to write_all
one-sent fd m [] h = absurd (omega arith)
one-sent fd m (c ∷ cs) h = elim (Bool-cases (c.fd == fd)) [
  | inl e ↦ rw (e) (ap (λ l. m ∷ l) (none-sent fd m cs (ground arith)))
  | inr e ↦ rw (e) (one-sent fd m cs (ground arith))
]

dequeue-nil : (s : Server) → s.queue ≡ [] → dequeue_message s ≡ (none, s)
unfolding dequeue_message
dequeue-nil s q = rw (q)

dequeue-cons :
    (s : Server) (m : Bytes) (ms : List Bytes)
    → s.queue ≡ m ∷ ms
    → dequeue_message s ≡ (some m, record s { queue = ms })
unfolding dequeue_message
dequeue-cons s m ms q = rw (q)

worker-step :
    (k : ℕ) (clients : List Client) (s : Server) (m : Bytes) (ms : List Bytes) (w : Worked)
    → s.server_running ≡ true
    → s.queue ≡ m ∷ ms
    → broadcast_worker k clients (record s { queue = ms }) ≡ ok w
    → broadcast_worker (suc k) clients s
      ≡ ok (record w { writes = write_all m clients ++ w.writes })
unfolding broadcast_worker
worker-step k clients s m ms w r q h =
    let e : not s.server_running ≡ false = ground arith in
    let d = dequeue-cons s m ms q in
    let d0 : (dequeue_message s).0 ≡ some m = ap (λ t. t.0) d in
    let d1 : (dequeue_message s).1 ≡ record s { queue = ms } = ap (λ t. t.1) d in rw (d0, d1, e, h)

worker-waits :
    (k : ℕ) (clients : List Client) (s : Server)
    → s.server_running ≡ true
    → s.queue ≡ []
    → broadcast_worker (suc k) clients s ≡ ok (record { ended = false; writes = []; server = s })
unfolding broadcast_worker
worker-waits k clients s r q =
    let e : not s.server_running ≡ false = ground arith in
    let d = dequeue-nil s q in
    let d0 : (dequeue_message s).0 ≡ none = ap (λ t. t.0) d in
    let d1 : (dequeue_message s).1 ≡ s = ap (λ t. t.1) d in rw (d0, d1, e)

deliver_queue :
    (k fd : ℕ) (clients : List Client) (s : Server) (queue : List Bytes)
    → s.queue ≡ queue
    → s.server_running ≡ true
    → tally (is_at fd) clients ≡ 1
    → length queue < k
    → (w : Worked) × (broadcast_worker k clients s ≡ ok w)
      × (w.server.queue ≡ [])
      × (sent_to fd w.writes ≡ queue)
unfolding sent_to
deliver_queue zero fd clients s queue q r one fuel = absurd (omega arith)
deliver_queue (suc k) fd clients s [] q r one fuel =
    (record { ended = false; writes = []; server = s }, worker-waits k clients s r q, q, refl)
deliver_queue (suc k) fd clients s (m ∷ ms) q r one fuel =
    let (w, e, z, d) =
      deliver_queue k fd clients (record s { queue = ms }) ms refl r one (omega arith) in
    (
      record w { writes = write_all m clients ++ w.writes },
      worker-step k clients s m ms w r q e,
      z,
      rw (sent_to-append fd (write_all m clients) w.writes, one-sent fd m clients one)
          (ap (λ l. m ∷ l) d),
    )

-- While the server runs, the worker empties the queue, and a client that is in the table once gets
-- each message of the queue once, in the queue's order.
pub worker-delivers :
    (k fd : ℕ) (clients : List Client) (s : Server)
    → s.server_running ≡ true
    → tally (is_at fd) clients ≡ 1
    → length s.queue < k
    → (w : Worked) × (broadcast_worker k clients s ≡ ok w)
      × (w.server.queue ≡ [])
      × (sent_to fd w.writes ≡ s.queue)
worker-delivers k fd clients s r one fuel = deliver_queue k fd clients s s.queue refl r one fuel

-- Once all expected clients have finished, a worker that comes to the test of its loop ends without
-- a write, and the commit stays in the queue, if the worker has not taken it before.
pub worker-misses_commit :
    (k n : ℕ) (clients : List Client) (s : Server)
    → 0 < n
    → Serves (started n) s
    → s.expected_clients ≤ s.finished_clients_count
    → (broadcast_worker (suc k) clients s ≡ ok (record { ended = true; writes = []; server = s }))
      × (commits s.queue ≡ 1)
unfolding broadcast_worker
worker-misses_commit k n clients s p run all = elim (commit-once n s p run) [
  | inl h ↦ absurd (omega arith)
  | inr (h, stopped, one) ↦ (rw (stopped), one)
]
