-- ===== src/Chat/Threads/Phases.antt =====
-- The order of the two phases of the commit, over the threads of servertest.c.
use cmpt201_coursework.Prelude.{
  ℕ, ◌-◌, ◌≤◌, ◌<◌, ◌≡◌, refl, ap, sym, subst, ◌∙◌, inl, inr, ◌⊎◌, Bool-cases, Option-cases, Bool,
  length, ltb, ◌&&◌, true, false, none, some, List, [], ◌∷◌, ◌++◌, map, arith, ◌==◌, if◌then◌else◌,
  get_elem?, take, drop,
}
use cmpt201_coursework.Chat.{
  Bytes, commit_msg, broadcast, Peer, Server, enqueue_message, handle_regular, handle_end,
  handle_message,
}
use cmpt201_coursework.Chat.Clients.{Client, Write, write_all, dequeue_message}
use cmpt201_coursework.Chat.Commit.{commits, commits-append, handle-server}
use cmpt201_coursework.Chat.Threads.{
  max_clients, Stage, testing, reading, handling, leaving, ended, Thread, Read, handle_next,
  run_client_io, Acceptor, polling, accepting, accepted, stopped, Accept, no_connection,
  accept_error, connection, Worker, looking, dequeuing, sending, finished, World, begin, Main,
  waiting, joining_acceptor, joining, joining_worker, exited, is_locked, client_turn, add_client,
  acceptor_turn, worker_turn, takes_lock, main_turn, Goes, rest, client_goes, acceptor_goes,
  worker_goes, main_goes,
}

-- The message that the worker holds.
abbrev pub held : Worker → List Bytes
held looking = []
held dequeuing = []
held (sending m) = m ∷ []
held finished = []

abbrev pub messages : List Write → List Bytes
messages ws = map (λ x. x.1) ws

-- Not all expected clients have finished.
abbrev pub IsEarly : Server → Type 0
IsEarly s = s.finished_clients_count < s.expected_clients

-- Before all expected clients have finished no commit is queued, held by the worker, or written.
abbrev pub IsPhased : Server → Worker → List Write → Type 0
IsPhased s v ws =
    (IsEarly s × (commits s.queue ≡ 0) × (commits (held v) ≡ 0) × (commits (messages ws) ≡ 0))
    ⊎ (s.expected_clients ≤ s.finished_clients_count)

regular-IsPhased :
    (peer : Peer) (b : Bytes) (n : ℕ) (s : Server) (v : Worker) (ws : List Write)
    → IsPhased s v ws
    → IsPhased (handle_regular peer b n s) v ws
unfolding handle_regular enqueue_message commits
regular-IsPhased peer b n s v ws h =
    let e = commits-append s.queue (broadcast peer (take (n - 1) (drop 1 b)) ∷ []) in ground arith

end-IsPhased :
    (n : ℕ) (s : Server) (v : Worker) (ws : List Write)
    → IsPhased s v ws
    → IsPhased (handle_end n s).1 v ws
unfolding handle_end enqueue_message commits
end-IsPhased n s v ws h = let e = commits-append s.queue (commit_msg ∷ []) in ground arith

module _ (v : Worker) (ws : List Write) where
  handle-IsPhased :
      (peer : Peer) (b : Bytes) (s : Server)
      → IsPhased s v ws
      → IsPhased (handle_message peer b s).2 v ws
  handle-IsPhased peer b s h = elim (handle-server peer b s) [
    | inl (inl e) ↦ subst (λ t. IsPhased t v ws) (sym e) h
    | inl (inr (n, e)) ↦ subst (λ t. IsPhased t v ws) (sym e) (regular-IsPhased peer b n s v ws h)
    | inr (n, e) ↦ subst (λ t. IsPhased t v ws) (sym e) (end-IsPhased n s v ws h)
  ]

  handle_next-IsPhased :
      (peer : Peer) (k : Bool) (t : Thread) (s : Server)
      → IsPhased s v ws
      → IsPhased (handle_next peer k t s).1 v ws
  unfolding handle_next
  handle_next-IsPhased peer k t s h = elim (Bool-cases (length t.buffer == 0)) [
    | inl z ↦ rw (handle_next, z) h
    | inr z ↦ elim (Bool-cases (k && takes_lock t.buffer)) [
      | inl q ↦ rw (handle_next, z, q) h
      | inr q ↦ rw (handle_next, z, q) (handle-IsPhased peer t.buffer s h)
    ]
  ]

  run_client_io-IsPhased :
      (st : Stage) (peer : Peer) (r : Read) (k : Bool) (t : Thread) (s : Server) (cs : List Client)
      → t.stage ≡ st
      → IsPhased s v ws
      → IsPhased (run_client_io peer r k t s cs).1 v ws
  unfolding run_client_io
  run_client_io-IsPhased testing peer r k t s cs e h = rw (run_client_io, e) h
  run_client_io-IsPhased reading peer r k t s cs e h = rw (run_client_io, e) h
  run_client_io-IsPhased handling peer r k t s cs e h =
      rw (run_client_io, e) (handle_next-IsPhased peer k t s h)
  run_client_io-IsPhased leaving peer r true t s cs e h = rw (run_client_io, e) h
  run_client_io-IsPhased leaving peer r false t s cs e h = rw (run_client_io, e) h
  run_client_io-IsPhased ended peer r k t s cs e h = rw (run_client_io, e) h

abbrev pub PhasedIn : World → Type 0
PhasedIn w = IsPhased w.server w.worker w.writes

client-PhasedIn :
    (i : ℕ) (peer : Peer) (r : Read) (w : World) → PhasedIn w → PhasedIn (client_turn i peer r w)
unfolding client_turn
client-PhasedIn i peer r w h = elim (Option-cases (get_elem? w.threads i)) [
  | inl e ↦ rw (client_turn, e) h
  | inr (t, e) ↦
      rw (client_turn, e)
        (run_client_io-IsPhased w.worker w.writes t.stage peer r (is_locked w.main) t w.server
          w.clients refl h)
]

add_client-PhasedIn :
    (fd : ℕ) (created : Bool) (w : World) → PhasedIn w → PhasedIn (add_client fd created w)
unfolding add_client
add_client-PhasedIn fd created w h =
    elim (Bool-cases (ltb (length w.clients) max_clients && created)) [
      | inl e ↦ rw (add_client, e) h
      | inr e ↦ rw (add_client, e) h
    ]

acceptor-PhasedIn :
    (x : Acceptor) (a : Accept) (created : Bool) (w : World)
    → w.acceptor ≡ x
    → PhasedIn w
    → PhasedIn (acceptor_turn a created w)
unfolding acceptor_turn
acceptor-PhasedIn polling a created w e h = rw (acceptor_turn, e) h
acceptor-PhasedIn accepting no_connection created w e h = rw (acceptor_turn, e) h
acceptor-PhasedIn accepting accept_error created w e h = rw (acceptor_turn, e) h
acceptor-PhasedIn accepting (connection fd) created w e h = rw (acceptor_turn, e) h
acceptor-PhasedIn (accepted fd) a created w e h = elim (Bool-cases (is_locked w.main)) [
  | inl l ↦ rw (acceptor_turn, e, l) h
  | inr l ↦ rw (acceptor_turn, e, l) (add_client-PhasedIn fd created w h)
]
acceptor-PhasedIn stopped a created w e h = rw (acceptor_turn, e) h

write_all-commits :
    (m : Bytes) (cs : List Client) → commits (m ∷ []) ≡ 0 → commits (messages (write_all m cs)) ≡ 0
unfolding commits write_all
write_all-commits m [] h = refl
write_all-commits m (c ∷ cs) h = omega (arith, write_all-commits m cs h)

sent-commits :
    (ws : List Write) (m : Bytes) (cs : List Client)
    → commits (messages ws) ≡ 0
    → commits (m ∷ []) ≡ 0
    → commits (messages (ws ++ write_all m cs)) ≡ 0
unfolding commits
sent-commits [] m cs h h' = write_all-commits m cs h'
sent-commits (x ∷ ws) m cs h h' = ground (arith, sent-commits ws m cs)

idle-IsPhased :
    (s : Server) (v v' : Worker) (ws : List Write)
    → held v' ≡ []
    → IsPhased s v ws
    → IsPhased s v' ws
unfolding commits
idle-IsPhased s v v' ws e h = elim h [
  | inl (a, b, c, d) ↦ inl (a, b, ap commits e, d)
  | inr l ↦ inr l
]

tested-held : (b : Bool) → held (if b then dequeuing else finished) ≡ []
tested-held true = refl
tested-held false = refl

taken-IsPhased :
    (s : Server) (v : Worker) (ws : List Write) (m : Bytes) (ms : List Bytes)
    → s.queue ≡ m ∷ ms
    → IsPhased s v ws
    → IsPhased (record s { queue = ms }) (sending m) ws
unfolding commits
taken-IsPhased s v ws m ms e h = elim h [
  | inl (a, b, c, d) ↦
      let b' : commits (m ∷ ms) ≡ 0 = ap commits (sym e) ∙ b in inl (a, omega arith, omega arith, d)
  | inr l ↦ inr l
]

sent-IsPhased :
    (s : Server) (ws : List Write) (m : Bytes) (cs : List Client)
    → IsPhased s (sending m) ws
    → IsPhased s looking (ws ++ write_all m cs)
unfolding commits
sent-IsPhased s ws m cs h = elim h [
  | inl (a, b, c, d) ↦ inl (a, b, refl, sent-commits ws m cs d c)
  | inr l ↦ inr l
]

taken-PhasedIn :
    (q : List Bytes) (w : World)
    → w.server.queue ≡ q
    → w.worker ≡ dequeuing
    → PhasedIn w
    → PhasedIn (worker_turn w)
unfolding worker_turn dequeue_message
taken-PhasedIn [] w e e' h =
    let d : (dequeue_message w.server).0 ≡ none = rw (dequeue_message, e) in
    rw (worker_turn, e', d)
      (idle-IsPhased w.server w.worker _ w.writes (tested-held w.server.server_running) h)
taken-PhasedIn (m ∷ ms) w e e' h =
    let d : dequeue_message w.server ≡ (some m, record w.server { queue = ms }) =
      rw (dequeue_message, e) in
    let taken : (dequeue_message w.server).0 ≡ some m = ap (λ z. z.0) d in
    let left : (dequeue_message w.server).1 ≡ record w.server { queue = ms } = ap (λ z. z.1) d in
    rw (worker_turn, e', taken, left) (taken-IsPhased w.server w.worker w.writes m ms e h)

worker-PhasedIn : (x : Worker) (w : World) → w.worker ≡ x → PhasedIn w → PhasedIn (worker_turn w)
unfolding worker_turn
worker-PhasedIn looking w e h =
    rw (worker_turn, e)
      (idle-IsPhased w.server w.worker _ w.writes (tested-held w.server.server_running) h)
worker-PhasedIn dequeuing w e h = taken-PhasedIn w.server.queue w refl e h
worker-PhasedIn (sending m) w e h = elim (Bool-cases (is_locked w.main)) [
  | inl l ↦ rw (worker_turn, e, l) h
  | inr l ↦
      rw (worker_turn, e, l)
        (sent-IsPhased w.server w.writes m w.clients
          (subst (λ v. IsPhased w.server v w.writes) e h))
]
worker-PhasedIn finished w e h = rw (worker_turn, e) h

if-PhasedIn : (b : Bool) (w v : World) → PhasedIn w → PhasedIn v → PhasedIn (if b then w else v)
if-PhasedIn true w v h h' = h
if-PhasedIn false w v h h' = h'

main-PhasedIn : (x : Main) (w : World) → w.main ≡ x → PhasedIn w → PhasedIn (main_turn w)
unfolding main_turn
main-PhasedIn waiting w e h = rw (main_turn, e) (if-PhasedIn _ w _ h h)
main-PhasedIn joining_acceptor w e h = rw (main_turn, e) (if-PhasedIn _ _ w h h)
main-PhasedIn (joining k) w e h = elim (Option-cases (get_elem? w.clients k)) [
  | inl g ↦ rw (main_turn, e, g) h
  | inr (c, g) ↦ rw (main_turn, e, g) (if-PhasedIn _ _ w h h)
]
main-PhasedIn joining_worker w e h = rw (main_turn, e) (if-PhasedIn _ _ w h h)
main-PhasedIn exited w e h = rw (main_turn, e) h

Goes-PhasedIn : {w v : World} → Goes w v → PhasedIn w → PhasedIn v
Goes-PhasedIn rest h = h
Goes-PhasedIn (client_goes i peer r {w} p) h = Goes-PhasedIn p (client-PhasedIn i peer r w h)
Goes-PhasedIn (acceptor_goes a created {w} p) h =
    Goes-PhasedIn p (acceptor-PhasedIn w.acceptor a created w refl h)
Goes-PhasedIn (worker_goes {w} p) h = Goes-PhasedIn p (worker-PhasedIn w.worker w refl h)
Goes-PhasedIn (main_goes {w} p) h = Goes-PhasedIn p (main-PhasedIn w.main w refl h)

-- However the threads take their turns, as long as not all expected clients have finished, no commit is
-- queued, and none has been written to a client.
pub commit-after :
    (n : ℕ) (w : World)
    → Goes (begin n) w
    → w.server.finished_clients_count < w.server.expected_clients
    → (commits w.server.queue ≡ 0) × (commits (messages w.writes) ≡ 0)
unfolding commits
commit-after n w p early =
    let start : PhasedIn (begin n) = ground arith in
    elim (Goes-PhasedIn p start) [ inl (a, b, c, d) ↦ (b, d) | inr l ↦ absurd (omega arith) ]
