-- ===== src/Chat/Threads/Exit.antt =====
-- How servertest.c comes to its exit.
use cmpt201_coursework.Prelude.{
  ℕ, zero, suc, ◌+◌, ◌≤◌, ◌<◌, ◌≡◌, ◌≢◌, refl, ap, sym, subst, ◌∙◌, inl, inr, ◌⊎◌, Bool-cases, true,
  false, none, some, List, [], ◌∷◌, ◌++◌, arith, ltb, ◌==◌, if◌then◌else◌, length, get_elem?,
  some_at, no_such, index_lt, All, All-get_elem?,
}
use cmpt201_coursework.Chat.{Bytes}
use cmpt201_coursework.Chat.Clients.{write_all, dequeue_message}
use cmpt201_coursework.Chat.Threads.{
  max_clients, ended, Thread, Acceptor, polling, accepting, accepted, stopped, Accept,
  no_connection, Worker, looking, dequeuing, sending, finished, World, begin, Main, waiting,
  joining_acceptor, joining, joining_worker, exited, is_locked, is_stopped, is_finished, add_client,
  acceptor_turn, worker_turn, has_ended, main_turn, Goes, rest, client_goes, acceptor_goes,
  worker_goes, main_goes,
}
use cmpt201_coursework.Chat.Threads.Bounds.{Goes-IsSound, begin-IsSound}
use cmpt201_coursework.Chat.Threads.Turns.{Has}
use cmpt201_coursework.Chat.Threads.Ends.{IsOff, client-EndsAt}

Goes-trans : {u v w : World} → Goes u v → Goes v w → Goes u w
Goes-trans rest q = q
Goes-trans (client_goes i peer r p) q = client_goes i peer r (Goes-trans p q)
Goes-trans (acceptor_goes a created p) q = acceptor_goes a created (Goes-trans p q)
Goes-trans (worker_goes p) q = worker_goes (Goes-trans p q)
Goes-trans (main_goes p) q = main_goes (Goes-trans p q)

by_acceptor : (a : Accept) (w u v : World) → acceptor_turn a true w ≡ u → Goes u v → Goes w v
by_acceptor a w u v e p = acceptor_goes a true (subst (λ z. Goes z v) (sym e) p)

by_worker : (w u v : World) → worker_turn w ≡ u → Goes u v → Goes w v
by_worker w u v e p = worker_goes (subst (λ z. Goes z v) (sym e) p)

by_main : (w u v : World) → main_turn w ≡ u → Goes u v → Goes w v
by_main w u v e p = main_goes (subst (λ z. Goes z v) (sym e) p)

-- Turns of the acceptor bring it to its end.
abbrev Stops : World → Type 0
Stops w = (v : World) × Goes w v × (v.main ≡ w.main) × IsOff v.server × (v.acceptor ≡ stopped)

polling-Stops : (w : World) → w.acceptor ≡ polling → IsOff w.server → Stops w
unfolding acceptor_turn
polling-Stops w e off =
    let v : World = record w { acceptor = stopped } in
    let turn : acceptor_turn no_connection true w ≡ v =
      rw (acceptor_turn, e)
        (ap (λ b. record w { acceptor = if b then accepting else stopped }) off) in
    (v, by_acceptor no_connection w v v turn rest, refl, off, refl)

add_client_same :
    (fd : ℕ) (w : World)
    → let v = add_client fd true w in
      (v.main ≡ w.main) × (v.server ≡ w.server) × (v.acceptor ≡ polling)
unfolding add_client
add_client_same fd w = elim (Bool-cases (ltb (length w.clients) max_clients)) [
  | inl e ↦ rw (add_client, e) (refl, refl, refl)
  | inr e ↦ rw (add_client, e) (refl, refl, refl)
]

acceptor-Stops :
    (x : Acceptor) (w : World)
    → w.acceptor ≡ x
    → IsOff w.server
    → is_locked w.main ≡ false
    → Stops w
unfolding acceptor_turn add_client
acceptor-Stops polling w e off lk = polling-Stops w e off
acceptor-Stops accepting w e off lk =
    let u : World = record w { acceptor = polling } in
    let (v, p, m, o, s) = polling-Stops u refl off in
    (v, by_acceptor no_connection w u v (rw (acceptor_turn, e)) p, m, o, s)
acceptor-Stops (accepted fd) w e off lk =
    let (a, b, c) = add_client_same fd w in
    let (v, p, m, o, s) =
      polling-Stops (add_client fd true w) c (ap (λ z. z.server_running) b ∙ off) in
    (
      v,
      by_acceptor no_connection w (add_client fd true w) v (rw (acceptor_turn, e, lk)) p,
      m ∙ a,
      o,
      s,
    )
acceptor-Stops stopped w e off lk = (w, rest, refl, off, e)

-- Turns of the worker bring it to its end.
abbrev Finishes : World → Type 0
Finishes w =
    (v : World) × Goes w v
    × (v.main ≡ w.main)
    × (v.acceptor ≡ w.acceptor)
    × IsOff v.server
    × (v.worker ≡ finished)

looking-Finishes : (w : World) → w.worker ≡ looking → IsOff w.server → Finishes w
unfolding worker_turn
looking-Finishes w e off =
    let v : World = record w { worker = finished } in
    let turn : worker_turn w ≡ v =
      rw (worker_turn, e) (ap (λ b. record w { worker = if b then dequeuing else finished }) off) in
    (v, by_worker w v v turn rest, refl, refl, off, refl)

sending-Finishes :
    (m : Bytes) (w : World)
    → w.worker ≡ sending m
    → IsOff w.server
    → is_locked w.main ≡ false
    → Finishes w
unfolding worker_turn
sending-Finishes m w e off lk =
    let u : World = record w { writes = w.writes ++ write_all m w.clients; worker = looking } in
    let (v, p, a, b, o, f) = looking-Finishes u refl off in
    (v, by_worker w u v (rw (worker_turn, e, lk)) p, a, b, o, f)

dequeuing-Finishes :
    (q : List Bytes) (w : World)
    → w.server.queue ≡ q
    → w.worker ≡ dequeuing
    → IsOff w.server
    → is_locked w.main ≡ false
    → Finishes w
unfolding worker_turn dequeue_message
dequeuing-Finishes [] w q e off lk =
    let v : World = record w { worker = finished } in
    let d : (dequeue_message w.server).0 ≡ none = rw (dequeue_message, q) in
    let turn : worker_turn w ≡ v =
      rw (worker_turn, e, d)
        (ap (λ b. record w { worker = if b then dequeuing else finished }) off) in
    (v, by_worker w v v turn rest, refl, refl, off, refl)
dequeuing-Finishes (m ∷ ms) w q e off lk =
    let d : dequeue_message w.server ≡ (some m, record w.server { queue = ms }) =
      rw (dequeue_message, q) in
    let taken : (dequeue_message w.server).0 ≡ some m = ap (λ z. z.0) d in
    let left : (dequeue_message w.server).1 ≡ record w.server { queue = ms } = ap (λ z. z.1) d in
    let u : World = record w { server = record w.server { queue = ms }; worker = sending m } in
    let (v, p, a, b, o, f) = sending-Finishes m u refl off lk in
    (v, by_worker w u v (rw (worker_turn, e, taken, left)) p, a, b, o, f)

worker-Finishes :
    (x : Worker) (w : World) → w.worker ≡ x → IsOff w.server → is_locked w.main ≡ false → Finishes w
worker-Finishes looking w e off lk = looking-Finishes w e off
worker-Finishes dequeuing w e off lk = dequeuing-Finishes w.server.queue w refl e off lk
worker-Finishes (sending m) w e off lk = sending-Finishes m w e off lk
worker-Finishes finished w e off lk = (w, rest, refl, refl, off, e)

has_ended-true :
    (i : ℕ) (t : Thread) (ts : List Thread)
    → get_elem? ts i ≡ some t
    → t.stage ≡ ended
    → has_ended i ts ≡ true
unfolding has_ended
has_ended-true i t ts e q = rw (has_ended, e, q)

has_ended_same :
    (i : ℕ) (ts us : List Thread)
    → get_elem? ts i ≡ get_elem? us i
    → has_ended i us ≡ true
    → has_ended i ts ≡ true
unfolding has_ended
has_ended_same i ts us e h = rw (has_ended, e) h

-- Turns of the threads of the clients bring the first `k` of them to their ends.
abbrev Ends : ℕ → World → Type 0
Ends k w =
    (v : World) × Goes w v
    × (v.main ≡ w.main)
    × (v.acceptor ≡ w.acceptor)
    × (v.worker ≡ w.worker)
    × IsOff v.server
    × (length v.threads ≡ length w.threads)
    × ((i : ℕ) → i < k → has_ended i v.threads ≡ true)

threads-Ends :
    (k : ℕ) (w : World)
    → k ≤ length w.threads
    → IsOff w.server
    → is_locked w.main ≡ false
    → Ends k w
threads-Ends zero w l off lk = (w, rest, refl, refl, refl, off, refl, λ i h. absurd (omega arith))
threads-Ends (suc k) w l off lk =
    let (v, p, a, b, c, o, n, f) = threads-Ends k w (omega arith) off lk in
    let (t, e) = some_at k v.threads (omega arith) in
    let x = client-EndsAt k v t e o (ap is_locked a ∙ lk) in
    (
      x.last,
      Goes-trans p x.goes,
      x.main ∙ a,
      x.acceptor ∙ b,
      x.worker ∙ c,
      x.off,
      x.size ∙ n,
      λ i h. elim (Bool-cases (i == k)) [
        | inl q ↦
            let j : i ≡ k = ground arith in
            subst (λ m. has_ended m x.last.threads ≡ true) (sym j)
              (has_ended-true k x.thread x.last.threads x.at x.over)
        | inr q ↦
            let d : k ≢ i = ground arith in
            has_ended_same i x.last.threads v.threads (x.others i d) (f i (ground arith))
      ],
    )

-- `main` joins the threads that are left, and the worker, and exits.
joining-exits :
    (j k : ℕ) (w : World)
    → k + j ≡ length w.clients
    → w.main ≡ joining k
    → w.worker ≡ finished
    → All (Has w.threads) w.clients
    → ((i : ℕ) → i < length w.threads → has_ended i w.threads ≡ true)
    → (v : World) × Goes w v × (v.main ≡ exited)
unfolding main_turn
joining-exits zero k w l m f h d =
    let g : get_elem? w.clients k ≡ none = no_such k w.clients (omega arith) in
    let u : World = record w { clients = []; main = joining_worker } in
    let v : World = record u { main = exited } in
    (
      v,
      by_main w u v (rw (main_turn, m, g))
          (by_main u v v (ap (λ x. if is_finished x then v else u) f) rest),
      refl,
    )
joining-exits (suc j) k w l m f h d =
    let (c, g) = some_at k w.clients (omega arith) in
    let (t, e, q) = All-get_elem? (Has w.threads) k c w.clients h g in
    let over = d c.io_tid (index_lt c.io_tid t w.threads e) in
    let u : World = record w { main = joining (k + 1) } in
    let (v, p, x) = joining-exits j (k + 1) u (omega arith) refl f h d in
    (v, by_main w u v (rw (main_turn, m, g, over)) p, x)

joined-exits :
    (w : World)
    → w.main ≡ joining_acceptor
    → w.acceptor ≡ stopped
    → w.worker ≡ finished
    → All (Has w.threads) w.clients
    → ((i : ℕ) → i < length w.threads → has_ended i w.threads ≡ true)
    → (v : World) × Goes w v × (v.main ≡ exited)
unfolding main_turn
joined-exits w m s f h d =
    let u : World = record w { main = joining 0 } in
    let (v, p, x) = joining-exits (length w.clients) 0 u (omega arith) refl f h d in
    (v, by_main w u v (rw (main_turn, m) (ap (λ a. if is_stopped a then u else w) s)) p, x)

main-exits :
    (w : World)
    → (w.main ≡ waiting) ⊎ (w.main ≡ joining_acceptor)
    → IsOff w.server
    → w.acceptor ≡ stopped
    → w.worker ≡ finished
    → All (Has w.threads) w.clients
    → ((i : ℕ) → i < length w.threads → has_ended i w.threads ≡ true)
    → (v : World) × Goes w v × (v.main ≡ exited)
unfolding main_turn
main-exits w m off s f h d = elim m [
  | inl e ↦
      let u : World = record w { main = joining_acceptor } in
      let (v, p, x) = joined-exits u refl s f h d in
      (v, by_main w u v (rw (main_turn, e) (ap (λ b. if b then w else u) off)) p, x)
  | inr e ↦ joined-exits w e s f h d
]

unlocked : (m : Main) → (m ≡ waiting) ⊎ (m ≡ joining_acceptor) → is_locked m ≡ false
unlocked m h = elim h [ inl e ↦ ap is_locked e | inr e ↦ ap is_locked e ]

-- From every state that a run of the server reaches, once it is stopped and as long as
-- `cleanup_and_exit` does not yet hold the lock of the table, there are turns after which it exits.
pub server-exits :
    (n : ℕ) (w : World)
    → Goes (begin n) w
    → IsOff w.server
    → (w.main ≡ waiting) ⊎ (w.main ≡ joining_acceptor)
    → (v : World) × Goes w v × (v.main ≡ exited)
server-exits n w p off m =
    let lk = unlocked w.main m in
    let (v, q, a, o, s) = acceptor-Stops w.acceptor w refl off lk in
    let (u, q', b, c, o', f) = worker-Finishes v.worker v refl o (ap is_locked a ∙ lk) in
    let (x, q'', d, e, g, o'', l, over) =
      threads-Ends (length u.threads) u (omega arith) o' (ap is_locked (b ∙ a) ∙ lk) in
    let go = Goes-trans q (Goes-trans q' q'') in
    let h = Goes-IsSound (Goes-trans p go) (begin-IsSound n) in
    let (y, r, z) =
      main-exits x (subst (λ k. (k ≡ waiting) ⊎ (k ≡ joining_acceptor)) (sym (d ∙ (b ∙ a))) m) o''
        (e ∙ (c ∙ s)) (g ∙ f) h.known (λ i t. over i (omega arith)) in
    (y, Goes-trans go r, z)
