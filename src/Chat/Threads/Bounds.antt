-- ===== src/Chat/Threads/Bounds.antt =====
-- Invariants of the threads of servertest.c.
use cmpt201_coursework.Prelude.{
  ℕ, ◌≤◌, ◌≡◌, ◌≢◌, refl, subst, inl, inr, Bool-cases, Option-cases, Bool, true, false, ◌&&◌, [],
  ◌∷◌, ◌++◌, arith, ltb, if◌then◌else◌, length, length-append, get_elem?, get_elem?-append_self,
  set, All, All-set, All-append, All-get_elem?, All_mono,
}
use cmpt201_coursework.Chat.{Peer}
use cmpt201_coursework.Chat.Clients.{Client, dequeue_message}
use cmpt201_coursework.Chat.Threads.{
  max_clients, testing, Thread, Read, run_client_io, Acceptor, polling, accepting, accepted,
  stopped, Accept, no_connection, accept_error, connection, Worker, looking, dequeuing, sending,
  finished, World, begin, Main, waiting, joining_acceptor, joining, joining_worker, exited,
  is_locked, client_turn, add_client, acceptor_turn, worker_turn, has_ended, is_stopped,
  is_finished, main_turn, Goes, rest, client_goes, acceptor_goes, worker_goes, main_goes,
}
use cmpt201_coursework.Chat.Threads.Turns.{
  Fits, Has, All-remove_client, remove_client-le, run_client_io-Fits, run_client_io_clients,
  Has-set, Has-append,
}

-- What `main` has waited for when it stands behind a join.
abbrev pub IsOrdered : Main → Acceptor → Worker → Type 0
IsOrdered waiting a v = Unit
IsOrdered joining_acceptor a v = Unit
IsOrdered (joining k) a v = a ≡ stopped
IsOrdered joining_worker a v = a ≡ stopped
IsOrdered exited a v = (a ≡ stopped) × (v ≡ finished)

pub record IsSound (w : World) : Type 0 where
  pub few : length w.clients ≤ max_clients
  pub fit : All Fits w.threads
  pub known : All (Has w.threads) w.clients
  pub ordered : IsOrdered w.main w.acceptor w.worker

-- The acceptor, the worker and `main` go on.
IsSound-same :
    (w v : World)
    → IsSound w
    → v.clients ≡ w.clients
    → v.threads ≡ w.threads
    → IsOrdered v.main v.acceptor v.worker
    → IsSound v
IsSound-same w v h c t o = record {
  few = rw (c) h.few;
  fit = rw (t) h.fit;
  known = rw (c, t) h.known;
  ordered = o;
}

if-IsSound : (b : Bool) (w v : World) → IsSound w → IsSound v → IsSound (if b then w else v)
if-IsSound true w v h h' = h
if-IsSound false w v h h' = h'

client-IsSound :
    (i : ℕ) (peer : Peer) (r : Read) (w : World) → IsSound w → IsSound (client_turn i peer r w)
unfolding client_turn
client-IsSound i peer r w h = elim (Option-cases (get_elem? w.threads i)) [
  | inl e ↦ rw (client_turn, e) h
  | inr (t, e) ↦
      let k = is_locked w.main in
      let out = run_client_io peer r k t w.server w.clients in
      let (f, same) =
        run_client_io-Fits t.stage peer r k t w.server w.clients refl
          (All-get_elem? Fits i t w.threads h.fit e) in
      let known' =
        All_mono (Has w.threads) (Has (set w.threads i out.0)) w.clients
          (λ c p. Has-set w.threads i t out.0 c e same p) h.known in
      let fit' = All-set Fits w.threads i out.0 h.fit f in
      elim (run_client_io_clients t.stage peer r k t w.server w.clients refl) [
        | inl q ↦
            rw (client_turn, e)
              (record {
                few = rw (q) h.few;
                fit = fit';
                known = rw (q) known';
                ordered = h.ordered;
              })
        | inr q ↦
            rw (client_turn, e)
              (record {
                few = rw (q) (omega (arith, h.few, remove_client-le t.client_fd w.clients));
                fit = fit';
                known =
                    rw (q) (
                      All-remove_client (Has (set w.threads i out.0)) t.client_fd w.clients known');
                ordered = h.ordered;
              })
      ]
]

-- An acceptor that is not at its end has not been joined.
acceptor-IsOrdered :
    (m : Main) (a a' : Acceptor) (v : Worker) → a ≢ stopped → IsOrdered m a v → IsOrdered m a' v
acceptor-IsOrdered waiting a a' v n o = tt
acceptor-IsOrdered joining_acceptor a a' v n o = tt
acceptor-IsOrdered (joining k) a a' v n o = absurd (n o)
acceptor-IsOrdered joining_worker a a' v n o = absurd (n o)
acceptor-IsOrdered exited a a' v n o = absurd (n o.0)

worker-IsOrdered :
    (m : Main) (a : Acceptor) (v v' : Worker) → v ≢ finished → IsOrdered m a v → IsOrdered m a v'
worker-IsOrdered waiting a v v' n o = tt
worker-IsOrdered joining_acceptor a v v' n o = tt
worker-IsOrdered (joining k) a v v' n o = o
worker-IsOrdered joining_worker a v v' n o = o
worker-IsOrdered exited a v v' n o = absurd (n o.1)

add_client-IsSound :
    (fd : ℕ) (created : Bool) (w : World)
    → IsOrdered w.main polling w.worker
    → IsSound w
    → IsSound (add_client fd created w)
unfolding add_client
add_client-IsSound fd created w o h =
    elim (Bool-cases (ltb (length w.clients) max_clients && created)) [
      | inl e ↦
          let new : Client = record { fd = fd; io_tid = length w.threads } in
          let thread : Thread = record { client_fd = fd; stage = testing; buffer = [] } in
          let n = length-append w.clients (new ∷ []) in
          rw (add_client, e)
            (record {
              few = ground arith;
              fit = All-append Fits w.threads (thread ∷ []) h.fit (omega arith, tt);
              known =
                  All-append (Has (w.threads ++ (thread ∷ []))) w.clients (new ∷ [])
                    (All_mono (Has w.threads) (Has (w.threads ++ (thread ∷ []))) w.clients
                      (λ c p. Has-append w.threads thread c p) h.known)
                    ((thread, get_elem?-append_self w.threads thread [], refl), tt);
              ordered = o;
            })
      | inr e ↦ rw (add_client, e) (IsSound-same w _ h refl refl o)
    ]

acceptor_at-IsSound :
    (x : Acceptor) (a : Accept) (created : Bool) (w : World)
    → w.acceptor ≡ x
    → IsSound w
    → IsSound (acceptor_turn a created w)
unfolding acceptor_turn
acceptor_at-IsSound polling a created w e h =
    let n : w.acceptor ≢ stopped = λ q. cc in
    rw (acceptor_turn, e)
      (IsSound-same w _ h refl refl (acceptor-IsOrdered w.main w.acceptor _ w.worker n h.ordered))
acceptor_at-IsSound accepting no_connection created w e h =
    let n : w.acceptor ≢ stopped = λ q. cc in
    rw (acceptor_turn, e)
      (IsSound-same w _ h refl refl (acceptor-IsOrdered w.main w.acceptor _ w.worker n h.ordered))
acceptor_at-IsSound accepting accept_error created w e h =
    let n : w.acceptor ≢ stopped = λ q. cc in
    rw (acceptor_turn, e)
      (IsSound-same w _ h refl refl (acceptor-IsOrdered w.main w.acceptor _ w.worker n h.ordered))
acceptor_at-IsSound accepting (connection fd) created w e h =
    let n : w.acceptor ≢ stopped = λ q. cc in
    rw (acceptor_turn, e)
      (IsSound-same w _ h refl refl (acceptor-IsOrdered w.main w.acceptor _ w.worker n h.ordered))
acceptor_at-IsSound (accepted fd) a created w e h =
    let n : w.acceptor ≢ stopped = λ q. cc in
    elim (Bool-cases (is_locked w.main)) [
      | inl l ↦ rw (acceptor_turn, e, l) h
      | inr l ↦
          rw (acceptor_turn, e, l)
            (add_client-IsSound fd created w
              (acceptor-IsOrdered w.main w.acceptor polling w.worker n h.ordered) h)
    ]
acceptor_at-IsSound stopped a created w e h = rw (acceptor_turn, e) h

-- A turn of the worker changes only what no other bound is about.
worker_at-IsSound : (x : Worker) (w : World) → w.worker ≡ x → IsSound w → IsSound (worker_turn w)
unfolding worker_turn
worker_at-IsSound looking w e h =
    let n : w.worker ≢ finished = λ q. cc in
    rw (worker_turn, e)
      (IsSound-same w _ h refl refl (worker-IsOrdered w.main w.acceptor w.worker _ n h.ordered))
worker_at-IsSound dequeuing w e h =
    let n : w.worker ≢ finished = λ q. cc in
    elim (Option-cases ((dequeue_message w.server).0)) [
      | inl d ↦
          rw (worker_turn, e, d)
            (IsSound-same w _ h refl refl
              (worker-IsOrdered w.main w.acceptor w.worker _ n h.ordered))
      | inr (m, d) ↦
          rw (worker_turn, e, d)
            (IsSound-same w _ h refl refl
              (worker-IsOrdered w.main w.acceptor w.worker _ n h.ordered))
    ]
worker_at-IsSound (sending m) w e h =
    let n : w.worker ≢ finished = λ q. cc in
    elim (Bool-cases (is_locked w.main)) [
      | inl l ↦ rw (worker_turn, e, l) h
      | inr l ↦
          rw (worker_turn, e, l)
            (IsSound-same w _ h refl refl
              (worker-IsOrdered w.main w.acceptor w.worker _ n h.ordered))
    ]
worker_at-IsSound finished w e h = rw (worker_turn, e) h

is_stopped-true : (a : Acceptor) → is_stopped a ≡ true → a ≡ stopped
is_stopped-true polling h = cc
is_stopped-true accepting h = cc
is_stopped-true (accepted fd) h = cc
is_stopped-true stopped h = refl

is_finished-true : (v : Worker) → is_finished v ≡ true → v ≡ finished
is_finished-true looking h = cc
is_finished-true dequeuing h = cc
is_finished-true (sending m) h = cc
is_finished-true finished h = refl

main_at-IsSound : (x : Main) (w : World) → w.main ≡ x → IsSound w → IsSound (main_turn w)
unfolding main_turn
main_at-IsSound waiting w e h =
    rw (main_turn, e) (if-IsSound w.server.server_running w _ h (IsSound-same w _ h refl refl tt))
main_at-IsSound joining_acceptor w e h = elim (Bool-cases (is_stopped w.acceptor)) [
  | inl r ↦ rw (main_turn, e, r) (IsSound-same w _ h refl refl (is_stopped-true w.acceptor r))
  | inr r ↦ rw (main_turn, e, r) h
]
main_at-IsSound (joining k) w e h =
    let o : IsOrdered (joining k) w.acceptor w.worker =
      subst (λ m. IsOrdered m w.acceptor w.worker) e h.ordered in
    elim (Option-cases (get_elem? w.clients k)) [
      | inl g ↦
          rw (main_turn, e, g) (record { few = omega arith; fit = h.fit; known = tt; ordered = o })
      | inr (c, g) ↦ elim (Bool-cases (has_ended c.io_tid w.threads)) [
        | inl r ↦ rw (main_turn, e, g, r) (IsSound-same w _ h refl refl o)
        | inr r ↦ rw (main_turn, e, g, r) h
      ]
    ]
main_at-IsSound joining_worker w e h =
    let o : IsOrdered joining_worker w.acceptor w.worker =
      subst (λ m. IsOrdered m w.acceptor w.worker) e h.ordered in
    elim (Bool-cases (is_finished w.worker)) [
      | inl r ↦ rw (main_turn, e, r) (IsSound-same w _ h refl refl (o, is_finished-true w.worker r))
      | inr r ↦ rw (main_turn, e, r) h
    ]
main_at-IsSound exited w e h = rw (main_turn, e) h

pub Goes-IsSound : {w v : World} → Goes w v → IsSound w → IsSound v
Goes-IsSound rest h = h
Goes-IsSound (client_goes i peer r {w} p) h = Goes-IsSound p (client-IsSound i peer r w h)
Goes-IsSound (acceptor_goes a created {w} p) h =
    Goes-IsSound p (acceptor_at-IsSound w.acceptor a created w refl h)
Goes-IsSound (worker_goes {w} p) h = Goes-IsSound p (worker_at-IsSound w.worker w refl h)
Goes-IsSound (main_goes {w} p) h = Goes-IsSound p (main_at-IsSound w.main w refl h)

pub begin-IsSound : (n : ℕ) → IsSound (begin n)
begin-IsSound n = record { few = omega arith; fit = tt; known = tt; ordered = tt }

-- In every run of the server from its start there are at most 100 clients, each in the table with the
-- socket of its thread, the bytes in the buffer of a thread are at most 1024, and when the server exits,
-- the acceptor and the worker have come to their ends.
pub Goes-bounds :
    (n : ℕ) (w : World)
    → Goes (begin n) w
    → (length w.clients ≤ max_clients)
      × All Fits w.threads
      × All (Has w.threads) w.clients
      × IsOrdered w.main w.acceptor w.worker
Goes-bounds n w p = let h = Goes-IsSound p (begin-IsSound n) in (h.few, h.fit, h.known, h.ordered)
