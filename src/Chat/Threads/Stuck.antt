-- ===== src/Chat/Threads/Stuck.antt =====
-- The join of the threads in `cleanup_and_exit` of servertest.c, which holds the lock of the table.
use cmpt201_coursework.Prelude.{
  ℕ, zero, suc, ◌+◌, ◌-◌, ◌≤◌, ◌≡◌, ◌≢◌, refl, ap, sym, subst, ◌∙◌, inl, inr, Bool-cases,
  Option-cases, Bool, true, false, some, List, arith, ◌==◌, if◌then◌else◌, length, get_or,
  get_elem?, some_at, get_elem?-set_self, get_elem?-set_ne, index_lt, take,
}
use cmpt201_coursework.Prelude.Int.{ℤ, pos, negsuc}
use cmpt201_coursework.Chat.{
  Bytes, max_msg_size, newline, type_regular, type_end_execution, memchr, Peer, Server, handle_end,
  handle_message,
}
use cmpt201_coursework.Chat.Clients.{Client, dequeue_message}
use cmpt201_coursework.Chat.Threads.{
  Stage, testing, reading, handling, leaving, ended, Thread, Read, again, broken, received,
  read_into, after_message, takes_lock, handle_next, run_client_io, Acceptor, polling, accepting,
  accepted, stopped, Accept, no_connection, accept_error, connection, Worker, looking, dequeuing,
  sending, finished, World, joining, exited, is_locked, client_turn, acceptor_turn, worker_turn,
  has_ended, main_turn, Goes, rest, client_goes, acceptor_goes, worker_goes, main_goes,
}

-- The thread goes on.
abbrev pub IsLive : Stage → Type 0
IsLive testing = Unit
IsLive reading = Unit
IsLive handling = Unit
IsLive leaving = Unit
IsLive ended = ⊥

-- `handle_message` shuts the server down only with the lock.
shutdown-lock :
    (peer : Peer) (buffer : Bytes) (s : Server) (n : ℕ)
    → (handle_message peer buffer s).0 ≡ negsuc (suc n)
    → takes_lock buffer ≡ true
unfolding handle_message takes_lock handle_end
shutdown-lock peer buffer s n e = elim (Bool-cases (length buffer == 0)) [
  | inl z ↦ let q : negsuc 0 ≡ negsuc (suc n) = sym (rw (z)) ∙ e in absurd cc
  | inr z ↦ elim (Option-cases (memchr newline buffer)) [
    | inl m ↦ let q : pos 0 ≡ negsuc (suc n) = sym (rw (z, m)) ∙ e in absurd cc
    | inr (i, m) ↦ elim (Bool-cases (get_or buffer 0 0 == type_regular)) [
      | inl a ↦ let q : pos (i + 1) ≡ negsuc (suc n) = sym (rw (z, m, a)) ∙ e in absurd cc
      | inr a ↦ elim (Bool-cases (get_or buffer 0 0 == type_end_execution)) [
        | inr b ↦ let q : pos (i + 1) ≡ negsuc (suc n) = sym (rw (z, m, a, b)) ∙ e in absurd cc
        | inl b ↦ elim (Bool-cases (i + 1 == 2)) [
          | inl c ↦ rw (takes_lock, m, b, c)
          | inr c ↦ let q : pos (i + 1) ≡ negsuc (suc n) = sym (rw (z, m, a, b, c)) ∙ e in absurd cc
        ]
      ]
    ]
  ]
]

after-IsLive :
    (r : ℤ) (left : Bytes) (t : Thread)
    → ((n : ℕ) → ¬ (r ≡ negsuc (suc n)))
    → IsLive (after_message r left t).stage
after-IsLive (pos zero) left t h = tt
after-IsLive (pos (suc n)) left t h = tt
after-IsLive (negsuc zero) left t h = tt
after-IsLive (negsuc (suc n)) left t h = absurd (h n refl)

-- While the lock is held, a round over the buffer does not end the thread.
handle_next-IsLive :
    (peer : Peer) (t : Thread) (s : Server)
    → IsLive t.stage
    → IsLive ((handle_next peer true t s).0.stage)
unfolding handle_next
handle_next-IsLive peer t s l = elim (Bool-cases (length t.buffer == 0)) [
  | inl z ↦ rw (handle_next, z) tt
  | inr z ↦ elim (Bool-cases (takes_lock t.buffer)) [
    | inl k ↦ rw (handle_next, z, k) l
    | inr k ↦
        rw (handle_next, z, k)
          (after-IsLive _ _ t (λ n e. let q = shutdown-lock peer t.buffer s n e in cc))
  ]
]

tested-IsLive : (b : Bool) → IsLive (if b then reading else leaving)
tested-IsLive true = tt
tested-IsLive false = tt

read_into-IsLive : (r : Read) (t : Thread) → IsLive ((read_into r t).stage)
unfolding read_into
read_into-IsLive again t = tt
read_into-IsLive broken t = tt
read_into-IsLive (received bytes) t =
    elim (Bool-cases (length (take (max_msg_size - length t.buffer) bytes) == 0)) [
      | inl e ↦ rw (read_into, e) tt
      | inr e ↦ rw (read_into, e) tt
    ]

run_client_io-IsLive :
    (st : Stage) (peer : Peer) (r : Read) (t : Thread) (s : Server) (cs : List Client)
    → t.stage ≡ st
    → IsLive st
    → IsLive ((run_client_io peer r true t s cs).0.stage)
unfolding run_client_io
run_client_io-IsLive testing peer r t s cs e l =
    rw (run_client_io, e) (tested-IsLive s.server_running)
run_client_io-IsLive reading peer r t s cs e l = rw (run_client_io, e) (read_into-IsLive r t)
run_client_io-IsLive handling peer r t s cs e l =
    rw (run_client_io, e) (handle_next-IsLive peer t s (subst IsLive (sym e) tt))
run_client_io-IsLive leaving peer r t s cs e l = rw (run_client_io, e) (subst IsLive (sym e) tt)
run_client_io-IsLive ended peer r t s cs e l = absurd l

run_client_io_locked :
    (st : Stage) (peer : Peer) (r : Read) (t : Thread) (s : Server) (cs : List Client)
    → t.stage ≡ st
    → (run_client_io peer r true t s cs).2 ≡ cs
unfolding run_client_io
run_client_io_locked testing peer r t s cs e = rw (run_client_io, e)
run_client_io_locked reading peer r t s cs e = rw (run_client_io, e)
run_client_io_locked handling peer r t s cs e = rw (run_client_io, e)
run_client_io_locked leaving peer r t s cs e = rw (run_client_io, e)
run_client_io_locked ended peer r t s cs e = rw (run_client_io, e)

-- `cleanup_and_exit` holds the lock, and has not joined the thread `i` of `clients[j]`, which goes on.
pub record Blocked (i j : ℕ) (w : World) : Type 0 where
  pub next : ℕ
  pub joins : w.main ≡ joining next
  pub before : next ≤ j
  pub client : Client
  pub entry : get_elem? w.clients j ≡ some client
  pub its : client.io_tid ≡ i
  pub thread : Thread
  pub runs : get_elem? w.threads i ≡ some thread
  pub live : IsLive thread.stage

Blocked-same :
    (i j : ℕ) (w v : World) (t : Thread)
    → Blocked i j w
    → v.main ≡ w.main
    → v.clients ≡ w.clients
    → get_elem? v.threads i ≡ some t
    → IsLive t.stage
    → Blocked i j v
Blocked-same i j w v t b m c e l = record {
  next = b.next;
  joins = m ∙ b.joins;
  before = b.before;
  client = b.client;
  entry = ap (λ cs. get_elem? cs j) c ∙ b.entry;
  its = b.its;
  thread = t;
  runs = e;
  live = l;
}

client-Blocked :
    (i j n : ℕ) (peer : Peer) (r : Read) (w : World)
    → Blocked i j w
    → Blocked i j (client_turn n peer r w)
unfolding client_turn
client-Blocked i j n peer r w b = elim (Option-cases (get_elem? w.threads n)) [
  | inl e ↦ rw (client_turn, e) b
  | inr (t, e) ↦
      let lk : is_locked w.main ≡ true = ap is_locked b.joins in
      let same = run_client_io_locked t.stage peer r t w.server w.clients refl in
      elim (Bool-cases (n == i)) [
        | inl q ↦
            let k : n ≡ i = ground arith in
            let its : t ≡ b.thread =
              (let r : get_elem? w.threads i ≡ some t =
                  subst (λ m. get_elem? w.threads m ≡ some t) k e in
                let g = b.runs in cc) in
            let l : IsLive t.stage = subst (λ u. IsLive u.stage) (sym its) b.live in
            let f = run_client_io-IsLive t.stage peer r t w.server w.clients refl l in
            let at =
              get_elem?-set_self w.threads i ((run_client_io peer r true t w.server w.clients).0)
                (index_lt i b.thread w.threads b.runs) in
            rw (client_turn, e, lk, k) (Blocked-same i j w _ _ b refl same at f)
        | inr q ↦
            let k : n ≢ i = ground arith in
            let at =
              get_elem?-set_ne w.threads ((run_client_io peer r true t w.server w.clients).0) k in
            rw (client_turn, e, lk) (Blocked-same i j w _ _ b refl same (at ∙ b.runs) b.live)
      ]
]

acceptor_at-Blocked :
    (x : Acceptor) (i j : ℕ) (a : Accept) (created : Bool) (w : World)
    → w.acceptor ≡ x
    → Blocked i j w
    → Blocked i j (acceptor_turn a created w)
unfolding acceptor_turn
acceptor_at-Blocked polling i j a created w e b =
    rw (acceptor_turn, e) (Blocked-same i j w _ _ b refl refl b.runs b.live)
acceptor_at-Blocked accepting i j no_connection created w e b =
    rw (acceptor_turn, e) (Blocked-same i j w _ _ b refl refl b.runs b.live)
acceptor_at-Blocked accepting i j accept_error created w e b =
    rw (acceptor_turn, e) (Blocked-same i j w _ _ b refl refl b.runs b.live)
acceptor_at-Blocked accepting i j (connection fd) created w e b =
    rw (acceptor_turn, e) (Blocked-same i j w _ _ b refl refl b.runs b.live)
acceptor_at-Blocked (accepted fd) i j a created w e b =
    let lk : is_locked w.main ≡ true = ap is_locked b.joins in rw (acceptor_turn, e, lk) b
acceptor_at-Blocked stopped i j a created w e b = rw (acceptor_turn, e) b

worker_at-Blocked :
    (x : Worker) (i j : ℕ) (w : World) → w.worker ≡ x → Blocked i j w → Blocked i j (worker_turn w)
unfolding worker_turn
worker_at-Blocked looking i j w e b =
    rw (worker_turn, e) (Blocked-same i j w _ _ b refl refl b.runs b.live)
worker_at-Blocked dequeuing i j w e b = elim (Option-cases ((dequeue_message w.server).0)) [
  | inl d ↦ rw (worker_turn, e, d) (Blocked-same i j w _ _ b refl refl b.runs b.live)
  | inr (m, d) ↦ rw (worker_turn, e, d) (Blocked-same i j w _ _ b refl refl b.runs b.live)
]
worker_at-Blocked (sending m) i j w e b =
    let lk : is_locked w.main ≡ true = ap is_locked b.joins in rw (worker_turn, e, lk) b
worker_at-Blocked finished i j w e b = rw (worker_turn, e) b

live-has_ended :
    (st : Stage) (i : ℕ) (t : Thread) (ts : List Thread)
    → t.stage ≡ st
    → IsLive st
    → get_elem? ts i ≡ some t
    → has_ended i ts ≡ false
unfolding has_ended
live-has_ended testing i t ts e l g = rw (has_ended, g, e)
live-has_ended reading i t ts e l g = rw (has_ended, g, e)
live-has_ended handling i t ts e l g = rw (has_ended, g, e)
live-has_ended leaving i t ts e l g = rw (has_ended, g, e)
live-has_ended ended i t ts e l g = absurd l

-- `main` waits for the thread, or goes on to one before it.
main-Blocked : (i j : ℕ) (w : World) → Blocked i j w → Blocked i j (main_turn w)
unfolding main_turn
main-Blocked i j w b = elim (Bool-cases (b.next == j)) [
  | inl q ↦
      let k : b.next ≡ j = ground arith in
      let g : get_elem? w.clients b.next ≡ some b.client = ap (get_elem? w.clients) k ∙ b.entry in
      let h : has_ended b.client.io_tid w.threads ≡ false =
        ap (λ n. has_ended n w.threads) b.its
        ∙ live-has_ended b.thread.stage i b.thread w.threads refl b.live b.runs in
      rw (main_turn, b.joins, g, h) b
  | inr q ↦
      let lt = index_lt j b.client w.clients b.entry in
      let p = b.before in
      let (c, g) = some_at b.next w.clients (ground arith) in
      elim (Bool-cases (has_ended c.io_tid w.threads)) [
        | inl h ↦
            rw (main_turn, b.joins, g, h)
              (record {
                next = b.next + 1;
                joins = refl;
                before = ground arith;
                client = b.client;
                entry = b.entry;
                its = b.its;
                thread = b.thread;
                runs = b.runs;
                live = b.live;
              })
        | inr h ↦ rw (main_turn, b.joins, g, h) b
      ]
]

Goes-Blocked : {i j : ℕ} {w v : World} → Goes w v → Blocked i j w → Blocked i j v
Goes-Blocked rest b = b
Goes-Blocked {i} {j} (client_goes n peer r {w} p) b =
    Goes-Blocked p (client-Blocked i j n peer r w b)
Goes-Blocked {i} {j} (acceptor_goes a created {w} p) b =
    Goes-Blocked p (acceptor_at-Blocked w.acceptor i j a created w refl b)
Goes-Blocked {i} {j} (worker_goes {w} p) b =
    Goes-Blocked p (worker_at-Blocked w.worker i j w refl b)
Goes-Blocked {i} {j} (main_goes {w} p) b = Goes-Blocked p (main-Blocked i j w b)

-- Once `cleanup_and_exit` holds the lock of the table, and the thread of a client that it has still to
-- join is not at its end, the server does not exit, whatever the threads do: that thread needs the lock
-- to end.
pub join-stuck :
    (j : ℕ) (c : Client) (t : Thread) (w v : World)
    → w.main ≡ joining 0
    → get_elem? w.clients j ≡ some c
    → get_elem? w.threads c.io_tid ≡ some t
    → IsLive t.stage
    → Goes w v
    → v.main ≢ exited
join-stuck j c t w v m e e' l p x =
    let b : Blocked c.io_tid j w = record {
      next = 0;
      joins = m;
      before = omega arith;
      client = c;
      entry = e;
      its = refl;
      thread = t;
      runs = e';
      live = l;
    } in
    let b' = Goes-Blocked p b in let q : exited ≡ joining b'.next = sym x ∙ b'.joins in cc
