-- ===== src/Chat/Threads/Ends.antt =====
-- How the threads of a client of servertest.c come to their ends once the server is stopped.
use cmpt201_coursework.Prelude.{
  ℕ, zero, suc, ◌+◌, ◌≤◌, ◌<◌, ◌≡◌, ◌≢◌, refl, ap, sym, subst, ◌∙◌, inl, inr, ◌⊎◌, Option-cases,
  Bool, true, false, some, List, [], ◌∷◌, arith, ◌==◌, if◌then◌else◌, length, length-set,
  length-drop, get_elem?, get_elem?-set_self, get_elem?-set_ne, index_lt, set,
}
use cmpt201_coursework.Chat.{
  Bytes, memchr, newline, Peer, Server, enqueue_message, handle_regular, handle_end, handle_message,
}
use cmpt201_coursework.Chat.Commit.{handle-server}
use cmpt201_coursework.Chat.Frame.{handle_incomplete, handle_complete}
use cmpt201_coursework.Chat.Clients.{Client, remove_client}
use cmpt201_coursework.Chat.Threads.{
  Stage, testing, reading, handling, leaving, ended, Thread, Read, again, read_into, after_message,
  handle_next, run_client_io, World, is_locked, client_turn, Goes, rest, client_goes,
}

-- The server is stopped.
abbrev pub IsOff : Server → Type 0
IsOff s = s.server_running ≡ false

regular-IsOff :
    (peer : Peer) (b : Bytes) (n : ℕ) (s : Server) → IsOff s → IsOff (handle_regular peer b n s)
unfolding handle_regular enqueue_message
regular-IsOff peer b n s h = ground arith

end-IsOff : (n : ℕ) (s : Server) → IsOff s → IsOff (handle_end n s).1
unfolding handle_end enqueue_message
end-IsOff n s h = ground arith

-- A stopped server does not start again.
handle-IsOff : (peer : Peer) (b : Bytes) (s : Server) → IsOff s → IsOff (handle_message peer b s).2
handle-IsOff peer b s h = elim (handle-server peer b s) [
  | inl (inl e) ↦ subst IsOff (sym e) h
  | inl (inr (n, e)) ↦ subst IsOff (sym e) (regular-IsOff peer b n s h)
  | inr (n, e) ↦ subst IsOff (sym e) (end-IsOff n s h)
]

-- A peer whose name is not known.
abbrev nobody : Peer
nobody = record { ip_0 = 0; ip_1 = 0; ip_2 = 0; ip_3 = 0; port_0 = 0; port_1 = 0 }

-- Turns after which the thread `i` has ended, and all else but the table is as before.
pub record EndsAt (i : ℕ) (w : World) : Type 0 where
  pub last : World
  pub goes : Goes w last
  pub main : last.main ≡ w.main
  pub acceptor : last.acceptor ≡ w.acceptor
  pub worker : last.worker ≡ w.worker
  pub off : IsOff last.server
  pub size : length last.threads ≡ length w.threads
  pub others : (n : ℕ) → i ≢ n → get_elem? last.threads n ≡ get_elem? w.threads n
  pub thread : Thread
  pub at : get_elem? last.threads i ≡ some thread
  pub over : thread.stage ≡ ended

module _ (i : ℕ) (peer : Peer) where
  -- The world after a turn of the thread `i`.
  turned : World → Thread → Server → List Client → World
  turned w t s cs = record w { server = s; clients = cs; threads = set w.threads i t }

  client_turn-turned :
      (r : Read) (w : World) (t t' : Thread) (s : Server) (cs : List Client)
      → get_elem? w.threads i ≡ some t
      → run_client_io peer r (is_locked w.main) t w.server w.clients ≡ (t', s, cs)
      → client_turn i peer r w ≡ turned w t' s cs
  unfolding client_turn turned
  client_turn-turned r w t t' s cs e q =
      let after : Thread × Server × List Client → World =
        λ o. record w { server = o.1; clients = o.2; threads = set w.threads i o.0 } in
      rw (client_turn, e) (ap after q)

  go_on :
      (r : Read) (w : World) (t t' : Thread) (s : Server) (cs : List Client)
      → get_elem? w.threads i ≡ some t
      → run_client_io peer r (is_locked w.main) t w.server w.clients ≡ (t', s, cs)
      → EndsAt i (turned w t' s cs)
      → EndsAt i w
  unfolding turned
  go_on r w t t' s cs e q h = record {
    last = h.last;
    goes =
        client_goes i peer r
          (subst (λ v. Goes v h.last) (sym (client_turn-turned r w t t' s cs e q)) h.goes);
    main = h.main;
    acceptor = h.acceptor;
    worker = h.worker;
    off = h.off;
    size = h.size ∙ length-set w.threads i t';
    others = λ n d. h.others n d ∙ get_elem?-set_ne w.threads t' d;
    thread = h.thread;
    at = h.at;
    over = h.over;
  }

  at_turned :
      (w : World) (t t' : Thread) (s : Server) (cs : List Client)
      → get_elem? w.threads i ≡ some t
      → get_elem? ((turned w t' s cs).threads) i ≡ some t'
  unfolding turned
  at_turned w t t' s cs e = get_elem?-set_self w.threads i t' (index_lt i t w.threads e)

  ended-EndsAt :
      (w : World) (t : Thread)
      → get_elem? w.threads i ≡ some t
      → IsOff w.server
      → t.stage ≡ ended
      → EndsAt i w
  ended-EndsAt w t e off q = record {
    last = w;
    goes = rest;
    main = refl;
    acceptor = refl;
    worker = refl;
    off = off;
    size = refl;
    others = λ n d. refl;
    thread = t;
    at = e;
    over = q;
  }

  leaving-EndsAt :
      (w : World) (t : Thread)
      → get_elem? w.threads i ≡ some t
      → IsOff w.server
      → is_locked w.main ≡ false
      → t.stage ≡ leaving
      → EndsAt i w
  unfolding run_client_io turned
  leaving-EndsAt w t e off lk q =
      let t' : Thread = record t { stage = ended } in
      let cs = remove_client t.client_fd w.clients in
      go_on again w t t' w.server cs e (rw (run_client_io, q, lk))
        (ended-EndsAt (turned w t' w.server cs) t' (at_turned w t t' w.server cs e) off refl)

  testing-EndsAt :
      (w : World) (t : Thread)
      → get_elem? w.threads i ≡ some t
      → IsOff w.server
      → is_locked w.main ≡ false
      → t.stage ≡ testing
      → EndsAt i w
  unfolding run_client_io turned
  testing-EndsAt w t e off lk q =
      let t' : Thread = record t { stage = leaving } in
      let stays : (if w.server.server_running then reading else leaving) ≡ leaving = rw (off) in
      go_on again w t t' w.server w.clients e
        (rw (run_client_io, q) (ap (λ z. (record t { stage = z }, w.server, w.clients)) stays))
        (leaving-EndsAt (turned w t' w.server w.clients) t' (at_turned w t t' w.server w.clients e)
          off lk refl)

  reading-EndsAt :
      (w : World) (t : Thread)
      → get_elem? w.threads i ≡ some t
      → IsOff w.server
      → is_locked w.main ≡ false
      → t.stage ≡ reading
      → EndsAt i w
  unfolding run_client_io read_into turned
  reading-EndsAt w t e off lk q =
      let t' : Thread = record t { stage = testing } in
      go_on again w t t' w.server w.clients e (rw (run_client_io, q)) (
        testing-EndsAt (turned w t' w.server w.clients) t' (at_turned w t t' w.server w.clients e)
          off lk refl)

  -- A call of `handle_message` at a buffer that is not empty: the thread looks at its flag, goes on in
  -- its loop with a shorter buffer, leaves, or has ended.
  after-stage :
      (a : ℕ) (b : Bytes) (t : Thread) (s : Server)
      → t.stage ≡ handling
      → t.buffer ≡ a ∷ b
      → let m = handle_message peer t.buffer s in
        let t' = after_message m.0 m.1 t in
        (t'.stage ≡ testing)
        ⊎ ((t'.stage ≡ handling) × (length t'.buffer ≤ length b))
        ⊎ (t'.stage ≡ ended)
  after-stage a b t s q e = elim (Option-cases (memchr newline (a ∷ b))) [
    | inl m ↦ rw (e, handle_incomplete peer a b s m) (inl refl)
    | inr (k, m) ↦
        let (u, c) = handle_complete peer k a b s m in
        let j : k + 1 ≡ suc k = omega arith in
        let l = length-drop k b in
        elim c [
          | inl p ↦ rw (e, p, j) (inr (inl (refl, omega arith)))
          | inr p ↦ rw (e, p) (inr (inr refl))
        ]
  ]

  run_handling :
      (r : Read) (k : Bool) (t : Thread) (s : Server) (cs : List Client) (h : Thread × Server)
      → t.stage ≡ handling
      → handle_next peer k t s ≡ h
      → run_client_io peer r k t s cs ≡ (h.0, h.1, cs)
  unfolding run_client_io
  run_handling r k t s cs h q e = rw (run_client_io, q) (ap (λ o. (o.0, o.1, cs)) e)

  handling-EndsAt :
      (k : ℕ) (buf : Bytes) (w : World) (t : Thread)
      → length buf < k
      → t.buffer ≡ buf
      → get_elem? w.threads i ≡ some t
      → IsOff w.server
      → is_locked w.main ≡ false
      → t.stage ≡ handling
      → EndsAt i w
  unfolding handle_next turned
  handling-EndsAt zero buf w t l f e off lk q = absurd (omega arith)
  handling-EndsAt (suc k) [] w t l f e off lk q =
      let t' : Thread = record t { stage = testing } in
      let z : (length t.buffer == 0) ≡ true = ap (λ b. length b == 0) f in
      let none_left : handle_next peer (is_locked w.main) t w.server ≡ (t', w.server) =
        rw (handle_next, z) in
      go_on again w t t' w.server w.clients e
        (run_handling again (is_locked w.main) t w.server w.clients _ q none_left)
        (testing-EndsAt (turned w t' w.server w.clients) t' (at_turned w t t' w.server w.clients e)
          off lk refl)
  handling-EndsAt (suc k) (a ∷ b) w t l f e off lk q =
      let m = handle_message peer t.buffer w.server in
      let t' = after_message m.0 m.1 t in
      let z : (length t.buffer == 0) ≡ false = ap (λ c. length c == 0) f ∙ ground arith in
      let handled : handle_next peer (is_locked w.main) t w.server ≡ (t', m.2) =
        rw (handle_next, z, lk) in
      let v = turned w t' m.2 w.clients in
      let e' : get_elem? v.threads i ≡ some t' = at_turned w t t' m.2 w.clients e in
      let off' : IsOff v.server = handle-IsOff peer t.buffer w.server off in
      go_on again w t t' m.2 w.clients e
        (run_handling again (is_locked w.main) t w.server w.clients _ q handled)
        (elim (after-stage a b t w.server q f) [
          | inl p ↦ testing-EndsAt v t' e' off' lk p
          | inr (inl (p, n)) ↦ handling-EndsAt k t'.buffer v t' (omega arith) refl e' off' lk p
          | inr (inr p) ↦ ended-EndsAt v t' e' off' p
        ])

  thread-EndsAt :
      (st : Stage) (w : World) (t : Thread)
      → t.stage ≡ st
      → get_elem? w.threads i ≡ some t
      → IsOff w.server
      → is_locked w.main ≡ false
      → EndsAt i w
  thread-EndsAt testing w t q e off lk = testing-EndsAt w t e off lk q
  thread-EndsAt reading w t q e off lk = reading-EndsAt w t e off lk q
  thread-EndsAt handling w t q e off lk =
      handling-EndsAt (length t.buffer + 1) t.buffer w t (omega arith) refl e off lk q
  thread-EndsAt leaving w t q e off lk = leaving-EndsAt w t e off lk q
  thread-EndsAt ended w t q e off lk = ended-EndsAt w t e off q

-- Turns of its own bring any thread of a client to its end, once the server is stopped, if
-- `cleanup_and_exit` does not hold the lock.
pub client-EndsAt :
    (i : ℕ) (w : World) (t : Thread)
    → get_elem? w.threads i ≡ some t
    → IsOff w.server
    → is_locked w.main ≡ false
    → EndsAt i w
client-EndsAt i w t e off lk = thread-EndsAt i nobody t.stage w t refl e off lk
