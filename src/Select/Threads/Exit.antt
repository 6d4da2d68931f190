-- ===== src/Select/Threads/Exit.antt =====
-- How lecture/test4/server.c comes to its exit, and when it does not.
use cmpt201_coursework.Prelude.{
  ◌≡◌, ◌≢◌, refl, ap, sym, subst, ◌∙◌, true, false, none, some, List, [], ◌∷◌, ◌++◌, if◌then◌else◌,
}
use cmpt201_coursework.Chat.{Bytes}
use cmpt201_coursework.Chat.Threads.{Worker, looking, dequeuing, sending, finished, is_finished}
use cmpt201_coursework.Select.Threads.{
  Activity, select_error, selecting, cleaning, exited, World, is_locked, dequeue_message, write_all,
  worker_turn, select_turn, main_turn, Goes, rest, worker_goes, main_goes,
}

-- `cleanup_and_exit` waits for the worker, which waits for a message.
pub record Waits (w : World) : Type 0 where
  pub cleans : w.main ≡ cleaning
  pub waits : w.worker ≡ dequeuing
  pub idle : w.state.server.queue ≡ []
  pub runs : w.state.server.server_running ≡ true

worker-Waits : (w : World) → Waits w → Waits (worker_turn w)
unfolding worker_turn dequeue_message
worker-Waits w h =
    let d : (dequeue_message w.state.server).0 ≡ none = rw (dequeue_message, h.idle) in
    let turn : worker_turn w ≡ record w { worker = dequeuing } =
      rw (worker_turn, h.waits, d)
        (ap (λ b. record w { worker = if b then dequeuing else finished }) h.runs) in
    subst Waits (sym turn)
      (record { cleans = h.cleans; waits = refl; idle = h.idle; runs = h.runs })

main-Waits : (a : Activity) (w : World) → Waits w → Waits (main_turn a w)
unfolding main_turn
main-Waits a w h =
    let on : is_finished w.worker ≡ false = ap is_finished h.waits in rw (main_turn, h.cleans, on) h

Goes-Waits : {w v : World} → Goes w v → Waits w → Waits v
Goes-Waits rest h = h
Goes-Waits (worker_goes {w} p) h = Goes-Waits p (worker-Waits w h)
Goes-Waits (main_goes a {w} p) h = Goes-Waits p (main-Waits a w h)

-- If `select` fails while the worker waits for a message and none is queued, the server never exits:
-- `cleanup_and_exit` joins the worker, but does not tell it that the server stops.
pub select_error-stuck :
    (w v : World)
    → w.main ≡ selecting
    → w.worker ≡ dequeuing
    → w.state.server.queue ≡ []
    → w.state.server.server_running ≡ true
    → Goes (main_turn select_error w) v
    → v.main ≢ exited
unfolding main_turn select_turn
select_error-stuck w v m d q r p x =
    let turn : main_turn select_error w ≡ record w { main = cleaning } =
      rw (main_turn, m)
        (ap (λ b. if b then select_turn select_error w else record w { main = cleaning }) r) in
    let h : Waits (main_turn select_error w) =
      subst Waits (sym turn) (record { cleans = refl; waits = d; idle = q; runs = r }) in
    let h' = Goes-Waits p h in let c : exited ≡ cleaning = sym x ∙ h'.cleans in cc

-- Turns of the worker bring it to its end, once the server is stopped and the lock is free.
abbrev Finishes : World → Type 0
Finishes w = (v : World) × Goes w v × (v.main ≡ w.main) × (v.worker ≡ finished)

by_worker : (w u v : World) → worker_turn w ≡ u → Goes u v → Goes w v
by_worker w u v e p = worker_goes (subst (λ z. Goes z v) (sym e) p)

looking-Finishes :
    (w : World) → w.worker ≡ looking → w.state.server.server_running ≡ false → Finishes w
unfolding worker_turn
looking-Finishes w e off =
    let v : World = record w { worker = finished } in
    let turn : worker_turn w ≡ v =
      rw (worker_turn, e) (ap (λ b. record w { worker = if b then dequeuing else finished }) off) in
    (v, by_worker w v v turn rest, refl, refl)

sending-Finishes :
    (m : Bytes) (w : World)
    → w.worker ≡ sending m
    → w.state.server.server_running ≡ false
    → is_locked w.main ≡ false
    → Finishes w
unfolding worker_turn
sending-Finishes m w e off lk =
    let u : World = record w {
      writes = w.writes ++ write_all m w.state.clients;
      worker = looking;
    } in
    let (v, p, a, f) = looking-Finishes u refl off in
    (v, by_worker w u v (rw (worker_turn, e, lk)) p, a, f)

dequeuing-Finishes :
    (q : List Bytes) (w : World)
    → w.state.server.queue ≡ q
    → w.worker ≡ dequeuing
    → w.state.server.server_running ≡ false
    → is_locked w.main ≡ false
    → Finishes w
unfolding worker_turn dequeue_message
dequeuing-Finishes [] w q e off lk =
    let v : World = record w { worker = finished } in
    let d : (dequeue_message w.state.server).0 ≡ none = rw (dequeue_message, q) in
    let turn : worker_turn w ≡ v =
      rw (worker_turn, e, d)
        (ap (λ b. record w { worker = if b then dequeuing else finished }) off) in
    (v, by_worker w v v turn rest, refl, refl)
dequeuing-Finishes (m ∷ ms) w q e off lk =
    let s = w.state.server in
    let d : dequeue_message s ≡ (some m, record s { queue = ms }) = rw (dequeue_message, q) in
    let taken : (dequeue_message s).0 ≡ some m = ap (λ z. z.0) d in
    let left : (dequeue_message s).1 ≡ record s { queue = ms } = ap (λ z. z.1) d in
    let u : World = record w {
      state = record w.state { server = record s { queue = ms } };
      worker = sending m;
    } in
    let (v, p, a, f) = sending-Finishes m u refl off lk in
    (v, by_worker w u v (rw (worker_turn, e, taken, left)) p, a, f)

worker-Finishes :
    (x : Worker) (w : World)
    → w.worker ≡ x
    → w.state.server.server_running ≡ false
    → is_locked w.main ≡ false
    → Finishes w
worker-Finishes looking w e off lk = looking-Finishes w e off
worker-Finishes dequeuing w e off lk = dequeuing-Finishes w.state.server.queue w refl e off lk
worker-Finishes (sending m) w e off lk = sending-Finishes m w e off lk
worker-Finishes finished w e off lk = (w, rest, refl, e)

Goes-trans : {u v w : World} → Goes u v → Goes v w → Goes u w
Goes-trans rest q = q
Goes-trans (worker_goes p) q = worker_goes (Goes-trans p q)
Goes-trans (main_goes a p) q = main_goes a (Goes-trans p q)

-- Once the server is stopped, turns of the worker bring the clean-up to the exit.
pub clean_up-exits :
    (w : World)
    → w.main ≡ cleaning
    → w.state.server.server_running ≡ false
    → (v : World) × Goes w v × (v.main ≡ exited)
unfolding main_turn
clean_up-exits w m off =
    let (v, p, a, f) = worker-Finishes w.worker w refl off (ap is_locked m) in
    let over : is_finished v.worker ≡ true = ap is_finished f in
    let c : v.main ≡ cleaning = a ∙ m in
    let u : World = record v { main = exited } in
    let turn : main_turn select_error v ≡ u = rw (main_turn, c, over) in
    (u, Goes-trans p (main_goes select_error (subst (λ z. Goes z u) (sym turn) rest)), refl)
