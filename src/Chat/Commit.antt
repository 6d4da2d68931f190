-- ===== src/Chat/Commit.antt =====
-- The two-phase commit of servertest.c: the server sends its commit once, when the last of the
-- expected clients has finished, and stops then.
use cmpt201_coursework.Prelude.{
  ℕ, ◌+◌, ◌-◌, ◌≤◌, ◌<◌, ◌≡◌, refl, sym, subst, ◌⊎◌, inl, inr, Option-cases, Bool-cases, true,
  false, List, [], ◌∷◌, ◌++◌, arith, ◌==◌, if◌then◌else◌, length, get_or, take, drop,
}
use cmpt201_coursework.Chat.{
  newline, Bytes, memchr, Peer, Server, handle_message, handle_regular, handle_end, enqueue_message,
  type_end_execution, type_regular, commit_msg, broadcast,
}

-- How many messages in a queue are a commit.
unfoldable pub commits : List Bytes → ℕ
commits [] = 0
commits (m ∷ ms) = (if get_or m 0 0 == type_end_execution then 1 else 0) + commits ms

pub commits-append : (xs ys : List Bytes) → commits (xs ++ ys) ≡ commits xs + commits ys
unfolding commits
commits-append [] ys = omega arith
commits-append (x ∷ xs) ys = omega (arith, commits-append xs ys)

-- Fewer clients than expected have finished, the server runs and no commit is queued, or all have,
-- the server is stopped, and one commit is.
unfoldable pub IsConsistent : Server → Type 0
IsConsistent s =
    ((s.finished_clients_count < s.expected_clients)
      × (s.server_running ≡ true)
      × (commits s.queue ≡ 0))
    ⊎ ((s.expected_clients ≤ s.finished_clients_count)
        × (s.server_running ≡ false)
        × (commits s.queue ≡ 1))

regular-IsConsistent :
    (peer : Peer) (buffer : Bytes) (n : ℕ) (s : Server)
    → IsConsistent s
    → IsConsistent (handle_regular peer buffer n s)
unfolding IsConsistent handle_regular enqueue_message commits
regular-IsConsistent peer buffer n s h =
    let e = commits-append s.queue (broadcast peer (take (n - 1) (drop 1 buffer)) ∷ []) in
    ground arith

end-IsConsistent : (n : ℕ) (s : Server) → IsConsistent s → IsConsistent (handle_end n s).1
unfolding IsConsistent handle_end enqueue_message commits
end-IsConsistent n s h = let e = commits-append s.queue (commit_msg ∷ []) in ground arith

-- The three things that a call makes of the server.
pub handle-server :
    (peer : Peer) (buffer : Bytes) (s : Server)
    → (((handle_message peer buffer s).2 ≡ s)
        ⊎ ((n : ℕ) × ((handle_message peer buffer s).2 ≡ handle_regular peer buffer n s)))
      ⊎ ((n : ℕ) × ((handle_message peer buffer s).2 ≡ (handle_end n s).1))
unfolding handle_message
handle-server peer buffer s = elim (Bool-cases (length buffer == 0)) [
  | inl z ↦ inl (inl (rw (z)))
  | inr z ↦ elim (Option-cases (memchr newline buffer)) [
    | inl m ↦ inl (inl (rw (z, m)))
    | inr (i, m) ↦ elim (Bool-cases (get_or buffer 0 0 == type_regular)) [
      | inl e ↦ inl (inr (i + 1, rw (z, m, e)))
      | inr e ↦ elim (Bool-cases (get_or buffer 0 0 == type_end_execution)) [
        | inl e' ↦ elim (Bool-cases (handle_end (i + 1) s).0) [
          | inl f ↦ inr (i + 1, rw (z, m, e, e', f))
          | inr f ↦ inr (i + 1, rw (z, m, e, e', f))
        ]
        | inr e' ↦ inl (inl (rw (z, m, e, e')))
      ]
    ]
  ]
]

-- Whatever a client sends, the server stays consistent.
handle-IsConsistent :
    (peer : Peer) (buffer : Bytes) (s : Server)
    → IsConsistent s
    → IsConsistent (handle_message peer buffer s).2
handle-IsConsistent peer buffer s h = elim (handle-server peer buffer s) [
  | inl (inl e) ↦ subst IsConsistent (sym e) h
  | inl (inr (n, e)) ↦ subst IsConsistent (sym e) (regular-IsConsistent peer buffer n s h)
  | inr (n, e) ↦ subst IsConsistent (sym e) (end-IsConsistent n s h)
]

-- The server before the first client has connected.
abbrev pub started : ℕ → Server
started n = record {
  queue = [];
  expected_clients = n;
  finished_clients_count = 0;
  server_running = true;
}

-- The threads of the clients in any order: each call of `handle_message` changes what they share in
-- one critical section, so that a run is a sequence of calls.
pub data Serves : Server → Server → Type 0 where
  idle : {s : Server} → Serves s s
  call :
      (peer : Peer) (buffer : Bytes) {s t : Server}
      → Serves (handle_message peer buffer s).2 t
      → Serves s t

Serves-IsConsistent : {s t : Server} → Serves s t → IsConsistent s → IsConsistent t
Serves-IsConsistent idle h = h
Serves-IsConsistent {s} (call peer buffer r) h =
    Serves-IsConsistent r (handle-IsConsistent peer buffer s h)

-- A run of the threads from the start, with at least one client expected, stops the server exactly
-- when all expected clients have finished, and one commit is queued then and none before.
pub commit-once :
    (n : ℕ) (s : Server)
    → 0 < n
    → Serves (started n) s
    → ((s.finished_clients_count < s.expected_clients)
        × (s.server_running ≡ true)
        × (commits s.queue ≡ 0))
      ⊎ ((s.expected_clients ≤ s.finished_clients_count)
          × (s.server_running ≡ false)
          × (commits s.queue ≡ 1))
unfolding IsConsistent commits
commit-once n s p r = Serves-IsConsistent r (inl (p, refl, refl))
