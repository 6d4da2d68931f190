-- ===== src/Select/Message.antt =====
-- server.c handles a message as servertest.c does, as long as `malloc` gives a node.
use cmpt201_coursework.Prelude.{
  ℕ, ◌+◌, ◌-◌, ◌≡◌, inl, inr, Bool-cases, Option-cases, false, not, arith, ltb, ◌==◌, length,
  length-take, get_or, take, drop, ok,
}
use cmpt201_coursework.Chat
use cmpt201_coursework.Chat.{
  max_msg_size, Bytes, memchr, newline, Peer, Server, broadcast, type_regular, type_end_execution,
  commit_msg,
}
use cmpt201_coursework.Select.{enqueue_message, handle_regular, handle_end, handle_message}

regular-same :
    (peer : Peer) (buffer : Bytes) (n : ℕ) (s : Server)
    → handle_regular peer buffer n s ≡ ok (Chat.handle_regular peer buffer n s)
unfolding handle_regular enqueue_message Chat.handle_regular Chat.enqueue_message
regular-same peer buffer n s =
    let payload = take (n - 1) (drop 1 buffer) in
    let l = length-take (n - 1) (drop 1 buffer) in
    elim (Bool-cases (ltb max_msg_size (n + 6))) [
      | inl long ↦ rw (long)
      | inr fits ↦
          let t : ltb max_msg_size (length (broadcast peer payload)) ≡ false = ground arith in
          rw (fits, t)
    ]

end-same : (n : ℕ) (s : Server) → handle_end n s ≡ ok (Chat.handle_end n s)
unfolding handle_end enqueue_message Chat.handle_end Chat.enqueue_message
end-same n s = elim (Bool-cases (not (n == 2))) [
  | inl a ↦ rw (a)
  | inr a ↦ elim (Bool-cases (s.finished_clients_count + 1 == s.expected_clients)) [
    | inl b ↦ rw (a, b)
    | inr b ↦ rw (a, b)
  ]
]

-- As long as `malloc` gives a node, the two servers make the same of a message; the copy to a node of the queue, which server.c does
-- not check, always fits.
pub handle-same :
    (peer : Peer) (buffer : Bytes) (s : Server)
    → handle_message peer buffer s ≡ ok (Chat.handle_message peer buffer s)
unfolding handle_message Chat.handle_message
handle-same peer buffer s = elim (Bool-cases (length buffer == 0)) [
  | inl z ↦ rw (z)
  | inr z ↦ elim (Option-cases (memchr newline buffer)) [
    | inl m ↦ rw (z, m)
    | inr (i, m) ↦ elim (Bool-cases (get_or buffer 0 0 == type_regular)) [
      | inl e ↦ rw (z, m, e, regular-same peer buffer (i + 1) s)
      | inr e ↦ elim (Bool-cases (get_or buffer 0 0 == type_end_execution)) [
        | inl e' ↦ elim (Bool-cases (Chat.handle_end (i + 1) s).0) [
          | inl f ↦ rw (z, m, e, e', end-same (i + 1) s, f)
          | inr f ↦ rw (z, m, e, e', end-same (i + 1) s, f)
        ]
        | inr e' ↦ rw (z, m, e, e')
      ]
    ]
  ]
]
