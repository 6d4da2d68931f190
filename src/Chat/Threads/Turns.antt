-- ===== src/Chat/Threads/Turns.antt =====
-- What a turn of the thread of a client of servertest.c does to the bounds: those of its buffer, and
-- of the table of clients.
use cmpt201_coursework.Prelude.{
  ℕ, zero, suc, ◌+◌, ◌-◌, ◌≤◌, ◌≡◌, ◌≢◌, refl, ap, subst, ◌∙◌, inl, inr, ◌⊎◌, Bool-cases,
  Option-cases, Bool, true, false, ◌&&◌, some, List, [], ◌∷◌, ◌++◌, arith, ltb, ◌==◌, length,
  length-append, length-take, length-drop, length-set, get_or, get_elem?, get_elem?-set_self,
  get_elem?-set_ne, get_elem?-append, index_lt, set, take, All, All-set, All-take, All-get_or,
}
use cmpt201_coursework.Prelude.Int.{ℤ, pos, negsuc}
use cmpt201_coursework.Chat.{Bytes, max_msg_size, newline, memchr, Peer, Server, handle_message}
use cmpt201_coursework.Chat.Frame.{handle_incomplete, handle_complete}
use cmpt201_coursework.Chat.Clients.{Client, index_of_fd, remove_client}
use cmpt201_coursework.Chat.Threads.{
  Stage, testing, reading, handling, leaving, ended, Thread, Read, again, broken, received,
  read_into, after_message, takes_lock, handle_next, run_client_io,
}

-- The buffer is within its array.
abbrev pub Fits : Thread → Type 0
Fits t = length t.buffer ≤ max_msg_size

-- The entry of the table is that of a thread with its socket.
abbrev pub Has : List Thread → Client → Type 0
Has threads c = (t : Thread) × (get_elem? threads c.io_tid ≡ some t) × (t.client_fd ≡ c.fd)

pub All-remove_client :
    (P : Client → Type 0) (fd : ℕ) (cs : List Client) → All P cs → All P (remove_client fd cs)
unfolding remove_client index_of_fd
All-remove_client P fd [] a = tt
All-remove_client P fd (c ∷ cs) a = elim (Option-cases (index_of_fd fd (c ∷ cs))) [
  | inl e ↦ rw (remove_client, e) a
  | inr (i, e) ↦ elim (Bool-cases (ltb i (length (c ∷ cs) - 1))) [
    | inl l ↦
        rw (remove_client, e, l)
          (All-take P (length (c ∷ cs) - 1) _ (
            All-set P (c ∷ cs) i _ a
              (All-get_or P (length (c ∷ cs) - 1) _ (c ∷ cs) a (omega arith))))
    | inr l ↦ rw (remove_client, e, l) (All-take P (length (c ∷ cs) - 1) (c ∷ cs) a)
  ]
]

pub remove_client-le : (fd : ℕ) (cs : List Client) → length (remove_client fd cs) ≤ length cs
unfolding remove_client
remove_client-le fd cs = elim (Option-cases (index_of_fd fd cs)) [
  | inl e ↦ rw (remove_client, e) (omega arith)
  | inr (i, e) ↦ elim (Bool-cases (ltb i (length cs - 1))) [
    | inl l ↦
        let there : Client = record { fd = 0; io_tid = 0 } in
        let moved = set cs i (get_or cs (length cs - 1) there) in
        rw (remove_client, e, l)
          (omega (
            arith,
            length-take (length cs - 1) moved,
            length-set cs i (get_or cs (length cs - 1) there),
          ))
    | inr l ↦ rw (remove_client, e, l) (omega (arith, length-take (length cs - 1) cs))
  ]
]

handle-le : (peer : Peer) (b : Bytes) (s : Server) → length ((handle_message peer b s).1) ≤ length b
unfolding handle_message
handle-le peer [] s = omega arith
handle-le peer (x ∷ b) s = elim (Option-cases (memchr newline (x ∷ b))) [
  | inl m ↦ rw (handle_incomplete peer x b s m) (omega arith)
  | inr (i, m) ↦
      let l = length-drop (i + 1) (x ∷ b) in
      let l' = length-drop i b in
      let (t, c) = handle_complete peer i x b s m in
      elim c [ inl e ↦ rw (e) (omega arith) | inr e ↦ rw (e) (omega arith) ]
]

after-Fits :
    (r : ℤ) (left : Bytes) (t : Thread)
    → Fits t
    → length left ≤ max_msg_size
    → Fits (after_message r left t) × ((after_message r left t).client_fd ≡ t.client_fd)
after-Fits (pos zero) left t f l = (f, refl)
after-Fits (pos (suc n)) left t f l = (l, refl)
after-Fits (negsuc zero) left t f l = (f, refl)
after-Fits (negsuc (suc n)) left t f l = (f, refl)

-- The buffer stays within its array, and the thread keeps its socket.
handle_next-Fits :
    (peer : Peer) (k : Bool) (t : Thread) (s : Server)
    → Fits t
    → Fits ((handle_next peer k t s).0) × ((handle_next peer k t s).0.client_fd ≡ t.client_fd)
unfolding handle_next
handle_next-Fits peer k t s f = elim (Bool-cases (length t.buffer == 0)) [
  | inl z ↦ rw (handle_next, z) (f, refl)
  | inr z ↦ elim (Bool-cases (k && takes_lock t.buffer)) [
    | inl q ↦ rw (handle_next, z, q) (f, refl)
    | inr q ↦
        rw (handle_next, z, q) (after-Fits _ _ t f (omega (arith, f, handle-le peer t.buffer s)))
  ]
]

read_into-Fits :
    (r : Read) (t : Thread)
    → Fits t
    → Fits (read_into r t) × ((read_into r t).client_fd ≡ t.client_fd)
unfolding read_into
read_into-Fits again t f = (f, refl)
read_into-Fits broken t f = (f, refl)
read_into-Fits (received bytes) t f =
    let got = take (max_msg_size - length t.buffer) bytes in
    elim (Bool-cases (length got == 0)) [
      | inl e ↦ rw (read_into, e) (f, refl)
      | inr e ↦
          rw (read_into, e)
            (
              omega (
                arith,
                f,
                length-append t.buffer got,
                length-take (max_msg_size - length t.buffer) bytes,
              ),
              refl,
            )
    ]

pub run_client_io-Fits :
    (st : Stage) (peer : Peer) (r : Read) (k : Bool) (t : Thread) (s : Server) (cs : List Client)
    → t.stage ≡ st
    → Fits t
    → Fits ((run_client_io peer r k t s cs).0)
      × ((run_client_io peer r k t s cs).0.client_fd ≡ t.client_fd)
unfolding run_client_io
run_client_io-Fits testing peer r k t s cs e f = rw (run_client_io, e) (f, refl)
run_client_io-Fits reading peer r k t s cs e f = rw (run_client_io, e) (read_into-Fits r t f)
run_client_io-Fits handling peer r k t s cs e f =
    rw (run_client_io, e) (handle_next-Fits peer k t s f)
run_client_io-Fits leaving peer r true t s cs e f = rw (run_client_io, e) (f, refl)
run_client_io-Fits leaving peer r false t s cs e f = rw (run_client_io, e) (f, refl)
run_client_io-Fits ended peer r k t s cs e f = rw (run_client_io, e) (f, refl)

-- The table is as before, or less a client.
pub run_client_io_clients :
    (st : Stage) (peer : Peer) (r : Read) (k : Bool) (t : Thread) (s : Server) (cs : List Client)
    → t.stage ≡ st
    → ((run_client_io peer r k t s cs).2 ≡ cs)
      ⊎ ((run_client_io peer r k t s cs).2 ≡ remove_client t.client_fd cs)
unfolding run_client_io
run_client_io_clients testing peer r k t s cs e = inl (rw (run_client_io, e))
run_client_io_clients reading peer r k t s cs e = inl (rw (run_client_io, e))
run_client_io_clients handling peer r k t s cs e = inl (rw (run_client_io, e))
run_client_io_clients leaving peer r true t s cs e = inl (rw (run_client_io, e))
run_client_io_clients leaving peer r false t s cs e = inr (rw (run_client_io, e))
run_client_io_clients ended peer r k t s cs e = inl (rw (run_client_io, e))

pub Has-set :
    (ts : List Thread) (i : ℕ) (t t' : Thread) (c : Client)
    → get_elem? ts i ≡ some t
    → t'.client_fd ≡ t.client_fd
    → Has ts c
    → Has (set ts i t') c
Has-set ts i t t' c e same (u, g, h) = elim (Bool-cases (c.io_tid == i)) [
  | inl q ↦
      let k : c.io_tid ≡ i = ground arith in
      let g' : get_elem? ts i ≡ some u = subst (λ n. get_elem? ts n ≡ some u) k g in
      let w : t ≡ u = cc in
      (
        t',
        ap (get_elem? (set ts i t')) k ∙ get_elem?-set_self ts i t' (index_lt i t ts e),
        same ∙ (ap (λ z. z.client_fd) w ∙ h),
      )
  | inr q ↦ let k : i ≢ c.io_tid = ground arith in (u, get_elem?-set_ne ts t' k ∙ g, h)
]

pub Has-append : (ts : List Thread) (t : Thread) (c : Client) → Has ts c → Has (ts ++ (t ∷ [])) c
Has-append ts t c (u, g, h) = (u, get_elem?-append c.io_tid u ts (t ∷ []) g, h)
