-- ===== src/Collect/Tests.antt =====
-- A run of lab/server.c in which one client sends all messages.
use cmpt201_coursework.Prelude.{
  ℕ, zero, suc, ◌+◌, ◌≤◌, ◌<◌, ◌≡◌, refl, true, List, [], ◌∷◌, ◌++◌, arith, length, ◌==◌,
  if◌then◌else◌, ok, fault, get_elem?, Option-cases, inl, inr,
}
use cmpt201_coursework.Collect.{
  max_clients, Nodes, Read, bytes, State, client_round, client_turn, acceptor_round, add_to_list,
  initial, has_joined, finish,
}
use cmpt201_coursework.Collect.Chain.{Entry, IsFresh, all_end, messages}
use cmpt201_coursework.Collect.Turns.{
  Reaches, start, client_goes, acceptor_goes, adds, finish-collects,
}
use cmpt201_coursework.Collect.Ends.{server-ends}

abbrev nodes : Nodes
nodes = record { next = λ _. 7; data_of = λ _. [] }

-- A client has connected.
abbrev connected : State
connected = acceptor_round true (0 ∷ 0 ∷ 0 ∷ []) (initial 50 nodes)

-- The message "hi".
abbrev hi : Read
hi = bytes (104 ∷ 105 ∷ [])

-- It has sent `n` messages, for which `malloc` has given the addresses from 100 on.
unfoldable after : ℕ → State
after zero = connected
after (suc n) = client_turn 0 hi (100 + n) (after n)

unfoldable entries : ℕ → List Entry
entries zero = []
entries (suc n) = entries n ++ adds 0 hi (100 + n) (after n)

IsFresh-append :
    (new : ℕ) (xs ys : List Entry) → IsFresh new xs → IsFresh new ys → IsFresh new (xs ++ ys)
IsFresh-append new [] ys f g = g
IsFresh-append new (x ∷ xs) ys f g = (f.0, IsFresh-append new xs ys f.1 g)

adds-IsFresh : (i p new : ℕ) (r : Read) (s : State) → p < new → IsFresh new (adds i r p s)
unfolding adds
adds-IsFresh i p new r s lt = elim (Option-cases (get_elem? s.clients i)) [
  | inl e ↦ rw (adds, e) tt
  | inr (c, e) ↦ elim (Option-cases (client_round r c).1) [
    | inl n ↦ rw (adds, e, n) tt
    | inr (msg, n) ↦ rw (adds, e, n) (omega arith, tt)
  ]
]

entries-IsFresh : (n new : ℕ) → 100 + n ≤ new → IsFresh new (entries n)
unfolding entries
entries-IsFresh zero new h = tt
entries-IsFresh (suc n) new h =
    IsFresh-append new (entries n) (adds 0 hi (100 + n) (after n))
      (entries-IsFresh n new (omega arith))
      (adds-IsFresh 0 (100 + n) new hi (after n) (omega arith))

sends : (n : ℕ) → Reaches 50 (initial 50 nodes) [] (after n) (entries n)
unfolding entries after
sends zero = acceptor_goes true (0 ∷ 0 ∷ 0 ∷ []) start
sends (suc n) =
    client_goes 0 hi (100 + n) (omega arith) (omega arith)
      (entries-IsFresh n (100 + n) (omega arith)) (sends n)

twenty : length (entries 20) ≡ 20
unfolding entries after adds client_turn client_round acceptor_round add_to_list
twenty = refl

finish-collects_example :
    (finish 21 50 (after 20) ≡ (
      if length (entries 20) == 20
      then if all_end (entries 20) then ok (0, messages (entries 20)) else fault
      else ok (1, [])))
    × (length (after 20).clients ≤ max_clients)
finish-collects_example =
    finish-collects 21 50 nodes (after 20) (entries 20) (sends 20) (omega (arith, twenty))
      (omega (arith, twenty))

server-ends_example :
    (t : State) × Reaches 50 (after 20) (entries 20) t (entries 20) × (has_joined t ≡ true)
server-ends_example =
    server-ends 50 200 nodes (after 20) (entries 20) (sends 20) (omega (arith, twenty))
      (omega (arith, twenty)) (omega arith) (omega arith) (entries-IsFresh 20 200 (omega arith))
