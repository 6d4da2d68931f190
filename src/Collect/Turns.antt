-- ===== src/Collect/Turns.antt =====
-- Runs of the threads of lab/server.c.
use mathlib.Core.List.{append-nil}
use cmpt201_coursework.Prelude.{
  ℕ, ◌+◌, ◌*◌, ◌%◌, ◌^◌, ◌≤◌, ◌<◌, ◌≡◌, ◌≢◌, refl, ap, ◌∙◌, inl, inr, Bool-cases, Option-cases,
  Bool, true, false, none, some, List, [], ◌∷◌, ◌++◌, arith, ◌==◌, if◌then◌else◌, length,
  length-append, length-set, length-map, get_elem?, index_lt, set, ok, fault,
}
use cmpt201_coursework.Text.{Text, before_nul}
use cmpt201_coursework.Collect.{
  null, max_clients, num_msg_per_client, Nodes, new_node, add_to_list, Read, Client, client_round,
  State, client_turn, acceptor_round, acceptor_join, main_round, initial, finish,
}
use cmpt201_coursework.Collect.Chain.{
  Entry, Linked, IsFresh, add-Linked, all_end, messages, collect_all-Linked,
}

-- The message that a turn of a client's thread adds, with the address of its node.
unfoldable pub adds : ℕ → Read → ℕ → State → List Entry
adds i r new s = elim (get_elem? s.clients i) [
  | none ↦ []
  | some c ↦ elim (client_round r c).1 [ none ↦ [] | some msg ↦ (new, msg) ∷ [] ]
]

-- What the turns of the threads lead to from a state, in any order, with the messages added so far.
-- `malloc` gives an address that is not `NULL` and not in use.
pub data Reaches (head : ℕ) (s₀ : State) (xs₀ : List Entry) : State → List Entry → Type 0 where
  start : Reaches head s₀ xs₀ s₀ xs₀
  client_goes :
      (i : ℕ) (r : Read) (new : ℕ) {s : State} {xs : List Entry}
      → new ≢ null
      → head ≢ new
      → IsFresh new xs
      → Reaches head s₀ xs₀ s xs
      → Reaches head s₀ xs₀ (client_turn i r new s) (xs ++ adds i r new s)
  acceptor_goes :
      (connected : Bool) (stack : Text) {s : State} {xs : List Entry}
      → Reaches head s₀ xs₀ s xs
      → Reaches head s₀ xs₀ (acceptor_round connected stack s) xs
  acceptor_joins :
      {s : State} {xs : List Entry}
      → Reaches head s₀ xs₀ s xs
      → Reaches head s₀ xs₀ (acceptor_join s) xs
  main_goes :
      {s : State} {xs : List Entry}
      → Reaches head s₀ xs₀ s xs
      → Reaches head s₀ xs₀ (main_round s) xs

-- The list has the messages added so far, and the count, which wraps around, is theirs; there are
-- at most four clients, of which no more than there are have been joined. `main` clears the flag of
-- the acceptor when it leaves its loop.
pub record Holds (head : ℕ) (s : State) (xs : List Entry) : Type 0 where
  pub linked : Linked s.handle.nodes head xs s.handle.last
  pub counted : s.handle.count ≡ length xs % 2 ^ 32
  pub few : length s.clients ≤ max_clients
  pub within : s.joined ≤ length s.clients
  pub flagged : s.waiting ≡ false → s.run ≡ false

module _ (i : ℕ) (r : Read) (new : ℕ) (s : State) where
  turn_none : get_elem? s.clients i ≡ none → (client_turn i r new s ≡ s) × (adds i r new s ≡ [])
  unfolding client_turn adds
  turn_none e = (rw (client_turn, e), rw (adds, e))

  pub turn_quiet :
      (c : Client)
      → get_elem? s.clients i ≡ some c
      → (client_round r c).1 ≡ none
      → (client_turn i r new s ≡ record s { clients = set s.clients i (client_round r c).0 })
        × (adds i r new s ≡ [])
  unfolding client_turn adds
  turn_quiet c e n = (rw (client_turn, e, n), rw (adds, e, n))

  turn_adds :
      (c : Client) (msg : Text)
      → get_elem? s.clients i ≡ some c
      → (client_round r c).1 ≡ some msg
      → (client_turn i r new s ≡ record s {
        clients = set s.clients i (client_round r c).0;
        handle = add_to_list new (record s.handle { nodes = new_node s.handle.nodes new msg });
      })
        × (adds i r new s ≡ (new, msg) ∷ [])
  unfolding client_turn adds
  turn_adds c msg e n = (rw (client_turn, e, n), rw (adds, e, n))

client-Holds :
    (head i : ℕ) (r : Read) (new : ℕ) (s : State) (xs : List Entry)
    → new ≢ null
    → head ≢ new
    → IsFresh new xs
    → Holds head s xs
    → Holds head (client_turn i r new s) (xs ++ adds i r new s)
client-Holds head i r new s xs live ne f h = elim (Option-cases (get_elem? s.clients i)) [
  | inl e ↦ let (p, q) = turn_none i r new s e in rw (p, q, append-nil xs) h
  | inr (c, e) ↦
      let l = length-set s.clients i (client_round r c).0 in
      elim (Option-cases (client_round r c).1) [
        | inl n ↦
            let (p, q) = turn_quiet i r new s c e n in
            rw (p, q, append-nil xs)
              (record {
                linked = h.linked;
                counted = h.counted;
                few = omega (arith, h.few);
                within = omega (arith, h.within);
                flagged = h.flagged;
              })
        | inr (msg, n) ↦
            let (p, q) = turn_adds i r new s c msg e n in
            let (linked, counted) = add-Linked new msg s.handle head xs h.linked live ne f in
            rw (p, q)
              (record {
                linked = linked;
                counted = counted ∙ omega (arith, h.counted, length-append xs ((new, msg) ∷ []));
                few = omega (arith, h.few);
                within = omega (arith, h.within);
                flagged = h.flagged;
              })
      ]
]

acceptor-Holds :
    (head : ℕ) (connected : Bool) (stack : Text) (s : State) (xs : List Entry)
    → Holds head s xs
    → Holds head (acceptor_round connected stack s) xs
unfolding acceptor_round
acceptor-Holds head connected stack s xs h =
    let new : Client = record { run = true; in_loop = true; msg_buf = stack } in
    record {
      linked = ground (arith, h.linked);
      counted = ground (arith, h.counted);
      few = ground (arith, h.few, length-append s.clients (new ∷ []));
      within = ground (arith, h.within, length-append s.clients (new ∷ []));
      flagged = ground (arith, h.flagged);
    }

module _ (s : State) where
  join_early : s.accepting ≡ true → acceptor_join s ≡ s
  unfolding acceptor_join
  join_early a = rw (acceptor_join, a)

  module _ (a : s.accepting ≡ false) where
    join_over : get_elem? s.clients s.joined ≡ none → acceptor_join s ≡ s
    unfolding acceptor_join
    join_over e = rw (acceptor_join, a, e) (ap (λ z. record s { accepting = z }) a)

    module _ (c : Client) (e : get_elem? s.clients s.joined ≡ some c) where
      pub join_clears :
          c.run ≡ true
          → acceptor_join s
            ≡ record s { clients = set s.clients s.joined (record c { run = false }) }
      unfolding acceptor_join
      join_clears f =
          rw (acceptor_join, a, e, f)
            (ap
              (λ z. record s {
                clients = set s.clients s.joined (record c { run = false });
                accepting = z;
              })
              a)

      join_waits : c.run ≡ false → c.in_loop ≡ true → acceptor_join s ≡ s
      unfolding acceptor_join
      join_waits f g = rw (acceptor_join, a, e, f, g) (ap (λ z. record s { accepting = z }) a)

      pub join_joins :
          c.run ≡ false → c.in_loop ≡ false → acceptor_join s ≡ record s { joined = s.joined + 1 }
      unfolding acceptor_join
      join_joins f g =
          rw (acceptor_join, a, e, f, g)
            (ap (λ z. record s { joined = s.joined + 1; accepting = z }) a)

join-Holds :
    (head : ℕ) (s : State) (xs : List Entry) → Holds head s xs → Holds head (acceptor_join s) xs
join-Holds head s xs h = elim (Bool-cases s.accepting) [
  | inl a ↦ rw (join_early s a) h
  | inr a ↦ elim (Option-cases (get_elem? s.clients s.joined)) [
    | inl e ↦ rw (join_over s a e) h
    | inr (c, e) ↦ elim (Bool-cases c.run) [
      | inl f ↦
          let l = length-set s.clients s.joined (record c { run = false }) in
          rw (join_clears s a c e f) (record {
            linked = h.linked;
            counted = h.counted;
            few = omega (arith, h.few);
            within = omega (arith, h.within);
            flagged = h.flagged;
          })
      | inr f ↦ elim (Bool-cases c.in_loop) [
        | inl g ↦ rw (join_waits s a c e f g) h
        | inr g ↦
            let l = index_lt s.joined c s.clients e in
            rw (join_joins s a c e f g) (record {
              linked = h.linked;
              counted = h.counted;
              few = h.few;
              within = omega arith;
              flagged = h.flagged;
            })
      ]
    ]
  ]
]

main-Holds :
    (head : ℕ) (s : State) (xs : List Entry) → Holds head s xs → Holds head (main_round s) xs
unfolding main_round
main-Holds head s xs h = record {
  linked = ground (arith, h.linked);
  counted = ground (arith, h.counted);
  few = ground (arith, h.few);
  within = ground (arith, h.within);
  flagged = ground (arith, h.flagged);
}

initial-Holds : (head : ℕ) (m : Nodes) → Holds head (initial head m) []
initial-Holds head m = record {
  linked = (refl, ground arith);
  counted = refl;
  few = omega arith;
  within = omega arith;
  flagged = λ e. cc;
}

pub Reaches-Holds :
    {head : ℕ} (m : Nodes) {s : State} {xs : List Entry}
    → Reaches head (initial head m) [] s xs
    → Holds head s xs
Reaches-Holds {head} m start = initial-Holds head m
Reaches-Holds {head} m (client_goes i r new {s} {xs} live ne f p) =
    client-Holds head i r new s xs live ne f (Reaches-Holds m p)
Reaches-Holds {head} m (acceptor_goes connected stack {s} {xs} p) =
    acceptor-Holds head connected stack s xs (Reaches-Holds m p)
Reaches-Holds {head} m (acceptor_joins {s} {xs} p) = join-Holds head s xs (Reaches-Holds m p)
Reaches-Holds {head} m (main_goes {s} {xs} p) = main-Holds head s xs (Reaches-Holds m p)

-- In every run from the start, with fewer than 2^32 messages added, there are at most four clients,
-- and, if the messages are 20, the rest of `main` returns 0 and prints each up to its first NUL, in the
-- order of their additions, where every message has a NUL, and reads behind the buffer of one that has
-- none; if they are not 20, it returns 1 and prints none.
pub finish-collects :
    (k head : ℕ) (m : Nodes) (s : State) (xs : List Entry)
    → Reaches head (initial head m) [] s xs
    → length xs < 2 ^ 32
    → length xs < k
    → (finish k head s ≡ (
        if length xs == 20 then if all_end xs then ok (0, messages xs) else fault else ok (1, [])))
      × (length s.clients ≤ max_clients)
unfolding finish
finish-collects k head m s xs p small fuel =
    let h = Reaches-Holds m p in
    let n : s.handle.count ≡ length xs = h.counted ∙ omega arith in
    let e = collect_all-Linked k s.handle.nodes head s.handle.last xs h.linked fuel in
    let l = length-map xs (λ x. before_nul x.1) in
    elim (Bool-cases (length xs == 20)) [
      | inr q ↦
          let c : (s.handle.count == max_clients * num_msg_per_client) ≡ false = ground arith in
          (rw (q, c), h.few)
      | inl q ↦
          let c : (s.handle.count == max_clients * num_msg_per_client) ≡ true = ground arith in
          let c' : (length (messages xs) == s.handle.count) ≡ true = ground arith in
          elim (Bool-cases (all_end xs)) [
            | inl d ↦ (rw (q, c, e, d, c'), h.few)
            | inr d ↦ (rw (q, c, e, d), h.few)
          ]
    ]
