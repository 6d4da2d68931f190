-- ===== src/Collect/Ends.antt =====
-- The end of lab/server.c: the threads can always be brought to it.
use mathlib.Core.List.{append-nil}
use cmpt201_coursework.Prelude.{
  ℕ, zero, suc, ◌+◌, ◌-◌, ◌*◌, ◌^◌, ◌≤◌, ◌<◌, ◌≡◌, ◌≢◌, refl, sym, ap, subst, ◌∙◌, inl, inr,
  Bool-cases, true, false, none, some, List, [], ◌++◌, arith, leb, length, length-set, get_elem?,
  get_elem?-set_self, index_lt, some_at, set,
}
use cmpt201_coursework.Collect.{
  null, max_clients, num_msg_per_client, Nodes, again, Client, client_round, State, client_turn,
  acceptor_round, main_round, initial, has_joined,
}
use cmpt201_coursework.Collect.Chain.{Entry, IsFresh}
use cmpt201_coursework.Collect.Turns.{
  Reaches, start, client_goes, acceptor_goes, acceptor_joins, main_goes, turn_quiet, join_clears,
  join_joins, Holds, Reaches-Holds,
}

-- The turns of one run and those of a run from its end.
Reaches-trans :
    {head : ℕ} {s t : State} {xs ys : List Entry}
    → Reaches head s xs t ys
    → {u : State} {zs : List Entry} → Reaches head t ys u zs
    → Reaches head s xs u zs
Reaches-trans p start = p
Reaches-trans p (client_goes i r new live ne f q) =
    client_goes i r new live ne f (Reaches-trans p q)
Reaches-trans p (acceptor_goes connected stack q) =
    acceptor_goes connected stack (Reaches-trans p q)
Reaches-trans p (acceptor_joins q) = acceptor_joins (Reaches-trans p q)
Reaches-trans p (main_goes q) = main_goes (Reaches-trans p q)

-- The acceptor is in its second loop, at a client.
record Joins (n j : ℕ) (s : State) : Type 0 where
  pub at : s.joined ≡ j
  pub clients : length s.clients ≡ n
  pub no_more : s.accepting ≡ false
  pub left : s.waiting ≡ false

module _ (head new : ℕ) (xs : List Entry) (live : new ≢ null) (apart : head ≢ new)
    (free : IsFresh new xs) where
  abbrev To : State → (State → Type 0) → Type 0
  To s P = (t : State) × Reaches head s xs t xs × P t

  then_to : {P Q : State → Type 0} {s : State} → To s P → ((t : State) → P t → To t Q) → To s Q
  then_to (t, p, h) f = let (u, q, h') = f t h in (u, Reaches-trans p q, h')

  -- The flag of the client is cleared.
  clear :
      (n j : ℕ) (s : State)
      → Joins n j s
      → j < n
      → To s (λ t.
        Joins n j t × ((c : Client) × (get_elem? t.clients t.joined ≡ some c) × (c.run ≡ false)))
  clear n j s h lt =
      let (c, e) = some_at s.joined s.clients (omega (arith, h.clients, h.at)) in
      elim (Bool-cases c.run) [
        | inl f ↦
            let c' : Client = record c { run = false } in
            let t : State = record s { clients = set s.clients s.joined c' } in
            (
              t,
              subst (λ z. Reaches head s xs z xs) (join_clears s h.no_more c e f)
                  (acceptor_joins start),
              (
                record {
                  at = h.at;
                  clients = length-set s.clients s.joined c' ∙ h.clients;
                  no_more = h.no_more;
                  left = h.left;
                },
                (
                  c',
                  get_elem?-set_self s.clients s.joined c' (omega (arith, h.clients, h.at)),
                  refl,
                ),
              ),
            )
        | inr f ↦ (s, start, (h, (c, e, f)))
      ]

  round-leaves :
      (c : Client)
      → c.in_loop ≡ true
      → c.run ≡ false
      → client_round again c ≡ (record c { in_loop = false }, none)
  unfolding client_round
  round-leaves c g f = rw (client_round, g, f)

  -- The thread of the client leaves its loop.
  leave :
      (n j : ℕ) (s : State) (c : Client)
      → Joins n j s
      → get_elem? s.clients s.joined ≡ some c
      → c.run ≡ false
      → To s (λ t.
        Joins n j t
        × ((c : Client) × (get_elem? t.clients t.joined ≡ some c)
            × (c.run ≡ false)
            × (c.in_loop ≡ false)))
  leave n j s c h e f = elim (Bool-cases c.in_loop) [
    | inl g ↦
        let c' : Client = record c { in_loop = false } in
        let r = round-leaves c g f in
        let t : State = record s { clients = set s.clients s.joined c' } in
        let (q, a) = turn_quiet s.joined again new s c e (ap (λ z. z.1) r) in
        let q' : client_turn s.joined again new s ≡ t =
          q ∙ ap (λ z. record s { clients = set s.clients s.joined z.0 }) r in
        (
          t,
          subst (λ z. Reaches head s xs z xs) q'
              (subst (λ z. Reaches head s xs (client_turn s.joined again new s) z)
                (ap (λ z. xs ++ z) a ∙ append-nil xs)
                (client_goes s.joined again new live apart free start)),
          (
            record {
              at = h.at;
              clients = length-set s.clients s.joined c' ∙ h.clients;
              no_more = h.no_more;
              left = h.left;
            },
            (
              c',
              get_elem?-set_self s.clients s.joined c' (index_lt s.joined c s.clients e),
              f,
              refl,
            ),
          ),
        )
    | inr g ↦ (s, start, (h, (c, e, f, g)))
  ]

  -- The thread is joined.
  join :
      (n j : ℕ) (s : State) (c : Client)
      → Joins n j s
      → get_elem? s.clients s.joined ≡ some c
      → c.run ≡ false
      → c.in_loop ≡ false
      → To s (λ t. Joins n (j + 1) t)
  join n j s c h e f g = (
    record s { joined = s.joined + 1 },
    subst (λ z. Reaches head s xs z xs) (join_joins s h.no_more c e f g) (acceptor_joins start),
    record { at = ap (λ z. z + 1) h.at; clients = h.clients; no_more = h.no_more; left = h.left },
  )

  all_joined : (d n j : ℕ) (s : State) → Joins n j s → j + d ≡ n → To s (λ t. Joins n n t)
  all_joined zero n j s h e = (s, start, subst (λ z. Joins n z s) (omega arith) h)
  all_joined (suc d) n j s h e = then_to (clear n j s h (omega arith)) (λ t (h, (c, e', f)).
      then_to (leave n j t c h e' f) (λ u (h', (c', e'', f', g)).
        then_to (join n j u c' h' e'' f' g) (λ v h''. all_joined d n (j + 1) v h'' (omega arith))))

  stops :
      (s : State)
      → s.waiting ≡ true
      → leb (max_clients * num_msg_per_client) s.handle.count ≡ true
      → main_round s ≡ record s { waiting = false; run = false }
  unfolding main_round
  stops s w n = rw (main_round, w, n)

  -- `main` leaves its loop, and clears the flag of the acceptor.
  stop :
      (s : State)
      → Holds head s xs
      → max_clients * num_msg_per_client ≤ length xs
      → length xs < 2 ^ 32
      → To s (λ t. (t.waiting ≡ false) × (t.run ≡ false) × (t.joined ≤ length t.clients))
  stop s h enough small = elim (Bool-cases s.waiting) [
    | inl w ↦
        let n : leb (max_clients * num_msg_per_client) s.handle.count ≡ true =
          ground (arith, h.counted) in
        (
          record s { waiting = false; run = false },
          subst (λ z. Reaches head s xs z xs) (stops s w n) (main_goes start),
          (refl, refl, h.within),
        )
    | inr w ↦ (s, start, (w, h.flagged w, h.within))
  ]

  closes :
      (s : State)
      → s.accepting ≡ true
      → s.run ≡ false
      → acceptor_round false [] s ≡ record s { accepting = false }
  unfolding acceptor_round
  closes s a r = rw (acceptor_round, a, r)

  -- The acceptor goes on to its second loop.
  close :
      (s : State)
      → s.waiting ≡ false
      → s.run ≡ false
      → To s (λ t. Joins (length s.clients) s.joined t)
  close s w r = elim (Bool-cases s.accepting) [
    | inl a ↦ (
      record s { accepting = false },
      subst (λ z. Reaches head s xs z xs) (closes s a r) (acceptor_goes false [] start),
      record { at = refl; clients = refl; no_more = refl; left = w },
    )
    | inr a ↦ (s, start, record { at = refl; clients = refl; no_more = a; left = w })
  ]

  ended : (n : ℕ) (s : State) → Joins n n s → has_joined s ≡ true
  ended n s h = let w = h.left in let a = h.no_more in let j = h.at ∙ sym h.clients in ground arith

-- From every state that a run reaches, once 20 messages or more are in, the threads can be brought
-- to their end by further turns that add nothing, if `malloc` still has an address to give.
pub server-ends :
    (head new : ℕ) (m : Nodes) (s : State) (xs : List Entry)
    → Reaches head (initial head m) [] s xs
    → max_clients * num_msg_per_client ≤ length xs
    → length xs < 2 ^ 32
    → new ≢ null
    → head ≢ new
    → IsFresh new xs
    → (t : State) × Reaches head s xs t xs × (has_joined t ≡ true)
server-ends head new m s xs p enough small live apart free =
    let h = Reaches-Holds m p in
    let (t, q, (w, r, l)) = stop head new xs live apart free s h enough small in
    let (u, q', j) = close head new xs live apart free t w r in
    let (v, q'', j') =
      all_joined head new xs live apart free (length t.clients - t.joined) (length t.clients)
        t.joined u j (omega arith) in
    (
      v,
      Reaches-trans q (Reaches-trans q' q''),
      ended head new xs live apart free (length t.clients) v j',
    )
