-- ===== src/Tally/Counts.antt =====
-- The counts that the server of lab9 prints, and the ids of its clients.
use cmpt201_coursework.Prelude.{
  ℕ, zero, suc, ◌+◌, ◌^◌, ◌≡◌, refl, ap, ap₂, sym, subst, ◌∙◌, inl, inr, ◌⊎◌, Bool-cases,
  Option-cases, some, List, [], ◌∷◌, ◌++◌, map, arith, ltb, length, length-append, length-set,
  get_elem?, set, take, Run, ok, fault, out_of_fuel,
}
use mathlib.Core.List.{append-nil}
use cmpt201_coursework.Text.{Text}
use cmpt201_coursework.Tally.{
  buf_size, Stage, reading, counting, ended, Client, Event, message, total, State, Read, closed,
  received, start, read_turn, handle_client, client_turn, accept_turn, Goes, rest, client_goes,
  main_goes,
}

-- 1, …, n
abbrev pub numbers : ℕ → List ℕ
numbers zero = []
numbers (suc n) = numbers n ++ (suc n ∷ [])

-- The counts among the events.
abbrev pub totals : List Event → List ℕ
totals [] = []
totals (message id text ∷ es) = totals es
totals (total n ∷ es) = n ∷ totals es

-- How many messages are among the events.
abbrev pub messages : List Event → ℕ
messages [] = 0
messages (message id text ∷ es) = 1 + messages es
messages (total n ∷ es) = messages es

abbrev pub is_counting : Stage → ℕ
is_counting reading = 0
is_counting counting = 1
is_counting ended = 0

-- How many clients have a message that is not counted yet.
abbrev pub uncounted : List Client → ℕ
uncounted [] = 0
uncounted (c ∷ cs) = is_counting c.stage + uncounted cs

abbrev pub ids : List Client → List ℕ
ids cs = map (λ c. c.client_id) cs

totals-append : (es ds : List Event) → totals (es ++ ds) ≡ totals es ++ totals ds
totals-append [] ds = refl
totals-append (message id text ∷ es) ds = totals-append es ds
totals-append (total n ∷ es) ds = ap (λ l. n ∷ l) (totals-append es ds)

messages-append : (es ds : List Event) → messages (es ++ ds) ≡ messages es + messages ds
messages-append [] ds = omega arith
messages-append (message id text ∷ es) ds = omega (arith, messages-append es ds)
messages-append (total n ∷ es) ds = messages-append es ds

uncounted-append : (cs ds : List Client) → uncounted (cs ++ ds) ≡ uncounted cs + uncounted ds
uncounted-append [] ds = omega arith
uncounted-append (c ∷ cs) ds = omega (arith, uncounted-append cs ds)

uncounted-set :
    (i : ℕ) (c d : Client) (cs : List Client)
    → get_elem? cs i ≡ some c
    → uncounted (set cs i d) + is_counting c.stage ≡ uncounted cs + is_counting d.stage
uncounted-set i c d [] e = cc
uncounted-set zero c d (b ∷ cs) e =
    let k : b ≡ c = cc in
    let k' : is_counting b.stage ≡ is_counting c.stage = ap (λ z. is_counting z.stage) k in
    omega arith
uncounted-set (suc i) c d (b ∷ cs) e = omega (arith, uncounted-set i c d cs e)

ids-set :
    (i : ℕ) (c d : Client) (cs : List Client)
    → get_elem? cs i ≡ some c
    → d.client_id ≡ c.client_id
    → ids (set cs i d) ≡ ids cs
ids-set i c d [] e h = refl
ids-set zero c d (b ∷ cs) e h =
    let k : b ≡ c = cc in ap (λ z. z ∷ ids cs) (h ∙ sym (ap (λ z. z.client_id) k))
ids-set (suc i) c d (b ∷ cs) e h = ap (λ l. b.client_id ∷ l) (ids-set i c d cs e h)

ids-append : (cs ds : List Client) → ids (cs ++ ds) ≡ ids cs ++ ids ds
ids-append [] ds = refl
ids-append (c ∷ cs) ds = ap (λ l. c.client_id ∷ l) (ids-append cs ds)

-- What a turn of a thread may do: its client keeps its id, and either nothing is counted, or the next
-- count is printed.
pub record Counts (c : Client) (count : ℕ) (p : Client × ℕ × List Event) : Type 0 where
  pub same : p.0.client_id ≡ c.client_id
  pub printed : numbers count ++ totals p.2 ≡ numbers p.1
  pub balance : messages p.2 + count + is_counting c.stage ≡ p.1 + is_counting p.0.stage

ok-inj : (p q : Client × ℕ × List Event) → ok p ≡ ok q → p ≡ q
ok-inj p q e = cc

numbers_next : (n : ℕ) → numbers n ++ ((n + 1) ∷ []) ≡ numbers (n + 1)
numbers_next n =
    let k : n + 1 ≡ suc n = omega arith in ap (λ m. numbers n ++ (m ∷ [])) k ∙ ap numbers (sym k)

kept-Counts :
    (c : Client) (count : ℕ) (st : Stage)
    → is_counting c.stage ≡ is_counting st
    → Counts c count (record c { stage = st }, count, [])
kept-Counts c count st e = record {
  same = refl;
  printed = append-nil (numbers count);
  balance = omega arith;
}

at-Counts :
    (c : Client) (count : ℕ) (p q : Client × ℕ × List Event) (r : Read)
    → handle_client r c count ≡ ok q
    → handle_client r c count ≡ ok p
    → Counts c count q
    → Counts c count p
at-Counts c count p q r e h k = subst (Counts c count) (ok-inj q p (sym e ∙ h)) k

received-Counts :
    (text : Text) (c : Client) (count : ℕ) (p : Client × ℕ × List Event)
    → c.stage ≡ reading
    → handle_client (received text) c count ≡ ok p
    → Counts c count p
unfolding handle_client read_turn
received-Counts text c count p e h =
    let got = take buf_size text in
    let idle : is_counting c.stage ≡ 0 = ap is_counting e in
    elim (Bool-cases (ltb (length got) 1)) [
      | inl a ↦
          at-Counts c count p (record c { stage = ended }, count, []) (received text)
            (rw (handle_client, e, read_turn, a)) h (kept-Counts c count ended idle)
      | inr a ↦ elim (Bool-cases (ltb (length got) buf_size)) [
        | inl b ↦
            at-Counts c count p (record c { stage = counting }, count, message c.client_id got ∷ [])
              (received text) (rw (handle_client, e, read_turn, a, b)) h
              (record { same = refl; printed = append-nil (numbers count); balance = omega arith })
        | inr b ↦ let q : fault ≡ ok p = sym (rw (handle_client, e, read_turn, a, b)) ∙ h in cc
      ]
    ]

handle-Counts :
    (st : Stage) (r : Read) (c : Client) (count : ℕ) (p : Client × ℕ × List Event)
    → c.stage ≡ st
    → handle_client r c count ≡ ok p
    → Counts c count p
unfolding handle_client read_turn
handle-Counts reading closed c count p e h =
    at-Counts c count p (record c { stage = ended }, count, []) closed (rw (handle_client, e)) h
      (kept-Counts c count ended (ap is_counting e))
handle-Counts reading (received text) c count p e h = received-Counts text c count p e h
handle-Counts counting r c count p e h =
    let busy : is_counting c.stage ≡ 1 = ap is_counting e in
    elim (Bool-cases (ltb (count + 1) (2 ^ 31))) [
      | inl a ↦
          at-Counts c count p (record c { stage = reading }, count + 1, total (count + 1) ∷ []) r
            (rw (handle_client, e, a)) h
            (record { same = refl; printed = numbers_next count; balance = omega arith })
      | inr a ↦ let q : fault ≡ ok p = sym (rw (handle_client, e, a)) ∙ h in cc
    ]
handle-Counts ended r c count p e h =
    at-Counts c count p (record c { stage = ended }, count, []) r
      (rw (handle_client, e) (ap (λ z. ok (record c { stage = z }, count, [])) e)) h
      (kept-Counts c count ended (ap is_counting e))

-- The ids are 1, 2, … in the order of the connections, the counts printed are 1, 2, … up to the count,
-- and the messages printed are those counted and those that threads have yet to count.
pub record Counted (s : State) : Type 0 where
  pub identified : ids s.clients ≡ numbers (length s.clients)
  pub next : s.client_id_counter ≡ length s.clients + 1
  pub shown : totals s.printed ≡ numbers s.total_message_count
  pub balanced : messages s.printed ≡ s.total_message_count + uncounted s.clients

-- The state with one more client.
accepted : ℕ → State → State
accepted cfd s =
    let new : Client = record { cfd = cfd; client_id = s.client_id_counter; stage = reading } in
    record s { client_id_counter = s.client_id_counter + 1; clients = s.clients ++ (new ∷ []) }

accepted-Counted : (cfd : ℕ) (s : State) → Counted s → Counted (accepted cfd s)
unfolding accepted
accepted-Counted cfd s h =
    let new : Client = record { cfd = cfd; client_id = s.client_id_counter; stage = reading } in
    let l = length-append s.clients (new ∷ []) in
    let k : length (s.clients ++ (new ∷ [])) ≡ length s.clients + 1 = omega arith in
    record {
      identified =
          ids-append s.clients (new ∷ [])
          ∙ (ap₂ (λ xs n. xs ++ (n ∷ [])) h.identified h.next
              ∙ (numbers_next (length s.clients) ∙ ap numbers (sym k)));
      next = omega (arith, h.next);
      shown = h.shown;
      balanced = omega (arith, h.balanced, uncounted-append s.clients (new ∷ []));
    }

State-inj : (s t : State) → ok s ≡ ok t → s ≡ t
State-inj s t e = cc

accept-Counted : (cfd : ℕ) (s t : State) → accept_turn cfd s ≡ ok t → Counted s → Counted t
unfolding accept_turn accepted
accept-Counted cfd s t e h = elim (Bool-cases (ltb (s.client_id_counter + 1) (2 ^ 31))) [
  | inl a ↦
      let q : accept_turn cfd s ≡ ok (accepted cfd s) = rw (accept_turn, a) in
      subst Counted (State-inj (accepted cfd s) t (sym q ∙ e)) (accepted-Counted cfd s h)
  | inr a ↦ let q : fault ≡ ok t = sym (rw (accept_turn, a)) ∙ e in cc
]

-- The state after the turn of the client `i`.
turned : ℕ → State → Client × ℕ × List Event → State
turned i s p = record s {
  total_message_count = p.1;
  clients = set s.clients i p.0;
  printed = s.printed ++ p.2;
}

turned-Counted :
    (i : ℕ) (s : State) (c : Client) (p : Client × ℕ × List Event)
    → get_elem? s.clients i ≡ some c
    → Counts c s.total_message_count p
    → Counted s
    → Counted (turned i s p)
unfolding turned
turned-Counted i s c p e q h =
    let l = length-set s.clients i p.0 in
    record {
      identified = ids-set i c p.0 s.clients e q.same ∙ (h.identified ∙ ap numbers (sym l));
      next = omega (arith, h.next);
      shown = totals-append s.printed p.2 ∙ (ap (λ xs. xs ++ totals p.2) h.shown ∙ q.printed);
      balanced = omega (
        arith,
        h.balanced,
        q.balance,
        messages-append s.printed p.2,
        uncounted-set i c p.0 s.clients e,
      );
    }

Run-cases :
    (r : Run (Client × ℕ × List Event))
    → (((p : Client × ℕ × List Event) × (r ≡ ok p)) ⊎ (r ≡ fault)) ⊎ (r ≡ out_of_fuel)
Run-cases (ok p) = inl (inl (p, refl))
Run-cases fault = inl (inr refl)
Run-cases out_of_fuel = inr refl

client-Counted : (i : ℕ) (r : Read) (s t : State) → client_turn i r s ≡ ok t → Counted s → Counted t
unfolding client_turn turned
client-Counted i r s t e h = elim (Option-cases (get_elem? s.clients i)) [
  | inl g ↦ subst Counted (State-inj s t (sym (rw (client_turn, g)) ∙ e)) h
  | inr (c, g) ↦ elim (Run-cases (handle_client r c s.total_message_count)) [
    | inl (inl (p, z)) ↦
        let turn : client_turn i r s ≡ ok (turned i s p) = rw (client_turn, g, z) in
        subst Counted (State-inj (turned i s p) t (sym turn ∙ e))
          (turned-Counted i s c p g (handle-Counts c.stage r c s.total_message_count p refl z) h)
    | inl (inr z) ↦ let q : fault ≡ ok t = sym (rw (client_turn, g, z)) ∙ e in cc
    | inr z ↦ let q : out_of_fuel ≡ ok t = sym (rw (client_turn, g, z)) ∙ e in cc
  ]
]

Goes-Counted : {s v : State} → Goes s v → Counted s → Counted v
Goes-Counted rest h = h
Goes-Counted (client_goes i r {s} {t} e p) h = Goes-Counted p (client-Counted i r s t e h)
Goes-Counted (main_goes cfd {s} {t} e p) h = Goes-Counted p (accept-Counted cfd s t e h)

-- In every run of the server, in whatever order the threads take their turns, the clients have the ids
-- 1, 2, … in the order of their connections, the counts printed are 1, 2, … up to the count, and the
-- count is that of the messages printed, less those that their threads have yet to count.
pub Goes-counts :
    (s : State)
    → Goes start s
    → (ids s.clients ≡ numbers (length s.clients))
      × (totals s.printed ≡ numbers s.total_message_count)
      × (messages s.printed ≡ s.total_message_count + uncounted s.clients)
Goes-counts s p =
    let h =
      Goes-Counted p
        (record { identified = refl; next = omega arith; shown = refl; balanced = omega arith }) in
    (h.identified, h.shown, h.balanced)
