-- ===== src/Chat/Clients/Remove.antt =====
-- `remove_client` of servertest.c takes out one client and keeps the others, in some order.
use cmpt201_coursework.Prelude.{
  ℕ, zero, suc, ◌+◌, ◌-◌, ◌<◌, ◌≡◌, refl, subst, inl, inr, Bool-cases, Option-cases, Bool, none,
  some, List, [], ◌∷◌, arith, ltb, ◌==◌, if◌then◌else◌, length, length-set, get_or, set, take,
  ==_iff, ◌⊎◌,
}
use cmpt201_coursework.Chat.Clients.{Client, index_of_fd, remove_client}

-- How many clients satisfy a test.
abbrev pub tally : (Client → Bool) → List Client → ℕ
tally p [] = 0
tally p (c ∷ cs) = (if p c then 1 else 0) + tally p cs

index-found :
    (fd i : ℕ) (d : Client) (cs : List Client)
    → index_of_fd fd cs ≡ some i
    → (i < length cs) × ((get_or cs i d).fd ≡ fd)
unfolding index_of_fd
index-found fd i d [] h = cc
index-found fd zero d (c ∷ cs) h = elim (Bool-cases (c.fd == fd)) [
  | inl e ↦ (omega arith, (==_iff c.fd fd).0 e)
  | inr e ↦ elim (Option-cases (index_of_fd fd cs)) [
    | inl f ↦ ground arith
    | inr (j, f) ↦ ground arith
  ]
]
index-found fd (suc i) d (c ∷ cs) h = elim (Bool-cases (c.fd == fd)) [
  | inl e ↦ ground arith
  | inr e ↦ elim (Option-cases (index_of_fd fd cs)) [
    | inl f ↦ ground arith
    | inr (j, f) ↦
        let same : index_of_fd fd cs ≡ some i = ground arith in
        let (l, g) = index-found fd i d cs same in (omega arith, g)
  ]
]

tally-set :
    (p : Client → Bool) (i : ℕ) (c d : Client) (cs : List Client)
    → i < length cs
    → tally p (set cs i c) + (if p (get_or cs i d) then 1 else 0)
      ≡ tally p cs + (if p c then 1 else 0)
tally-set p i c d [] h = absurd (omega arith)
tally-set p zero c d (e ∷ cs) h = omega arith
tally-set p (suc i) c d (e ∷ cs) h = omega (arith, tally-set p i c d cs (omega arith))

tally-front :
    (p : Client → Bool) (n : ℕ) (d : Client) (cs : List Client)
    → length cs ≡ suc n
    → tally p (take n cs) + (if p (get_or cs n d) then 1 else 0) ≡ tally p cs
tally-front p n d [] h = absurd (omega arith)
tally-front p zero d (c ∷ []) h = omega arith
tally-front p zero d (c ∷ e ∷ cs) h = absurd (omega arith)
tally-front p (suc n) d (c ∷ cs) h = omega (arith, tally-front p n d cs (omega arith))

get_or-set :
    (i j : ℕ) (c d : Client) (cs : List Client) → i < j → get_or (set cs i c) j d ≡ get_or cs j d
get_or-set i j c d [] h = refl
get_or-set zero zero c d (e ∷ cs) h = absurd (omega arith)
get_or-set zero (suc j) c d (e ∷ cs) h = refl
get_or-set (suc i) zero c d (e ∷ cs) h = absurd (omega arith)
get_or-set (suc i) (suc j) c d (e ∷ cs) h = get_or-set i j c d cs (omega arith)

abbrev none_there : Client
none_there = record { fd = 0; io_tid = 0 }

-- Of a client in the table, `remove_client` removes the first entry: any test is then passed by as
-- many clients as before, less that entry. It changes nothing for a client that is not there.
pub remove_client-tally :
    (p : Client → Bool) (fd : ℕ) (clients : List Client)
    → ((index_of_fd fd clients ≡ none) × (remove_client fd clients ≡ clients))
      ⊎ ((i : ℕ) × (c : Client) × (c.fd ≡ fd)
          × (index_of_fd fd clients ≡ some i)
          × (tally p (remove_client fd clients) + (if p c then 1 else 0) ≡ tally p clients))
unfolding remove_client
remove_client-tally p fd clients = elim (Option-cases (index_of_fd fd clients)) [
  | inl e ↦ inl (e, rw (remove_client, e))
  | inr (i, e) ↦
      let (l, g) = index-found fd i none_there clients e in
      let n = length clients - 1 in
      let last = get_or clients n none_there in
      inr (
        i,
        get_or clients i none_there,
        g,
        e,
        elim (Bool-cases (ltb i n)) [
          | inl f ↦
              let moved = set clients i last in
              let a = tally-set p i last none_there clients l in
              let b = tally-front p n none_there moved (omega (arith, length-set clients i last)) in
              let same = get_or-set i n last none_there clients (ground arith) in
              let b' : tally p (take n moved) + (if p last then 1 else 0) ≡ tally p moved =
                subst (λ z. tally p (take n moved) + (if p z then 1 else 0) ≡ tally p moved) same
                  b in
              rw (remove_client, e, f) (omega arith)
          | inr f ↦
              let b = tally-front p n none_there clients (omega arith) in
              let same : i ≡ n = ground arith in rw (remove_client, e, f, same) (omega arith)
        ],
      )
]
