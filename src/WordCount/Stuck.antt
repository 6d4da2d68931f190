-- ===== src/WordCount/Stuck.antt =====
-- The threads of `count_words_parallel` of lab/lab8.c, of which none gives the lock back.
use cmpt201_coursework.Prelude.{
  ℕ, zero, suc, ◌+◌, ◌*◌, ◌/◌, ◌%◌, ◌≤◌, ◌≡◌, subst, ap, inl, inr, Bool-cases, Option-cases, true,
  false, none, some, List, [], ◌∷◌, arith, if◌then◌else◌, length, length-take, length-drop,
  get_elem?, set, drop,
}
use cmpt201_coursework.Text.{Text}
use cmpt201_coursework.WordCount.{CountMap, State, add_word, thread_round, run, launch, finished}

-- How many words the threads have still to count.
abbrev pub left : List (List Text) → ℕ
left [] = 0
left (chunk ∷ chunks) = length chunk + left chunks

-- A word is left, and a second one while the lock is free.
abbrev IsStuck : {Table : Type 0} → State Table → Type 0
IsStuck s = (if s.locked then 1 else 2) ≤ left s.remaining

left-set :
    (i : ℕ) (w : Text) (ws : List Text) (chunks : List (List Text))
    → get_elem? chunks i ≡ some (w ∷ ws)
    → left (set chunks i ws) + 1 ≡ left chunks
left-set i w ws [] h = cc
left-set zero w ws (c ∷ cs) h = let q : c ≡ w ∷ ws = cc in omega (arith, ap length q)
left-set (suc i) w ws (c ∷ cs) h = omega (arith, left-set i w ws cs h)

left_unfinished : (chunks : List (List Text)) → 1 ≤ left chunks → finished chunks ≡ false
unfolding finished
left_unfinished [] h = absurd (omega arith)
left_unfinished (c ∷ cs) h = ground (arith, left_unfinished cs)

module _ (counts : CountMap) where
  module _ (i : ℕ) (s : State counts.Table) where
    round_none : get_elem? s.remaining i ≡ none → thread_round counts i s ≡ s
    unfolding thread_round
    round_none e = rw (thread_round, e)

    round_through : get_elem? s.remaining i ≡ some [] → thread_round counts i s ≡ s
    unfolding thread_round
    round_through e = rw (thread_round, e)

    module _ (w : Text) (ws : List Text) (e : get_elem? s.remaining i ≡ some (w ∷ ws)) where
      round_waits : s.locked ≡ true → thread_round counts i s ≡ s
      unfolding thread_round
      round_waits l = rw (thread_round, e, l)

      round_counts :
          s.locked ≡ false
          → thread_round counts i s ≡ record {
            remaining = set s.remaining i ws;
            locked = true;
            map = add_word counts w s.map;
          }
      unfolding thread_round
      round_counts l = rw (thread_round, e, l)

    round-IsStuck : IsStuck s → IsStuck (thread_round counts i s)
    round-IsStuck h = elim (Option-cases (get_elem? s.remaining i)) [
      | inl e ↦ rw (round_none e) h
      | inr ([], e) ↦ rw (round_through e) h
      | inr (w ∷ ws, e) ↦ elim (Bool-cases s.locked) [
        | inl l ↦ rw (round_waits w ws e l) h
        | inr l ↦ rw (round_counts w ws e l) (taken w ws e l h)
      ]
    ]
      where
        taken :
            (w : Text) (ws : List Text)
            → get_elem? s.remaining i ≡ some (w ∷ ws)
            → s.locked ≡ false
            → IsStuck s
            → 1 ≤ left (set s.remaining i ws)
        taken w ws e l h =
            let enough : 2 ≤ left s.remaining =
              subst (λ z. (if z then 1 else 2) ≤ left s.remaining) l h in
            omega (arith, left-set i w ws s.remaining e)

  run-IsStuck :
      (schedule : List ℕ) (s : State counts.Table) → IsStuck s → IsStuck (run counts schedule s)
  unfolding run
  run-IsStuck [] s h = h
  run-IsStuck (i ∷ schedule) s h =
      run-IsStuck schedule (thread_round counts i s) (round-IsStuck i s h)

  launch-left : (words : List Text) → left (launch counts words).remaining ≡ length words
  unfolding launch
  launch-left words =
      let c = length words / 3 in
      let a = length-take c words in
      let b = length-take c (drop c words) in
      let b' = length-drop c words in
      let d = length-take (c + length words % 3) (drop (2 * c) words) in
      let d' = length-drop (2 * c) words in omega arith

  launched : (words : List Text) → 2 ≤ length words → IsStuck (launch counts words)
  unfolding launch
  launched words h = let l = launch-left words in omega arith

  -- Of two words or more, the threads never finish, in whatever order they take their turns: after
  -- the first word the lock is held for good.
  pub parallel-stuck :
      (words : List Text) (schedule : List ℕ)
      → 2 ≤ length words
      → finished (run counts schedule (launch counts words)).remaining ≡ false
  parallel-stuck words schedule h =
      let l = launch-left words in
      let s : IsStuck (launch counts words) = launched words h in
      let r = run-IsStuck schedule (launch counts words) s in
      left_unfinished (run counts schedule (launch counts words)).remaining (ground (arith, r))
