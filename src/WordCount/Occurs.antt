-- ===== src/WordCount/Occurs.antt =====
-- What `count_words_seq` of lab/lab8.c counts.
use cmpt201_coursework.Prelude.{
  ℕ, ◌+◌, ◌%◌, ◌^◌, ◌≤◌, ◌<◌, ◌≡◌, sym, ap, ◌∙◌, inl, inr, Bool-cases, Option-cases, Bool, Option,
  none, some, List, [], ◌∷◌, arith, if◌then◌else◌, length,
}
use cmpt201_coursework.Text.{Text, same, eq_of_same}
use cmpt201_coursework.WordCount.{CountMap, add_word, add_word_counts, count_words_seq}

-- How often a word occurs.
abbrev pub occurs : Text → List Text → ℕ
occurs k [] = 0
occurs k (word ∷ words) = (if same word k then 1 else 0) + occurs k words

-- A count, where 0 is that of a word without an entry.
abbrev pub or_zero : Option ℕ → ℕ
or_zero none = 0
or_zero (some n) = n

module _ (counts : CountMap) where
  open counts use {Table, null_table, find, add, write, find-null, find-add, find-write}

  add_new : (word : Text) (t : Table) → find word t ≡ none → add_word counts word t ≡ add word 1 t
  unfolding add_word
  add_new word t f = rw (add_word, f)

  add_old :
      (word : Text) (n : ℕ) (t : Table)
      → find word t ≡ some n
      → add_word counts word t ≡ write word ((n + 1) % 2 ^ 64) t
  unfolding add_word
  add_old word n t f = rw (add_word, f)

  -- A word counts once more, and no other.
  add-find :
      (word k : Text) (t : Table)
      → or_zero (find word t) + 1 < 2 ^ 64
      → or_zero (find k (add_word counts word t))
        ≡ (if same word k then 1 else 0) + or_zero (find k t)
  add-find word k t small = elim (Option-cases (find word t)) [
    | inl f ↦
        ap (λ z. or_zero (find k z)) (add_new word t f) ∙ ap or_zero (find-add word k 1 t f) ∙ new f
    | inr (n, f) ↦
        ap (λ z. or_zero (find k z)) (add_old word n t f)
        ∙ ap or_zero (find-write word k n ((n + 1) % 2 ^ 64) t f)
        ∙ old n f
  ]
    where
      new :
          find word t ≡ none
          → or_zero (if same word k then some 1 else find k t)
            ≡ (if same word k then 1 else 0) + or_zero (find k t)
      new f = elim (Bool-cases (same word k)) [
        | inl e ↦
            let q = ap (λ z. or_zero (find z t)) (sym (eq_of_same word k e)) ∙ ap or_zero f in
            rw (e) (omega (arith, q))
        | inr e ↦ rw (e) (omega arith)
      ]

      old :
          (n : ℕ)
          → find word t ≡ some n
          → or_zero (if same word k then some ((n + 1) % 2 ^ 64) else find k t)
            ≡ (if same word k then 1 else 0) + or_zero (find k t)
      old n f = elim (Bool-cases (same word k)) [
        | inl e ↦
            let q = ap (λ z. or_zero (find z t)) (sym (eq_of_same word k e)) ∙ ap or_zero f in
            rw (e) (omega (arith, q, ap or_zero f))
        | inr e ↦ rw (e) (omega arith)
      ]

  all-find :
      (words : List Text) (k : Text) (t : Table)
      → ((w : Text) → or_zero (find w t) + length words < 2 ^ 64)
      → or_zero (find k (add_word_counts counts words t)) ≡ or_zero (find k t) + occurs k words
  unfolding add_word_counts
  all-find [] k t small = omega arith
  all-find (word ∷ words) k t small =
      let e : (w : Text)
          → or_zero (find w (add_word counts word t))
            ≡ (if same word w then 1 else 0) + or_zero (find w t) =
        λ w. add-find word w t (omega (arith, small word)) in
      let r =
        all-find words k (add_word counts word t)
          (λ w. let b = one (same word w) in omega (arith, e w, small w)) in
      omega (arith, e k, r)
    where
      one : (b : Bool) → (if b then 1 else 0) ≤ 1
      one b = ground arith

  -- Of fewer than 2^64 words, `count_words_seq` counts each as often as it occurs.
  pub count_words_seq-occurs :
      (words : List Text) (k : Text)
      → length words < 2 ^ 64
      → or_zero (find k (count_words_seq counts words)) ≡ occurs k words
  unfolding count_words_seq
  count_words_seq-occurs words k small =
      let z : (w : Text) → or_zero (find w null_table) ≡ 0 = λ w. ap or_zero (find-null w) in
      all-find words k null_table (λ w. omega (arith, z w)) ∙ omega (arith, z k)
