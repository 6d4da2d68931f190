-- ===== src/Text/Tokens.antt =====
-- The tokens that the calls of `strtok` return for a text, which ends at its first NUL.
use cmpt201_coursework.Prelude.{
  ℕ, ◌≡◌, refl, ap, ◌∙◌, inl, inr, Bool-cases, Bool, true, false, List, [], ◌∷◌, ◌++◌,
  if◌then◌else◌, All,
}
use cmpt201_coursework.Text.{Text}

-- Words with a space behind each.
abbrev pub spaced : List Text → Text
spaced [] = []
spaced (t ∷ ts) = t ++ (32 ∷ spaced ts)

-- `b` in front of the first token.
abbrev pub prepend : ℕ → List Text → List Text
prepend b [] = (b ∷ []) ∷ []
prepend b (t ∷ ts) = (b ∷ t) ∷ ts

module _ (is_delimiter : ℕ → Bool) where
  -- Whether a token begins at the start of a text.
  abbrev pub begins : Text → Bool
  begins [] = false
  begins (b ∷ text) = if is_delimiter b then false else true

  unfoldable pub tokens : Text → List Text
  tokens [] = []
  tokens (b ∷ text) =
      if is_delimiter b
      then tokens text
      else if begins text
      then prepend b (tokens text)
      else (b ∷ []) ∷ tokens text

  -- No byte of a text separates words.
  abbrev pub Solid : Text → Type 0
  Solid [] = Unit
  Solid (b ∷ t) = (is_delimiter b ≡ false) × Solid t

  -- A word has a byte, and none that separates words.
  abbrev pub IsWord : Text → Type 0
  IsWord [] = ⊥
  IsWord (b ∷ t) = (is_delimiter b ≡ false) × Solid t

  prepend-IsWord :
      (b : ℕ) (ts : List Text) → is_delimiter b ≡ false → All IsWord ts → All IsWord (prepend b ts)
  prepend-IsWord b [] h w = ((h, tt), tt)
  prepend-IsWord b ([] ∷ ts) h w = absurd w.0
  prepend-IsWord b ((c ∷ t) ∷ ts) h w = ((h, w.0), w.1)

  -- Whatever the text, its tokens are words.
  pub tokens-IsWord : (text : Text) → All IsWord (tokens text)
  unfolding tokens
  tokens-IsWord [] = tt
  tokens-IsWord (b ∷ text) = elim (Bool-cases (is_delimiter b)) [
    | inl d ↦ rw (d) (tokens-IsWord text)
    | inr d ↦ elim (Bool-cases (begins text)) [
      | inl s ↦ rw (d, s) (prepend-IsWord b (tokens text) d (tokens-IsWord text))
      | inr s ↦ rw (d, s) (((d, tt), tokens-IsWord text))
    ]
  ]

  tokens-inner :
      (b c : ℕ) (text : Text)
      → is_delimiter b ≡ false
      → is_delimiter c ≡ false
      → tokens (b ∷ c ∷ text) ≡ prepend b (tokens (c ∷ text))
  unfolding tokens
  tokens-inner b c text h h' = rw (h, h')

  module _ (space : is_delimiter 32 ≡ true) where
    tokens-word :
        (b : ℕ) (t rest : Text)
        → is_delimiter b ≡ false
        → Solid t
        → tokens ((b ∷ t) ++ (32 ∷ rest)) ≡ (b ∷ t) ∷ tokens rest
    unfolding tokens
    tokens-word b [] rest h s = rw (h, space)
    tokens-word b (c ∷ t) rest h s =
        tokens-inner b c (t ++ (32 ∷ rest)) h s.0 ∙ ap (prepend b) (tokens-word c t rest s.0 s.1)

    -- Words that are written with spaces between them are found again.
    pub tokens-spaced : (ts : List Text) → All IsWord ts → tokens (spaced ts) ≡ ts
    unfolding tokens
    tokens-spaced [] w = refl
    tokens-spaced ([] ∷ ts) w = absurd w.0
    tokens-spaced ((b ∷ t) ∷ ts) w =
        tokens-word b t (spaced ts) w.0.0 w.0.1 ∙ ap (λ l. (b ∷ t) ∷ l) (tokens-spaced ts w.1)
