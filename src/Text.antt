-- ===== src/Text.antt =====
-- C strings as lists of bytes, without the final NUL.
pub mod Tokens
use cmpt201_coursework.Prelude.{
  ℕ, ◌≡◌, ◌↔◌, refl, Bool, true, false, ◌&&◌, List, [], ◌∷◌, arith, ◌==◌, if◌then◌else◌,
}

abbrev pub Text : Type 0
Text = List ℕ

-- `strcmp(a, b) == 0`
abbrev pub same : Text → Text → Bool
same [] [] = true
same [] (b ∷ t) = false
same (a ∷ s) [] = false
same (a ∷ s) (b ∷ t) = (a == b) && same s t

pub same_refl : (s : Text) → same s s ≡ true
same_refl [] = refl
same_refl (a ∷ s) = ground (arith, same_refl s)

pub eq_of_same : (s t : Text) → same s t ≡ true → s ≡ t
eq_of_same [] [] h = refl
eq_of_same [] (b ∷ t) h = cc
eq_of_same (a ∷ s) [] h = cc
eq_of_same (a ∷ s) (b ∷ t) h = ground (arith, eq_of_same s t)

pub same_iff : (s t : Text) → (same s t ≡ true) ↔ (s ≡ t)
same_iff s t = (eq_of_same s t, λ e. rw e (same_refl t))

-- What `%s` prints of a buffer that has a NUL, or of one with a NUL put behind it: the bytes before the
-- first NUL.
unfoldable pub before_nul : Text → Text
before_nul [] = []
before_nul (b ∷ buf) = if b == 0 then [] else b ∷ before_nul buf
