-- ===== src/Shell/Words.antt =====
-- How the shell of lecture/test/test.c takes a line apart: the words of `phrase`, the number of
-- `!num`, and the test for a command in the background. A line ends at its first NUL.
pub mod Split
pub mod Ampersand
use cmpt201_coursework.Prelude.{
  ℕ, zero, suc, ◌+◌, ◌-◌, ◌*◌, Bool, true, false, ◌&&◌, ◌||◌, List, [], ◌∷◌, ◌++◌, ltb, leb, ◌==◌,
  if◌then◌else◌, length, get_or, Run, ok, fault,
}
use cmpt201_coursework.Prelude.Int.{ℤ, pos, sub_ℕ}
use cmpt201_coursework.Text.{Text, same}
use cmpt201_coursework.Text.Tokens.{tokens}

-- One of " \t\n\r".
abbrev pub is_delimiter : ℕ → Bool
is_delimiter b = (b == 32) || (b == 9) || (b == 10) || (b == 13)

-- The entries of `args` before its first `NULL`. The array has 16, one of which is that `NULL`.
unfoldable pub phrase : Text → Run (List Text)
phrase input =
    let args = tokens is_delimiter input in if ltb (length args) 16 then ok args else fault

-- "&"
abbrev pub ampersand : Text
ampersand = 38 ∷ []

abbrev pub is_empty {ℓ} : {A : Type ℓ} → List A → Bool
is_empty [] = true
is_empty (x ∷ xs) = false

-- The loop of `background` at the argument `args[i]`, with `n` rounds to go: `strcmp` of `NULL` is
-- undefined.
unfoldable pub background_loop : ℕ → List Text → Run Bool
background_loop zero args = ok false
background_loop (suc n) [] = fault
background_loop (suc n) (arg ∷ args) =
    if same arg ampersand && is_empty args then ok true else background_loop n args

unfoldable pub background : List Text → Run Bool
unfolding background_loop
background args = background_loop 7 args

abbrev pub is_digit : ℕ → Bool
is_digit b = leb 48 b && leb b 57

-- `numOnly`, whose loop tests `input[1]` in every round.
unfoldable pub num_only : Text → Bool
num_only input = if leb (length input) 1 then true else is_digit (get_or input 1 0)

abbrev pub is_space : ℕ → Bool
is_space b = (b == 32) || (leb 9 b && leb b 13)

unfoldable pub digits : ℕ → Text → ℕ
digits n [] = n
digits n (b ∷ text) = if is_digit b then digits (n * 10 + (b - 48)) text else n

-- `atoi`
unfoldable pub atoi : Text → ℤ
unfolding digits
atoi [] = pos 0
atoi (b ∷ text) =
    if is_space b
    then atoi text
    else if b == 45
    then sub_ℕ 0 (digits 0 text)
    else if b == 43
    then pos (digits 0 text)
    else pos (digits 0 (b ∷ text))
