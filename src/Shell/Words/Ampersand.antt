-- ===== src/Shell/Words/Ampersand.antt =====
-- The test for a background command.
use cmpt201_coursework.Prelude.{
  ℕ, zero, suc, ◌≡◌, refl, Bool, true, false, List, [], ◌∷◌, arith, ltb, ◌==◌, if◌then◌else◌,
  length, ok, fault,
}
use cmpt201_coursework.Text.{Text, same}
use cmpt201_coursework.Shell.Words.{ampersand, background_loop, background}

-- Whether the last argument is "&".
abbrev pub ends : List Text → Bool
ends [] = false
ends (t ∷ []) = same t ampersand
ends (t ∷ u ∷ ts) = ends (u ∷ ts)

loop_lem :
    (n : ℕ) (args : List Text)
    → background_loop n args ≡ (
        if ltb n (length args)
        then ok false
        else if ends args
        then ok true
        else if length args == n
        then ok false
        else fault)
unfolding background_loop
loop_lem zero [] = refl
loop_lem zero (t ∷ args) = ground arith
loop_lem (suc n) [] = ground arith
loop_lem (suc n) (t ∷ []) = ground (arith, loop_lem n [])
loop_lem (suc n) (t ∷ u ∷ args) = ground (arith, loop_lem n (u ∷ args))

-- Of more than seven arguments none is found to be in the background; of at most seven those that
-- end with "&" are; other seven are not, and with fewer `strcmp` is given `NULL`.
pub background_lem :
    (args : List Text)
    → background args ≡ (
        if ltb 7 (length args)
        then ok false
        else if ends args
        then ok true
        else if length args == 7
        then ok false
        else fault)
unfolding background
background_lem args = loop_lem 7 args
