-- ===== src/Shell/Repeat.antt =====
-- `!!` and `!num` of the shell run a command of the history again.
use cmpt201_coursework.Prelude.{
  ℕ, ◌+◌, ◌-◌, ◌<◌, ◌≡◌, refl, ◌∙◌, true, false, some, List, [], ◌∷◌, ◌++◌, arith, leb, ◌==◌,
  length, length-append, get_elem?, get_or, ok,
}
use cmpt201_coursework.Prelude.Int.{pos}
use cmpt201_coursework.Text.{Text}
use cmpt201_coursework.Shell.{Env, Shell, line, command, expand, copied, round}
use cmpt201_coursework.Shell.History.{held, Hist, get_last}
use cmpt201_coursework.Shell.History.Refine.{Holds}
use cmpt201_coursework.Shell.History.Recall.{get-cell, cell-held, get_last-newest}
use cmpt201_coursework.Shell.Words.{atoi, num_only, is_digit}

at_end : (xs : List Text) (x : Text) → get_elem? (xs ++ (x ∷ [])) (length xs) ≡ some x
at_end [] x = refl
at_end (y ∷ xs) x = at_end xs x

last-held :
    (xs : List Text) (x : Text) (n : ℕ) (h : Hist)
    → Holds (xs ++ (x ∷ [])) n h
    → get_last h ≡ ok (held x)
last-held xs x n h r =
    let k : length (xs ++ (x ∷ [])) - 1 ≡ length xs = omega (arith, length-append xs (x ∷ [])) in
    get_last-newest (xs ++ (x ∷ [])) n h r ∙ rw (k, at_end xs x)

expand-plain :
    (text : Text) (h : Hist) → (get_or text 0 0 == 33) ≡ false → expand text h ≡ ok (command text)
unfolding expand
expand-plain text h p = rw (p)

-- A line that is expanded to a command does what a line with that command does.
round-command :
    (env : Env) (input text : Text) (sh : Shell)
    → expand input sh.history ≡ ok (command text)
    → (get_or text 0 0 == 33) ≡ false
    → round env (line input) sh ≡ round env (line text) sh
unfolding round
round-command env input text sh e p = rw (e, expand-plain text sh.history p)

-- A line that begins with `!!` does what a line with the newest command of the history does, if that
-- command does not begin with "!".
pub round-last :
    (env : Env) (rest : Text) (xs : List Text) (x : Text) (n : ℕ) (sh : Shell)
    → Holds (xs ++ (x ∷ [])) n sh.history
    → (get_or x 0 0 == 33) ≡ false
    → round env (line (33 ∷ 33 ∷ rest)) sh ≡ round env (line x) sh
unfolding expand copied
round-last env rest xs x n sh r p =
    round-command env (33 ∷ 33 ∷ rest) x sh (rw (expand, last-held xs x n sh.history r)) p

expand-number :
    (rest : Text) (i : ℕ) (xs : List Text) (x : Text) (n : ℕ) (sh : Shell)
    → Holds xs n sh.history
    → i < length xs
    → get_elem? xs i ≡ some x
    → length rest < 4
    → is_digit (get_or rest 0 0) ≡ true
    → atoi rest ≡ pos (n - length xs + i)
    → expand (33 ∷ rest) sh.history ≡ ok (command x)
unfolding expand num_only copied
expand-number [] i xs x n sh r b e short d a = cc
expand-number (c ∷ rest) i xs x n sh r b e short d a =
    let g = get-cell i xs n sh.history r b ∙ cell-held i x xs n sh.history r e in
    let t : leb 4 (length (c ∷ rest)) ≡ false = ground arith in
    let s : (c == 33) ≡ false = ground arith in
    let l : leb (length (33 ∷ c ∷ rest)) 1 ≡ false = ground arith in rw (expand, s, t, a, g, d, l)

-- A line `!num` of at most three characters behind the `!`, with `num` the number of commands that the
-- history has lost and a place in it, does what a line with the command at that place does.
round-number :
    (env : Env) (rest : Text) (i : ℕ) (xs : List Text) (x : Text) (n : ℕ) (sh : Shell)
    → Holds xs n sh.history
    → i < length xs
    → get_elem? xs i ≡ some x
    → (get_or x 0 0 == 33) ≡ false
    → length rest < 4
    → is_digit (get_or rest 0 0) ≡ true
    → atoi rest ≡ pos (n - length xs + i)
    → round env (line (33 ∷ rest)) sh ≡ round env (line x) sh
round-number env rest i xs x n sh r b e p short d a =
    round-command env (33 ∷ rest) x sh (expand-number rest i xs x n sh r b e short d a) p
