-- ===== src/Shell/Tests.antt =====
-- Runs of the shell of lecture/test/test.c.
use cmpt201_coursework.Prelude.{
  ℕ, ◌≡◌, refl, true, false, none, some, List, [], ◌∷◌, arith, ok, fault, All,
}
use cmpt201_coursework.Prelude.Int.{pos}
use cmpt201_coursework.Text.{Text}
use cmpt201_coursework.Shell.{Env, child, Shell, line, round, name_of}
use cmpt201_coursework.Shell.History.{held, no_history, get_hist, print_hist}
use cmpt201_coursework.Shell.History.Refine.{Holds, enqueue_all, enqueue_all-Holds}
use cmpt201_coursework.Shell.History.Recall.{shown, get_hist-shown}
use cmpt201_coursework.Shell.Words.{is_delimiter, phrase}
use cmpt201_coursework.Text.Tokens.{IsWord, tokens}
use cmpt201_coursework.Shell.Words.Split.{phrase-spaced}
use cmpt201_coursework.Shell.Rounds.{is_own, round-external}
use cmpt201_coursework.Shell.Repeat.{round-last}

-- The line "n\n".
abbrev letter : ℕ → Text
letter n = n ∷ 10 ∷ []

abbrev twelve : List Text
twelve =
    letter 97
    ∷ letter 98
    ∷ letter 99
    ∷ letter 100
    ∷ letter 101
    ∷ letter 102
    ∷ letter 103
    ∷ letter 104
    ∷ letter 105
    ∷ letter 106
    ∷ letter 107
    ∷ letter 108
    ∷ []

-- The last ten of them.
abbrev ten : List Text
ten =
    letter 99
    ∷ letter 100
    ∷ letter 101
    ∷ letter 102
    ∷ letter 103
    ∷ letter 104
    ∷ letter 105
    ∷ letter 106
    ∷ letter 107
    ∷ letter 108
    ∷ []

enqueue_all-Holds_example : Holds ten 12 (enqueue_all twelve no_history)
enqueue_all-Holds_example = enqueue_all-Holds twelve

get_hist-shown_example :
    (text : Text) × (lines : List (ℕ × Text)) × (print_hist (enqueue_all twelve no_history)
      ≡ ok lines)
    × (shown 6 lines ≡ some text)
    × (get_hist (pos 5) (enqueue_all twelve no_history) ≡ ok (held text))
get_hist-shown_example =
    get_hist-shown 3 ten 12 (enqueue_all twelve no_history) (enqueue_all-Holds twelve) (omega arith)
      (omega arith)

-- "ls", "-l"
abbrev words : List Text
words = (108 ∷ 115 ∷ []) ∷ (45 ∷ 108 ∷ []) ∷ []

words-IsWord : All (IsWord is_delimiter) words
words-IsWord = ground arith

phrase-spaced_example : phrase (108 ∷ 115 ∷ 32 ∷ 45 ∷ 108 ∷ 32 ∷ []) ≡ ok words
phrase-spaced_example = phrase-spaced words words-IsWord (omega arith)

abbrev shell : Shell
shell = record { history = enqueue_all twelve no_history; last_path = none }

-- In "/a" with the home "/h".
abbrev env : Env
env = record {
  cwd = 47 ∷ 97 ∷ [];
  home = some (47 ∷ 104 ∷ []);
  chdir_ok = λ requests. true;
  getcwd_ok = true;
  fork = child 7;
}

round-last_example :
    round env (line (33 ∷ 33 ∷ 10 ∷ [])) shell ≡ round env (line (letter 108)) shell
round-last_example =
    round-last env (10 ∷ [])
      (letter 99
        ∷ letter 100
        ∷ letter 101
        ∷ letter 102
        ∷ letter 103
        ∷ letter 104
        ∷ letter 105
        ∷ letter 106
        ∷ letter 107
        ∷ [])
      (letter 108) 12 shell (enqueue_all-Holds twelve) refl

ls : tokens is_delimiter (108 ∷ 115 ∷ 10 ∷ []) ≡ (108 ∷ 115 ∷ []) ∷ []
unfolding tokens
ls = refl

ls-foreign : is_own (108 ∷ 115 ∷ []) ≡ false
unfolding name_of
ls-foreign = refl

round-external_example : round env (line (108 ∷ 115 ∷ 10 ∷ [])) shell ≡ fault
round-external_example =
    round-external env (108 ∷ 115 ∷ 10 ∷ []) (108 ∷ 115 ∷ []) [] shell 7 ls (omega arith) ls-foreign
      refl refl
