-- ===== src/Shell2/Tests.antt =====
-- Runs of the shell of lecture/test/test2.c.
use cmpt201_coursework.Prelude.{
  some, ℕ, ◌≡◌, ◌≢◌, refl, true, List, [], ◌∷◌, arith, get_elem?, replicate, ok, fault, All,
}
use cmpt201_coursework.Prelude.Int.{pos}
use cmpt201_coursework.Text.{Text}
use cmpt201_coursework.Text.Tokens.{tokens}
use cmpt201_coursework.Shell.{Input, line, interrupted, Env, child, cd_command, name_of}
use cmpt201_coursework.Shell.History.{no_history}
use cmpt201_coursework.Shell.History.Recall.{shown}
use cmpt201_coursework.Shell.History.Refine.{latest}
use cmpt201_coursework.Shell2.{
  unset, null_slot, word, Shell, is_delimiter, execute, round, expand, tokenize, store, count_args,
  is_background, dispatch,
}
use cmpt201_coursework.Shell.Words.{ampersand}
use cmpt201_coursework.Shell2.History.{get_last_history, get_history, print_history}
use cmpt201_coursework.Shell2.History.Recall.{after, after-Keeps, numbered, recalled, after-shown}
use cmpt201_coursework.Shell2.Line.{HasHome}
use cmpt201_coursework.Shell2.Session.{IsSafe, IsFineInput, session, session-IsSafe}

abbrev twelve : List Text
twelve =
    (97 ∷ [])
    ∷ (98 ∷ [])
    ∷ (99 ∷ [])
    ∷ (100 ∷ [])
    ∷ (101 ∷ [])
    ∷ (102 ∷ [])
    ∷ (103 ∷ [])
    ∷ (104 ∷ [])
    ∷ (105 ∷ [])
    ∷ (106 ∷ [])
    ∷ (107 ∷ [])
    ∷ (108 ∷ [])
    ∷ []

after-shown_example :
    let h = after twelve no_history in
    let lines = numbered 2 (latest twelve) in
    (print_history h ≡ ok lines)
    × (get_history (pos 5) h ≡ recalled (shown 5 lines))
    × (get_last_history h ≡ recalled (get_elem? (latest twelve) 9))
after-shown_example = after-shown twelve 5 (ground arith)

-- In "/a" with the home "/h".
abbrev env : Env
env = record {
  cwd = 47 ∷ 97 ∷ [];
  home = some (47 ∷ 104 ∷ []);
  chdir_ok = λ requests. true;
  getcwd_ok = true;
  fork = child 7;
}

abbrev fresh : Shell
fresh = record { history = no_history; last_path = []; args = replicate 16 unset }

abbrev ready : Shell
ready = record fresh { args = replicate 16 null_slot }

ready-IsSafe : IsSafe ready
unfolding after
ready-IsSafe = record {
  commands = [];
  total = 0;
  keeps = after-Keeps [];
  fine = tt;
  given = record { all = ground arith; size = refl };
}

-- "ls &\n", then "!!\n".
abbrev inputs : List (Env × Input)
inputs =
    (env, line (108 ∷ 115 ∷ 32 ∷ 38 ∷ 10 ∷ []))
    ∷ (env, interrupted)
    ∷ (env, line (33 ∷ 33 ∷ 10 ∷ []))
    ∷ []

ls : tokens is_delimiter (108 ∷ 115 ∷ 32 ∷ 38 ∷ []) ≡ (108 ∷ 115 ∷ []) ∷ (38 ∷ []) ∷ []
unfolding tokens
ls = refl

bangs : tokens is_delimiter (33 ∷ 33 ∷ []) ≡ (33 ∷ 33 ∷ []) ∷ []
unfolding tokens
bangs = refl

two_words : tokens is_delimiter (108 ∷ 115 ∷ 32 ∷ 38 ∷ []) ≢ ampersand ∷ []
two_words e = let r = ls in cc

other_word : tokens is_delimiter (33 ∷ 33 ∷ []) ≢ ampersand ∷ []
other_word e = let r = bangs in let n : ◌≢◌ {A = ℕ} 33 38 = omega arith in cc

env-HasHome : HasHome env
env-HasHome = (47 ∷ 104 ∷ [], refl)

inputs-IsFine : All (λ p. HasHome p.0 × IsFineInput p.1) inputs
inputs-IsFine = (
  (env-HasHome, (omega arith, two_words)),
  ((env-HasHome, tt), ((env-HasHome, (omega arith, other_word)), tt)),
)

session-IsSafe_example : (sh' : Shell) × (session inputs ready ≡ ok sh') × IsSafe sh'
session-IsSafe_example = session-IsSafe inputs ready ready-IsSafe inputs-IsFine

cd : tokens is_delimiter (99 ∷ 100 ∷ []) ≡ name_of cd_command ∷ []
unfolding tokens name_of
cd = refl

-- After a line of three words.
abbrev used : Shell
used = record ready {
  args = word (97 ∷ []) ∷ word (98 ∷ []) ∷ word (99 ∷ []) ∷ replicate 13 null_slot;
}

-- "&" takes its own first argument away, and `strcmp` is given `NULL`.
ampersand_alone : round env (line (38 ∷ 10 ∷ [])) ready ≡ fault
unfolding round expand execute tokenize tokens store count_args is_background dispatch
ampersand_alone = refl
