-- ===== src/Shell/Rounds.antt =====
-- Rounds of the shell's loop.
use cmpt201_coursework.Prelude.{
  ℕ, ◌<◌, ◌≡◌, ◌∙◌, inl, inr, Bool-cases, Bool, true, false, ◌||◌, List, [], ◌∷◌, arith, ltb, ◌==◌,
  if◌then◌else◌, length, get_or, ok, fault,
}
use cmpt201_coursework.Text.Tokens.{tokens}
use cmpt201_coursework.Text.{Text, same}
use cmpt201_coursework.Shell.{
  Env, child, Shell, line, continues, read_error, background_pid, waitpid, history_command,
  exit_command, cd_command, pwd_command, help_command, name_of, expand, execute, dispatch,
  run_external, round,
}
use cmpt201_coursework.Shell.History.{Hist, enqueue, remove_last}
use cmpt201_coursework.Shell.History.Refine.{Holds, kept, remove-enqueue}
use cmpt201_coursework.Shell.Words.{is_delimiter, phrase}
use cmpt201_coursework.Shell.Words.Ampersand.{ends, background_lem}

phrase-some :
    (input : Text) (ts : List Text)
    → tokens is_delimiter input ≡ ts
    → length ts < 16
    → phrase input ≡ ok ts
unfolding phrase
phrase-some input ts e few = let t : ltb (length ts) 16 ≡ true = ground arith in rw (e, t)

round-plain :
    (env : Env) (input : Text) (sh : Shell)
    → (get_or input 0 0 == 33) ≡ false
    → round env (line input) sh ≡ execute env input sh
unfolding round expand
round-plain env input sh p = rw (expand, p)

execute-blank :
    (env : Env) (input : Text) (sh : Shell)
    → tokens is_delimiter input ≡ []
    → execute env input sh
      ≡ ok (
          continues
            (record sh { history = remove_last (enqueue input sh.history) })
            (read_error ∷ []))
unfolding execute
execute-blank env input sh e = rw (phrase-some input [] e (omega arith))

-- A line without a word, also the empty one at the end of the input, does not end the shell: it
-- writes an error and takes the line back, and a full history has lost its oldest command.
round-blank :
    (env : Env) (input : Text) (xs : List Text) (n : ℕ) (sh : Shell)
    → Holds xs n sh.history
    → tokens is_delimiter input ≡ []
    → (get_or input 0 0 == 33) ≡ false
    → (h : Hist) × (round env (line input) sh
        ≡ ok (continues (record sh { history = h }) (read_error ∷ [])))
      × Holds (kept xs) n h
round-blank env input xs n sh r e p = (
  remove_last (enqueue input sh.history),
  round-plain env input sh p ∙ execute-blank env input sh e,
  remove-enqueue input xs n sh.history r,
)

-- The shell's own commands.
abbrev pub is_own : Text → Bool
is_own name =
    same name (name_of history_command)
    || same name (name_of exit_command)
    || same name (name_of cd_command)
    || same name (name_of pwd_command)
    || same name (name_of help_command)

dispatch-external :
    (env : Env) (name : Text) (args : List Text) (sh : Shell)
    → is_own name ≡ false
    → dispatch env name args sh ≡ run_external env args sh
unfolding dispatch
dispatch-external env name args sh h =
    let a : same name (name_of history_command) ≡ false = ground arith in
    let b : same name (name_of exit_command) ≡ false = ground arith in
    let c : same name (name_of cd_command) ≡ false = ground arith in
    let d : same name (name_of pwd_command) ≡ false = ground arith in
    let e : same name (name_of help_command) ≡ false = ground arith in rw (dispatch, a, b, c, d, e)

execute-words :
    (env : Env) (input name : Text) (args : List Text) (sh : Shell)
    → tokens is_delimiter input ≡ name ∷ args
    → length (name ∷ args) < 16
    → execute env input sh
      ≡ dispatch env name (name ∷ args) (record sh { history = enqueue input sh.history })
unfolding execute
execute-words env input name args sh e few = rw (execute, phrase-some input (name ∷ args) e few)

external-background :
    (env : Env) (args : List Text) (sh : Shell) (pid : ℕ)
    → env.fork ≡ child pid
    → run_external env args sh ≡ (
        if ltb 7 (length args)
        then ok (continues sh (waitpid pid ∷ []))
        else if ends args
        then ok (continues sh (background_pid pid ∷ []))
        else if length args == 7
        then ok (continues sh (waitpid pid ∷ []))
        else fault)
unfolding run_external
external-background env args sh pid f =
    let q = background_lem args in
    elim (Bool-cases (ltb 7 (length args))) [
      | inl t ↦ rw (run_external, f, q, t)
      | inr t ↦ elim (Bool-cases (ends args)) [
        | inl a ↦ rw (run_external, f, q, t, a)
        | inr a ↦ elim (Bool-cases (length args == 7)) [
          | inl b ↦ rw (run_external, f, q, t, a, b)
          | inr b ↦ rw (run_external, f, q, t, a, b)
        ]
      ]
    ]

-- What a command of fewer than 16 words that is not the shell's own and does not begin with "!" does
-- once it has forked: with eight words or more the shell waits for it, also with "&" behind it; with at
-- most seven it is in the background if "&" is the last; other seven are waited for; and with fewer,
-- without "&" at the end, `strcmp` is given `NULL`.
pub round-external :
    (env : Env) (input name : Text) (args : List Text) (sh : Shell) (pid : ℕ)
    → tokens is_delimiter input ≡ name ∷ args
    → length (name ∷ args) < 16
    → is_own name ≡ false
    → (get_or input 0 0 == 33) ≡ false
    → env.fork ≡ child pid
    → round env (line input) sh ≡ (
        if ltb 7 (length (name ∷ args))
        then ok (continues (record sh { history = enqueue input sh.history }) (waitpid pid ∷ []))
        else if ends (name ∷ args)
        then ok
            (continues (record sh { history = enqueue input sh.history }) (background_pid pid ∷ []))
        else if length (name ∷ args) == 7
        then ok (continues (record sh { history = enqueue input sh.history }) (waitpid pid ∷ []))
        else fault)
round-external env input name args sh pid e few own p f =
    let sh' : Shell = record sh { history = enqueue input sh.history } in
    round-plain env input sh p
    ∙ (execute-words env input name args sh e few
        ∙ (dispatch-external env name (name ∷ args) sh' own
            ∙ external-background env (name ∷ args) sh' pid f))
