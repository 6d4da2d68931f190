-- ===== src/Shell2/Stale.antt =====
-- What `cd` of lecture/test/test2.c makes of the entry of `args` that the line has not set.
use cmpt201_coursework.Prelude.{
  ◌≡◌, refl, List, [], ◌∷◌, if◌then◌else◌, take, Run, ok, fault, ◌>>=◌,
}
use cmpt201_coursework.Text.{Text}
use cmpt201_coursework.Text.Tokens.{tokens}
use cmpt201_coursework.Shell.{
  cd_command, name_of, too_many_arguments, chdir, chdir_error, Env, not_null,
}
use cmpt201_coursework.Shell2.{
  Slot, unset, null_slot, word, Shell, Round, continues, is_delimiter, store, tokenize, count_args,
  is_background, has_arg, cd_path, run_cd, dispatch, execute,
}
use cmpt201_coursework.Shell2.History.{enqueue_history}

-- The shell when `cd` alone is carried out.
abbrev pub at_cd : Text → Shell → Shell
at_cd input sh = record sh {
  history = enqueue_history input sh.history;
  args = store (name_of cd_command ∷ []) sh.args;
}

-- `cd` without an argument, with the value of `args[2]`.
abbrev pub go_home : Env → Slot → Shell → Run Round
go_home env unset sh = fault
go_home env null_slot sh = not_null env.home >>= λ home.
    if env.chdir_ok (home ∷ [])
    then ok (continues (record sh { last_path = take 4096 env.cwd }) (chdir home ∷ []))
    else ok (continues sh (chdir home ∷ chdir_error ∷ []))
go_home env (word t) sh = ok (continues sh (too_many_arguments cd_command ∷ []))

run_cd-alone :
    (env : Env) (sh : Shell) (b a : Slot) (args : List Slot)
    → sh.args ≡ b ∷ null_slot ∷ a ∷ args
    → run_cd env sh ≡ go_home env a sh
unfolding run_cd cd_path has_arg
run_cd-alone env sh b unset args e = rw (run_cd, e)
run_cd-alone env sh b null_slot args e = rw (run_cd, e)
run_cd-alone env sh b (word t) args e = rw (run_cd, e)

-- The line "cd" goes to the home directory only if `args[2]` happens to be `NULL`: `tokenize` sets
-- `args[1]` to `NULL` and leaves `args[2]`, which is tested. If an earlier line has left a word there,
-- `cd` complains of too many arguments; if no line has set it, the value is undefined.
pub execute-cd :
    (env : Env) (input : Text) (b c a : Slot) (args : List Slot) (sh : Shell)
    → tokens is_delimiter input ≡ name_of cd_command ∷ []
    → sh.args ≡ b ∷ c ∷ a ∷ args
    → execute env input sh ≡ go_home env a (at_cd input sh)
unfolding execute tokenize store count_args is_background dispatch name_of
execute-cd env input b c a args sh e g =
    rw (execute, e, g) (run_cd-alone env _ (word (99 ∷ 100 ∷ [])) a args refl)
