-- ===== src/Shell2.antt =====
-- The shell of lecture/test/test2.c, next to that of test.c in Shell: the messages, the environment of
-- a round and the array of the history are those of Shell. A number behind `!` that is no `int` is
-- undefined in the source; here it is out of the history.
pub mod History
pub mod Args
pub mod Line
pub mod Session
pub mod Stale
mod Tests
use cmpt201_coursework.Prelude.{
  ℕ, ◌+◌, ◌-◌, Bool, true, false, not, ◌&&◌, ◌||◌, Option, none, some, List, [], ◌∷◌, ◌++◌, leb,
  ◌==◌, if◌then◌else◌, length, get_elem?, get_or, set, take, drop, Run, ok, fault, ◌>>=◌,
}
use cmpt201_coursework.Text.{Text, same}
use cmpt201_coursework.Text.Tokens.{tokens}
use cmpt201_coursework.Shell.{
  Command, history_command, exit_command, cd_command, pwd_command, help_command, name_of, Event,
  too_many_arguments, help_line, chdir_error, fork_error, entry, path_line, background_pid, chdir,
  waitpid, Input, failed, interrupted, line, Fork, fork_failed, child, Env, not_null,
}
use cmpt201_coursework.Shell.History.{Cell, null, held, freed, Hist}
use cmpt201_coursework.Shell.Words.{ampersand, is_digit, atoi}
use History.{enqueue_history, get_last_history, get_history, print_history}

abbrev pub max_args : ℕ
max_args = 16

-- An entry of `args`: not yet set, `NULL`, or a pointer into `input`. The text is that of the line for
-- which the entry was set; of an entry that an earlier line has left only `NULL` or not is looked at.
pub data Slot : Type 0 where
  unset : Slot
  null_slot : Slot
  word : Text → Slot

-- The globals, and what `main` keeps from round to round.
pub record Shell : Type 0 where
  pub history : Hist
  pub last_path : Text
  pub args : List Slot

pub record Round : Type 0 where
  pub goes_on : Bool
  pub shell : Shell
  pub events : List Event

abbrev pub continues : Shell → List Event → Round
continues sh events = record { goes_on = true; shell = sh; events = events }

-- One of " \t\n".
abbrev pub is_delimiter : ℕ → Bool
is_delimiter b = (b == 32) || (b == 9) || (b == 10)

-- The loop of `tokenize`: the entries behind the `NULL` stay as they are.
unfoldable pub store : List Text → List Slot → List Slot
store ts [] = []
store [] (a ∷ args) = null_slot ∷ args
store (t ∷ ts) (a ∷ args) = word t ∷ store ts args

unfoldable pub tokenize : Text → List Slot → List Slot
tokenize input args = store (take (max_args - 1) (tokens is_delimiter input)) args

-- `while (args[argc]) argc++;`
unfoldable pub count_args : List Slot → ℕ
count_args [] = 0
count_args (unset ∷ args) = 0
count_args (null_slot ∷ args) = 0
count_args (word t ∷ args) = 1 + count_args args

abbrev pub is_ampersand : Option Slot → Bool
is_ampersand none = false
is_ampersand (some unset) = false
is_ampersand (some null_slot) = false
is_ampersand (some (word t)) = same t ampersand

-- Whether the last argument is "&", which is then taken away.
unfoldable pub is_background : List Slot → ℕ → Bool × List Slot
is_background args argc =
    if leb 1 argc && is_ampersand (get_elem? args (argc - 1))
    then (true, set args (argc - 1) null_slot)
    else (false, args)

-- Whether `args[i]` is not `NULL`; an entry that is not set holds any value.
unfoldable pub has_arg : ℕ → List Slot → Run Bool
has_arg i args = elim (get_elem? args i) [
  | none ↦ fault
  | some a ↦ elim a [ unset ↦ fault | null_slot ↦ ok false | word t ↦ ok true ]
]

-- Either the message for too many arguments or the command.
abbrev pub unless_more : ℕ → Command → Shell → Run Round → Run Round
unless_more i name sh command = has_arg i sh.args >>= λ more.
    if more then ok (continues sh (too_many_arguments name ∷ [])) else command

abbrev pub entries : List (ℕ × Text) → List Event
entries [] = []
entries (l ∷ ls) = entry l ∷ entries ls

unfoldable pub run_history : Shell → Run Round
run_history sh =
    unless_more 1 history_command sh
      (print_history sh.history >>= (λ lines. ok (continues sh (entries lines))))

unfoldable pub run_exit : Shell → Run Round
run_exit sh =
    unless_more 1 exit_command sh (ok (record { goes_on = false; shell = sh; events = [] }))

unfoldable pub run_pwd : Env → Shell → Run Round
run_pwd env sh = unless_more 1 pwd_command sh (ok (continues sh (path_line env.cwd ∷ [])))

-- The path that `cd` is given.
unfoldable pub cd_path : Env → Shell → Run Text
cd_path env sh = elim (get_elem? sh.args 1) [
  | none ↦ fault
  | some a ↦ elim a [
    | unset ↦ fault
    | null_slot ↦ not_null env.home
    | word path ↦
        if get_or path 0 0 == 126
        then not_null env.home >>= (λ home. ok (take 4095 (home ++ drop 1 path)))
        else if get_or path 0 0 == 45
        then ok sh.last_path
        else ok path
  ]
]

unfoldable pub run_cd : Env → Shell → Run Round
run_cd env sh = unless_more 2 cd_command sh (
    cd_path env sh >>= λ path.
    if env.chdir_ok (path ∷ [])
    then ok (continues (record sh { last_path = take 4096 env.cwd }) (chdir path ∷ []))
    else ok (continues sh (chdir path ∷ chdir_error ∷ [])))

unfoldable pub run_help : Shell → Round
run_help sh = continues sh (
    help_line help_command
    ∷ help_line cd_command
    ∷ help_line exit_command
    ∷ help_line pwd_command
    ∷ help_line history_command
    ∷ [])

unfoldable pub run_external : Env → Bool → Shell → Round
run_external env bg sh = elim env.fork [
  | fork_failed ↦ continues sh (fork_error ∷ [])
  | child pid ↦ continues sh ((if bg then background_pid pid else waitpid pid) ∷ [])
]

-- The commands by `args[0]`, which `strcmp` reads.
unfoldable pub dispatch : Env → Bool → Shell → Run Round
dispatch env bg sh = elim (get_elem? sh.args 0) [
  | none ↦ fault
  | some a ↦ elim a [
    | unset ↦ fault
    | null_slot ↦ fault
    | word name ↦
        if same name (name_of exit_command)
        then run_exit sh
        else if same name (name_of pwd_command)
        then run_pwd env sh
        else if same name (name_of cd_command)
        then run_cd env sh
        else if same name (name_of history_command)
        then run_history sh
        else if same name (name_of help_command)
        then ok (run_help sh)
        else ok (run_external env bg sh)
  ]
]

-- The command of a cell, if the pointer is not `NULL`.
unfoldable pub copied : Cell → Run (Option Text)
copied null = ok none
copied (held text) = ok (some text)
copied freed = fault

abbrev pub is_number_only : Text → Bool
is_number_only [] = true
is_number_only (b ∷ s) = is_digit b && is_number_only s

-- The input after `!!` and `!n` are replaced, if the round goes on.
unfoldable pub expand : Text → Hist → Run (Option Text)
expand input h =
    if not (get_or input 0 0 == 33)
    then ok (some input)
    else if get_or input 1 0 == 33
    then get_last_history h >>= copied
    else if not (is_number_only (drop 1 input))
    then ok none
    else get_history (atoi (drop 1 input)) h >>= copied

-- A round from `enqueue_history` on.
unfoldable pub execute : Env → Text → Shell → Run Round
execute env input sh =
    let args = tokenize input sh.args in
    let queued = record sh { history = enqueue_history input sh.history; args = args } in
    let (bg, args') = is_background args (count_args args) in
    if count_args args == 0
    then ok (continues queued [])
    else dispatch env bg (record queued { args = args' })

-- The line without the newline at its end.
abbrev pub strip : Text → Text
strip [] = []
strip (b ∷ []) = if b == 10 then [] else b ∷ []
strip (b ∷ c ∷ text) = b ∷ strip (c ∷ text)

-- A round of the loop of `main`, behind its prompt.
unfoldable pub round : Env → Input → Shell → Run Round
round env failed sh = ok (continues sh [])
round env interrupted sh = ok (continues sh [])
round env (line text) sh =
    let input = strip text in
    if length input == 0
    then ok (continues sh [])
    else expand input sh.history >>= λ e. elim e [
      | none ↦ ok (continues sh [])
      | some command ↦ execute env command sh
    ]
