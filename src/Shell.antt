-- ===== src/Shell.antt =====
-- The shell of lecture/test/test.c. What the system does in a round of its loop is the environment
-- of the round; what the shell asks of it or writes is a list of events.
pub mod History
pub mod Words
pub mod Rounds
pub mod Repeat
pub mod Directory
mod Tests
use cmpt201_coursework.Prelude.{
  ℕ, ◌+◌, Bool, true, false, not, ◌&&◌, Option, none, some, List, [], ◌∷◌, ◌++◌, leb, ◌==◌,
  if◌then◌else◌, length, get_elem?, get_or, take, drop, Run, ok, fault, ◌>>=◌,
}
use cmpt201_coursework.Text.{Text, same}
use History.{Cell, null, held, freed, Hist, enqueue, remove_last, get_hist, get_last, print_hist}
use Words.{phrase, background, num_only, atoi}

pub data Command : Type 0 where
  history_command exit_command cd_command pwd_command help_command : Command

-- "history", "exit", "cd", "pwd" and "help"
unfoldable pub name_of : Command → Text
name_of history_command = 104 ∷ 105 ∷ 115 ∷ 116 ∷ 111 ∷ 114 ∷ 121 ∷ []
name_of exit_command = 101 ∷ 120 ∷ 105 ∷ 116 ∷ []
name_of cd_command = 99 ∷ 100 ∷ []
name_of pwd_command = 112 ∷ 119 ∷ 100 ∷ []
name_of help_command = 104 ∷ 101 ∷ 108 ∷ 112 ∷ []

-- The messages of msgs.h that the shell writes, what else it writes, and what it asks of the system.
pub data Event : Type 0 where
  prompt : Text → Event
  too_many_arguments : Command → Event
  help_line : Command → Event
  external_command : Text → Event
  no_last_command command_invalid read_error chdir_error getcwd_error fork_error : Event
  entry : ℕ × Text → Event
  path_line : Text → Event
  background_pid : ℕ → Event
  chdir : Text → Event
  waitpid : ℕ → Event

-- What `read` gives: an error, a signal, or the bytes of a line (none at the end of the input).
pub data Input : Type 0 where
  failed interrupted : Input
  line : Text → Input

-- `fork` in the shell's own process; the child runs the command or ends.
pub data Fork : Type 0 where
  fork_failed : Fork
  child : ℕ → Fork

-- The current directory, `getenv("HOME")`, which of a round's requests to `chdir` (the last of the list)
-- succeed, whether `pwd` finds the directory, and the fork.
pub record Env : Type 0 where
  pub cwd : Text
  pub home : Option Text
  pub chdir_ok : List Text → Bool
  pub getcwd_ok : Bool
  pub fork : Fork

-- `lastPath` is not set when the shell starts.
pub record Shell : Type 0 where
  pub history : Hist
  pub last_path : Option Text

-- Whether the loop goes on, the shell and the events of the round.
pub record Round : Type 0 where
  pub goes_on : Bool
  pub shell : Shell
  pub events : List Event

abbrev pub continues : Shell → List Event → Round
continues sh events = record { goes_on = true; shell = sh; events = events }

-- Whether `args[i]` is not `NULL`.
abbrev pub has_arg : ℕ → List Text → Bool
has_arg i args = leb (i + 1) (length args)

unfoldable pub run_history : List Text → Shell → Run Round
run_history args sh =
    if has_arg 1 args
    then ok (continues sh (too_many_arguments history_command ∷ []))
    else print_hist sh.history >>= λ lines. ok (continues sh (entries lines))
  where
    entries : List (ℕ × Text) → List Event
    entries [] = []
    entries (l ∷ ls) = entry l ∷ entries ls

unfoldable pub run_exit : List Text → Shell → Round
run_exit args sh =
    if has_arg 1 args
    then continues sh (too_many_arguments exit_command ∷ [])
    else record { goes_on = false; shell = sh; events = [] }

-- A pointer that is printed or given to `chdir`, where `NULL` is undefined.
abbrev pub not_null : Option Text → Run Text
not_null none = fault
not_null (some t) = ok t

-- The requests to `chdir`, the last of which is for the path of `cd`.
unfoldable pub cd_requests : Env → List Text → Shell → Run (List Text)
cd_requests env args sh = elim (get_elem? args 1) [
  | none ↦ not_null env.home >>= λ home. ok (home ∷ [])
  | some path ↦
      if get_or path 0 0 == 126
      then not_null env.home >>= (λ home. ok (take 4095 (home ++ drop 1 path) ∷ []))
      else if get_or path 0 0 == 45
      then elim sh.last_path [
        | none ↦ fault
        | some last ↦ not_null env.home >>= λ home. ok (home ∷ last ∷ [])
      ]
      else ok (path ∷ [])
]

abbrev pub chdirs : List Text → List Event
chdirs [] = []
chdirs (p ∷ ps) = chdir p ∷ chdirs ps

-- After a failure `args[1][0]` is read, and there may be no `args[1]`.
unfoldable pub run_cd : Env → List Text → Shell → Run Round
run_cd env args sh =
    let moved = record sh { last_path = some (take 4096 env.cwd) } in
    if has_arg 2 args
    then ok (continues sh (too_many_arguments cd_command ∷ []))
    else cd_requests env args sh >>= λ requests.
        if env.chdir_ok requests
        then ok (continues moved (chdirs requests))
        else elim (get_elem? args 1) [
          | none ↦ fault
          | some path ↦
              if get_or path 0 0 == 126
              then ok (continues moved (chdirs requests))
              else ok (continues sh (chdirs requests ++ (chdir_error ∷ [])))
        ]

unfoldable pub run_pwd : Env → List Text → Shell → Round
run_pwd env args sh =
    if has_arg 1 args
    then continues sh (too_many_arguments pwd_command ∷ [])
    else if not env.getcwd_ok
    then continues sh (getcwd_error ∷ [])
    else continues sh (path_line env.cwd ∷ [])

unfoldable pub run_help : List Text → Shell → Round
run_help args sh =
    if has_arg 2 args
    then continues sh (too_many_arguments help_command ∷ [])
    else elim (get_elem? args 1) [
      | none ↦ continues sh (
          help_line help_command
          ∷ help_line cd_command
          ∷ help_line exit_command
          ∷ help_line pwd_command
          ∷ help_line history_command
          ∷ [])
      | some topic ↦
          if same topic (name_of help_command)
          then continues sh (help_line help_command ∷ [])
          else if same topic (name_of cd_command)
          then continues sh (help_line cd_command ∷ [])
          else if same topic (name_of exit_command)
          then continues sh (help_line exit_command ∷ [])
          else if same topic (name_of pwd_command)
          then continues sh (help_line pwd_command ∷ [])
          else if same topic (name_of history_command)
          then continues sh (help_line history_command ∷ [])
          else continues sh (external_command topic ∷ [])
    ]

unfoldable pub run_external : Env → List Text → Shell → Run Round
run_external env args sh = elim env.fork [
  | fork_failed ↦ ok (continues sh (fork_error ∷ []))
  | child pid ↦ background args >>= λ behind.
      ok (continues sh ((if behind then background_pid pid else waitpid pid) ∷ []))
]

-- The commands by their names.
unfoldable pub dispatch : Env → Text → List Text → Shell → Run Round
dispatch env name args sh =
    if same name (name_of history_command)
    then run_history args sh
    else if same name (name_of exit_command)
    then ok (run_exit args sh)
    else if same name (name_of cd_command)
    then run_cd env args sh
    else if same name (name_of pwd_command)
    then ok (run_pwd env args sh)
    else if same name (name_of help_command)
    then ok (run_help args sh)
    else run_external env args sh

-- The input after `!!` and `!num` are replaced, or the message that ends the round.
pub data Expanded : Type 0 where
  message : Event → Expanded
  command : Text → Expanded

abbrev pub is_null : Cell → Bool
is_null null = true
is_null (held text) = false
is_null freed = false

-- A copy of the command that a cell of the history points to.
unfoldable pub copied : Cell → Run Expanded
copied null = fault
copied (held text) = ok (command text)
copied freed = fault

-- `intHist` has room for three characters and a NUL.
unfoldable pub expand : Text → Hist → Run Expanded
expand input h =
    if not (get_or input 0 0 == 33)
    then ok (command input)
    else if get_or input 1 0 == 33
    then get_last h >>= (λ c. if is_null c then ok (message no_last_command) else copied c)
    else if leb 4 (length (drop 1 input))
    then fault
    else get_hist (atoi (drop 1 input)) h >>= λ c.
        if not (num_only input)
        then ok (message command_invalid)
        else if is_null c && h.hist == 0
        then ok (message no_last_command)
        else copied c

-- A round from `enqueue` on.
unfoldable pub execute : Env → Text → Shell → Run Round
execute env input sh =
    let queued = enqueue input sh.history in
    phrase input >>= λ args. elim args [
      | [] ↦ ok (continues (record sh { history = remove_last queued }) (read_error ∷ []))
      | name ∷ rest ↦ dispatch env name (name ∷ rest) (record sh { history = queued })
    ]

-- A round of the loop of `main`, behind its prompt.
unfoldable pub round : Env → Input → Shell → Run Round
round env failed sh = ok (continues sh (read_error ∷ []))
round env interrupted sh = ok (continues sh [])
round env (line input) sh = expand input sh.history >>= λ e. elim e [
  | message m ↦ ok (continues sh (m ∷ []))
  | command text ↦ execute env text sh
]
