-- ===== src/Shell2/Line.antt =====
-- Rounds of the shell of lecture/test/test2.c.
use cmpt201_coursework.Prelude.{
  ℕ, ◌<◌, ◌≡◌, refl, inl, inr, Bool-cases, Bool, true, false, some, List, [], ◌∷◌, ◌++◌, arith,
  ◌==◌, if◌then◌else◌, get_elem?, All-get_elem?, get_or, some_at, take, drop, Run, ok,
}
use cmpt201_coursework.Text.{Text}
use cmpt201_coursework.Shell.{
  Command, history_command, exit_command, cd_command, pwd_command, too_many_arguments, Env,
  fork_failed, child, fork_error, background_pid, waitpid,
}
use cmpt201_coursework.Shell2.{
  Slot, unset, null_slot, word, Shell, Round, continues, has_arg, unless_more, run_history,
  run_exit, run_pwd, cd_path, run_cd, run_help, run_external, dispatch, entries,
}
use cmpt201_coursework.Shell2.History.{print_history}
use cmpt201_coursework.Shell2.Args.{IsGiven, Given, has_arg-some}

-- A round that leaves history and arguments as they are.
abbrev pub Leaves : Shell → Run Round → Type 0
Leaves sh r = (q : Round) × (r ≡ ok q) × (q.shell.history ≡ sh.history) × (q.shell.args ≡ sh.args)

if-Leaves :
    (b : Bool) (sh : Shell) (r r' : Run Round)
    → Leaves sh r
    → Leaves sh r'
    → Leaves sh (if b then r else r')
if-Leaves true sh r r' l l' = l
if-Leaves false sh r r' l l' = l'

tested-Leaves :
    (b : Bool) (i : ℕ) (name : Command) (sh : Shell) (command : Run Round)
    → has_arg i sh.args ≡ ok b
    → Leaves sh command
    → Leaves sh (unless_more i name sh command)
tested-Leaves true i name sh command e l =
    rw (e) (continues sh (too_many_arguments name ∷ []), refl, refl, refl)
tested-Leaves false i name sh command e l = rw (e) l

unless_more-Leaves :
    (i : ℕ) (name : Command) (sh : Shell) (command : Run Round)
    → Given sh.args
    → i < 16
    → Leaves sh command
    → Leaves sh (unless_more i name sh command)
unless_more-Leaves i name sh command g few l =
    let (b, e) = has_arg-some i sh.args g.all (omega (arith, g.size)) in
    tested-Leaves b i name sh command e l

-- `HOME` is set.
abbrev pub HasHome : Env → Type 0
HasHome env = (home : Text) × (env.home ≡ some home)

slot-path :
    (env : Env) (sh : Shell) (a : Slot)
    → HasHome env
    → get_elem? sh.args 1 ≡ some a
    → IsGiven a
    → (path : Text) × (cd_path env sh ≡ ok path)
unfolding cd_path
slot-path env sh unset set e g = absurd g
slot-path env sh null_slot set e g = (set.0, rw (cd_path, e, set.1))
slot-path env sh (word path) set e g = elim (Bool-cases (get_or path 0 0 == 126)) [
  | inl a ↦ (take 4095 (set.0 ++ drop 1 path), rw (cd_path, e, a, set.1))
  | inr a ↦ elim (Bool-cases (get_or path 0 0 == 45)) [
    | inl b ↦ (sh.last_path, rw (cd_path, e, a, b))
    | inr b ↦ (path, rw (cd_path, e, a, b))
  ]
]

cd_path-some :
    (env : Env) (sh : Shell)
    → HasHome env
    → Given sh.args
    → (path : Text) × (cd_path env sh ≡ ok path)
cd_path-some env sh set g =
    let (a, e) = some_at 1 sh.args (omega (arith, g.size)) in
    slot-path env sh a set e (All-get_elem? IsGiven 1 a sh.args g.all e)

run_cd-Leaves : (env : Env) (sh : Shell) → HasHome env → Given sh.args → Leaves sh (run_cd env sh)
unfolding run_cd
run_cd-Leaves env sh set g =
    let (path, e) = cd_path-some env sh set g in
    unless_more-Leaves 2 cd_command sh _ g (omega arith) (
      rw (e)
        (if-Leaves (env.chdir_ok (path ∷ [])) sh _ _ (_, refl, refl, refl) (_, refl, refl, refl)))

run_external-Leaves : (env : Env) (bg : Bool) (sh : Shell) → Leaves sh (ok (run_external env bg sh))
unfolding run_external
run_external-Leaves env bg sh =
    elim env.fork
      as (λ f. Leaves sh (
        ok (elim f [
          | fork_failed ↦ continues sh (fork_error ∷ [])
          | child pid ↦ continues sh ((if bg then background_pid pid else waitpid pid) ∷ [])
        ]))) [ fork_failed ↦ (_, refl, refl, refl) | child pid ↦ (_, refl, refl, refl) ]

run_history-Leaves :
    (sh : Shell) (lines : List (ℕ × Text))
    → Given sh.args
    → print_history sh.history ≡ ok lines
    → Leaves sh (run_history sh)
unfolding run_history
run_history-Leaves sh lines g p =
    unless_more-Leaves 1 history_command sh _ g (omega arith)
      (rw (p) (continues sh (entries lines), refl, refl, refl))

-- Every command of a shell with set entries, a set `HOME` and a history that can be printed comes to
-- its end.
pub dispatch-Leaves :
    (env : Env) (bg : Bool) (sh : Shell) (name : Text) (lines : List (ℕ × Text))
    → HasHome env
    → Given sh.args
    → get_elem? sh.args 0 ≡ some (word name)
    → print_history sh.history ≡ ok lines
    → Leaves sh (dispatch env bg sh)
unfolding dispatch run_exit run_pwd run_help
dispatch-Leaves env bg sh name lines set g e p =
    rw (dispatch, e)
      (if-Leaves _ sh _ _
        (unless_more-Leaves 1 exit_command sh _ g (omega arith) (_, refl, refl, refl))
        (if-Leaves _ sh _ _
          (unless_more-Leaves 1 pwd_command sh _ g (omega arith) (_, refl, refl, refl))
          (if-Leaves _ sh _ _ (run_cd-Leaves env sh set g) (
            if-Leaves _ sh _ _ (run_history-Leaves sh lines g p) (
              if-Leaves _ sh _ _ (run_help sh, refl, refl, refl)
                (run_external-Leaves env bg sh))))))
