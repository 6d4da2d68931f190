-- ===== src/Shell2/Session.antt =====
-- Sessions with the shell of lecture/test/test2.c: rounds one after the other.
use cmpt201_coursework.Prelude.{
  ℕ, suc, ◌+◌, ◌-◌, ◌<◌, ◌≡◌, ◌≢◌, refl, ap, ap₂, sym, subst, ◌∙◌, inl, inr, Bool-cases, false,
  Option, none, some, List, [], ◌∷◌, ◌++◌, arith, ltb, ◌==◌, if◌then◌else◌, length, length-take,
  get_elem?, get_or, take, drop, All, All-append, All-get_elem?, All_mono, Run, ok, ◌>>=◌,
}
use cmpt201_coursework.Prelude.Int.{ℤ, pos, negsuc}
use cmpt201_coursework.Text.{Text}
use cmpt201_coursework.Text.Tokens.{tokens}
use cmpt201_coursework.Shell.{Input, failed, interrupted, line, Env}
use cmpt201_coursework.Shell.History.{Cell}
use cmpt201_coursework.Shell.History.Refine.{kept}
use cmpt201_coursework.Shell.History.Recall.{shown}
use cmpt201_coursework.Shell.Words.{ampersand, atoi}
use cmpt201_coursework.Shell2.{
  Slot, word, Shell, Round, continues, is_delimiter, store, tokenize, count_args, is_background,
  copied, is_number_only, expand, execute, strip, round,
}
use cmpt201_coursework.Shell2.History.{enqueue_history, get_history}
use cmpt201_coursework.Shell2.History.Recall.{
  Keeps, IsShort, enqueue-Keeps, numbered, recalled, get_history-shown, shown-numbered,
  get_last_history-newest, print_history-numbered,
}
use cmpt201_coursework.Shell2.Args.{
  Given, store-Given, is_background-Given, is_background-first, count_args-store,
}
use cmpt201_coursework.Shell2.Line.{Leaves, HasHome, dispatch-Leaves}

-- A command of at most 50 characters that is not "&" alone.
abbrev pub IsFine : Text → Type 0
IsFine text = IsShort text × (tokens is_delimiter text ≢ ampersand ∷ [])

-- All entries of `args` are set, and the history holds fine commands.
pub record IsSafe (sh : Shell) : Type 0 where
  pub commands : List Text
  pub total : ℕ
  pub keeps : Keeps commands total sh.history
  pub fine : All IsFine commands
  pub given : Given sh.args

-- A round that ends, in a safe state.
abbrev pub EndsSafe : Run Round → Type 0
EndsSafe r = (q : Round) × (r ≡ ok q) × IsSafe q.shell

kept-IsFine : (xs : List Text) → All IsFine xs → All IsFine (kept xs)
kept-IsFine [] f = f
kept-IsFine (x ∷ xs) f = elim (Bool-cases (ltb 9 (length (x ∷ xs)))) [
  | inl e ↦ rw (e) f.1
  | inr e ↦ rw (e) f
]

Leaves-EndsSafe : (sh : Shell) (r : Run Round) → IsSafe sh → Leaves sh r → EndsSafe r
Leaves-EndsSafe sh r s (q, e, h, a) = (
  q,
  e,
  record {
    commands = s.commands;
    total = s.total;
    keeps = rw (h) s.keeps;
    fine = s.fine;
    given = rw (a) s.given;
  },
)

IsSafe-args :
    (sh : Shell) (args : List Slot) → IsSafe sh → Given args → IsSafe (record sh { args = args })
IsSafe-args sh args s g = record {
  commands = s.commands;
  total = s.total;
  keeps = s.keeps;
  fine = s.fine;
  given = g;
}

take-alone : (k : ℕ) (x : Text) (ts : List Text) → take (suc (suc k)) ts ≡ x ∷ [] → ts ≡ x ∷ []
take-alone k x [] e = cc
take-alone k x (t ∷ []) e = e
take-alone k x (t ∷ u ∷ ts) e = cc

queued : Text → Shell → Shell
queued input sh = record sh {
  history = enqueue_history input sh.history;
  args = tokenize input sh.args;
}

queued-IsSafe : (input : Text) (sh : Shell) → IsSafe sh → IsFine input → IsSafe (queued input sh)
unfolding queued tokenize
queued-IsSafe input sh s f = record {
  commands = kept s.commands ++ (input ∷ []);
  total = s.total + 1;
  keeps = enqueue-Keeps input s.commands s.total sh.history s.keeps;
  fine = All-append IsFine (kept s.commands) (input ∷ []) (kept-IsFine s.commands s.fine) (f, tt);
  given = store-Given _ sh.args s.given;
}

taken-EndsSafe :
    (env : Env) (input : Text) (sh : Shell) (ts : List Text)
    → take 15 (tokens is_delimiter input) ≡ ts
    → HasHome env
    → IsSafe sh
    → IsFine input
    → length ts < 16
    → EndsSafe (execute env input sh)
unfolding execute tokenize queued
taken-EndsSafe env input sh [] e set s f few =
    let z = s.given.size in
    let args = tokenize input sh.args in
    let c : count_args args ≡ 0 =
      ap (λ l. count_args (store l sh.args)) e ∙ count_args-store [] sh.args (omega arith) in
    rw (execute, c) (continues (queued input sh) [], refl, queued-IsSafe input sh s f)
taken-EndsSafe env input sh (t ∷ ts) e set s f few =
    let z = s.given.size in
    let args = tokenize input sh.args in
    let eq : args ≡ store (t ∷ ts) sh.args = ap (λ l. store l sh.args) e in
    let c : count_args args ≡ length (t ∷ ts) =
      ap count_args eq ∙ count_args-store (t ∷ ts) sh.args (omega arith) in
    let some_args : (count_args args == 0) ≡ false = ground arith in
    let q = queued-IsSafe input sh s f in
    let alone : t ∷ ts ≢ ampersand ∷ [] = λ w. f.1 (take-alone 13 ampersand _ (e ∙ w)) in
    let first : get_elem? ((is_background args (count_args args)).1) 0 ≡ some (word t) =
      ap₂ (λ l n. get_elem? ((is_background l n).1) 0) eq c
      ∙ is_background-first t ts sh.args s.given few alone in
    let given = is_background-Given args (count_args args) q.given in
    let sh' : Shell = record (queued input sh) {
      args = (is_background args (count_args args)).1;
    } in
    rw (execute, some_args)
      (Leaves-EndsSafe sh' _ (IsSafe-args (queued input sh) _ q given) (
        dispatch-Leaves env _ sh' t _ set given first (
          print_history-numbered q.commands q.total _ q.keeps.holds
            (All_mono IsFine IsShort q.commands (λ t g. g.0) q.fine))))

execute-EndsSafe :
    (env : Env) (input : Text) (sh : Shell)
    → HasHome env
    → IsSafe sh
    → IsFine input
    → EndsSafe (execute env input sh)
execute-EndsSafe env input sh set s f =
    let l = length-take 15 (tokens is_delimiter input) in
    taken-EndsSafe env input sh (take 15 (tokens is_delimiter input)) refl set s f (omega arith)

IsFine-shown :
    (n base : ℕ) (x : Text) (xs : List Text)
    → All IsFine xs
    → shown n (numbered base xs) ≡ some x
    → IsFine x
IsFine-shown n base x xs f e = elim (Bool-cases (ltb base n)) [
  | inl l ↦ All-get_elem? IsFine (n - base - 1) x xs f (sym (rw (shown-numbered n base xs, l)) ∙ e)
  | inr l ↦ let k : none ≡ some x = sym (rw (shown-numbered n base xs, l)) ∙ e in cc
]

-- The input after `!!` and `!n` are replaced is fine, if the round goes on.
Expands : Run (Option Text) → Type 0
Expands r = (e : Option Text) × (r ≡ ok e) × ((x : Text) → e ≡ some x → IsFine x)

copied-Expands :
    (r : Run Cell) (e : Option Text)
    → r ≡ recalled e
    → ((x : Text) → e ≡ some x → IsFine x)
    → Expands (r >>= copied)
unfolding copied Expands
copied-Expands r none p f = rw (p) (none, refl, λ x w. cc)
copied-Expands r (some t) p f = rw (p) (some t, refl, f)

get_history-Expands :
    (n : ℤ) (sh : Shell) → IsSafe sh → Expands (get_history n sh.history >>= copied)
unfolding get_history copied Expands
get_history-Expands (negsuc n) sh s = (none, refl, λ x w. cc)
get_history-Expands (pos n) sh s =
    copied-Expands _ _ (get_history-shown n s.commands s.total sh.history s.keeps)
      (λ x w. IsFine-shown n (s.total - length s.commands) x s.commands s.fine w)

expand-Expands :
    (input : Text) (sh : Shell) → IsSafe sh → IsFine input → Expands (expand input sh.history)
unfolding expand Expands
expand-Expands input sh s f = elim (Bool-cases (get_or input 0 0 == 33)) [
  | inr p ↦ rw (expand, p) (some input, refl, λ x w. let k : input ≡ x = cc in subst IsFine k f)
  | inl p ↦ elim (Bool-cases (get_or input 1 0 == 33)) [
    | inl q ↦
        rw (expand, p, q)
          (copied-Expands _ _ (get_last_history-newest s.commands s.total sh.history s.keeps.holds)
            (λ x w. All-get_elem? IsFine (length s.commands - 1) x s.commands s.fine w))
    | inr q ↦ elim (Bool-cases (is_number_only (drop 1 input))) [
      | inl d ↦ rw (expand, p, q, d) (get_history-Expands (atoi (drop 1 input)) sh s)
      | inr d ↦ rw (expand, p, q, d) (none, refl, λ x w. cc)
    ]
  ]
]

-- The line that is read is fine.
abbrev pub IsFineInput : Input → Type 0
IsFineInput failed = Unit
IsFineInput interrupted = Unit
IsFineInput (line text) = IsFine (strip text)

expanded-EndsSafe :
    (env : Env) (text : Text) (e : Option Text) (sh : Shell)
    → expand (strip text) sh.history ≡ ok e
    → (length (strip text) == 0) ≡ false
    → ((x : Text) → e ≡ some x → IsFine x)
    → HasHome env
    → IsSafe sh
    → EndsSafe (round env (line text) sh)
unfolding round
expanded-EndsSafe env text none sh p l f set s = rw (round, l, p) (continues sh [], refl, s)
expanded-EndsSafe env text (some x) sh p l f set s =
    rw (round, l, p) (execute-EndsSafe env x sh set s (f x refl))

round-EndsSafe :
    (env : Env) (input : Input) (sh : Shell)
    → HasHome env
    → IsFineInput input
    → IsSafe sh
    → EndsSafe (round env input sh)
unfolding round Expands
round-EndsSafe env failed sh set f s = (continues sh [], refl, s)
round-EndsSafe env interrupted sh set f s = (continues sh [], refl, s)
round-EndsSafe env (line text) sh set f s = elim (Bool-cases (length (strip text) == 0)) [
  | inl l ↦ rw (round, l) (continues sh [], refl, s)
  | inr l ↦
      let (e, p, g) = expand-Expands (strip text) sh s f in
      expanded-EndsSafe env text e sh p l g set s
]

-- The loop of `main` for as long as there is input: the shell at its end.
unfoldable pub session : List (Env × Input) → Shell → Run Shell
session [] sh = ok sh
session ((env, input) ∷ inputs) sh =
    round env input sh >>= λ q. if q.goes_on then session inputs q.shell else ok q.shell

session-step :
    (env : Env) (input : Input) (inputs : List (Env × Input)) (q : Round) (sh : Shell)
    → round env input sh ≡ ok q
    → session ((env, input) ∷ inputs) sh
      ≡ (if q.goes_on then session inputs q.shell else ok q.shell)
unfolding session
session-step env input inputs q sh e = rw (e)

-- In a shell whose `args` are all set and whose history holds commands of at most 50 characters, none
-- of them "&" alone, and with `HOME` set in every round, lines of at most 50 characters, none of them
-- "&" alone, are carried out one after the other: no round reads through `NULL`, an entry that is not
-- set, or memory that is freed or behind its buffer, and the last shell is again such a shell.
pub session-IsSafe :
    (inputs : List (Env × Input)) (sh : Shell)
    → IsSafe sh
    → All (λ p. HasHome p.0 × IsFineInput p.1) inputs
    → (sh' : Shell) × (session inputs sh ≡ ok sh') × IsSafe sh'
unfolding session
session-IsSafe [] sh s f = (sh, refl, s)
session-IsSafe ((env, input) ∷ inputs) sh s f =
    let (q, e, s') = round-EndsSafe env input sh f.0.0 f.0.1 s in
    rw (session-step env input inputs q sh e) (elim (Bool-cases q.goes_on) [
      | inl g ↦ rw (g) (session-IsSafe inputs q.shell s' f.1)
      | inr g ↦ rw (g) (q.shell, refl, s')
    ])
