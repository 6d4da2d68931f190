-- ===== src/Shell/Directory.antt =====
-- `cd` of the shell.
use cmpt201_coursework.Prelude.{◌≡◌, true, false, some, [], ◌∷◌, ◌==◌, get_or, take, ok, ◌>>=◌}
use cmpt201_coursework.Text.{Text}
use cmpt201_coursework.Shell.{
  Env, Shell, continues, chdir, cd_command, name_of, cd_requests, run_cd,
}

-- After `cd` to a directory that exists, `cd -` goes home and from there to the directory before,
-- if that succeeds, and keeps the directory that it left.
cd-back :
    (env back : Env) (home path : Text) (sh : Shell)
    → (get_or path 0 0 == 126) ≡ false
    → (get_or path 0 0 == 45) ≡ false
    → env.chdir_ok (path ∷ []) ≡ true
    → back.chdir_ok (home ∷ take 4096 env.cwd ∷ []) ≡ true
    → back.home ≡ some home
    → (run_cd env (name_of cd_command ∷ path ∷ []) sh >>= λ r.
        run_cd back (name_of cd_command ∷ (45 ∷ []) ∷ []) r.shell)
      ≡ ok (
          continues
            (record sh { last_path = some (take 4096 back.cwd) })
            (chdir home ∷ chdir (take 4096 env.cwd) ∷ []))
unfolding run_cd cd_requests
cd-back env back home path sh t d o o' h = rw (t, d, o, h, o')
