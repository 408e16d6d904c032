-- ===== src/Shell/Second/Meaning.antt =====
-- What the second shell is to do with a line, from its words.
use nsysu_network_applicatio.Prelude.{
  Run, ok, fault, ◌>>=◌, null_pointer, ℕ, ◌≡◌, Bytes, codes, List, [], ◌∷◌, ◌++◌, Option, none,
  some, if◌then◌else◌,
}
use nsysu_network_applicatio.Shell.Argv.{argv_of, strs, null}
use nsysu_network_applicatio.Shell.Words.{contains, remove_first}
use nsysu_network_applicatio.Shell.Parse.Words.{words}
use nsysu_network_applicatio.Shell.Background.{ampersand, notice}
use nsysu_network_applicatio.Shell.Builtin.{Effect, printed, complained, changed_directory, exited}
use nsysu_network_applicatio.Shell.Builtin.Echo.{echoed}
use nsysu_network_applicatio.Shell.Catalog.{
  Feature, bi_builtin, bi_echo, bi_quit, bi_cd, bi_pwd, bi_id, bi_hostname, inbuilts, find,
}
use nsysu_network_applicatio.Shell.Catalog.Named.{keywords}
use nsysu_network_applicatio.Shell.Session.{Status}
use nsysu_network_applicatio.Shell.Child.{Kernel, Started, fork_failed, started, report, child}
use nsysu_network_applicatio.Shell.Second.{Action, nothing, built_in, command, ends}

-- the kernel lets the shell wait for its child, if it comes to that
unfoldable pub IsWaitable : Kernel → Type 0
IsWaitable k = (status : Status) × k.waitpid ≡ some status

module _ (k : Kernel) where
  -- what "builtin" says of a name
  unfoldable pub kind_of : Bytes → Bytes
  kind_of name =
      name
      ++ (if contains name (keywords inbuilts)
          then codes " is a builtin feature\n"
          else codes " is NOT a builtin feature\n")

  -- What a builtin is to do with the words behind it; "id" reads NULL where there is no entry.
  unfoldable pub effect_of : Feature → List Bytes → Run Effect
  effect_of bi_builtin [] = ok complained
  effect_of bi_builtin (name ∷ ts) = ok (printed (kind_of name))
  effect_of bi_echo ts = ok (printed (echoed ts))
  effect_of bi_quit ts = ok exited
  effect_of bi_cd [] = ok complained
  effect_of bi_cd (d ∷ ts) = ok (if k.chdir_ok d then changed_directory d else complained)
  effect_of bi_pwd ts =
      ok (elim k.getcwd [ none ↦ complained | some cwd ↦ printed (cwd ++ codes "\n") ])
  effect_of bi_id ts = elim k.id_line [ none ↦ fault null_pointer | some line ↦ ok (printed line) ]
  effect_of bi_hostname ts = ok (elim k.uname [
    | none ↦ exited
    | some nodename ↦ printed (codes "hostname: " ++ (nodename ++ codes "\n"))
  ])

  -- the report that a status calls for
  unfoldable pub said_of : ℕ → Option Status → Option Bytes
  said_of pid none = none
  said_of pid (some status) = some (report k pid status)

  -- a command that is no builtin, by the answer of `fork`; "&" puts it into the background
  unfoldable pub started_of : Option ℕ → List Bytes → Started
  started_of none ts = fork_failed
  started_of (some pid) ts =
      if contains ampersand ts
      then started notice (child k (strs (remove_first ampersand ts) ++ null ∷ null ∷ [])) none
      else started [] (child k (argv_of ts)) (said_of pid k.waitpid)

  unfoldable pub action_for : Option Feature → Bytes → List Bytes → Run Action
  action_for none t ts = ok (command (started_of k.fork (t ∷ ts)))
  action_for (some f) t ts = do e ← effect_of f ts; ok (built_in e)

  unfoldable pub action_of : List Bytes → Run Action
  action_of [] = ok nothing
  action_of (t ∷ ts) = action_for (find inbuilts t) t ts

-- The actions for the lines, from their words and what the kernel answers, up to the first that ends
-- the shell.
unfoldable pub actions_of : List (Bytes × Kernel) → Run (List Action)
actions_of [] = ok []
actions_of ((line, k) ∷ lines) = do
  action ← action_of k (words line)
  if ends action then ok (action ∷ []) else do actions ← actions_of lines; ok (action ∷ actions)
