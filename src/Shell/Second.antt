-- ===== src/Shell/Second.antt =====
-- hw6/part2/shell.c: the loop of the second shell.
pub mod Meaning
pub mod Line
pub mod Tests
use nsysu_network_applicatio.Prelude.{
  ℕ, Bool, true, false, Bytes, List, [], ◌∷◌, Option, none, some, Run, ok, ◌>>=◌, if◌then◌else◌,
}
use nsysu_network_applicatio.Shell.Argv.{Argv, load, text}
use nsysu_network_applicatio.Shell.Parse.{parse, free_argv}
use nsysu_network_applicatio.Shell.Builtin.{Effect, exited, printed, complained, changed_directory}
use nsysu_network_applicatio.Shell.Catalog.{Feature, is_builtin, do_builtin}
use nsysu_network_applicatio.Shell.Child.{Kernel, Started, fork_failed, started, run_command}

-- What the shell does for a line.
pub data Action : Type 0 where
  nothing : Action
  built_in : Effect → Action
  command : Started → Action

-- `exit` is called in the action
unfoldable pub ends : Action → Bool
ends nothing = false
ends (built_in exited) = true
ends (built_in (printed out)) = false
ends (built_in complained) = false
ends (built_in (changed_directory path)) = false
ends (command fork_failed) = true
ends (command (started notice child report)) = false

-- `free_argv` at the end of a round that gets there
unfoldable pub free_unless : Action → Option Feature → Argv → Run (Action × Option Feature)
unfolding ends
free_unless action this argv =
    if ends action then ok (action, this) else do strings ← free_argv argv; ok (action, this)

module _ (k : Kernel) where
  -- behind the answer of `is_builtin`
  pub carry_out : Bool × Option Feature → Argv → Run (Action × Option Feature)
  carry_out (true, this) argv = do
    (e, this') ← do_builtin k.chdir_ok k.getcwd k.uname k.id_line this argv
    free_unless (built_in e) this' argv
  carry_out (false, this) argv = do
    (s, argv') ← run_command k argv
    free_unless (command s) this argv'

  -- the vector of a line: the action, and the new value of the static pointer of the builtins
  pub execute : Option Feature → Argv → Run (Action × Option Feature)
  execute this argv = do p ← load argv 0; cmd ← text p; carry_out (is_builtin this cmd) argv

  pub parsed : Option Feature → Option Argv → Run (Action × Option Feature)
  parsed this none = ok (nothing, this)
  parsed this (some argv) = execute this argv

  -- one round of the `while`, for a line that was read
  pub round : (ℕ → Bool) → Option Feature → Bytes → Run (Action × Option Feature)
  round alloc this line = do v ← parse alloc (some line); parsed this v

-- The `while`: the actions for the lines that `fgets` gives, up to a call of `exit`.
pub loop : (ℕ → Bool) → Option Feature → List (Bytes × Kernel) → Run (List Action)
unfolding ends
loop alloc this [] = ok []
loop alloc this ((line, k) ∷ lines) = do
  (action, this') ← round k alloc this line
  if ends action
      then ok (action ∷ [])
      else do actions ← loop alloc this' lines; ok (action ∷ actions)
