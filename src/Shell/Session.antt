-- ===== src/Shell/Session.antt =====
-- hw4/shell.c and hw4/run_command.c: the loop of the shell, and a command in a process of its own.
pub mod Line
use nsysu_network_applicatio.Prelude.{
  ℕ, Bool, true, false, Bytes, codes, List, [], ◌∷◌, ◌++◌, Option, none, some, Run, ok, fault,
  ◌>>=◌, if◌then◌else◌,
}
use nsysu_network_applicatio.Prelude.Decimal.{decimal}
use nsysu_network_applicatio.Shell.Argv.{Argv, load, text}
use nsysu_network_applicatio.Shell.Parse.{parse, free_argv}
use nsysu_network_applicatio.Shell.Background.{is_background}
use nsysu_network_applicatio.Shell.Builtin.{
  Builtin, Effect, exited, printed, complained, changed_directory, is_builtin, do_builtin,
}

-- the status of a child, as the macros of wait.h take it apart
pub data Status : Type 0 where
  with_status : ℕ → Status
  by_signal : ℕ → Status
  stopped_by : ℕ → Status
  other_status : Status

-- What the kernel answers while a line is carried out: to `chdir`, `getcwd` (none for NULL), `fork`
-- and `waitpid` (none for -1).
pub record Kernel : Type 0 where
  pub chdir_ok : Bytes → Bool
  pub getcwd : Option Bytes
  pub fork_ok : Bool
  pub waitpid : Option Status

-- What the shell does for a line: nothing, a builtin, or a command. Of a command: what was said of
-- the background, the vector that the child executes, and the report on its status, if the shell
-- waits for it.
pub data Action : Type 0 where
  nothing : Action
  built_in : Effect → Action
  command : (notice : Bytes) (argv : Argv) (report : Option Bytes) → Action
  fork_failed : Action
  wait_failed : (notice : Bytes) (argv : Argv) → Action

unfoldable pub report : Status → Bytes
report (with_status n) = codes "Child exited with status " ++ (decimal n ++ codes "\n")
report (by_signal n) = codes "Child killed by signal " ++ (decimal n ++ codes "\n")
report (stopped_by n) = codes "Child stopped by signal " ++ (decimal n ++ codes "\n")
report other_status = []

unfoldable pub waited : Bytes → Argv → Option Status → Action
waited notice argv none = wait_failed notice argv
waited notice argv (some status) = command notice argv (some (report status))

-- `run_command`, with the vector as it is left
pub run_command : Kernel → Argv → Run (Action × Argv)
run_command k argv = do
  (argv', in_background, notice) ← is_background argv
  elim k.fork_ok [
    | false ↦ ok (fork_failed, argv')
    | true ↦ elim in_background [
      | true ↦ ok (command notice argv' none, argv')
      | false ↦ ok (waited notice argv' k.waitpid, argv')
    ]
  ]

-- `exit` is called in the action
unfoldable pub ends : Action → Bool
ends nothing = false
ends (built_in exited) = true
ends (built_in (printed out)) = false
ends (built_in complained) = false
ends (built_in (changed_directory path)) = false
ends (command notice argv report) = false
ends fork_failed = true
ends (wait_failed notice argv) = true

-- `free_argv` at the end of a round that gets there
unfoldable pub free_unless : Action → Option Builtin → Argv → Run (Action × Option Builtin)
unfolding ends
free_unless action this argv =
    if ends action then ok (action, this) else do strings ← free_argv argv; ok (action, this)

module _ (k : Kernel) where
  -- behind the answer of `is_builtin`
  pub carry_out : Bool × Option Builtin → Argv → Run (Action × Option Builtin)
  carry_out (true, this) argv = do
    e ← do_builtin k.chdir_ok k.getcwd this argv
    free_unless (built_in e) this argv
  carry_out (false, this) argv = do
    (action, argv') ← run_command k argv
    free_unless action this argv'

  -- the vector of a line: the action, and the new value of `this`
  pub execute : Option Builtin → Argv → Run (Action × Option Builtin)
  execute this argv = do p ← load argv 0; cmd ← text p; carry_out (is_builtin this cmd) argv

  pub parsed : Option Builtin → Option Argv → Run (Action × Option Builtin)
  parsed this none = ok (nothing, this)
  parsed this (some argv) = execute this argv

  -- one round of the `while`, for a line that was read
  pub round : (ℕ → Bool) → Option Builtin → Bytes → Run (Action × Option Builtin)
  round alloc this line = do v ← parse alloc (some line); parsed this v

-- The `while`: the actions for the lines that `fgets` gives, up to a call of `exit`.
pub loop : (ℕ → Bool) → Option Builtin → List (Bytes × Kernel) → Run (List Action)
unfolding ends
loop alloc this [] = ok []
loop alloc this ((line, k) ∷ lines) = do
  (action, this') ← round k alloc this line
  if ends action
      then ok (action ∷ [])
      else do actions ← loop alloc this' lines; ok (action ∷ actions)
