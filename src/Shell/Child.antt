-- ===== src/Shell/Child.antt =====
-- hw6/part2/run_command.c: a command of the second shell, whose child redirects its input and then
-- its output, and runs the commands around "|".
pub mod Plain
use nsysu_network_applicatio.Prelude.{
  ℕ, Bool, true, false, Bytes, codes, List, [], ◌∷◌, ◌++◌, Option, none, some, Run, ok, fault,
  ◌>>=◌, uninitialised, ◌==◌, if◌then◌else◌,
}
use nsysu_network_applicatio.Prelude.Int.{ℤ, pos, negsuc}
use nsysu_network_applicatio.Prelude.Decimal.{decimal}
use nsysu_network_applicatio.Shell.Argv.{Argv}
use nsysu_network_applicatio.Shell.Background.{is_background}
use nsysu_network_applicatio.Shell.Redirect.{Call, input, output, redirect}
use nsysu_network_applicatio.Shell.Pipe.{Ending, pipe_and_exec}
use nsysu_network_applicatio.Shell.Session.{
  Status, with_status, by_signal, stopped_by, other_status,
}

-- What the kernel and the C library answer while a line is carried out: in the child, in the shell
-- itself, and to the builtins. `waitpid` is none for -1, `id_line` is none where the user or the group has no entry, `commands` bounds the commands of a pipe.
pub record Kernel : Type 0 where
  pub open_in : Bytes → Option ℕ
  pub open_out : Bytes → Option ℕ
  pub dup2_ok : ℕ → Bool
  pub pipe_ok : Bool
  pub child_fork_ok : Bool
  pub commands : ℕ
  pub fork : Option ℕ
  pub waitpid : Option Status
  pub strerror : ℕ → Bytes
  pub strsignal : ℕ → Bytes
  pub chdir_ok : Bytes → Bool
  pub getcwd : Option Bytes
  pub uname : Option Bytes
  pub id_line : Option Bytes

-- How the child ends: with exit(1) behind a redirection that failed, or as `pipe_and_exec` does;
-- with the calls that the redirections made.
pub data ChildEnd : Type 0 where
  not_redirected : List Call → ChildEnd
  ran : List Call → Ending → ChildEnd

abbrev failed : ℤ → Bool
failed (pos n) = false
failed (negsuc n) = n == 0

-- `case 0` of the switch
pub child : Kernel → Argv → Run ChildEnd
child k argv = do
  (status, argv1, calls) ← redirect k.open_in input k.dup2_ok argv
  elim (failed status) [
    | true ↦ ok (not_redirected calls)
    | false ↦ do
      (status2, argv2, calls2) ← redirect k.open_out output k.dup2_ok argv1
      elim (failed status2) [
        | true ↦ ok (not_redirected (calls ++ calls2))
        | false ↦ do
          ending ← pipe_and_exec k.pipe_ok k.child_fork_ok k.commands argv2
          ok (ran (calls ++ calls2) ending)
      ]
  ]

-- What is said of the status, on the standard error.
unfoldable pub report : Kernel → ℕ → Status → Bytes
report k pid (with_status n) =
    if n == 0
    then []
    else codes "Child "
      ++ (decimal pid
          ++ (codes " exited with error status "
              ++ (decimal n ++ (codes ": " ++ (k.strerror n ++ codes "\n")))))
report k pid (by_signal n) =
    if n == 0
    then []
    else codes "Child "
      ++ (decimal pid
          ++ (codes " exited due to signal "
              ++ (decimal n ++ (codes ": " ++ (k.strsignal n ++ codes "\n")))))
report k pid (stopped_by n) = []
report k pid other_status = []

-- The result of `waitpid` is not tested: where it fails, `stat` is read all the same.
unfoldable pub waited : Kernel → ℕ → Option Status → Run Bytes
waited k pid none = fault uninitialised
waited k pid (some status) = ok (report k pid status)

-- What becomes of a command: `fork` fails and the shell exits, or there is a child, a process of its
-- own, with what was said of the background and, if the shell waits, of the status.
pub data Started : Type 0 where
  fork_failed : Started
  started : (notice : Bytes) (child : Run ChildEnd) (report : Option Bytes) → Started

-- behind `fork`
unfoldable pub forked : Kernel → Option ℕ → Argv → Bool → Bytes → Run Started
forked k none argv in_background notice = ok fork_failed
forked k (some pid) argv true notice = ok (started notice (child k argv) none)
forked k (some pid) argv false notice = do
  said ← waited k pid k.waitpid
  ok (started notice (child k argv) (some said))

-- `run_command`, with the vector as it is left
unfoldable pub run_command : Kernel → Argv → Run (Started × Argv)
run_command k argv = do
  (argv', in_background, notice) ← is_background argv
  outcome ← forked k k.fork argv' in_background notice
  ok (outcome, argv')
