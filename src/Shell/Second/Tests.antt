-- ===== src/Shell/Second/Tests.antt =====
-- The second shell on a session of four lines.
use nsysu_network_applicatio.Prelude.{
  ℕ, ◌≡◌, refl, str_eq, Bool, true, Bytes, codes, List, [], ◌∷◌, ◌++◌, none, some, ok,
}
use nsysu_network_applicatio.Shell.Argv.{argv_of, strs, null}
use nsysu_network_applicatio.Shell.Words.{contains, remove_first}
use nsysu_network_applicatio.Shell.Parse.Words.{words}
use nsysu_network_applicatio.Shell.Background.{notice}
use nsysu_network_applicatio.Shell.Builtin.{printed, exited}
use nsysu_network_applicatio.Shell.Catalog.{find, inbuilts}
use nsysu_network_applicatio.Shell.Session.{with_status}
use nsysu_network_applicatio.Shell.Child.{Kernel, started, child, report}
use nsysu_network_applicatio.Shell.Second.{built_in, command, ends, loop}
use nsysu_network_applicatio.Shell.Second.Meaning.{
  IsWaitable, kind_of, effect_of, said_of, started_of, action_for, action_of, actions_of,
}
use nsysu_network_applicatio.Shell.Second.Line.{second_loop_lem}

abbrev plenty : ℕ → Bool
plenty n = true

abbrev kernel : Kernel
kernel = record {
  open_in = λ name. some 3;
  open_out = λ name. some 3;
  dup2_ok = plenty;
  pipe_ok = true;
  child_fork_ok = true;
  commands = 2;
  fork = some 100;
  waitpid = some (with_status 0);
  strerror = λ n. [];
  strsignal = λ n. [];
  chdir_ok = λ name. true;
  getcwd = none;
  uname = none;
  id_line = none;
}

abbrev lines : List (Bytes × Kernel)
lines =
    (codes "sleep &\n", kernel)
    ∷ (codes "builtin ls\n", kernel)
    ∷ (codes "ls\n", kernel)
    ∷ (codes "bye\n", kernel)
    ∷ (codes "ls\n", kernel)
    ∷ []

kernel-IsWaitable : IsWaitable kernel
unfolding IsWaitable
kernel-IsWaitable = (with_status 0, refl)

second_loop_lem_example :
    loop plenty none lines
    ≡ ok (
        command (started notice (child kernel (strs (codes "sleep" ∷ []) ++ null ∷ null ∷ [])) none)
        ∷ built_in (printed (codes "ls is NOT a builtin feature\n"))
        ∷ command (started [] (child kernel (argv_of (codes "ls" ∷ []))) (some []))
        ∷ built_in exited
        ∷ [])
unfolding actions_of ends action_of action_for started_of said_of effect_of kind_of words find
    inbuilts contains remove_first str_eq report
second_loop_lem_example =
    second_loop_lem plenty none lines (λ n. refl)
      (
        kernel-IsWaitable,
        (kernel-IsWaitable, (kernel-IsWaitable, (kernel-IsWaitable, (kernel-IsWaitable, tt)))),
      )
