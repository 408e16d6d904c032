-- ===== src/Shell/Tests.antt =====
-- The shell's theorems at concrete lines and vectors.
use nsysu_network_applicatio.Prelude.{
  ℕ, ◌≡◌, refl, str_eq, Bool, true, false, Bytes, codes, List, [], ◌∷◌, ◌++◌, if◌then◌else◌, Option,
  none, some, ok, fault, uninitialised, ◌==◌, arith,
}
use nsysu_network_applicatio.Prelude.Int.{pos}
use nsysu_network_applicatio.Shell.Argv.{argv_of, str, strs, null}
use nsysu_network_applicatio.Shell.Words.{contains, remove_first}
use nsysu_network_applicatio.Shell.Parse.{parse}
use nsysu_network_applicatio.Shell.Parse.Outcome.{vector_of, parse-words, parse_realloc_refused}
use nsysu_network_applicatio.Shell.Parse.Words.{words}
use nsysu_network_applicatio.Shell.Background.{notice}
use nsysu_network_applicatio.Shell.Pipe.{pipe_and_exec}
use nsysu_network_applicatio.Shell.Pipe.Verdict.{split_at_bar}
use nsysu_network_applicatio.Shell.Pipe.Overrun.{pipe_and_exec-outcome, outcome}
use nsysu_network_applicatio.Shell.Builtin.{exited, find, inbuilts}
use nsysu_network_applicatio.Shell.Session.{
  Kernel, with_status, built_in, command, ends, loop, waited, report,
}
use nsysu_network_applicatio.Prelude.Decimal.{decimal}
use nsysu_network_applicatio.Shell.Session.Line.{
  effect_of, command_of, action_for, action_of, until_end, actions_of, loop_lem,
}
use nsysu_network_applicatio.Shell.Redirect.{input, redirect}
use nsysu_network_applicatio.Shell.Redirect.Removed.{leftover, done_calls}
use nsysu_network_applicatio.Shell.Redirect.Cases.{redirect_middle}

abbrev line : Bytes
line = codes " ls -l\n"

abbrev plenty : ℕ → Bool
plenty k = true

abbrev third_refused : ℕ → Bool
third_refused k = if k == 2 then false else true

parse-words_example : parse plenty (some line) ≡ ok (vector_of (words line))
parse-words_example = parse-words plenty line (λ k. refl)

parse_realloc_refused_example : parse third_refused (some line) ≡ fault uninitialised
unfolding words
parse_realloc_refused_example =
    parse_realloc_refused third_refused line 0 (omega arith) (λ k h. ground arith) refl

abbrev piped_words : List Bytes
piped_words = codes "ls" ∷ codes "|" ∷ codes "wc" ∷ []

pipe_and_exec-outcome_example :
    pipe_and_exec true true 2 (argv_of piped_words) ≡ outcome piped_words (split_at_bar piped_words)
pipe_and_exec-outcome_example = pipe_and_exec-outcome true true 1 piped_words

-- every file opens as descriptor 3, but for "missing"
abbrev open_file : Bytes → Option ℕ
open_file [] = none
open_file (c ∷ s) = if c == b'm' then none else some 3

redirect_middle_example :
    redirect open_file input plenty
      (argv_of (codes "cat" ∷ codes "<" ∷ codes "f" ∷ codes "-n" ∷ []))
    ≡ ok (
      pos 0,
      strs (codes "cat" ∷ codes "-n" ∷ []) ++ null ∷ leftover (str (codes "-n")) [],
      done_calls 0 (codes "f") 3,
    )
unfolding contains str_eq
redirect_middle_example =
    redirect_middle open_file plenty input (codes "cat" ∷ []) refl (codes "f") 3 refl refl
      (codes "-n") [] refl

abbrev every_directory : Bytes → Bool
every_directory s = true

abbrev kernel : Kernel
kernel = record {
  chdir_ok = every_directory;
  getcwd = none;
  fork_ok = true;
  waitpid = some (with_status 3);
}

abbrev lines : List (Bytes × Kernel)
lines =
    (codes "sleep & 5\n", kernel)
    ∷ (codes "false\n", kernel)
    ∷ (codes "exit\n", kernel)
    ∷ (codes "ls\n", kernel)
    ∷ []

loop_lem_example :
    loop plenty none lines
    ≡ ok (
        command notice (strs (codes "sleep" ∷ codes "5" ∷ []) ++ null ∷ null ∷ []) none
        ∷ command [] (argv_of (codes "false" ∷ [])) (some (codes "Child exited with status 3\n"))
        ∷ built_in exited
        ∷ [])
unfolding until_end actions_of ends action_of action_for command_of effect_of words find inbuilts
    contains remove_first str_eq waited report decimal
loop_lem_example = loop_lem plenty none lines (λ k. refl)
