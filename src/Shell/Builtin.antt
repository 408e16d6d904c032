-- ===== src/Shell/Builtin.antt =====
-- hw4/builtin.c: the commands that the shell carries out itself, and the table they are found in.
pub mod Echo
use nsysu_network_applicatio.Prelude.{
  ℕ, zero, suc, ◌+◌, Bool, true, false, Bytes, codes, str_eq, List, [], ◌∷◌, ◌++◌, length, Option,
  none, some, Run, ok, fault, ◌>>=◌, null_pointer, out_of_fuel, if◌then◌else◌,
}
use nsysu_network_applicatio.Shell.Argv.{Slot, Argv, load, text, is_null}

-- the functions of the table
pub data Builtin : Type 0 where
  bi_cd bi_exit bi_pwd bi_echo : Builtin

-- What a builtin does: it prints on the standard output or complains on the standard error, changes
-- the directory, or ends the shell.
pub data Effect : Type 0 where
  printed : Bytes → Effect
  complained : Effect
  changed_directory : Bytes → Effect
  exited : Effect

abbrev separator : Slot → Bytes
separator p = elim (is_null p) [ true ↦ [] | false ↦ codes " " ]

-- the `while` of `bi_echo`, with what it prints
echo_loop : ℕ → Argv → ℕ → Bytes → Run Bytes
echo_loop zero argv i out = fault out_of_fuel
echo_loop (suc fuel) argv i out = do
  p ← load argv i
  elim (is_null p) [
    | true ↦ ok out
    | false ↦ do
      s ← text p
      q ← load argv (i + 1)
      echo_loop fuel argv (i + 1) (out ++ (s ++ separator q))
  ]

-- `argv[1] != NULL && strcmp(argv[1], "-n") == 0`
abbrev dash_n : Slot → Run Bool
dash_n p = elim (is_null p) [ true ↦ ok false | false ↦ do s ← text p; ok (str_eq s (codes "-n")) ]

pub echo : Argv → Run Bytes
unfolding echo_loop
echo argv = do
  p ← load argv 1
  no_newline ← dash_n p
  elim no_newline [
    | true ↦ echo_loop (length argv) argv 2 []
    | false ↦ do out ← echo_loop (length argv) argv 1 []; ok (out ++ codes "\n")
  ]

-- The answers of `chdir` and `getcwd` are parameters.
module _ (chdir_ok : Bytes → Bool) (getcwd : Option Bytes) where
  unfoldable pub cd : Argv → Run Effect
  cd argv = do
    p ← load argv 1
    elim (is_null p) [
      | true ↦ ok complained
      | false ↦ do s ← text p; ok (if chdir_ok s then changed_directory s else complained)
    ]

  unfoldable pub pwd : Effect
  pwd = elim getcwd [ none ↦ complained | some cwd ↦ printed (cwd ++ codes "\n") ]

  unfoldable pub do_it : Builtin → Argv → Run Effect
  do_it bi_cd argv = cd argv
  do_it bi_exit argv = ok exited
  do_it bi_pwd argv = ok pwd
  do_it bi_echo argv = do out ← echo argv; ok (printed out)

  -- `do_builtin` calls through the pointer that `is_builtin` left behind.
  unfoldable pub do_builtin : Option Builtin → Argv → Run Effect
  do_builtin none argv = fault null_pointer
  do_builtin (some b) argv = do_it b argv

unfoldable pub inbuilts : List (Bytes × Builtin)
inbuilts =
    (codes "cd", bi_cd)
    ∷ (codes "exit", bi_exit)
    ∷ (codes "pwd", bi_pwd)
    ∷ (codes "echo", bi_echo)
    ∷ []

unfoldable pub find : List (Bytes × Builtin) → Bytes → Option Builtin
find [] cmd = none
find ((keyword, f) ∷ table) cmd = if str_eq keyword cmd then some f else find table cmd

abbrev pub keep_or : Option Builtin → Option Builtin → Bool × Option Builtin
keep_or this none = (false, this)
keep_or this (some f) = (true, some f)

-- The answer, and the static pointer `this`, which is left alone if the command is not found.
unfoldable pub is_builtin : Option Builtin → Bytes → Bool × Option Builtin
is_builtin this cmd = keep_or this (find inbuilts cmd)
