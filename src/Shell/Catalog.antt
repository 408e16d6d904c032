-- ===== src/Shell/Catalog.antt =====
-- hw6/part2/builtin.c: the builtins of the second shell. `bi_echo`, `bi_cd` and `bi_pwd` are those
-- of hw4/builtin.c.
pub mod Named
use nsysu_network_applicatio.Prelude.{
  ℕ, Bool, true, false, Bytes, codes, str_eq, List, [], ◌∷◌, ◌++◌, Option, none, some, Run, ok,
  fault, ◌>>=◌, null_pointer, if◌then◌else◌,
}
use nsysu_network_applicatio.Shell.Argv.{Argv, load, text, is_null}
use nsysu_network_applicatio.Shell.Builtin.{Effect, printed, complained, exited, echo, cd, pwd}

-- the functions of the table
pub data Feature : Type 0 where
  bi_builtin bi_echo bi_quit bi_cd bi_pwd bi_id bi_hostname : Feature

unfoldable pub inbuilts : List (Bytes × Feature)
inbuilts =
    (codes "builtin", bi_builtin)
    ∷ (codes "echo", bi_echo)
    ∷ (codes "quit", bi_quit)
    ∷ (codes "exit", bi_quit)
    ∷ (codes "bye", bi_quit)
    ∷ (codes "logout", bi_quit)
    ∷ (codes "cd", bi_cd)
    ∷ (codes "pwd", bi_pwd)
    ∷ (codes "id", bi_id)
    ∷ (codes "hostname", bi_hostname)
    ∷ []

unfoldable pub find : List (Bytes × Feature) → Bytes → Option Feature
find [] cmd = none
find ((keyword, f) ∷ table) cmd = if str_eq keyword cmd then some f else find table cmd

abbrev pub keep_or : Option Feature → Option Feature → Bool × Option Feature
keep_or this none = (false, this)
keep_or this (some f) = (true, some f)

-- The answer, and the static pointer `this`, which is left alone if the command is not found.
unfoldable pub is_builtin : Option Feature → Bytes → Bool × Option Feature
is_builtin this cmd = keep_or this (find inbuilts cmd)

-- What a builtin prints or does is an effect; `this` may be moved by `builtin`.
abbrev pub Outcome : Type 0
Outcome = Effect × Option Feature

-- `builtin`, which asks `is_builtin` about its argument
unfoldable pub builtin : Option Feature → Argv → Run Outcome
builtin this argv = do
  p ← load argv 1
  elim (is_null p) [
    | true ↦ ok (complained, this)
    | false ↦ do
      s ← text p
      ok (
        printed (
            s
            ++ (if (is_builtin this s).0
                then codes " is a builtin feature\n"
                else codes " is NOT a builtin feature\n")),
        (is_builtin this s).1,
      )
  ]

-- `bi_id`, with what `printf` makes of the entries of the user and the group; there is no text where
-- `getpwuid` or `getgrgid` returns NULL, which is read all the same.
unfoldable pub identify : Option Feature → Option Bytes → Run Outcome
identify this none = fault null_pointer
identify this (some id_line) = ok (printed id_line, this)

-- The answers of the kernel and of the C library are parameters; `uname` gives none where it fails.
module _ (chdir_ok : Bytes → Bool) (getcwd : Option Bytes) (uname : Option Bytes)
    (id_line : Option Bytes) where
  -- where `uname` fails the shell ends with exit(1)
  abbrev pub hostname : Effect
  hostname = elim uname [
    | none ↦ exited
    | some nodename ↦ printed (codes "hostname: " ++ (nodename ++ codes "\n"))
  ]

  unfoldable pub do_it : Option Feature → Feature → Argv → Run Outcome
  unfolding identify
  do_it this bi_builtin argv = builtin this argv
  do_it this bi_echo argv = do out ← echo argv; ok (printed out, this)
  do_it this bi_quit argv = ok (exited, this)
  do_it this bi_cd argv = do e ← cd chdir_ok getcwd argv; ok (e, this)
  do_it this bi_pwd argv = ok (pwd chdir_ok getcwd, this)
  do_it this bi_id argv = identify this id_line
  do_it this bi_hostname argv = ok (hostname, this)

  unfoldable pub do_builtin : Option Feature → Argv → Run Outcome
  do_builtin none argv = fault null_pointer
  do_builtin (some f) argv = do_it (some f) f argv
