-- ===== src/Shell/Catalog/Named.antt =====
-- The builtins of the second shell, from the words of the line.
use nsysu_network_applicatio.Prelude.{
  ◌≡◌, refl, ◌∙◌, Bool, true, false, Bytes, codes, str_eq, List, [], ◌∷◌, ◌++◌, Option, none, some,
  ok, if◌then◌else◌, arith,
}
use nsysu_network_applicatio.Shell.Argv.{argv_of, load, text}
use nsysu_network_applicatio.Shell.Words.{contains}
use nsysu_network_applicatio.Shell.Builtin.{printed}
use nsysu_network_applicatio.Shell.Catalog.{
  Feature, bi_builtin, inbuilts, find, is_builtin, keep_or, builtin, do_it, do_builtin,
}

abbrev pub keywords : List (Bytes × Feature) → List Bytes
keywords [] = []
keywords ((keyword, f) ∷ table) = keyword ∷ keywords table

abbrev is_some : Option Feature → Bool
is_some none = false
is_some (some f) = true

find-contains :
    (table : List (Bytes × Feature)) (cmd : Bytes)
    → is_some (find table cmd) ≡ contains cmd (keywords table)
unfolding find contains
find-contains [] cmd = refl
find-contains ((keyword, f) ∷ table) cmd = ground (arith, find-contains table cmd)

answer_lem : (this : Option Feature) (o : Option Feature) → (keep_or this o).0 ≡ is_some o
answer_lem this none = refl
answer_lem this (some f) = refl

pub is_builtin_lem :
    (this : Option Feature) (cmd : Bytes)
    → (is_builtin this cmd).0 ≡ contains cmd (keywords inbuilts)
unfolding is_builtin
is_builtin_lem this cmd = answer_lem this (find inbuilts cmd) ∙ find-contains inbuilts cmd

builtin_start :
    (this : Option Feature) (cmd name : Bytes) (ts : List Bytes)
    → builtin this (argv_of (cmd ∷ name ∷ ts))
      ≡ ok (
        printed (
            name
            ++ (if (is_builtin this name).0
                then codes " is a builtin feature\n"
                else codes " is NOT a builtin feature\n")),
        (is_builtin this name).1,
      )
unfolding builtin load text
builtin_start this cmd name ts = refl

found : (this : Option Feature) → is_builtin this (codes "builtin") ≡ (true, some bi_builtin)
unfolding is_builtin find inbuilts str_eq
found this = refl

-- "builtin NAME" is carried out by the shell itself, without a fault, and says of NAME whether it is
-- one of the ten keywords of the table.
builtin_lem :
    (chdir_ok : Bytes → Bool) (getcwd uname id_line : Option Bytes) (this : Option Feature)
    (name : Bytes) (ts : List Bytes)
    → (is_builtin this (codes "builtin") ≡ (true, some bi_builtin))
      × (do_builtin chdir_ok getcwd uname id_line
            (some bi_builtin)
            (argv_of (codes "builtin" ∷ name ∷ ts))
          ≡ ok (
            printed (
                name
                ++ (if contains name (keywords inbuilts)
                    then codes " is a builtin feature\n"
                    else codes " is NOT a builtin feature\n")),
            (is_builtin (some bi_builtin) name).1,
          ))
unfolding do_builtin do_it
builtin_lem chdir_ok getcwd uname id_line this name ts = (
  found this,
  builtin_start (some bi_builtin) (codes "builtin") name ts
      ∙ rw (is_builtin_lem (some bi_builtin) name) refl,
)
