-- ===== src/Shell/Session/Line.antt =====
-- What the shell of hw4 does with a line, from its words.
use nsysu_network_applicatio.Prelude.{
  ℕ, ◌≡◌, refl, ap, ◌∙◌, Bool, true, false, Bytes, codes, List, [], ◌∷◌, ◌++◌, Option, none, some,
  ok, ◌>>=◌, arith, if◌then◌else◌, inl, inr, Bool-cases,
}
use nsysu_network_applicatio.Shell.Argv.{argv_of, strs, null, load, text, strs-null}
use nsysu_network_applicatio.Shell.Words.{contains, remove_first}
use nsysu_network_applicatio.Shell.Parse.Words.{words}
use nsysu_network_applicatio.Shell.Parse.Vector.{free_argv-null}
use nsysu_network_applicatio.Shell.Parse.Outcome.{vector_of, parse-words}
use nsysu_network_applicatio.Shell.Background.{ampersand, notice, is_background}
use nsysu_network_applicatio.Shell.Background.Removal.{is_background_lem}
use nsysu_network_applicatio.Shell.Builtin.{
  Builtin, bi_cd, bi_exit, bi_pwd, bi_echo, Effect, printed, complained, changed_directory, exited,
  find, inbuilts, is_builtin, keep_or, do_builtin, do_it, cd, pwd,
}
use nsysu_network_applicatio.Shell.Builtin.Echo.{echoed, echo_lem}
use nsysu_network_applicatio.Shell.Session.{
  Kernel, waited, Action, nothing, built_in, command, fork_failed, run_command, execute, carry_out,
  parsed, round, loop, ends, free_unless,
}

module _ (k : Kernel) where
  -- what a builtin is to do with the words behind it
  unfoldable pub effect_of : Builtin → List Bytes → Effect
  effect_of bi_cd [] = complained
  effect_of bi_cd (d ∷ ts) = if k.chdir_ok d then changed_directory d else complained
  effect_of bi_exit ts = exited
  effect_of bi_pwd ts = elim k.getcwd [ none ↦ complained | some cwd ↦ printed (cwd ++ codes "\n") ]
  effect_of bi_echo ts = printed (echoed ts)

  -- what a command that is no builtin is run with: "&" puts it into the background
  unfoldable pub command_of : List Bytes → Action
  command_of ts =
      if k.fork_ok
      then (if contains ampersand ts
          then command notice (strs (remove_first ampersand ts) ++ null ∷ null ∷ []) none
          else waited [] (argv_of ts) k.waitpid)
      else fork_failed

  unfoldable pub action_for : Option Builtin → Bytes → List Bytes → Action
  action_for none t ts = command_of (t ∷ ts)
  action_for (some f) t ts = built_in (effect_of f ts)

  unfoldable pub action_of : List Bytes → Action
  action_of [] = nothing
  action_of (t ∷ ts) = action_for (find inbuilts t) t ts

  do_it_lem :
      (f : Builtin) (t : Bytes) (ts : List Bytes)
      → do_it k.chdir_ok k.getcwd f (argv_of (t ∷ ts)) ≡ ok (effect_of f ts)
  unfolding do_it effect_of cd load text pwd
  do_it_lem bi_cd t [] = refl
  do_it_lem bi_cd t (d ∷ ts) = refl
  do_it_lem bi_exit t ts = refl
  do_it_lem bi_pwd t ts = refl
  do_it_lem bi_echo t ts = rw (echo_lem t ts) refl

  free_parsed :
      (a : Action) (this : Option Builtin) (ts : List Bytes)
      → free_unless a this (argv_of ts) ≡ ok (a, this)
  unfolding free_unless
  free_parsed a this ts = rw (← strs-null ts) (rw (free_argv-null ts []) (ground arith))

  free_shortened :
      (a : Action) (this : Option Builtin) (ts : List Bytes)
      → free_unless a this (strs ts ++ null ∷ null ∷ []) ≡ ok (a, this)
  unfolding free_unless
  free_shortened a this ts = rw (free_argv-null ts (null ∷ [])) (ground arith)

  command_lem :
      (this : Option Builtin) (ts : List Bytes)
      → (do (action, argv') ← run_command k (argv_of ts); free_unless action this argv')
        ≡ ok (command_of ts, this)
  unfolding run_command command_of
  command_lem this ts = elim (Bool-cases (contains ampersand ts)) [
    | inl back ↦
        let left = remove_first ampersand ts in
        let answer : is_background (argv_of ts) ≡ ok (strs left ++ null ∷ null ∷ [], true, notice) =
          is_background_lem ts ∙ rw back refl in
        elim (Bool-cases k.fork_ok) [
          | inl forks ↦
              rw (answer, back, forks)
                (free_shortened (command notice (strs left ++ null ∷ null ∷ []) none) this left)
          | inr fails ↦ rw (answer, back, fails) (free_shortened fork_failed this left)
        ]
    | inr front ↦
        let answer : is_background (argv_of ts) ≡ ok (argv_of ts, false, []) =
          is_background_lem ts ∙ rw front refl in
        elim (Bool-cases k.fork_ok) [
          | inl forks ↦
              rw (answer, front, forks) (free_parsed (waited [] (argv_of ts) k.waitpid) this ts)
          | inr fails ↦ rw (answer, front, fails) (free_parsed fork_failed this ts)
        ]
  ]

  -- the value of `this` behind a line
  this_of : Option Builtin → List Bytes → Option Builtin
  this_of this [] = this
  this_of this (t ∷ ts) = (is_builtin this t).1

  is_builtin_lem :
      (this : Option Builtin) (t : Bytes) (found : Option Builtin)
      → find inbuilts t ≡ found
      → is_builtin this t ≡ keep_or this found
  unfolding is_builtin
  is_builtin_lem this t found e = ap (keep_or this) e

  execute_start :
      (this : Option Builtin) (t : Bytes) (ts : List Bytes)
      → execute k this (argv_of (t ∷ ts)) ≡ carry_out k (is_builtin this t) (argv_of (t ∷ ts))
  unfolding execute load text
  execute_start this t ts = refl

  execute_lem :
      (this : Option Builtin) (t : Bytes) (ts : List Bytes) (found : Option Builtin)
      → find inbuilts t ≡ found
      → execute k this (argv_of (t ∷ ts)) ≡ ok (action_for found t ts, (is_builtin this t).1)
  unfolding carry_out do_builtin action_for
  execute_lem this t ts none e =
      execute_start this t ts ∙ rw (is_builtin_lem this t none e) (command_lem this (t ∷ ts))
  execute_lem this t ts (some f) e =
      execute_start this t ts
      ∙ rw (is_builtin_lem this t (some f) e, do_it_lem f t ts)
          (free_parsed (built_in (effect_of f ts)) (some f) (t ∷ ts))

  parsed_lem :
      (this : Option Builtin) (ts : List Bytes)
      → parsed k this (vector_of ts) ≡ ok (action_of ts, this_of this ts)
  unfolding parsed action_of this_of
  parsed_lem this [] = refl
  parsed_lem this (t ∷ ts) = execute_lem this t ts (find inbuilts t) refl

  round_lem :
      (alloc : ℕ → Bool) (this : Option Builtin) (line : Bytes)
      → ((n : ℕ) → alloc n ≡ true)
      → round k alloc this line ≡ ok (action_of (words line), this_of this (words line))
  unfolding round
  round_lem alloc this line all = rw (parse-words alloc line all) (parsed_lem this (words line))

-- the actions up to the first that ends the shell
unfoldable pub until_end : List Action → List Action
until_end [] = []
until_end (a ∷ actions) = if ends a then a ∷ [] else a ∷ until_end actions

-- The action for each line, from its words and what the kernel answers.
unfoldable pub actions_of : List (Bytes × Kernel) → List Action
actions_of [] = []
actions_of ((line, k) ∷ lines) = action_of k (words line) ∷ actions_of lines

-- With memory enough the shell does for each line what its words ask for, up to the first that ends
-- it: nothing for no words, the builtin of the table whose name is the first word, and else a
-- command, with the words without the first "&", in the background if there is one, and with a
-- report on its status if there is none. No line makes it read or free what it must not.
pub loop_lem :
    (alloc : ℕ → Bool) (this : Option Builtin) (lines : List (Bytes × Kernel))
    → ((n : ℕ) → alloc n ≡ true)
    → loop alloc this lines ≡ ok (until_end (actions_of lines))
unfolding loop until_end actions_of
loop_lem alloc this [] all = refl
loop_lem alloc this ((line, k) ∷ lines) all =
    let rest = loop_lem alloc (this_of k this (words line)) lines all in
    elim (Bool-cases (ends (action_of k (words line)))) [
      | inl last ↦ rw (round_lem k alloc this line all, last) refl
      | inr on ↦ rw (round_lem k alloc this line all, on) (rw rest refl)
    ]
