-- ===== src/Shell/Second/Line.antt =====
-- What the second shell does with a line, from its words.
use nsysu_network_applicatio.Prelude.{
  if◌then◌else◌, ℕ, ◌≡◌, refl, ap, ◌∙◌, Bool, true, false, Bytes, List, [], ◌∷◌, ◌++◌, Option, none,
  some, Run, ok, All, ◌>>=◌, fault, Option-cases, arith, inl, inr, Bool-cases,
}
use nsysu_network_applicatio.Shell.Argv.{Argv, argv_of, strs, null, load, text, strs-null}
use nsysu_network_applicatio.Shell.Words.{contains, remove_first}
use nsysu_network_applicatio.Shell.Parse.Words.{words}
use nsysu_network_applicatio.Shell.Parse.Vector.{free_argv-null}
use nsysu_network_applicatio.Shell.Parse.Outcome.{vector_of, parse-words}
use nsysu_network_applicatio.Shell.Background.{ampersand, notice}
use nsysu_network_applicatio.Shell.Background.Removal.{foreground, background}
use nsysu_network_applicatio.Shell.Builtin.{Effect, cd, pwd}
use nsysu_network_applicatio.Shell.Builtin.Echo.{echo_lem}
use nsysu_network_applicatio.Shell.Catalog.{
  Feature, bi_builtin, bi_echo, bi_quit, bi_cd, bi_pwd, bi_id, bi_hostname, inbuilts, find,
  is_builtin, keep_or, builtin, identify, do_it, do_builtin,
}
use nsysu_network_applicatio.Shell.Catalog.Named.{is_builtin_lem}
use nsysu_network_applicatio.Shell.Child.{
  Kernel, fork_failed, started, report, waited, forked, child, run_command,
}
use nsysu_network_applicatio.Shell.Second.{
  Action, built_in, command, ends, free_unless, carry_out, execute, parsed, round, loop,
}
use nsysu_network_applicatio.Shell.Second.Meaning.{
  IsWaitable, kind_of, effect_of, said_of, started_of, action_for, action_of, actions_of,
}

module _ (k : Kernel) where
  free_parsed :
      (a : Action) (this : Option Feature) (ts : List Bytes)
      → free_unless a this (argv_of ts) ≡ ok (a, this)
  unfolding free_unless
  free_parsed a this ts = rw (← strs-null ts) (rw (free_argv-null ts []) (ground arith))

  free_shortened :
      (a : Action) (this : Option Feature) (ts : List Bytes)
      → free_unless a this (strs ts ++ null ∷ null ∷ []) ≡ ok (a, this)
  unfolding free_unless
  free_shortened a this ts = rw (free_argv-null ts (null ∷ [])) (ground arith)

  -- where the pointer of the builtins stands behind one
  this_after : Feature → List Bytes → Option Feature
  this_after bi_builtin (name ∷ ts) = (is_builtin (some bi_builtin) name).1
  this_after f ts = some f

  do_builtin_lem :
      (f : Feature) (t : Bytes) (ts : List Bytes)
      → do_builtin k.chdir_ok k.getcwd k.uname k.id_line (some f) (argv_of (t ∷ ts))
        ≡ (do e ← effect_of k f ts; ok (e, this_after f ts))
  unfolding do_builtin do_it identify effect_of this_after builtin cd load text pwd kind_of
  do_builtin_lem bi_builtin t [] = refl
  do_builtin_lem bi_builtin t (name ∷ ts) = rw (is_builtin_lem (some bi_builtin) name) refl
  do_builtin_lem bi_echo t ts = rw (echo_lem t ts) refl
  do_builtin_lem bi_quit t ts = refl
  do_builtin_lem bi_cd t [] = refl
  do_builtin_lem bi_cd t (d ∷ ts) = refl
  do_builtin_lem bi_pwd t ts = refl
  do_builtin_lem bi_id t ts = elim (Option-cases k.id_line) [
    | inl no_entry ↦ rw no_entry refl
    | inr (line, entry) ↦ rw entry refl
  ]
  do_builtin_lem bi_hostname t ts = refl

  -- what `run_command` does behind `is_background`, and the end of the round
  abbrev rest_of : Option ℕ → Option Feature → Argv → Bool → Bytes → Run (Action × Option Feature)
  rest_of pid this argv in_background said = do
    (s, argv') ← (do outcome ← forked k pid argv in_background said; ok (outcome, argv))
    free_unless (command s) this argv'

  in_background :
      (this : Option Feature) (ts : List Bytes) (pid : Option ℕ)
      → contains ampersand ts ≡ true
      → rest_of pid this (strs (remove_first ampersand ts) ++ null ∷ null ∷ []) true notice
        ≡ ok (command (started_of k pid ts), this)
  unfolding forked started_of
  in_background this ts none back =
      free_shortened (command fork_failed) this (remove_first ampersand ts)
  in_background this ts (some pid) back =
      let argv = strs (remove_first ampersand ts) ++ null ∷ null ∷ [] in
      rw back (
        free_shortened (command (started notice (child k argv) none)) this
          (remove_first ampersand ts))

  in_front :
      (this : Option Feature) (ts : List Bytes) (pid : Option ℕ)
      → IsWaitable k
      → contains ampersand ts ≡ false
      → rest_of pid this (argv_of ts) false [] ≡ ok (command (started_of k pid ts), this)
  unfolding forked started_of said_of waited IsWaitable
  in_front this ts none w front = free_parsed (command fork_failed) this ts
  in_front this ts (some pid) (status, may_wait) front =
      simp (front, may_wait)
        (free_parsed (command (started [] (child k (argv_of ts)) (some (report k pid status)))) this
          ts)

  command_lem :
      (this : Option Feature) (ts : List Bytes)
      → IsWaitable k
      → carry_out k (false, this) (argv_of ts) ≡ ok (command (started_of k k.fork ts), this)
  unfolding carry_out run_command
  command_lem this ts w = elim (Bool-cases (contains ampersand ts)) [
    | inl back ↦ rw (background ts back) (in_background this ts k.fork back)
    | inr front ↦ rw (foreground ts front) (in_front this ts k.fork w front)
  ]

  execute_start :
      (this : Option Feature) (t : Bytes) (ts : List Bytes)
      → execute k this (argv_of (t ∷ ts)) ≡ carry_out k (is_builtin this t) (argv_of (t ∷ ts))
  unfolding execute load text
  execute_start this t ts = refl

  found_lem :
      (this : Option Feature) (t : Bytes) (found : Option Feature)
      → find inbuilts t ≡ found
      → is_builtin this t ≡ keep_or this found
  unfolding is_builtin
  found_lem this t found e = ap (keep_or this) e

  -- what a builtin did, and the end of the round
  built_in_freed :
      (done : Run Effect) (this : Option Feature) (ts : List Bytes)
      → (do (e, this') ← (do e ← done; ok (e, this)); free_unless (built_in e) this' (argv_of ts))
        ≡ (do a ← (do e ← done; ok (built_in e)); ok (a, this))
  built_in_freed (fault f) this ts = refl
  built_in_freed (ok e) this ts = free_parsed (built_in e) this ts

  execute_lem :
      (this : Option Feature) (t : Bytes) (ts : List Bytes) (found : Option Feature)
      → IsWaitable k
      → find inbuilts t ≡ found
      → (this' : Option Feature) × (execute k this (argv_of (t ∷ ts))
          ≡ (do a ← action_for k found t ts; ok (a, this')))
  unfolding carry_out action_for
  execute_lem this t ts none w e =
      (this, execute_start this t ts ∙ rw (found_lem this t none e) (command_lem this (t ∷ ts) w))
  execute_lem this t ts (some f) w e = (
    this_after f ts,
    execute_start this t ts
        ∙ rw (found_lem this t (some f) e, do_builtin_lem f t ts)
            (built_in_freed (effect_of k f ts) (this_after f ts) (t ∷ ts)),
  )

  parsed_lem :
      (this : Option Feature) (ts : List Bytes)
      → IsWaitable k
      → (this' : Option Feature) × (parsed k this (vector_of ts)
          ≡ (do a ← action_of k ts; ok (a, this')))
  unfolding parsed action_of
  parsed_lem this [] w = (this, refl)
  parsed_lem this (t ∷ ts) w = execute_lem this t ts (find inbuilts t) w refl

  round_lem :
      (alloc : ℕ → Bool) (this : Option Feature) (line : Bytes)
      → ((n : ℕ) → alloc n ≡ true)
      → IsWaitable k
      → (this' : Option Feature) × (round k alloc this line
          ≡ (do a ← action_of k (words line); ok (a, this')))
  unfolding round
  round_lem alloc this line all w =
      let (this', e) = parsed_lem this (words line) w in (this', rw (parse-words alloc line all) e)

-- a line that is done, and the rest of them
then_on :
    (done : Run Action) (on : Option Feature → Run (List Action)) (rest : Run (List Action))
    (this : Option Feature)
    → on this ≡ rest
    → (do
      (action, this') ← (do a ← done; ok (a, this))
      if ends action then ok (action ∷ []) else do actions ← on this'; ok (action ∷ actions))
      ≡ (do
        action ← done
        if ends action then ok (action ∷ []) else do actions ← rest; ok (action ∷ actions))
then_on (fault f) on rest this e = refl
then_on (ok action) on rest this e = rw e refl

-- With memory enough, and where the kernel lets it wait for its children, the second shell does for
-- each line what its words ask for, up to the first that ends it: nothing for no words, the builtin
-- of the ten whose name is the first word, and else a command in a process of its own, with the
-- words without the first "&", in the background if there is one. The shell itself reads or frees
-- what it must not, whatever becomes of its children, at one kind of line only: at "id" it reads
-- NULL where the user or the group has no entry.
pub second_loop_lem :
    (alloc : ℕ → Bool) (this : Option Feature) (lines : List (Bytes × Kernel))
    → ((n : ℕ) → alloc n ≡ true)
    → All (λ l. IsWaitable l.1) lines
    → loop alloc this lines ≡ actions_of lines
unfolding loop actions_of
second_loop_lem alloc this [] all w = refl
second_loop_lem alloc this ((line, k) ∷ lines) all w =
    let (this', e) = round_lem k alloc this line all w.0 in
    rw e (
      then_on (action_of k (words line)) (λ t. loop alloc t lines) (actions_of lines) this'
        (second_loop_lem alloc this' lines all w.1))
