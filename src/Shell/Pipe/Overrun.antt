-- ===== src/Shell/Pipe/Overrun.antt =====
-- What `pipe_and_exec` does with a list of words, whichever way it goes.
use nsysu_network_applicatio.Prelude.{
  ℕ, zero, suc, ◌+◌, ◌≡◌, refl, sym, ap, Bool, Bytes, List, [], ◌∷◌, ◌++◌, append_assoc, append-nil,
  length, Option, none, some, Run, ok, fault, out_of_bounds, arith, length-append,
}
use nsysu_network_applicatio.Shell.Argv.{
  uninit, null, str, Argv, argv_of, strs, text, load-append, store-append, length-strs, strs-snoc,
  strs-argv_of, store_past_end,
}
use nsysu_network_applicatio.Shell.Parse.{resize}
use nsysu_network_applicatio.Shell.Pipe.{
  bar, pipe_present, Ending, missing_command, exec, left_loop, split_around, pipe_and_exec,
}
use nsysu_network_applicatio.Shell.Pipe.Verdict.{
  split_at_bar, split_shape, verdict, pipe_present_lem,
}

resize-strs :
    (ts : List Bytes) (n : ℕ) → n ≡ length ts + 1 → resize (strs ts) n ≡ strs ts ++ uninit ∷ []
unfolding resize
resize-strs [] zero e = absurd (omega arith)
resize-strs [] (suc zero) e = refl
resize-strs [] (suc (suc n)) e = absurd (omega arith)
resize-strs (t ∷ ts) zero e = absurd (omega arith)
resize-strs (t ∷ ts) (suc n) e = ap (λ l. str t ∷ l) (resize-strs ts n (omega arith))

-- The loop copies the words in front of the "|", each into a slot that was just allocated.
left_loop_lem :
    (todo before : List Bytes) (rest : Argv) (i : ℕ)
    → i ≡ length before
    → left_loop (length todo) (strs before ++ (strs todo ++ rest)) i (strs before)
      ≡ ok (strs (before ++ todo))
unfolding left_loop text
left_loop_lem [] before rest i e = ap (λ l. ok (strs l)) (sym (append-nil before))
left_loop_lem (t ∷ todo) before rest i e = ground (
  arith,
  length-strs before,
  length-append before (t ∷ []),
  load-append (strs before) t (strs todo ++ rest) i,
  resize-strs before (i + 1),
  store-append (strs before) uninit [] i (str t),
  strs-snoc before t (strs todo ++ rest),
  strs-snoc before t [],
  append-nil (strs (before ++ t ∷ [])),
  append_assoc before (t ∷ []) todo,
  left_loop_lem todo (before ++ t ∷ []) rest (i + 1),
)

-- The terminator of the left half is written behind its allocation.
split_around_faults :
    (l r : List Bytes) → split_around (length l) (argv_of (l ++ bar ∷ r)) ≡ fault out_of_bounds
unfolding split_around
split_around_faults l r = rw (
  ← strs-argv_of l (bar ∷ r),
  left_loop_lem l [] (argv_of (bar ∷ r)) 0 refl,
  store_past_end (strs l) (length l) null (omega (arith, length-strs l)),
)

abbrev pub outcome : List Bytes → Option (List Bytes × List Bytes) → Run Ending
outcome [] o = ok missing_command
outcome (t ∷ ts) none = ok (exec (argv_of (t ∷ ts)))
outcome (t ∷ ts) (some ([], r)) = ok missing_command
outcome (t ∷ ts) (some (u ∷ l, [])) = ok missing_command
outcome (t ∷ ts) (some (u ∷ l, v ∷ r)) = fault out_of_bounds

module _ (pipe_ok fork_ok : Bool) (fuel : ℕ) where
  by_split :
      (ts : List Bytes) (o : Option (List Bytes × List Bytes))
      → split_at_bar ts ≡ o
      → pipe_present (argv_of ts) ≡ ok (verdict ts o)
      → pipe_and_exec pipe_ok fork_ok (suc fuel) (argv_of ts) ≡ outcome ts o
  unfolding pipe_and_exec verdict
  by_split [] o e p = ground arith
  by_split (t ∷ ts) none e p = ground arith
  by_split (t ∷ ts) (some ([], r)) e p = ground arith
  by_split (t ∷ ts) (some (u ∷ l, [])) e p = ground arith
  by_split (t ∷ ts) (some (u ∷ l, v ∷ r)) e p =
      ground (arith, split_around_faults (u ∷ l) (v ∷ r), split_shape (t ∷ ts) (u ∷ l) (v ∷ r) e)

  -- `pipe_and_exec` on a list of words, whatever `pipe` and `fork` answer: with no "|" it executes
  -- the whole list; with no word, or with the first "|" as the first or the last word, it
  -- complains of a missing command; with the first "|" between two words it writes the terminator
  -- of the left half out of bounds.
  pub pipe_and_exec-outcome :
      (ts : List Bytes)
      → pipe_and_exec pipe_ok fork_ok (suc fuel) (argv_of ts) ≡ outcome ts (split_at_bar ts)
  pipe_and_exec-outcome ts = by_split ts (split_at_bar ts) refl (pipe_present_lem ts)
