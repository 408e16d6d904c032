-- ===== src/Shell/Pipe.antt =====
-- hw6/part2/pipe_present.c and pipe_command.c: looks for "|", and runs the commands around it.
pub mod Verdict
pub mod Overrun
use nsysu_network_applicatio.Prelude.{
  ℕ, zero, suc, ◌+◌, ◌-◌, Bool, true, false, ◌&&◌, ◌||◌, Bytes, codes, str_eq, List, [], ◌∷◌, ◌++◌,
  length, Run, ok, fault, ◌>>=◌, ◌>>◌, out_of_fuel, ◌==◌,
}
use nsysu_network_applicatio.Prelude.Int.{ℤ, pos, negsuc}
use nsysu_network_applicatio.Shell.Argv.{Slot, null, str, Argv, load, store, text, is_null}
use nsysu_network_applicatio.Shell.Parse.{resize}

abbrev pub bar : Bytes
bar = codes "|"

-- the first loop of `pipe_present`: the index of the first "|", or of the NULL
pub pipe_scan : ℕ → Argv → ℕ → Run ℕ
pipe_scan zero argv index = fault out_of_fuel
pipe_scan (suc fuel) argv index = do
  p ← load argv index
  elim (is_null p) [
    | true ↦ ok index
    | false ↦ do
      s ← text p
      elim (str_eq s bar) [ true ↦ ok index | false ↦ pipe_scan fuel argv (index + 1) ]
  ]

-- `(p != NULL) && (strcmp(p, "|") == 0) && argv[index + 1] == NULL`
pub bar_at_end : Argv → ℕ → Slot → Run Bool
bar_at_end argv index p = elim (is_null p) [
  | true ↦ ok false
  | false ↦ do
    s ← text p
    elim (str_eq s bar) [ false ↦ ok false | true ↦ do q ← load argv (index + 1); ok (is_null q) ]
]

pub pipe_present : Argv → Run ℤ
pipe_present argv = do
  index ← pipe_scan (length argv) argv 0
  elim (index == 0) [
    | true ↦ ok (negsuc 0)
    | false ↦ do
      p ← load argv index
      illegal ← bar_at_end argv index p
      elim illegal [
        | true ↦ ok (negsuc 0)
        | false ↦ elim (is_null p) [ true ↦ ok (pos 0) | false ↦ ok (pos index) ]
      ]
  ]

-- How a process that ran `pipe_and_exec` ends. `exec` is a call of `execvp` with these words; it
-- comes back only on failure, and the code then exits with status 1.
pub data Ending : Type 0 where
  missing_command : Ending  -- the message "Missing command …", then exit(1)
  exec : Argv → Ending
  pipe_failed : Ending  -- exit(1)
  fork_failed : Ending  -- the message "Couldn't fork …", exit(1)
  piped : Argv → Ending → Ending  -- the left command, and the child on the right

-- `for (i = 0; i < pipe_argv_index; i++)`: `n` rounds are left
left_loop : ℕ → Argv → ℕ → Argv → Run Argv
unfolding resize
left_loop zero argv i left = ok left
left_loop (suc n) argv i left = do
  p ← load argv i
  s ← text p
  left' ← store (resize left (i + 1)) i (str s)
  left_loop n argv (i + 1) left'

-- `for (i = k + 1; myArgv[i] != NULL; i++)`; the result holds the last `i` too
right_loop : ℕ → ℕ → Argv → ℕ → Argv → Run (ℕ × Argv)
unfolding resize
right_loop zero k argv i right = fault out_of_fuel
right_loop (suc fuel) k argv i right = do
  p ← load argv i
  elim (is_null p) [
    | true ↦ ok (i, right)
    | false ↦ do
      s ← text p
      right' ← store (resize right (i - k + 1)) (i - k - 1) (str s)
      right_loop fuel k argv (i + 1) right'
  ]

-- the loop over `index` in the listening child: reads up to the NULL
count_loop : ℕ → Argv → ℕ → Run ℕ
count_loop zero argv index = fault out_of_fuel
count_loop (suc fuel) argv index = do
  p ← load argv index
  elim (is_null p) [ true ↦ ok index | false ↦ count_loop fuel argv (index + 1) ]

-- the two halves of the vector around the "|" at `k`
pub split_around : ℕ → Argv → Run (Argv × Argv)
unfolding left_loop right_loop
split_around k argv = do
  left ← left_loop k argv 0 []
  left' ← store left k null
  (i, right) ← right_loop (length argv) k argv (k + 1) []
  right' ← store right (i - k) null
  ok (left', right')

-- One call of `pipe_and_exec` for each command; the answers of `pipe` and `fork` are parameters.
module _ (pipe_ok fork_ok : Bool) where
  pub pipe_and_exec : ℕ → Argv → Run Ending
  unfolding count_loop
  pipe_and_exec zero argv = fault out_of_fuel
  pipe_and_exec (suc fuel) argv = do
    index ← pipe_present argv
    elim index [
      | negsuc _ ↦ ok missing_command
      | pos k ↦ elim (k == 0) [
        | true ↦ ok (exec argv)
        | false ↦ do
          halves ← split_around k argv
          elim pipe_ok [
            | false ↦ ok pipe_failed
            | true ↦ elim fork_ok [
              | false ↦ ok fork_failed
              | true ↦ do
                count_loop (length halves.1) halves.1 0
                right ← pipe_and_exec fuel halves.1
                ok (piped halves.0 right)
            ]
          ]
      ]
    ]
