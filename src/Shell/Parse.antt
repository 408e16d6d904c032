-- ===== src/Shell/Parse.antt =====
-- hw4/parse.c, of which hw6/part2/parse.c is a copy: a line is cut into words by `strtok`, each
-- copied into memory of its own. `alloc k` says whether the k-th call of malloc or realloc succeeds.
pub mod Words
pub mod Vector
pub mod Outcome
pub mod Join
use nsysu_network_applicatio.Prelude.{
  ℕ, zero, suc, ◌+◌, Bool, true, false, ◌||◌, Bytes, List, [], ◌∷◌, length, Option, none, some, Run,
  ok, fault, ◌>>=◌, ◌>>◌, ◌==◌, if◌then◌else◌, uninitialised, out_of_bounds, use_after_free,
  out_of_fuel,
}
use nsysu_network_applicatio.Shell.Argv.{Slot, uninit, null, str, freed, Argv, store}

-- `delim`: space, tab, newline
unfoldable pub is_delim : ℕ → Bool
is_delim c = c == 32 || c == 9 || c == 10

skip_delims : Bytes → Bytes
skip_delims [] = []
skip_delims (c ∷ s) = if is_delim c then skip_delims s else c ∷ s

-- the token at the front, and what stands behind the delimiter that ends it
take_token : Bytes → Bytes × Bytes
take_token [] = ([], [])
take_token (c ∷ s) = let (t, r) = take_token s in if is_delim c then ([], s) else (c ∷ t, r)

token_of : Bytes → Option (Bytes × Bytes)
unfolding take_token is_delim
token_of [] = none
token_of (c ∷ s) = some (take_token (c ∷ s))

-- `strtok` with its saved position written out
pub strtok : Bytes → Option (Bytes × Bytes)
unfolding skip_delims token_of
strtok s = token_of (skip_delims s)

-- `realloc` to `n` slots: the old ones stay, new ones are not initialised
unfoldable pub resize : Argv → ℕ → Argv
resize argv zero = []
resize [] (suc n) = uninit ∷ resize [] n
resize (s ∷ argv) (suc n) = s ∷ resize argv n

-- The strings that `free_argv` frees, in order. The walk reads each slot up to the first NULL.
unfoldable pub free_argv : Argv → Run (List Bytes)
free_argv [] = fault out_of_bounds
free_argv (uninit ∷ argv) = fault uninitialised
free_argv (null ∷ argv) = ok []
free_argv (str s ∷ argv) = do rest ← free_argv argv; ok (s ∷ rest)
free_argv (freed ∷ argv) = fault use_after_free

-- The loop, with `calls` the allocations made so far.
pub parse_loop : ℕ → (ℕ → Bool) → Bytes → Argv → ℕ → ℕ → Run (Option Argv)
parse_loop zero alloc rest argv count calls = fault out_of_fuel
parse_loop (suc fuel) alloc rest argv count calls = elim (strtok rest) [
  | none ↦ do argv' ← store argv (count + 1) null; ok (some argv')
  | some (token, rest') ↦ elim (alloc calls) [
    | false ↦ do free_argv argv; ok none
    | true ↦ elim (alloc (calls + 1)) [
      | false ↦ do
        argv' ← store (resize argv (count + 1 + 2)) (count + 1) null
        free_argv argv'
        ok none
      | true ↦ do
        argv' ← store (resize argv (count + 1 + 2)) (count + 1) (str token)
        parse_loop fuel alloc rest' argv' (count + 1) (calls + 2)
    ]
  ]
]

-- The array of two slots and the first token's string, then the loop.
parse_first : (ℕ → Bool) → ℕ → Option (Bytes × Bytes) → Run (Option Argv)
parse_first alloc fuel none = ok none
parse_first alloc fuel (some (token, rest)) = elim (alloc 0) [
  | false ↦ ok none
  | true ↦ elim (alloc 1) [
    | false ↦ ok none
    | true ↦ do argv ← store (resize [] 2) 0 (str token); parse_loop fuel alloc rest argv 0 2
  ]
]

-- `parse`. A NULL line is `none`. Each round of the loop uses up a byte of the line.
pub parse : (ℕ → Bool) → Option Bytes → Run (Option Argv)
unfolding parse_first
parse alloc none = ok none
parse alloc (some line) = parse_first alloc (length line + 1) (strtok line)
