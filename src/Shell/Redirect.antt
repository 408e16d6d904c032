-- ===== src/Shell/Redirect.antt =====
-- hw6/part2/redirect_in.c and redirect_out.c: look for "<" (">"), open the file behind it as the
-- standard input (output), and take both words out of the vector.

pub mod Removed
pub mod Cases
use nsysu_network_applicatio.Prelude.{
  ℕ, zero, suc, ◌+◌, Bool, true, false, Bytes, codes, str_eq, List, [], ◌∷◌, ◌++◌, length, Option,
  none, some, Run, ok, fault, ◌>>=◌, ◌>>◌, out_of_fuel,
}
use nsysu_network_applicatio.Prelude.Int.{ℤ, pos, negsuc}
use nsysu_network_applicatio.Shell.Argv.{Slot, null, freed, Argv, load, store, text, is_null}

-- what the code asks of the kernel, with the descriptors
pub data Call : Type 0 where
  opened : Bytes → ℕ → Call
  duplicated : ℕ → ℕ → Call
  closed : ℕ → Call

-- The status, the vector and the calls made.
abbrev pub Outcome : Type 0
Outcome = ℤ × Argv × List Call

pub data Direction : Type 0 where
  input output : Direction

abbrev pub symbol_of : Direction → Bytes
symbol_of input = codes "<"
symbol_of output = codes ">"

-- `STD_INPUT` and `STD_OUTPUT`
abbrev pub std_of : Direction → ℕ
std_of input = 0
std_of output = 1

-- `free` on the string of a slot
abbrev free_at : Argv → ℕ → Run Argv
free_at argv i = do p ← load argv i; text p; store argv i freed

-- `while (myArgv[j + 2] != NULL)`, and the NULL behind it
shift : ℕ → Argv → ℕ → Run Argv
shift zero argv j = fault out_of_fuel
shift (suc fuel) argv j = do
  p ← load argv (j + 2)
  elim (is_null p) [
    | true ↦ store argv j null
    | false ↦ do argv' ← store argv j p; shift fuel argv' (j + 1)
  ]

-- `open` on the string of a slot. A NULL pointer is refused by the kernel.
module _ (open_file : Bytes → Option ℕ) where
  open_slot : Slot → Run (Option (Bytes × ℕ))
  open_slot p = elim (is_null p) [
    | true ↦ ok none
    | false ↦ do
      name ← text p
      elim (open_file name) [ none ↦ ok none | some fd ↦ ok (some (name, fd)) ]
  ]

  -- The loop that the two functions share, but for the symbol and the descriptor `std`.
  module _ (dup2_ok : ℕ → Bool) (symbol : Bytes) (std : ℕ) where
    pub redirect_loop : ℕ → Argv → ℕ → List Call → Run Outcome
    redirect_loop zero argv i calls = fault out_of_fuel
    redirect_loop (suc fuel) argv i calls = do
      p ← load argv i
      elim (is_null p) [
        | true ↦ ok (pos 0, argv, calls)
        | false ↦ do
          s ← text p
          elim (str_eq s symbol) [
            | false ↦ redirect_loop fuel argv (i + 1) calls
            | true ↦ do
              q ← load argv (i + 1)
              o ← open_slot q
              elim o [
                | none ↦ ok (negsuc 0, argv, calls)
                | some (name, fd) ↦ elim (dup2_ok fd) [
                  | false ↦ ok (negsuc 0, argv, calls ++ opened name fd ∷ closed fd ∷ [])
                  | true ↦ do
                    argv1 ← free_at argv i
                    argv2 ← free_at argv1 (i + 1)
                    argv3 ← shift (length argv2) argv2 i
                    redirect_loop fuel argv3 (i + 1)
                        (calls ++ opened name fd ∷ duplicated fd std ∷ closed fd ∷ [])
                ]
              ]
          ]
      ]

  -- `redirect_in` and `redirect_out`
  pub redirect : Direction → (ℕ → Bool) → Argv → Run Outcome
  redirect d dup2_ok argv = redirect_loop dup2_ok (symbol_of d) (std_of d) (length argv) argv 0 []
