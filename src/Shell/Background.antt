-- ===== src/Shell/Background.antt =====
-- hw4/is_background.c, of which hw6/part2/is_background.c is a copy: looks for "&" in the vector,
-- removes it in place and says so on the terminal.
pub mod Removal
use nsysu_network_applicatio.Prelude.{
  ℕ, zero, suc, ◌+◌, ◌-◌, Bool, true, false, Bytes, codes, str_eq, [], ◌∷◌, ◌++◌, length, Run, ok,
  fault, ◌>>=◌, out_of_fuel,
}
use nsysu_network_applicatio.Shell.Argv.{Slot, null, Argv, load, store, text, is_null}

abbrev pub ampersand : Bytes
ampersand = codes "&"

abbrev pub notice : Bytes
notice = codes "Running in background...\n"

-- The vector, the answer, and what was printed.
abbrev pub Outcome : Type 0
Outcome = Argv × Bool × Bytes

-- The `while`; the string is read only as long as no "&" was found.
pub background_loop : ℕ → Argv → ℕ → Bool → Bytes → Run Outcome
background_loop zero argv i found out = fault out_of_fuel
background_loop (suc fuel) argv i found out = do
  p ← load argv i
  elim (is_null p) [
    | true ↦ ok (argv, found, out)
    | false ↦ elim found [
      | true ↦ do
        argv' ← store argv (i - 1) p
        argv'' ← store argv' i null
        background_loop fuel argv'' (i + 1) true out
      | false ↦ do
        s ← text p
        elim (str_eq s ampersand) [
          | true ↦ do
            argv' ← store argv i null
            background_loop fuel argv' (i + 1) true (out ++ notice)
          | false ↦ background_loop fuel argv (i + 1) false out
        ]
    ]
  ]

pub is_background : Argv → Run Outcome
is_background argv = do
  p ← load argv 0
  elim (is_null p) [
    | true ↦ ok (argv, false, [])
    | false ↦ background_loop (length argv) argv 0 false []
  ]
