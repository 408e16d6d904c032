-- ===== src/PipeListing/Tests.antt =====
-- The theorems on pipes of two bytes and of four.
use nsysu_network_applicatio.Prelude.{true, ℕ, ◌≡◌, refl, Bytes, List, [], ◌∷◌, none, arith}
use nsysu_network_applicatio.PipeListing.{
  waiting, done, start, Move, child_writes, child_exits, parent, System, write, step, run,
}
use nsysu_network_applicatio.PipeListing.Printed.{IsStuck, nothing_printed, all_printed}

abbrev output : Bytes
output = 7 ∷ 8 ∷ 9 ∷ []

abbrev blocked : List Move
blocked = child_writes 2 ∷ child_writes 1 ∷ child_exits ∷ parent ∷ []

nothing_printed_example :
    ((run 2 blocked (start output)).phase ≡ waiting) × ((run 2 blocked (start output)).printed ≡ [])
nothing_printed_example = nothing_printed 2 output blocked (omega arith)

abbrev complete : List Move
complete = child_writes 2 ∷ child_writes 1 ∷ child_exits ∷ parent ∷ parent ∷ parent ∷ []

abbrev final : System
final = record { left = []; held = []; exited = true; phase = done; printed = output }

schedule_lem : run 4 complete (start output) ≡ final
unfolding run start
schedule_lem = refl

nothing_to_write : (n : ℕ) → write 4 n final ≡ none
unfolding write
nothing_to_write n = ground arith

final-IsStuck : IsStuck 4 final
unfolding step
final-IsStuck (child_writes n) = nothing_to_write n
final-IsStuck child_exits = refl
final-IsStuck parent = refl

complete-IsStuck : IsStuck 4 (run 4 complete (start output))
complete-IsStuck = rw schedule_lem final-IsStuck

all_printed_example :
    ((run 4 complete (start output)).phase ≡ done)
    × ((run 4 complete (start output)).printed ≡ output)
all_printed_example = all_printed 4 output complete (omega arith) complete-IsStuck
