-- ===== src/Monitor/Tests.antt =====
-- The theorems on the stack of two threads with one call each.
use nsysu_network_applicatio.Prelude.{◌≡◌, refl, false, List, [], ◌∷◌, length}
use nsysu_network_applicatio.Monitor.{
  push, pop, Move, produce, consume, step, run, start, wake, produce_step, consume_step, pushed,
  popped_by,
}
use nsysu_network_applicatio.Monitor.Progress.{is_asleep, can_move, no_deadlock}

-- the consumer falls asleep, is woken by the producer, and pops
abbrev moves : List Move
moves = consume ∷ produce ∷ consume ∷ []

no_deadlock_example :
    (is_asleep (run (start 1) moves).producer ≡ false)
    × (is_asleep (run (start 1) moves).consumer ≡ false)
    × ((run (start 1) moves).stack.index ≡ 0)
    × (length (run (start 1) moves).popped ≡ 1)
unfolding run step produce_step consume_step pushed popped_by push pop can_move start wake
no_deadlock_example = no_deadlock 1 moves refl refl
