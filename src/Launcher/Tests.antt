-- ===== src/Launcher/Tests.antt =====
-- The launcher with two workers, interrupted behind the first.
use nsysu_network_applicatio.Prelude.{List, [], ◌∷◌, some, All, arith}
use nsysu_network_applicatio.Launcher.{
  forking_broker, Input, forked, waited, sigint, exited_child, wait_error, start, run,
}
use nsysu_network_applicatio.Launcher.Invariant.{IsToldBy}
use nsysu_network_applicatio.Launcher.Shutdown.{IsAnswer, run-IsToldBy}

abbrev inputs : List Input
inputs =
    forked (some 10)
    ∷ forked (some 11)
    ∷ sigint
    ∷ forked (some 12)
    ∷ forked (some 13)
    ∷ waited (exited_child 10)
    ∷ waited wait_error
    ∷ []

inputs-IsAnswer : All IsAnswer inputs
unfolding IsAnswer
inputs-IsAnswer = (omega arith, (omega arith, (tt, (omega arith, (omega arith, (tt, (tt, tt)))))))

run-IsToldBy_example :
    IsToldBy (run 2 forking_broker (start 2) inputs).0 (run 2 forking_broker (start 2) inputs).1
run-IsToldBy_example = run-IsToldBy 2 inputs inputs-IsAnswer
