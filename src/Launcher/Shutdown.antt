-- ===== src/Launcher/Shutdown.antt =====
-- Every child is told to end before `main` does.
use nsysu_network_applicatio.Prelude.{ℕ, ◌<◌, refl, List, [], ◌∷◌, none, some, All, arith}
use nsysu_network_applicatio.Prelude.Int.{pos}
use nsysu_network_applicatio.Launcher.{
  Phase, forking_broker, forking_worker, forking_producer, waiting, reaping, ended, failed,
  Children, exited_child, interrupted, wait_error, Input, forked, waited, sigint, targets, start,
  step, run,
}
use nsysu_network_applicatio.Launcher.Members.{Within}
use nsysu_network_applicatio.Launcher.Invariant.{
  Room, IsReady, IsToldBy, IsLaunch, loop_test-IsLaunch, after_wait-IsLaunch,
  handle_sigint-IsLaunch,
}
use nsysu_network_applicatio.Launcher.Forks.{producer-Within, broker-IsLaunch, worker-IsLaunch}

-- a pid that `fork` gives its parent is not 0
unfoldable pub IsAnswer : Input → Type 0
IsAnswer (forked none) = Unit
IsAnswer (forked (some pid)) = 0 < pid
IsAnswer (waited r) = Unit
IsAnswer sigint = Unit

reached : (w : ℕ) (phase : Phase) (c : Children) → IsLaunch w phase c → Within c.started (targets c)
unfolding IsLaunch
reached w phase c l = l.0

fork-fails : (w : ℕ) (phase : Phase) (c : Children) → IsLaunch w phase c → IsLaunch w failed c
unfolding IsLaunch IsReady IsToldBy
fork-fails w phase c l = (l.0, tt, tt)

reaped : (w : ℕ) (c : Children) → IsLaunch w reaping c → IsLaunch w ended c
unfolding IsLaunch IsReady IsToldBy
reaped w c l = l

step-IsLaunch :
    (w : ℕ) (phase : Phase) (c : Children) (input : Input)
    → IsAnswer input
    → IsLaunch w phase c
    → IsLaunch w (step w phase c input).0 (step w phase c input).1
unfolding step IsAnswer
step-IsLaunch w ended c input a l = l
step-IsLaunch w failed c input a l = l
step-IsLaunch w forking_broker c (forked none) a l = fork-fails w forking_broker c l
step-IsLaunch w forking_broker c (forked (some pid)) a l = broker-IsLaunch w pid c a l
step-IsLaunch w forking_broker c (waited r) a l = l
step-IsLaunch w forking_broker c sigint a l = handle_sigint-IsLaunch w forking_broker c l
step-IsLaunch w (forking_worker i) c (forked none) a l = fork-fails w (forking_worker i) c l
step-IsLaunch w (forking_worker i) c (forked (some pid)) a l = worker-IsLaunch w i pid c a l
step-IsLaunch w (forking_worker i) c (waited r) a l = l
step-IsLaunch w (forking_worker i) c sigint a l = handle_sigint-IsLaunch w (forking_worker i) c l
step-IsLaunch w forking_producer c (forked none) a l = fork-fails w forking_producer c l
step-IsLaunch w forking_producer c (forked (some pid)) a l =
    loop_test-IsLaunch w (record c { producer_pid = pos pid; started = pid ∷ c.started })
      (producer-Within w pid c a l)
step-IsLaunch w forking_producer c (waited r) a l = l
step-IsLaunch w forking_producer c sigint a l = handle_sigint-IsLaunch w forking_producer c l
step-IsLaunch w waiting c (forked answer) a l = l
step-IsLaunch w waiting c (waited r) a l = after_wait-IsLaunch w c r (reached w waiting c l)
step-IsLaunch w waiting c sigint a l = handle_sigint-IsLaunch w waiting c l
step-IsLaunch w reaping c (forked answer) a l = l
step-IsLaunch w reaping c (waited (exited_child pid)) a l = l
step-IsLaunch w reaping c (waited interrupted) a l = reaped w c l
step-IsLaunch w reaping c (waited wait_error) a l = reaped w c l
step-IsLaunch w reaping c sigint a l = handle_sigint-IsLaunch w reaping c l

run-IsLaunch :
    (w : ℕ) (phase : Phase) (c : Children) (inputs : List Input)
    → All IsAnswer inputs
    → IsLaunch w phase c
    → IsLaunch w (run w phase c inputs).0 (run w phase c inputs).1
unfolding run
run-IsLaunch w phase c [] a l = l
run-IsLaunch w phase c (input ∷ inputs) a l =
    let (phase', c') = step w phase c input in
    run-IsLaunch w (step w phase c input).0 (step w phase c input).1 inputs a.1
      (step-IsLaunch w phase c input a.0 l)

start-IsLaunch : (w : ℕ) → IsLaunch w forking_broker (start w)
unfolding IsLaunch IsReady IsToldBy Room Within start
start-IsLaunch w = (tt, (refl, refl, ([], w, refl, refl, omega arith)), tt)

-- Whatever answers the forks and the waits give, and whenever the user interrupts it, the launcher
-- comes to its last waits, and to its end behind them, only when each child that it forked was sent
-- SIGTERM, but for the end at a fork that fails. The pids that `fork` gives are not 0.
pub run-IsToldBy :
    (w : ℕ) (inputs : List Input)
    → All IsAnswer inputs
    → IsToldBy (run w forking_broker (start w) inputs).0 (run w forking_broker (start w) inputs).1
unfolding IsLaunch
run-IsToldBy w inputs a = (run-IsLaunch w forking_broker (start w) inputs a (start-IsLaunch w)).2
