-- ===== src/Launcher.antt =====
-- hw12/program.c: broker, workers and producer are started, and stopped together.
pub mod Members
pub mod Invariant
pub mod Forks
pub mod Shutdown
pub mod Tests
use nsysu_network_applicatio.Prelude.{
  ℕ, zero, suc, ◌+◌, Bool, true, false, List, [], ◌∷◌, ◌++◌, Option, none, some, ltb, ◌==◌, set,
  replicate, if◌then◌else◌,
}
use nsysu_network_applicatio.Prelude.Int.{ℤ, pos, negsuc}

-- Where `main` is: before a `fork`, in the `waitpid` of the main loop or of the last one, at its
-- return, or at an exit behind a `fork` that failed.
pub data Phase : Type 0 where
  forking_broker : Phase
  forking_worker : ℕ → Phase
  forking_producer : Phase
  waiting : Phase
  reaping : Phase
  ended : Phase
  failed : Phase

-- The variables; with the children that `fork` has made and those that were sent SIGTERM.
pub record Children : Type 0 where
  pub broker_pid : ℤ
  pub producer_pid : ℤ
  pub worker_pids : List ℤ
  pub shutdown_requested : Bool
  pub started : List ℕ
  pub signalled : List ℕ

-- What `waitpid` comes to: a child, EINTR, or another error, ECHILD among them.
pub data Waited : Type 0 where
  exited_child : ℕ → Waited
  interrupted : Waited
  wait_error : Waited

-- What happens to `main`: the answer of a `fork` (none for -1), of a `waitpid`, or a SIGINT.
pub data Input : Type 0 where
  forked : Option ℕ → Input
  waited : Waited → Input
  sigint : Input

-- `if(pid > 0) kill(pid, SIGTERM)`
unfoldable pub killed : ℤ → List ℕ
killed (pos zero) = []
killed (pos (suc n)) = suc n ∷ []
killed (negsuc n) = []

unfoldable pub killed_workers : List ℤ → List ℕ
unfolding killed
killed_workers [] = []
killed_workers (pid ∷ pids) = killed pid ++ killed_workers pids

-- whom `terminate_children` sends SIGTERM
unfoldable pub targets : Children → List ℕ
unfolding killed killed_workers
targets c = killed c.broker_pid ++ (killed c.producer_pid ++ killed_workers c.worker_pids)

unfoldable pub terminate_children : Children → Children
unfolding targets
terminate_children c = record c { signalled = c.signalled ++ targets c }

unfoldable pub handle_sigint : Children → Children
unfolding terminate_children
handle_sigint c = terminate_children (record c { shutdown_requested = true })

-- The start, behind `calloc`.
unfoldable pub start : ℕ → Children
start worker_count = record {
  broker_pid = negsuc 0;
  producer_pid = negsuc 0;
  worker_pids = replicate worker_count (pos 0);
  shutdown_requested = false;
  started = [];
  signalled = [];
}

-- the test of the `for`
unfoldable pub next_worker : ℕ → ℕ → Phase
next_worker worker_count i = if ltb i worker_count then forking_worker i else forking_producer

-- the test of the main `while`, and what follows it
unfoldable pub loop_test : Children → Phase × Children
unfolding terminate_children
loop_test c = if c.shutdown_requested then (reaping, terminate_children c) else (waiting, c)

unfoldable pub is_child : ℤ → ℕ → Bool
is_child (pos n) pid = n == pid
is_child (negsuc n) pid = false

-- a turn of the main `while`
unfoldable pub after_wait : Children → Waited → Phase × Children
unfolding terminate_children loop_test is_child
after_wait c (exited_child pid) =
    if is_child c.broker_pid pid then (reaping, terminate_children c) else loop_test c
after_wait c interrupted = loop_test c
after_wait c wait_error = (reaping, terminate_children c)

-- `main` goes on with an answer; one that it does not wait for changes nothing.
unfoldable pub step : ℕ → Phase → Children → Input → Phase × Children
unfolding next_worker loop_test after_wait handle_sigint
step w ended c input = (ended, c)
step w failed c input = (failed, c)
step w forking_broker c (forked none) = (failed, c)
step w forking_broker c (forked (some pid)) =
    (next_worker w 0, record c { broker_pid = pos pid; started = pid ∷ c.started })
step w forking_broker c (waited r) = (forking_broker, c)
step w forking_broker c sigint = (forking_broker, handle_sigint c)
step w (forking_worker i) c (forked none) = (failed, c)
step w (forking_worker i) c (forked (some pid)) = (
  next_worker w (i + 1),
  record c { worker_pids = set c.worker_pids i (pos pid); started = pid ∷ c.started },
)
step w (forking_worker i) c (waited r) = (forking_worker i, c)
step w (forking_worker i) c sigint = (forking_worker i, handle_sigint c)
step w forking_producer c (forked none) = (failed, c)
step w forking_producer c (forked (some pid)) =
    loop_test (record c { producer_pid = pos pid; started = pid ∷ c.started })
step w forking_producer c (waited r) = (forking_producer, c)
step w forking_producer c sigint = (forking_producer, handle_sigint c)
step w waiting c (forked answer) = (waiting, c)
step w waiting c (waited r) = after_wait c r
step w waiting c sigint = (waiting, handle_sigint c)
step w reaping c (forked answer) = (reaping, c)
step w reaping c (waited (exited_child pid)) = (reaping, c)
step w reaping c (waited interrupted) = (ended, c)
step w reaping c (waited wait_error) = (ended, c)
step w reaping c sigint = (reaping, handle_sigint c)

pub run : ℕ → Phase → Children → List Input → Phase × Children
unfolding step
run w phase c [] = (phase, c)
run w phase c (input ∷ inputs) = let (phase', c') = step w phase c input in run w phase' c' inputs
