-- ===== src/FifoModes.antt =====
-- hw10/ex44_7/nonblock_verify.c: a server and a client open a FIFO and close it, with and without
-- O_NONBLOCK. What `open` answers is a parameter, for which fifo(7) gives the laws; it fails with
-- ENXIO alone.
pub mod Timed
pub mod Tests
use nsysu_network_applicatio.Prelude.{
  ℕ, zero, suc, ◌-◌, Bool, true, false, not, ◌&&◌, ◌||◌, Bytes, codes, str_eq, List, [], ◌∷◌, ◌++◌,
  Option, none, some, ltb, ◌==◌, ◌≡◌, if◌then◌else◌,
}

-- the four modes, by the number in the code
pub data Mode : Type 0 where
  both_block client_nonblock server_nonblock both_nonblock : Mode

unfoldable pub mode_of : Bool → Bool → Mode
mode_of true true = both_block
mode_of true false = client_nonblock
mode_of false true = server_nonblock
mode_of false false = both_nonblock

unfoldable pub is_mode : Bytes → Bool
is_mode arg = str_eq arg (codes "block") || str_eq arg (codes "nonblock")

-- the mode that the arguments say, if each is one of the two words
unfoldable pub mode : Bytes → Bytes → Option Mode
unfolding is_mode mode_of
mode server_arg client_arg =
    if is_mode server_arg && is_mode client_arg
    then some (mode_of (str_eq server_arg (codes "block")) (str_eq client_arg (codes "block")))
    else none

pub data Side : Type 0 where
  server client : Side

-- whether the flags of a side lack O_NONBLOCK
unfoldable pub blocks : Mode → Side → Bool
blocks both_block side = true
blocks client_nonblock server = true
blocks client_nonblock client = false
blocks server_nonblock server = false
blocks server_nonblock client = true
blocks both_nonblock side = false

-- A sleep, in milliseconds, or an `open` that is followed by `close` if it succeeds; where it fails, the
-- process exits or goes on.
pub data Action : Type 0 where
  sleep : ℕ → Action
  exit_on_error go_on : Action

-- the branch of the child
unfoldable pub client_actions : Mode → List Action
client_actions both_block = exit_on_error ∷ sleep 500 ∷ sleep 3000 ∷ exit_on_error ∷ []
client_actions client_nonblock = go_on ∷ sleep 3000 ∷ go_on ∷ []
client_actions server_nonblock = sleep 1000 ∷ go_on ∷ []
client_actions both_nonblock = go_on ∷ []

-- the branch of the parent
unfoldable pub server_actions : Mode → List Action
server_actions both_block = sleep 3000 ∷ exit_on_error ∷ sleep 500 ∷ exit_on_error ∷ []
server_actions client_nonblock = sleep 1000 ∷ exit_on_error ∷ []
server_actions server_nonblock = go_on ∷ sleep 3000 ∷ exit_on_error ∷ []
server_actions both_nonblock = sleep 1000 ∷ go_on ∷ sleep 1000 ∷ []

-- What `open` does: it returns a descriptor, waits for the other side, or fails with ENXIO.
pub data Answer : Type 0 where
  opened waits refused : Answer

-- What the kernel answers a side with or without O_NONBLOCK, where the other side has the FIFO open or
-- waits for it, or does not.
abbrev pub Kernel : Type 0
Kernel = Side → (blocking : Bool) → (other_present : Bool) → Answer

pub record IsFifo (k : Kernel) : Type 0 where
  pub other_opens : (side : Side) (blocking : Bool) → k side blocking true ≡ opened
  pub blocking_waits : (side : Side) → k side true false ≡ waits
  pub reader_opens : k server false false ≡ opened
  pub writer_refused : k client false false ≡ refused

pub data Status : Type 0 where
  ready waiting holding : Status

-- A process: what it has left to do, where it stands, what its sleep has left, and what its calls of
-- `open` came to.
pub record Process : Type 0 where
  pub todo : List Action
  pub status : Status
  pub asleep : ℕ
  pub results : List Answer

unfoldable pub is_present : Status → Bool
is_present ready = false
is_present waiting = true
is_present holding = true

-- An `open` that waits returns.
unfoldable pub woken : Process → Status → Process
woken p ready = p
woken p holding = p
woken p waiting = record p { status = holding; results = p.results ++ opened ∷ [] }

-- Behind the answer of `open`: the process, and the other one.
unfoldable pub answered :
    Process → Process → (fatal : Bool) → List Action → Answer → Process × Process
unfolding woken
answered p other fatal rest opened = (
  record p { todo = rest; status = holding; results = p.results ++ opened ∷ [] },
  woken other other.status,
)
answered p other fatal rest waits = (record p { todo = rest; status = waiting }, other)
answered p other fatal rest refused =
    (record p { todo = if fatal then [] else rest; results = p.results ++ refused ∷ [] }, other)

-- The next action of a process that is not in `open`.
unfoldable pub act : (Bool → Answer) → Process → Process → List Action → Option (Process × Process)
unfolding answered is_present
act answer p other [] = none
act answer p other (sleep ms ∷ rest) = some (record p { todo = rest; asleep = ms }, other)
act answer p other (exit_on_error ∷ rest) =
    some (answered p other true rest (answer (is_present other.status)))
act answer p other (go_on ∷ rest) =
    some (answered p other false rest (answer (is_present other.status)))

-- A turn of a process, if it can move: it closes what it holds, or does its next action.
unfoldable pub turn_at : (Bool → Answer) → Process → Process → Status → Option (Process × Process)
unfolding act
turn_at answer p other holding = some (record p { status = ready }, other)
turn_at answer p other waiting = none
turn_at answer p other ready = act answer p other p.todo

unfoldable pub turn : (Bool → Answer) → Process → Process → Option (Process × Process)
unfolding turn_at
turn answer p other = turn_at answer p other p.status

pub record System : Type 0 where
  pub server_process : Process
  pub client_process : Process

unfoldable pub begun : List Action → Process
begun actions = record { todo = actions; status = ready; asleep = 0; results = [] }

unfoldable pub start : Mode → System
unfolding begun server_actions client_actions
start m = record {
  server_process = begun (server_actions m);
  client_process = begun (client_actions m);
}

unfoldable pub as_server : Option (Process × Process) → Option System
as_server none = none
as_server (some (p, other)) = some (record { server_process = p; client_process = other })

unfoldable pub as_client : Option (Process × Process) → Option System
as_client none = none
as_client (some (p, other)) = some (record { server_process = other; client_process = p })

-- A turn of one side; the sleeps may take as long as they like.
unfoldable pub step : Kernel → Mode → Side → System → Option System
unfolding turn as_server as_client blocks
step k m server s = as_server (turn (k server (blocks m server)) s.server_process s.client_process)
step k m client s = as_client (turn (k client (blocks m client)) s.client_process s.server_process)

unfoldable pub or_stay : System → Option System → System
or_stay s none = s
or_stay s (some s') = s'

-- Turns in the order of a schedule. A side that cannot move stays where it is.
unfoldable pub run : Kernel → Mode → List Side → System → System
unfolding step or_stay
run k m [] s = s
run k m (side ∷ sides) s = run k m sides (or_stay s (step k m side s))
