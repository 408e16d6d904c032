-- ===== src/Emergency/Dispatcher.antt =====
-- The loop of `main` in hw13/dispatcher.c: workers report to it, and tasks are typed in. The loop is
-- read with `zmq_poll` for `zmq_pool` and STDIN_FILENO for STDIO_FILENO, names that do not exist.
pub mod Inverted
use nsysu_network_applicatio.Prelude.{
  Bool, Bytes, codes, str_eq, List, [], ◌∷◌, ◌++◌, take, Option, none, some, if◌then◌else◌,
}
use nsysu_network_applicatio.Prelude.Int.{ℤ, pos}
use nsysu_network_applicatio.Queue.Fifo
use nsysu_network_applicatio.Broker.{is_neg_one}
use nsysu_network_applicatio.Broker.Message.{until_nul, skip_space, scan_int}
use nsysu_network_applicatio.TaskSystem.{int_bytes}
use nsysu_network_applicatio.Emergency.Lending.{Task}

abbrev or_zero : Option ℤ → ℤ
or_zero none = pos 0
or_zero (some n) = n

-- `atoi`, which gives 0 where there is no number
unfoldable pub atoi : Bytes → ℤ
unfolding scan_int skip_space
atoi s = or_zero (scan_int (skip_space s))

-- the string in `id_buffer` or `event_buffer`
unfoldable pub buffered : Bytes → Bytes
unfolding until_nul
buffered frame = until_nul (take 255 frame)

-- The two frames of a worker, or the numbers that are typed in, with the eight bytes that nothing is
-- written to in the frame that is made for an identity.
pub data Input : Type 0 where
  from_worker : (id : Bytes) (event : Bytes) → Input
  typed : Task → (unwritten : Bytes) → Input

-- What becomes of a task: it is not permitted, or it is sent with a frame that names the worker.
pub data Outcome : Type 0 where
  not_permitted : Outcome
  assigned : (identity_frame : Bytes) → Task → Outcome

unfoldable pub ready : Bytes
ready = codes "READY"

unfoldable pub result : Bytes
result = codes "RESULT"

-- `worker_queue` behind a message of a worker; a message of another kind is passed over
unfoldable pub report : List ℤ → Bytes → Bytes → List ℤ
report queue id event =
    if str_eq event ready
    then Fifo.push queue (atoi id)
    else if str_eq event result
    then Fifo.push queue (atoi id)
    else queue

-- The frame for the identity: it has the size of a task, 12 bytes, of which the int takes four.
unfoldable pub identity_frame : ℤ → Bytes → Bytes
unfolding int_bytes
identity_frame worker_id unwritten = int_bytes worker_id ++ unwritten

-- The test on what `Dequeue` returned, as the code has it.
pub decide : ℤ → Task → Bytes → Outcome
decide worker_id task unwritten =
    if is_neg_one worker_id
    then assigned (identity_frame worker_id unwritten) task
    else not_permitted

pub step : List ℤ → Input → List ℤ × List Outcome
step queue (from_worker id event) = (report queue (buffered id) (buffered event), [])
step queue (typed task unwritten) =
    ((Fifo.pop queue).1, decide (Fifo.pop queue).0 task unwritten ∷ [])

pub run : List ℤ → List Input → List Outcome
run queue [] = []
run queue (i ∷ rest) = (step queue i).1 ++ run (step queue i).0 rest
