-- ===== src/SequenceServer.antt =====
-- hw10/ex44_6/server.c and hw10/ex46_2/server.c: servers that give each client a range of numbers of
-- the length it asks for, over FIFOs and over message queues.
pub mod Ranges
pub mod Clients
pub mod Tests
use nsysu_network_applicatio.Prelude.{ℕ, ◌+◌, Bool, true, false, List, [], ◌∷◌, ◌++◌, if◌then◌else◌}

-- A client and the first number of its range: what is written to it.
pub record Response : Type 0 where
  pub client : ℕ
  pub seq_num : ℕ
  pub seq_len : ℕ

-- the answer of `open` on the FIFO of a client: a descriptor, ENXIO, or another error
pub data Opening : Type 0 where
  opened no_reader refused : Opening

-- Whether there is a descriptor, after the second attempt that follows on an ENXIO.
unfoldable pub reached : Opening → Opening → Bool
reached opened second = true
reached refused second = false
reached no_reader opened = true
reached no_reader no_reader = false
reached no_reader refused = false

-- A round of the FIFO server: a `read` that failed, or a request with what `open` says at the first
-- and second attempt, and whether the whole response is written.
pub data FifoInput : Type 0 where
  bad_read : FifoInput
  request : (pid seq_len : ℕ) (first second : Opening) (written : Bool) → FifoInput

-- `seqNum` and what is written
unfoldable pub fifo_step : ℕ → FifoInput → ℕ × List Response
fifo_step seq_num bad_read = (seq_num, [])
fifo_step seq_num (request pid seq_len first second written) =
    if reached first second
    then (
      seq_num + seq_len,
      if written then record { client = pid; seq_num = seq_num; seq_len = seq_len } ∷ [] else [],
    )
    else (seq_num, [])

unfoldable pub fifo_run : ℕ → List FifoInput → ℕ × List Response
fifo_run seq_num [] = (seq_num, [])
fifo_run seq_num (i ∷ rest) =
    let s = fifo_step seq_num i in let later = fifo_run s.0 rest in (later.0, s.1 ++ later.1)

-- A round of the message queue server: a `msgrcv` that failed, or a message with the outcome of
-- `msgsnd`.
pub data QueueInput : Type 0 where
  bad_receive : QueueInput
  message : (client_id seq_len : ℕ) (sent : Bool) → QueueInput

unfoldable pub queue_step : ℕ → QueueInput → ℕ × List Response
queue_step seq_num bad_receive = (seq_num, [])
queue_step seq_num (message client_id seq_len sent) = (
  seq_num + seq_len,
  if sent then record { client = client_id; seq_num = seq_num; seq_len = seq_len } ∷ [] else [],
)

unfoldable pub queue_run : ℕ → List QueueInput → ℕ × List Response
queue_run seq_num [] = (seq_num, [])
queue_run seq_num (i ∷ rest) =
    let s = queue_step seq_num i in let later = queue_run s.0 rest in (later.0, s.1 ++ later.1)
