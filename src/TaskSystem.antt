-- ===== src/TaskSystem.antt =====
-- hw12 as a whole: producer.c, broker.c and worker.c with the messages between them.
pub mod Start
pub mod Sound
pub mod Progress
pub mod Once
pub mod Tests
use nsysu_network_applicatio.Prelude.{
  ℕ, zero, suc, ◌+◌, ◌-◌, ◌/◌, ◌%◌, ◌^◌, Bool, true, false, Bytes, codes, List, [], ◌∷◌, ◌++◌,
  Option, none, some, Run, ok, fault, ltb, if◌then◌else◌,
}
use nsysu_network_applicatio.Prelude.Int.{ℤ, pos, negsuc}
use nsysu_network_applicatio.Broker.Message.{clip, task_text, worker_task_id}
use nsysu_network_applicatio.Broker.{
  Config, Broker, Send, to_worker, from_producer, from_worker, step, running,
}

-- The broker, the variable `task_sequence` of the producer, the tasks on their way to the broker, the
-- workers that have a task, and the reports on their way to the broker.
pub record System : Type 0 where
  pub broker : Broker
  pub task_sequence : ℕ
  pub frontend : List Bytes
  pub busy : List Send
  pub backend : List (ℤ × Bytes)

-- What happens next. A worker that finishes, and one whose report arrives, is named by its place.
pub data Move : Type 0 where
  produce : Move
  arrive : (now : ℤ) → Move
  work : (place : ℕ) (local : ℤ) → Move
  report : (place : ℕ) (now : ℤ) (send_ns : ℕ → ℤ) → Move

unfoldable pub keep {ℓ} : {A : Type ℓ} → A → Option (A × List A) → Option (A × List A)
keep x none = none
keep x (some (y, ys)) = some (y, x ∷ ys)

-- an element and the others
unfoldable pub take_out {ℓ} : {A : Type ℓ} → ℕ → List A → Option (A × List A)
unfolding keep
take_out i [] = none
take_out zero (x ∷ xs) = some (x, xs)
take_out (suc i) (x ∷ xs) = keep x (take_out i xs)

-- the bytes of an `int`, lowest first
unfoldable pub bytes_of : ℕ → Bytes
bytes_of n = n % 256 ∷ (n / 256) % 256 ∷ (n / 65536) % 256 ∷ (n / 16777216) % 256 ∷ []

unfoldable pub int_bytes : ℤ → Bytes
unfolding bytes_of
int_bytes (pos n) = bytes_of n
int_bytes (negsuc n) = bytes_of (2 ^ 32 - 1 - n)

-- "DONE " and the identifier; `local` is what its variable holds where `sscanf` did not write it
unfoldable pub done_message : ℤ → Run ℤ → Bytes
unfolding int_bytes
done_message local (ok task_id) = codes "DONE " ++ int_bytes task_id
done_message local (fault f) = codes "DONE " ++ int_bytes local

-- a worker reports its task
unfoldable pub reported_by : System → ℤ → Option (Send × List Send) → Option System
unfolding done_message
reported_by s local none = none
reported_by s local (some (to_worker w task, others)) = some (record s {
  busy = others;
  backend = s.backend ++ (w, done_message local (worker_task_id (clip task))) ∷ [];
})

-- the broker reads a task, the first of those on their way
unfoldable pub arrived : Config → System → ℤ → List Bytes → Option System
arrived cfg s now [] = none
arrived cfg s now (message ∷ messages) =
    let (b, sent) = step cfg s.broker (from_producer message now) in
    some (record s { broker = b; frontend = messages; busy = s.busy ++ sent })

-- the broker reads a report
unfoldable pub read_report :
    Config → System → ℤ → (ℕ → ℤ) → Option ((ℤ × Bytes) × List (ℤ × Bytes)) → Option System
read_report cfg s now send_ns none = none
read_report cfg s now send_ns (some ((w, message), others)) =
    let (b, sent) = step cfg s.broker (from_worker w message now send_ns) in
    some (record s { broker = b; backend = others; busy = s.busy ++ sent })

-- A move, if it can happen. The broker reads messages while its loop runs.
unfoldable pub moved : Config → System → Move → Option System
unfolding take_out reported_by arrived read_report
moved cfg s produce =
    if ltb s.task_sequence cfg.task_count
    then some (record s {
      task_sequence = s.task_sequence + 1;
      frontend = s.frontend ++ (task_text (pos s.task_sequence) ++ 0 ∷ []) ∷ [];
    })
    else none
moved cfg s (arrive now) = if running cfg s.broker then arrived cfg s now s.frontend else none
moved cfg s (work place local) = reported_by s local (take_out place s.busy)
moved cfg s (report place now send_ns) =
    if running cfg s.broker then read_report cfg s now send_ns (take_out place s.backend) else none
