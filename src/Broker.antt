-- ===== src/Broker.antt =====
-- hw12/broker.c: hands the tasks of a producer to the workers that are free, keeps those that must
-- wait in a bounded queue and drops the others. One round of the loop of `main` is `step`.
pub mod Message
pub mod Invariant
pub mod Counts
pub mod Accounting
pub mod Identity
pub mod Flow
pub mod Stall
pub mod Tests
use nsysu_network_applicatio.Prelude.{
  ℕ, suc, ◌+◌, ◌-◌, ◌*◌, ◌^◌, Bool, true, false, ◌&&◌, Bytes, codes, List, [], ◌∷◌, ◌++◌, length,
  ltb, leb, ◌==◌, if◌then◌else◌,
}
use nsysu_network_applicatio.Prelude.Int.{ℤ, pos, negsuc, ◌+ℤ◌, ◌-ℤ◌}
use nsysu_network_applicatio.Queue.Fifo
use nsysu_network_applicatio.Broker.Message.{clip, get_task_id, task_text}

-- The arguments of the program that its decisions depend on.
pub record Config : Type 0 where
  pub task_count : ℕ
  pub queue_size : ℕ

-- The variables of `main`. The two linked lists stand as the lists of their identifiers.
pub record Broker : Type 0 where
  pub worker_queue : List ℤ
  pub pending_task_queue : List ℤ
  pub worker_count : ℕ
  pub pending_task_count : ℕ
  pub dropped_task_count : ℕ
  pub processed_task_count : ℕ
  pub broker_receive_ns : ℕ → ℤ
  pub total_latency_ns : ℤ
  pub latency_sample_count : ℕ

unfoldable pub init : Broker
init = record {
  worker_queue = [];
  pending_task_queue = [];
  worker_count = 0;
  pending_task_count = 0;
  dropped_task_count = 0;
  processed_task_count = 0;
  broker_receive_ns = λ i. pos 0;
  total_latency_ns = pos 0;
  latency_sample_count = 0;
}

-- A message for a worker: its identity and the task.
pub data Send : Type 0 where
  to_worker : ℤ → Bytes → Send

-- What `zmq_poll` reports, with the clock at that time and, of a worker, the shared times.
pub data Input : Type 0 where
  from_producer : (message : Bytes) (now : ℤ) → Input
  from_worker : (worker_id : ℤ) (ready : Bytes) (now : ℤ) (send_ns : ℕ → ℤ) → Input

abbrev pub is_neg_one : ℤ → Bool
is_neg_one (pos n) = false
is_neg_one (negsuc n) = n == 0

abbrev nonneg : ℤ → Bool
nonneg (pos n) = true
nonneg (negsuc n) = false

-- the message, unless the identifier that was taken off a queue is the -1 of an empty one
abbrev send_unless : ℤ → ℤ → Bytes → List Send
send_unless taken worker_id task = if is_neg_one taken then [] else to_worker worker_id task ∷ []

-- the task goes to the first free worker, or it waits, or it is dropped
unfoldable pub assign : Config → Broker → Bytes → ℕ → List ℤ → Broker × List Send
assign cfg b task task_id [] =
    if ltb b.pending_task_count cfg.queue_size
    then (
      record b {
        pending_task_queue = Fifo.push b.pending_task_queue (pos task_id);
        pending_task_count = b.pending_task_count + 1;
      },
      [],
    )
    else (record b { dropped_task_count = b.dropped_task_count + 1 }, [])
assign cfg b task task_id (w ∷ ws) = (
  record b { worker_queue = (Fifo.pop (w ∷ ws)).1; worker_count = b.worker_count - 1 },
  send_unless (Fifo.pop (w ∷ ws)).0 (Fifo.pop (w ∷ ws)).0 (task ++ 0 ∷ []),
)

-- a task identifier in range, or a message that is dropped
unfoldable pub accept : Config → Broker → Bytes → ℤ → ℤ → Broker × List Send
accept cfg b task (negsuc n) now = (record b { dropped_task_count = b.dropped_task_count + 1 }, [])
accept cfg b task (pos n) now =
    if ltb n cfg.task_count
    then assign cfg
        (record b { broker_receive_ns = λ i. if i == n then now else b.broker_receive_ns i }) task n
        b.worker_queue
    else (record b { dropped_task_count = b.dropped_task_count + 1 }, [])

-- `items[0].revents & ZMQ_POLLIN`
unfoldable pub on_frontend : Config → Broker → Bytes → ℤ → Broker × List Send
on_frontend cfg b message now = let task = clip message in accept cfg b task (get_task_id task) now

-- an `int` in the machine's byte order, lowest byte first
unfoldable pub int_of : Bytes → ℤ
int_of (a ∷ b ∷ c ∷ d ∷ s) =
    let n = a + 256 * b + 65536 * c + 16777216 * d in
    if ltb n (2 ^ 31) then pos n else negsuc (2 ^ 32 - 1 - n)
int_of s = pos 0

unfoldable pub starts_with : Bytes → Bytes → Bool
starts_with [] s = true
starts_with (c ∷ p) [] = false
starts_with (c ∷ p) (d ∷ s) = c == d && starts_with p s

abbrev drop_five : Bytes → Bytes
drop_five (a ∷ b ∷ c ∷ d ∷ e ∷ s) = s
drop_five s = []

-- "DONE", a byte and an `int`
unfoldable pub is_done : Bytes → Bool
unfolding starts_with
is_done ready = leb 9 (length ready) && starts_with (codes "DONE") ready

-- the latency sample of a finished task
unfoldable pub record_latency : Config → Broker → ℤ → ℤ → (ℕ → ℤ) → Broker
record_latency cfg b (negsuc n) now send_ns = b
record_latency cfg b (pos n) now send_ns =
    if ltb n cfg.task_count && nonneg (b.broker_receive_ns n) && nonneg (send_ns n)
    then record b {
      total_latency_ns = b.total_latency_ns +ℤ (now -ℤ send_ns n);
      latency_sample_count = b.latency_sample_count + 1;
    }
    else b

unfoldable pub add_worker : Broker → ℤ → Broker
add_worker b worker_id = record b {
  worker_queue = Fifo.push b.worker_queue worker_id;
  worker_count = b.worker_count + 1;
}

-- a worker that is done gets the task that waits longest, or is free
unfoldable pub next_task : Broker → ℤ → List ℤ → Broker × List Send
next_task b worker_id [] = (add_worker b worker_id, [])
next_task b worker_id (t ∷ ts) = (
  record b {
    pending_task_queue = (Fifo.pop (t ∷ ts)).1;
    pending_task_count = b.pending_task_count - 1;
  },
  send_unless (Fifo.pop (t ∷ ts)).0 worker_id (task_text (Fifo.pop (t ∷ ts)).0 ++ 0 ∷ []),
)

unfoldable pub finish : Config → Broker → ℤ → Bytes → ℤ → (ℕ → ℤ) → Broker × List Send
finish cfg b worker_id ready now send_ns =
    let b1 = record_latency cfg b (int_of (drop_five ready)) now send_ns in
    let b2 = record b1 { processed_task_count = b1.processed_task_count + 1 } in
    next_task b2 worker_id b2.pending_task_queue

-- `items[1].revents & ZMQ_POLLIN`
unfoldable pub on_backend : Config → Broker → ℤ → Bytes → ℤ → (ℕ → ℤ) → Broker × List Send
on_backend cfg b worker_id ready now send_ns =
    if is_done ready then finish cfg b worker_id ready now send_ns else (add_worker b worker_id, [])

unfoldable pub step : Config → Broker → Input → Broker × List Send
step cfg b (from_producer message now) = on_frontend cfg b message now
step cfg b (from_worker w ready now send_ns) = on_backend cfg b w ready now send_ns

-- the test of the `while`
unfoldable pub running : Config → Broker → Bool
running cfg b = ltb (b.processed_task_count + b.dropped_task_count) cfg.task_count

-- The loop over the messages that arrive; it stops reading when all tasks are accounted for.
unfoldable pub run : Config → Broker → List Input → Broker × List Send
run cfg b [] = (b, [])
run cfg b (i ∷ is) =
    let s = step cfg b i in
    let rest = run cfg s.0 is in if running cfg b then (rest.0, s.1 ++ rest.1) else (b, [])

-- The text that is published for the monitor, as its four numbers.
pub monitor_message : Config → Broker → ℤ × ℕ × ℕ × ℕ
monitor_message cfg b = (
  pos cfg.queue_size -ℤ pos b.pending_task_count,
  b.worker_count,
  b.processed_task_count,
  b.dropped_task_count,
)
