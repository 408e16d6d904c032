-- ===== src/SharedStack.antt =====
-- hw9/prod_cons.c: M producers and a consumer share a stack under System V semaphores. What a
-- process does between the wait and the post on the mutex is one step; what it does outside, the
-- read of the popped item included, is a step of its own. A schedule lists who moves next.
pub mod Invariant
pub mod Race
pub mod Single
pub mod Tests
use nsysu_network_applicatio.Prelude.{
  ℕ, zero, suc, ◌+◌, ◌-◌, ◌*◌, ◌%◌, Bool, true, false, List, [], ◌∷◌, Option, none, some, ltb, ◌==◌,
  if◌then◌else◌,
}

-- `struct shared_data`
pub record Item : Type 0 where
  pub pid : ℕ
  pub random_num : ℕ

-- the shared memory: the stack, as a function of the index, and `*shared_index`
pub record Memory : Type 0 where
  pub data_at : ℕ → Item
  pub shared_index : ℕ

-- `push` from the last wait on the mutex on. `none` is the answer of the `while`: the mutex is
-- released and waited on again. A producer exists only where `max_size` is at least 1.
pub push : Item → ℕ → Memory → Option Memory
push item max_size m =
    if m.shared_index == max_size - 1
    then none
    else if ltb m.shared_index (max_size - 1)
    then some (record {
      data_at = λ i. if i == m.shared_index then item else m.data_at i;
      shared_index = m.shared_index + 1;
    })
    else some m

-- `pop` up to the post on the mutex; `none` as in `push`
pub take_top : Memory → Option Memory
take_top m =
    if m.shared_index == 0 then none else some (record m { shared_index = m.shared_index - 1 })

-- `return data[*shared_index]`, which `pop` does behind the post
abbrev pub top_item : Memory → Item
top_item m = m.data_at m.shared_index

-- a producer with `left` rounds to go: in front of `push`, or behind it
pub data Producer : Type 0 where
  pushing : (pid : ℕ) (left : ℕ) → Producer
  posting : (pid : ℕ) (left : ℕ) → Producer

-- the consumer: in front of the wait on the semaphore 1, in front of `pop`, or behind its post
pub data Consumer : Type 0 where
  waiting : (left : ℕ) → Consumer
  popping : (left : ℕ) → Consumer
  reading : (left : ℕ) → Consumer

pub record System : Type 0 where
  pub memory : Memory
  pub full_count : ℕ
  pub producers : List Producer
  pub consumer : Consumer
  pub sum : ℕ

-- Who moves: the producer at a place, with what `rand` gives, or the consumer.
pub data Move : Type 0 where
  produce : (place : ℕ) (random : ℕ) → Move
  consume : Move

abbrev pushed : ℕ → ℕ → Memory → Option Memory → Producer × Memory × ℕ
pushed pid left m none = (pushing pid (suc left), m, 0)
pushed pid left m (some m') = (posting pid left, m', 0)

-- One step of a producer; the number is added to the semaphore 1.
producer_step : ℕ → Producer → ℕ → Memory → Producer × Memory × ℕ
producer_step max_size (pushing pid zero) random m = (pushing pid zero, m, 0)
producer_step max_size (pushing pid (suc left)) random m =
    pushed pid left m (push (record { pid = pid; random_num = random % 10 }) max_size m)
producer_step max_size (posting pid left) random m = (pushing pid left, m, 1)

-- the producer at a place, if there is one
producers_step : ℕ → List Producer → ℕ → ℕ → Memory → List Producer × Memory × ℕ
producers_step max_size [] place random m = ([], m, 0)
producers_step max_size (p ∷ ps) zero random m =
    let s = producer_step max_size p random m in (s.0 ∷ ps, s.1, s.2)
producers_step max_size (p ∷ ps) (suc place) random m =
    let s = producers_step max_size ps place random m in (p ∷ s.0, s.1, s.2)

popped : System → ℕ → Option Memory → System
popped s left none = s
popped s left (some m) = record s { memory = m; consumer = reading left }

consumer_step : System → Consumer → System
consumer_step s (waiting zero) = s
consumer_step s (waiting (suc left)) =
    if s.full_count == 0
    then s
    else record s { full_count = s.full_count - 1; consumer = popping left }
consumer_step s (popping left) = popped s left (take_top s.memory)
consumer_step s (reading left) = record s {
  consumer = waiting left;
  sum = s.sum + (top_item s.memory).random_num;
}

-- One move; `max_size` is the number M of producers.
pub step : ℕ → System → Move → System
step max_size s (produce place random) =
    let p = producers_step max_size s.producers place random s.memory in
    record s { producers = p.0; memory = p.1; full_count = s.full_count + p.2 }
step max_size s consume = consumer_step s s.consumer

pub run : ℕ → System → List Move → System
run max_size s [] = s
run max_size s (a ∷ rest) = run max_size (step max_size s a) rest

-- `fork` in a loop: `n` producers with the process identifiers from `pid` on
unfoldable pub fork_all : ℕ → ℕ → ℕ → List Producer
fork_all zero pid items = []
fork_all (suc n) pid items = pushing pid items ∷ fork_all n (suc pid) items

-- A new segment of shared memory is zero.
unfoldable pub start : ℕ → ℕ → ℕ → System
unfolding fork_all
start producer_count items pid = record {
  memory = record { data_at = λ i. record { pid = 0; random_num = 0 }; shared_index = 0 };
  full_count = 0;
  producers = fork_all producer_count pid items;
  consumer = waiting (producer_count * items);
  sum = 0;
}
