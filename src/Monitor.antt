-- ===== src/Monitor.antt =====
-- test2/stack_cond.c with the two threads that test2/main_test_stack.c starts on it: one pushes, one
-- pops, and each sleeps on the condition variable where it cannot. What a thread does while it
-- holds the mutex is one step. test2/stack_mutex_only.c has the same stack without the variable.
pub mod Progress
pub mod Tests
use nsysu_network_applicatio.Prelude.{
  ℕ, zero, suc, ◌+◌, ◌-◌, Bool, true, false, List, [], ◌∷◌, ◌++◌, Option, none, some, ltb, ◌==◌,
  if◌then◌else◌,
}

-- `buffer` and `index`
pub record Stack : Type 0 where
  pub buffer : ℕ → ℕ
  pub index : ℕ

abbrev pub stack_size : ℕ
stack_size = 3

-- `push` of stack_cond.c; `none` is the wait of the `while`
unfoldable pub push : ℕ → Stack → Option Stack
push one_char s =
    if s.index == stack_size
    then none
    else some (record {
      buffer = λ i. if i == s.index then one_char else s.buffer i;
      index = s.index + 1;
    })

-- `pop` of stack_cond.c
unfoldable pub pop : Stack → Option (ℕ × Stack)
pop s =
    if s.index == 0 then none else some (s.buffer (s.index - 1), record s { index = s.index - 1 })

-- one turn of the `while (1)` of `my_push`; `none` is a turn in vain
unfoldable pub my_push : ℕ → Stack → Option Stack
my_push one_char s =
    if ltb s.index stack_size
    then some (record {
      buffer = λ i. if i == s.index then one_char else s.buffer i;
      index = s.index + 1;
    })
    else none

-- one turn of the `while (1)` of `my_pop`
unfoldable pub my_pop : Stack → Option (ℕ × Stack)
my_pop s =
    if ltb 0 s.index then some (s.buffer (s.index - 1), record s { index = s.index - 1 }) else none

-- a thread with so many calls to go, in front of the mutex or asleep in `pthread_cond_wait`
pub data Thread : Type 0 where
  ready : (left : ℕ) → Thread
  asleep : (left : ℕ) → Thread

-- `cond_producer`, which pushes `next_char` next, and `cond_consumer` with what it has popped
pub record System : Type 0 where
  pub stack : Stack
  pub producer : Thread
  pub next_char : ℕ
  pub consumer : Thread
  pub popped : List ℕ

-- Who gets the mutex, or whom the kernel wakes for no reason.
pub data Move : Type 0 where
  produce consume wake_producer wake_consumer : Move

-- `pthread_cond_signal`, and what a spurious wake-up does
unfoldable pub wake : Thread → Thread
wake (ready left) = ready left
wake (asleep left) = ready left

pushed : System → ℕ → Option Stack → System
pushed s left none = record s { producer = asleep (suc left) }
pushed s left (some stack) = record s {
  stack = stack;
  producer = ready left;
  next_char = s.next_char + 1;
  consumer = wake s.consumer;
}

popped_by : System → ℕ → Option (ℕ × Stack) → System
popped_by s left none = record s { consumer = asleep (suc left) }
popped_by s left (some (c, stack)) = record s {
  stack = stack;
  producer = wake s.producer;
  consumer = ready left;
  popped = s.popped ++ c ∷ [];
}

produce_step : System → Thread → System
produce_step s (ready zero) = s
produce_step s (ready (suc left)) = pushed s left (push s.next_char s.stack)
produce_step s (asleep left) = s

consume_step : System → Thread → System
consume_step s (ready zero) = s
consume_step s (ready (suc left)) = popped_by s left (pop s.stack)
consume_step s (asleep left) = s

pub step : System → Move → System
step s produce = produce_step s s.producer
step s consume = consume_step s s.consumer
step s wake_producer = record s { producer = wake s.producer }
step s wake_consumer = record s { consumer = wake s.consumer }

pub run : System → List Move → System
run s [] = s
run s (a ∷ rest) = run (step s a) rest

-- both threads with `items` calls to go; 65 is 'A'
unfoldable pub start : ℕ → System
start items = record {
  stack = record { buffer = λ i. 0; index = 0 };
  producer = ready items;
  next_char = 65;
  consumer = ready items;
  popped = [];
}
