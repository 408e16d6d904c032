-- ===== src/Monitor/Progress.antt =====
-- The two threads do not wait for each other for ever.
use nsysu_network_applicatio.Prelude.{
  ℕ, zero, suc, ◌+◌, ◌-◌, ◌≤◌, ◌≡◌, refl, Bool, true, false, List, [], ◌∷◌, length, length-append,
  ◌==◌, arith, inl, inr, Bool-cases,
}
use nsysu_network_applicatio.Monitor.{
  Stack, stack_size, push, pop, my_push, my_pop, Thread, ready, asleep, System, Move, produce,
  consume, wake_producer, wake_consumer, wake, pushed, popped_by, produce_step, consume_step, step,
  run, start,
}

-- The two stacks differ only in how they wait: a turn of `my_push` and `my_pop` does what `push` and
-- `pop` do, on every stack within its bounds.
pub my_push-push :
    (c : ℕ) (s : Stack) → s.index ≤ stack_size → (my_push c s ≡ push c s) × (my_pop s ≡ pop s)
unfolding my_push push my_pop pop
my_push-push c s b = ground arith

unfoldable pub left_of : Thread → ℕ
left_of (ready left) = left
left_of (asleep left) = left

unfoldable pub is_asleep : Thread → Bool
is_asleep (ready left) = false
is_asleep (asleep left) = true

-- The index is within the stack; what was pushed is on the stack or popped; and a thread sleeps only
-- with a call to go, the producer on a full stack, the consumer on an empty one.
pub record IsSound (items : ℕ) (s : System) : Type 0 where
  pub bounded : s.stack.index ≤ stack_size
  pub balanced : left_of s.consumer ≡ left_of s.producer + s.stack.index
  pub counted : length s.popped + left_of s.consumer ≡ items
  pub full : is_asleep s.producer ≡ true → s.stack.index ≡ stack_size
  pub empty : is_asleep s.consumer ≡ true → s.stack.index ≡ 0
  pub producer_has_work : is_asleep s.producer ≡ true → 1 ≤ left_of s.producer
  pub consumer_has_work : is_asleep s.consumer ≡ true → 1 ≤ left_of s.consumer

wake_lem : (t : Thread) → (is_asleep (wake t) ≡ false) × (left_of (wake t) ≡ left_of t)
unfolding wake is_asleep left_of
wake_lem (ready left) = (refl, refl)
wake_lem (asleep left) = (refl, refl)

module _ (items : ℕ) where
  produce_step-IsSound :
      (s : System) (t : Thread)
      → s.producer ≡ t
      → IsSound items s
      → IsSound items (produce_step s t)
  unfolding produce_step push left_of is_asleep pushed
  produce_step-IsSound s (ready zero) e v = v
  produce_step-IsSound s (asleep left) e v = v
  produce_step-IsSound s (ready (suc left)) e v =
      let todo : left_of s.producer ≡ suc left = rw e refl in
      let woken = wake_lem s.consumer in
      elim (Bool-cases (s.stack.index == stack_size)) [
        | inl top ↦ rw top (record {
          bounded = v.bounded;
          balanced = omega (arith, v.balanced);
          counted = v.counted;
          full = λ h. ground arith;
          empty = v.empty;
          producer_has_work = λ h. omega arith;
          consumer_has_work = v.consumer_has_work;
        })
        | inr room ↦ rw room (record {
          bounded = ground (arith, v.bounded);
          balanced = omega (arith, v.balanced);
          counted = omega (arith, v.counted);
          full = λ h. ground arith;
          empty = λ h. ground arith;
          producer_has_work = λ h. ground arith;
          consumer_has_work = λ h. ground arith;
        })
      ]

  consume_step-IsSound :
      (s : System) (t : Thread)
      → s.consumer ≡ t
      → IsSound items s
      → IsSound items (consume_step s t)
  unfolding consume_step pop left_of is_asleep popped_by
  consume_step-IsSound s (ready zero) e v = v
  consume_step-IsSound s (asleep left) e v = v
  consume_step-IsSound s (ready (suc left)) e v =
      let todo : left_of s.consumer ≡ suc left = rw e refl in
      let woken = wake_lem s.producer in
      let c = s.stack.buffer (s.stack.index - 1) in
      elim (Bool-cases (s.stack.index == 0)) [
        | inl bottom ↦ rw bottom (record {
          bounded = v.bounded;
          balanced = omega (arith, v.balanced);
          counted = omega (arith, v.counted);
          full = v.full;
          empty = λ h. ground arith;
          producer_has_work = v.producer_has_work;
          consumer_has_work = λ h. omega arith;
        })
        | inr some_left ↦ rw some_left (record {
          bounded = ground (arith, v.bounded);
          balanced = ground (arith, v.balanced);
          counted = omega (arith, v.counted, length-append s.popped (c ∷ []));
          full = λ h. ground arith;
          empty = λ h. ground arith;
          producer_has_work = λ h. ground arith;
          consumer_has_work = λ h. ground arith;
        })
      ]

  -- Whichever thread gets the mutex, and whomever the kernel wakes for no reason, the index stays
  -- within the stack, what was pushed is on the stack or popped, the producer sleeps only on a full
  -- stack and the consumer only on an empty one, and only with a call to go.
  step-IsSound : (s : System) (a : Move) → IsSound items s → IsSound items (step s a)
  unfolding step
  step-IsSound s produce v = produce_step-IsSound s s.producer refl v
  step-IsSound s consume v = consume_step-IsSound s s.consumer refl v
  step-IsSound s wake_producer v =
      let woken = wake_lem s.producer in
      record {
        bounded = v.bounded;
        balanced = omega (arith, v.balanced);
        counted = v.counted;
        full = λ h. ground arith;
        empty = v.empty;
        producer_has_work = λ h. ground arith;
        consumer_has_work = v.consumer_has_work;
      }
  step-IsSound s wake_consumer v =
      let woken = wake_lem s.consumer in
      record {
        bounded = v.bounded;
        balanced = omega (arith, v.balanced);
        counted = omega (arith, v.counted);
        full = v.full;
        empty = λ h. ground arith;
        producer_has_work = v.producer_has_work;
        consumer_has_work = λ h. ground arith;
      }

  run-IsSound : (s : System) (moves : List Move) → IsSound items s → IsSound items (run s moves)
  unfolding run
  run-IsSound s [] v = v
  run-IsSound s (a ∷ rest) v = run-IsSound (step s a) rest (step-IsSound s a v)

  pub start-IsSound : IsSound items (start items)
  unfolding start left_of is_asleep
  start-IsSound = record {
    bounded = omega arith;
    balanced = omega arith;
    counted = omega arith;
    full = λ h. ground arith;
    empty = λ h. ground arith;
    producer_has_work = λ h. ground arith;
    consumer_has_work = λ h. ground arith;
  }

-- a thread that takes a step of its own accord
unfoldable pub can_move : Thread → Bool
can_move (ready zero) = false
can_move (ready (suc left)) = true
can_move (asleep left) = false

stopped : (t : Thread) → can_move t ≡ false → is_asleep t ≡ false → left_of t ≡ 0
unfolding can_move is_asleep left_of
stopped (ready zero) c a = refl
stopped (ready (suc left)) c a = ground arith
stopped (asleep left) c a = ground arith

-- No deadlock: in every schedule from the start, where neither thread can move both are through with
-- their calls, neither sleeps, the stack is empty, and as many characters were popped as there were
-- calls.
pub no_deadlock :
    (items : ℕ) (moves : List Move)
    → let s = run (start items) moves in
      can_move s.producer ≡ false
      → can_move s.consumer ≡ false
      → (is_asleep s.producer ≡ false)
        × (is_asleep s.consumer ≡ false)
        × (s.stack.index ≡ 0)
        × (length s.popped ≡ items)
no_deadlock items moves p c =
    let s = run (start items) moves in
    let v = run-IsSound items (start items) moves (start-IsSound items) in
    elim (Bool-cases (is_asleep s.producer)) [
      | inl pa ↦ elim (Bool-cases (is_asleep s.consumer)) [
        | inl ca ↦ absurd (omega (arith, v.full pa, v.empty ca))
        | inr cr ↦ absurd (omega (arith, v.full pa, v.balanced, stopped s.consumer c cr))
      ]
      | inr pr ↦ elim (Bool-cases (is_asleep s.consumer)) [
        | inl ca ↦
            absurd (
              omega
                (arith, v.empty ca, v.balanced, stopped s.producer p pr, v.consumer_has_work ca))
        | inr cr ↦ (
          pr,
          cr,
          omega (arith, v.balanced, stopped s.consumer c cr),
          omega (arith, v.counted, stopped s.consumer c cr),
        )
      ]
    ]
