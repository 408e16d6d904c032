-- ===== src/SharedStack/Invariant.antt =====
-- The stack's index, the semaphore 1 and what the processes are about to do belong together.
use nsysu_network_applicatio.Prelude.{
  ℕ, zero, suc, ◌+◌, ◌-◌, ◌≤◌, ◌≡◌, ◌≢◌, refl, List, [], ◌∷◌, none, ◌==◌, arith, Bool-cases, inl,
  inr,
}
use nsysu_network_applicatio.SharedStack.{
  Memory, push, take_top, Producer, pushing, posting, Consumer, waiting, popping, reading, System,
  Move, produce, consume, producer_step, producers_step, popped, consumer_step, step, run, fork_all,
  start,
}

-- how many producers have pushed and not yet posted
unfoldable pub posts_due : List Producer → ℕ
posts_due [] = 0
posts_due (pushing pid left ∷ ps) = posts_due ps
posts_due (posting pid left ∷ ps) = suc (posts_due ps)

-- 1 where the consumer has waited for an item and has not yet popped it
unfoldable pub pops_due : Consumer → ℕ
pops_due (waiting left) = 0
pops_due (popping left) = 1
pops_due (reading left) = 0

-- The index stays below the last slot, and every item on the stack is announced on the semaphore
-- 1, about to be, or already claimed by the consumer.
pub record IsConsistent (max_size : ℕ) (s : System) : Type 0 where
  pub bounded : s.memory.shared_index ≤ max_size - 1
  pub counted : s.memory.shared_index ≡ s.full_count + (posts_due s.producers + pops_due s.consumer)

posts_due_cons :
    (p : Producer) (ps : List Producer) → posts_due (p ∷ ps) ≡ posts_due (p ∷ []) + posts_due ps
unfolding posts_due
posts_due_cons (pushing pid left) ps = ground arith
posts_due_cons (posting pid left) ps = ground arith

module _ (max_size : ℕ) where
  producer_step_counts :
      (p : Producer) (random : ℕ) (m : Memory)
      → m.shared_index ≤ max_size - 1
      → let t = producer_step max_size p random m in
        (t.1.shared_index + posts_due (p ∷ []) ≡ m.shared_index + (posts_due (t.0 ∷ []) + t.2))
        × t.1.shared_index ≤ max_size - 1
  unfolding producer_step push posts_due
  producer_step_counts (pushing pid zero) random m b = ground arith
  producer_step_counts (pushing pid (suc left)) random m b = ground arith
  producer_step_counts (posting pid left) random m b = ground arith

  producers_step_counts :
      (ps : List Producer) (place random : ℕ) (m : Memory)
      → m.shared_index ≤ max_size - 1
      → let t = producers_step max_size ps place random m in
        (t.1.shared_index + posts_due ps ≡ m.shared_index + (posts_due t.0 + t.2))
        × t.1.shared_index ≤ max_size - 1
  unfolding producers_step
  producers_step_counts [] place random m b = ground arith
  producers_step_counts (p ∷ ps) zero random m b =
      let h = producer_step_counts p random m b in
      let t = producer_step max_size p random m in
      ground (arith, posts_due_cons p ps, posts_due_cons t.0 ps)
  producers_step_counts (p ∷ ps) (suc place) random m b =
      let h = producers_step_counts ps place random m b in
      let t = producers_step max_size ps place random m in
      ground (arith, posts_due_cons p ps, posts_due_cons p t.0)

  consumer_step-IsConsistent :
      (s : System) (c : Consumer)
      → s.consumer ≡ c
      → IsConsistent max_size s
      → IsConsistent max_size (consumer_step s c)
  unfolding consumer_step take_top pops_due popped
  consumer_step-IsConsistent s (waiting zero) e v = v
  consumer_step-IsConsistent s (waiting (suc left)) e v =
      let due : pops_due s.consumer ≡ 0 = rw e refl in ground arith
  consumer_step-IsConsistent s (popping left) e v =
      let due : pops_due s.consumer ≡ 1 = rw e refl in
      elim (Bool-cases (s.memory.shared_index == 0)) [
        | inl bottom ↦ rw bottom v
        | inr above ↦
            rw above (record { bounded = omega (arith, v.bounded); counted = ground arith })
      ]
  consumer_step-IsConsistent s (reading left) e v =
      let due : pops_due s.consumer ≡ 0 = rw e refl in ground arith

  -- Whoever moves, the index stays within the stack, and the items on it are those announced on
  -- the semaphore 1, those whose announcement is due, and the one that the consumer has claimed.
  step-IsConsistent :
      (s : System) (a : Move) → IsConsistent max_size s → IsConsistent max_size (step max_size s a)
  unfolding step
  step-IsConsistent s (produce place random) v =
      let h = producers_step_counts s.producers place random s.memory v.bounded in
      record { bounded = h.1; counted = omega (arith, v.counted) }
  step-IsConsistent s consume v = consumer_step-IsConsistent s s.consumer refl v

  run-IsConsistent :
      (s : System) (moves : List Move)
      → IsConsistent max_size s
      → IsConsistent max_size (run max_size s moves)
  unfolding run
  run-IsConsistent s [] v = v
  run-IsConsistent s (a ∷ rest) v =
      run-IsConsistent (step max_size s a) rest (step-IsConsistent s a v)

posts_due-fork_all : (n pid items : ℕ) → posts_due (fork_all n pid items) ≡ 0
unfolding posts_due fork_all
posts_due-fork_all zero pid items = refl
posts_due-fork_all (suc n) pid items = posts_due-fork_all n (suc pid) items

start-IsConsistent : (n items pid : ℕ) → IsConsistent n (start n items pid)
unfolding start pops_due
start-IsConsistent n items pid = record {
  bounded = omega arith;
  counted = omega (arith, posts_due-fork_all n pid items);
}

-- The loop in `pop` never turns: in every schedule from the start, whenever the consumer is about
-- to pop there is an item on the stack, and the pop succeeds at the first attempt.
pub pop_finds_item :
    (n items pid : ℕ) (moves : List Move) (left : ℕ)
    → let s = run n (start n items pid) moves in
      s.consumer ≡ popping left → s.memory.shared_index ≢ 0 × take_top s.memory ≢ none
unfolding pops_due take_top
pop_finds_item n items pid moves left e =
    let s = run n (start n items pid) moves in
    let v = run-IsConsistent n (start n items pid) moves (start-IsConsistent n items pid) in
    let due : pops_due s.consumer ≡ 1 = rw e refl in ground arith
