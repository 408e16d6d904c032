-- ===== src/SharedStack/Single.antt =====
-- A single producer, where the stack has room for nothing.
use nsysu_network_applicatio.Prelude.{ℕ, zero, suc, ◌≡◌, refl, ap, List, [], ◌∷◌, arith}
use nsysu_network_applicatio.SharedStack.{
  push, pushing, waiting, System, Move, produce, consume, producer_step, producers_step,
  consumer_step, step, run, fork_all, start,
}

-- nothing was pushed and nothing announced
pub record IsStuck (items pid : ℕ) (s : System) : Type 0 where
  pub empty : s.memory.shared_index ≡ 0
  pub nothing_full : s.full_count ≡ 0
  pub producer_waits : s.producers ≡ pushing pid items ∷ []
  pub consumer_waits : s.consumer ≡ waiting items
  pub no_sum : s.sum ≡ 0

step-IsStuck :
    (items pid : ℕ) (s : System) (a : Move) → IsStuck items pid s → IsStuck items pid (step 1 s a)
unfolding step producers_step producer_step push consumer_step
step-IsStuck zero pid s consume v = simp v.consumer_waits v
step-IsStuck (suc items) pid s consume v = simp (v.consumer_waits, v.nothing_full) v
step-IsStuck zero pid s (produce zero random) v = rw v.producer_waits (record {
  empty = v.empty;
  nothing_full = omega (arith, v.nothing_full);
  producer_waits = refl;
  consumer_waits = v.consumer_waits;
  no_sum = v.no_sum;
})
step-IsStuck (suc items) pid s (produce zero random) v =
    rw (v.producer_waits, v.empty)
      (record {
        empty = refl;
        nothing_full = omega (arith, v.nothing_full);
        producer_waits = refl;
        consumer_waits = v.consumer_waits;
        no_sum = v.no_sum;
      })
step-IsStuck items pid s (produce (suc place) random) v = rw v.producer_waits (record {
  empty = v.empty;
  nothing_full = omega (arith, v.nothing_full);
  producer_waits = refl;
  consumer_waits = v.consumer_waits;
  no_sum = v.no_sum;
})

run-IsStuck :
    (items pid : ℕ) (s : System) (moves : List Move)
    → IsStuck items pid s
    → IsStuck items pid (run 1 s moves)
unfolding run
run-IsStuck items pid s [] v = v
run-IsStuck items pid s (a ∷ rest) v =
    run-IsStuck items pid (step 1 s a) rest (step-IsStuck items pid s a v)

-- With one producer the program never gets anywhere: the stack counts as full while it is empty,
-- so that in every schedule from the start nothing is ever pushed, and producer and consumer have
-- as many rounds to go as at the start.
pub single_producer-IsStuck :
    (items pid : ℕ) (moves : List Move) → IsStuck items pid (run 1 (start 1 items pid) moves)
unfolding start fork_all
single_producer-IsStuck items pid moves = run-IsStuck items pid (start 1 items pid) moves (record {
  empty = refl;
  nothing_full = refl;
  producer_waits = refl;
  consumer_waits = ap waiting (omega arith);
  no_sum = refl;
})
