-- ===== src/Broker/Accounting.antt =====
-- What becomes of the tasks the broker reads, over a whole run of its loop.
use nsysu_network_applicatio.Prelude.{
  ◌+◌, ◌≤◌, ◌≡◌, false, inl, inr, List, [], ◌∷◌, length, arith, All, Bool-cases, if◌then◌else◌,
  length-append,
}
use nsysu_network_applicatio.Broker.Invariant.{IsValid, IsNamedInput, step-IsValid, init-IsValid}
use nsysu_network_applicatio.Broker.{Config, Broker, Input, init, step, running, run}
use nsysu_network_applicatio.Broker.Counts.{
  produced, reported, produced_cons, reported_cons, nothing, step_accounts,
}

-- The inputs that the loop reads before its test stops it.
unfoldable pub inputs_read : Config → Broker → List Input → List Input
inputs_read cfg b [] = []
inputs_read cfg b (i ∷ is) =
    let rest = inputs_read cfg (step cfg b i).0 is in if running cfg b then i ∷ rest else []

module _ (cfg : Config) where
  -- The messages for workers, the tasks that wait and the dropped ones at the end of a run are as many
  -- as the tasks that waited or were dropped before and the producers' messages read. The count of processed tasks has grown by the
  -- messages read that report a finished task. The run starts in a valid state and no worker calls
  -- itself -1.
  pub run_accounts :
      (b : Broker) (is : List Input)
      → All IsNamedInput is
      → IsValid cfg b
      → (run cfg b is).0.dropped_task_count
            + (run cfg b is).0.pending_task_count
            + length (run cfg b is).1
          ≡ produced (inputs_read cfg b is) + (b.dropped_task_count + b.pending_task_count)
        × (run cfg b is).0.processed_task_count
          ≡ reported (inputs_read cfg b is) + b.processed_task_count
  unfolding run inputs_read
  run_accounts b [] n v = let e = nothing in ground arith
  run_accounts b (i ∷ is) n v = elim (Bool-cases (running cfg b)) [
    | inl on ↦ rw on (
        let s = step cfg b i in
        let h = run_accounts s.0 is n.1 (step-IsValid cfg b i n.0 v) in
        let k = step_accounts cfg b i v in
        ground (
          arith,
          length-append s.1 (run cfg s.0 is).1,
          produced_cons i (inputs_read cfg s.0 is),
          reported_cons i (inputs_read cfg s.0 is),
        ))
    | inr off ↦ rw off (let e = nothing in ground arith)
  ]

  -- The loop ends: from the start, once as many messages of producers were read as there are tasks,
  -- none waits, and the workers have reported as many tasks as they were sent, the test of the
  -- `while` fails. No worker calls itself -1.
  pub loop_ends :
      (is : List Input)
      → All IsNamedInput is
      → cfg.task_count ≤ produced (inputs_read cfg init is)
      → (run cfg init is).0.pending_task_count ≡ 0
      → length (run cfg init is).1 ≤ reported (inputs_read cfg init is)
      → running cfg (run cfg init is).0 ≡ false
  unfolding running init
  loop_ends is n all none reports =
      let h = run_accounts init is n (init-IsValid cfg) in ground arith
