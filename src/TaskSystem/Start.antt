-- ===== src/TaskSystem/Start.antt =====
-- The system behind the messages of the workers that are ready.
use nsysu_network_applicatio.Prelude.{
  ◌*◌, ◌<◌, ◌≡◌, true, inl, List, [], length, arith, All, lt→ltb,
}
use nsysu_network_applicatio.Broker.Invariant.{IsNamedInput, run-IsValid, init-IsValid}
use nsysu_network_applicatio.Broker.Stall.{IsReady, run_ready, run-worker_queue}
use nsysu_network_applicatio.Broker.{Config, Input, init, running, run}
use nsysu_network_applicatio.TaskSystem.{System}
use nsysu_network_applicatio.TaskSystem.Sound.{IsSound, weight}

-- The broker has read what its workers sent first; the producer has not begun.
unfoldable pub start : Config → List Input → System
start cfg readies = record {
  broker = (run cfg init readies).0;
  task_sequence = 0;
  frontend = [];
  busy = [];
  backend = [];
}

module _ (cfg : Config) where
  -- The invariant holds at the start, for the workers that were read.
  pub start-IsSound :
      (readies : List Input)
      → All IsReady readies
      → All IsNamedInput readies
      → 0 < cfg.task_count
      → IsSound cfg (length readies) (start cfg readies)
  unfolding start init running
  start-IsSound readies r n some =
      let on : running cfg init ≡ true = lt→ltb 0 cfg.task_count some in
      let (nothing_sent, waits, done, dropped) = run_ready cfg init readies r in
      let queue = run-worker_queue cfg init readies r on in
      record {
        valid = run-IsValid cfg init readies n (init-IsValid cfg);
        produced_bounded = omega arith;
        tasks_counted = omega (arith, waits, done, dropped);
        workers_counted = omega (arith, queue);
        serving = inl waits;
        busy_named = tt;
        reports = tt;
      }

  pub weight-start :
      (readies : List Input)
      → All IsReady readies
      → weight cfg (start cfg readies) ≡ 5 * cfg.task_count
  unfolding start init weight
  weight-start readies r =
      let (nothing_sent, waits, done, dropped) = run_ready cfg init readies r in
      omega (arith, waits)
