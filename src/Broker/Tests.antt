-- ===== src/Broker/Tests.antt =====
-- The broker's theorems on runs with one worker and one task.
use nsysu_network_applicatio.Prelude.{
  ◌≤◌, map, ◌+◌, ◌≡◌, refl, true, false, codes, List, [], ◌∷◌, ◌++◌, length, ok, arith,
}
use nsysu_network_applicatio.Prelude.Int.{pos}
use nsysu_network_applicatio.Queue.Fifo
use nsysu_network_applicatio.Broker.Message.{task_text, clip, get_task_id, worker_task_id}
use nsysu_network_applicatio.Broker.Message.RoundTrip.{task_id_survives}
use nsysu_network_applicatio.Broker.{
  Config, Input, from_producer, from_worker, init, step, running, run, on_frontend, on_backend,
  accept, assign, finish, next_task, add_worker, is_done, record_latency, int_of,
}
use nsysu_network_applicatio.Broker.Invariant.{IsValid, step-IsValid, init-IsValid}
use nsysu_network_applicatio.Broker.Counts.{produced, reported}
use nsysu_network_applicatio.Broker.Accounting.{inputs_read, loop_ends}
use nsysu_network_applicatio.Broker.Identity.{occurs, carried, ids_of, run_conserves}
use nsysu_network_applicatio.Broker.Stall.{IsTask, IsReady, ready_workers_idle}

abbrev one_task : Config
one_task = record { task_count = 1; queue_size = 2 }

abbrev task_zero : Input
task_zero = from_producer (codes "TASK 0 : This is message 0") (pos 4)

abbrev ready : Input
ready = from_worker (pos 0) (codes "READY") (pos 3) (λ i. pos 0)

abbrev done : Input
done = from_worker (pos 0) (codes "DONE " ++ 0 ∷ 0 ∷ 0 ∷ 0 ∷ []) (pos 9) (λ i. pos 1)

abbrev inputs : List Input
inputs = ready ∷ task_zero ∷ done ∷ []

step-IsValid_example : IsValid one_task (step one_task init task_zero).0
step-IsValid_example = step-IsValid one_task init task_zero tt (init-IsValid one_task)

run_conserves_example :
    (occurs 0 (map carried (run one_task init inputs).1)
        + occurs 0 (run one_task init inputs).0.pending_task_queue
      ≤ occurs 0 init.pending_task_queue + occurs 0 (ids_of (inputs_read one_task init inputs)))
    × ((run one_task init inputs).0.dropped_task_count
          + (run one_task init inputs).0.pending_task_count
          + length (run one_task init inputs).1
        ≡ produced (inputs_read one_task init inputs)
          + (init.dropped_task_count + init.pending_task_count))
    × ((run one_task init inputs).0.processed_task_count
        ≡ reported (inputs_read one_task init inputs) + init.processed_task_count)
unfolding init
run_conserves_example =
    run_conserves one_task (omega arith) 0 init inputs (refl, (tt, (refl, tt)))
      (init-IsValid one_task) tt

loop_ends_example : running one_task (run one_task init inputs).0 ≡ false
unfolding init running run step on_frontend on_backend accept assign finish next_task add_worker
    is_done record_latency int_of inputs_read produced reported Fifo.push Fifo.pop clip get_task_id
loop_ends_example =
    loop_ends one_task inputs (refl, (tt, (refl, tt))) (omega arith) refl (omega arith)

ready_workers_idle_example :
    (run one_task init (task_zero ∷ ready ∷ [])).1 ≡ []
    × (run one_task init (task_zero ∷ ready ∷ [])).0.pending_task_count ≡ length (task_zero ∷ [])
    × running one_task (run one_task init (task_zero ∷ ready ∷ [])).0 ≡ true
unfolding IsTask IsReady clip is_done get_task_id
ready_workers_idle_example =
    ready_workers_idle one_task (task_zero ∷ []) (ready ∷ []) ((0, refl, refl), tt) (refl, tt)
      (omega arith) (omega arith)

task_id_survives_example :
    get_task_id (clip (task_text (pos 1234) ++ 0 ∷ 7 ∷ [])) ≡ pos 1234
    × worker_task_id (clip (task_text (pos 1234) ++ 0 ∷ 7 ∷ [])) ≡ ok (pos 1234)
task_id_survives_example = task_id_survives 1234 (7 ∷ []) (omega arith)
