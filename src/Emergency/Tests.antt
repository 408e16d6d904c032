-- ===== src/Emergency/Tests.antt =====
-- The theorems of hw13 on a worker and two tasks.
use nsysu_network_applicatio.Prelude.{
  ◌≡◌, refl, Bytes, codes, List, [], ◌∷◌, ◌++◌, replicate, ok, fault, out_of_bounds, arith,
}
use nsysu_network_applicatio.Prelude.Int.{pos}
use nsysu_network_applicatio.Emergency.Lending
use nsysu_network_applicatio.Emergency.Lending.{Task, start}
use nsysu_network_applicatio.Emergency.Worker.Request.{arriving, run-request}
use nsysu_network_applicatio.Emergency.Dispatcher.{Input, from_worker, typed, atoi, buffered}
use nsysu_network_applicatio.Emergency.Dispatcher
use nsysu_network_applicatio.Emergency.Worker.{
  Sent, to_dispatcher, to_broker, Round, identity, request, work,
}
use nsysu_network_applicatio.Emergency.Worker.Enlisted.{heard, heard-work}
use nsysu_network_applicatio.Emergency.Dispatcher.Inverted.{by_count, run_lem}

abbrev small : Task
small = record { truck = pos 2; people = pos 3; insurance = pos 100 }

abbrev unwritten : Bytes
unwritten = replicate 8 9

abbrev inputs : List Input
inputs =
    from_worker (codes "3") (codes "READY") ∷ typed small unwritten ∷ typed small unwritten ∷ []

run_lem_example : Dispatcher.run [] inputs ≡ by_count 0 inputs
unfolding buffered atoi
run_lem_example = run_lem [] inputs tt (refl, (tt, (tt, tt)))

abbrev refused : Round
refused = record { event = codes "truck people"; reply = replicate 4 0 }

abbrev permitted : Round
permitted = record { event = codes "TRUCK PEOPLE"; reply = 1 ∷ replicate 3 0 }

abbrev header : Bytes
header = replicate 64 7

abbrev sent : List Sent
sent =
    to_dispatcher (codes "READY" ++ 0 ∷ [])
    ∷ to_broker header (codes "truck people")
    ∷ to_dispatcher (codes "DONE" ++ 0 ∷ [])
    ∷ to_broker header (codes "TRUCK PEOPLE")
    ∷ to_broker [] (1 ∷ replicate 3 0)
    ∷ to_dispatcher (codes "DONE" ++ 0 ∷ [])
    ∷ []

work_runs : work header (refused ∷ permitted ∷ []) ≡ ok sent
unfolding work
work_runs = refl

heard-work_example : heard (identity 3) [] sent ≡ pos 0 ∷ []
heard-work_example = heard-work 3 [] header (refused ∷ permitted ∷ []) (omega arith) work_runs

abbrev framed : Bytes → List Bytes → List Bytes
framed id frames = id ∷ [] ∷ frames

run-request_example :
    (asked : Sent) × (request header (codes "TRUCK PEOPLE") ≡ ok asked)
    × (Lending.run start (arriving framed (identity 3) asked ++ []) ≡ fault out_of_bounds)
run-request_example =
    run-request framed (record { delimited = λ id frames. refl }) 3 start header
      (codes "TRUCK PEOPLE") [] (omega arith)
