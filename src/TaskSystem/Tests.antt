-- ===== src/TaskSystem/Tests.antt =====
-- One worker and one task.
use nsysu_network_applicatio.Prelude.{
  ℕ, ◌+◌, ◌==◌, if◌then◌else◌, ◌≡◌, ◌≤◌, refl, codes, Bytes, List, [], ◌∷◌, ◌++◌, some, arith, All,
}
use nsysu_network_applicatio.Prelude.Int.{ℤ, pos, ◌+ℤ◌, ◌-ℤ◌}
use nsysu_network_applicatio.Broker.Stall.{IsReady}
use nsysu_network_applicatio.Queue.Fifo
use nsysu_network_applicatio.Broker.Message.{
  task_text, clip, until_nul, get_task_id, decimal_int, worker_task_id, scan_task, scan_behind,
  strip, scan_int, skip_space, is_space,
}
use nsysu_network_applicatio.Prelude.Decimal.{decimal, read_digits, is_digit}
use nsysu_network_applicatio.Broker.{
  Config, Broker, to_worker, Input, from_worker, is_done, init, run, running, step, on_backend,
  on_frontend, starts_with, add_worker, accept, assign, finish, next_task, record_latency, int_of,
}
use nsysu_network_applicatio.TaskSystem.{
  System, Move, produce, arrive, work, report, moved, arrived, reported_by, read_report, take_out,
  done_message, int_bytes, bytes_of,
}
use nsysu_network_applicatio.TaskSystem.Start.{start}
use nsysu_network_applicatio.TaskSystem.Progress.{
  play, behind, happened, CannotMove, play_finite, play_ends,
}
use nsysu_network_applicatio.TaskSystem.Once.{places, play_once}

abbrev config : Config
config = record { task_count = 1; queue_size = 2 }

abbrev clock : ℕ → ℤ
clock i = pos 0

abbrev readies : List Input
readies = from_worker (pos 1) (codes "READY") (pos 5) clock ∷ []

readies-IsReady : All IsReady readies
unfolding IsReady is_done
readies-IsReady = (refl, tt)

abbrev moves : List Move
moves = produce ∷ arrive (pos 6) ∷ work 0 (pos 9) ∷ report 0 (pos 7) clock ∷ []

play_finite_example : happened config (start config readies) moves ≤ 5
play_finite_example = play_finite config readies readies-IsReady (refl, tt) (omega arith) moves

-- the states in between
abbrev ready_broker : Broker
ready_broker = record init { worker_queue = pos 1 ∷ []; worker_count = 1 }

abbrev task : Bytes
task = codes "TASK 0 : This is message 0"

abbrev idle : System
idle = record { broker = ready_broker; task_sequence = 0; frontend = []; busy = []; backend = [] }

abbrev on_its_way : System
on_its_way = record idle { task_sequence = 1; frontend = (task ++ 0 ∷ []) ∷ [] }

abbrev received_ns : ℕ → ℤ
received_ns i = if i == 0 then pos 6 else pos 0

abbrev at_work : System
at_work = record on_its_way {
  broker = record ready_broker {
    worker_queue = [];
    worker_count = 0;
    broker_receive_ns = received_ns;
  };
  frontend = [];
  busy = to_worker (pos 1) (task ++ 0 ∷ []) ∷ [];
}

abbrev reported : System
reported = record at_work {
  busy = [];
  backend = (pos 1, codes "DONE " ++ (0 ∷ 0 ∷ 0 ∷ 0 ∷ [])) ∷ [];
}

abbrev finished : System
finished = record reported {
  backend = [];
  broker = record ready_broker {
    broker_receive_ns = received_ns;
    processed_task_count = 1;
    total_latency_ns = pos 7;
    latency_sample_count = 1;
  };
}

begins : start config readies ≡ idle
unfolding start run running step on_backend is_done starts_with add_worker init Fifo.push
begins = refl

first_move : moved config idle produce ≡ some on_its_way
unfolding moved task_text decimal_int decimal
first_move = refl

second_move : moved config on_its_way (arrive (pos 6)) ≡ some at_work
unfolding moved arrived running step on_frontend accept assign clip until_nul get_task_id init
    Fifo.pop scan_task scan_behind strip scan_int skip_space is_space read_digits is_digit
second_move = refl

third_move : moved config at_work (work 0 (pos 9)) ≡ some reported
unfolding moved take_out reported_by clip until_nul worker_task_id scan_task scan_behind strip
    scan_int skip_space is_space read_digits is_digit done_message int_bytes bytes_of
third_move = refl

last_move : moved config reported (report 0 (pos 7) clock) ≡ some finished
unfolding moved take_out read_report running step on_backend finish next_task record_latency int_of
    add_worker is_done starts_with init Fifo.push ◌+ℤ◌ ◌-ℤ◌
last_move = refl

plays : play config (start config readies) moves ≡ finished
unfolding play behind
plays = rw (begins, first_move, second_move, third_move, last_move) refl

finished-CannotMove : CannotMove config finished
unfolding CannotMove moved running reported_by take_out init
finished-CannotMove produce = refl
finished-CannotMove (arrive now) = refl
finished-CannotMove (work place local) = refl
finished-CannotMove (report place now send_ns) = refl

play_ends_example :
    (play config (start config readies) moves).broker.processed_task_count
      + (play config (start config readies) moves).broker.dropped_task_count
    ≡ 1
play_ends_example =
    play_ends config readies readies-IsReady (refl, tt) (omega arith) moves (omega arith)
      (rw plays finished-CannotMove)

play_once_example :
    (places 0 (play config (start config readies) (produce ∷ arrive (pos 6) ∷ [])) ≤ 1)
    × (places 0 (
          play config
            (play config (start config readies) (produce ∷ arrive (pos 6) ∷ []))
            (work 0 (pos 9) ∷ []))
        ≤ places 0 (play config (start config readies) (produce ∷ arrive (pos 6) ∷ [])))
play_once_example =
    play_once config (omega arith) readies readies-IsReady (refl, tt) (omega arith) 0
      (produce ∷ arrive (pos 6) ∷ []) (work 0 (pos 9) ∷ [])
