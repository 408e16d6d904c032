-- ===== src/Emergency/Lending.antt =====
-- The loop of `main` in hw13/broker.c, over the frames that its socket gives, which the code takes two
-- by two. Behind a grant it takes the next two there and then, whoever sent them.
use nsysu_network_applicatio.Prelude.{
  Bool, ◌&&◌, Bytes, List, [], ◌∷◌, ◌++◌, take, drop, Run, ok, ◌>>=◌, if◌then◌else◌,
}
use nsysu_network_applicatio.Prelude.Int.{ℤ, pos, leb_ℤ, ◌+ℤ◌, ◌-ℤ◌}
use nsysu_network_applicatio.Broker.{int_of}
use nsysu_network_applicatio.TaskSystem.{int_bytes}
use nsysu_network_applicatio.Emergency.Worker.{copy}

-- `struct Task`
pub record Task : Type 0 where
  pub truck : ℤ
  pub people : ℤ
  pub insurance : ℤ

-- the constants of the three totals
unfoldable pub total : Task
total = record { truck = pos 5; people = pos 12; insurance = pos 1000 }

-- where the loop stands: at its first receive, or at the one behind a grant
pub data Phase : Type 0 where
  listening : Phase
  granted : Phase

pub record Broker : Type 0 where
  pub curr : Task
  pub phase : Phase

unfoldable pub start : Broker
unfolding total
start = record { curr = total; phase = listening }

-- the three ints of a task
unfoldable pub task_of : Bytes → Task
task_of bytes = record {
  truck = int_of (take 4 bytes);
  people = int_of (take 4 (drop 4 bytes));
  insurance = int_of (take 4 (drop 8 bytes));
}

-- Both `memcpy`, of the identifier and of the task.
unfoldable pub received : Bytes → Bytes → Run Task
unfolding task_of
received id_frame req_frame = do
  worker_id ← copy 4 id_frame
  task ← copy 12 req_frame
  ok (task_of task)

unfoldable pub fits : Task → Task → Bool
fits task room =
    leb_ℤ task.truck room.truck
    && leb_ℤ task.people room.people
    && leb_ℤ task.insurance room.insurance

unfoldable pub take_out : Task → Task → Task
take_out room task = record {
  truck = room.truck -ℤ task.truck;
  people = room.people -ℤ task.people;
  insurance = room.insurance -ℤ task.insurance;
}

unfoldable pub put_back : Task → Task → Task
put_back room task = record {
  truck = room.truck +ℤ task.truck;
  people = room.people +ℤ task.people;
  insurance = room.insurance +ℤ task.insurance;
}

-- A task that was received, with the frames that are handed to `zmq_msg_send`: a permission of 1 or
-- of 0, or none at all. No identity is sent before them, without which the socket delivers to nobody.
unfoldable pub serve : Broker → Task → Phase → Broker × List Bytes
unfolding fits take_out put_back total int_bytes
serve b task listening =
    if fits task total
    then if fits task b.curr
      then (record { curr = take_out b.curr task; phase = granted }, int_bytes (pos 1) ∷ [])
      else (b, [])
    else (b, int_bytes (pos 0) ∷ [])
serve b task granted = (record { curr = put_back b.curr task; phase = listening }, [])

-- The loop waits where there is no frame to take.
unfoldable pub run : Broker → List Bytes → Run (Broker × List Bytes)
unfolding received serve
run b [] = ok (b, [])
run b (id_frame ∷ []) = ok (b, [])
run b (id_frame ∷ (req_frame ∷ frames)) = do
  task ← received id_frame req_frame
  let s = serve b task b.phase
  (b', sent) ← run s.0 frames
  ok (b', s.1 ++ sent)
