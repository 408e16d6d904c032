-- ===== src/Emergency/Worker.antt =====
-- The child of `main` in hw13/worker.c: it takes tasks from the dispatcher and asks the broker for what
-- they need. A task is 12 bytes, an int is 4, and a frame that was sent is empty.
pub mod Enlisted
pub mod Request
use nsysu_network_applicatio.Prelude.{
  ℕ, zero, suc, Bool, false, not, ◌||◌, Bytes, codes, List, [], ◌∷◌, ◌++◌, Run, ok, fault, ◌>>=◌,
  out_of_bounds, ◌==◌, if◌then◌else◌,
}
use nsysu_network_applicatio.Prelude.Int.{pos}
use nsysu_network_applicatio.TaskSystem.{int_bytes}

-- `memcpy` of so many bytes out of a frame
unfoldable pub copy : ℕ → Bytes → Run Bytes
copy zero frame = ok []
copy (suc n) [] = fault out_of_bounds
copy (suc n) (b ∷ frame) = do rest ← copy n frame; ok (b ∷ rest)

-- What a worker sends: a frame to the dispatcher, or two to the broker, for which its socket adds more.
pub data Sent : Type 0 where
  to_dispatcher : Bytes → Sent
  to_broker : (id_frame : Bytes) (request : Bytes) → Sent

-- what it receives in a round: the task, and the answer of the broker
pub record Round : Type 0 where
  pub event : Bytes
  pub reply : Bytes

-- ZMQ_IDENTITY of both sockets
unfoldable pub identity : ℕ → Bytes
unfolding int_bytes
identity i = int_bytes (pos i)

-- `if(permission)`, on the bytes of the int
unfoldable pub is_set : Bytes → Bool
is_set [] = false
is_set (b ∷ bs) = not (b == 0) || is_set bs

-- With a permission, the two messages that hold the identity and the request are sent once more: the
-- first was sent, and the second holds the answer by now.
unfoldable pub release : Bytes → Bytes → List Sent
unfolding is_set
release permission reply = if is_set permission then to_broker [] reply ∷ [] else []

-- The request for a task. In it `workerID` is the message, of which `header` are the bytes.
unfoldable pub request : Bytes → Bytes → Run Sent
unfolding copy
request header event = do task ← copy 12 event; ok (to_broker header task)

-- A round of the loop, from the frames that the worker receives in it.
unfoldable pub round : Bytes → Round → Run (List Sent)
unfolding copy release request
round header r = do
  asked ← request header r.event
  permission ← copy 4 r.reply
  ok (asked ∷ (release permission r.reply ++ to_dispatcher (codes "DONE" ++ 0 ∷ []) ∷ []))

unfoldable pub rounds : Bytes → List Round → Run (List Sent)
unfolding round
rounds header [] = ok []
rounds header (r ∷ rs) = do sent ← round header r; others ← rounds header rs; ok (sent ++ others)

-- From the start on, READY first.
unfoldable pub work : Bytes → List Round → Run (List Sent)
unfolding rounds
work header rs = do sent ← rounds header rs; ok (to_dispatcher (codes "READY" ++ 0 ∷ []) ∷ sent)
