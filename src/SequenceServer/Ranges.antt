-- ===== src/SequenceServer/Ranges.antt =====
-- The ranges that a server gives out do not overlap.
use nsysu_network_applicatio.Prelude.{ℕ, ◌+◌, ◌≤◌, List, [], ◌∷◌, arith, Bool-cases, inl, inr}
use nsysu_network_applicatio.SequenceServer.{
  Response, reached, FifoInput, bad_read, request, fifo_step, fifo_run, QueueInput, bad_receive,
  message, queue_step, queue_run,
}

-- Between `low` and `high` the responses have ranges one behind the other.
unfoldable pub AreApart : ℕ → List Response → ℕ → Type 0
AreApart low [] high = low ≤ high
AreApart low (r ∷ rs) high = (low ≤ r.seq_num) × AreApart (r.seq_num + r.seq_len) rs high

AreApart-weaken :
    (low low' high : ℕ) (rs : List Response)
    → low ≤ low'
    → AreApart low' rs high
    → AreApart low rs high
unfolding AreApart
AreApart-weaken low low' high [] h a = omega arith
AreApart-weaken low low' high (r ∷ rs) h a = (omega (arith, a.0), a.1)

-- Over any run of the FIFO server, whatever fails, the ranges written to the clients lie one behind
-- the other, from the number at the start to the one at the end: no number goes to two of them.
pub fifo_run-AreApart :
    (seq_num : ℕ) (inputs : List FifoInput)
    → AreApart seq_num (fifo_run seq_num inputs).1 (fifo_run seq_num inputs).0
unfolding fifo_run fifo_step AreApart
fifo_run-AreApart seq_num [] = omega arith
fifo_run-AreApart seq_num (bad_read ∷ rest) = fifo_run-AreApart seq_num rest
fifo_run-AreApart seq_num (request pid seq_len first second written ∷ rest) =
    elim (Bool-cases (reached first second)) [
      | inr lost ↦ rw lost (fifo_run-AreApart seq_num rest)
      | inl found ↦ elim (Bool-cases written) [
        | inl whole ↦ rw (found, whole) (omega arith, fifo_run-AreApart (seq_num + seq_len) rest)
        | inr broken ↦
            rw (found, broken)
              (AreApart-weaken seq_num (seq_num + seq_len) (fifo_run (seq_num + seq_len) rest).0
                (fifo_run (seq_num + seq_len) rest).1 (omega arith)
                (fifo_run-AreApart (seq_num + seq_len) rest))
      ]
    ]

-- Over any run of the message queue server, whatever fails, the ranges sent to the clients lie one
-- behind the other, from the number at the start to the one at the end: no number goes to two of them.
pub queue_run-AreApart :
    (seq_num : ℕ) (inputs : List QueueInput)
    → AreApart seq_num (queue_run seq_num inputs).1 (queue_run seq_num inputs).0
unfolding queue_run queue_step AreApart
queue_run-AreApart seq_num [] = omega arith
queue_run-AreApart seq_num (bad_receive ∷ rest) = queue_run-AreApart seq_num rest
queue_run-AreApart seq_num (message client_id seq_len sent ∷ rest) = elim (Bool-cases sent) [
  | inl whole ↦ rw whole (omega arith, queue_run-AreApart (seq_num + seq_len) rest)
  | inr broken ↦ rw broken (
      AreApart-weaken seq_num (seq_num + seq_len) (queue_run (seq_num + seq_len) rest).0
        (queue_run (seq_num + seq_len) rest).1 (omega arith)
        (queue_run-AreApart (seq_num + seq_len) rest))
]
