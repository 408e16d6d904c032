-- ===== src/SequenceServer/Clients.antt =====
-- hw10/ex44_6/client.c and hw10/ex46_2/client.c, and what the servers tell them.
use nsysu_network_applicatio.Prelude.{
  ℕ, ◌+◌, ◌≡◌, refl, ap, Bool, true, ◌&&◌, List, [], ◌∷◌, map, Option, none, some, ltb, leb,
  if◌then◌else◌, arith, inl, inr, Bool-cases,
}
use nsysu_network_applicatio.SequenceServer.{
  Response, Opening, opened, no_reader, reached, FifoInput, request, fifo_step, fifo_run,
  QueueInput, message, queue_step, queue_run,
}

-- A client: its argument, the number that it draws, and how many attempts of the server come before it
-- opens its FIFO.
pub record Client : Type 0 where
  pub pid : ℕ
  pub argument : Option ℕ
  pub rand_num : ℕ
  pub late : ℕ

unfoldable pub length_of : Option ℕ → ℕ
length_of none = 1
length_of (some n) = n

-- A client that draws 3 or less never opens its FIFO.
unfoldable pub opening : Client → ℕ → Opening
opening c attempt = if ltb 3 c.rand_num && leb c.late attempt then opened else no_reader

-- the request, with what the server's two attempts come to
unfoldable pub request_of : Client → FifoInput
unfolding opening length_of
request_of c = request c.pid (length_of c.argument) (opening c 0) (opening c 1) true

-- what a client displays: the number of the response
unfoldable pub displayed : List Response → List (ℕ × ℕ)
displayed rs = map (λ r. (r.client, r.seq_num)) rs

-- the message of the other client, which always waits for its response
unfoldable pub message_of : Client → QueueInput
unfolding length_of
message_of c = message c.pid (length_of c.argument) true

-- whether the server reaches a client
unfoldable pub is_served : Client → Bool
is_served c = ltb 3 c.rand_num && leb c.late 1

-- The numbers that the clients are told: each the one behind the ranges of those served before it.
unfoldable pub told : (Client → Bool) → ℕ → List Client → List (ℕ × ℕ)
told served next [] = []
told served next (c ∷ cs) =
    if served c
    then (c.pid, next) ∷ told served (next + length_of c.argument) cs
    else told served next cs

reached-opening : (c : Client) → reached (opening c 0) (opening c 1) ≡ is_served c
unfolding reached opening is_served
reached-opening c = ground arith

-- The clients of the FIFO server display consecutive ranges, in the order in which their requests are
-- read; a client that does not open its FIFO before the second attempt takes no number.
pub fifo_run-told :
    (next : ℕ) (cs : List Client)
    → displayed (fifo_run next (map request_of cs)).1 ≡ told is_served next cs
unfolding fifo_run fifo_step displayed told request_of
fifo_run-told next [] = refl
fifo_run-told next (c ∷ cs) = elim (Bool-cases (is_served c)) [
  | inl served ↦
      rw (reached-opening c, served)
        (ap (λ l. (c.pid, next) ∷ l) (fifo_run-told (next + length_of c.argument) cs))
  | inr missed ↦ rw (reached-opening c, missed) (fifo_run-told next cs)
]

-- The clients of the message queue server are all served.
pub queue_run-told :
    (next : ℕ) (cs : List Client)
    → displayed (queue_run next (map message_of cs)).1 ≡ told (λ c. true) next cs
unfolding queue_run queue_step displayed told message_of
queue_run-told next [] = refl
queue_run-told next (c ∷ cs) =
    ap (λ l. (c.pid, next) ∷ l) (queue_run-told (next + length_of c.argument) cs)
