-- ===== src/Emergency/Worker/Request.antt =====
-- What the broker makes of the request of a worker. ZeroMQ frames it on its way, which is a parameter.
use nsysu_network_applicatio.Prelude.{
  ℕ, zero, suc, ◌≤◌, ◌≡◌, refl, Bytes, List, [], ◌∷◌, ◌++◌, length, take, ok, fault, out_of_bounds,
  arith,
}
use nsysu_network_applicatio.Emergency.Lending.{Broker, received, run}
use nsysu_network_applicatio.Emergency.Worker.{
  Sent, to_dispatcher, to_broker, copy, identity, request,
}

-- What a ROUTER socket gives for a message of a REQ socket, by the identity of that socket: as ZeroMQ
-- documents it, the identity, the empty frame that REQ puts in front, and the frames of the message.
pub record IsFraming (framed : Bytes → List Bytes → List Bytes) : Type 0 where
  pub delimited : (id : Bytes) (frames : List Bytes) → framed id frames ≡ id ∷ [] ∷ frames

module _ (framed : Bytes → List Bytes → List Bytes) where
  -- the frames that the broker's socket gives for what a worker sent
  unfoldable pub arriving : Bytes → Sent → List Bytes
  arriving id (to_dispatcher event) = []
  arriving id (to_broker id_frame req) = framed id (id_frame ∷ req ∷ [])

copy_all : (n : ℕ) (frame : Bytes) → n ≤ length frame → copy n frame ≡ ok (take n frame)
unfolding copy
copy_all zero frame h = refl
copy_all (suc n) [] h = absurd (omega arith)
copy_all (suc n) (x ∷ frame) h = rw (copy_all n frame (omega arith)) refl

-- The broker takes the identity of the worker's socket and the empty frame for its two frames.
run_misframed :
    (i : ℕ) (b : Broker) (frames : List Bytes)
    → run b (identity i ∷ [] ∷ frames) ≡ fault out_of_bounds
unfolding run received copy identity
run_misframed i b frames = refl

-- Any task of twelve bytes or more makes a worker ask the broker for what it needs, and the request
-- makes the broker copy twelve bytes out of an empty frame: it reads behind that frame, in whatever
-- state it stands and whatever follows the request. ZeroMQ frames the request as it documents.
pub run-request :
    (framed : Bytes → List Bytes → List Bytes)
    → IsFraming framed
    → (i : ℕ) (b : Broker) (header event : Bytes) (later : List Bytes) → 12 ≤ length event
    → (asked : Sent) × (request header event ≡ ok asked)
      × (run b (arriving framed (identity i) asked ++ later) ≡ fault out_of_bounds)
unfolding request arriving
run-request framed f i b header event later h = (
  to_broker header (take 12 event),
  rw (copy_all 12 event h) refl,
  rw (f.delimited (identity i) (header ∷ take 12 event ∷ []))
      (run_misframed i b (header ∷ take 12 event ∷ later)),
)
