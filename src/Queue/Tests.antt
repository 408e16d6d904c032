-- ===== src/Queue/Tests.antt =====
-- The queue's theorems on a heap with two nodes.
use nsysu_network_applicatio.Prelude.{
  ◌≡◌, refl, none, some, [], ◌∷◌, ok, arith, ◌==◌, if◌then◌else◌,
}
use nsysu_network_applicatio.Prelude.Int.{pos}
use nsysu_network_applicatio.Queue.{node, Heap, Queue, enqueue, dequeue}
use nsysu_network_applicatio.Queue.Fifo
use nsysu_network_applicatio.Queue.Refine.{Holds, enqueue_refines, dequeue_refines}

abbrev two_nodes : Heap
two_nodes p =
    if p == 16 then some (node (pos 5) 32) else if p == 32 then some (node (pos 7) 0) else none

abbrev two_queue : Queue
two_queue = record { head = 16; tail = 32 }

two_held : Holds two_nodes two_queue (pos 5 ∷ pos 7 ∷ [])
two_held = (
  (16, pos 5) ∷ (32, pos 7) ∷ [],
  record { first = refl; last = refl; chain = ground arith },
  refl,
)

enqueue_refines_example :
    (h' : Heap) × (q' : Queue) × (enqueue 48 two_nodes two_queue (pos 9) ≡ ok (h', q'))
    × Holds h' q' (Fifo.push (pos 5 ∷ pos 7 ∷ []) (pos 9))
enqueue_refines_example =
    enqueue_refines 48 two_nodes two_queue (pos 9) (pos 5 ∷ pos 7 ∷ []) (λ e. omega arith) refl
      two_held

dequeue_refines_example :
    (h' : Heap) × (q' : Queue) × (dequeue two_nodes two_queue
      ≡ ok ((Fifo.pop (pos 5 ∷ pos 7 ∷ [])).0, h', q'))
    × Holds h' q' (Fifo.pop (pos 5 ∷ pos 7 ∷ [])).1
dequeue_refines_example = dequeue_refines two_nodes two_queue (pos 5 ∷ pos 7 ∷ []) two_held
