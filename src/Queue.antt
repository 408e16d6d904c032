-- ===== src/Queue.antt =====
-- `Enqueue` and `Dequeue` of hw12/broker.c, of which hw13/broker.c and hw13/dispatcher.c hold
-- copies: a linked list on the heap behind a head and a tail pointer.
pub mod Fifo
pub mod Linked
pub mod Refine
pub mod Tests
use nsysu_network_applicatio.Prelude.{
  ℕ, Bool, true, false, Option, none, some, Run, ok, fault, ◌>>=◌, use_after_free, null_pointer,
  ◌==◌, if◌then◌else◌,
}
use nsysu_network_applicatio.Prelude.Int.{ℤ, negsuc}

-- An address; 0 is NULL.
abbrev pub Ptr : Type 0
Ptr = ℕ

-- `struct Node`
pub data Node : Type 0 where
  node : (worker_id : ℤ) → (next : Ptr) → Node

-- the nodes that are allocated
abbrev pub Heap : Type 0
Heap = Ptr → Option Node

abbrev pub write : Heap → Ptr → Option Node → Heap
write h p c q = if p == q then c else h q

-- the two pointers that a caller keeps
pub record Queue : Type 0 where
  pub head : Ptr
  pub tail : Ptr

abbrev found : Option Node → Run Node
found none = fault use_after_free
found (some n) = ok n

-- `*p`
load : Heap → Ptr → Run Node
load h p = if p == 0 then fault null_pointer else found (h p)

abbrev next_of : Node → Ptr
next_of (node v n) = n

abbrev id_of : Node → ℤ
id_of (node v n) = v

-- `fresh` is what malloc returns; the code does not test it.
pub enqueue : Ptr → Heap → Queue → ℤ → Run (Heap × Queue)
unfolding load
enqueue fresh h q worker_id =
    if fresh == 0
    then fault null_pointer
    else let h' = write h fresh (some (node worker_id 0)) in
      if q.tail == 0 then ok (h', record { head = fresh; tail = fresh }) else do
        n ← load h' q.tail
        ok (write h' q.tail (some (node (id_of n) fresh)), record q { tail = fresh })

pub dequeue : Heap → Queue → Run (ℤ × Heap × Queue)
unfolding load
dequeue h q = if q.head == 0 then ok (negsuc 0, h, q) else do
  n ← load h q.head
  ok (
    id_of n,
    write h q.head none,
    record { head = next_of n; tail = if next_of n == 0 then 0 else q.tail },
  )
