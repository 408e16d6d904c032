-- ===== src/Queue/Refine.antt =====
-- On a well-formed heap `Enqueue` and `Dequeue` do what the first-in first-out list does.
use nsysu_network_applicatio.Prelude.{
  ◌≡◌, ◌≢◌, refl, sym, ap, ◌∙◌, none, some, List, [], ◌∷◌, ◌++◌, ok, arith,
}
use nsysu_network_applicatio.Prelude.Int.{ℤ}
use nsysu_network_applicatio.Queue.{Ptr, node, Heap, write, Queue, enqueue, dequeue}
use nsysu_network_applicatio.Queue.Fifo
use nsysu_network_applicatio.Queue.Linked.{
  Cells, values, last_addr, last_value, IsQueue, frame, not_has_of_none, last-ne-zero, load_last,
  extend,
}

-- A run that ends with a queue of the identifiers `xs`.
abbrev pub Holds : Heap → Queue → List ℤ → Type 0
Holds h q xs = (cs : Cells) × IsQueue h q cs × (values cs ≡ xs)

values-snoc : (cs : Cells) (p : Ptr) (v : ℤ) → values (cs ++ (p, v) ∷ []) ≡ values cs ++ v ∷ []
values-snoc [] p v = refl
values-snoc ((a, w) ∷ cs) p v = ap (λ l. w ∷ l) (values-snoc cs p v)

last-snoc : (d : Ptr) (cs : Cells) (p : Ptr) (v : ℤ) → last_addr d (cs ++ (p, v) ∷ []) ≡ p
last-snoc d [] p v = refl
last-snoc d ((a, w) ∷ cs) p v = last-snoc a cs p v

-- With memory for the node, `Enqueue` returns without a fault, and the queue then holds the old
-- identifiers and the new one behind them.
pub enqueue_refines :
    (fresh : Ptr) (h : Heap) (q : Queue) (w : ℤ) (xs : List ℤ)
    → fresh ≢ 0
    → h fresh ≡ none
    → Holds h q xs
    → (h' : Heap) × (q' : Queue) × (enqueue fresh h q w ≡ ok (h', q'))
      × Holds h' q' (Fifo.push xs w)
unfolding enqueue Fifo.push
enqueue_refines fresh h q w xs ne new ([], i, e) = (
  write h fresh (some (node w 0)),
  record { head = fresh; tail = fresh },
  ground arith,
  ((fresh, w) ∷ [], record { first = refl; last = refl; chain = ground arith }, ground arith),
)
enqueue_refines fresh h q w xs ne new ((p, v) ∷ cs, i, e) =
    let h1 = write h fresh (some (node w 0)) in
    let out = not_has_of_none h fresh ((p, v) ∷ cs) new i.chain in
    let l1 = frame h fresh (some (node w 0)) ((p, v) ∷ cs) out i.chain in
    (
      write h1 (last_addr p cs) (some (node (last_value v cs) fresh)),
      record q { tail = fresh },
      ground (arith, i.last, last-ne-zero h p v cs i.chain, load_last h1 p v cs l1),
      (
        (p, v) ∷ cs ++ (fresh, w) ∷ [],
        record {
          first = i.first;
          last = sym (last-snoc p cs fresh w);
          chain = extend h1 fresh w p v cs ne (ground arith) out l1;
        },
        values-snoc ((p, v) ∷ cs) fresh w ∙ ap (λ l. l ++ w ∷ []) e,
      ),
    )

dequeue_cells :
    (h : Heap) (q : Queue) (cs : Cells)
    → IsQueue h q cs
    → (h' : Heap) × (q' : Queue) × (dequeue h q ≡ ok ((Fifo.pop (values cs)).0, h', q'))
      × Holds h' q' (Fifo.pop (values cs)).1
unfolding dequeue Fifo.pop
dequeue_cells h q [] i = (h, q, ground (arith, i.first), ([], i, refl))
dequeue_cells h q ((p, v) ∷ []) i = (
  write h p none,
  record { head = 0; tail = 0 },
  ground (arith, i.first, i.chain),
  ([], record { first = refl; last = refl; chain = tt }, refl),
)
dequeue_cells h q ((p, v) ∷ (a, u) ∷ cs) i = (
  write h p none,
  record { head = a; tail = q.tail },
  ground (arith, i.first, i.chain.0, i.chain.1, i.chain.3.1),
  (
    (a, u) ∷ cs,
    record {
      first = refl;
      last = i.last;
      chain = frame h p none ((a, u) ∷ cs) i.chain.2 i.chain.3;
    },
    refl,
  ),
)

-- `Dequeue` returns without a fault: -1 from an empty queue, which it leaves as it is, and else
-- the identifier at the front, which it removes.
pub dequeue_refines :
    (h : Heap) (q : Queue) (xs : List ℤ)
    → Holds h q xs
    → (h' : Heap) × (q' : Queue) × (dequeue h q ≡ ok ((Fifo.pop xs).0, h', q'))
      × Holds h' q' (Fifo.pop xs).1
dequeue_refines h q xs (cs, i, e) = rw (← e) (dequeue_cells h q cs i)
