-- ===== src/Broker/Invariant.antt =====
-- What holds of the broker's variables between two rounds of its loop.
use nsysu_network_applicatio.Prelude.{
  ℕ, ◌+◌, ◌≤◌, ◌≡◌, refl, false, inl, inr, Bytes, List, [], ◌∷◌, ◌++◌, length, arith, ltb, ◌==◌,
  All, Bool-cases, if◌then◌else◌, length-append,
}
use nsysu_network_applicatio.Prelude.Int.{ℤ, pos, negsuc}
use nsysu_network_applicatio.Queue.Fifo
use nsysu_network_applicatio.Broker.Message.{clip, get_task_id}
use nsysu_network_applicatio.Broker.{
  is_neg_one, drop_five, int_of, is_done, Config, Broker, Input, from_producer, from_worker, init,
  assign, accept, on_frontend, next_task, finish, on_backend, step, running, run, add_worker,
  record_latency,
}

abbrev pub IsNamed : ℤ → Type 0
IsNamed v = is_neg_one v ≡ false

pub All-snoc : (xs : List ℤ) (v : ℤ) → All IsNamed xs → IsNamed v → All IsNamed (xs ++ v ∷ [])
All-snoc [] v h n = (n, tt)
All-snoc (x ∷ xs) v h n = (h.0, All-snoc xs v h.1 n)

-- A message of a worker that is not called -1.
abbrev pub IsNamedInput : Input → Type 0
IsNamedInput (from_producer message now) = Unit {0}
IsNamedInput (from_worker w ready now send_ns) = IsNamed w

-- The two counters are the lengths of their queues, no more tasks wait than the limit allows, and
-- what the queues hold is never mistaken for the -1 of an empty one.
pub record IsValid (cfg : Config) (b : Broker) : Type 0 where
  pub workers_counted : b.worker_count ≡ length b.worker_queue
  pub pending_counted : b.pending_task_count ≡ length b.pending_task_queue
  pub pending_bounded : b.pending_task_count ≤ cfg.queue_size
  pub workers_named : All IsNamed b.worker_queue
  pub tasks_named : All IsNamed b.pending_task_queue

module _ (cfg : Config) where
  assign-IsValid :
      (b : Broker) (task : Bytes) (id : ℕ) (ws : List ℤ)
      → b.worker_queue ≡ ws
      → IsValid cfg b
      → IsValid cfg (assign cfg b task id ws).0
  unfolding assign Fifo.push Fifo.pop
  assign-IsValid b task id [] e v = ground (
    arith,
    length-append b.pending_task_queue (pos id ∷ []),
    All-snoc b.pending_task_queue (pos id) v.tasks_named refl,
  )
  assign-IsValid b task id (w ∷ ws) e v =
      let named : All IsNamed (w ∷ ws) = rw e at v.workers_named in ground (arith, named.1)

  accept-IsValid :
      (b : Broker) (task : Bytes) (id now : ℤ)
      → IsValid cfg b
      → IsValid cfg (accept cfg b task id now).0
  unfolding accept
  accept-IsValid b task (negsuc n) now v = ground arith
  accept-IsValid b task (pos n) now v =
      let b1 = record b {
        broker_receive_ns = λ i. if i == n then now else b.broker_receive_ns i;
      } in
      elim (Bool-cases (ltb n cfg.task_count)) [
        | inl inside ↦ rw inside (
            assign-IsValid b1 task n b.worker_queue refl (record {
              workers_counted = v.workers_counted;
              pending_counted = v.pending_counted;
              pending_bounded = v.pending_bounded;
              workers_named = v.workers_named;
              tasks_named = v.tasks_named;
            }))
        | inr outside ↦ rw outside (ground arith)
      ]

  record_latency-IsValid :
      (b : Broker) (done now : ℤ) (send_ns : ℕ → ℤ)
      → IsValid cfg b
      → IsValid cfg (record_latency cfg b done now send_ns)
  unfolding record_latency
  record_latency-IsValid b (negsuc n) now send_ns v = v
  record_latency-IsValid b (pos n) now send_ns v = ground arith

  add_worker-IsValid :
      (b : Broker) (worker : ℤ) → IsNamed worker → IsValid cfg b → IsValid cfg (add_worker b worker)
  unfolding add_worker Fifo.push
  add_worker-IsValid b worker n v = ground (
    arith,
    length-append b.worker_queue (worker ∷ []),
    All-snoc b.worker_queue worker v.workers_named n,
  )

  next_task-IsValid :
      (b : Broker) (worker : ℤ) (ts : List ℤ)
      → IsNamed worker
      → b.pending_task_queue ≡ ts
      → IsValid cfg b
      → IsValid cfg (next_task b worker ts).0
  unfolding next_task Fifo.pop
  next_task-IsValid b worker [] n e v = add_worker-IsValid b worker n v
  next_task-IsValid b worker (t ∷ ts) n e v =
      let named : All IsNamed (t ∷ ts) = rw e at v.tasks_named in ground (arith, named.1)

  finish-IsValid :
      (b : Broker) (worker : ℤ) (ready : Bytes) (now : ℤ) (send_ns : ℕ → ℤ)
      → IsNamed worker
      → IsValid cfg b
      → IsValid cfg (finish cfg b worker ready now send_ns).0
  unfolding finish
  finish-IsValid b worker ready now send_ns n v =
      let b1 = record_latency cfg b (int_of (drop_five ready)) now send_ns in
      let v1 = record_latency-IsValid b (int_of (drop_five ready)) now send_ns v in
      next_task-IsValid (record b1 { processed_task_count = b1.processed_task_count + 1 }) worker
        b1.pending_task_queue n refl
        (record {
          workers_counted = v1.workers_counted;
          pending_counted = v1.pending_counted;
          pending_bounded = v1.pending_bounded;
          workers_named = v1.workers_named;
          tasks_named = v1.tasks_named;
        })

  -- One round of the broker's loop, whatever it reads, keeps the invariant: the two counters are
  -- the lengths of the queues, the waiting tasks are within the limit, and no identifier in a
  -- queue is -1. The one condition is that no worker calls itself -1.
  pub step-IsValid :
      (b : Broker) (i : Input) → IsNamedInput i → IsValid cfg b → IsValid cfg (step cfg b i).0
  unfolding step on_frontend on_backend
  step-IsValid b (from_producer message now) n v =
      accept-IsValid b (clip message) (get_task_id (clip message)) now v
  step-IsValid b (from_worker worker ready now send_ns) n v = elim (Bool-cases (is_done ready)) [
    | inl done ↦ rw done (finish-IsValid b worker ready now send_ns n v)
    | inr fresh ↦ rw fresh (add_worker-IsValid b worker n v)
  ]

  pub run-IsValid :
      (b : Broker) (is : List Input)
      → All IsNamedInput is
      → IsValid cfg b
      → IsValid cfg (run cfg b is).0
  unfolding run
  run-IsValid b [] n v = v
  run-IsValid b (i ∷ is) n v = elim (Bool-cases (running cfg b)) [
    | inl on ↦ rw on (run-IsValid (step cfg b i).0 is n.1 (step-IsValid b i n.0 v))
    | inr off ↦ rw off v
  ]

  pub init-IsValid : IsValid cfg init
  unfolding init
  init-IsValid = ground arith
