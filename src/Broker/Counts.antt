-- ===== src/Broker/Counts.antt =====
-- What one round of the broker's loop does to its numbers.
use nsysu_network_applicatio.Prelude.{
  ℕ, suc, ◌+◌, ◌≤◌, ◌≡◌, refl, inl, inr, Bytes, List, [], ◌∷◌, length, arith, ltb, ◌==◌, All,
  Bool-cases, if◌then◌else◌,
}
use nsysu_network_applicatio.Prelude.Int.{ℤ, pos, negsuc}
use nsysu_network_applicatio.Queue.Fifo
use nsysu_network_applicatio.Broker.Message.{clip, get_task_id}
use nsysu_network_applicatio.Broker.Invariant.{IsValid, IsNamed}
use nsysu_network_applicatio.Broker.{
  drop_five, int_of, is_done, Config, Broker, Input, from_producer, from_worker, assign, accept,
  on_frontend, next_task, finish, on_backend, step, add_worker, record_latency,
}

-- How many messages of a producer a list of inputs has.
unfoldable pub produced : List Input → ℕ
produced [] = 0
produced (from_producer m now ∷ is) = suc (produced is)
produced (from_worker w m now t ∷ is) = produced is

-- How many messages a list of inputs has that report a finished task.
unfoldable pub reported : List Input → ℕ
reported [] = 0
reported (from_producer m now ∷ is) = reported is
reported (from_worker w m now t ∷ is) = if is_done m then suc (reported is) else reported is

pub produced_cons :
    (i : Input) (is : List Input) → produced (i ∷ is) ≡ produced (i ∷ []) + produced is
unfolding produced
produced_cons (from_producer m now) is = ground arith
produced_cons (from_worker w m now t) is = ground arith

pub reported_cons :
    (i : Input) (is : List Input) → reported (i ∷ is) ≡ reported (i ∷ []) + reported is
unfolding reported
reported_cons (from_producer m now) is = ground arith
reported_cons (from_worker w m now t) is = ground arith

add_worker_counts :
    (b : Broker) (worker : ℤ)
    → (add_worker b worker).dropped_task_count ≡ b.dropped_task_count
      × (add_worker b worker).pending_task_count ≡ b.pending_task_count
      × (add_worker b worker).processed_task_count ≡ b.processed_task_count
unfolding add_worker
add_worker_counts b worker = (refl, refl, refl)

pub nothing : produced [] ≡ 0 × reported [] ≡ 0
unfolding produced reported
nothing = (refl, refl)

module _ (cfg : Config) where
  assign_processed :
      (b : Broker) (task : Bytes) (id : ℕ) (ws : List ℤ)
      → (assign cfg b task id ws).0.processed_task_count ≡ b.processed_task_count
  unfolding assign
  assign_processed b task id [] = ground arith
  assign_processed b task id (w ∷ ws) = refl

  accept_processed :
      (b : Broker) (task : Bytes) (id now : ℤ)
      → (accept cfg b task id now).0.processed_task_count ≡ b.processed_task_count
  unfolding accept
  accept_processed b task (negsuc n) now = refl
  accept_processed b task (pos n) now = elim (Bool-cases (ltb n cfg.task_count)) [
    | inl inside ↦ rw inside (
        assign_processed
          (record b { broker_receive_ns = λ i. if i == n then now else b.broker_receive_ns i }) task
          n b.worker_queue)
    | inr outside ↦ rw outside refl
  ]

  assign_accounts :
      (b : Broker) (task : Bytes) (id : ℕ) (ws : List ℤ)
      → All IsNamed ws
      → (assign cfg b task id ws).0.dropped_task_count
          + (assign cfg b task id ws).0.pending_task_count
          + length (assign cfg b task id ws).1
        ≡ suc (b.dropped_task_count + b.pending_task_count)
  unfolding assign Fifo.pop
  assign_accounts b task id [] n = ground arith
  assign_accounts b task id (w ∷ ws) n = rw n.0 (ground arith)

  accept_accounts :
      (b : Broker) (task : Bytes) (id now : ℤ)
      → IsValid cfg b
      → (accept cfg b task id now).0.dropped_task_count
          + (accept cfg b task id now).0.pending_task_count
          + length (accept cfg b task id now).1
        ≡ suc (b.dropped_task_count + b.pending_task_count)
  unfolding accept
  accept_accounts b task (negsuc n) now v = ground arith
  accept_accounts b task (pos n) now v =
      let b1 = record b {
        broker_receive_ns = λ i. if i == n then now else b.broker_receive_ns i;
      } in
      elim (Bool-cases (ltb n cfg.task_count)) [
        | inl inside ↦ rw inside (assign_accounts b1 task n b.worker_queue v.workers_named)
        | inr outside ↦ rw outside (ground arith)
      ]

  pub record_latency_counts :
      (b : Broker) (done now : ℤ) (send_ns : ℕ → ℤ)
      → (record_latency cfg b done now send_ns).dropped_task_count ≡ b.dropped_task_count
        × (record_latency cfg b done now send_ns).pending_task_count ≡ b.pending_task_count
        × (record_latency cfg b done now send_ns).processed_task_count ≡ b.processed_task_count
        × (record_latency cfg b done now send_ns).pending_task_queue ≡ b.pending_task_queue
  unfolding record_latency
  record_latency_counts b (negsuc n) now send_ns = ground arith
  record_latency_counts b (pos n) now send_ns = ground arith

  next_task_accounts :
      (b : Broker) (worker : ℤ) (ts : List ℤ)
      → All IsNamed ts
      → b.pending_task_count ≡ length ts
      → (next_task b worker ts).0.dropped_task_count
            + (next_task b worker ts).0.pending_task_count
            + length (next_task b worker ts).1
          ≡ b.dropped_task_count + b.pending_task_count
        × (next_task b worker ts).0.processed_task_count ≡ b.processed_task_count
  unfolding next_task add_worker Fifo.pop
  next_task_accounts b worker [] n c = ground arith
  next_task_accounts b worker (t ∷ ts) n c = rw n.0 (ground arith)

  finish_accounts :
      (b : Broker) (worker : ℤ) (ready : Bytes) (now : ℤ) (send_ns : ℕ → ℤ)
      → IsValid cfg b
      → (finish cfg b worker ready now send_ns).0.dropped_task_count
            + (finish cfg b worker ready now send_ns).0.pending_task_count
            + length (finish cfg b worker ready now send_ns).1
          ≡ b.dropped_task_count + b.pending_task_count
        × (finish cfg b worker ready now send_ns).0.processed_task_count
          ≡ suc b.processed_task_count
  unfolding finish
  finish_accounts b worker ready now send_ns v =
      let b1 = record_latency cfg b (int_of (drop_five ready)) now send_ns in
      let k = record_latency_counts b (int_of (drop_five ready)) now send_ns in
      let named : All IsNamed b1.pending_task_queue = rw k.3 (v.tasks_named) in
      let counted : b1.pending_task_count ≡ length b1.pending_task_queue =
        rw (k.1, k.3) (v.pending_counted) in
      let h =
        next_task_accounts (record b1 { processed_task_count = b1.processed_task_count + 1 }) worker
          b1.pending_task_queue named counted in
      ground arith

  -- What one round of the loop does to the numbers: a message of a producer is sent to a worker,
  -- waits or is dropped, and a message of a worker that is done counts as processed.
  pub step_accounts :
      (b : Broker) (i : Input)
      → IsValid cfg b
      → (step cfg b i).0.dropped_task_count
            + (step cfg b i).0.pending_task_count
            + length (step cfg b i).1
          ≡ produced (i ∷ []) + (b.dropped_task_count + b.pending_task_count)
        × (step cfg b i).0.processed_task_count ≡ reported (i ∷ []) + b.processed_task_count
  unfolding step on_frontend on_backend produced reported
  step_accounts b (from_producer message now) v =
      let h = accept_accounts b (clip message) (get_task_id (clip message)) now v in
      let k = accept_processed b (clip message) (get_task_id (clip message)) now in ground arith
  step_accounts b (from_worker worker ready now send_ns) v =
      let h = finish_accounts b worker ready now send_ns v in
      let k = add_worker_counts b worker in ground arith

  assign_dropped :
      (b : Broker) (task : Bytes) (id : ℕ) (ws : List ℤ)
      → b.dropped_task_count ≤ (assign cfg b task id ws).0.dropped_task_count
  unfolding assign
  assign_dropped b task id [] = ground arith
  assign_dropped b task id (w ∷ ws) = ground arith

  accept_dropped :
      (b : Broker) (task : Bytes) (id now : ℤ)
      → b.dropped_task_count ≤ (accept cfg b task id now).0.dropped_task_count
  unfolding accept
  accept_dropped b task (negsuc n) now = omega arith
  accept_dropped b task (pos n) now =
      let b1 = record b {
        broker_receive_ns = λ i. if i == n then now else b.broker_receive_ns i;
      } in
      elim (Bool-cases (ltb n cfg.task_count)) [
        | inl inside ↦ rw inside (assign_dropped b1 task n b.worker_queue)
        | inr outside ↦ rw outside (omega arith)
      ]

  next_task_dropped :
      (b : Broker) (worker : ℤ) (ts : List ℤ)
      → b.dropped_task_count ≤ (next_task b worker ts).0.dropped_task_count
  unfolding next_task add_worker
  next_task_dropped b worker [] = ground arith
  next_task_dropped b worker (t ∷ ts) = ground arith

  -- A round of the loop takes back no drop.
  pub step_dropped :
      (b : Broker) (i : Input) → b.dropped_task_count ≤ (step cfg b i).0.dropped_task_count
  unfolding step on_frontend on_backend finish
  step_dropped b (from_producer message now) =
      accept_dropped b (clip message) (get_task_id (clip message)) now
  step_dropped b (from_worker worker ready now send_ns) = elim (Bool-cases (is_done ready)) [
    | inl done ↦
        let b1 = record_latency cfg b (int_of (drop_five ready)) now send_ns in
        let k = record_latency_counts b (int_of (drop_five ready)) now send_ns in
        let h =
          next_task_dropped (record b1 { processed_task_count = b1.processed_task_count + 1 })
            worker b1.pending_task_queue in
        rw done (omega (arith, h, k.0))
    | inr fresh ↦ rw fresh (omega (arith, add_worker_counts b worker))
  ]
