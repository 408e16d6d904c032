-- ===== src/Broker/Flow.antt =====
-- Where the workers are before and behind a round of the broker's loop.
use nsysu_network_applicatio.Prelude.{
  ℕ, ◌+◌, ◌-◌, ◌≡◌, ◌⊎◌, refl, ap, ◌∙◌, true, inl, inr, Bytes, List, [], ◌∷◌, length, arith, ltb,
  ◌==◌, All, Bool-cases, if◌then◌else◌, length-append,
}
use nsysu_network_applicatio.Prelude.Int.{ℤ, pos, negsuc}
use nsysu_network_applicatio.Queue.Fifo
use nsysu_network_applicatio.Broker.Message.{clip, get_task_id}
use nsysu_network_applicatio.Broker.Invariant.{IsValid, IsNamed}
use nsysu_network_applicatio.Broker.{
  drop_five, int_of, is_done, Config, Broker, from_producer, from_worker, Send, to_worker, assign,
  accept, on_frontend, next_task, finish, on_backend, step, add_worker, record_latency,
}

-- no worker is free while a task waits
abbrev pub IsServing : Broker → Type 0
IsServing b = (b.pending_task_count ≡ 0) ⊎ (b.worker_queue ≡ [])

-- the worker that a message goes to is not called -1
unfoldable pub IsSentNamed : Send → Type 0
IsSentNamed (to_worker w task) = IsNamed w

-- From `b`, with `n` workers that come in: those that leave are sent a task, by their names, and none
-- is left free while a task waits.
unfoldable pub Flows : ℕ → Broker → Broker × List Send → Type 0
unfolding IsSentNamed
Flows n b r =
    (length r.0.worker_queue + length r.1 ≡ length b.worker_queue + n)
    × (IsServing b → IsServing r.0)
    × All IsSentNamed r.1

module _ (cfg : Config) where
  assign-Flows :
      (b : Broker) (task : Bytes) (id : ℕ) (ws : List ℤ)
      → b.worker_queue ≡ ws
      → All IsNamed ws
      → Flows 0 b (assign cfg b task id ws)
  unfolding assign Flows Fifo.push Fifo.pop
  assign-Flows b task id [] e n = elim (Bool-cases (ltb b.pending_task_count cfg.queue_size)) [
    | inl room ↦ rw room (omega arith, λ s. inr e, tt)
    | inr full ↦ rw full (omega arith, λ s. inr e, tt)
  ]
  assign-Flows b task id (w ∷ ws) e n =
      rw n.0 (omega (arith, ap length e), λ s. serving s, (n.0, tt))
    where
      serving : IsServing b → (b.pending_task_count ≡ 0) ⊎ (ws ≡ [])
      serving (inl none) = inl none
      serving (inr free) = absurd (omega (arith, ap length e, ap length free))

  accept-Flows :
      (b : Broker) (task : Bytes) (id now : ℤ)
      → IsValid cfg b
      → Flows 0 b (accept cfg b task id now)
  unfolding accept Flows
  accept-Flows b task (negsuc n) now v = (omega arith, λ s. s, tt)
  accept-Flows b task (pos n) now v =
      let b1 = record b {
        broker_receive_ns = λ i. if i == n then now else b.broker_receive_ns i;
      } in
      elim (Bool-cases (ltb n cfg.task_count)) [
        | inl inside ↦ rw inside (assign-Flows b1 task n b.worker_queue refl v.workers_named)
        | inr outside ↦ rw outside (omega arith, λ s. s, tt)
      ]

  record_latency-worker_queue :
      (b : Broker) (done now : ℤ) (send_ns : ℕ → ℤ)
      → (record_latency cfg b done now send_ns).worker_queue ≡ b.worker_queue
        × (record_latency cfg b done now send_ns).pending_task_queue ≡ b.pending_task_queue
        × (record_latency cfg b done now send_ns).pending_task_count ≡ b.pending_task_count
  unfolding record_latency
  record_latency-worker_queue b (negsuc n) now send_ns = ground arith
  record_latency-worker_queue b (pos n) now send_ns = ground arith

  next_task-Flows :
      (b : Broker) (worker : ℤ) (ts : List ℤ)
      → IsNamed worker
      → All IsNamed ts
      → b.pending_task_count ≡ length ts
      → Flows 1 b (next_task b worker ts)
  unfolding next_task add_worker Flows Fifo.pop Fifo.push
  next_task-Flows b worker [] w n c =
      (omega (arith, length-append b.worker_queue (worker ∷ [])), λ s. inl c, tt)
  next_task-Flows b worker (t ∷ ts) w n c = rw n.0 (omega arith, λ s. serving s, (w, tt))
    where
      serving : IsServing b → (b.pending_task_count - 1 ≡ 0) ⊎ (b.worker_queue ≡ [])
      serving (inl none) = absurd (omega arith)
      serving (inr free) = inr free

  finish-Flows :
      (b : Broker) (worker : ℤ) (ready : Bytes) (now : ℤ) (send_ns : ℕ → ℤ)
      → IsNamed worker
      → IsValid cfg b
      → Flows 1 b (finish cfg b worker ready now send_ns)
  unfolding finish Flows
  finish-Flows b worker ready now send_ns w v =
      let b1 = record_latency cfg b (int_of (drop_five ready)) now send_ns in
      let k = record_latency-worker_queue b (int_of (drop_five ready)) now send_ns in
      let named : All IsNamed b1.pending_task_queue = rw k.1 (v.tasks_named) in
      let counted : b1.pending_task_count ≡ length b1.pending_task_queue =
        rw (k.2, k.1) (v.pending_counted) in
      let h =
        next_task-Flows (record b1 { processed_task_count = b1.processed_task_count + 1 }) worker
          b1.pending_task_queue w named counted in
      (h.0 ∙ ap (λ q. length q + 1) k.0, λ s. h.1 (same k.2 k.0 s), h.2)
    where
      same :
          {p q : ℕ} {ws vs : List ℤ} → p ≡ q → ws ≡ vs → (q ≡ 0) ⊎ (vs ≡ []) → (p ≡ 0) ⊎ (ws ≡ [])
      same e f (inl none) = inl (e ∙ none)
      same e f (inr free) = inr (f ∙ free)

  -- A message of a producer brings no worker in.
  pub from_producer-Flows :
      (b : Broker) (message : Bytes) (now : ℤ)
      → IsValid cfg b
      → Flows 0 b (step cfg b (from_producer message now))
  unfolding step on_frontend
  from_producer-Flows b message now v =
      accept-Flows b (clip message) (get_task_id (clip message)) now v

  -- A report of a finished task brings in its worker.
  pub report-Flows :
      (b : Broker) (worker : ℤ) (ready : Bytes) (now : ℤ) (send_ns : ℕ → ℤ)
      → is_done ready ≡ true
      → IsNamed worker
      → IsValid cfg b
      → Flows 1 b (step cfg b (from_worker worker ready now send_ns))
  unfolding step on_backend
  report-Flows b worker ready now send_ns done w v =
      rw done (finish-Flows b worker ready now send_ns w v)
