-- ===== src/Broker/Stall.antt =====
-- What the branch of hw12/broker.c for a worker that is ready leaves undone.
use nsysu_network_applicatio.Prelude.{
  ℕ, suc, ◌+◌, ◌≤◌, ◌<◌, ◌≡◌, refl, ◌∙◌, true, false, Bytes, List, [], ◌∷◌, ◌++◌, inl, inr, length,
  arith, ltb, lt→ltb, All, length-append, Bool-cases,
}
use nsysu_network_applicatio.Prelude.Int.{ℤ, pos}
use nsysu_network_applicatio.Queue.Fifo
use nsysu_network_applicatio.Broker.Message.{clip, get_task_id}
use nsysu_network_applicatio.Broker.{
  is_done, Config, Broker, Input, from_producer, from_worker, init, assign, accept, on_frontend,
  on_backend, step, running, run, add_worker,
}

-- A producer's message of a task of this run.
unfoldable pub IsTask : Config → Input → Type 0
IsTask cfg (from_producer message now) =
    (n : ℕ) × get_task_id (clip message) ≡ pos n × ltb n cfg.task_count ≡ true
IsTask cfg (from_worker w message now t) = ⊥

-- A worker's first message.
unfoldable pub IsReady : Input → Type 0
IsReady (from_producer message now) = ⊥
IsReady (from_worker w message now t) = is_done message ≡ false

module _ (cfg : Config) where
  ready_step :
      (b : Broker) (w : ℤ) (message : Bytes) (now : ℤ) (t : ℕ → ℤ)
      → is_done message ≡ false
      → step cfg b (from_worker w message now t) ≡ (add_worker b w, [])
  unfolding step on_backend
  ready_step b w message now t r = rw r refl

  ready_run :
      (b : Broker) (w : ℤ) (message : Bytes) (now : ℤ) (t : ℕ → ℤ) (rs : List Input)
      → is_done message ≡ false
      → running cfg b ≡ true
      → run cfg b (from_worker w message now t ∷ rs) ≡ run cfg (add_worker b w) rs
  unfolding run
  ready_run b w message now t rs r on = rw (on, ready_step b w message now t r) refl

  pub run_ready :
      (b : Broker) (rs : List Input)
      → All IsReady rs
      → (run cfg b rs).1 ≡ []
        × (run cfg b rs).0.pending_task_count ≡ b.pending_task_count
        × (run cfg b rs).0.processed_task_count ≡ b.processed_task_count
        × (run cfg b rs).0.dropped_task_count ≡ b.dropped_task_count
  unfolding run add_worker IsReady
  run_ready b [] r = (refl, refl, refl, refl)
  run_ready b (from_producer message now ∷ rs) r = absurd r.0
  run_ready b (from_worker w message now t ∷ rs) r = elim (Bool-cases (running cfg b)) [
    | inl on ↦ rw (ready_run b w message now t rs r.0 on) (run_ready (add_worker b w) rs r.1)
    | inr off ↦ rw off (refl, refl, refl, refl)
  ]

  -- Each worker that reports ready joins the queue.
  pub run-worker_queue :
      (b : Broker) (rs : List Input)
      → All IsReady rs
      → running cfg b ≡ true
      → length (run cfg b rs).0.worker_queue ≡ length b.worker_queue + length rs
  unfolding run IsReady running add_worker Fifo.push
  run-worker_queue b [] r on = omega arith
  run-worker_queue b (from_producer message now ∷ rs) r on = absurd r.0
  run-worker_queue b (from_worker w message now t ∷ rs) r on =
      rw (ready_run b w message now t rs r.0 on) (
        omega (
          arith,
          run-worker_queue (add_worker b w) rs r.1 on,
          length-append b.worker_queue (w ∷ []),
        ))

  task_step :
      (b : Broker) (message : Bytes) (now : ℤ)
      → IsTask cfg (from_producer message now)
      → b.worker_queue ≡ []
      → b.pending_task_count < cfg.queue_size
      → let s = step cfg b (from_producer message now) in
        s.1 ≡ []
        × s.0.worker_queue ≡ []
        × s.0.pending_task_count ≡ suc b.pending_task_count
        × s.0.processed_task_count ≡ b.processed_task_count
        × s.0.dropped_task_count ≡ b.dropped_task_count
  unfolding step on_frontend accept assign IsTask
  task_step b message now k e room =
      rw (k.1, k.2, e, lt→ltb b.pending_task_count cfg.queue_size room) (ground arith)

  waits_from :
      (b : Broker) (ps rs : List Input)
      → All (IsTask cfg) ps
      → All IsReady rs
      → b.worker_queue ≡ []
      → b.processed_task_count ≡ 0
      → b.dropped_task_count ≡ 0
      → b.pending_task_count + length ps ≤ cfg.queue_size
      → 0 < cfg.task_count
      → (run cfg b (ps ++ rs)).1 ≡ []
        × (run cfg b (ps ++ rs)).0.pending_task_count ≡ b.pending_task_count + length ps
        × running cfg (run cfg b (ps ++ rs)).0 ≡ true
  unfolding run running IsTask
  waits_from b [] rs ts r e p d room some =
      let h = run_ready b rs r in ground (arith, h.0, h.1, h.2, h.3)
  waits_from b (from_worker w message now t ∷ ps) rs ts r e p d room some = absurd ts.0
  waits_from b (from_producer message now ∷ ps) rs ts r e p d room some =
      let i = from_producer message now in
      let k = task_step b message now ts.0 e (omega arith) in
      let on : running cfg b ≡ true = ground arith in
      let h = waits_from (step cfg b i).0 ps rs ts.1 r k.1 (k.3 ∙ p) (k.4 ∙ d) (omega arith) some in
      rw on (ground arith)

  -- Workers that report ready are given none of the tasks that already wait: when the producers
  -- send tasks of this run first, no more than the queue holds, and then any number of workers
  -- say that they are ready, the broker sends nothing to a worker, all those tasks wait on, and the
  -- loop goes on. There is at least one task to do.
  pub ready_workers_idle :
      (ps rs : List Input)
      → All (IsTask cfg) ps
      → All IsReady rs
      → length ps ≤ cfg.queue_size
      → 0 < cfg.task_count
      → (run cfg init (ps ++ rs)).1 ≡ []
        × (run cfg init (ps ++ rs)).0.pending_task_count ≡ length ps
        × running cfg (run cfg init (ps ++ rs)).0 ≡ true
  unfolding init
  ready_workers_idle ps rs ts r room some =
      let h = waits_from init ps rs ts r refl refl refl (omega arith) some in
      ground (arith, h.0, h.1, h.2)
