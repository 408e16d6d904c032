-- ===== src/Broker/Identity.antt =====
-- Which tasks a run of the broker's loop sends and keeps, by their identifiers.
use nsysu_network_applicatio.Prelude.{
  ℕ, zero, suc, ◌+◌, ◌^◌, ◌<◌, ◌≤◌, ◌≡◌, ◌≢◌, refl, ap, Bytes, List, [], ◌∷◌, ◌++◌, length, take,
  map, All, All-append, arith, inl, inr, Bool-cases, ltb, ◌==◌, if◌then◌else◌, length-take,
}
use nsysu_network_applicatio.Prelude.Int.{ℤ, pos, negsuc}
use nsysu_network_applicatio.Queue.Fifo
use nsysu_network_applicatio.Broker.Message.{clip, until_nul, get_task_id}
use nsysu_network_applicatio.Broker.Message.RoundTrip.{task_id_survives}
use nsysu_network_applicatio.Broker.Invariant.{IsValid, IsNamed, IsNamedInput, step-IsValid}
use nsysu_network_applicatio.Broker.Counts.{produced, reported, record_latency_counts}
use nsysu_network_applicatio.Broker.Accounting.{inputs_read, run_accounts}
use nsysu_network_applicatio.Broker.{
  drop_five, int_of, is_done, Config, Broker, Send, to_worker, Input, from_producer, from_worker,
  assign, accept, on_frontend, next_task, finish, on_backend, step, running, run, add_worker,
  record_latency,
}

-- How often a list has an identifier.
unfoldable pub occurs : ℕ → List ℤ → ℕ
occurs k [] = 0
occurs k (pos n ∷ ids) = let rest = occurs k ids in if n == k then suc rest else rest
occurs k (negsuc n ∷ ids) = occurs k ids

-- the identifier that is read out of a message for a worker
unfoldable pub carried : Send → ℤ
unfolding get_task_id clip
carried (to_worker worker_id message) = get_task_id (clip message)

-- the identifiers in the messages of producers
unfoldable pub ids_of : List Input → List ℤ
unfolding get_task_id clip
ids_of [] = []
ids_of (from_producer message now ∷ is) = get_task_id (clip message) ∷ ids_of is
ids_of (from_worker w ready now send_ns ∷ is) = ids_of is

-- an identifier that the broker may keep
abbrev pub IsTask : Config → ℤ → Type 0
IsTask cfg (pos n) = n < cfg.task_count
IsTask cfg (negsuc n) = ⊥

occurs-append : (k : ℕ) (xs ys : List ℤ) → occurs k (xs ++ ys) ≡ occurs k xs + occurs k ys
unfolding occurs
occurs-append k [] ys = omega arith
occurs-append k (pos n ∷ xs) ys = ground (arith, occurs-append k xs ys)
occurs-append k (negsuc n ∷ xs) ys = occurs-append k xs ys

length-until_nul : (s : Bytes) → length (until_nul s) ≤ length s
unfolding until_nul
length-until_nul [] = omega arith
length-until_nul (c ∷ s) = ground (arith, length-until_nul s)

nonzero-until_nul : (s : Bytes) → All (λ c. c ≢ 0) (until_nul s)
unfolding until_nul
nonzero-until_nul [] = tt
nonzero-until_nul (c ∷ s) = elim (Bool-cases (c == 0)) [
  | inl nul ↦ rw nul tt
  | inr other ↦ rw other (ground arith, nonzero-until_nul s)
]

until_nul-clipped :
    (k : ℕ) (s : Bytes) → All (λ c. c ≢ 0) s → length s ≤ k → until_nul (take k (s ++ 0 ∷ [])) ≡ s
unfolding until_nul
until_nul-clipped zero [] h l = refl
until_nul-clipped zero (c ∷ s) h l = absurd (omega arith)
until_nul-clipped (suc k) [] h l = refl
until_nul-clipped (suc k) (c ∷ s) h l = ground (arith, until_nul-clipped k s h.1)

-- What is sent on of a producer's message is read as the broker read it.
clip-clip : (message : Bytes) → clip (clip message ++ 0 ∷ []) ≡ clip message
unfolding clip
clip-clip message =
    until_nul-clipped 79 (until_nul (take 79 message)) (nonzero-until_nul (take 79 message))
      (omega (arith, length-until_nul (take 79 message), length-take 79 message))

pub occurs-single :
    (k : ℕ) (x : ℤ) (xs : List ℤ) → occurs k (x ∷ xs) ≡ occurs k (x ∷ []) + occurs k xs
occurs-single k x xs = occurs-append k (x ∷ []) xs

-- what a list of identified things and another one have together
pub occurs-map_append {ℓ} :
    {A : Type ℓ} (f : A → ℤ) (k : ℕ) (xs ys : List A)
    → occurs k (map f (xs ++ ys)) ≡ occurs k (map f xs) + occurs k (map f ys)
occurs-map_append f k [] ys = occurs-append k [] (map f ys)
occurs-map_append f k (x ∷ xs) ys = omega (
  arith,
  occurs-single k (f x) (map f (xs ++ ys)),
  occurs-single k (f x) (map f xs),
  occurs-map_append f k xs ys,
)

module _ (cfg : Config) (small : cfg.task_count ≤ 2 ^ 31) where
  -- What a call sends and keeps, against what was there and what it was given: no identifier comes up
  -- more often, and what is kept is in range.
  abbrev pub Conserves : Broker → List ℤ → Broker × List Send → Type 0
  Conserves b given r =
      ((k : ℕ)
        → occurs k (map carried r.1) + occurs k r.0.pending_task_queue
          ≤ occurs k b.pending_task_queue + occurs k given)
      × All (IsTask cfg) r.0.pending_task_queue

  assign-Conserves :
      (b : Broker) (message : Bytes) (id : ℕ) (ws : List ℤ)
      → get_task_id (clip message) ≡ pos id
      → id < cfg.task_count
      → All IsNamed ws
      → All (IsTask cfg) b.pending_task_queue
      → Conserves b (pos id ∷ []) (assign cfg b (clip message) id ws)
  unfolding assign Fifo.push Fifo.pop carried occurs
  assign-Conserves b message id [] e inside n t =
      elim (Bool-cases (ltb b.pending_task_count cfg.queue_size)) [
        | inl room ↦ rw room (
          λ k. omega (arith, occurs-append k b.pending_task_queue (pos id ∷ [])),
          All-append (IsTask cfg) b.pending_task_queue (pos id ∷ []) t (inside, tt),
        )
        | inr full ↦ rw full (λ k. omega arith, t)
      ]
  assign-Conserves b message id (w ∷ ws) e inside n t =
      rw (n.0, clip-clip message, e) (λ k. omega arith, t)

  next_task-Conserves :
      (b : Broker) (worker : ℤ) (ts : List ℤ)
      → b.pending_task_queue ≡ ts
      → All (IsTask cfg) ts
      → Conserves b [] (next_task b worker ts)
  unfolding next_task add_worker Fifo.pop carried
  next_task-Conserves b worker [] e t = rw e (λ k. omega arith, tt)
  next_task-Conserves b worker (negsuc n ∷ ts) e t = elim t.0 [ ]
  next_task-Conserves b worker (pos n ∷ ts) e t =
      rw (e, (task_id_survives n [] (omega (arith, t.0))).0)
        (λ k. omega (arith, occurs-single k (pos n) ts), t.1)

  accept-Conserves :
      (b : Broker) (message : Bytes) (id now : ℤ)
      → get_task_id (clip message) ≡ id
      → IsValid cfg b
      → All (IsTask cfg) b.pending_task_queue
      → Conserves b (id ∷ []) (accept cfg b (clip message) id now)
  unfolding accept occurs
  accept-Conserves b message (negsuc n) now e v t = (λ k. omega arith, t)
  accept-Conserves b message (pos n) now e v t =
      let b1 = record b {
        broker_receive_ns = λ i. if i == n then now else b.broker_receive_ns i;
      } in
      elim (Bool-cases (ltb n cfg.task_count)) [
        | inl inside ↦
            rw inside
              (assign-Conserves b1 message n b.worker_queue e (ground arith) v.workers_named t)
        | inr outside ↦ rw outside (λ k. omega arith, t)
      ]

  finish-Conserves :
      (b : Broker) (worker : ℤ) (ready : Bytes) (now : ℤ) (send_ns : ℕ → ℤ)
      → All (IsTask cfg) b.pending_task_queue
      → Conserves b [] (finish cfg b worker ready now send_ns)
  unfolding finish
  finish-Conserves b worker ready now send_ns t =
      let b1 = record_latency cfg b (int_of (drop_five ready)) now send_ns in
      let same = (record_latency_counts cfg b (int_of (drop_five ready)) now send_ns).3 in
      let kept : All (IsTask cfg) b1.pending_task_queue = rw same t in
      let h =
        next_task-Conserves (record b1 { processed_task_count = b1.processed_task_count + 1 })
          worker b1.pending_task_queue refl kept in
      (
        λ k.
            let unchanged : occurs k b1.pending_task_queue ≡ occurs k b.pending_task_queue =
              ap (occurs k) same in
            omega (arith, h.0 k, unchanged),
        h.1,
      )

  pub step-Conserves :
      (b : Broker) (i : Input)
      → IsValid cfg b
      → All (IsTask cfg) b.pending_task_queue
      → Conserves b (ids_of (i ∷ [])) (step cfg b i)
  unfolding step on_frontend on_backend ids_of
  step-Conserves b (from_producer message now) v t =
      accept-Conserves b message (get_task_id (clip message)) now refl v t
  step-Conserves b (from_worker worker ready now send_ns) v t = elim (Bool-cases (is_done ready)) [
    | inl done ↦ rw done (finish-Conserves b worker ready now send_ns t)
    | inr fresh ↦ rw fresh (unfold add_worker in unfold occurs in (λ k. omega arith, t))
  ]

  ids_of_cons :
      (k : ℕ) (i : Input) (is : List Input)
      → occurs k (ids_of (i ∷ is)) ≡ occurs k (ids_of (i ∷ [])) + occurs k (ids_of is)
  unfolding ids_of
  ids_of_cons k (from_producer message now) is =
      occurs-single k (get_task_id (clip message)) (ids_of is)
  ids_of_cons k (from_worker w ready now send_ns) is = occurs-append k [] (ids_of is)

  run-Conserves :
      (b : Broker) (is : List Input)
      → All IsNamedInput is
      → IsValid cfg b
      → All (IsTask cfg) b.pending_task_queue
      → Conserves b (ids_of (inputs_read cfg b is)) (run cfg b is)
  unfolding run inputs_read
  run-Conserves b [] n v t = (λ k. unfold ids_of in unfold occurs in omega arith, t)
  run-Conserves b (i ∷ is) n v t = elim (Bool-cases (running cfg b)) [
    | inl on ↦ rw on (
        let s = step cfg b i in
        let here = step-Conserves b i v t in
        let rest = run-Conserves s.0 is n.1 (step-IsValid cfg b i n.0 v) here.1 in
        (
          λ k. omega (
            arith,
            here.0 k,
            rest.0 k,
            ids_of_cons k i (inputs_read cfg s.0 is),
            occurs-map_append carried k s.1 (run cfg s.0 is).1,
          ),
          rest.1,
        ))
    | inr off ↦ rw off (λ k. unfold ids_of in unfold occurs in omega arith, t)
  ]

  -- Over a run of the loop, each identifier is in the messages for workers and among the tasks that
  -- wait at the end no more often than it was among those that waited before and in the producers'
  -- messages read; and the messages for workers, the tasks that wait and the dropped ones are
  -- together as many as the tasks that waited or were dropped before and the producers' messages
  -- read. The count of processed tasks has grown by the messages read that report a finished task.
  -- The run starts in a valid state, in which the waiting identifiers are below the number of tasks,
  -- of at most 2^31, and no worker calls itself -1.
  pub run_conserves :
      (k : ℕ) (b : Broker) (is : List Input)
      → All IsNamedInput is
      → IsValid cfg b
      → All (IsTask cfg) b.pending_task_queue
      → (occurs k (map carried (run cfg b is).1) + occurs k (run cfg b is).0.pending_task_queue
          ≤ occurs k b.pending_task_queue + occurs k (ids_of (inputs_read cfg b is)))
        × ((run cfg b is).0.dropped_task_count
              + (run cfg b is).0.pending_task_count
              + length (run cfg b is).1
            ≡ produced (inputs_read cfg b is) + (b.dropped_task_count + b.pending_task_count))
        × ((run cfg b is).0.processed_task_count
            ≡ reported (inputs_read cfg b is) + b.processed_task_count)
  run_conserves k b is n v t =
      let (counted, processed) = run_accounts cfg b is n v in
      ((run-Conserves b is n v t).0 k, counted, processed)
