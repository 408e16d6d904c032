-- ===== src/TaskSystem/Sound.antt =====
-- Each task and each worker is in one place.
use nsysu_network_applicatio.Prelude.{
  ℕ, zero, suc, ◌+◌, ◌-◌, ◌*◌, ◌≤◌, ◌<◌, ◌≡◌, refl, ap, true, inl, inr, Bytes, List, [], ◌∷◌, ◌++◌,
  length, Option, none, some, Run, ok, fault, arith, ltb, ltb→lt, All, Bool-cases, length-append,
  All-append,
}
use nsysu_network_applicatio.Prelude.Int.{ℤ, pos, negsuc}
use nsysu_network_applicatio.Broker.Message.{clip, task_text, worker_task_id}
use nsysu_network_applicatio.Broker.Invariant.{IsValid, IsNamed, step-IsValid}
use nsysu_network_applicatio.Broker.Counts.{produced, reported, step_accounts, step_dropped}
use nsysu_network_applicatio.Broker.Flow.{
  IsServing, IsSentNamed, Flows, from_producer-Flows, report-Flows,
}
use nsysu_network_applicatio.Broker.{
  Config, Send, to_worker, from_producer, from_worker, step, running, is_done,
}
use nsysu_network_applicatio.TaskSystem.{
  System, Move, produce, arrive, work, report, keep, take_out, int_bytes, bytes_of, done_message,
  reported_by, arrived, read_report, moved,
}

-- a report of a finished task, by a worker that is not called -1
unfoldable pub IsReport : ℤ × Bytes → Type 0
IsReport r = (is_done r.1 ≡ true) × IsNamed r.0

-- The invariant, for `workers` workers that have come in: the broker is valid, each task that was
-- produced is dropped, waiting, processed, on its way, at work or reported, each worker is free, at
-- work or has reported, and none is free while a task waits.
pub record IsSound (cfg : Config) (workers : ℕ) (s : System) : Type 0 where
  pub valid : IsValid cfg s.broker
  pub produced_bounded : s.task_sequence ≤ cfg.task_count
  pub tasks_counted :
      s.broker.dropped_task_count
        + s.broker.pending_task_count
        + s.broker.processed_task_count
        + length s.frontend
        + length s.busy
        + length s.backend
      ≡ s.task_sequence
  pub workers_counted : length s.broker.worker_queue + length s.busy + length s.backend ≡ workers
  pub serving : IsServing s.broker
  pub busy_named : All IsSentNamed s.busy
  pub reports : All IsReport s.backend

is_done-done_message : (local : ℤ) (r : Run ℤ) → is_done (done_message local r) ≡ true
unfolding is_done done_message int_bytes bytes_of
is_done-done_message local (ok (pos n)) = refl
is_done-done_message local (ok (negsuc n)) = refl
is_done-done_message (pos n) (fault f) = refl
is_done-done_message (negsuc n) (fault f) = refl

-- What is taken out and what is left, if there is such a place.
Taken {ℓ} : {A : Type ℓ} → (A → Type 0) → List A → Option (A × List A) → Type 0
Taken P xs none = Unit
Taken P xs (some (y, ys)) = P y × All P ys × (length xs ≡ suc (length ys))

module _ {ℓ} {A : Type ℓ} (P : A → Type 0) where
  keep-Taken :
      (x : A) (xs : List A) (r : Option (A × List A))
      → P x
      → Taken P xs r
      → Taken P (x ∷ xs) (keep x r)
  unfolding Taken keep
  keep-Taken x xs none p t = tt
  keep-Taken x xs (some (y, ys)) p (q, qs, e) = (q, (p, qs), ap suc e)

  take_out-Taken : (i : ℕ) (xs : List A) → All P xs → Taken P xs (take_out i xs)
  unfolding take_out Taken
  take_out-Taken i [] p = tt
  take_out-Taken zero (x ∷ xs) p = (p.0, p.1, refl)
  take_out-Taken (suc i) (x ∷ xs) p = keep-Taken x xs (take_out i xs) p.0 (take_out-Taken i xs p.1)

-- What is still to happen: five moves for a task that is not produced, and one less at each place
-- that it comes to.
unfoldable pub weight : Config → System → ℕ
weight cfg s =
    5 * (cfg.task_count - s.task_sequence)
    + 4 * length s.frontend
    + 3 * s.broker.pending_task_count
    + 2 * length s.busy
    + length s.backend

-- A move that can happen leads on.
unfoldable pub Advances : Config → ℕ → System → Option System → Type 0
unfolding weight
Advances cfg workers s none = Unit
Advances cfg workers s (some s') = IsSound cfg workers s' × (weight cfg s' < weight cfg s)

module _ (cfg : Config) (workers : ℕ) (s : System) (sound : IsSound cfg workers s) where
  produce-Advances : Advances cfg workers s (moved cfg s produce)
  unfolding moved Advances
  produce-Advances = elim (Bool-cases (ltb s.task_sequence cfg.task_count)) [
    | inl more ↦
        let left = ltb→lt s.task_sequence cfg.task_count more in
        let task = task_text (pos s.task_sequence) ++ 0 ∷ [] in
        let longer = length-append s.frontend (task ∷ []) in
        rw more (
          record {
            valid = sound.valid;
            produced_bounded = omega arith;
            tasks_counted = omega (arith, sound.tasks_counted, longer);
            workers_counted = sound.workers_counted;
            serving = sound.serving;
            busy_named = sound.busy_named;
            reports = sound.reports;
          },
          omega (arith, longer),
        )
    | inr done ↦ rw done tt
  ]

  arrived-Advances :
      (now : ℤ) (messages : List Bytes)
      → s.frontend ≡ messages
      → Advances cfg workers s (arrived cfg s now messages)
  unfolding Advances arrived produced reported Flows
  arrived-Advances now [] e = tt
  arrived-Advances now (message ∷ messages) e =
      let i = from_producer message now in
      let flow = from_producer-Flows cfg s.broker message now sound.valid in
      let numbers = step_accounts cfg s.broker i sound.valid in
      let dropped = step_dropped cfg s.broker i in
      let shorter = ap length e in
      let longer = length-append s.busy (step cfg s.broker i).1 in
      (
        record {
          valid = step-IsValid cfg s.broker i tt sound.valid;
          produced_bounded = sound.produced_bounded;
          tasks_counted = omega (arith, sound.tasks_counted, numbers.0, numbers.1, shorter, longer);
          workers_counted = omega (arith, sound.workers_counted, flow.0, longer);
          serving = flow.1 sound.serving;
          busy_named =
              All-append IsSentNamed s.busy (step cfg s.broker i).1 sound.busy_named flow.2;
          reports = sound.reports;
        },
        omega (arith, numbers.0, dropped, shorter, longer),
      )

  reported_by-Advances :
      (local : ℤ) (r : Option (Send × List Send))
      → Taken IsSentNamed s.busy r
      → Advances cfg workers s (reported_by s local r)
  unfolding Advances reported_by Taken IsSentNamed IsReport
  reported_by-Advances local none t = tt
  reported_by-Advances local (some (to_worker w task, others)) (named, rest, e) =
      let message : ℤ × Bytes = (w, done_message local (worker_task_id (clip task))) in
      let longer = length-append s.backend (message ∷ []) in
      (
        record {
          valid = sound.valid;
          produced_bounded = sound.produced_bounded;
          tasks_counted = omega (arith, sound.tasks_counted, e, longer);
          workers_counted = omega (arith, sound.workers_counted, e, longer);
          serving = sound.serving;
          busy_named = rest;
          reports =
              All-append IsReport s.backend (message ∷ []) sound.reports
                ((is_done-done_message local (worker_task_id (clip task)), named), tt);
        },
        omega (arith, e, longer),
      )

  read_report-Advances :
      (now : ℤ) (send_ns : ℕ → ℤ) (r : Option ((ℤ × Bytes) × List (ℤ × Bytes)))
      → Taken IsReport s.backend r
      → Advances cfg workers s (read_report cfg s now send_ns r)
  unfolding Advances read_report Taken IsReport produced reported Flows
  read_report-Advances now send_ns none t = tt
  read_report-Advances now send_ns (some ((w, message), others)) ((done, named), rest, e) =
      let i = from_worker w message now send_ns in
      let flow = report-Flows cfg s.broker w message now send_ns done named sound.valid in
      let numbers = rw done at (step_accounts cfg s.broker i sound.valid) in
      let dropped = step_dropped cfg s.broker i in
      let longer = length-append s.busy (step cfg s.broker i).1 in
      (
        record {
          valid = step-IsValid cfg s.broker i named sound.valid;
          produced_bounded = sound.produced_bounded;
          tasks_counted = omega (arith, sound.tasks_counted, numbers.0, numbers.1, e, longer);
          workers_counted = omega (arith, sound.workers_counted, flow.0, e, longer);
          serving = flow.1 sound.serving;
          busy_named =
              All-append IsSentNamed s.busy (step cfg s.broker i).1 sound.busy_named flow.2;
          reports = rest;
        },
        omega (arith, numbers.0, dropped, e, longer),
      )

  -- A move that happens keeps the invariant and takes from the weight.
  pub moved-Advances : (m : Move) → Advances cfg workers s (moved cfg s m)
  unfolding moved Advances
  moved-Advances produce = produce-Advances
  moved-Advances (arrive now) = elim (Bool-cases (running cfg s.broker)) [
    | inl on ↦ rw on (arrived-Advances now s.frontend refl)
    | inr off ↦ rw off tt
  ]
  moved-Advances (work place local) =
      reported_by-Advances local (take_out place s.busy)
        (take_out-Taken IsSentNamed place s.busy sound.busy_named)
  moved-Advances (report place now send_ns) = elim (Bool-cases (running cfg s.broker)) [
    | inl on ↦ rw on (
        read_report-Advances now send_ns (take_out place s.backend)
          (take_out-Taken IsReport place s.backend sound.reports))
    | inr off ↦ rw off tt
  ]
