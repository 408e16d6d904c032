-- ===== src/Emergency/Dispatcher/Inverted.antt =====
-- To whom the dispatcher gives tasks, by the number of the workers that wait for one.
use nsysu_network_applicatio.Prelude.{
  ℕ, zero, suc, ◌≡◌, refl, ap, ◌∙◌, Bool, ◌||◌, Bytes, str_eq, List, [], ◌∷◌, ◌++◌, length,
  length-append, All, if◌then◌else◌, arith, inl, inr, Bool-cases,
}
use nsysu_network_applicatio.Prelude.Int.{ℤ, negsuc}
use nsysu_network_applicatio.Queue.Fifo
use nsysu_network_applicatio.Broker.Invariant.{IsNamed, All-snoc}
use nsysu_network_applicatio.Emergency.Dispatcher.{
  atoi, buffered, Input, from_worker, typed, Outcome, not_permitted, assigned, ready, result,
  report, identity_frame, decide, step, run,
}

-- a worker that is read as -1 is not told from an empty queue
abbrev pub IsNamedInput : Input → Type 0
IsNamedInput (from_worker id event) = IsNamed (atoi (buffered id))
IsNamedInput (typed task unwritten) = Unit {0}

-- whether a worker's message puts it into the queue
unfoldable pub enlists : Bytes → Bool
enlists event = str_eq event ready || str_eq event result

-- The outcomes with `free` workers in the queue, by counting alone.
unfoldable pub by_count : ℕ → List Input → List Outcome
by_count free [] = []
by_count free (from_worker id event ∷ rest) =
    if enlists (buffered event) then by_count (suc free) rest else by_count free rest
by_count zero (typed task unwritten ∷ rest) =
    assigned (identity_frame (negsuc 0) unwritten) task ∷ by_count zero rest
by_count (suc free) (typed task unwritten ∷ rest) = not_permitted ∷ by_count free rest

report_lem :
    (queue : List ℤ) (id event : Bytes)
    → report queue id event ≡ (if enlists event then queue ++ atoi id ∷ [] else queue)
unfolding report enlists Fifo.push
report_lem queue id event = ground arith

-- The dispatcher refuses a task exactly where a worker waits for one, and that worker is dropped
-- from the queue; where none waits it sends the task, and names the worker by a frame of -1 and of
-- eight bytes that nothing was written to. So its outcomes follow from a count of the workers in the
-- queue, to which READY and RESULT add and nothing else does. No worker is read as -1.
pub run_lem :
    (queue : List ℤ) (inputs : List Input)
    → All IsNamed queue
    → All IsNamedInput inputs
    → run queue inputs ≡ by_count (length queue) inputs
unfolding run by_count step decide Fifo.pop
run_lem queue [] q n = refl
run_lem queue (from_worker id event ∷ rest) q n =
    let longer = length-append queue (atoi (buffered id) ∷ []) in
    elim (Bool-cases (enlists (buffered event))) [
      | inl more ↦
          rw (report_lem queue (buffered id) (buffered event), more)
            (run_lem (queue ++ atoi (buffered id) ∷ []) rest
                (All-snoc queue (atoi (buffered id)) q n.0) n.1
              ∙ ap (λ k. by_count k rest) (omega (arith, longer)))
      | inr same ↦
          rw (report_lem queue (buffered id) (buffered event), same) (run_lem queue rest q n.1)
    ]
run_lem [] (typed task unwritten ∷ rest) q n =
    ap (λ l. assigned (identity_frame (negsuc 0) unwritten) task ∷ l) (run_lem [] rest tt n.1)
run_lem (w ∷ queue) (typed task unwritten ∷ rest) q n =
    rw q.0 (ap (λ l. not_permitted ∷ l) (run_lem queue rest q.1 n.1))
