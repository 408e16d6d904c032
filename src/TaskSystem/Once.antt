-- ===== src/TaskSystem/Once.antt =====
-- Where each task is, by its identifier.
use nsysu_network_applicatio.Prelude.{
  ℕ, zero, suc, ◌+◌, ◌^◌, ◌≤◌, ◌<◌, ◌≡◌, refl, ap, inl, inr, Bytes, List, [], ◌∷◌, ◌++◌, length,
  map, Option, none, some, arith, ltb, All, Bool-cases, if◌then◌else◌,
}
use nsysu_network_applicatio.Prelude.Int.{ℤ, pos}
use nsysu_network_applicatio.Broker.Message.{clip, task_text, get_task_id}
use nsysu_network_applicatio.Broker.Message.RoundTrip.{task_id_survives}
use nsysu_network_applicatio.Broker.Invariant.{IsNamedInput}
use nsysu_network_applicatio.Broker.Stall.{IsReady, run_ready}
use nsysu_network_applicatio.Broker.Identity.{
  occurs, carried, ids_of, IsTask, step-Conserves, occurs-single, occurs-map_append,
}
use nsysu_network_applicatio.Broker.{
  Config, Send, to_worker, Input, from_producer, from_worker, init, step, running,
}
use nsysu_network_applicatio.TaskSystem.{
  System, Move, produce, arrive, work, report, keep, take_out, reported_by, arrived, read_report,
  moved,
}
use nsysu_network_applicatio.TaskSystem.Sound.{IsSound, moved-Advances}
use nsysu_network_applicatio.TaskSystem.Start.{start, start-IsSound}
use nsysu_network_applicatio.TaskSystem.Progress.{behind, behind-IsSound, play}

-- the identifier in a message on its way to the broker
unfoldable pub read_id : Bytes → ℤ
read_id message = get_task_id (clip message)

-- whether a task is still to be produced
unfoldable pub unproduced : ℕ → ℕ → ℕ
unproduced k task_sequence = if ltb k task_sequence then 0 else 1

-- At how many places a task is: still to be produced, on its way to the broker, waiting there, or with
-- a worker.
unfoldable pub places : ℕ → System → ℕ
unfolding unproduced occurs read_id carried
places k s =
    unproduced k s.task_sequence
    + occurs k (map read_id s.frontend)
    + occurs k s.broker.pending_task_queue
    + occurs k (map carried s.busy)

unproduced_next :
    (k task_sequence : ℕ)
    → unproduced k (task_sequence + 1) + occurs k (pos task_sequence ∷ [])
      ≤ unproduced k task_sequence
unfolding unproduced occurs
unproduced_next k task_sequence = ground arith

-- what is left where one is taken out
Fewer : ℕ → List Send → Option (Send × List Send) → Type 0
Fewer k xs none = Unit
Fewer k xs (some (y, ys)) = occurs k (map carried ys) ≤ occurs k (map carried xs)

keep-Fewer :
    (k : ℕ) (x : Send) (xs : List Send) (r : Option (Send × List Send))
    → Fewer k xs r
    → Fewer k (x ∷ xs) (keep x r)
unfolding Fewer keep
keep-Fewer k x xs none h = tt
keep-Fewer k x xs (some (y, ys)) h = omega (
  arith,
  h,
  occurs-single k (carried x) (map carried ys),
  occurs-single k (carried x) (map carried xs),
)

take_out-Fewer : (k i : ℕ) (xs : List Send) → Fewer k xs (take_out i xs)
unfolding take_out Fewer
take_out-Fewer k i [] = tt
take_out-Fewer k zero (x ∷ xs) = omega (arith, occurs-single k (carried x) (map carried xs))
take_out-Fewer k (suc i) (x ∷ xs) = keep-Fewer k x xs (take_out i xs) (take_out-Fewer k i xs)

-- A move brings no task to a place that it did not leave, and the broker keeps identifiers in range.
Shrinks : Config → System → Option System → Type 0
Shrinks cfg s none = Unit
Shrinks cfg s (some s') =
    ((k : ℕ) → places k s' ≤ places k s) × All (IsTask cfg) s'.broker.pending_task_queue

module _ (cfg : Config) (small : cfg.task_count ≤ 2 ^ 31) (workers : ℕ) (s : System)
    (sound : IsSound cfg workers s) (kept : All (IsTask cfg) s.broker.pending_task_queue) where
  produce-Shrinks : Shrinks cfg s (moved cfg s produce)
  unfolding moved Shrinks places
  produce-Shrinks = elim (Bool-cases (ltb s.task_sequence cfg.task_count)) [
    | inr all ↦ rw all tt
    | inl more ↦
        let n = s.task_sequence in
        let inside : n < 2 ^ 31 = ground arith in
        let message : Bytes = task_text (pos n) ++ 0 ∷ [] in
        let same : read_id message ≡ pos n = unfold read_id in (task_id_survives n [] inside).0 in
        rw more (
          λ k.
              let once : occurs k (read_id message ∷ []) ≡ occurs k (pos n ∷ []) =
                ap (λ v. occurs k (v ∷ [])) same in
              omega (
                arith,
                once,
                unproduced_next k n,
                occurs-map_append read_id k s.frontend (message ∷ []),
              ),
          kept,
        )
  ]

  arrived-Shrinks :
      (now : ℤ) (messages : List Bytes)
      → s.frontend ≡ messages
      → Shrinks cfg s (arrived cfg s now messages)
  unfolding arrived Shrinks places
  arrived-Shrinks now [] e = tt
  arrived-Shrinks now (message ∷ messages) e =
      let i = from_producer message now in
      let h = step-Conserves cfg small s.broker i sound.valid kept in
      (
        λ k.
            let one : occurs k (ids_of (i ∷ [])) ≡ occurs k (read_id message ∷ []) =
              unfold ids_of in unfold read_id in refl in
            let first = ap (λ l. occurs k (map read_id l)) e in
            omega (
              arith,
              h.0 k,
              one,
              first,
              occurs-single k (read_id message) (map read_id messages),
              occurs-map_append carried k s.busy (step cfg s.broker i).1,
            ),
        h.1,
      )

  reported_by-Shrinks :
      (local : ℤ) (r : Option (Send × List Send))
      → ((k : ℕ) → Fewer k s.busy r)
      → Shrinks cfg s (reported_by s local r)
  unfolding reported_by Shrinks Fewer places
  reported_by-Shrinks local none h = tt
  reported_by-Shrinks local (some (to_worker w task, others)) h = (λ k. omega (arith, h k), kept)

  read_report-Shrinks :
      (now : ℤ) (send_ns : ℕ → ℤ) (r : Option ((ℤ × Bytes) × List (ℤ × Bytes)))
      → Shrinks cfg s (read_report cfg s now send_ns r)
  unfolding read_report Shrinks places
  read_report-Shrinks now send_ns none = tt
  read_report-Shrinks now send_ns (some ((w, message), others)) =
      let i = from_worker w message now send_ns in
      let h = step-Conserves cfg small s.broker i sound.valid kept in
      (
        λ k.
            let no_more : occurs k (ids_of (i ∷ [])) ≡ 0 = unfold ids_of in unfold occurs in refl in
            omega
              (arith, h.0 k, no_more, occurs-map_append carried k s.busy (step cfg s.broker i).1),
        h.1,
      )

  moved-Shrinks : (m : Move) → Shrinks cfg s (moved cfg s m)
  unfolding moved Shrinks
  moved-Shrinks produce = produce-Shrinks
  moved-Shrinks (arrive now) = elim (Bool-cases (running cfg s.broker)) [
    | inl on ↦ rw on (arrived-Shrinks now s.frontend refl)
    | inr off ↦ rw off tt
  ]
  moved-Shrinks (work place local) =
      reported_by-Shrinks local (take_out place s.busy) (λ k. take_out-Fewer k place s.busy)
  moved-Shrinks (report place now send_ns) = elim (Bool-cases (running cfg s.broker)) [
    | inl on ↦ rw on (read_report-Shrinks now send_ns (take_out place s.backend))
    | inr off ↦ rw off tt
  ]

no_more : (xs : List ℤ) → length xs ≡ 0 → xs ≡ []
no_more [] e = refl
no_more (x ∷ xs) e = absurd (omega (arith, e))

module _ (cfg : Config) (small : cfg.task_count ≤ 2 ^ 31) where
  behind-Shrinks :
      (k : ℕ) (s : System) (r : Option System)
      → All (IsTask cfg) s.broker.pending_task_queue
      → Shrinks cfg s r
      → (places k (behind s r) ≤ places k s)
        × All (IsTask cfg) (behind s r).broker.pending_task_queue
  unfolding behind Shrinks
  behind-Shrinks k s none kept h = (omega arith, kept)
  behind-Shrinks k s (some s') kept h = (h.0 k, h.1)

  play-Shrinks :
      (k workers : ℕ) (s : System) (ms : List Move)
      → IsSound cfg workers s
      → All (IsTask cfg) s.broker.pending_task_queue
      → (places k (play cfg s ms) ≤ places k s)
        × IsSound cfg workers (play cfg s ms)
        × All (IsTask cfg) (play cfg s ms).broker.pending_task_queue
  unfolding play
  play-Shrinks k workers s [] sound kept = (omega arith, sound, kept)
  play-Shrinks k workers s (m ∷ ms) sound kept =
      let r = moved cfg s m in
      let (next, less) =
        behind-IsSound cfg workers s r sound (moved-Advances cfg workers s sound m) in
      let (here, on) = behind-Shrinks k s r kept (moved-Shrinks cfg small workers s sound kept m) in
      let (rest, last, in_range) = play-Shrinks k workers (behind s r) ms next on in
      (omega (arith, here, rest), last, in_range)

  module _ (readies : List Input) (r : All IsReady readies) (n : All IsNamedInput readies)
      (some_task : 0 < cfg.task_count) where
    nothing_waits : (start cfg readies).broker.pending_task_queue ≡ []
    unfolding start init
    nothing_waits =
        let (nothing_sent, waits, done, dropped) = run_ready cfg init readies r in
        let counted = (start-IsSound cfg readies r n some_task).valid.pending_counted in
        no_more (start cfg readies).broker.pending_task_queue (omega (arith, waits, counted))

    places-start : (k : ℕ) → places k (start cfg readies) ≤ 1
    unfolding places unproduced
    places-start k =
        let waiting = ap (occurs k) nothing_waits in
        unfold start in unfold occurs in ground (arith, waiting)

    -- Where the workers, none of which calls itself -1, report ready before the producer begins, and
    -- there is a task at least and 2^31 at most, each task is in one place at most, whatever happens
    -- and in whatever order: still to be produced, on its way to the broker, waiting there, or with
    -- a worker. And what happens after that brings it to no more places: a task that is in none of
    -- them, since its worker is through with it or it was dropped, comes to none again.
    pub play_once :
        (k : ℕ) (ms later : List Move)
        → (places k (play cfg (start cfg readies) ms) ≤ 1)
          × (places k (play cfg (play cfg (start cfg readies) ms) later)
              ≤ places k (play cfg (start cfg readies) ms))
    play_once k ms later =
        let sound = start-IsSound cfg readies r n some_task in
        let kept : All (IsTask cfg) (start cfg readies).broker.pending_task_queue =
          rw nothing_waits tt in
        let (less, here, in_range) =
          play-Shrinks k (length readies) (start cfg readies) ms sound kept in
        let (fewer, last, on) =
          play-Shrinks k (length readies) (play cfg (start cfg readies) ms) later here in_range in
        (omega (arith, less, places-start k), fewer)
