-- ===== src/TaskSystem/Progress.antt =====
-- The task system comes to its end.
use nsysu_network_applicatio.Prelude.{
  ℕ, ◌+◌, ◌*◌, ◌≤◌, ◌<◌, ◌≡◌, refl, ap, true, false, inl, inr, Bytes, List, [], ◌∷◌, length, Option,
  none, some, arith, ltb, All, Bool-cases,
}
use nsysu_network_applicatio.Prelude.Int.{ℤ, pos}
use nsysu_network_applicatio.Broker.Invariant.{IsNamedInput}
use nsysu_network_applicatio.Broker.Stall.{IsReady}
use nsysu_network_applicatio.Broker.{Config, Send, to_worker, Input, running}
use nsysu_network_applicatio.TaskSystem.{
  System, Move, produce, arrive, work, report, take_out, reported_by, arrived, read_report, moved,
}
use nsysu_network_applicatio.TaskSystem.Sound.{IsSound, weight, Advances, moved-Advances}
use nsysu_network_applicatio.TaskSystem.Start.{start, start-IsSound, weight-start}

-- the state behind a move that may not be possible, and whether it was
unfoldable pub behind : System → Option System → System
behind s none = s
behind s (some s') = s'

unfoldable pub counted : Option System → ℕ
counted none = 0
counted (some s) = 1

-- The moves in turn; those that cannot happen are left out.
unfoldable pub play : Config → System → List Move → System
unfolding behind
play cfg s [] = s
play cfg s (m ∷ ms) = play cfg (behind s (moved cfg s m)) ms

-- How many of the moves happen.
unfoldable pub happened : Config → System → List Move → ℕ
unfolding behind counted
happened cfg s [] = 0
happened cfg s (m ∷ ms) = counted (moved cfg s m) + happened cfg (behind s (moved cfg s m)) ms

-- No move can happen.
unfoldable pub CannotMove : Config → System → Type 0
CannotMove cfg s = (m : Move) → moved cfg s m ≡ none

module _ (cfg : Config) (workers : ℕ) where
  pub behind-IsSound :
      (s : System) (r : Option System)
      → IsSound cfg workers s
      → Advances cfg workers s r
      → IsSound cfg workers (behind s r) × (counted r + weight cfg (behind s r) ≤ weight cfg s)
  unfolding behind counted Advances
  behind-IsSound s none sound a = (sound, omega arith)
  behind-IsSound s (some s') sound (next, less) = (next, omega arith)

  play-IsSound :
      (s : System) (ms : List Move)
      → IsSound cfg workers s
      → IsSound cfg workers (play cfg s ms)
        × (happened cfg s ms + weight cfg (play cfg s ms) ≤ weight cfg s)
  unfolding play happened
  play-IsSound s [] sound = (sound, omega arith)
  play-IsSound s (m ∷ ms) sound =
      let r = moved cfg s m in
      let (next, less) = behind-IsSound s r sound (moved-Advances cfg workers s sound m) in
      let (last, fewer) = play-IsSound (behind s r) ms next in (last, omega (arith, less, fewer))

not_reported : (s : System) (b : List Send) → reported_by s (pos 0) (take_out 0 b) ≡ none → b ≡ []
unfolding reported_by take_out
not_reported s [] e = refl
not_reported s (to_worker w task ∷ b) e = absurd (ground arith)

not_arrived :
    (cfg : Config) (s : System) (messages : List Bytes)
    → arrived cfg s (pos 0) messages ≡ none
    → messages ≡ []
unfolding arrived
not_arrived cfg s [] e = refl
not_arrived cfg s (message ∷ messages) e = absurd (ground arith)

not_read :
    (cfg : Config) (s : System) (reports : List (ℤ × Bytes))
    → read_report cfg s (pos 0) (λ i. pos 0) (take_out 0 reports) ≡ none
    → reports ≡ []
unfolding read_report take_out
not_read cfg s [] e = refl
not_read cfg s ((w, message) ∷ reports) e = absurd (ground arith)

-- where the broker runs on and nothing can move
module _ (cfg : Config) (s : System) (on : running cfg s.broker ≡ true) (c : CannotMove cfg s) where
  all_produced : ltb s.task_sequence cfg.task_count ≡ false
  unfolding CannotMove moved
  all_produced = elim (Bool-cases (ltb s.task_sequence cfg.task_count)) [
    | inl more ↦ absurd (let e = rw more at (c produce) in ground arith)
    | inr done ↦ done
  ]

  none_on_its_way : s.frontend ≡ []
  unfolding CannotMove moved
  none_on_its_way = not_arrived cfg s s.frontend (rw on at (c (arrive (pos 0))))

  none_at_work : s.busy ≡ []
  unfolding CannotMove moved
  none_at_work = not_reported s s.busy (c (work 0 (pos 0)))

  none_reported : s.backend ≡ []
  unfolding CannotMove moved
  none_reported = not_read cfg s s.backend (rw on at (c (report 0 (pos 0) (λ i. pos 0))))

stuck_ends :
    (cfg : Config) (workers : ℕ) (s : System)
    → 0 < workers
    → IsSound cfg workers s
    → CannotMove cfg s
    → running cfg s.broker ≡ false
unfolding running
stuck_ends cfg workers s any_worker sound c = elim (Bool-cases (running cfg s.broker)) [
  | inr off ↦ off
  | inl on ↦
      let produced = all_produced cfg s on c in
      let frontend = ap length (none_on_its_way cfg s on c) in
      let busy = ap length (none_at_work cfg s on c) in
      let backend = ap length (none_reported cfg s on c) in
      elim sound.serving [
        | inl nothing_waits ↦
            absurd (ground (arith, sound.tasks_counted, frontend, busy, backend, produced, on))
        | inr no_worker ↦
            absurd (omega (arith, sound.workers_counted, ap length no_worker, busy, backend))
      ]
]

module _ (cfg : Config) (readies : List Input) (r : All IsReady readies)
    (n : All IsNamedInput readies) (some_task : 0 < cfg.task_count) where
  -- Where the workers, none of which calls itself -1, report ready before the producer begins, and
  -- there is a task at least, at most five times as many things happen as there are tasks, in
  -- whatever order: every run of the task system is finite.
  pub play_finite : (ms : List Move) → happened cfg (start cfg readies) ms ≤ 5 * cfg.task_count
  play_finite ms =
      let sound = start-IsSound cfg readies r n some_task in
      let (last, fewer) = play-IsSound cfg (length readies) (start cfg readies) ms sound in
      omega (arith, fewer, weight-start cfg readies r)

  -- Where one worker or more, none of which calls itself -1, report ready before the producer
  -- begins, and there is a task at least, the task system never gets stuck: when nothing can happen
  -- any more, whatever happened before and in whatever order, the broker's counts of processed and of
  -- dropped tasks add up to the number of tasks.
  pub play_ends :
      (ms : List Move)
      → 0 < length readies
      → CannotMove cfg (play cfg (start cfg readies) ms)
      → (play cfg (start cfg readies) ms).broker.processed_task_count
          + (play cfg (start cfg readies) ms).broker.dropped_task_count
        ≡ cfg.task_count
  unfolding running
  play_ends ms any_worker c =
      let sound = start-IsSound cfg readies r n some_task in
      let (last, fewer) = play-IsSound cfg (length readies) (start cfg readies) ms sound in
      let off =
        stuck_ends cfg (length readies) (play cfg (start cfg readies) ms) any_worker last c in
      ground (arith, off, last.tasks_counted, last.produced_bounded)
