-- ===== src/Launcher/Invariant.antt =====
-- The state of the launcher in each phase, and the steps that fork nothing.
use nsysu_network_applicatio.Prelude.{
  ℕ, ◌+◌, ◌<◌, ◌≡◌, List, ◌++◌, replicate, length, inl, inr, Bool-cases,
}
use nsysu_network_applicatio.Prelude.Int.{ℤ, pos, negsuc}
use nsysu_network_applicatio.Launcher.{
  Phase, forking_broker, forking_worker, forking_producer, waiting, reaping, ended, failed,
  Children, Waited, exited_child, interrupted, wait_error, targets, terminate_children,
  handle_sigint, loop_test, is_child, after_wait,
}
use nsysu_network_applicatio.Launcher.Members.{Within, mem-left, mem-right, Within-mono}

-- the slots of the workers from the i-th on are as `calloc` left them
unfoldable pub Room : ℕ → ℕ → Children → Type 0
Room w i c =
    (front : List ℤ) × (n : ℕ) × (c.worker_pids ≡ front ++ replicate n (pos 0))
    × (length front ≡ i)
    × (i + n ≡ w)

-- what is still to be forked has no pid
unfoldable pub IsReady : ℕ → Phase → Children → Type 0
unfolding Room
IsReady w forking_broker c = (c.broker_pid ≡ negsuc 0) × (c.producer_pid ≡ negsuc 0) × Room w 0 c
IsReady w (forking_worker i) c = (c.producer_pid ≡ negsuc 0) × Room w i c × (i < w)
IsReady w forking_producer c = c.producer_pid ≡ negsuc 0
IsReady w waiting c = Unit
IsReady w reaping c = Unit
IsReady w ended c = Unit
IsReady w failed c = Unit

-- behind the main loop, each child was sent SIGTERM
unfoldable pub IsToldBy : Phase → Children → Type 0
unfolding Within
IsToldBy forking_broker c = Unit
IsToldBy (forking_worker i) c = Unit
IsToldBy forking_producer c = Unit
IsToldBy waiting c = Unit
IsToldBy reaping c = Within c.started c.signalled
IsToldBy ended c = Within c.started c.signalled
IsToldBy failed c = Unit

unfoldable pub IsLaunch : ℕ → Phase → Children → Type 0
unfolding IsReady IsToldBy
IsLaunch w phase c = (Within c.started (targets c)) × IsReady w phase c × IsToldBy phase c

told :
    (c : Children)
    → Within c.started (targets c)
    → Within c.started (terminate_children c).signalled
unfolding terminate_children
told c w =
    Within-mono c.started (targets c) (c.signalled ++ targets c)
      (λ p m. mem-right p c.signalled (targets c) m) w

told_more :
    (c : Children)
    → Within c.started c.signalled
    → Within c.started (terminate_children c).signalled
unfolding terminate_children
told_more c w =
    Within-mono c.started c.signalled (c.signalled ++ targets c)
      (λ p m. mem-left p c.signalled (targets c) m) w

reaping-IsLaunch :
    (w : ℕ) (c : Children)
    → Within c.started (targets c)
    → IsLaunch w reaping (terminate_children c)
unfolding IsLaunch IsReady IsToldBy terminate_children targets
reaping-IsLaunch w c h = (h, tt, told c h)

pub loop_test-IsLaunch :
    (w : ℕ) (c : Children)
    → Within c.started (targets c)
    → IsLaunch w (loop_test c).0 (loop_test c).1
unfolding IsLaunch IsReady IsToldBy loop_test
loop_test-IsLaunch w c h = elim (Bool-cases c.shutdown_requested) [
  | inl asked ↦ rw asked (reaping-IsLaunch w c h)
  | inr running ↦ rw running (h, tt, tt)
]

pub after_wait-IsLaunch :
    (w : ℕ) (c : Children) (r : Waited)
    → Within c.started (targets c)
    → IsLaunch w (after_wait c r).0 (after_wait c r).1
unfolding after_wait
after_wait-IsLaunch w c (exited_child pid) h = elim (Bool-cases (is_child c.broker_pid pid)) [
  | inl broker ↦ rw broker (reaping-IsLaunch w c h)
  | inr other ↦ rw other (loop_test-IsLaunch w c h)
]
after_wait-IsLaunch w c interrupted h = loop_test-IsLaunch w c h
after_wait-IsLaunch w c wait_error h = reaping-IsLaunch w c h

pub handle_sigint-IsLaunch :
    (w : ℕ) (phase : Phase) (c : Children) → IsLaunch w phase c → IsLaunch w phase (handle_sigint c)
unfolding IsLaunch IsReady IsToldBy Room handle_sigint terminate_children targets
handle_sigint-IsLaunch w forking_broker c (t, r, s) = (t, r, tt)
handle_sigint-IsLaunch w (forking_worker i) c (t, r, s) = (t, r, tt)
handle_sigint-IsLaunch w forking_producer c (t, r, s) = (t, r, tt)
handle_sigint-IsLaunch w waiting c (t, r, s) = (t, tt, tt)
handle_sigint-IsLaunch w reaping c (t, r, s) = (t, tt, told_more c s)
handle_sigint-IsLaunch w ended c (t, r, s) = (t, tt, told_more c s)
handle_sigint-IsLaunch w failed c (t, r, s) = (t, tt, tt)
