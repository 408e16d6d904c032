-- ===== src/Launcher/Forks.antt =====
-- The forks that succeed keep every child within reach.
use mathlib.Core.List.{Memᴰ}
use nsysu_network_applicatio.Prelude.{
  ℕ, zero, suc, ◌+◌, ◌<◌, ◌≡◌, ◌∙◌, sym, List, [], ◌∷◌, ◌++◌, ltb, set, replicate, length,
  set-append, arith, inl, inr, Bool-cases, length-append, append_assoc, ltb→lt,
}
use nsysu_network_applicatio.Prelude.Int.{ℤ, pos, negsuc}
use nsysu_network_applicatio.Launcher.{
  forking_broker, forking_worker, forking_producer, Children, killed, killed_workers, targets,
  next_worker,
}
use nsysu_network_applicatio.Launcher.Members.{
  Within, mem-left, mem-right, mem-cases, Within-mono, mem-killed, mem-slot, mem-new,
}
use nsysu_network_applicatio.Launcher.Invariant.{Room, IsReady, IsToldBy, IsLaunch}

not_forked : (p : ℕ) (pid : ℤ) → pid ≡ negsuc 0 → Memᴰ p (killed pid) → ⊥
unfolding killed
not_forked p (pos zero) e m = elim m [ ]
not_forked p (pos (suc n)) e m = absurd (ground arith)
not_forked p (negsuc n) e m = elim m [ ]

next_worker-IsReady :
    (w i : ℕ) (c : Children)
    → c.producer_pid ≡ negsuc 0
    → Room w i c
    → IsReady w (next_worker w i) c × IsToldBy (next_worker w i) c
unfolding next_worker IsReady IsToldBy
next_worker-IsReady w i c e r = elim (Bool-cases (ltb i w)) [
  | inl more ↦ rw more ((e, r, ltb→lt i w more), tt)
  | inr done ↦ rw done (e, tt)
]

pub broker-IsLaunch :
    (w pid : ℕ) (c : Children)
    → 0 < pid
    → IsLaunch w forking_broker c
    → IsLaunch w (next_worker w 0) (record c { broker_pid = pos pid; started = pid ∷ c.started })
unfolding IsLaunch IsReady Room targets
broker-IsLaunch w pid c h (t, (b, e, r), s) =
    let others = killed c.producer_pid ++ killed_workers c.worker_pids in
    let new = record c { broker_pid = pos pid; started = pid ∷ c.started } in
    let (ready, silent) = next_worker-IsReady w 0 new e r in
    (
      (
        mem-left pid (killed (pos pid)) others (mem-killed pid h),
        Within-mono c.started (killed c.broker_pid ++ others) (killed (pos pid) ++ others)
            (λ p m. elim (mem-cases p (killed c.broker_pid) others m) [
              | inl here ↦ absurd (not_forked p c.broker_pid b here)
              | inr there ↦ mem-right p (killed (pos pid)) others there
            ])
            t,
      ),
      ready,
      silent,
    )

pub producer-Within :
    (w pid : ℕ) (c : Children)
    → 0 < pid
    → IsLaunch w forking_producer c
    → Within
        (pid ∷ c.started)
        (targets (record c { producer_pid = pos pid; started = pid ∷ c.started }))
unfolding IsLaunch IsReady targets Within
producer-Within w pid c h (t, e, s) =
    let ws = killed_workers c.worker_pids in
    (
      mem-right pid (killed c.broker_pid) (killed (pos pid) ++ ws)
          (mem-left pid (killed (pos pid)) ws (mem-killed pid h)),
      Within-mono c.started (targets c) (killed c.broker_pid ++ (killed (pos pid) ++ ws))
          (λ p m. elim (mem-cases p (killed c.broker_pid) (killed c.producer_pid ++ ws) m) [
            | inl here ↦ mem-left p (killed c.broker_pid) (killed (pos pid) ++ ws) here
            | inr there ↦ elim (mem-cases p (killed c.producer_pid) ws there) [
              | inl here ↦ absurd (not_forked p c.producer_pid e here)
              | inr worker ↦
                  mem-right p (killed c.broker_pid) (killed (pos pid) ++ ws)
                    (mem-right p (killed (pos pid)) ws worker)
            ]
          ])
          t,
    )

-- a slot is written
module _ (i n : ℕ) (front pids : List ℤ) (l : length front ≡ i)
    (e : pids ≡ front ++ replicate (suc n) (pos 0)) where
  set-slot : (v : ℤ) → set pids i v ≡ front ++ v ∷ replicate n (pos 0)
  set-slot v = rw e (set-append front (pos 0) (replicate n (pos 0)) i v (sym l))

  mem-kept : (p : ℕ) (v : ℤ) → Memᴰ p (killed_workers pids) → Memᴰ p (killed_workers (set pids i v))
  mem-kept p v m = rw (set-slot v) (mem-slot p front (replicate n (pos 0)) v (rw e at m))

  mem-written : (p : ℕ) → 0 < p → Memᴰ p (killed_workers (set pids i (pos p)))
  mem-written p h = rw (set-slot (pos p)) (mem-new p front (replicate n (pos 0)) h)

mem-worker :
    (p : ℕ) (c : Children) (ws : List ℤ)
    → Memᴰ p (killed_workers ws)
    → Memᴰ p (targets (record c { worker_pids = ws }))
unfolding targets
mem-worker p c ws m =
    mem-right p (killed c.broker_pid) (killed c.producer_pid ++ killed_workers ws)
      (mem-right p (killed c.producer_pid) (killed_workers ws) m)

mem-other :
    (p : ℕ) (c : Children) (ws : List ℤ)
    → (Memᴰ p (killed_workers c.worker_pids) → Memᴰ p (killed_workers ws))
    → Memᴰ p (targets c)
    → Memᴰ p (targets (record c { worker_pids = ws }))
unfolding targets
mem-other p c ws kept m =
    let old = killed_workers c.worker_pids in
    let new = killed_workers ws in
    elim (mem-cases p (killed c.broker_pid) (killed c.producer_pid ++ old) m) [
      | inl broker ↦ mem-left p (killed c.broker_pid) (killed c.producer_pid ++ new) broker
      | inr there ↦ elim (mem-cases p (killed c.producer_pid) old there) [
        | inl producer ↦
            mem-right p (killed c.broker_pid) (killed c.producer_pid ++ new)
              (mem-left p (killed c.producer_pid) new producer)
        | inr worker ↦ mem-worker p c ws (kept worker)
      ]
    ]

others-Within :
    (c : Children) (ws : List ℤ)
    → ((p : ℕ) → Memᴰ p (killed_workers c.worker_pids) → Memᴰ p (killed_workers ws))
    → Within c.started (targets c)
    → Within c.started (targets (record c { worker_pids = ws }))
others-Within c ws kept t =
    Within-mono c.started (targets c) (targets (record c { worker_pids = ws }))
      (λ p m. mem-other p c ws (kept p) m) t

pub worker-IsLaunch :
    (w i pid : ℕ) (c : Children)
    → 0 < pid
    → IsLaunch w (forking_worker i) c
    → IsLaunch w
        (next_worker w (i + 1))
        (record c { worker_pids = set c.worker_pids i (pos pid); started = pid ∷ c.started })
unfolding IsLaunch IsReady Room targets Within
worker-IsLaunch w i pid c h (t, (e, (front, zero, pids, l, all), more), s) = absurd (omega arith)
worker-IsLaunch w i pid c h (t, (e, (front, suc n, pids, l, all), more), s) =
    let slot = set-slot i n front c.worker_pids l pids (pos pid) in
    let written = set c.worker_pids i (pos pid) in
    let new = record c { worker_pids = written; started = pid ∷ c.started } in
    let room : Room w (i + 1) new = (
      front ++ pos pid ∷ [],
      n,
      slot ∙ sym (append_assoc front (pos pid ∷ []) (replicate n (pos 0))),
      omega (arith, length-append front (pos pid ∷ [])),
      omega arith,
    ) in
    let (ready, silent) = next_worker-IsReady w (i + 1) new e room in
    let first = mem-written i n front c.worker_pids l pids pid h in
    let kept = λ (p : ℕ). mem-kept i n front c.worker_pids l pids p (pos pid) in
    ((mem-worker pid c written first, others-Within c written kept t), ready, silent)
