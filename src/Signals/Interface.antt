-- ===== src/Signals/Interface.antt =====
-- What System V asks of these functions.
use nsysu_network_applicatio.Prelude.{
  ℕ, ◌≡◌, ◌≢◌, refl, Bool, true, false, if◌then◌else◌, none, some, arith,
}
use nsysu_network_applicatio.Signals.{
  Handler, sig_dfl, sig_ign, sig_hold, sig_err, function, Process, unblocked, is_reserved, sigset,
  sighold, sigrelse, sigignore, member, install, block, unblock, single,
}

-- a signal whose disposition and mask can be changed
unfoldable pub IsFree : (ℕ → Bool) → ℕ → Type 0
IsFree is_signal sig = (is_signal sig ≡ true) × (is_reserved sig ≡ false)

module _ (is_signal : ℕ → Bool) where
  -- what `sigset` does with a handler
  abbrev Installed : ℕ → Handler → Process → Handler × Process → Type 0
  Installed sig handler p r =
      (r.0 ≡ (if p.blocked sig then sig_hold else p.disposition sig))
      × (r.1.disposition sig ≡ handler)
      × (r.1.blocked sig ≡ false)
      × ((s : ℕ) → s ≢ sig → r.1.disposition s ≡ p.disposition s)
      × ((s : ℕ) → s ≢ sig → r.1.blocked s ≡ p.blocked s)

  install_lem :
      (sig : ℕ) (handler : Handler) (p : Process)
      → IsFree is_signal sig
      → Installed sig handler p (unblocked is_signal sig p (install is_signal sig handler p))
  unfolding IsFree member install unblock single
  install_lem sig handler p (valid, free) =
      rw (valid, free)
        (
          ground arith,
          ground arith,
          rw valid (ground arith),
          λ s other. ground arith,
          λ s other. ground arith,
        )

  -- `sigset` with a handler, for a signal that can be caught: the signal is unblocked and has the
  -- handler; what is returned is SIG_HOLD if it was blocked, and else the handler it had; the
  -- other signals are as before. The handler is not SIG_HOLD.
  pub sigset_lem :
      (sig : ℕ) (handler : Handler) (p : Process)
      → IsFree is_signal sig
      → handler ≢ sig_hold
      → let r = sigset is_signal sig handler p in
        (r.0 ≡ (if p.blocked sig then sig_hold else p.disposition sig))
        × (r.1.disposition sig ≡ handler)
        × (r.1.blocked sig ≡ false)
        × ((s : ℕ) → s ≢ sig → r.1.disposition s ≡ p.disposition s)
        × ((s : ℕ) → s ≢ sig → r.1.blocked s ≡ p.blocked s)
  unfolding sigset
  sigset_lem sig sig_hold p free ne = absurd (ne refl)
  sigset_lem sig sig_dfl p free ne = install_lem sig sig_dfl p free
  sigset_lem sig sig_ign p free ne = install_lem sig sig_ign p free
  sigset_lem sig sig_err p free ne = install_lem sig sig_err p free
  sigset_lem sig (function n) p free ne = install_lem sig (function n) p free

  -- `sigset` with SIG_HOLD, for a signal that can be blocked, does what `sighold` does, and returns
  -- SIG_HOLD if the signal was blocked and else its handler. In both the signal is then blocked, and
  -- `sigrelse` unblocks it again: the mask is then as before, but for that signal.
  pub sighold_lem :
      (sig : ℕ) (p : Process)
      → IsFree is_signal sig
      → (sigset is_signal sig sig_hold p
          ≡ ((if p.blocked sig then sig_hold else p.disposition sig), (sighold is_signal sig p).1))
        × ((sighold is_signal sig p).1.blocked sig ≡ true)
        × ((sigrelse is_signal sig (sighold is_signal sig p).1).1.blocked sig ≡ false)
        × ((s : ℕ)
            → s ≢ sig
            → (sigrelse is_signal sig (sighold is_signal sig p).1).1.blocked s ≡ p.blocked s)
  unfolding sigset sighold sigrelse IsFree member block unblock single
  sighold_lem sig p (valid, free) = (
    rw valid (ground arith),
    rw (valid, free) (ground arith),
    rw (valid, free) (ground arith),
    λ s other. ground arith,
  )

  -- For a number that is no signal, `sigset` and `sigignore` fail and change nothing, but `sighold`
  -- and `sigrelse` change nothing and answer 0 all the same, since they do not test what `sigaddset`
  -- says.
  pub no_signal_lem :
      (sig : ℕ) (handler : Handler) (p : Process) (s : ℕ)
      → is_signal sig ≡ false
      → ((sigset is_signal sig handler p).0 ≡ sig_err)
        × (sigignore is_signal sig p ≡ (none, p))
        × ((sighold is_signal sig p).0 ≡ some 0)
        × ((sigrelse is_signal sig p).0 ≡ some 0)
        × ((sigset is_signal sig handler p).1.blocked s ≡ p.blocked s)
        × ((sighold is_signal sig p).1.blocked s ≡ p.blocked s)
        × ((sigrelse is_signal sig p).1.blocked s ≡ p.blocked s)
  unfolding sigset sigignore sighold sigrelse member install block unblock
  no_signal_lem sig sig_hold p s invalid =
      rw invalid (refl, refl, refl, refl, ground arith, ground arith, ground arith)
  no_signal_lem sig sig_dfl p s invalid =
      rw invalid (refl, refl, refl, refl, refl, ground arith, ground arith)
  no_signal_lem sig sig_ign p s invalid =
      rw invalid (refl, refl, refl, refl, refl, ground arith, ground arith)
  no_signal_lem sig sig_err p s invalid =
      rw invalid (refl, refl, refl, refl, refl, ground arith, ground arith)
  no_signal_lem sig (function n) p s invalid =
      rw invalid (refl, refl, refl, refl, refl, ground arith, ground arith)
