-- ===== src/Signals.antt =====
-- hw8/SystemVsigs.c: the signal functions of System V over sigaction and sigprocmask. The process
-- has a mask and a disposition for each signal.
pub mod Interface
pub mod Tests
use nsysu_network_applicatio.Prelude.{
  ℕ, Bool, true, false, not, ◌&&◌, ◌||◌, leb, ◌==◌, if◌then◌else◌, Option, none, some,
}

-- the values of a `void (*)(int)` that the code tells apart
pub data Handler : Type 0 where
  sig_dfl sig_ign sig_hold sig_err : Handler
  function : ℕ → Handler

abbrev pub SignalSet : Type 0
SignalSet = ℕ → Bool

pub record Process : Type 0 where
  pub blocked : SignalSet
  pub disposition : ℕ → Handler

-- SIGKILL and SIGSTOP
unfoldable pub is_reserved : ℕ → Bool
is_reserved sig = sig == 9 || sig == 19

-- `is_signal` says which numbers the C library takes for signals.
module _ (is_signal : ℕ → Bool) where
  -- `sigemptyset`, then `sigaddset`, which leaves the set as it is for a number that is no signal
  unfoldable pub single : ℕ → SignalSet
  single sig s = s == sig && is_signal sig

  -- `sigprocmask` with SIG_BLOCK; it passes over the two signals that cannot be blocked
  unfoldable pub block : SignalSet → Process → Process
  unfolding is_reserved
  block set p = record p { blocked = λ s. p.blocked s || (set s && not (is_reserved s)) }

  -- `sigprocmask` with SIG_UNBLOCK
  unfoldable pub unblock : SignalSet → Process → Process
  unblock set p = record p { blocked = λ s. p.blocked s && not (set s) }

  -- `sigismember`, where `none` is -1
  unfoldable pub member : SignalSet → ℕ → Option Bool
  member set sig = if is_signal sig then some (set sig) else none

  -- `sigaction` with a new action, where `none` is -1; the old handler is read before
  unfoldable pub install : ℕ → Handler → Process → Option Process
  unfolding is_reserved
  install sig handler p =
      if is_signal sig && not (is_reserved sig)
      then some (record p { disposition = λ s. if s == sig then handler else p.disposition s })
      else none

  -- what is returned for a signal that was blocked before, or not
  abbrev held : Option Bool → Handler → Handler
  held none old = sig_err
  held (some true) old = sig_hold
  held (some false) old = old

  abbrev is_hold : Handler → Bool
  is_hold sig_hold = true
  is_hold sig_dfl = false
  is_hold sig_ign = false
  is_hold sig_err = false
  is_hold (function n) = false

  abbrev unblocked : ℕ → Process → Option Process → Handler × Process
  unblocked sig p none = (sig_err, p)
  unblocked sig p (some p') =
      (held (member p'.blocked sig) (p.disposition sig), unblock (single sig) p')

  -- `sigaction` with no new action fails only for a number that is no signal.
  pub sigset : ℕ → Handler → Process → Handler × Process
  unfolding member install block unblock single
  sigset sig handler p =
      if is_hold handler
      then (held (member p.blocked sig) (p.disposition sig), block (single sig) p)
      else unblocked sig p (install sig handler p)

  -- The status is 0, or `none` for -1.
  pub sighold : ℕ → Process → Option ℕ × Process
  unfolding block single
  sighold sig p = (some 0, block (single sig) p)

  pub sigrelse : ℕ → Process → Option ℕ × Process
  unfolding unblock single
  sigrelse sig p = (some 0, unblock (single sig) p)

  abbrev ignored : Process → Option Process → Option ℕ × Process
  ignored p none = (none, p)
  ignored p (some p') = (some 0, p')

  pub sigignore : ℕ → Process → Option ℕ × Process
  unfolding install
  sigignore sig p = ignored p (install sig sig_ign p)

  -- the mask that `sigsuspend` waits with; the mask of the process is as before when it is back
  pub sigpause_mask : ℕ → Process → SignalSet
  sigpause_mask sig p s = p.blocked s && not (s == sig && is_signal sig)
