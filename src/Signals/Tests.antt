-- ===== src/Signals/Tests.antt =====
-- The theorems on signal 2, blocked, and on the number 0.
use nsysu_network_applicatio.Prelude.{ℕ, ◌≡◌, ◌≢◌, refl, Bool, true, false, ◌&&◌, leb, ◌==◌}
use nsysu_network_applicatio.Signals.{
  sig_dfl, sig_hold, Process, sigset, sighold, sigrelse, is_reserved,
}
use nsysu_network_applicatio.Signals.Interface.{IsFree, sighold_lem}

abbrev to_64 : ℕ → Bool
to_64 sig = leb 1 sig && leb sig 64

abbrev interrupt_blocked : Process
interrupt_blocked = record { blocked = λ s. s == 2; disposition = λ s. sig_dfl }

two-IsFree : IsFree to_64 2
unfolding IsFree is_reserved
two-IsFree = (refl, refl)

sighold_lem_example :
    (sigset to_64 2 sig_hold interrupt_blocked ≡ (sig_hold, (sighold to_64 2 interrupt_blocked).1))
    × ((sighold to_64 2 interrupt_blocked).1.blocked 2 ≡ true)
    × ((sigrelse to_64 2 (sighold to_64 2 interrupt_blocked).1).1.blocked 2 ≡ false)
    × ((s : ℕ)
        → s ≢ 2
        → (sigrelse to_64 2 (sighold to_64 2 interrupt_blocked).1).1.blocked s ≡ (s == 2))
sighold_lem_example = sighold_lem to_64 2 interrupt_blocked two-IsFree
