-- ===== src/PipeListing/Printed.antt =====
-- What the parent prints, by the size of the pipe.
use nsysu_network_applicatio.Prelude.{
  ℕ, suc, ◌+◌, ◌<◌, ◌≤◌, ◌≡◌, refl, sym, ap, ap₂, ◌∙◌, true, false, Bytes, List, [], ◌∷◌, ◌++◌,
  append-nil, none, length, length-append, arith, inl, inr, Bool-cases,
}
use nsysu_network_applicatio.PipeListing.{
  Phase, waiting, reading, done, System, start, Move, child_writes, child_exits, parent, write,
  exit, read, parent_step, step, run,
}
use nsysu_network_applicatio.PipeListing.Sound.{has_waited, IsSound, reached-IsSound}

not_waited : (p : Phase) → has_waited p ≡ false → p ≡ waiting
not_waited waiting h = refl
not_waited reading h = cc
not_waited done h = cc

-- A command that prints more than the pipe holds never comes to its end: in every schedule the parent
-- waits for it, and prints nothing.
pub nothing_printed :
    (capacity : ℕ) (output : Bytes) (ms : List Move)
    → capacity < length output
    → ((run capacity ms (start output)).phase ≡ waiting)
      × ((run capacity ms (start output)).printed ≡ [])
nothing_printed capacity output ms h =
    let v = reached-IsSound capacity output ms in
    elim (Bool-cases (has_waited (run capacity ms (start output)).phase)) [
      | inl waited ↦ absurd (omega (arith, (v.waited waited).1))
      | inr still ↦ (not_waited _ still, v.unprinted still)
    ]

-- nothing can happen any more
abbrev pub IsStuck : ℕ → System → Type 0
IsStuck capacity s = (m : Move) → step capacity m s ≡ none

child_moves :
    (capacity : ℕ) (s : System) (left : Bytes)
    → s.left ≡ left
    → s.exited ≡ false
    → length s.held + length left ≤ capacity
    → exit s left ≡ none
    → write capacity 1 s ≡ none
    → ⊥
unfolding exit write
child_moves capacity s [] e x h no_exit no_write = ground arith
child_moves capacity s (b ∷ left) e x h no_exit no_write =
    let n : length s.left ≡ suc (length left) = ap length e in ground arith

read_moves : (s : System) (held : Bytes) → s.exited ≡ true → read s held ≡ none → ⊥
unfolding read
read_moves s [] x h = ground arith
read_moves s (b ∷ held) x h = cc

parent_waits : (s : System) → parent_step s waiting ≡ none → s.exited ≡ false
unfolding parent_step
parent_waits s h = ground arith

all_printed_at :
    (capacity : ℕ) (output : Bytes) (s : System) (p : Phase)
    → s.phase ≡ p
    → length output ≤ capacity
    → IsSound capacity output s
    → IsStuck capacity s
    → (s.phase ≡ done) × (s.printed ≡ output)
unfolding step
all_printed_at capacity output s waiting e h v stuck =
    let still : s.exited ≡ false = parent_waits s (rw e at (stuck parent)) in
    let fits : length s.held + length s.left ≤ capacity = omega (
      arith,
      ap length v.whole,
      length-append s.printed (s.held ++ s.left),
      length-append s.held s.left,
    ) in
    absurd
      (child_moves capacity s s.left refl still fits (stuck child_exits) (stuck (child_writes 1)))
all_printed_at capacity output s reading e h v stuck =
    absurd (read_moves s s.held (v.waited (rw e refl)).0 (rw (e, parent_step) at (stuck parent)))
all_printed_at capacity output s done e h v stuck =
    let nothing_left : s.left ≡ [] = v.all_written (v.waited (rw e refl)).0 in
    let nothing_held : s.held ≡ [] = v.emptied (rw e refl) in
    (
      e,
      sym (append-nil s.printed)
          ∙ sym (ap₂ (λ a b. s.printed ++ (a ++ b)) nothing_held nothing_left)
          ∙ v.whole,
    )

-- What fits into the pipe is printed: in every schedule, where nothing can happen any more, the parent
-- is at its end and has printed the whole output of the command.
pub all_printed :
    (capacity : ℕ) (output : Bytes) (ms : List Move)
    → length output ≤ capacity
    → IsStuck capacity (run capacity ms (start output))
    → ((run capacity ms (start output)).phase ≡ done)
      × ((run capacity ms (start output)).printed ≡ output)
all_printed capacity output ms h stuck =
    all_printed_at capacity output (run capacity ms (start output)) _ refl h
      (reached-IsSound capacity output ms) stuck
