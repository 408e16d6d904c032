-- ===== src/PipeListing.antt =====
-- hw6/part1/pipe_ls.c: a child runs `ls` with a pipe as its output; the parent waits for it, and then
-- prints what the pipe holds. The calls succeed.
pub mod Sound
pub mod Printed
pub mod Tests
use nsysu_network_applicatio.Prelude.{
  ℕ, zero, suc, ◌+◌, Bool, true, false, not, ◌&&◌, Bytes, List, [], ◌∷◌, ◌++◌, Option, none, some,
  length, take, drop, ltb, leb, if◌then◌else◌,
}

-- the parent, in `waitpid`, in its loop, or at its end
pub data Phase : Type 0 where
  waiting reading done : Phase

-- What the command has yet to write, what the pipe holds, whether the child has exited, and what the
-- parent has printed.
pub record System : Type 0 where
  pub left : Bytes
  pub held : Bytes
  pub exited : Bool
  pub phase : Phase
  pub printed : Bytes

unfoldable pub start : Bytes → System
start output = record { left = output; held = []; exited = false; phase = waiting; printed = [] }

-- The child writes some bytes, for which there is room, or exits; or the parent goes on.
pub data Move : Type 0 where
  child_writes : ℕ → Move
  child_exits : Move
  parent : Move

unfoldable pub write : ℕ → ℕ → System → Option System
write capacity n s =
    if ltb 0 n && leb n (length s.left) && leb (length s.held + n) capacity
    then some (record s { left = drop n s.left; held = s.held ++ take n s.left })
    else none

unfoldable pub exit : System → Bytes → Option System
exit s [] = if s.exited then none else some (record s { exited = true })
exit s (_ ∷ _) = none

-- a round of the loop: a `read` of up to 1024 bytes, and 0 where nobody can write any more
unfoldable pub read : System → Bytes → Option System
read s [] = if s.exited then some (record s { phase = done }) else none
read s (b ∷ held) =
    some (record s { held = drop 1024 (b ∷ held); printed = s.printed ++ take 1024 (b ∷ held) })

unfoldable pub parent_step : System → Phase → Option System
unfolding read
parent_step s waiting = if s.exited then some (record s { phase = reading }) else none
parent_step s reading = read s s.held
parent_step s done = none

-- what happens, in a pipe of so many bytes
unfoldable pub step : ℕ → Move → System → Option System
unfolding write exit parent_step
step capacity (child_writes n) s = write capacity n s
step capacity child_exits s = exit s s.left
step capacity parent s = parent_step s s.phase

unfoldable pub or_stay : System → Option System → System
or_stay s none = s
or_stay s (some s') = s'

-- a schedule; what cannot happen is passed over
unfoldable pub run : ℕ → List Move → System → System
unfolding step or_stay
run capacity [] s = s
run capacity (m ∷ ms) s = run capacity ms (or_stay s (step capacity m s))
