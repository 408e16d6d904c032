-- ===== src/FifoModes/Timed.antt =====
-- The program with its sleeps: a call takes no time, and a sleep just as long as it says.
use nsysu_network_applicatio.Prelude.{
  ℕ, zero, suc, ◌-◌, ◌≡◌, refl, sym, Bool, true, false, List, [], ◌∷◌, Option, none, some, ltb,
  ◌==◌, if◌then◌else◌,
}
use mathlib.Core.Path.{fun_ext, subst}
use nsysu_network_applicatio.FifoModes.{
  Mode, both_block, client_nonblock, server_nonblock, both_nonblock, Side, server, client, Answer,
  opened, waits, refused, Kernel, IsFifo, ready, Process, System, start, step,
}

unfoldable pub process : Side → System → Process
process server s = s.server_process
process client s = s.client_process

-- a turn of a side that is awake
unfoldable pub awake : Kernel → Mode → Side → System → Option System
unfolding process step
awake k m side s = if (process side s).asleep == 0 then step k m side s else none

-- how long it is until the next one wakes up
unfoldable pub next_alarm : ℕ → ℕ → ℕ
next_alarm a b = if a == 0 then b else if b == 0 then a else if ltb a b then a else b

unfoldable pub pass : ℕ → System → System
pass ms s = record {
  server_process = record s.server_process { asleep = s.server_process.asleep - ms };
  client_process = record s.client_process { asleep = s.client_process.asleep - ms };
}

unfoldable pub or_pass : System → Option System → System
unfolding pass next_alarm
or_pass s none = pass (next_alarm s.server_process.asleep s.client_process.asleep) s
or_pass s (some s') = s'

unfoldable pub or_else : Option System → Option System → Option System
or_else none o = o
or_else (some s) o = some s

unfoldable pub other_side : Side → Side
other_side server = client
other_side client = server

-- What happens next: a turn of a side that can move, of `first` if both can, and time passes where none
-- can.
unfoldable pub happen : Kernel → Mode → Side → System → System
unfolding or_pass or_else awake other_side
happen k m first s = or_pass s (or_else (awake k m first s) (awake k m (other_side first) s))

unfoldable pub timed : ℕ → Kernel → Mode → Side → System → System
unfolding happen
timed zero k m first s = s
timed (suc n) k m first s = timed n k m first (happen k m first s)

-- The calls of `open` of the server and of the client, as the program announces them.
unfoldable pub announced : Mode → List Answer × List Answer
announced both_block = (opened ∷ opened ∷ [], opened ∷ opened ∷ [])
announced client_nonblock = (opened ∷ [], refused ∷ opened ∷ [])
announced server_nonblock = (opened ∷ opened ∷ [], opened ∷ [])
announced both_nonblock = (opened ∷ [], refused ∷ [])

unfoldable pub finished : List Answer → Process
finished results = record { todo = []; status = ready; asleep = 0; results = results }

documented : Kernel
documented side blocking true = opened
documented side true false = waits
documented server false false = opened
documented client false false = refused

documented_lem :
    {k : Kernel} (f : IsFifo k) (side : Side) (blocking present : Bool)
    → documented side blocking present ≡ k side blocking present
unfolding documented
documented_lem f server true true = sym (f.other_opens server true)
documented_lem f server false true = sym (f.other_opens server false)
documented_lem f client true true = sym (f.other_opens client true)
documented_lem f client false true = sym (f.other_opens client false)
documented_lem f server true false = sym (f.blocking_waits server)
documented_lem f client true false = sym (f.blocking_waits client)
documented_lem f server false false = sym f.reader_opens
documented_lem f client false false = sym f.writer_refused

kernel_documented : {k : Kernel} → IsFifo k → documented ≡ k
kernel_documented f =
    fun_ext
      (λ side. fun_ext (λ blocking. fun_ext (λ present. documented_lem f side blocking present)))

abbrev ends : Mode → System
ends m = record {
  server_process = finished (announced m).0;
  client_process = finished (announced m).1;
}

all_modes_end : (m : Mode) (first : Side) → timed 30 documented m first (start m) ≡ ends m
unfolding timed start documented finished announced
all_modes_end both_block server = refl
all_modes_end both_block client = refl
all_modes_end client_nonblock server = refl
all_modes_end client_nonblock client = refl
all_modes_end server_nonblock server = refl
all_modes_end server_nonblock client = refl
all_modes_end both_nonblock server = refl
all_modes_end both_nonblock client = refl

-- With its sleeps the program shows in each mode what it announces, whichever side moves first where
-- both can: within thirty events both processes come to their ends, and every `open` succeeds but the
-- first one of a client with O_NONBLOCK, which fails with ENXIO.
pub timed_ends :
    {k : Kernel} (f : IsFifo k) (m : Mode) (first : Side)
    → timed 30 k m first (start m) ≡ record {
      server_process = finished (announced m).0;
      client_process = finished (announced m).1;
    }
timed_ends f m first =
    subst (λ k. timed 30 k m first (start m) ≡ ends m) (kernel_documented f) (all_modes_end m first)
