-- ===== src/Broker/Message.antt =====
-- The text of a task message: hw12/producer.c prints it, hw12/broker.c and hw12/worker.c read the
-- number back out of a buffer of 80 bytes.

pub mod RoundTrip
use nsysu_network_applicatio.Prelude.{
  ℕ, suc, ◌+◌, ◌-◌, Bool, true, false, ◌&&◌, ◌||◌, Bytes, codes, List, [], ◌∷◌, ◌++◌, take, Option,
  none, some, Run, ok, fault, uninitialised, leb, ◌==◌, if◌then◌else◌,
}
use nsysu_network_applicatio.Prelude.Int.{ℤ, pos, negsuc}
use nsysu_network_applicatio.Prelude.Decimal.{decimal, is_digit, read_digits}

-- `%d`
unfoldable pub decimal_int : ℤ → Bytes
decimal_int (pos n) = decimal n
decimal_int (negsuc n) = b'-' ∷ decimal (suc n)

-- `snprintf(buffer, 80, "TASK %d : This is message %d", id, id)`
unfoldable pub task_text : ℤ → Bytes
unfolding decimal_int
task_text id = codes "TASK " ++ (decimal_int id ++ (codes " : This is message " ++ decimal_int id))

-- the bytes in front of the first NUL
unfoldable pub until_nul : Bytes → Bytes
until_nul [] = []
until_nul (c ∷ s) = if c == 0 then [] else c ∷ until_nul s

-- the string in the buffer: at most 79 bytes are copied, and a NUL is put behind them
unfoldable pub clip : Bytes → Bytes
unfolding until_nul
clip message = until_nul (take 79 message)

-- white space, as `isspace` has it
unfoldable pub is_space : ℕ → Bool
is_space c = c == 32 || leb 9 c && leb c 13

unfoldable pub skip_space : Bytes → Bytes
unfolding is_space
skip_space [] = []
skip_space (c ∷ s) = if is_space c then skip_space s else c ∷ s

-- the rest behind a literal prefix
unfoldable pub strip : Bytes → Bytes → Option Bytes
strip [] s = some s
strip (c ∷ p) [] = none
strip (c ∷ p) (d ∷ s) = let rest = strip p s in if c == d then rest else none

starts_digit : Bytes → Bool
unfolding is_digit
starts_digit [] = false
starts_digit (c ∷ s) = is_digit c

abbrev negate : ℕ → ℤ
negate n = if n == 0 then pos 0 else negsuc (n - 1)

-- `%d` of sscanf on what stands behind the white space: an optional sign and digits
unfoldable pub scan_int : Bytes → Option ℤ
unfolding read_digits starts_digit
scan_int [] = none
scan_int (c ∷ s) =
    if c == b'-'
    then (if starts_digit s then some (negate (read_digits s 0).0) else none)
    else if c == b'+'
    then (if starts_digit s then some (pos (read_digits s 0).0) else none)
    else if is_digit c
    then some (pos (read_digits (c ∷ s) 0).0)
    else none

unfoldable pub scan_behind : Option Bytes → Option ℤ
unfolding scan_int skip_space
scan_behind none = none
scan_behind (some s) = scan_int (skip_space s)

-- `sscanf(message, "TASK %d", &task_id)`. A number beyond `int` is read as it stands.
unfoldable pub scan_task : Bytes → Option ℤ
unfolding scan_behind strip
scan_task message = scan_behind (strip (codes "TASK") message)

abbrev or_minus_one : Option ℤ → ℤ
or_minus_one none = negsuc 0
or_minus_one (some id) = id

-- `get_task_id` of the broker
unfoldable pub get_task_id : Bytes → ℤ
unfolding scan_task
get_task_id message = or_minus_one (scan_task message)

abbrev or_uninitialised : Option ℤ → Run ℤ
or_uninitialised none = fault uninitialised
or_uninitialised (some id) = ok id

-- `get_task_id` of the worker, which returns its local variable whatever `sscanf` says
unfoldable pub worker_task_id : Bytes → Run ℤ
unfolding scan_task
worker_task_id message = or_uninitialised (scan_task message)
