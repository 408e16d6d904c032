-- ===== src/Popen.antt =====
-- hw7/popen_close.c: `mypopen` runs a command behind a pipe, `mypclose` waits for it.
pub mod Waits
pub mod Tests
use nsysu_network_applicatio.Prelude.{
  ℕ, zero, suc, ◌+◌, Bool, true, false, Bytes, codes, List, [], ◌∷◌, ◌++◌, Option, none, some, Run,
  ok, fault, ◌>>=◌, out_of_bounds, get_elem?, set, replicate, str_eq, if◌then◌else◌,
}
use nsysu_network_applicatio.Prelude.Int.{ℤ, pos, negsuc}

-- The static tables, of 1024 and of 100 entries.
pub record Tables : Type 0 where
  pub child_pid : List ℕ
  pub child_pos : List ℤ
  pub child_count : ℕ

-- The tables at the start: of `child_pos` the first entry alone is -1.
unfoldable pub start : Tables
start = record {
  child_pid = replicate 1024 0;
  child_pos = negsuc 0 ∷ replicate 99 (pos 0);
  child_count = 0;
}

-- What a process does with its table `i`-th entry.
unfoldable pub at {ℓ} : {A : Type ℓ} → Option A → Run A
at none = fault out_of_bounds
at (some a) = ok a

-- `xs[i] = v`
put {ℓ} : {A : Type ℓ} → List A → ℕ → A → Run (List A)
unfolding at
put xs i v = do old ← at (get_elem? xs i); ok (set xs i v)

-- the index of an `int`
index : ℤ → Run ℕ
index (pos n) = ok n
index (negsuc n) = fault out_of_bounds

-- The loop that closes what earlier children have: it closes what `child_pid` holds.
close_loop : Tables → ℕ → ℕ → Run (List ℕ)
unfolding at index
close_loop t zero i = ok []
close_loop t (suc left) i = do
  place ← at (get_elem? t.child_pos i)
  j ← index place
  fd ← at (get_elem? t.child_pid j)
  fds ← close_loop t left (i + 1)
  ok (fd ∷ fds)

-- `child_pid[fd] = pid; child_pos[child_count++] = fd`, in the child, where `pid` is 0
enter : Tables → ℕ → Run Tables
unfolding put
enter t fd = do
  pids ← put t.child_pid fd 0
  places ← put t.child_pos t.child_count (pos fd)
  ok (record { child_pid = pids; child_pos = places; child_count = t.child_count + 1 })

-- How a child comes to its end: with the descriptor that the command has as 1 or 0, or at "Invalid mode".
pub data Child : Type 0 where
  executes : (closed : List ℕ) (fd : ℕ) (standard : ℕ) → Tables → Child
  invalid : (closed : List ℕ) → Child

-- behind `dup2`: the command runs with `fd` as its descriptor 1 or 0
executing : Tables → List ℕ → ℕ → ℕ → Run Child
unfolding enter
executing t closed fd standard = do t' ← enter t fd; ok (executes closed fd standard t')

-- the branch of the child, with the pipe (`front`, `back`)
child_branch : Tables → Bytes → ℕ → ℕ → Run Child
unfolding close_loop executing
child_branch t mode front back = do
  closed ← close_loop t t.child_count 0
  (if str_eq mode (codes "r")
      then executing t closed back 1
      else if str_eq mode (codes "w")
      then executing t closed front 0
      else ok (invalid closed))

-- What the caller gets: NULL, or a stream on a descriptor; and the child, if there is one.
pub record Opened : Type 0 where
  pub stream : Option ℕ
  pub tables : Tables
  pub child : Option (Run Child)

-- the branch of the parent
parent_branch : Bytes → ℕ → ℕ → Option ℕ
parent_branch mode front back =
    if str_eq mode (codes "r")
    then some front
    else if str_eq mode (codes "w")
    then some back
    else none

-- `mypopen`, with the answers of `pipe` and of `fork`
unfoldable pub mypopen : Tables → Bytes → Option (ℕ × ℕ) → Option ℕ → Opened
unfolding child_branch parent_branch
mypopen t mode none fork = record { stream = none; tables = t; child = none }
mypopen t mode (some (front, back)) none = record { stream = none; tables = t; child = none }
mypopen t mode (some (front, back)) (some pid) = record {
  stream = parent_branch mode front back;
  tables = t;
  child = some (child_branch t mode front back);
}

-- `mypclose` on a stream with the descriptor `fd`: the process that it waits for
unfoldable pub mypclose : Tables → ℕ → Run ℕ
unfolding at
mypclose t fd = at (get_elem? t.child_pid fd)

-- The calls of a program.
pub data Call : Type 0 where
  opens : (mode : Bytes) (pipe : Option (ℕ × ℕ)) (fork : Option ℕ) → Call
  closes : (fd : ℕ) → Call

-- For each call of `mypclose` the process that it waits for.
unfoldable pub waits : Tables → List Call → Run (List ℕ)
unfolding mypopen mypclose
waits t [] = ok []
waits t (opens mode pipe fork ∷ calls) = waits (mypopen t mode pipe fork).tables calls
waits t (closes fd ∷ calls) = do pid ← mypclose t fd; pids ← waits t calls; ok (pid ∷ pids)
