-- ===== src/SharedClock.antt =====
-- hw12/latency_shm.h: the array of sending times that launcher, producer and broker share. A mapping
-- holds a header of 8 bytes, and 8 bytes for each time.
pub mod Released
pub mod Reopened
pub mod Tests
use nsysu_network_applicatio.Prelude.{
  ℕ, zero, suc, ◌+◌, ◌-◌, ◌*◌, ◌/◌, Bool, true, false, List, [], ◌∷◌, Option, none, some, Run, ok,
  fault, ◌>>=◌, out_of_bounds, get_elem?, set, replicate, ltb, ◌==◌, if◌then◌else◌, length,
}
use nsysu_network_applicatio.Prelude.Int.{ℤ, pos, negsuc}

-- `LatencyShm`
pub record LatencyShm : Type 0 where
  pub task_count : ℕ
  pub send_ns : List ℤ

-- What there is of the resources: the object of the name, the open descriptors, and the sizes of the
-- mappings.
pub record World : Type 0 where
  pub object : Option LatencyShm
  pub fds : List ℕ
  pub mappings : List ℕ

-- The answers of the kernel to `shm_open`, `ftruncate` and `mmap`.
pub record Answers : Type 0 where
  pub descriptor : Option ℕ
  pub truncates : Bool
  pub maps : Bool

unfoldable pub latency_shm_size : ℕ → ℕ
latency_shm_size task_count = 8 + task_count * 8

unfoldable pub remove : ℕ → List ℕ → List ℕ
remove a [] = []
remove a (x ∷ xs) = if x == a then xs else x ∷ remove a xs

unfoldable pub close : ℕ → World → World
unfolding remove
close fd w = record w { fds = remove fd w.fds }

unfoldable pub munmap : ℕ → World → World
unfolding remove
munmap size w = record w { mappings = remove size w.mappings }

unfoldable pub shm_unlink : World → World
shm_unlink w = record w { object = none }

-- `shm->send_ns[i] = value`, within the mapping
unfoldable pub write : List ℤ → ℕ → ℤ → Run (List ℤ)
write send_ns i value =
    if ltb i (length send_ns) then ok (set send_ns i value) else fault out_of_bounds

-- the loop that marks every task as not yet sent, with `left` rounds to go
unfoldable pub fill : ℕ → ℕ → List ℤ → Run (List ℤ)
unfolding write
fill zero i send_ns = ok send_ns
fill (suc left) i send_ns = do send_ns' ← write send_ns i (negsuc 0); fill left (suc i) send_ns'

-- how many times there is room for in a mapping of so many bytes
unfoldable pub slots : ℕ → ℕ
slots size = (size - 8) / 8

-- what a call returns, with the descriptor in `*fd_out` if there is one
abbrev pub Result : Type 0
Result = Option (LatencyShm × Option ℕ)

-- Behind `mmap` in `latency_shm_create`, which maps as many bytes as `latency_shm_size` says, all
-- of them 0; the descriptor is given out or closed.
unfoldable pub mapped : World → ℕ → ℕ → (fd_out : Bool) → Run (World × Result)
unfolding fill close latency_shm_size slots
mapped w fd task_count fd_out = do
  send_ns ← fill task_count 0 (replicate (slots (latency_shm_size task_count)) (pos 0))
  let shm : LatencyShm = record { task_count = task_count; send_ns = send_ns }
  let w' : World = record w {
    object = some shm;
    mappings = latency_shm_size task_count ∷ w.mappings;
  }
  ok (if fd_out then (w', some (shm, some fd)) else (close fd w', some (shm, none)))

-- Behind `shm_open`, which has made the object.
unfoldable pub created : World → Answers → ℕ → ℕ → Bool → Run (World × Result)
unfolding mapped close shm_unlink
created w a fd task_count fd_out =
    if a.truncates
    then if a.maps then mapped w fd task_count fd_out else ok (shm_unlink (close fd w), none)
    else ok (shm_unlink (close fd w), none)

-- `shm_open` with O_EXCL fails where the object exists; else it makes an empty one.
unfoldable pub shm_create : World → Answers → Option ℕ → ℕ → Bool → Run (World × Result)
unfolding created
shm_create w a none task_count fd_out = ok (w, none)
shm_create w a (some fd) task_count fd_out =
    created (record w { object = some (record { task_count = 0; send_ns = [] }); fds = fd ∷ w.fds })
      a fd task_count fd_out

unfoldable pub exclusive : World → Answers → Option LatencyShm → Option ℕ
exclusive w a none = a.descriptor
exclusive w a (some object) = none

unfoldable pub latency_shm_create : World → Answers → ℕ → Bool → Run (World × Result)
unfolding shm_create exclusive
latency_shm_create w a task_count fd_out = shm_create w a (exclusive w a w.object) task_count fd_out

-- Behind `shm_open` in `latency_shm_open`.
unfoldable pub reopened : World → Answers → LatencyShm → ℕ → ℕ → Bool → World × Result
unfolding close latency_shm_size
reopened w a shm fd task_count fd_out =
    let w' : World = record w {
      fds = fd ∷ w.fds;
      mappings = latency_shm_size task_count ∷ w.mappings;
    } in
    if a.maps
    then if fd_out then (w', some (shm, some fd)) else (close fd w', some (shm, none))
    else (close fd (record w { fds = fd ∷ w.fds }), none)

unfoldable pub shm_reopen :
    World → Answers → Option ℕ → Option LatencyShm → ℕ → Bool → World × Result
unfolding reopened
shm_reopen w a none object task_count fd_out = (w, none)
shm_reopen w a (some fd) none task_count fd_out = (w, none)
shm_reopen w a (some fd) (some shm) task_count fd_out = reopened w a shm fd task_count fd_out

unfoldable pub latency_shm_open : World → Answers → ℕ → Bool → World × Result
unfolding shm_reopen
latency_shm_open w a task_count fd_out = shm_reopen w a a.descriptor w.object task_count fd_out

unfoldable pub close_if : Option ℕ → World → World
unfolding close
close_if none w = w
close_if (some fd) w = close fd w

-- `latency_shm_close` of a mapping
unfoldable pub latency_shm_close : LatencyShm → Option ℕ → World → World
unfolding munmap latency_shm_size close_if
latency_shm_close shm fd w = close_if fd (munmap (latency_shm_size shm.task_count) w)
