-- ===== src/SharedClock/Reopened.antt =====
-- What is left behind `latency_shm_open`.
use nsysu_network_applicatio.Prelude.{
  ℕ, ◌≡◌, refl, ap, Bool, List, ◌∷◌, Option, none, some, arith, inl, inr, Bool-cases,
}
use nsysu_network_applicatio.SharedClock.{
  LatencyShm, World, Answers, latency_shm_size, remove, close, munmap, Result, reopened, shm_reopen,
  latency_shm_open, close_if, latency_shm_close,
}
use nsysu_network_applicatio.SharedClock.Released.{remove_first}

remove_same : (a b : ℕ) (xs : List ℕ) → a ≡ b → remove a (b ∷ xs) ≡ xs
unfolding remove
remove_same a b xs e = ground arith

-- What `latency_shm_open` may leave, in a program that has the same number of tasks.
unfoldable pub OpenLeaves : World → ℕ → World × Result → Type 0
OpenLeaves w task_count (w', none) = w' ≡ w
OpenLeaves w task_count (w', some (shm, fd)) =
    (w.object ≡ some shm) × (shm.task_count ≡ task_count → latency_shm_close shm fd w' ≡ w)

-- the world behind a mapping, and behind its close
abbrev with_open : World → ℕ → ℕ → World
with_open w fd task_count = record w {
  fds = fd ∷ w.fds;
  mappings = latency_shm_size task_count ∷ w.mappings;
}

close-with_open :
    (w : World) (shm : LatencyShm) (fd task_count : ℕ)
    → shm.task_count ≡ task_count
    → (latency_shm_close shm (some fd) (with_open w fd task_count) ≡ w)
      × (latency_shm_close shm none (close fd (with_open w fd task_count)) ≡ w)
unfolding latency_shm_close close_if munmap close
close-with_open w shm fd task_count same =
    let unmapped : remove (latency_shm_size shm.task_count)
          (latency_shm_size task_count ∷ w.mappings)
        ≡ w.mappings =
      remove_same _ _ w.mappings (ap latency_shm_size same) in
    let closed = remove_first fd w.fds in
    let both : record w {
      fds = remove fd (fd ∷ w.fds);
      mappings =
          remove (latency_shm_size shm.task_count) (latency_shm_size task_count ∷ w.mappings);
    }
        ≡ w =
      λ i. record w { fds = closed i; mappings = unmapped i } in
    (both, both)

reopened-OpenLeaves :
    (w : World) (a : Answers) (shm : LatencyShm) (fd task_count : ℕ) (fd_out : Bool)
    → w.object ≡ some shm
    → OpenLeaves w task_count (reopened w a shm fd task_count fd_out)
unfolding reopened OpenLeaves
reopened-OpenLeaves w a shm fd task_count fd_out e = elim (Bool-cases a.maps) [
  | inr refused ↦ rw refused (unfold close in rw (remove_first fd w.fds) refl)
  | inl granted ↦ rw granted (elim (Bool-cases fd_out) [
    | inl out ↦ rw out (e, λ same. (close-with_open w shm fd task_count same).0)
    | inr kept ↦ rw kept (e, λ same. (close-with_open w shm fd task_count same).1)
  ])
]

shm_reopen-OpenLeaves :
    (w : World) (a : Answers) (d : Option ℕ) (o : Option LatencyShm) (task_count : ℕ)
    (fd_out : Bool)
    → w.object ≡ o
    → OpenLeaves w task_count (shm_reopen w a d o task_count fd_out)
unfolding shm_reopen
shm_reopen-OpenLeaves w a none o task_count fd_out e = unfold OpenLeaves in refl
shm_reopen-OpenLeaves w a (some fd) none task_count fd_out e = unfold OpenLeaves in refl
shm_reopen-OpenLeaves w a (some fd) (some shm) task_count fd_out e =
    reopened-OpenLeaves w a shm fd task_count fd_out e

-- `latency_shm_open` leaves everything as it was where it fails; where it succeeds it gives the object
-- of the name, and `latency_shm_close` leaves everything as it was before, if the object was made for
-- as many tasks.
pub latency_shm_open-OpenLeaves :
    (w : World) (a : Answers) (task_count : ℕ) (fd_out : Bool)
    → OpenLeaves w task_count (latency_shm_open w a task_count fd_out)
unfolding latency_shm_open
latency_shm_open-OpenLeaves w a task_count fd_out =
    shm_reopen-OpenLeaves w a a.descriptor w.object task_count fd_out refl
