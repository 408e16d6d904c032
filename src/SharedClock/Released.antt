-- ===== src/SharedClock/Released.antt =====
-- What is left of the resources behind the calls.
use nsysu_network_applicatio.Prelude.{
  ℕ, zero, suc, ◌≡◌, refl, sym, ap, ◌∙◌, Bool, true, false, List, [], ◌∷◌, ◌++◌, append_assoc,
  Option, none, some, Run, ok, lt→ltb, length, length-append, set-append, replicate, if◌then◌else◌,
  arith, inl, inr, Bool-cases, Option-cases,
}
use nsysu_network_applicatio.Prelude.Int.{ℤ, pos, negsuc}
use nsysu_network_applicatio.SharedClock.{
  LatencyShm, World, Answers, latency_shm_size, remove, close, munmap, shm_unlink, write, fill,
  slots, Result, mapped, created, shm_create, exclusive, latency_shm_create, close_if,
  latency_shm_close,
}

-- The times of tasks of which none was sent.
unfoldable pub unsent : ℕ → List ℤ
unsent task_count = replicate task_count (negsuc 0)

write_next :
    (front : List ℤ) (old : ℤ) (rest : List ℤ) (v : ℤ) (i : ℕ)
    → i ≡ length front
    → write (front ++ old ∷ rest) i v ≡ ok (front ++ v ∷ rest)
unfolding write
write_next front old rest v i e =
    rw
      (
        lt→ltb i (length (front ++ old ∷ rest)) (omega (arith, length-append front (old ∷ rest))),
        set-append front old rest i v e,
      )
      refl

-- The loop stays within the mapping and marks every task.
fill_lem :
    (left : ℕ) (front : List ℤ) (i : ℕ)
    → i ≡ length front
    → fill left i (front ++ replicate left (pos 0)) ≡ ok (front ++ unsent left)
unfolding fill unsent
fill_lem zero front i e = refl
fill_lem (suc left) front i e =
    rw (write_next front (pos 0) (replicate left (pos 0)) (negsuc 0) i e) (
      sym (
        ap (λ l. fill left (suc i) l) (append_assoc front (negsuc 0 ∷ []) (replicate left (pos 0))))
      ∙ fill_lem left (front ++ negsuc 0 ∷ []) (suc i)
          (omega (arith, length-append front (negsuc 0 ∷ [])))
      ∙ ap ok (append_assoc front (negsuc 0 ∷ []) (unsent left)))

abbrev filled : ℕ → LatencyShm
filled task_count = record { task_count = task_count; send_ns = unsent task_count }

-- the world with the mapping and the descriptor
abbrev with_mapping : World → ℕ → ℕ → World
with_mapping w fd task_count = record w {
  object = some (filled task_count);
  fds = fd ∷ w.fds;
  mappings = latency_shm_size task_count ∷ w.mappings;
}

pub remove_first : (a : ℕ) (xs : List ℕ) → remove a (a ∷ xs) ≡ xs
unfolding remove
remove_first a xs = ground arith

-- What a call may leave: nothing where it fails; else the object with no task sent, and no more than
-- `latency_shm_close` and `shm_unlink` take away.
unfoldable pub Leaves : World → ℕ → World → Result → Type 0
Leaves w task_count w' none = w' ≡ w
Leaves w task_count w' (some (shm, fd)) =
    (w.object ≡ none)
    × (shm ≡ record { task_count = task_count; send_ns = unsent task_count })
    × (w'.object ≡ some shm)
    × (shm_unlink (latency_shm_close shm fd w') ≡ w)

unlinked : (w : World) → w.object ≡ none → record w { object = none } ≡ w
unlinked w e = ground arith

-- A mapping of that size has room for the time of each task.
slots-latency_shm_size : (task_count : ℕ) → slots (latency_shm_size task_count) ≡ task_count
unfolding slots latency_shm_size
slots-latency_shm_size task_count = omega arith

mapped_lem :
    (w : World) (fd task_count : ℕ) (fd_out : Bool)
    → mapped w fd task_count fd_out
      ≡ ok (
          if fd_out
          then (
            record w {
              object = some (filled task_count);
              mappings = latency_shm_size task_count ∷ w.mappings;
            },
            some (filled task_count, some fd),
          )
          else (
            close fd (record w {
              object = some (filled task_count);
              mappings = latency_shm_size task_count ∷ w.mappings;
            }),
            some (filled task_count, none),
          ))
unfolding mapped
mapped_lem w fd task_count fd_out =
    rw (slots-latency_shm_size task_count, fill_lem task_count [] 0 refl) refl

-- from a world in which the object was just made
mapped-Leaves :
    (w : World) (fd task_count : ℕ) (fd_out : Bool)
    → w.object ≡ none
    → (w' : World) × (r : Result) × (mapped
          (record w { object = some (record { task_count = 0; send_ns = [] }); fds = fd ∷ w.fds })
          fd
          task_count
          fd_out
        ≡ ok (w', r))
      × Leaves w task_count w' r
unfolding Leaves latency_shm_close close_if munmap close shm_unlink
mapped-Leaves w fd task_count true e = (
  _,
  _,
  mapped_lem _ fd task_count true,
  (
    e,
    refl,
    refl,
    rw (remove_first fd w.fds, remove_first (latency_shm_size task_count) w.mappings)
        (unlinked w e),
  ),
)
mapped-Leaves w fd task_count false e = (
  _,
  _,
  mapped_lem _ fd task_count false,
  (
    e,
    refl,
    refl,
    rw (remove_first fd w.fds, remove_first (latency_shm_size task_count) w.mappings)
        (unlinked w e),
  ),
)

abbrev Outcome : World → ℕ → Run (World × Result) → Type 0
Outcome w task_count call =
    (w' : World) × (r : Result) × (call ≡ ok (w', r)) × Leaves w task_count w' r

created-Leaves :
    (w : World) (a : Answers) (fd task_count : ℕ) (fd_out : Bool)
    → w.object ≡ none
    → Outcome w task_count (
        created
          (record w { object = some (record { task_count = 0; send_ns = [] }); fds = fd ∷ w.fds })
          a
          fd
          task_count
          fd_out)
unfolding created
created-Leaves w a fd task_count fd_out e =
    let undone : record w { object = none; fds = remove fd (fd ∷ w.fds) } ≡ w =
      rw (remove_first fd w.fds) (unlinked w e) in
    let failed : Leaves w task_count
        (shm_unlink (
          close fd (record w {
            object = some (record { task_count = 0; send_ns = [] });
            fds = fd ∷ w.fds;
          })))
        none =
      unfold Leaves in unfold close in unfold shm_unlink in undone in
    elim (Bool-cases a.truncates) [
      | inr no_room ↦ rw no_room (_, none, refl, failed)
      | inl room ↦ rw room (elim (Bool-cases a.maps) [
        | inr refused ↦ rw refused (_, none, refl, failed)
        | inl granted ↦ rw granted (mapped-Leaves w fd task_count fd_out e)
      ])
    ]

shm_create-Leaves :
    (w : World) (a : Answers) (o : Option LatencyShm) (task_count : ℕ) (fd_out : Bool)
    → w.object ≡ o
    → Outcome w task_count (shm_create w a (exclusive w a o) task_count fd_out)
unfolding shm_create exclusive
shm_create-Leaves w a (some object) task_count fd_out e = (w, none, refl, unfold Leaves in refl)
shm_create-Leaves w a none task_count fd_out e = elim (Option-cases a.descriptor) [
  | inl refused ↦ rw refused (w, none, refl, unfold Leaves in refl)
  | inr (fd, made) ↦ rw made (created-Leaves w a fd task_count fd_out e)
]

-- `latency_shm_create` stays within its mapping and returns, whatever the kernel answers. Where it
-- fails it leaves everything as it was; where it succeeds no object had the name, every task is marked
-- as not yet sent, and `latency_shm_close` and `shm_unlink` leave everything as it was before.
pub latency_shm_create-Leaves :
    (w : World) (a : Answers) (task_count : ℕ) (fd_out : Bool)
    → (w' : World) × (r : Result) × (latency_shm_create w a task_count fd_out ≡ ok (w', r))
      × Leaves w task_count w' r
unfolding latency_shm_create
latency_shm_create-Leaves w a task_count fd_out =
    shm_create-Leaves w a w.object task_count fd_out refl
