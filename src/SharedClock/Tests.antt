-- ===== src/SharedClock/Tests.antt =====
-- The theorem where the mapping is refused, and where all goes well.
use nsysu_network_applicatio.Prelude.{◌≡◌, true, [], ◌∷◌, none, some, ok}
use nsysu_network_applicatio.SharedClock.{World, Answers, Result, latency_shm_create}
use nsysu_network_applicatio.SharedClock.Released.{Leaves, latency_shm_create-Leaves}

abbrev world : World
world = record { object = none; fds = 0 ∷ 1 ∷ 2 ∷ []; mappings = [] }

abbrev willing : Answers
willing = record { descriptor = some 3; truncates = true; maps = true }

latency_shm_create-Leaves_example :
    (w' : World) × (r : Result) × (latency_shm_create world willing 4 true ≡ ok (w', r))
    × Leaves world 4 w' r
latency_shm_create-Leaves_example = latency_shm_create-Leaves world willing 4 true
