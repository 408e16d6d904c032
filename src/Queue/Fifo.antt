-- ===== src/Queue/Fifo.antt =====
-- What the callers of `Enqueue` and `Dequeue` rely on: a first-in first-out list of identifiers.
use nsysu_network_applicatio.Prelude.{List, [], ◌∷◌, ◌++◌}
use nsysu_network_applicatio.Prelude.Int.{ℤ, negsuc}

unfoldable pub push : List ℤ → ℤ → List ℤ
push xs v = xs ++ v ∷ []

-- -1 where there is nothing
unfoldable pub pop : List ℤ → ℤ × List ℤ
pop [] = (negsuc 0, [])
pop (x ∷ xs) = (x, xs)
