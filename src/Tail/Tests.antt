-- ===== src/Tail/Tests.antt =====
-- The theorem on a file of two lines, and on an empty one.
use nsysu_network_applicatio.Prelude.{
  ◌≡◌, ◌&&◌, codes, Bytes, [], ◌∷◌, ◌++◌, length, fault, out_of_bounds, uninitialised, leb,
  if◌then◌else◌,
}
use nsysu_network_applicatio.Prelude.Int.{pos, leb_ℤ}
use nsysu_network_applicatio.Tail.{tail}
use nsysu_network_applicatio.Tail.Faults.{tail_lem}

abbrev file : Bytes
file = codes "one" ++ 10 ∷ (codes "two" ++ 10 ∷ [])

tail_lem_example :
    tail (pos 1) file
    ≡ fault (if leb 1 (length file) && leb_ℤ (pos 1) (pos 1) then out_of_bounds else uninitialised)
tail_lem_example = tail_lem (pos 1) file
