-- ===== src/Popen/Tests.antt =====
-- Two children, of which the second is closed first.
use nsysu_network_applicatio.Prelude.{◌≡◌, codes, List, [], ◌∷◌, some, ok, arith}
use nsysu_network_applicatio.Popen.{start, Call, opens, closes, waits}
use nsysu_network_applicatio.Popen.Waits.{IsInRange, closings, waits-start}

abbrev calls : List Call
calls =
    opens (codes "r") (some (3, 4)) (some 100)
    ∷ opens (codes "w") (some (5, 6)) (some 101)
    ∷ closes 6
    ∷ closes 3
    ∷ []

waits-start_example : waits start calls ≡ ok (0 ∷ 0 ∷ [])
unfolding closings IsInRange
waits-start_example = waits-start calls (tt, (tt, (omega arith, (omega arith, tt))))
