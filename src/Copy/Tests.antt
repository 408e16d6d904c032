-- ===== src/Copy/Tests.antt =====
-- The copy of a file of four bytes.
use nsysu_network_applicatio.Prelude.{◌≡◌, Bytes, [], ◌∷◌, none, some, ok}
use nsysu_network_applicatio.Copy.{copy, contents}
use nsysu_network_applicatio.Copy.Copied.{holed, copy-holed}

abbrev four : Bytes
four = 7 ∷ 0 ∷ 9 ∷ 0 ∷ []

copy-holed_example :
    (copy 10 four ≡ ok (some 7 ∷ none ∷ some 9 ∷ none ∷ [])) × (contents (holed four) ≡ four)
unfolding holed
copy-holed_example = copy-holed 10 four
