-- ===== src/Capitals/Tests.antt =====
-- The theorem on two lines.
use nsysu_network_applicatio.Prelude.{
  ◌≡◌, refl, Bytes, codes, List, [], ◌∷◌, map, uninitialised, arith,
}
use nsysu_network_applicatio.Capitals.{capital, session}
use nsysu_network_applicatio.Capitals.Answered.{joined, session-joined}

abbrev lines : List Bytes
lines = codes "Hi" ∷ codes "abc 1" ∷ []

session-joined_example : session 3 (joined lines) ≡ (map (map capital) lines, uninitialised)
session-joined_example =
    session-joined 3 lines (omega arith)
      (
        ((refl, refl), ((refl, refl), tt)),
        (((refl, refl), ((refl, refl), ((refl, refl), ((refl, refl), ((refl, refl), tt))))), tt),
      )
      (omega arith, (omega arith, tt))
