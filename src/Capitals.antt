-- ===== src/Capitals.antt =====
-- hw7/toCapital.c: a parent sends each line to a child, which sends it back in capitals. A message has
-- at most 1024 bytes, and the next one is sent behind the answer, so that a `read` gives just one.
pub mod Answered
pub mod Tests
use nsysu_network_applicatio.Prelude.{
  ℕ, zero, suc, ◌-◌, Bool, true, false, ◌&&◌, Bytes, List, [], ◌∷◌, ◌++◌, map, Fault, uninitialised,
  out_of_fuel, leb, ◌==◌, if◌then◌else◌,
}
use nsysu_network_applicatio.Broker.Message.{until_nul}
use nsysu_network_applicatio.Dictionary.Convert.{before_newline}

-- `fgets`: at most `room` bytes, up to the newline, and what stands behind them
unfoldable pub fgets : ℕ → Bytes → Bytes × Bytes
fgets zero input = ([], input)
fgets (suc room) [] = ([], [])
fgets (suc room) (c ∷ input) =
    let rest = fgets room input in if c == 10 then (c ∷ [], input) else (c ∷ rest.0, rest.1)

unfoldable pub capital : ℕ → ℕ
capital c = if leb b'a' c && leb c b'z' then c - 32 else c

-- the child: the loop over the string in its buffer, and the string with its NUL
unfoldable pub child : Bytes → Bytes
unfolding capital until_nul
child message = map capital (until_nul message) ++ 0 ∷ []

-- what the parent sends of what it read, without the newline
unfoldable pub message : Bytes → Bytes
unfolding before_newline until_nul
message input = before_newline (until_nul input) ++ 0 ∷ []

-- what is printed as the processed string
unfoldable pub answer : Bytes → Bytes
unfolding child message
answer input = until_nul (child (message input))

-- The loop of the parent: the processed strings, and what ends it. Behind the end of the input, `fgets`
-- leaves the array `input` as it is, unwritten.
unfoldable pub session : ℕ → Bytes → List Bytes × Fault
session zero input = ([], out_of_fuel)
session (suc fuel) [] = ([], uninitialised)
session (suc fuel) (c ∷ input) =
    let got = fgets 1023 (c ∷ input) in
    let later = session fuel got.1 in (answer got.0 ∷ later.0, later.1)
