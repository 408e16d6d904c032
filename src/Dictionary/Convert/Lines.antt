-- ===== src/Dictionary/Convert/Lines.antt =====
-- What `fgets` gives of a file that is written line by line, and what a line is worth to `convert`.
use nsysu_network_applicatio.Prelude.{
  ℕ, ◌-◌, ◌<◌, ◌≡◌, refl, ap, false, Bytes, [], ◌∷◌, ◌++◌, length, append_assoc, ok, ◌==◌, arith,
  str_eq, All,
}
use nsysu_network_applicatio.Dictionary.{newline}
use nsysu_network_applicatio.Dictionary.Convert.{lines_from, lines_of, before_newline, first_token}

-- no byte of a line is a newline or a NUL
abbrev pub IsPlain : Bytes → Type 0
IsPlain = All (λ c. ((c == newline) ≡ false) × ((c == 0) ≡ false))

-- a line with its newline
abbrev pub ended : Bytes → Bytes
ended line = line ++ newline ∷ []

lines_from_line :
    (line cur rest : Bytes) (room : ℕ)
    → IsPlain line
    → length line < room
    → lines_from room cur (line ++ newline ∷ rest) ≡ (cur ++ ended line) ∷ lines_of rest
unfolding lines_from lines_of
lines_from_line [] cur rest room plain h = refl
lines_from_line (c ∷ line) cur rest room plain h = rw (plain.0.0) (
    ground (
      arith,
      append_assoc cur (c ∷ []) (ended line),
      lines_from_line line (cur ++ c ∷ []) rest (room - 1) plain.1 (omega arith),
    ))

-- A line that fits into the buffer with its newline is read by one call.
pub lines_of-line :
    (line rest : Bytes)
    → IsPlain line
    → length line < 511
    → lines_of (line ++ newline ∷ rest) ≡ ended line ∷ lines_of rest
unfolding lines_of
lines_of-line line rest plain h = lines_from_line line [] rest 511 plain h

before_newline-ended : (line : Bytes) → IsPlain line → before_newline (ended line) ≡ line
unfolding before_newline
before_newline-ended [] plain = refl
before_newline-ended (c ∷ line) plain =
    rw (plain.0.0) (ap (λ l. c ∷ l) (before_newline-ended line plain.1))

-- The word of a line.
pub first_token-ended :
    (c : ℕ) (line : Bytes) → IsPlain (c ∷ line) → first_token (ended (c ∷ line)) ≡ ok (c ∷ line)
unfolding first_token
first_token-ended c line plain =
    rw (plain.0.0) (ap (λ l. ok (c ∷ l)) (before_newline-ended line plain.1))

-- A line that is not empty does not end a definition.
pub str_eq-ended :
    (c : ℕ) (line : Bytes) → IsPlain (c ∷ line) → str_eq (ended (c ∷ line)) (newline ∷ []) ≡ false
unfolding str_eq
str_eq-ended c line plain = rw (plain.0.0) refl
