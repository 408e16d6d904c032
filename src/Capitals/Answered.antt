-- ===== src/Capitals/Answered.antt =====
-- The answers to lines.
use nsysu_network_applicatio.Prelude.{
  ℕ, zero, suc, ◌<◌, ◌≡◌, refl, ap, ◌∙◌, false, Bytes, List, [], ◌∷◌, ◌++◌, map, All, length,
  uninitialised, ◌==◌, arith,
}
use nsysu_network_applicatio.Broker.Message.{until_nul}
use nsysu_network_applicatio.Dictionary.Convert.{before_newline}
use nsysu_network_applicatio.Capitals.{fgets, capital, child, message, answer, session}

-- a byte of a line: neither NUL nor newline
abbrev pub IsPlain : ℕ → Type 0
IsPlain c = (c == 0 ≡ false) × (c == 10 ≡ false)

-- the lines, each with its newline
unfoldable pub joined : List Bytes → Bytes
joined [] = []
joined (line ∷ lines) = line ++ 10 ∷ joined lines

fgets_line :
    (room : ℕ) (line rest : Bytes)
    → All IsPlain line
    → length line < room
    → fgets room (line ++ 10 ∷ rest) ≡ (line ++ 10 ∷ [], rest)
unfolding fgets
fgets_line zero line rest p h = elim h [ ]
fgets_line (suc room) [] rest p h = refl
fgets_line (suc room) (c ∷ line) rest p h =
    rw (p.0.1, fgets_line room line rest p.1 (omega arith)) refl

until_nul_plain :
    (line : Bytes) (rest : Bytes) → All IsPlain line → until_nul (line ++ 0 ∷ rest) ≡ line
unfolding until_nul
until_nul_plain [] rest p = refl
until_nul_plain (c ∷ line) rest p = rw (p.0.0, until_nul_plain line rest p.1) refl

until_nul-line : (line : Bytes) → All IsPlain line → until_nul (line ++ 10 ∷ []) ≡ line ++ 10 ∷ []
unfolding until_nul
until_nul-line [] p = refl
until_nul-line (c ∷ line) p = rw (p.0.0, until_nul-line line p.1) refl

before_newline-line :
    (line rest : Bytes) → All IsPlain line → before_newline (line ++ 10 ∷ rest) ≡ line
unfolding before_newline
before_newline-line [] rest p = refl
before_newline-line (c ∷ line) rest p = rw (p.0.1, before_newline-line line rest p.1) refl

capital-IsPlain : (c : ℕ) → IsPlain c → capital c == 0 ≡ false
unfolding capital
capital-IsPlain c p = ground arith

until_nul-capitals :
    (line : Bytes) → All IsPlain line → until_nul (map capital line ++ 0 ∷ []) ≡ map capital line
unfolding until_nul
until_nul-capitals [] p = refl
until_nul-capitals (c ∷ line) p = rw (capital-IsPlain c p.0, until_nul-capitals line p.1) refl

answer-line : (line : Bytes) → All IsPlain line → answer (line ++ 10 ∷ []) ≡ map capital line
unfolding answer child message
answer-line line p =
    rw (until_nul-line line p, before_newline-line line [] p, until_nul_plain line [] p)
      (until_nul-capitals line p)

session_line :
    (fuel : ℕ) (line rest : Bytes)
    → All IsPlain line
    → length line < 1023
    → session (suc fuel) (line ++ 10 ∷ rest)
      ≡ (map capital line ∷ (session fuel rest).0, (session fuel rest).1)
unfolding session
session_line fuel [] rest p h =
    rw (fgets_line 1023 [] rest p h)
      (ap (λ a. (a ∷ (session fuel rest).0, (session fuel rest).1)) (answer-line [] p))
session_line fuel (c ∷ line) rest p h =
    rw (fgets_line 1023 (c ∷ line) rest p h)
      (ap (λ a. (a ∷ (session fuel rest).0, (session fuel rest).1)) (answer-line (c ∷ line) p))

-- Each line that is typed is answered in capitals, in order; but the program does not end with its
-- input: it then sends the bytes of an array that was not written. The lines have at most 1022 bytes,
-- none of them a NUL, and the fuel is at least one more than there are lines.
pub session-joined :
    (fuel : ℕ) (lines : List Bytes)
    → length lines < fuel
    → All (All IsPlain) lines
    → All (λ line. length line < 1023) lines
    → session fuel (joined lines) ≡ (map (map capital) lines, uninitialised)
unfolding joined
session-joined zero lines f p h = elim f [ ]
session-joined (suc fuel) [] f p h = unfold session in refl
session-joined (suc fuel) (line ∷ lines) f p h =
    session_line fuel line (joined lines) p.0 h.0
    ∙ ap (λ s. (map capital line ∷ s.0, s.1)) (session-joined fuel lines (omega arith) p.1 h.1)
