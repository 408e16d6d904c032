-- ===== src/Dictionary/Convert.antt =====
-- hw6/part3/convert.c: a file of words and definitions is made a file of records.
pub mod Lines
pub mod Source
use nsysu_network_applicatio.Prelude.{
  ℕ, zero, suc, ◌+◌, ◌-◌, Bool, true, false, Bytes, List, [], ◌∷◌, ◌++◌, length, take, Run, ok,
  fault, ◌>>=◌, ◌==◌, leb, ltb, if◌then◌else◌, str_eq, out_of_bounds, null_pointer, out_of_fuel,
}
use nsysu_network_applicatio.Dictionary.{newline, padded}

-- the line that is being read, if it is not empty
unfoldable pub last_line : Bytes → List Bytes
last_line [] = []
last_line (c ∷ s) = (c ∷ s) ∷ []

-- `room` is what the buffer still takes, `cur` what `fgets` has read of the line
unfoldable pub lines_from : ℕ → Bytes → Bytes → List Bytes
unfolding last_line
lines_from room cur [] = last_line cur
lines_from room cur (c ∷ s) =
    let next = (cur ++ c ∷ []) ∷ lines_from 511 [] s in
    let on = lines_from (room - 1) (cur ++ c ∷ []) s in
    if c == newline then next else if leb room 1 then next else on

-- What the calls of `fgets`, with a buffer of 512 bytes, give of a file, one after the other. The
-- last of them meets the end of the file, unless it ends in a newline or fills the buffer.
unfoldable pub lines_of : Bytes → List Bytes
lines_of file = lines_from 511 [] file

-- what stands before the first newline
unfoldable pub before_newline : Bytes → Bytes
before_newline [] = []
before_newline (c ∷ s) = if c == newline then [] else c ∷ before_newline s

-- `strtok(line, "\n")`, whose result is read at once
unfoldable pub first_token : Bytes → Run Bytes
unfolding before_newline
first_token [] = fault null_pointer
first_token (c ∷ s) =
    let rest = first_token s in if c == newline then rest else ok (c ∷ before_newline s)

-- `strncpy` into `dr.word`, and `strlen(dr.word)`, which looks for a NUL in its 32 bytes
unfoldable pub word_field : Bytes → Run Bytes
word_field token = if ltb (length token) 32 then ok token else fault out_of_bounds

-- `strncat(dr.text, line, TEXT - strlen(dr.text) - 1)`
unfoldable pub append_text : Bytes → Bytes → Bytes
append_text text line = text ++ take (480 - length text - 1) line

-- The inner `while`: the text, the lines behind the definition, and whether the end of the file was met.
unfoldable pub definition : Bytes → List Bytes → Bytes × List Bytes × Bool
definition text [] = (text, [], true)
definition text (line ∷ lines) =
    let on = definition (append_text text line) lines in
    if str_eq line (newline ∷ []) then (text, lines, false) else on

-- The 512 bytes that are written for a word.
unfoldable pub record_of : Bytes → Bytes → Bytes
record_of word text = padded 32 word ++ padded 480 text

-- The outer `while`, with the bytes written and the status of the exit. Where `fgets` gives NULL
-- for a word, `errno` decides whether this is the end or an error.
pub convert_loop : ℕ → ℕ → List Bytes → Run (Bytes × ℕ)
convert_loop errno zero lines = fault out_of_fuel
convert_loop errno (suc fuel) [] = ok ([], if errno == 0 then 0 else 1)
convert_loop errno (suc fuel) (line ∷ lines) = do
  token ← first_token line
  word ← word_field token
  let (text, rest, eof) = definition [] lines
  elim eof [
    | true ↦ ok (record_of word text, 0)
    | false ↦ do
      (written, status) ← convert_loop errno fuel rest
      ok (record_of word text ++ written, status)
  ]

-- `main`, from the two open files on; each round takes a line at least.
pub convert : ℕ → Bytes → Run (Bytes × ℕ)
convert errno file = let lines = lines_of file in convert_loop errno (length lines + 1) lines
