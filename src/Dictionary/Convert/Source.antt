-- ===== src/Dictionary/Convert/Source.antt =====
-- What `convert` writes for a dictionary in the form that its comment asks for.
use nsysu_network_applicatio.Prelude.{
  ℕ, zero, suc, ◌+◌, ◌-◌, ◌<◌, ◌≤◌, ◌≡◌, refl, ap, ◌∙◌, true, false, Bytes, List, [], ◌∷◌, ◌++◌,
  length, append_assoc, append-nil, ok, ◌==◌, if◌then◌else◌, arith, str_eq, str_eq_refl, All, map,
  take, length-append, lt→ltb,
}
use nsysu_network_applicatio.Dictionary.{Entry, newline}
use nsysu_network_applicatio.Dictionary.Convert.{
  lines_from, lines_of, first_token, word_field, append_text, definition, record_of, convert_loop,
  convert, last_line,
}
use nsysu_network_applicatio.Dictionary.Convert.Lines.{
  IsPlain, ended, lines_of-line, first_token-ended, str_eq-ended,
}

-- neither empty nor broken, and shorter than `n`
unfoldable pub IsLine : ℕ → Bytes → Type 0
IsLine n [] = ⊥
IsLine n (c ∷ s) = IsPlain (c ∷ s) × length (c ∷ s) < n

-- The word ends within its field with a NUL, each line of the definition fits into the buffer.
unfoldable pub IsEntry : Entry → Type 0
IsEntry (word, lines) = IsLine 32 word × All (IsLine 511) lines

-- lines in front of more of the file
unfoldable pub written_lines : List Bytes → Bytes → Bytes
written_lines [] rest = rest
written_lines (line ∷ lines) rest = line ++ newline ∷ written_lines lines rest

-- The file of a dictionary: a word, the lines of its definition, a blank line, and so on.
unfoldable pub source : List Entry → Bytes
source [] = []
source ((word, lines) ∷ es) = word ++ newline ∷ written_lines lines (newline ∷ source es)

-- the lines with their newlines, one behind the other
unfoldable pub joined_lines : List Bytes → Bytes
joined_lines [] = []
joined_lines (line ∷ lines) = ended line ++ joined_lines lines

-- A definition as it is kept: its first 479 bytes.
unfoldable pub text_of : List Bytes → Bytes
text_of lines = take 479 (joined_lines lines)

-- The records, one behind the other.
unfoldable pub records : List Entry → Bytes
records [] = []
records ((word, lines) ∷ es) = record_of word (text_of lines) ++ records es

-- the lines of the file
source_lines : List Entry → List Bytes
source_lines [] = []
source_lines ((word, lines) ∷ es) =
    ended word ∷ (map ended lines ++ (newline ∷ []) ∷ source_lines es)

lines_of-blank : (rest : Bytes) → lines_of (newline ∷ rest) ≡ (newline ∷ []) ∷ lines_of rest
unfolding lines_of lines_from
lines_of-blank rest = refl

lines_of-one :
    (n : ℕ) (line rest : Bytes)
    → n ≤ 511
    → IsLine n line
    → lines_of (line ++ newline ∷ rest) ≡ ended line ∷ lines_of rest
unfolding IsLine
lines_of-one n [] rest h w = absurd w
lines_of-one n (c ∷ line) rest h w = lines_of-line (c ∷ line) rest w.0 (omega (arith, w.1))

lines_of-written :
    (lines : List Bytes) (rest : Bytes)
    → All (IsLine 511) lines
    → lines_of (written_lines lines rest) ≡ map ended lines ++ lines_of rest
unfolding written_lines
lines_of-written [] rest w = refl
lines_of-written (line ∷ lines) rest w =
    lines_of-one 511 line (written_lines lines rest) (omega arith) w.0
    ∙ ap (λ ls. ended line ∷ ls) (lines_of-written lines rest w.1)

lines_of-source : (es : List Entry) → All IsEntry es → lines_of (source es) ≡ source_lines es
unfolding source source_lines IsEntry lines_of lines_from last_line
lines_of-source [] w = refl
lines_of-source ((word, lines) ∷ es) w =
    lines_of-one 32 word (written_lines lines (newline ∷ source es)) (omega arith) (w.0.0)
    ∙ ap (λ ls. ended word ∷ ls)
        (lines_of-written lines (newline ∷ source es) (w.0.1)
          ∙ ap (λ ls. map ended lines ++ ls)
              (lines_of-blank (source es)
                ∙ ap (λ ls. (newline ∷ []) ∷ ls) (lines_of-source es w.1)))

take-take_append :
    (n k : ℕ) (xs ys : Bytes)
    → k ≡ n - length (take n xs)
    → take n xs ++ take k ys ≡ take n (xs ++ ys)
take-take_append zero k xs ys e = let none_left : k ≡ 0 = omega arith in rw none_left refl
take-take_append (suc n) k [] ys e = let all_left : k ≡ suc n = omega arith in rw all_left refl
take-take_append (suc n) k (x ∷ xs) ys e =
    ap (λ l. x ∷ l) (take-take_append n k xs ys (omega arith))

append_text-take : (text line : Bytes) → append_text (take 479 text) line ≡ take 479 (text ++ line)
unfolding append_text
append_text-take text line =
    take-take_append 479 (480 - length (take 479 text) - 1) text line (omega arith)

definition_end :
    (text line : Bytes) (lines : List Bytes)
    → str_eq line (newline ∷ []) ≡ true
    → definition text (line ∷ lines) ≡ (text, lines, false)
unfolding definition
definition_end text line lines e = rw e refl

definition_next :
    (text line : Bytes) (lines : List Bytes)
    → str_eq line (newline ∷ []) ≡ false
    → definition text (line ∷ lines) ≡ definition (append_text text line) lines
unfolding definition
definition_next text line lines e = rw e refl

definition_lem :
    (text : Bytes) (lines rest : List Bytes)
    → All (IsLine 511) lines
    → definition (take 479 text) (map ended lines ++ (newline ∷ []) ∷ rest)
      ≡ (take 479 (text ++ joined_lines lines), rest, false)
unfolding joined_lines IsLine
definition_lem text [] rest w =
    rw append-nil (definition_end (take 479 text) (newline ∷ []) rest (str_eq_refl (newline ∷ [])))
definition_lem text ([] ∷ lines) rest w = absurd (w.0)
definition_lem text ((c ∷ line) ∷ lines) rest w =
    definition_next (take 479 text) (ended (c ∷ line)) (map ended lines ++ (newline ∷ []) ∷ rest)
      (str_eq-ended c line (w.0.0))
    ∙ rw
        (
          append_text-take text (ended (c ∷ line)),
          definition_lem (text ++ ended (c ∷ line)) lines rest w.1,
          append_assoc text (ended (c ∷ line)) (joined_lines lines),
        )
        refl

first_lem : (word : Bytes) → IsLine 32 word → first_token (ended word) ≡ ok word
unfolding IsLine
first_lem [] w = absurd w
first_lem (c ∷ word) w = first_token-ended c word w.0

field_lem : (word : Bytes) → IsLine 32 word → word_field word ≡ ok word
unfolding word_field IsLine
field_lem [] w = absurd w
field_lem (c ∷ word) w = rw (lt→ltb (length (c ∷ word)) 32 w.1) refl

convert_round :
    (errno fuel : ℕ) (line : Bytes) (lines : List Bytes) {token word text written : Bytes}
    {rest : List Bytes} {status : ℕ}
    → first_token line ≡ ok token
    → word_field token ≡ ok word
    → definition [] lines ≡ (text, rest, false)
    → convert_loop errno fuel rest ≡ ok (written, status)
    → convert_loop errno (suc fuel) (line ∷ lines) ≡ ok (record_of word text ++ written, status)
unfolding convert_loop
convert_round errno fuel line lines t w d l = simp (t, w, d, l)

convert_loop-source :
    (errno fuel : ℕ) (es : List Entry)
    → All IsEntry es
    → length (source_lines es) < fuel
    → convert_loop errno fuel (source_lines es) ≡ ok (records es, if errno == 0 then 0 else 1)
unfolding convert_loop source_lines records IsEntry text_of
convert_loop-source errno zero es w h = absurd (omega arith)
convert_loop-source errno (suc fuel) [] w h = refl
convert_loop-source errno (suc fuel) ((word, lines) ∷ es) w h =
    let rest =
      convert_loop-source errno fuel es w.1
        (omega (arith, length-append (map ended lines) ((newline ∷ []) ∷ source_lines es))) in
    convert_round errno fuel (ended word) (map ended lines ++ (newline ∷ []) ∷ source_lines es)
      (first_lem word (w.0.0)) (field_lem word (w.0.0))
      (definition_lem [] lines (source_lines es) (w.0.1)) rest

-- A dictionary in the form that the comment of `convert` gives, with words of less than 32 bytes, is
-- converted to its records in order, with the first 479 bytes of each definition; the exit is 1
-- where `errno` was not 0 at the end of the file.
pub convert-source :
    (errno : ℕ) (es : List Entry)
    → All IsEntry es
    → convert errno (source es) ≡ ok (records es, if errno == 0 then 0 else 1)
unfolding convert
convert-source errno es w =
    rw (lines_of-source es w)
      (convert_loop-source errno (length (source_lines es) + 1) es w (omega arith))
