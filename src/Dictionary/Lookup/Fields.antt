-- ===== src/Dictionary/Lookup/Fields.antt =====
-- The fields of a record, as `convert` writes them and `lookup` reads them.
use nsysu_network_applicatio.Prelude.{
  ℕ, zero, suc, ◌<◌, ◌≤◌, ◌≡◌, refl, ap, false, Bytes, List, [], ◌∷◌, length, ◌==◌, arith, All,
  take, length-take, All-append, All-take, replicate,
}
use nsysu_network_applicatio.Broker.Message.{until_nul}
use nsysu_network_applicatio.Dictionary.{newline, space, padded}
use nsysu_network_applicatio.Dictionary.Convert.Lines.{IsPlain, ended}
use nsysu_network_applicatio.Dictionary.Convert.Source.{IsLine, joined_lines, text_of}

-- no byte is a NUL
abbrev pub IsText : Bytes → Type 0
IsText = All (λ c. (c == 0) ≡ false)

IsPlain-IsText : (s : Bytes) → IsPlain s → IsText s
IsPlain-IsText [] p = tt
IsPlain-IsText (c ∷ s) p = (p.0.1, IsPlain-IsText s p.1)

IsLine-IsText : (n : ℕ) (s : Bytes) → IsLine n s → IsText s
unfolding IsLine
IsLine-IsText n [] l = absurd l
IsLine-IsText n (c ∷ s) l = IsPlain-IsText (c ∷ s) l.0

joined_lines-IsText : (lines : List Bytes) → All (IsLine 511) lines → IsText (joined_lines lines)
unfolding joined_lines
joined_lines-IsText [] w = tt
joined_lines-IsText (line ∷ lines) w =
    All-append (λ c. (c == 0) ≡ false) (ended line) (joined_lines lines)
      (All-append (λ c. (c == 0) ≡ false) line (newline ∷ []) (IsLine-IsText 511 line w.0)
        (refl, tt))
      (joined_lines-IsText lines w.1)

text_of-IsText : (lines : List Bytes) → All (IsLine 511) lines → IsText (text_of lines)
unfolding text_of
text_of-IsText lines w =
    All-take (λ c. (c == 0) ≡ false) 479 (joined_lines lines) (joined_lines-IsText lines w)

pub length-text_of : (lines : List Bytes) → length (text_of lines) ≤ 479
unfolding text_of
length-text_of lines = length-take 479 (joined_lines lines)

length-spaces : (n : ℕ) → length (replicate n space) ≡ n
length-spaces zero = refl
length-spaces (suc n) = omega (arith, length-spaces n)

pub length-padded : (n : ℕ) (s : Bytes) → length s ≤ n → length (padded n s) ≡ n
unfolding padded
length-padded n [] h = length-spaces n
length-padded zero (c ∷ s) h = absurd (omega arith)
length-padded (suc n) (c ∷ s) h = omega (arith, length-padded n s (omega arith))

take-spaces : (n : ℕ) → take n (replicate (suc n) space) ≡ replicate n space
take-spaces zero = refl
take-spaces (suc n) = ap (λ l. space ∷ l) (take-spaces n)

-- a field without its last byte
pub take-padded : (n : ℕ) (s : Bytes) → length s ≤ n → take n (padded (suc n) s) ≡ padded n s
unfolding padded
take-padded n [] h = take-spaces n
take-padded zero (c ∷ s) h = absurd (omega arith)
take-padded (suc n) (c ∷ s) h = ap (λ l. c ∷ l) (take-padded n s (omega arith))

until_nul-spaces : (n : ℕ) → until_nul (replicate n space) ≡ replicate n space
unfolding until_nul
until_nul-spaces zero = refl
until_nul-spaces (suc n) = ap (λ l. space ∷ l) (until_nul-spaces n)

until_nul-text : (s : Bytes) → IsText s → until_nul s ≡ s
unfolding until_nul
until_nul-text [] t = refl
until_nul-text (c ∷ s) t = rw (t.0) (ap (λ l. c ∷ l) (until_nul-text s t.1))

until_nul-padded : (n : ℕ) (s : Bytes) → IsText s → until_nul (padded n s) ≡ padded n s
unfolding until_nul padded
until_nul-padded n [] t = until_nul-spaces n
until_nul-padded zero (c ∷ s) t = until_nul-text (c ∷ s) t
until_nul-padded (suc n) (c ∷ s) t = rw (t.0) (ap (λ l. c ∷ l) (until_nul-padded n s t.1))

length-IsLine : (n : ℕ) (s : Bytes) → IsLine n s → length s < n
unfolding IsLine
length-IsLine n [] l = absurd l
length-IsLine n (c ∷ s) l = l.1

-- The field of a word, and the string that `lookup` reads in it.
pub word-field :
    (word : Bytes)
    → IsLine 32 word
    → (length (padded 32 word) ≡ 32) × (until_nul (take 31 (padded 32 word)) ≡ padded 31 word)
word-field word l =
    let h : length word ≤ 31 = omega (arith, length-IsLine 32 word l) in
    (
      length-padded 32 word (omega arith),
      rw (take-padded 31 word h) (until_nul-padded 31 word (IsLine-IsText 32 word l)),
    )

-- The same of a definition.
pub text-field :
    (lines : List Bytes)
    → All (IsLine 511) lines
    → (length (padded 480 (text_of lines)) ≡ 480)
      × (until_nul (take 479 (padded 480 (text_of lines))) ≡ padded 479 (text_of lines))
text-field lines w =
    let h = length-text_of lines in
    (
      length-padded 480 (text_of lines) (omega (arith, h)),
      rw (take-padded 479 (text_of lines) h)
          (until_nul-padded 479 (text_of lines) (text_of-IsText lines w)),
    )
