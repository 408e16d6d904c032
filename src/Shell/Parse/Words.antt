-- ===== src/Shell/Parse/Words.antt =====
-- The words of a line, described without `strtok`, and that `strtok` finds them.
use nsysu_network_applicatio.Prelude.{
  ℕ, ◌<◌, ◌≤◌, ◌⊎◌, append-nil, ◌≡◌, refl, ap, ◌∙◌, true, false, inl, inr, Bytes, List, [], ◌∷◌,
  ◌++◌, append_assoc, length, none, some, arith,
}
use nsysu_network_applicatio.Shell.Parse.{is_delim, skip_delims, take_token, strtok}

-- a run of characters is a word if it is not empty
abbrev pub flush : Bytes → List Bytes
flush [] = []
flush (c ∷ s) = (c ∷ s) ∷ []

-- `cur` is the word that is being read
unfoldable pub words_from : Bytes → Bytes → List Bytes
words_from [] cur = flush cur
words_from (c ∷ s) cur = elim (is_delim c) [
  | true ↦ flush cur ++ words_from s []
  | false ↦ words_from s (cur ++ c ∷ [])
]

-- The maximal runs of characters that are no delimiters, in order.
unfoldable pub words : Bytes → List Bytes
unfolding words_from is_delim
words s = words_from s []

words_from-take :
    (s cur : Bytes) (c : ℕ)
    → words_from s (c ∷ cur) ≡ (c ∷ cur ++ (take_token s).0) ∷ words_from (take_token s).1 []
unfolding words_from take_token
words_from-take [] cur c = rw append-nil
words_from-take (d ∷ s) cur c = ground (
  arith,
  append-nil cur,
  append_assoc cur (d ∷ []) (take_token s).0,
  words_from-take s (cur ++ d ∷ []) c,
)

words_from-skip : (s : Bytes) → words_from s [] ≡ words_from (skip_delims s) []
unfolding words_from skip_delims
words_from-skip [] = refl
words_from-skip (c ∷ s) = ground (arith, words_from-skip s)

length-take_token : (s : Bytes) → length (take_token s).1 ≤ length s
unfolding take_token
length-take_token [] = omega arith
length-take_token (c ∷ s) = ground (arith, length-take_token s)

length-skip : (s : Bytes) → length (skip_delims s) ≤ length s
unfolding skip_delims
length-skip [] = omega arith
length-skip (c ∷ s) = ground (arith, length-skip s)

-- what is left after the delimiters does not begin with one
skip-head : (s : Bytes) {c : ℕ} {r : Bytes} → skip_delims s ≡ c ∷ r → is_delim c ≡ false
unfolding skip_delims
skip-head [] h = ground arith
skip-head (d ∷ s) {c} {r} h = ground (arith, skip-head s {c = c} {r = r})

words_from-first :
    (c : ℕ) (s : Bytes)
    → is_delim c ≡ false
    → words_from (c ∷ s) [] ≡ (take_token (c ∷ s)).0 ∷ words_from (take_token (c ∷ s)).1 []
unfolding words_from take_token
words_from-first c s h = ground (arith, words_from-take s [] c)

take_token_shorter :
    (c : ℕ) (k s : Bytes)
    → is_delim c ≡ false
    → length (skip_delims s) ≡ length (c ∷ k)
    → length (take_token (c ∷ k)).1 < length s
unfolding take_token
take_token_shorter c k s d e = ground (arith, length-skip s, length-take_token k)

abbrev pub Found : Bytes → Type 0
Found s = (t r : Bytes) × (strtok s ≡ some (t, r)) × (words s ≡ t ∷ words r) × (length r < length s)

strtok_cases : (s k : Bytes) → skip_delims s ≡ k → ((strtok s ≡ none) × (words s ≡ [])) ⊎ Found s
unfolding strtok words
strtok_cases s [] h = inl (rw h, words_from-skip s ∙ rw h)
strtok_cases s (c ∷ k) h = inr (
  (take_token (c ∷ k)).0,
  (take_token (c ∷ k)).1,
  rw h,
  words_from-skip s ∙ rw h (words_from-first c k (skip-head s h)),
  take_token_shorter c k s (skip-head s h) (ap length h),
)

-- One call of `strtok`: the first word and a shorter rest that holds the others.
pub strtok-words : (s : Bytes) → ((strtok s ≡ none) × (words s ≡ [])) ⊎ Found s
strtok-words s = strtok_cases s (skip_delims s) refl
