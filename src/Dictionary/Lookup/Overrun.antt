-- ===== src/Dictionary/Lookup/Overrun.antt =====
-- A record that fits: `strcat` writes the space behind the copy of the first word.
use nsysu_network_applicatio.Prelude.{
  ℕ, zero, suc, ◌+◌, ◌<◌, ◌≡◌, refl, Bool, true, false, Bytes, List, [], ◌∷◌, ◌++◌, ◌>>=◌, length,
  append-nil, Run, ok, Fault, fault, null_pointer, out_of_bounds, ltb, arith, inl, inr, Option,
  none, replicate, Bool-cases,
}
use nsysu_network_applicatio.Shell.Parse.{is_delim}
use nsysu_network_applicatio.Shell.Parse.Words.{words, words_from, flush, strtok-words}
use nsysu_network_applicatio.Dictionary.{space, padded}
use nsysu_network_applicatio.Dictionary.Lookup.{
  Answer, found, allocated, strcat, join_loop, copied, take_over,
}

-- What a text that is found leads to, from its words and the answer of the first `malloc`.
unfoldable pub fault_at : Bool → List Bytes → Fault
fault_at malloc_ok [] = null_pointer
fault_at true (t ∷ ts) = out_of_bounds
fault_at false (t ∷ ts) = null_pointer

-- The copy of a token has no room for a space.
no_room : (token : Bytes) → strcat (length token + 1) token (space ∷ []) ≡ fault out_of_bounds
unfolding strcat
no_room token =
    let full : ltb (length token + 1) (length token + 1) ≡ false = ground arith in rw full refl

-- `lookup` behind the loop
abbrev handed_over : Run (Option Bytes) → Bytes → Run (Answer × Bytes)
handed_over joined text = do final_str ← joined; text' ← copied final_str text; ok (found, text')

module _ (alloc : ℕ → Bool) where
  take_over_from :
      (fuel : ℕ) (found_text text : Bytes)
      → 0 < fuel
      → handed_over (join_loop alloc fuel 0 found_text none) text
        ≡ fault (fault_at (alloc 0) (words found_text))
  unfolding join_loop copied allocated fault_at
  take_over_from zero found_text text h = absurd (omega arith)
  take_over_from (suc fuel) found_text text h = elim (strtok-words found_text) [
    | inl (no_token, no_words) ↦ rw (join_loop, no_token, no_words) refl
    | inr (t, r, token, rest_words, shorter) ↦ elim (Bool-cases (alloc 0)) [
      | inl first ↦ rw (join_loop, token, first, no_room t, rest_words) refl
      | inr fails ↦ rw (join_loop, token, fails, rest_words) refl
    ]
  ]

  -- A record that fits is never handed over: NULL is read where its text has no words or memory is
  -- refused, and else `strcat` writes behind its block.
  pub take_over_lem :
      (found_text text : Bytes)
      → take_over alloc found_text text ≡ fault (fault_at (alloc 0) (words found_text))
  unfolding take_over
  take_over_lem found_text text =
      take_over_from (length found_text + 1) found_text text (omega arith)

words_from-spaces : (n : ℕ) (cur : Bytes) → words_from (replicate n space) cur ≡ flush cur
unfolding words_from is_delim
words_from-spaces zero cur = refl
words_from-spaces (suc n) cur = rw (words_from-spaces n [], append-nil) refl

words_from-padded : (n : ℕ) (s cur : Bytes) → words_from (padded n s) cur ≡ words_from s cur
unfolding words_from padded
words_from-padded n [] cur = words_from-spaces n cur
words_from-padded zero (c ∷ s) cur = refl
words_from-padded (suc n) (c ∷ s) cur = elim (Bool-cases (is_delim c)) [
  | inl delim ↦ rw (words_from, delim, words_from-padded n s []) refl
  | inr letter ↦ rw (words_from, letter, words_from-padded n s (cur ++ c ∷ [])) refl
]

-- Spaces behind a text change none of its words.
pub words-padded : (n : ℕ) (s : Bytes) → words (padded n s) ≡ words s
unfolding words
words-padded n s = words_from-padded n s []
