-- ===== src/Shell/Parse/Outcome.antt =====
-- What `parse` returns for a line: with memory enough, and when an allocation fails.
use nsysu_network_applicatio.Prelude.{
  ℕ, zero, suc, ◌+◌, ◌*◌, ◌<◌, ◌≡◌, refl, ap, ◌∙◌, Bool, true, false, inl, inr, Bytes, List, [],
  ◌∷◌, ◌++◌, append_assoc, append-nil, length, Option, none, some, ok, fault, uninitialised, arith,
  length-append,
}
use nsysu_network_applicatio.Shell.Argv.{Argv, argv_of, store}
use nsysu_network_applicatio.Shell.Parse.{resize, parse_loop, parse_first, parse}
use nsysu_network_applicatio.Shell.Parse.Words.{words, strtok-words}
use nsysu_network_applicatio.Shell.Parse.Vector.{
  partial, round_end, round_realloc_fails, round_malloc_fails, round_next,
}

-- NULL if there is no word
abbrev pub vector_of : List Bytes → Option Argv
vector_of [] = none
vector_of (t ∷ ts) = some (argv_of (t ∷ ts))

regroup :
    (ts : List Bytes) (t : Bytes) (us vs : List Bytes)
    → us ≡ t ∷ vs
    → argv_of ((ts ++ t ∷ []) ++ vs) ≡ argv_of (ts ++ us)
regroup ts t us vs e = rw (append_assoc, e)

counted-snoc :
    (ts : List Bytes) (t : Bytes) (n : ℕ) → suc n ≡ length ts → suc (n + 1) ≡ length (ts ++ t ∷ [])
counted-snoc ts t n e = omega (arith, length-append ts (t ∷ []))

module _ (alloc : ℕ → Bool) where
  loop_words :
      ((k : ℕ) → alloc k ≡ true)
      → (fuel : ℕ) (rest : Bytes) (ts : List Bytes) (count calls : ℕ) → suc count ≡ length ts
      → length rest < fuel
      → parse_loop fuel alloc rest (partial ts) count calls ≡ ok (some (argv_of (ts ++ words rest)))
  loop_words all zero rest ts count calls e h = absurd (omega arith)
  loop_words all (suc fuel) rest ts count calls e h = elim (strtok-words rest) [
    | inl (no_token, no_words) ↦
        round_end fuel alloc rest ts count calls e no_token ∙ rw (no_words, append-nil) refl
    | inr (t, r, token, rest_words, shorter) ↦
        round_next fuel alloc rest ts count calls e token (all calls) (all (calls + 1))
        ∙ loop_words all fuel r (ts ++ t ∷ []) (count + 1) (calls + 2) (counted-snoc ts t count e)
            (omega arith)
        ∙ ap (λ v. ok (some v)) (regroup ts t (words rest) (words r) rest_words)
  ]

  -- Where every allocation is made good, `parse` returns the words of the line, in order, in a
  -- vector that ends in NULL, or NULL where the line holds no word.
  pub parse-words :
      (line : Bytes)
      → ((k : ℕ) → alloc k ≡ true)
      → parse alloc (some line) ≡ ok (vector_of (words line))
  unfolding parse store parse_loop resize
  parse-words line all = elim (strtok-words line) [
    | inl (no_token, no_words) ↦ rw (no_token, no_words)
    | inr (t, r, token, rest_words, shorter) ↦
        rw (token, parse_first, all 0, all 1, rest_words)
          (loop_words all (length line + 1) r (t ∷ []) 0 2 refl (omega arith))
  ]

  loop_realloc :
      (fuel j : ℕ) (rest : Bytes) (ts : List Bytes) (count calls : ℕ)
      → suc count ≡ length ts
      → length rest < fuel
      → j < length (words rest)
      → ((k : ℕ) → k < calls + 2 * j → alloc k ≡ true)
      → alloc (calls + 2 * j) ≡ false
      → parse_loop fuel alloc rest (partial ts) count calls ≡ fault uninitialised
  loop_realloc zero j rest ts count calls e h i before fails = absurd (omega arith)
  loop_realloc (suc fuel) zero rest ts count calls e h i before fails = elim (strtok-words rest) [
    | inl (no_token, no_words) ↦ absurd (omega (arith, ap length no_words))
    | inr (t, r, token, rest_words, shorter) ↦
        round_realloc_fails fuel alloc rest ts count calls e token (ap alloc (omega arith) ∙ fails)
  ]
  loop_realloc (suc fuel) (suc j) rest ts count calls e h i before fails =
      elim (strtok-words rest) [
        | inl (no_token, no_words) ↦ absurd (omega (arith, ap length no_words))
        | inr (t, r, token, rest_words, shorter) ↦
            round_next fuel alloc rest ts count calls e token (before calls (omega arith))
              (before (calls + 1) (omega arith))
            ∙ loop_realloc fuel j r (ts ++ t ∷ []) (count + 1) (calls + 2)
                (counted-snoc ts t count e) (omega arith) (omega (arith, ap length rest_words))
                (λ k b. before k (omega arith)) (ap alloc (omega arith) ∙ fails)
      ]

  -- If the growth of the vector for a word behind the first is refused by realloc, `parse` does
  -- not return: the clean-up reads the slot that was left unwritten for the terminator.
  pub parse_realloc_refused :
      (line : Bytes) (j : ℕ)
      → suc j < length (words line)
      → ((k : ℕ) → k < 2 + 2 * j → alloc k ≡ true)
      → alloc (2 + 2 * j) ≡ false
      → parse alloc (some line) ≡ fault uninitialised
  unfolding parse store parse_loop resize
  parse_realloc_refused line j i before fails = elim (strtok-words line) [
    | inl (no_token, no_words) ↦ absurd (omega (arith, ap length no_words))
    | inr (t, r, token, rest_words, shorter) ↦
        rw (token, parse_first, before 0 (omega arith), before 1 (omega arith))
          (loop_realloc (length line + 1) j r (t ∷ []) 0 2 refl (omega arith)
            (omega (arith, ap length rest_words)) before fails)
  ]

  loop_malloc :
      (fuel j : ℕ) (rest : Bytes) (ts : List Bytes) (count calls : ℕ)
      → suc count ≡ length ts
      → length rest < fuel
      → j < length (words rest)
      → ((k : ℕ) → k < calls + 2 * j + 1 → alloc k ≡ true)
      → alloc (calls + 2 * j + 1) ≡ false
      → parse_loop fuel alloc rest (partial ts) count calls ≡ ok none
  loop_malloc zero j rest ts count calls e h i before fails = absurd (omega arith)
  loop_malloc (suc fuel) zero rest ts count calls e h i before fails = elim (strtok-words rest) [
    | inl (no_token, no_words) ↦ absurd (omega (arith, ap length no_words))
    | inr (t, r, token, rest_words, shorter) ↦
        round_malloc_fails fuel alloc rest ts count calls e token (before calls (omega arith))
          (ap alloc (omega arith) ∙ fails)
  ]
  loop_malloc (suc fuel) (suc j) rest ts count calls e h i before fails = elim (strtok-words rest) [
    | inl (no_token, no_words) ↦ absurd (omega (arith, ap length no_words))
    | inr (t, r, token, rest_words, shorter) ↦
        round_next fuel alloc rest ts count calls e token (before calls (omega arith))
          (before (calls + 1) (omega arith))
        ∙ loop_malloc fuel j r (ts ++ t ∷ []) (count + 1) (calls + 2) (counted-snoc ts t count e)
            (omega arith) (omega (arith, ap length rest_words)) (λ k b. before k (omega arith))
            (ap alloc (omega arith) ∙ fails)
  ]

  -- If malloc refuses the memory for the string of a word behind the first, `parse` frees what it
  -- built, without a fault, and returns NULL.
  pub parse_malloc_refused :
      (line : Bytes) (j : ℕ)
      → suc j < length (words line)
      → ((k : ℕ) → k < 3 + 2 * j → alloc k ≡ true)
      → alloc (3 + 2 * j) ≡ false
      → parse alloc (some line) ≡ ok none
  unfolding parse store parse_loop resize
  parse_malloc_refused line j i before fails = elim (strtok-words line) [
    | inl (no_token, no_words) ↦ absurd (omega (arith, ap length no_words))
    | inr (t, r, token, rest_words, shorter) ↦
        rw (token, parse_first, before 0 (omega arith), before 1 (omega arith))
          (loop_malloc (length line + 1) j r (t ∷ []) 0 2 refl (omega arith)
            (omega (arith, ap length rest_words)) (λ k b. before k (omega arith))
            (ap alloc (omega arith) ∙ fails))
  ]
