-- ===== src/Shell/Parse/Vector.antt =====
-- What `parse` and `free_argv` do to the vector: one lemma for each way through a round.
use nsysu_network_applicatio.Prelude.{
  ℕ, zero, suc, ◌+◌, ◌≡◌, refl, ap, Bool, true, false, Bytes, List, [], ◌∷◌, ◌++◌, length, none,
  some, ok, fault, uninitialised, arith,
}
use nsysu_network_applicatio.Shell.Argv.{
  uninit, null, str, Argv, argv_of, strs, store-append, length-strs, strs-snoc, strs-null,
}
use nsysu_network_applicatio.Shell.Parse.{strtok, resize, free_argv, parse_loop}

-- the vector while the loop runs: the strings so far, and one slot not written
abbrev pub partial : List Bytes → Argv
partial ts = strs ts ++ uninit ∷ []

resize-partial :
    (ts : List Bytes) (n : ℕ)
    → n ≡ length ts + 2
    → resize (partial ts) n ≡ strs ts ++ uninit ∷ uninit ∷ []
unfolding resize
resize-partial [] (suc (suc zero)) e = refl
resize-partial [] zero e = absurd (omega arith)
resize-partial [] (suc zero) e = absurd (omega arith)
resize-partial [] (suc (suc (suc n))) e = absurd (omega arith)
resize-partial (t ∷ ts) zero e = absurd (omega arith)
resize-partial (t ∷ ts) (suc n) e = ap (λ l. str t ∷ l) (resize-partial ts n (omega arith))

-- The walk of `free_argv` over a vector with a slot not written before any NULL.
free_argv-uninit :
    (ts : List Bytes) (ys : Argv) → free_argv (strs ts ++ uninit ∷ ys) ≡ fault uninitialised
unfolding free_argv
free_argv-uninit [] ys = refl
free_argv-uninit (t ∷ ts) ys = rw (free_argv-uninit ts ys)

pub free_argv-null : (ts : List Bytes) (ys : Argv) → free_argv (strs ts ++ null ∷ ys) ≡ ok ts
unfolding free_argv
free_argv-null [] ys = refl
free_argv-null (t ∷ ts) ys = rw (free_argv-null ts ys)

module _ (fuel : ℕ) (alloc : ℕ → Bool) (rest : Bytes) (ts : List Bytes) (count calls : ℕ)
    (counted : suc count ≡ length ts) where
  pub round_end :
      strtok rest ≡ none
      → parse_loop (suc fuel) alloc rest (partial ts) count calls ≡ ok (some (argv_of ts))
  unfolding parse_loop
  round_end e =
      rw
        (
          e,
          parse_loop,
          store-append (strs ts) uninit [] (count + 1) null (omega (arith, length-strs ts)),
        )
        (ap (λ v. ok (some v)) (strs-null ts))

  module _ {t r : Bytes} (found : strtok rest ≡ some (t, r)) where
    pub round_realloc_fails :
        alloc calls ≡ false
        → parse_loop (suc fuel) alloc rest (partial ts) count calls ≡ fault uninitialised
    unfolding parse_loop
    round_realloc_fails a = rw (found, parse_loop, a, free_argv-uninit ts [])

    pub round_malloc_fails :
        alloc calls ≡ true
        → alloc (calls + 1) ≡ false
        → parse_loop (suc fuel) alloc rest (partial ts) count calls ≡ ok none
    unfolding parse_loop
    round_malloc_fails a b = rw (
      found,
      parse_loop,
      a,
      b,
      resize-partial ts (count + 1 + 2) (omega arith),
      store-append (strs ts) uninit (uninit ∷ []) (count + 1) null (omega (arith, length-strs ts)),
      free_argv-null ts (uninit ∷ []),
    )

    pub round_next :
        alloc calls ≡ true
        → alloc (calls + 1) ≡ true
        → parse_loop (suc fuel) alloc rest (partial ts) count calls
          ≡ parse_loop fuel alloc r (partial (ts ++ t ∷ [])) (count + 1) (calls + 2)
    unfolding parse_loop
    round_next a b =
        rw
          (
            found,
            parse_loop,
            a,
            b,
            resize-partial ts (count + 1 + 2) (omega arith),
            store-append (strs ts) uninit (uninit ∷ []) (count + 1) (str t)
                (omega (arith, length-strs ts)),
          )
          (ap (λ v. parse_loop fuel alloc r v (count + 1) (calls + 2))
            (strs-snoc ts t (uninit ∷ [])))
