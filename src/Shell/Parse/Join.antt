-- ===== src/Shell/Parse/Join.antt =====
-- Words joined by single spaces are read back: `parse` undoes the print of its vector.
use nsysu_network_applicatio.Prelude.{
  ℕ, ◌≡◌, ◌≢◌, refl, sym, ap, ap₂, ◌∙◌, Bool, true, false, Bytes, List, [], ◌∷◌, ◌++◌, append_assoc,
  append-nil, some, ok, arith, All,
}
use nsysu_network_applicatio.Shell.Parse.{is_delim, parse}
use nsysu_network_applicatio.Shell.Parse.Words.{words_from, words, flush}
use nsysu_network_applicatio.Shell.Parse.Outcome.{vector_of, parse-words}

-- not empty, and without a delimiter
abbrev pub IsWord : Bytes → Type 0
IsWord t = (t ≢ []) × All (λ c. is_delim c ≡ false) t

-- The words with one space between two of them.
unfoldable pub join : List Bytes → Bytes
join [] = []
join (t ∷ []) = t
join (t ∷ u ∷ ts) = t ++ 32 ∷ join (u ∷ ts)

words_from-append :
    (t s cur : Bytes)
    → All (λ c. is_delim c ≡ false) t
    → words_from (t ++ s) cur ≡ words_from s (cur ++ t)
unfolding words_from
words_from-append [] s cur h = rw append-nil
words_from-append (c ∷ t) s cur (hc, ht) =
    ground (arith, words_from-append t s (cur ++ c ∷ []) ht, append_assoc cur (c ∷ []) t)

flush-word : (t : Bytes) → t ≢ [] → flush t ≡ t ∷ []
flush-word [] h = absurd (h refl)
flush-word (c ∷ t) h = refl

words-join : (ts : List Bytes) → All IsWord ts → words_from (join ts) [] ≡ ts
unfolding words_from join is_delim
words-join [] h = refl
words-join (t ∷ []) ((ne, all), _) =
    ap (λ s. words_from s []) (sym (append-nil t)) ∙ words_from-append t [] [] all ∙ flush-word t ne
words-join (t ∷ u ∷ ts) ((ne, all), rest) =
    words_from-append t (32 ∷ join (u ∷ ts)) [] all
    ∙ ap₂ ◌++◌ (flush-word t ne) (words-join (u ∷ ts) rest)

-- With memory enough, a line of words with single spaces between them is cut into exactly these
-- words.
parse-join :
    (alloc : ℕ → Bool) (ts : List Bytes)
    → ((k : ℕ) → alloc k ≡ true)
    → All IsWord ts
    → parse alloc (some (join ts)) ≡ ok (vector_of ts)
unfolding words
parse-join alloc ts all h =
    parse-words alloc (join ts) all ∙ ap (λ l. ok (vector_of l)) (words-join ts h)
