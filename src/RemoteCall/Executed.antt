-- ===== src/RemoteCall/Executed.antt =====
-- Which program the executor runs for a line.
use nsysu_network_applicatio.Prelude.{
  ℕ, zero, suc, ◌+◌, ◌-◌, ◌<◌, ◌≤◌, ◌≡◌, refl, ap, ◌∙◌, sym, Bytes, List, [], ◌∷◌, ◌++◌, length,
  take, replicate, Run, ok, fault, ◌>>=◌, null_pointer, out_of_bounds, arith, inl, inr, append-nil,
  length-append, All, ◌==◌, false, ltb, ltb→lt, if◌then◌else◌, Bool-cases,
}
use nsysu_network_applicatio.Broker.Message.{until_nul}
use nsysu_network_applicatio.Shell.Argv.{
  Slot, uninit, null, str, Argv, strs, load, store, text, length-strs, store-append, store_past_end,
  strs-snoc,
}
use nsysu_network_applicatio.Shell.Parse.Words.{words, strtok-words}
use nsysu_network_applicatio.RemoteCall.{received, token_loop, executed, execute}

-- The array for words, when `n` slots are left.
unfoldable pub vector : ℕ → List Bytes → Run Argv
vector zero ts = fault out_of_bounds
vector (suc n) [] = ok (null ∷ replicate n uninit)
vector (suc n) (t ∷ ts) = do v ← vector n ts; ok (str t ∷ v)

-- ... behind the words that it holds
behind : List Bytes → Run Argv → Run Argv
behind ts v = do a ← v; ok (strs ts ++ a)

behind_more :
    (ts : List Bytes) (t : Bytes) (v : Run Argv)
    → behind (ts ++ t ∷ []) v ≡ behind ts (do a ← v; ok (str t ∷ a))
unfolding behind
behind_more ts t (ok a) = ap (λ l. ok l) (sym (strs-snoc ts t a))
behind_more ts t (fault f) = refl

store_end :
    (ts : List Bytes) (n i : ℕ) (s : Slot)
    → i ≡ length ts
    → store (strs ts ++ replicate (suc n) uninit) i s ≡ ok (strs ts ++ s ∷ replicate n uninit)
store_end ts n i s e =
    store-append (strs ts) uninit (replicate n uninit) i s (omega (arith, length-strs ts))

store_full :
    (ts : List Bytes) (i : ℕ) (s : Slot)
    → i ≡ length ts
    → store (strs ts ++ []) i s ≡ fault out_of_bounds
store_full ts i s e = rw append-nil (store_past_end (strs ts) i s (omega (arith, length-strs ts)))

token_loop-vector :
    (fuel n index : ℕ) (rest : Bytes) (ts : List Bytes)
    → length rest < fuel
    → index ≡ length ts
    → token_loop fuel rest (strs ts ++ replicate n uninit) index ≡ behind ts (vector n (words rest))
unfolding token_loop behind vector
token_loop-vector zero n index rest ts h e = absurd (omega arith)
token_loop-vector (suc fuel) zero index rest ts h e = elim (strtok-words rest) [
  | inl (no_token, no_words) ↦ rw (token_loop, no_token) (store_full ts index null e)
  | inr (t, r, token, rest_words, shorter) ↦
      rw (token_loop, token, store_full ts index (str t) e) refl
]
token_loop-vector (suc fuel) (suc n) index rest ts h e = elim (strtok-words rest) [
  | inl (no_token, no_words) ↦ rw (token_loop, no_token, no_words) (store_end ts n index null e)
  | inr (t, r, token, rest_words, shorter) ↦
      rw (token_loop, token, rest_words, store_end ts n index (str t) e, strs-snoc)
        (token_loop-vector fuel n (index + 1) r (ts ++ t ∷ []) (omega arith)
            (omega (arith, length-append ts (t ∷ [])))
          ∙ behind_more ts t (vector n (words r)))
]

-- no byte is a NUL
abbrev pub IsText : Bytes → Type 0
IsText = All (λ c. (c == 0) ≡ false)

until_nul-take : (n : ℕ) (s : Bytes) → IsText s → until_nul (take n (s ++ 0 ∷ [])) ≡ take n s
unfolding until_nul
until_nul-take zero s t = refl
until_nul-take (suc n) [] t = refl
until_nul-take (suc n) (c ∷ s) t = rw (t.0) (ap (λ l. c ∷ l) (until_nul-take n s t.1))

vector-fits :
    (n : ℕ) (ts : List Bytes)
    → length ts < n
    → vector n ts ≡ ok (strs ts ++ null ∷ replicate (n - length ts - 1) uninit)
unfolding vector
vector-fits zero ts h = absurd (omega arith)
vector-fits (suc n) [] h = let left : suc n - 0 - 1 ≡ n = omega arith in rw left refl
vector-fits (suc n) (t ∷ ts) h =
    let left : suc n - suc (length ts) - 1 ≡ n - length ts - 1 = omega arith in
    rw (vector-fits n ts (omega arith), left) refl

vector_overrun : (n : ℕ) (ts : List Bytes) → n ≤ length ts → vector n ts ≡ fault out_of_bounds
unfolding vector
vector_overrun zero ts h = refl
vector_overrun (suc n) [] h = absurd (omega arith)
vector_overrun (suc n) (t ∷ ts) h = rw (vector_overrun n ts (omega arith)) refl

execute-vector :
    (command : Bytes)
    → IsText command
    → execute command ≡ (do v ← vector 100 (words (take 1023 command)); executed v)
unfolding execute received behind
execute-vector command t =
    let buf = take 1023 command in
    rw
      (
        until_nul-take 1023 command t,
        token_loop-vector (length buf + 1) 100 0 buf [] (omega arith) refl,
      )
      (again (vector 100 (words buf)))
  where
    again : (v : Run Argv) → (do a ← (do b ← v; ok b); executed a) ≡ (do a ← v; executed a)
    again (ok a) = refl
    again (fault f) = refl

run_words :
    (t : Bytes) (ts : List Bytes) (slots : Argv)
    → executed (strs (t ∷ ts) ++ slots) ≡ ok (strs (t ∷ ts) ++ slots)
unfolding executed load text
run_words t ts slots = refl

no_words : (do v ← vector 100 []; executed v) ≡ fault null_pointer
unfolding vector executed load text
no_words = refl

-- what the executor does with the words of a line
unfoldable pub meaning : List Bytes → Run Argv
meaning [] = fault null_pointer
meaning (t ∷ ts) =
    if ltb (length (t ∷ ts)) 100
    then ok (strs (t ∷ ts) ++ null ∷ replicate (100 - length (t ∷ ts) - 1) uninit)
    else fault out_of_bounds

-- Of the first 1023 bytes of a line the executor runs the words, in an array that ends in NULL, if
-- there are at least one and at most 99; for none it reads NULL, and for 100 and more it writes
-- behind its array.
pub execute-words :
    (command : Bytes) → IsText command → execute command ≡ meaning (words (take 1023 command))
unfolding meaning
execute-words command t = execute-vector command t ∙ by_count (words (take 1023 command))
  where
    by_count : (ts : List Bytes) → (do v ← vector 100 ts; executed v) ≡ meaning ts
    by_count [] = no_words
    by_count (t ∷ ts) = elim (Bool-cases (ltb (length (t ∷ ts)) 100)) [
      | inl fits ↦
          rw (fits, vector-fits 100 (t ∷ ts) (ltb→lt (length (t ∷ ts)) 100 fits))
            (run_words t ts (null ∷ replicate (100 - length (t ∷ ts) - 1) uninit))
      | inr over ↦ rw (over, vector_overrun 100 (t ∷ ts) (ground arith)) refl
    ]
