-- ===== src/Dictionary/Lookup/Session.antt =====
-- What the program prints, from the file that `convert` was given.
use nsysu_network_applicatio.Prelude.{
  ℕ, ◌≤◌, ◌≡◌, refl, Bool, Bytes, List, [], ◌∷◌, length, Option, some, Run, ok, fault, ◌>>=◌, All,
}
use nsysu_network_applicatio.Dictionary.{Entry}
use nsysu_network_applicatio.Dictionary.Convert.{convert}
use nsysu_network_applicatio.Dictionary.Convert.Source.{IsEntry, source, records, convert-source}
use nsysu_network_applicatio.Dictionary.Lookup.{
  Answer, File, unopened, opened, opened_lookup, lookup, reply, typed_word, main_loop,
}
use nsysu_network_applicatio.Dictionary.Lookup.Records.{definition_of, answer_of, in_file-records}

-- the line for a word, from the dictionary
unfoldable pub reply_for : Bool → List Entry → Bytes → Bytes → Run Bytes
reply_for malloc_ok es blank_text word = do
  (answer, text) ← answer_of malloc_ok (definition_of es word) blank_text
  reply word answer text

-- the lines for the words that are typed
unfoldable pub replies : Bool → List Entry → Bytes → List (Option Bytes × Bytes) → Run (List Bytes)
unfolding reply_for
replies malloc_ok es blank_text [] = ok []
replies malloc_ok es blank_text (input ∷ inputs) = do
  out ← reply_for malloc_ok es blank_text (typed_word input.0)
  outs ← replies malloc_ok es blank_text inputs
  ok (out ∷ outs)

-- `fgets` with 32 bytes reads at most 31
unfoldable pub IsTyped : Option Bytes × Bytes → Type 0
IsTyped input = length (typed_word input.0) ≤ 31

round_joins :
    (looked_up : Run (File × Answer × Bytes)) (answered : Run (Answer × Bytes)) (file : File)
    (word : Bytes) (on : File → Run (List Bytes)) (outs : Run (List Bytes))
    → looked_up ≡ (do (a, t) ← answered; ok (file, a, t))
    → on file ≡ outs
    → (do (file', a, t) ← looked_up; out ← reply word a t; rest ← on file'; ok (out ∷ rest))
      ≡ (do out ← (do (a, t) ← answered; reply word a t); rest ← outs; ok (out ∷ rest))
round_joins looked_up (ok (a, t)) file word on outs e m = rw (e, m) refl
round_joins looked_up (fault f) file word on outs e m = rw e refl

module _ (alloc : ℕ → Bool) (es : List Entry) (w : All IsEntry es) where
  opened_lookup-records :
      (dr_text word text : Bytes)
      → length word ≤ 31
      → opened_lookup alloc (records es) dr_text word text ≡ (do
        (a, t) ← answer_of (alloc 0) (definition_of es word) text
        ok (opened (records es), a, t))
  unfolding opened_lookup
  opened_lookup-records dr_text word text h =
      rw (in_file-records alloc es dr_text word text w h) refl

  main_loop-opened :
      (resource : Option Bytes) (blank_text : Bytes) (inputs : List (Option Bytes × Bytes))
      → All IsTyped inputs
      → main_loop alloc resource blank_text (opened (records es)) inputs
        ≡ replies (alloc 0) es blank_text inputs
  unfolding main_loop replies reply_for lookup IsTyped
  main_loop-opened resource blank_text [] t = refl
  main_loop-opened resource blank_text ((input, dr_text) ∷ inputs) t =
      round_joins (opened_lookup alloc (records es) dr_text (typed_word input) blank_text)
        (answer_of (alloc 0) (definition_of es (typed_word input)) blank_text) (opened (records es))
        (typed_word input) (λ file. main_loop alloc resource blank_text file inputs)
        (replies (alloc 0) es blank_text inputs)
        (opened_lookup-records dr_text (typed_word input) blank_text t.0)
        (main_loop-opened resource blank_text inputs t.1)

  main_loop-first :
      (blank_text : Bytes) (inputs : List (Option Bytes × Bytes))
      → All IsTyped inputs
      → main_loop alloc (some (records es)) blank_text unopened inputs
        ≡ replies (alloc 0) es blank_text inputs
  unfolding main_loop replies reply_for lookup IsTyped
  main_loop-first blank_text [] t = refl
  main_loop-first blank_text ((input, dr_text) ∷ inputs) t =
      round_joins (opened_lookup alloc (records es) dr_text (typed_word input) blank_text)
        (answer_of (alloc 0) (definition_of es (typed_word input)) blank_text) (opened (records es))
        (typed_word input) (λ file. main_loop alloc (some (records es)) blank_text file inputs)
        (replies (alloc 0) es blank_text inputs)
        (opened_lookup-records dr_text (typed_word input) blank_text t.0)
        (main_loop-opened (some (records es)) blank_text inputs t.1)

  -- A dictionary in the form that `convert` asks for, converted and then searched by the program:
  -- where it has none of the words that are typed, each is reported as not found, and else the
  -- first one that it has ends the program. For a definition without words `strncpy` reads NULL;
  -- else `strcpy` writes to NULL where memory is refused, and `strcat` writes behind its block where
  -- it is not. No word or line of the dictionary is empty or holds a NUL, its words are shorter than
  -- 32 bytes and its lines than 511, and at most 31 bytes are typed.
  pub convert-main_loop :
      (errno : ℕ) (blank_text : Bytes) (inputs : List (Option Bytes × Bytes))
      → All IsTyped inputs
      → (do
        (file, status) ← convert errno (source es)
        main_loop alloc (some file) blank_text unopened inputs)
        ≡ replies (alloc 0) es blank_text inputs
  convert-main_loop errno blank_text inputs t =
      rw (convert-source errno es w) (main_loop-first blank_text inputs t)
