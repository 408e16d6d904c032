-- ===== src/Dictionary/Lookup.antt =====
-- hw6/part3/lookup1.c and main.c: a word is looked up in the file of records, and what is printed.
pub mod Overrun
pub mod Unfound
pub mod Fields
pub mod Records
pub mod Session
use nsysu_network_applicatio.Prelude.{
  ℕ, zero, suc, ◌+◌, Bool, true, false, ◌||◌, Bytes, codes, List, [], ◌∷◌, ◌++◌, length, take, drop,
  Option, none, some, Run, ok, fault, ◌>>=◌, ◌>>◌, ◌==◌, ltb, leb, if◌then◌else◌, str_eq,
  out_of_bounds, null_pointer, out_of_fuel,
}
use nsysu_network_applicatio.Broker.Message.{until_nul}
use nsysu_network_applicatio.Shell.Parse.{strtok}
use nsysu_network_applicatio.Dictionary.{space, padded}
use nsysu_network_applicatio.Dictionary.Convert.{before_newline}

-- `FOUND` and `NOTFOUND`; this `lookup` never answers `UNAVAIL`.
pub data Answer : Type 0 where
  found : Answer
  not_found : Answer

-- The static `in`: not opened yet, NULL, or the file.
pub data File : Type 0 where
  unopened : File
  missing : File
  opened : Bytes → File

-- what is copied into a buffer, in front of what the buffer keeps
unfoldable pub fill : Bytes → Bytes → Bytes
fill new old = new ++ drop (length new) old

-- the result of an allocation is written to at once
unfoldable pub allocated : Bool → Run {0} Unit
allocated true = ok tt
allocated false = fault null_pointer

-- `strcat` into a block of `size` bytes, with the NUL
unfoldable pub strcat : ℕ → Bytes → Bytes → Run Bytes
strcat size front back =
    if ltb (length front + length back) size then ok (front ++ back) else fault out_of_bounds

-- `final_str` with `tmp` behind it, in a block of just the size
unfoldable pub extended : Option Bytes → Bytes → Run (Option Bytes)
unfolding strcat
extended none tmp = ok (some tmp)
extended (some final_str) tmp = do
  s ← strcat (length final_str + length tmp + 1) final_str tmp
  ok (some s)

-- `strncpy(sought->text, final_str, strlen(final_str))`, which writes no NUL
unfoldable pub copied : Option Bytes → Bytes → Run Bytes
unfolding fill
copied none text = fault null_pointer
copied (some final_str) text =
    if leb (length final_str) (length text) then ok (fill final_str text) else fault out_of_bounds

module _ (alloc : ℕ → Bool) where
  -- The loop over the tokens of a text; `alloc k` says whether the k-th allocation succeeds. `tmp` has
  -- room for the token and its NUL.
  pub join_loop : ℕ → ℕ → Bytes → Option Bytes → Run (Option Bytes)
  unfolding allocated extended strcat
  join_loop zero calls rest final_str = fault out_of_fuel
  join_loop (suc fuel) calls rest final_str = elim (strtok rest) [
    | none ↦ ok final_str
    | some (token, rest') ↦ do
      allocated (alloc calls)
      tmp ← strcat (length token + 1) token (space ∷ [])
      allocated (alloc (calls + 1))
      final_str' ← extended final_str tmp
      join_loop fuel (calls + 2) rest' final_str'
  ]

  -- a record that fits
  unfoldable pub take_over : Bytes → Bytes → Run (Answer × Bytes)
  take_over found_text text = do
    final_str ← join_loop (length found_text + 1) 0 found_text none
    text' ← copied final_str text
    ok (found, text')

  -- The `while` of `lookup`, with `rest` the file from where it is read on, `dr_text` the buffer that
  -- a short read leaves as it was, and `text` the 480 bytes of `sought->text`.
  unfoldable pub scan : ℕ → Bytes → Bytes → Bytes → Bytes → Run (Answer × Bytes)
  unfolding fill
  scan zero tmp_word dr_text rest text = fault out_of_fuel
  scan (suc fuel) tmp_word dr_text rest text =
      let word = take 32 rest in
      let read = take 480 (drop 32 rest) in
      let dr_text' = fill read dr_text in
      let on = scan fuel tmp_word dr_text' (drop 512 rest) text in
      if length word == 0 || length read == 0
      then ok (not_found, text)
      else if str_eq (until_nul (take 31 word)) tmp_word
      then take_over (until_nul (take 479 dr_text')) text
      else on

  -- From `tmp_word` on: spaces behind the word, and a NUL for the last byte.
  unfoldable pub in_file : Bytes → Bytes → Bytes → Bytes → Run (Answer × Bytes)
  in_file file dr_text word text =
      if leb (length word) 32
      then scan (length file + 1) (take 31 (padded 32 word)) dr_text file text
      else fault out_of_bounds

  opened_lookup : Bytes → Bytes → Bytes → Bytes → Run (File × Answer × Bytes)
  opened_lookup file dr_text word text = do
    (answer, text') ← in_file file dr_text word text
    ok (opened file, answer, text')

  -- `lookup`, with what `fopen` gives for the resource. The second call on a file that could not be
  -- opened passes NULL to `rewind`.
  unfoldable pub lookup : Option Bytes → File → Bytes → Bytes → Bytes → Run (File × Answer × Bytes)
  unfolding opened_lookup
  lookup none unopened dr_text word text = ok (missing, not_found, text)
  lookup (some file) unopened dr_text word text = opened_lookup file dr_text word text
  lookup resource missing dr_text word text = fault null_pointer
  lookup resource (opened file) dr_text word text = opened_lookup file dr_text word text

-- a string in an array, which is read up to its NUL
unfoldable pub c_string : Bytes → Run Bytes
c_string [] = fault out_of_bounds
c_string (c ∷ s) = let rest = c_string s in if c == 0 then ok [] else do t ← rest; ok (c ∷ t)

-- What `main` prints for an answer.
unfoldable pub reply : Bytes → Answer → Bytes → Run Bytes
unfolding c_string
reply word found text = do s ← c_string text; ok (word ++ (codes " : " ++ (s ++ codes "\n")))
reply word not_found text = ok (word ++ codes " : Not Found!\n")

-- what `fgets` and `strcspn` leave in `tryit.word`; at the end of the input it stays blank
unfoldable pub typed_word : Option Bytes → Bytes
typed_word none = []
typed_word (some line) = before_newline line

-- The loop of `main` over what `fgets` gives, each with the stack that `lookup` finds; `blank_text`
-- is the text of `blank`, of which only the first byte was written.
pub main_loop :
    (ℕ → Bool) → Option Bytes → Bytes → File → List (Option Bytes × Bytes) → Run (List Bytes)
unfolding typed_word
main_loop alloc resource blank_text file [] = ok []
main_loop alloc resource blank_text file ((input, dr_text) ∷ inputs) = do
  (file', answer, text) ← lookup alloc resource file dr_text (typed_word input) blank_text
  out ← reply (typed_word input) answer text
  outs ← main_loop alloc resource blank_text file' inputs
  ok (out ∷ outs)
