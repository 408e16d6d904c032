-- ===== src/Dictionary/Tests.antt =====
-- The dictionary on a word or two.
use Prim.Native.Nat.{Ordering}
use mathlib.Core.List.{Memᴰ}
use mathlib.Core.Option.{some-injective}
use nsysu_network_applicatio.Prelude.{
  ℕ, ◌≡◌, ◌≢◌, refl, ◌⊎◌, Bool, true, Bytes, codes, List, [], ◌∷◌, Option, none, some, fault,
  out_of_bounds, ◌>>=◌, str_eq, replicate, All, arith, not, ◌&&◌, ◌==◌, sym, ap, ◌∙◌, inl, inr,
}
use nsysu_network_applicatio.Shell.Parse.Words.{words}
use nsysu_network_applicatio.Dictionary.{Entry, newline, padded}
use nsysu_network_applicatio.Dictionary.Convert.Lines.{IsPlain}
use nsysu_network_applicatio.Dictionary.Convert.{convert, before_newline}
use nsysu_network_applicatio.Dictionary.Convert.Source.{
  IsLine, IsEntry, source, text_of, joined_lines,
}
use nsysu_network_applicatio.Dictionary.Lookup.{
  unopened, main_loop, in_file, typed_word, reply, found,
}
use nsysu_network_applicatio.Dictionary.Lookup.Overrun.{fault_at}
use nsysu_network_applicatio.Dictionary.Lookup.Records.{definition_of, answer_of}
use nsysu_network_applicatio.Dictionary.Lookup.Session.{
  IsTyped, replies, reply_for, convert-main_loop,
}
use nsysu_network_applicatio.Dictionary.Lookup.Unfound.{EndsUnfound, in_file-EndsUnfound}
use nsysu_network_applicatio.Dictionary.Remote.{Dictrec, strcmp, remote_lookup, serve, answered}
use nsysu_network_applicatio.Dictionary.Remote.Table.{IsSorted, definition_in}
use nsysu_network_applicatio.Dictionary.Remote.Agreement.{
  BsearchLaws, delivered, remote_outcome, remote_lookup-serve,
}

abbrev plenty : ℕ → Bool
plenty n = true

abbrev entries : List Entry
entries =
    (codes "cat", codes "a small" ∷ codes "beast" ∷ []) ∷ (codes "hat", codes "a cover" ∷ []) ∷ []

is_plain : Bytes → Bool
is_plain [] = true
is_plain (c ∷ s) = not (c == newline) && (not (c == 0) && is_plain s)

plain : (s : Bytes) → is_plain s ≡ true → IsPlain s
unfolding is_plain
plain [] h = tt
plain (c ∷ s) h = ((ground arith, ground arith), plain s (ground arith))

entries-IsEntry : All IsEntry entries
unfolding IsEntry IsLine is_plain
entries-IsEntry = (
  (
    (plain (codes "cat") refl, omega arith),
    ((plain (codes "a small") refl, omega arith), ((plain (codes "beast") refl, omega arith), tt)),
  ),
  (
    ((plain (codes "hat") refl, omega arith), ((plain (codes "a cover") refl, omega arith), tt)),
    tt,
  ),
)

abbrev inputs : List (Option Bytes × Bytes)
inputs = (some (codes "dog\n"), codes "stale") ∷ (some (codes "hat\n"), []) ∷ []

inputs-IsTyped : All IsTyped inputs
unfolding IsTyped typed_word before_newline
inputs-IsTyped = (omega arith, (omega arith, tt))

convert-main_loop_example :
    (do
      (file, status) ← convert 0 (source entries)
      main_loop plenty (some file) (replicate 480 0) unopened inputs)
    ≡ fault out_of_bounds
unfolding replies reply_for typed_word before_newline definition_of answer_of reply fault_at words
    padded text_of joined_lines str_eq
convert-main_loop_example =
    convert-main_loop plenty entries entries-IsEntry 0 (replicate 480 0) inputs inputs-IsTyped

in_file-EndsUnfound_example :
    EndsUnfound
      (replicate 480 0)
      (in_file plenty (codes "a file of less than 32 bytes") [] (codes "cat") (replicate 480 0))
in_file-EndsUnfound_example =
    in_file-EndsUnfound plenty (codes "a file of less than 32 bytes") [] (codes "cat")
      (replicate 480 0) (omega arith)

-- a search from the front
keep : Ordering → Dictrec → Option Dictrec → Option Dictrec
keep Ordering.lt r rest = rest
keep Ordering.eq r rest = some r
keep Ordering.gt r rest = rest

search : (Dictrec → Ordering) → List Dictrec → Option Dictrec
unfolding keep
search cmp [] = none
search cmp (r ∷ rs) = keep (cmp r) r (search cmp rs)

abbrev table : List Dictrec
table =
    record { word = codes "ant"; text = codes "XXXX" }
    ∷ record { word = codes "bee"; text = codes "a maker of honey" }
    ∷ []

keep-hit :
    (o : Ordering) (r found_record : Dictrec) (rest : Option Dictrec)
    → keep o r rest ≡ some found_record
    → ((found_record ≡ r) × (o ≡ Ordering.eq)) ⊎ (rest ≡ some found_record)
unfolding keep
keep-hit Ordering.lt r s rest h = inr h
keep-hit Ordering.eq r s rest h = inl (sym (some-injective r s h), refl)
keep-hit Ordering.gt r s rest h = inr h

keep-miss :
    (o : Ordering) (r : Dictrec) (rest : Option Dictrec)
    → keep o r rest ≡ none
    → (o ≢ Ordering.eq) × (rest ≡ none)
unfolding keep
keep-miss Ordering.lt r rest h = (λ e. ground arith, h)
keep-miss Ordering.eq r rest h = absurd (ground arith)
keep-miss Ordering.gt r rest h = (λ e. ground arith, h)

search-hit :
    (cmp : Dictrec → Ordering) (rs : List Dictrec) (r : Dictrec)
    → search cmp rs ≡ some r
    → Memᴰ r rs × (cmp r ≡ Ordering.eq)
unfolding search
search-hit cmp [] r h = absurd (ground arith)
search-hit cmp (r' ∷ rs) r h = elim (keep-hit (cmp r') r' r (search cmp rs) h) [
  | inl (same, e) ↦ (Memᴰ.head same, ap cmp same ∙ e)
  | inr later ↦ let (m, e) = search-hit cmp rs r later in (Memᴰ.tail m, e)
]

search-miss :
    (cmp : Dictrec → Ordering) (rs : List Dictrec)
    → search cmp rs ≡ none
    → All (λ r. cmp r ≢ Ordering.eq) rs
unfolding search
search-miss cmp [] h = tt
search-miss cmp (r ∷ rs) h =
    let (differs, later) = keep-miss (cmp r) r (search cmp rs) h in
    (differs, search-miss cmp rs later)

search-BsearchLaws : BsearchLaws search
search-BsearchLaws = record { hit = search-hit; miss = λ cmp rs p. search-miss cmp rs }

table-IsSorted : IsSorted table
unfolding IsSorted strcmp
table-IsSorted = ((refl, tt), (tt, tt))

remote_lookup-serve_example :
    remote_lookup true
      (λ s. delivered (serve search table true (some s)))
      (record { word = codes "bee"; text = [] })
    ≡ answered found (record { word = codes "bee"; text = codes "a maker of honey" })
unfolding remote_outcome definition_in str_eq
remote_lookup-serve_example =
    remote_lookup-serve search search-BsearchLaws table table-IsSorted
      (record { word = codes "bee"; text = [] })
