-- ===== src/Dictionary/Lookup/Records.antt =====
-- A lookup in the records of a dictionary.
use nsysu_network_applicatio.Prelude.{
  ℕ, zero, suc, ◌+◌, ◌<◌, ◌≤◌, ◌≡◌, refl, ◌∙◌, Bool, true, false, Bytes, List, [], ◌∷◌, ◌++◌,
  length, append_assoc, Run, ok, fault, leb, if◌then◌else◌, arith, str_eq, All, take, drop,
  length-append, take-append, drop-append, take-append_within, Option, none, some, inl, inr,
  Bool-cases,
}
use nsysu_network_applicatio.Broker.Message.{until_nul}
use nsysu_network_applicatio.Shell.Parse.Words.{words}
use nsysu_network_applicatio.Dictionary.{Entry, padded}
use nsysu_network_applicatio.Dictionary.Convert.{record_of}
use nsysu_network_applicatio.Dictionary.Convert.Source.{IsEntry, text_of, records}
use nsysu_network_applicatio.Dictionary.Lookup.{Answer, not_found, fill, take_over, scan, in_file}
use nsysu_network_applicatio.Dictionary.Lookup.Fields.{take-padded, word-field, text-field}
use nsysu_network_applicatio.Dictionary.Lookup.Overrun.{fault_at, take_over_lem, words-padded}

-- What a dictionary has for a word: the words of the first definition whose word is the same up to
-- the spaces that fill 31 bytes.
unfoldable pub definition_of : List Entry → Bytes → Option (List Bytes)
unfolding padded text_of
definition_of [] word = none
definition_of ((entry, lines) ∷ es) word =
    if str_eq (padded 31 entry) (padded 31 word)
    then some (words (text_of lines))
    else definition_of es word

-- The answer for it: what the dictionary does not have is not found, and what it has ends in a fault.
unfoldable pub answer_of : Bool → Option (List Bytes) → Bytes → Run (Answer × Bytes)
unfolding fault_at
answer_of malloc_ok none text = ok (not_found, text)
answer_of malloc_ok (some ts) text = fault (fault_at malloc_ok ts)

le→leb : (a b : ℕ) → a ≤ b → leb a b ≡ true
le→leb a b h = ground arith

drop_record :
    (word read rest : Bytes)
    → length word ≡ 32
    → length read ≡ 480
    → drop 512 (word ++ (read ++ rest)) ≡ rest
drop_record word read rest w r =
    rw (← append_assoc word read rest)
      (drop-append (word ++ read) rest 512 (omega (arith, length-append word read)))

module _ (alloc : ℕ → Bool) where
  take_over-padded :
      (kept text : Bytes)
      → take_over alloc (padded 479 kept) text ≡ answer_of (alloc 0) (some (words kept)) text
  unfolding answer_of
  take_over-padded kept text =
      take_over_lem alloc (padded 479 kept) text ∙ rw (words-padded 479 kept) refl

  scan-end :
      (fuel : ℕ) (tmp_word dr_text text : Bytes)
      → scan alloc (suc fuel) tmp_word dr_text [] text ≡ ok (not_found, text)
  unfolding scan
  scan-end fuel tmp_word dr_text text = refl

  scan_miss :
      (fuel : ℕ) (tmp_word dr_text word read rest text : Bytes)
      → length word ≡ 32
      → length read ≡ 480
      → str_eq (until_nul (take 31 word)) tmp_word ≡ false
      → scan alloc (suc fuel) tmp_word dr_text (word ++ (read ++ rest)) text
        ≡ scan alloc fuel tmp_word (fill read dr_text) rest text
  unfolding scan
  scan_miss fuel tmp_word dr_text word read rest text w r differ =
      rw
        (
          take-append word (read ++ rest) 32 (omega arith),
          drop-append word (read ++ rest) 32 (omega arith),
          take-append read rest 480 (omega arith),
          drop_record word read rest w r,
          w,
          r,
          differ,
        )
        refl

  scan_hit :
      (fuel : ℕ) (tmp_word dr_text word read rest text : Bytes)
      → length word ≡ 32
      → length read ≡ 480
      → str_eq (until_nul (take 31 word)) tmp_word ≡ true
      → scan alloc (suc fuel) tmp_word dr_text (word ++ (read ++ rest)) text
        ≡ take_over alloc (until_nul (take 479 read)) text
  unfolding scan fill
  scan_hit fuel tmp_word dr_text word read rest text w r same =
      rw
        (
          take-append word (read ++ rest) 32 (omega arith),
          drop-append word (read ++ rest) 32 (omega arith),
          take-append read rest 480 (omega arith),
          take-append_within 479 read (drop (length read) dr_text) (omega arith),
          w,
          r,
          same,
        )
        refl

  scan-records :
      (fuel : ℕ) (es : List Entry) (dr_text word text : Bytes)
      → All IsEntry es
      → length (records es) < fuel
      → scan alloc fuel (padded 31 word) dr_text (records es) text
        ≡ answer_of (alloc 0) (definition_of es word) text
  unfolding records definition_of IsEntry record_of answer_of
  scan-records zero es dr_text word text w h = absurd (omega arith)
  scan-records (suc fuel) [] dr_text word text w h = scan-end fuel (padded 31 word) dr_text text
  scan-records (suc fuel) ((entry, lines) ∷ es) dr_text word text w h =
      let (lw, same_word) = word-field entry (w.0.0) in
      let (lr, same_text) = text-field lines (w.0.1) in
      let shorter : length (records es) < fuel = omega (
        arith,
        length-append (padded 32 entry ++ padded 480 (text_of lines)) (records es),
        length-append (padded 32 entry) (padded 480 (text_of lines)),
      ) in
      rw (append_assoc (padded 32 entry) (padded 480 (text_of lines)) (records es))
        (elim (Bool-cases (str_eq (padded 31 entry) (padded 31 word))) [
          | inl same ↦
              scan_hit fuel (padded 31 word) dr_text (padded 32 entry) (padded 480 (text_of lines))
                (records es) text lw lr (rw same_word same)
              ∙ rw (same_text, same) (take_over-padded (text_of lines) text)
          | inr differ ↦
              scan_miss fuel (padded 31 word) dr_text (padded 32 entry) (padded 480 (text_of lines))
                (records es) text lw lr (rw same_word differ)
              ∙ rw differ (
                  scan-records fuel es (fill (padded 480 (text_of lines)) dr_text) word text w.1
                    shorter)
        ])

  -- In the records of a dictionary `lookup` finds what the dictionary has.
  pub in_file-records :
      (es : List Entry) (dr_text word text : Bytes)
      → All IsEntry es
      → length word ≤ 31
      → in_file alloc (records es) dr_text word text
        ≡ answer_of (alloc 0) (definition_of es word) text
  unfolding in_file
  in_file-records es dr_text word text w h =
      rw (le→leb (length word) 32 (omega arith), take-padded 31 word h)
        (scan-records (length (records es) + 1) es dr_text word text w (omega arith))
