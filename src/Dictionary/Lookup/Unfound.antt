-- ===== src/Dictionary/Lookup/Unfound.antt =====
-- `lookup` in any file, also one that `convert` did not write.
use nsysu_network_applicatio.Prelude.{
  ℕ, zero, suc, ◌+◌, ◌<◌, ◌≤◌, ◌≡◌, refl, Bool, true, false, ◌||◌, Bytes, List, [], ◌∷◌, length,
  Run, ok, fault, null_pointer, out_of_bounds, ◌==◌, leb, arith, str_eq, take, drop, length-drop,
  inl, inr, Bool-cases, ◌⊎◌,
}
use nsysu_network_applicatio.Broker.Message.{until_nul}
use nsysu_network_applicatio.Shell.Parse.Words.{words}
use nsysu_network_applicatio.Dictionary.{padded}
use nsysu_network_applicatio.Dictionary.Lookup.{Answer, not_found, fill, take_over, scan, in_file}
use nsysu_network_applicatio.Dictionary.Lookup.Overrun.{fault_at, take_over_lem}

-- The word is not found and the text is left alone, or memory is touched that must not be.
abbrev pub EndsUnfound : Bytes → Run (Answer × Bytes) → Type 0
EndsUnfound text r =
    (r ≡ ok (not_found, text)) ⊎ ((r ≡ fault null_pointer) ⊎ (r ≡ fault out_of_bounds))

fault_at-EndsUnfound :
    (malloc_ok : Bool) (ts : List Bytes) (text : Bytes)
    → EndsUnfound text (fault (fault_at malloc_ok ts))
unfolding fault_at
fault_at-EndsUnfound malloc_ok [] text = inr (inl refl)
fault_at-EndsUnfound true (t ∷ ts) text = inr (inr refl)
fault_at-EndsUnfound false (t ∷ ts) text = inr (inl refl)

module _ (alloc : ℕ → Bool) where
  take_over-EndsUnfound :
      (found_text text : Bytes) → EndsUnfound text (take_over alloc found_text text)
  take_over-EndsUnfound found_text text =
      rw (take_over_lem alloc found_text text)
        (fault_at-EndsUnfound (alloc 0) (words found_text) text)

  scan-EndsUnfound :
      (fuel : ℕ) (tmp_word dr_text rest text : Bytes)
      → length rest < fuel
      → EndsUnfound text (scan alloc fuel tmp_word dr_text rest text)
  unfolding scan
  scan-EndsUnfound zero tmp_word dr_text rest text h = absurd (omega arith)
  scan-EndsUnfound (suc fuel) tmp_word dr_text [] text h = inl refl
  scan-EndsUnfound (suc fuel) tmp_word dr_text (c ∷ rest) text h =
      let read = take 480 (drop 32 (c ∷ rest)) in
      let dr_text' = fill read dr_text in
      elim (Bool-cases (length (take 32 (c ∷ rest)) == 0 || length read == 0)) [
        | inl ends ↦ rw (scan, ends) (inl refl)
        | inr on ↦ elim (Bool-cases (str_eq (until_nul (take 31 (take 32 (c ∷ rest)))) tmp_word)) [
          | inl same ↦
              rw (scan, on, same) (take_over-EndsUnfound (until_nul (take 479 dr_text')) text)
          | inr differ ↦
              let shorter : length (drop 512 (c ∷ rest)) < fuel =
                omega (arith, length-drop 512 (c ∷ rest)) in
              rw (scan, on, differ)
                (scan-EndsUnfound fuel tmp_word dr_text' (drop 512 (c ∷ rest)) text shorter)
        ]
      ]

  -- Whatever the file and the stack hold and whatever allocation fails, `lookup` of a word of at most
  -- 32 bytes comes to an end and never finds it: it answers that the word is not there and leaves the
  -- text alone, or it reads NULL, or it writes behind a block.
  pub in_file-EndsUnfound :
      (file dr_text word text : Bytes)
      → length word ≤ 32
      → EndsUnfound text (in_file alloc file dr_text word text)
  unfolding in_file
  in_file-EndsUnfound file dr_text word text h =
      let fits : leb (length word) 32 ≡ true = ground arith in
      rw fits (
        scan-EndsUnfound (length file + 1) (take 31 (padded 32 word)) dr_text file text
          (omega arith))
