-- ===== src/Shell/Redirect/Cases.antt =====
-- The outcome of `redirect_in` and `redirect_out`, by where the symbol stands.
use nsysu_network_applicatio.Prelude.{
  ℕ, suc, ◌+◌, ◌≡◌, refl, ap, ◌∙◌, Bool, true, false, Bytes, List, [], ◌∷◌, ◌++◌, append_assoc,
  append-nil, length, Option, some, ok, fault, use_after_free, arith, length-append,
}
use nsysu_network_applicatio.Prelude.Int.{pos, negsuc}
use nsysu_network_applicatio.Shell.Argv.{
  null, str, Argv, argv_of, strs, text, length-strs, strs-null, strs-argv_of, length-argv_of,
  load-append_second_freed,
}
use nsysu_network_applicatio.Shell.Words.{contains}
use nsysu_network_applicatio.Shell.Redirect.{Direction, symbol_of, std_of, redirect_loop, redirect}
use nsysu_network_applicatio.Shell.Redirect.Removed.{
  leftover, walk, stop, hop, refuse, CannotOpen, done_calls,
}

length-words :
    (pre : List Bytes) (s : Bytes) (ts : List Bytes)
    → length (argv_of (pre ++ s ∷ ts)) ≡ length pre + suc (suc (length ts))
length-words pre s ts = omega (arith, length-argv_of (pre ++ s ∷ ts), length-append pre (s ∷ ts))

-- the live strings with the word `x` counted to those in front
strs-snoc-words :
    (pre : List Bytes) (x : Bytes) (post : List Bytes) (junk : Argv)
    → strs (pre ++ x ∷ post) ++ null ∷ junk ≡ strs (pre ++ x ∷ []) ++ (strs post ++ null ∷ junk)
strs-snoc-words [] x post junk = refl
strs-snoc-words (t ∷ pre) x post junk = ap (λ l. str t ∷ l) (strs-snoc-words pre x post junk)

module _ (open_file : Bytes → Option ℕ) (dup2_ok : ℕ → Bool) (d : Direction) where
  -- Words without the symbol are left as they are: status 0, and no call is made.
  pub redirect_untouched :
      (ts : List Bytes)
      → contains (symbol_of d) ts ≡ false
      → redirect open_file d dup2_ok (argv_of ts) ≡ ok (pos 0, argv_of ts, [])
  unfolding redirect
  redirect_untouched ts none_there = rw (← strs-null ts) (
      walk open_file dup2_ok (symbol_of d) (std_of d) ts [] (null ∷ [])
        (length (strs ts ++ null ∷ [])) 1 0 (length ts) [] refl
        (omega (arith, length-append (strs ts) (null ∷ []), length-strs ts)) (omega arith)
        none_there
      ∙ stop open_file dup2_ok (symbol_of d) (std_of d) ts [] 0 (length ts) [] refl)

  module _ (pre : List Bytes) (before_it : contains (symbol_of d) pre ≡ false) where
    to_symbol :
        (ts : List Bytes)
        → redirect open_file d dup2_ok (argv_of (pre ++ symbol_of d ∷ ts))
          ≡ redirect_loop open_file dup2_ok
              (symbol_of d)
              (std_of d)
              (suc (suc (length ts)))
              (strs pre ++ str (symbol_of d) ∷ argv_of ts)
              (length pre)
              []
    unfolding redirect
    to_symbol ts = rw (← strs-argv_of pre (symbol_of d ∷ ts)) (
        walk open_file dup2_ok (symbol_of d) (std_of d) pre [] (argv_of (symbol_of d ∷ ts))
          (length (strs pre ++ argv_of (symbol_of d ∷ ts))) (suc (suc (length ts))) 0 (length pre)
          [] refl
          (omega (
            arith,
            length-words pre (symbol_of d) ts,
            ap length (strs-argv_of pre (symbol_of d ∷ ts)),
          ))
          (omega arith) before_it)

    -- If no word stands behind the symbol, or one that does not open, the status is -1, and the
    -- vector is left as it was.
    pub redirect_refused :
        (ts : List Bytes)
        → CannotOpen open_file ts
        → redirect open_file d dup2_ok (argv_of (pre ++ symbol_of d ∷ ts))
          ≡ ok (negsuc 0, argv_of (pre ++ symbol_of d ∷ ts), [])
    redirect_refused ts refused =
        to_symbol ts
        ∙ refuse open_file dup2_ok (symbol_of d) (std_of d) pre ts (suc (length ts)) (length pre) []
            refl refused
        ∙ ap (λ v. ok (negsuc 0, v, [])) (strs-argv_of pre (symbol_of d ∷ ts))

    module _ (name : Bytes) (fd : ℕ) (opens : open_file name ≡ some fd)
        (dups : dup2_ok fd ≡ true) where
      -- If the symbol and the file are the last two words, the loop reads the string of the file
      -- name after it was freed.
      pub redirect_last :
          redirect open_file d dup2_ok (argv_of (pre ++ symbol_of d ∷ name ∷ []))
          ≡ fault use_after_free
      unfolding redirect_loop text
      redirect_last =
          to_symbol (name ∷ [])
          ∙ hop open_file dup2_ok (symbol_of d) (std_of d) pre name [] fd 2 (length pre) [] refl
              opens dups
          ∙ ground (
            arith,
            append-nil pre,
            length-strs pre,
            load-append_second_freed (strs pre) null (null ∷ []) (length pre + 1),
          )

      -- If the file opens and dup2 succeeds, words follow the file name, and the symbol is none of
      -- the words before it nor of those behind the file name from the second on, then the status is
      -- 0, the file was opened, duplicated and closed, and the words of the vector are the old ones
      -- without the symbol and the file name. The first word that follows is not looked at, and may
      -- be the symbol again.
      pub redirect_middle :
          (x : Bytes) (post : List Bytes)
          → contains (symbol_of d) post ≡ false
          → redirect open_file d dup2_ok (argv_of (pre ++ symbol_of d ∷ name ∷ x ∷ post))
            ≡ ok (
              pos 0,
              strs (pre ++ x ∷ post) ++ null ∷ leftover (str x) post,
              done_calls (std_of d) name fd,
            )
      redirect_middle x post behind =
          to_symbol (name ∷ x ∷ post)
          ∙ hop open_file dup2_ok (symbol_of d) (std_of d) pre name (x ∷ post) fd
              (suc (suc (suc (length post)))) (length pre) [] refl opens dups
          ∙ rw (strs-snoc-words pre x post) (
              walk open_file dup2_ok (symbol_of d) (std_of d) post (pre ++ x ∷ [])
                (null ∷ leftover (str x) post) (suc (suc (suc (length post)))) 3 (length pre + 1)
                (length (pre ++ x ∷ post)) (done_calls (std_of d) name fd)
                (omega (arith, length-append pre (x ∷ []))) (omega arith)
                (omega (arith, length-append pre (x ∷ post))) behind
              ∙ rw
                  (
                    append_assoc pre (x ∷ []) post,
                    ← strs-snoc-words pre x post (leftover (str x) post),
                  )
                  (stop open_file dup2_ok (symbol_of d) (std_of d) (pre ++ x ∷ post)
                    (leftover (str x) post) 2 (length (pre ++ x ∷ post))
                    (done_calls (std_of d) name fd) refl))
