-- ===== src/Shell/Redirect/Removed.antt =====
-- What the two redirections do to the vector.
use nsysu_network_applicatio.Prelude.{
  ℕ, zero, suc, ◌+◌, ◌<◌, ◌≡◌, Bool, true, false, Bytes, str_eq_refl, List, [], ◌∷◌, ◌++◌,
  append_assoc, append-nil, length, Option, none, some, ok, arith, length-append,
}
use nsysu_network_applicatio.Prelude.Int.{pos, negsuc}
use nsysu_network_applicatio.Shell.Argv.{
  Slot, null, str, freed, Argv, argv_of, strs, text, load-append, load-append_null, store-append,
  length-strs, strs-snoc, length-argv_of, load-append_second, load-append_second_null,
  load-append_third, load-append_third_null, store-append_second,
}
use nsysu_network_applicatio.Shell.Words.{contains}
use nsysu_network_applicatio.Shell.Redirect.{
  opened, duplicated, closed, Call, shift, open_slot, redirect_loop,
}

-- What stays behind the terminator when the words `ts` have moved two slots to the left, where `b`
-- is the second slot of the gap.
abbrev pub leftover : Slot → List Bytes → Argv
leftover b [] = b ∷ null ∷ []
leftover b (t ∷ ts) = leftover (str t) ts

shift_lem :
    (fuel : ℕ) (before ts : List Bytes) (a b : Slot) (j : ℕ)
    → j ≡ length before
    → length ts < fuel
    → shift fuel (strs before ++ a ∷ b ∷ argv_of ts) j
      ≡ ok (strs (before ++ ts) ++ null ∷ leftover b ts)
unfolding shift
shift_lem zero before ts a b j e h = absurd (omega arith)
shift_lem (suc fuel) before [] a b j e h = ground (
  arith,
  length-strs before,
  append-nil before,
  load-append_third_null (strs before) a b [] (j + 2),
  store-append (strs before) a (b ∷ null ∷ []) j null,
)
shift_lem (suc fuel) before (t ∷ ts) a b j e h = ground (
  arith,
  length-strs before,
  length-append before (t ∷ []),
  load-append_third (strs before) a b t (argv_of ts) (j + 2),
  store-append (strs before) a (b ∷ str t ∷ argv_of ts) j (str t),
  strs-snoc before t (b ∷ str t ∷ argv_of ts),
  append_assoc before (t ∷ []) ts,
  shift_lem fuel (before ++ t ∷ []) ts b (str t) (j + 1),
)

-- the calls of a redirection to `std`
abbrev pub done_calls : ℕ → Bytes → ℕ → List Call
done_calls std name fd = opened name fd ∷ duplicated fd std ∷ closed fd ∷ []

-- no word behind the symbol, or one that `open` refuses
abbrev pub CannotOpen : (Bytes → Option ℕ) → List Bytes → Type 0
CannotOpen open_file [] = Unit {0}
CannotOpen open_file (name ∷ ts) = open_file name ≡ none

module _ (open_file : Bytes → Option ℕ) (dup2_ok : ℕ → Bool) (symbol : Bytes) (std : ℕ) where
  -- Over words that are not the symbol the loop only walks on.
  pub walk :
      (pre before : List Bytes) (rest : Argv) (fuel left i k : ℕ) (calls : List Call)
      → i ≡ length before
      → fuel ≡ length pre + left
      → k ≡ i + length pre
      → contains symbol pre ≡ false
      → redirect_loop open_file dup2_ok symbol std fuel (strs before ++ (strs pre ++ rest)) i calls
        ≡ redirect_loop open_file dup2_ok symbol std left (strs (before ++ pre) ++ rest) k calls
  unfolding redirect_loop contains text
  walk [] before rest fuel left i k calls e f g c = ground (arith, append-nil before)
  walk (t ∷ pre) before rest zero left i k calls e f g c = absurd (omega arith)
  walk (t ∷ pre) before rest (suc fuel) left i k calls e f g c = ground (
    arith,
    length-strs before,
    length-append before (t ∷ []),
    load-append (strs before) t (strs pre ++ rest) i,
    strs-snoc before t (strs pre ++ rest),
    append_assoc before (t ∷ []) pre,
    walk pre (before ++ t ∷ []) rest fuel left (i + 1) k calls,
  )

  -- At a NULL the loop returns.
  pub stop :
      (before : List Bytes) (junk : Argv) (fuel i : ℕ) (calls : List Call)
      → i ≡ length before
      → redirect_loop open_file dup2_ok symbol std (suc fuel) (strs before ++ null ∷ junk) i calls
        ≡ ok (pos 0, strs before ++ null ∷ junk, calls)
  unfolding redirect_loop
  stop before junk fuel i calls e =
      ground (arith, length-strs before, load-append_null (strs before) junk i)

  -- At the symbol, with a file that opens: the two words go and the others move up.
  pub hop :
      (before : List Bytes) (name : Bytes) (ts : List Bytes) (fd fuel i : ℕ) (calls : List Call)
      → i ≡ length before
      → open_file name ≡ some fd
      → dup2_ok fd ≡ true
      → redirect_loop open_file dup2_ok symbol std
          (suc fuel)
          (strs before ++ str symbol ∷ str name ∷ argv_of ts)
          i
          calls
        ≡ redirect_loop open_file dup2_ok symbol std fuel
            (strs (before ++ ts) ++ null ∷ leftover freed ts)
            (i + 1)
            (calls ++ done_calls std name fd)
  unfolding redirect_loop open_slot text
  hop before name ts fd fuel i calls e opens dups = ground (
    arith,
    str_eq_refl symbol,
    length-strs before,
    load-append (strs before) symbol (str name ∷ argv_of ts) i,
    load-append_second (strs before) (str symbol) name (argv_of ts) (i + 1),
    store-append (strs before) (str symbol) (str name ∷ argv_of ts) i freed,
    load-append_second (strs before) freed name (argv_of ts) (i + 1),
    store-append_second (strs before) freed (str name) (argv_of ts) (i + 1) freed,
    length-append (strs before) (freed ∷ freed ∷ argv_of ts),
    length-argv_of ts,
    shift_lem (length (strs before ++ freed ∷ freed ∷ argv_of ts)) before ts freed freed i,
  )

  -- At the symbol, with no file behind it or one that does not open.
  pub refuse :
      (before : List Bytes) (ts : List Bytes) (fuel i : ℕ) (calls : List Call)
      → i ≡ length before
      → CannotOpen open_file ts
      → redirect_loop open_file dup2_ok symbol std
          (suc fuel)
          (strs before ++ str symbol ∷ argv_of ts)
          i
          calls
        ≡ ok (negsuc 0, strs before ++ str symbol ∷ argv_of ts, calls)
  unfolding redirect_loop open_slot text
  refuse before [] fuel i calls e h = ground (
    arith,
    str_eq_refl symbol,
    length-strs before,
    load-append (strs before) symbol (argv_of []) i,
    load-append_second_null (strs before) (str symbol) [] (i + 1),
  )
  refuse before (t ∷ ts) fuel i calls e h = ground (
    arith,
    str_eq_refl symbol,
    length-strs before,
    load-append (strs before) symbol (argv_of (t ∷ ts)) i,
    load-append_second (strs before) (str symbol) t (argv_of ts) (i + 1),
  )
