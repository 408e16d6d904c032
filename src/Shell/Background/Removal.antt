-- ===== src/Shell/Background/Removal.antt =====
-- `is_background` removes the first "&", wherever it stands, and closes the gap.
use nsysu_network_applicatio.Prelude.{
  ℕ, zero, suc, ◌+◌, ◌-◌, append_assoc, ◌<◌, ◌≡◌, ◌∙◌, refl, ap, true, false, Bytes, List, [], ◌∷◌,
  ◌++◌, append-nil, length, ok, arith, if◌then◌else◌, length-append,
}
use nsysu_network_applicatio.Shell.Argv.{
  null, str, argv_of, strs, load, text, load-append, load-append_null, store-append,
  load-append_second, load-append_second_null, store-append_second, length-strs, strs-snoc,
  strs-argv_of, length-argv_of,
}
use nsysu_network_applicatio.Shell.Words.{contains, remove_first}
use nsysu_network_applicatio.Shell.Background.{
  ampersand, notice, Outcome, background_loop, is_background,
}

-- Behind the "&": each word moves one slot to the left.
shift_loop :
    (fuel : ℕ) (before after : List Bytes) (i : ℕ) (out : Bytes)
    → i ≡ suc (length before)
    → length after < fuel
    → background_loop fuel (strs before ++ null ∷ argv_of after) i true out
      ≡ ok (strs (before ++ after) ++ null ∷ null ∷ [], true, out)
unfolding background_loop
shift_loop zero before after i out e h = absurd (omega arith)
shift_loop (suc fuel) before [] i out e h = rw (
  load-append_second_null (strs before) null [] i (omega (arith, length-strs before)),
  append-nil before,
)
shift_loop (suc fuel) before (t ∷ after) i out e h =
    rw
      (
        load-append_second (strs before) null t (argv_of after) i
            (omega (arith, length-strs before)),
        store-append (strs before) null (str t ∷ argv_of after) (i - 1) (str t)
            (omega (arith, length-strs before)),
        store-append_second (strs before) (str t) (str t) (argv_of after) i null
            (omega (arith, length-strs before)),
        strs-snoc before t (null ∷ argv_of after),
        ← append_assoc before (t ∷ []) after,
      )
      (shift_loop fuel (before ++ t ∷ []) after (i + 1) out
        (omega (arith, length-append before (t ∷ []))) (omega arith))

-- The vector, the answer and the output for the words `before ++ after`, with no "&" in `before`.
abbrev result : List Bytes → List Bytes → Outcome
result before after =
    if contains ampersand after
    then (strs (before ++ remove_first ampersand after) ++ null ∷ null ∷ [], true, notice)
    else (argv_of (before ++ after), false, [])

seek_loop :
    (fuel : ℕ) (before after : List Bytes) (i : ℕ)
    → i ≡ length before
    → length after < fuel
    → background_loop fuel (strs before ++ argv_of after) i false [] ≡ ok (result before after)
unfolding background_loop contains remove_first text
seek_loop zero before after i e h = absurd (omega arith)
seek_loop (suc fuel) before [] i e h =
    rw (load-append_null (strs before) [] i (omega (arith, length-strs before)))
      (ap (λ v. ok (v, false, [])) (strs-argv_of before []))
seek_loop (suc fuel) before (t ∷ after) i e h = ground (
  arith,
  length-strs before,
  length-append before (t ∷ []),
  load-append (strs before) t (argv_of after) i,
  store-append (strs before) (str t) (argv_of after) i null,
  shift_loop fuel before after (i + 1) notice,
  strs-snoc before t (argv_of after),
  append_assoc before (t ∷ []) after,
  append_assoc before (t ∷ []) (remove_first ampersand after),
  seek_loop fuel (before ++ t ∷ []) after (i + 1),
)

-- On a terminated vector `is_background` returns without a fault. If no word is "&" it answers 0,
-- prints nothing and leaves the vector alone; otherwise it answers 1, prints its notice and leaves
-- a vector whose words are the old ones without the first "&", wherever that stood.
pub is_background_lem :
    (ts : List Bytes)
    → is_background (argv_of ts)
      ≡ ok (
          if contains ampersand ts
          then (strs (remove_first ampersand ts) ++ null ∷ null ∷ [], true, notice)
          else (argv_of ts, false, []))
unfolding is_background contains load
is_background_lem [] = refl
is_background_lem (t ∷ ts) =
    seek_loop (length (argv_of (t ∷ ts))) [] (t ∷ ts) 0 refl (omega (arith, length-argv_of ts))

pub foreground :
    (ts : List Bytes)
    → contains ampersand ts ≡ false
    → is_background (argv_of ts) ≡ ok (argv_of ts, false, [])
foreground ts no_and = is_background_lem ts ∙ rw no_and refl

pub background :
    (ts : List Bytes)
    → contains ampersand ts ≡ true
    → is_background (argv_of ts)
      ≡ ok (strs (remove_first ampersand ts) ++ null ∷ null ∷ [], true, notice)
background ts and = is_background_lem ts ∙ rw and refl
