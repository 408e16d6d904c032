-- ===== src/Shell/Pipe/Verdict.antt =====
-- What `pipe_present` answers, against a split of the list of words at its first "|".
use nsysu_network_applicatio.Prelude.{
  inl, inr, Bool-cases, str_eq_sound, str_eq_refl, ◌∙◌, ℕ, zero, suc, ◌+◌, ◌<◌, ◌≡◌, refl, sym, ap,
  Bytes, str_eq, List, [], ◌∷◌, ◌++◌, length, Option, none, some, ok, arith, if◌then◌else◌,
  length-append,
}
use nsysu_network_applicatio.Prelude.Int.{ℤ, pos, negsuc}
use nsysu_network_applicatio.Shell.Argv.{
  strs-null, str, argv_of, strs, load, text, load-append, load-append_null, length-strs, strs-snoc,
  strs-argv_of, length-argv_of, load-append_second, load-append_second_null,
}
use nsysu_network_applicatio.Shell.Pipe.{bar, pipe_scan, bar_at_end, pipe_present}

abbrev behind : Bytes → Option (List Bytes × List Bytes) → Option (List Bytes × List Bytes)
behind t none = none
behind t (some (l, r)) = some (t ∷ l, r)

-- The words before and behind the first "|".
unfoldable pub split_at_bar : List Bytes → Option (List Bytes × List Bytes)
split_at_bar [] = none
split_at_bar (t ∷ ts) = if str_eq t bar then some ([], ts) else behind t (split_at_bar ts)

-- the number of words in front of the first "|", or of all words
abbrev bar_index : Option (List Bytes × List Bytes) → ℕ → ℕ
bar_index none n = n
bar_index (some (l, r)) n = length l

scan_lem :
    (fuel : ℕ) (before after : List Bytes) (i : ℕ)
    → i ≡ length before
    → length after < fuel
    → pipe_scan fuel (strs before ++ argv_of after) i
      ≡ ok (i + bar_index (split_at_bar after) (length after))
unfolding pipe_scan split_at_bar text
scan_lem zero before after i e h = absurd (omega arith)
scan_lem (suc fuel) before [] i e h =
    ground (arith, load-append_null (strs before) [] i, length-strs before)
scan_lem (suc fuel) before (t ∷ after) i e h = ground (
  arith,
  length-strs before,
  length-append before (t ∷ []),
  load-append (strs before) t (argv_of after) i,
  strs-snoc before t (argv_of after),
  scan_lem fuel (before ++ t ∷ []) after (i + 1),
)

-- The words that a split comes from.
pub split_shape : (ts l r : List Bytes) → split_at_bar ts ≡ some (l, r) → ts ≡ l ++ bar ∷ r
unfolding split_at_bar
split_shape [] l r h = ground arith
split_shape (t ∷ ts) l r h = elim (Bool-cases (str_eq t bar)) [
  | inl hit ↦ ground (arith, str_eq_sound t bar hit)
  | inr miss ↦ inner (split_shape ts) (split_at_bar ts) refl (rw miss at h)
]
  where
    inner :
        ((l' r' : List Bytes) → split_at_bar ts ≡ some (l', r') → ts ≡ l' ++ bar ∷ r')
        → (o : Option (List Bytes × List Bytes)) → split_at_bar ts ≡ o
        → behind t o ≡ some (l, r)
        → t ∷ ts ≡ l ++ bar ∷ r
    inner ih none e q = ground arith
    inner ih (some (l', r')) e q = ground (arith, ih l' r' e)

argv_shape :
    (ts l r : List Bytes)
    → split_at_bar ts ≡ some (l, r)
    → argv_of ts ≡ strs l ++ str bar ∷ argv_of r
argv_shape ts l r e = ap argv_of (split_shape ts l r e) ∙ sym (strs-argv_of l (bar ∷ r))

pub load-bar :
    (ts l r : List Bytes)
    → split_at_bar ts ≡ some (l, r)
    → load (argv_of ts) (length l) ≡ ok (str bar)
load-bar ts l r e =
    rw (argv_shape ts l r e) (load-append (strs l) bar (argv_of r) (length l) (sym (length-strs l)))

load_behind :
    (ts l r : List Bytes)
    → split_at_bar ts ≡ some (l, r)
    → load (argv_of ts) (length l + 1) ≡ load (argv_of r) 0
unfolding load
load_behind ts l [] e =
    rw (argv_shape ts l [] e)
      (load-append_second_null (strs l) (str bar) [] (length l + 1) (omega (arith, length-strs l)))
load_behind ts l (v ∷ r) e = rw (argv_shape ts l (v ∷ r) e) (
    load-append_second (strs l) (str bar) v (argv_of r) (length l + 1)
      (omega (arith, length-strs l)))

-- -1 where there is no word or the first "|" is the first or the last word, 0 where there is no
-- "|", and else the index of the first one.
unfoldable pub verdict : List Bytes → Option (List Bytes × List Bytes) → ℤ
verdict [] o = negsuc 0
verdict (t ∷ ts) none = pos 0
verdict (t ∷ ts) (some ([], r)) = negsuc 0
verdict (t ∷ ts) (some (u ∷ l, [])) = negsuc 0
verdict (t ∷ ts) (some (u ∷ l, v ∷ r)) = pos (suc (length l))

scan_start :
    (ts : List Bytes)
    → pipe_scan (length (argv_of ts)) (argv_of ts) 0 ≡ ok (bar_index (split_at_bar ts) (length ts))
scan_start ts =
    scan_lem (length (argv_of ts)) [] ts 0 refl (omega (arith, length-argv_of ts))
    ∙ ap ok (omega arith)

present_none :
    (ts : List Bytes) → split_at_bar ts ≡ none → pipe_present (argv_of ts) ≡ ok (verdict ts none)
unfolding pipe_present bar_at_end verdict
present_none [] e = ground (arith, scan_start [])
present_none (t ∷ ts) e = ground (
  arith,
  scan_start (t ∷ ts),
  strs-null (t ∷ ts),
  length-strs (t ∷ ts),
  load-append_null (strs (t ∷ ts)) [] (length (t ∷ ts)),
)

present_some :
    (ts l r : List Bytes)
    → split_at_bar ts ≡ some (l, r)
    → pipe_present (argv_of ts) ≡ ok (verdict ts (some (l, r)))
unfolding pipe_present bar_at_end verdict text load
present_some [] l r e = absurd (unfold split_at_bar in ground arith)
present_some (t ∷ ts) [] r e = ground (arith, scan_start (t ∷ ts))
present_some (t ∷ ts) (u ∷ l) [] e = ground (
  arith,
  scan_start (t ∷ ts),
  load-bar (t ∷ ts) (u ∷ l) [] e,
  load_behind (t ∷ ts) (u ∷ l) [] e,
  str_eq_refl bar,
)
present_some (t ∷ ts) (u ∷ l) (v ∷ r) e = ground (
  arith,
  scan_start (t ∷ ts),
  load-bar (t ∷ ts) (u ∷ l) (v ∷ r) e,
  load_behind (t ∷ ts) (u ∷ l) (v ∷ r) e,
  str_eq_refl bar,
)

pub pipe_present_lem :
    (ts : List Bytes) → pipe_present (argv_of ts) ≡ ok (verdict ts (split_at_bar ts))
pipe_present_lem ts = by_split (split_at_bar ts) refl
  where
    by_split :
        (o : Option (List Bytes × List Bytes))
        → split_at_bar ts ≡ o
        → pipe_present (argv_of ts) ≡ ok (verdict ts (split_at_bar ts))
    by_split none e = present_none ts e ∙ rw e
    by_split (some (l, r)) e = present_some ts l r e ∙ rw e
