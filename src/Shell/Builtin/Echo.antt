-- ===== src/Shell/Builtin/Echo.antt =====
-- What `echo` prints.
use nsysu_network_applicatio.Prelude.{
  ℕ, zero, suc, ◌+◌, ◌<◌, ◌≡◌, refl, Bytes, codes, str_eq, List, [], ◌∷◌, ◌++◌, append_assoc,
  append-nil, length, ok, arith, length-append, if◌then◌else◌,
}
use nsysu_network_applicatio.Shell.Argv.{
  str, argv_of, strs, load, text, load-append, load-append_null, length-strs, strs-snoc,
  length-argv_of, load-append_second, load-append_second_null,
}
use nsysu_network_applicatio.Shell.Builtin.{echo_loop, echo}
use nsysu_network_applicatio.Shell.Parse.Join.{join}

echo_loop_lem :
    (fuel : ℕ) (before after : List Bytes) (i : ℕ) (out : Bytes)
    → i ≡ length before
    → length after < fuel
    → echo_loop fuel (strs before ++ argv_of after) i out ≡ ok (out ++ join after)
unfolding echo_loop join text
echo_loop_lem zero before after i out e h = absurd (omega arith)
echo_loop_lem (suc fuel) before [] i out e h =
    ground (arith, load-append_null (strs before) [] i, length-strs before, append-nil out)
echo_loop_lem (suc fuel) before (t ∷ []) i out e h = ground (
  arith,
  length-strs before,
  length-append before (t ∷ []),
  load-append (strs before) t (argv_of []) i,
  load-append_second_null (strs before) (str t) [] (i + 1),
  strs-snoc before t (argv_of []),
  append-nil t,
  append-nil (out ++ t),
  echo_loop_lem fuel (before ++ t ∷ []) [] (i + 1) (out ++ t),
)
echo_loop_lem (suc fuel) before (t ∷ u ∷ after) i out e h = ground (
  arith,
  length-strs before,
  length-append before (t ∷ []),
  load-append (strs before) t (argv_of (u ∷ after)) i,
  load-append_second (strs before) (str t) u (argv_of after) (i + 1),
  strs-snoc before t (argv_of (u ∷ after)),
  append_assoc out (t ++ codes " ") (join (u ∷ after)),
  append_assoc t (codes " ") (join (u ∷ after)),
  echo_loop_lem fuel (before ++ t ∷ []) (u ∷ after) (i + 1) (out ++ (t ++ codes " ")),
)

-- what is to be printed for the words behind the command
unfoldable pub echoed : List Bytes → Bytes
echoed [] = codes "\n"
echoed (t ∷ ts) = if str_eq t (codes "-n") then join ts else join (t ∷ ts) ++ codes "\n"

echo_nothing : (cmd : Bytes) → echo (argv_of (cmd ∷ [])) ≡ ok (codes "\n")
unfolding echo echo_loop load
echo_nothing cmd = refl

-- `echo` prints the words behind the command with a space between two of them and a newline behind
-- the last; if the first of them is "-n", without that word and without the newline.
pub echo_lem : (cmd : Bytes) (ts : List Bytes) → echo (argv_of (cmd ∷ ts)) ≡ ok (echoed ts)
unfolding echo echoed load text
echo_lem cmd [] = echo_nothing cmd
echo_lem cmd (t ∷ ts) = ground (
  arith,
  length-argv_of ts,
  echo_loop_lem (suc (suc (length (argv_of ts)))) (cmd ∷ t ∷ []) ts 2 [],
  echo_loop_lem (suc (suc (length (argv_of ts)))) (cmd ∷ []) (t ∷ ts) 1 [],
)
