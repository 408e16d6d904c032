-- ===== src/Tee.antt =====
-- hw2/tee.c: what is read at once goes to a file and to the screen. `getopt` is a parameter: the options
-- that it finds, and the words behind it.
pub mod Copied
use nsysu_network_applicatio.Prelude.{
  ℕ, Bool, true, false, Bytes, List, [], ◌∷◌, ◌++◌, length, take, get_elem?, Option, none, some,
  Run, ok, fault, ◌>>=◌, out_of_bounds, ltb, ◌==◌, if◌then◌else◌,
}

-- How the program ends: at an unknown option, where the file does not open, or with both copies.
pub data End : Type 0 where
  usage not_opened : End
  copied : (filename content screen : Bytes) → End

-- The loop over the options: whether one of them is "a", or none where one is unknown.
unfoldable pub is_append : List ℕ → Bool → Option Bool
is_append [] append = some append
is_append (opt ∷ opts) append = if opt == b'a' then is_append opts true else none

-- `open` with O_APPEND or O_TRUNC, and the write; `old` is what the file of a name holds.
unfoldable pub written : (Bytes → Option Bytes) → Bool → Option Bytes → Bytes → End
written old append none buf = not_opened
written old append (some filename) buf = elim (old filename) [
  | none ↦ not_opened
  | some content ↦ copied filename (if append then content ++ buf else buf) buf
]

unfoldable pub output : (Bytes → Option Bytes) → List Bytes → Bytes → Option Bool → End
unfolding written
output old argv buf none = usage
output old argv buf (some append) =
    written old append (if append then get_elem? argv 2 else get_elem? argv 1) buf

-- behind the `read` of `buf`: a NUL is put behind it
unfoldable pub copy_out : ℕ → (Bytes → Option Bytes) → List ℕ → List Bytes → Bytes → Run End
unfolding output is_append
copy_out room old opts argv buf =
    if ltb (length buf) room
    then ok (output old argv buf (is_append opts false))
    else fault out_of_bounds

-- `main`, with one `read` into a buffer of `room` bytes
unfoldable pub tee : ℕ → (Bytes → Option Bytes) → List ℕ → List Bytes → Bytes → Run End
unfolding copy_out
tee room old opts argv input = copy_out room old opts argv (take room input)
