-- ===== src/ParentExists.antt =====
-- hw5/test_parent_exists.c: whether a process exists, by its directory in /proc. `access` is a parameter:
-- the paths that exist.
use nsysu_network_applicatio.Prelude.{
  ℕ, zero, suc, ◌≡◌, Bool, true, false, not, ◌&&◌, Bytes, codes, List, [], ◌∷◌, ◌++◌, take,
  if◌then◌else◌, arith,
}
use nsysu_network_applicatio.Prelude.Decimal.{decimal}
use nsysu_network_applicatio.Prelude.Int.{ℤ, pos, negsuc}

-- `snprintf` into a buffer of 64 bytes
unfoldable pub path_of : ℕ → Bytes
unfolding decimal
path_of ppid = take 63 (codes "/proc/" ++ decimal ppid)

-- the table of `main`: a pid, and what is expected of it
unfoldable pub tests : ℤ → List (ℤ × Bool)
tests my_parent =
    (pos 0, false)
    ∷ (negsuc 0, false)
    ∷ (pos 1, true)
    ∷ (my_parent, true)
    ∷ (pos 999999, false)
    ∷ []

module _ (exists : Bytes → Bool) where
  unfoldable pub parent_exists : ℤ → Bool
  unfolding path_of
  parent_exists (negsuc n) = false
  parent_exists (pos zero) = false
  parent_exists (pos (suc n)) = exists (path_of (suc n))

  -- the loop: whether all tests pass
  unfoldable pub all_passed : List (ℤ × Bool) → Bool → Bool
  unfolding parent_exists
  all_passed [] passed = passed
  all_passed ((ppid, expected) ∷ rest) passed = all_passed rest (
      if parent_exists ppid
      then (if expected then passed else false)
      else if expected
      then false
      else passed)

  -- The tests pass exactly where 1 and the parent of the program are processes, and 999999 is none. A
  -- parent that lies outside the program's pid namespace, of which the pid is 0, fails them.
  pub all_passed-tests :
      (my_parent : ℤ)
      → all_passed (tests my_parent) true
        ≡ parent_exists (pos 1) && (parent_exists my_parent && not (parent_exists (pos 999999)))
  unfolding all_passed tests
  all_passed-tests my_parent = ground arith
