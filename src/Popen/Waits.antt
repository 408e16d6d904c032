-- ===== src/Popen/Waits.antt =====
-- What `mypclose` passes to `waitpid`.
use nsysu_network_applicatio.Prelude.{
  ℕ, zero, suc, ◌<◌, ◌≡◌, refl, List, [], ◌∷◌, Option, none, some, ok, arith, get_elem?, replicate,
  All, Bytes,
}
use nsysu_network_applicatio.Popen.{
  Tables, start, at, mypopen, mypclose, Call, opens, closes, waits,
}

-- the descriptors that are closed lie within the table
unfoldable pub IsInRange : Call → Type 0
IsInRange (opens mode pipe fork) = Unit
IsInRange (closes fd) = fd < 1024

-- how many calls of `mypclose` there are
unfoldable pub closings : List Call → ℕ
closings [] = 0
closings (opens mode pipe fork ∷ calls) = closings calls
closings (closes fd ∷ calls) = suc (closings calls)

get_elem?-replicate : (n i : ℕ) → i < n → get_elem? {A = ℕ} (replicate n 0) i ≡ some 0
get_elem?-replicate zero i h = absurd (omega arith)
get_elem?-replicate (suc n) zero h = refl
get_elem?-replicate (suc n) (suc i) h = get_elem?-replicate n i (omega arith)

mypopen-tables :
    (t : Tables) (mode : Bytes) (pipe : Option (ℕ × ℕ)) (fork : Option ℕ)
    → (mypopen t mode pipe fork).tables ≡ t
unfolding mypopen
mypopen-tables t mode none fork = refl
mypopen-tables t mode (some (front, back)) none = refl
mypopen-tables t mode (some (front, back)) (some pid) = refl

mypclose-start : (fd : ℕ) → fd < 1024 → mypclose start fd ≡ ok 0
unfolding mypclose start at
mypclose-start fd h = rw (get_elem?-replicate 1024 fd h) refl

-- Whatever a program opens with `mypopen`, whatever `pipe` and `fork` answer, and in whatever order
-- it calls the two functions, each call of `mypclose` passes 0 to `waitpid`, which stands for any
-- child of the process group. The descriptors that are closed are below 1024.
pub waits-start :
    (calls : List Call)
    → All IsInRange calls
    → waits start calls ≡ ok (replicate (closings calls) 0)
unfolding waits closings IsInRange
waits-start [] r = refl
waits-start (opens mode pipe fork ∷ calls) r =
    rw (mypopen-tables start mode pipe fork) (waits-start calls r.1)
waits-start (closes fd ∷ calls) r = rw (mypclose-start fd r.0, waits-start calls r.1) refl
