-- ===== src/Prelude/Decimal.antt =====
-- Numbers in decimal, as `%d` prints and reads them.
use Prim.Native.Nat.{ℕ, zero, suc, ◌+◌, ◌-◌, ◌*◌, ◌/◌, ◌%◌, ◌<◌, ◌≤◌, ◌^◌}
use mathlib.Core.Path.{◌≡◌}
use mathlib.Core.Bool.{Bool, true, ◌&&◌}
use mathlib.Core.Logic.{inl, inr}
use mathlib.Core.List.{[], ◌∷◌, ◌++◌}
use native.Mathlib.Omega.{arith}
use nsysu_network_applicatio.Prelude.Lists.{All, length}
use nsysu_network_applicatio.Prelude.Tests.{Bool-cases, ltb, leb, if◌then◌else◌}
use nsysu_network_applicatio.Prelude.Text.{Bytes}

unfoldable pub is_digit : ℕ → Bool
is_digit c = leb 48 c && leb c 57

digits : ℕ → ℕ → Bytes → Bytes
digits zero n out = out
digits (suc fuel) n out =
    let rest = digits fuel (n / 10) ((48 + n % 10) ∷ out) in
    if ltb n 10 then (48 + n) ∷ out else rest

-- `%d` of a number that is not negative
unfoldable pub decimal : ℕ → Bytes
unfolding digits
decimal n = digits (suc n) n []

-- the digits at the front, behind the value `acc` of those already read, and the rest
unfoldable pub read_digits : Bytes → ℕ → ℕ × Bytes
unfolding is_digit
read_digits [] acc = (acc, [])
read_digits (c ∷ s) acc = if is_digit c then read_digits s (acc * 10 + (c - 48)) else (acc, c ∷ s)

read-digits :
    (fuel n : ℕ) (out rest : Bytes)
    → n < fuel
    → read_digits (digits fuel n out ++ rest) 0 ≡ read_digits (out ++ rest) n
unfolding digits read_digits
read-digits zero n out rest h = elim h [ ]
read-digits (suc fuel) n out rest h =
    ground (arith, read-digits fuel (n / 10) ((48 + n % 10) ∷ out) rest)

-- A number is read back from its print, up to the first character that is no digit.
pub read-decimal : (n : ℕ) (rest : Bytes) → read_digits (decimal n ++ rest) 0 ≡ read_digits rest n
unfolding decimal
read-decimal n rest = read-digits (suc n) n [] rest (omega arith)

digits_head :
    (fuel n : ℕ) (out : Bytes)
    → n < fuel
    → (c : ℕ) × (s : Bytes) × (digits fuel n out ≡ c ∷ s) × (is_digit c ≡ true)
unfolding digits is_digit
digits_head zero n out h = elim h [ ]
digits_head (suc fuel) n out h = elim (Bool-cases (ltb n 10)) [
  | inl small ↦ (48 + n, out, rw small, ground arith)
  | inr large ↦
      let (c, s, e, d) = digits_head fuel (n / 10) ((48 + n % 10) ∷ out) (ground arith) in
      (c, s, rw large e, d)
]

-- The print begins with a digit.
pub decimal_head : (n : ℕ) → (c : ℕ) × (s : Bytes) × (decimal n ≡ c ∷ s) × (is_digit c ≡ true)
unfolding decimal
decimal_head n = digits_head (suc n) n [] (omega arith)

digits-All :
    (fuel n : ℕ) (out : Bytes)
    → All (λ c. is_digit c ≡ true) out
    → All (λ c. is_digit c ≡ true) (digits fuel n out)
unfolding digits is_digit
digits-All zero n out h = h
digits-All (suc fuel) n out h = elim (Bool-cases (ltb n 10)) [
  | inl small ↦ rw small (ground arith)
  | inr large ↦ rw large (digits-All fuel (n / 10) ((48 + n % 10) ∷ out) (ground arith))
]

-- The print is digits only.
pub decimal-All : (n : ℕ) → All (λ c. is_digit c ≡ true) (decimal n)
unfolding decimal
decimal-All n = digits-All (suc n) n [] tt

length-digits :
    (k fuel n : ℕ) (out : Bytes) → n < 10 ^ suc k → length (digits fuel n out) ≤ suc k + length out
unfolding digits
length-digits k zero n out h = omega arith
length-digits zero (suc fuel) n out h = ground arith
length-digits (suc k) (suc fuel) n out h = elim (Bool-cases (ltb n 10)) [
  | inl small ↦ rw small (ground arith)
  | inr large ↦ rw large (
      let smaller = length-digits k fuel (n / 10) ((48 + n % 10) ∷ out) (ground arith) in
      ground arith)
]

pub length-decimal : (k n : ℕ) → n < 10 ^ suc k → length (decimal n) ≤ suc k
unfolding decimal
length-decimal k n h = omega (arith, length-digits k (suc n) n [] h)
