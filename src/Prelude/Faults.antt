-- ===== src/Prelude/Faults.antt =====
-- The run of a piece of C code: a value, or the undefined behaviour that it ran into.
use mathlib.Core.Path.{◌≡◌, refl}

pub data Fault : Type 0 where
  out_of_bounds uninitialised use_after_free null_pointer out_of_fuel : Fault

pub data Run {ℓ} (A : Type ℓ) : Type ℓ where
  ok : A → Run A
  fault : Fault → Run A

infixl 5 ◌>>=◌ ◌>>◌
abbrev pub ◌>>=◌ {ℓ κ} : {A : Type ℓ} {B : Type κ} → Run A → (A → Run B) → Run B
ok a >>= f = f a
fault e >>= f = fault e

abbrev pub ◌>>◌ {ℓ κ} : {A : Type ℓ} {B : Type κ} → Run A → Run B → Run B
m >> k = m >>= λ _. k

-- A sequence returns only if its first part does, and the rest on what that gave.
pub >>=-returns {ℓ κ} :
    {A : Type ℓ} {B : Type κ} {result : B} (first : Run A) (rest : A → Run B)
    → (first >>= rest) ≡ ok result
    → (x : A) × (first ≡ ok x) × (rest x ≡ ok result)
>>=-returns (fault f) rest returned = cc
>>=-returns (ok x) rest returned = (x, refl, returned)
