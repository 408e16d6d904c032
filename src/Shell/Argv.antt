-- ===== src/Shell/Argv.antt =====
-- The `char **` vectors of the shells, slot by slot, as the C code reads and writes them.
use nsysu_network_applicatio.Prelude.{
  Bool, true, false, suc, refl, arith, append_assoc, length-append, ℕ, ◌≡◌, Bytes, List, [], ◌∷◌,
  ◌++◌, length, get_elem?, set, Option, none, some, get_elem?-append, set-append,
  get_elem?_past_end, ap, ◌≤◌, Run, ok, fault, out_of_bounds, uninitialised, use_after_free,
  null_pointer,
}

-- One pointer of the vector: not yet written, NULL, a live string, or a string already freed.
pub data Slot : Type 0 where
  uninit : Slot
  null : Slot
  str : Bytes → Slot
  freed : Slot

-- The slots that the allocation holds; the length of the list is the size of the allocation.
abbrev pub Argv : Type 0
Argv = List Slot

-- The vector of `ts`, terminated by NULL.
abbrev pub argv_of : List Bytes → Argv
argv_of [] = null ∷ []
argv_of (t ∷ ts) = str t ∷ argv_of ts

-- The live strings alone, with no terminator.
abbrev pub strs : List Bytes → Argv
strs [] = []
strs (t ∷ ts) = str t ∷ strs ts

initialised : Slot → Run Slot
initialised uninit = fault uninitialised
initialised s = ok s

in_range : Option Slot → Run Slot
unfolding initialised
in_range none = fault out_of_bounds
in_range (some s) = initialised s

-- `argv[i]` as a value
unfoldable pub load : Argv → ℕ → Run Slot
unfolding in_range
load argv i = in_range (get_elem? argv i)

store_at : Option Slot → Argv → Run Argv
store_at none argv = fault out_of_bounds
store_at (some _) argv = ok argv

-- `argv[i] = s`
unfoldable pub store : Argv → ℕ → Slot → Run Argv
unfolding store_at
store argv i s = store_at (get_elem? argv i) (set argv i s)

-- The string that a pointer leads to, where the code dereferences it.
unfoldable pub text : Slot → Run Bytes
text uninit = fault uninitialised
text null = fault null_pointer
text (str s) = ok s
text freed = fault use_after_free

pub load-append :
    (xs : Argv) (b : Bytes) (ys : Argv) (i : ℕ)
    → i ≡ length xs
    → load (xs ++ str b ∷ ys) i ≡ ok (str b)
unfolding load
load-append xs b ys i e = ap in_range (get_elem?-append xs (str b) ys i e)

pub load-append_null : (xs ys : Argv) (i : ℕ) → i ≡ length xs → load (xs ++ null ∷ ys) i ≡ ok null
unfolding load
load-append_null xs ys i e = ap in_range (get_elem?-append xs null ys i e)

load-append_freed : (xs ys : Argv) (i : ℕ) → i ≡ length xs → load (xs ++ freed ∷ ys) i ≡ ok freed
unfolding load
load-append_freed xs ys i e = ap in_range (get_elem?-append xs freed ys i e)

pub store-append :
    (xs : Argv) (y : Slot) (ys : Argv) (i : ℕ) (s : Slot)
    → i ≡ length xs
    → store (xs ++ y ∷ ys) i s ≡ ok (xs ++ s ∷ ys)
unfolding store
store-append xs y ys i s e = rw (get_elem?-append xs y ys i e) (ap ok (set-append xs y ys i s e))

pub load_past_end : (xs : Argv) (i : ℕ) → length xs ≤ i → load xs i ≡ fault out_of_bounds
unfolding load
load_past_end xs i h = ap in_range (get_elem?_past_end xs i h)

pub store_past_end :
    (xs : Argv) (i : ℕ) (s : Slot) → length xs ≤ i → store xs i s ≡ fault out_of_bounds
unfolding store
store_past_end xs i s h = rw (get_elem?_past_end xs i h)

pub length-strs : (ts : List Bytes) → length (strs ts) ≡ length ts
length-strs [] = refl
length-strs (t ∷ ts) = ap suc (length-strs ts)

pub strs-snoc :
    (ts : List Bytes) (t : Bytes) (ys : Argv) → strs ts ++ str t ∷ ys ≡ strs (ts ++ t ∷ []) ++ ys
strs-snoc [] t ys = refl
strs-snoc (s ∷ ts) t ys = ap (λ l. str s ∷ l) (strs-snoc ts t ys)

pub strs-null : (ts : List Bytes) → strs ts ++ null ∷ [] ≡ argv_of ts
strs-null [] = refl
strs-null (t ∷ ts) = ap (λ l. str t ∷ l) (strs-null ts)

-- The same one slot further on.
pub load-append_second :
    (xs : Argv) (y : Slot) (b : Bytes) (ys : Argv) (i : ℕ)
    → i ≡ suc (length xs)
    → load (xs ++ y ∷ str b ∷ ys) i ≡ ok (str b)
load-append_second xs y b ys i e =
    rw (← append_assoc xs (y ∷ []) (str b ∷ ys))
      (load-append (xs ++ y ∷ []) b ys i (omega (arith, length-append xs (y ∷ []))))

pub load-append_second_null :
    (xs : Argv) (y : Slot) (ys : Argv) (i : ℕ)
    → i ≡ suc (length xs)
    → load (xs ++ y ∷ null ∷ ys) i ≡ ok null
load-append_second_null xs y ys i e =
    rw (← append_assoc xs (y ∷ []) (null ∷ ys))
      (load-append_null (xs ++ y ∷ []) ys i (omega (arith, length-append xs (y ∷ []))))

pub store-append_second :
    (xs : Argv) (y z : Slot) (ys : Argv) (i : ℕ) (s : Slot)
    → i ≡ suc (length xs)
    → store (xs ++ y ∷ z ∷ ys) i s ≡ ok (xs ++ y ∷ s ∷ ys)
store-append_second xs y z ys i s e =
    rw (← append_assoc xs (y ∷ []) (z ∷ ys), ← append_assoc xs (y ∷ []) (s ∷ ys))
      (store-append (xs ++ y ∷ []) z ys i s (omega (arith, length-append xs (y ∷ []))))

-- `p == NULL`
abbrev pub is_null : Slot → Bool
is_null null = true
is_null _ = false

pub strs-argv_of :
    (before after : List Bytes) → strs before ++ argv_of after ≡ argv_of (before ++ after)
strs-argv_of [] after = refl
strs-argv_of (t ∷ before) after = ap (λ l. str t ∷ l) (strs-argv_of before after)

pub length-argv_of : (ts : List Bytes) → length (argv_of ts) ≡ suc (length ts)
length-argv_of [] = refl
length-argv_of (t ∷ ts) = ap suc (length-argv_of ts)

-- The same two slots further on.
pub load-append_third :
    (xs : Argv) (y z : Slot) (b : Bytes) (ys : Argv) (i : ℕ)
    → i ≡ suc (suc (length xs))
    → load (xs ++ y ∷ z ∷ str b ∷ ys) i ≡ ok (str b)
load-append_third xs y z b ys i e =
    rw (← append_assoc xs (y ∷ []) (z ∷ str b ∷ ys))
      (load-append_second (xs ++ y ∷ []) z b ys i (omega (arith, length-append xs (y ∷ []))))

pub load-append_third_null :
    (xs : Argv) (y z : Slot) (ys : Argv) (i : ℕ)
    → i ≡ suc (suc (length xs))
    → load (xs ++ y ∷ z ∷ null ∷ ys) i ≡ ok null
load-append_third_null xs y z ys i e =
    rw (← append_assoc xs (y ∷ []) (z ∷ null ∷ ys))
      (load-append_second_null (xs ++ y ∷ []) z ys i (omega (arith, length-append xs (y ∷ []))))

pub load-append_second_freed :
    (xs : Argv) (y : Slot) (ys : Argv) (i : ℕ)
    → i ≡ suc (length xs)
    → load (xs ++ y ∷ freed ∷ ys) i ≡ ok freed
load-append_second_freed xs y ys i e =
    rw (← append_assoc xs (y ∷ []) (freed ∷ ys))
      (load-append_freed (xs ++ y ∷ []) ys i (omega (arith, length-append xs (y ∷ []))))
