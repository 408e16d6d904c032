-- ===== src/Dictionary/Remote/Table.antt =====
-- Tables in the order of `strcmp`.
use Prim.Native.Nat.{Ordering}
use nsysu_network_applicatio.Prelude.{
  ℕ, ◌≤◌, ◌≡◌, ◌≢◌, refl, false, Bytes, List, [], ◌∷◌, Option, none, some, str_eq, str_eq_sound,
  str_eq_refl, if◌then◌else◌, arith, All, inl, inr, Bool-cases,
}
use mathlib.Core.List.{Memᴰ}
use nsysu_network_applicatio.Dictionary.Remote.{Dictrec, strcmp, dict_cmp}

-- ahead of the place, at it, behind it
unfoldable pub rank : Ordering → ℕ
rank Ordering.lt = 0
rank Ordering.eq = 1
rank Ordering.gt = 2

-- What `bsearch` asks for: first what the key is greater than, then what it equals, then the others.
unfoldable pub IsPartitioned : (Dictrec → Ordering) → List Dictrec → Type 0
unfolding rank
IsPartitioned cmp [] = Unit
IsPartitioned cmp (r ∷ rs) = All (λ r'. rank (cmp r') ≤ rank (cmp r)) rs × IsPartitioned cmp rs

-- The words of the table are in order, and none occurs twice.
unfoldable pub IsSorted : List Dictrec → Type 0
unfolding strcmp
IsSorted [] = Unit
IsSorted (r ∷ rs) = All (λ r'. strcmp r.word r'.word ≡ Ordering.lt) rs × IsSorted rs

strcmp_refl : (s : Bytes) → strcmp s s ≡ Ordering.eq
unfolding strcmp
strcmp_refl [] = refl
strcmp_refl (a ∷ s) = ground (arith, strcmp_refl s)

strcmp_eq : (s t : Bytes) → strcmp s t ≡ Ordering.eq → s ≡ t
unfolding strcmp
strcmp_eq [] [] h = refl
strcmp_eq [] (b ∷ t) h = ground arith
strcmp_eq (a ∷ s) [] h = ground arith
strcmp_eq (a ∷ s) (b ∷ t) h = ground (arith, strcmp_eq s t)

pub dict_cmp_eq : (key : Bytes) (r : Dictrec) → dict_cmp key r ≡ Ordering.eq → key ≡ r.word
unfolding dict_cmp
dict_cmp_eq key r h = strcmp_eq key r.word h

rank_at_most : (o : Ordering) → rank o ≤ 2
unfolding rank
rank_at_most Ordering.lt = omega arith
rank_at_most Ordering.eq = omega arith
rank_at_most Ordering.gt = omega arith

-- A key that meets `s` meets what is behind `s` no earlier.
rank-strcmp :
    (key s t : Bytes) → strcmp s t ≡ Ordering.lt → rank (strcmp key t) ≤ rank (strcmp key s)
unfolding strcmp rank
rank-strcmp [] [] t h = ground arith
rank-strcmp [] (b ∷ s) [] h = ground arith
rank-strcmp [] (b ∷ s) (c ∷ t) h = omega arith
rank-strcmp (a ∷ key) [] t h = rank_at_most (strcmp (a ∷ key) t)
rank-strcmp (a ∷ key) (b ∷ s) [] h = ground arith
rank-strcmp (a ∷ key) (b ∷ s) (c ∷ t) h =
    ground (arith, rank-strcmp key s t, rank_at_most (strcmp key t))

-- A table in order may be searched for any key.
pub IsSorted-IsPartitioned :
    (key : Bytes) (table : List Dictrec) → IsSorted table → IsPartitioned (dict_cmp key) table
unfolding IsSorted IsPartitioned dict_cmp
IsSorted-IsPartitioned key [] s = tt
IsSorted-IsPartitioned key (r ∷ rs) s = (ranks rs s.0, IsSorted-IsPartitioned key rs s.1)
  where
    ranks :
        (later : List Dictrec)
        → All (λ r'. strcmp r.word r'.word ≡ Ordering.lt) later
        → All (λ r'. rank (strcmp key r'.word) ≤ rank (strcmp key r.word)) later
    ranks [] p = tt
    ranks (r' ∷ later) p = (rank-strcmp key r.word r'.word p.0, ranks later p.1)

-- The definition of a word in a table.
unfoldable pub definition_in : List Dictrec → Bytes → Option Bytes
definition_in [] word = none
definition_in (r ∷ rs) word = if str_eq r.word word then some r.text else definition_in rs word

str_eq-earlier : (s t : Bytes) → strcmp s t ≡ Ordering.lt → str_eq s t ≡ false
unfolding strcmp str_eq
str_eq-earlier [] [] h = ground arith
str_eq-earlier [] (b ∷ t) h = refl
str_eq-earlier (a ∷ s) [] h = refl
str_eq-earlier (a ∷ s) (b ∷ t) h = ground (arith, str_eq-earlier s t)

earlier-Mem :
    (s : Bytes) (rs : List Dictrec) (r : Dictrec)
    → All (λ r'. strcmp s r'.word ≡ Ordering.lt) rs
    → Memᴰ r rs
    → strcmp s r.word ≡ Ordering.lt
earlier-Mem s [] r p m = elim m [ ]
earlier-Mem s (r' ∷ rs) r p (Memᴰ.head e) = rw e (p.0)
earlier-Mem s (r' ∷ rs) r p (Memᴰ.tail m) = earlier-Mem s rs r p.1 m

-- A record of the table is what the table has for its word.
pub definition_in-Mem :
    (table : List Dictrec) (r : Dictrec)
    → IsSorted table
    → Memᴰ r table
    → definition_in table r.word ≡ some r.text
unfolding definition_in IsSorted
definition_in-Mem [] r s m = elim m [ ]
definition_in-Mem (r' ∷ rs) r s (Memᴰ.head e) = rw (e, str_eq_refl r'.word) refl
definition_in-Mem (r' ∷ rs) r s (Memᴰ.tail m) =
    rw (str_eq-earlier r'.word r.word (earlier-Mem r'.word rs r s.0 m))
      (definition_in-Mem rs r s.1 m)

-- It has nothing for a word that no record compares equal to.
pub definition_in-none :
    (table : List Dictrec) (word : Bytes)
    → All (λ r. dict_cmp word r ≢ Ordering.eq) table
    → definition_in table word ≡ none
unfolding definition_in dict_cmp
definition_in-none [] word p = refl
definition_in-none (r ∷ rs) word p = elim (Bool-cases (str_eq r.word word)) [
  | inl same ↦ absurd (p.0 (rw (str_eq_sound r.word word same) (strcmp_refl word)))
  | inr differ ↦ rw differ (definition_in-none rs word p.1)
]
