-- ===== src/Dictionary/Remote/Agreement.antt =====
-- A client that asks the server gets what the table has.
use Prim.Native.Nat.{Ordering}
use mathlib.Core.List.{Memᴰ}
use nsysu_network_applicatio.Prelude.{
  ◌≡◌, ◌≢◌, refl, true, Bytes, codes, List, Option, none, some, str_eq, if◌then◌else◌, All, inl,
  inr, Option-cases, arith,
}
use nsysu_network_applicatio.Dictionary.Lookup.{Answer, found, not_found}
use nsysu_network_applicatio.Dictionary.Remote.{
  Dictrec, dict_cmp, Outcome, answered, Reaction, replied, server_exited, lookup, reply_of, serve,
  remote_lookup,
}
use nsysu_network_applicatio.Dictionary.Remote.Table.{
  IsPartitioned, IsSorted, dict_cmp_eq, IsSorted-IsPartitioned, definition_in, definition_in-Mem,
  definition_in-none,
}

-- What the C library documents of `bsearch`: it gives a member of the table that compares equal, and,
-- in a table that is partitioned as it asks for, it gives one if there is any.
pub record BsearchLaws (bsearch : (Dictrec → Ordering) → List Dictrec → Option Dictrec)
    : Type 0 where
  pub hit :
      (cmp : Dictrec → Ordering) (table : List Dictrec) (r : Dictrec)
      → bsearch cmp table ≡ some r
      → Memᴰ r table × (cmp r ≡ Ordering.eq)
  pub miss :
      (cmp : Dictrec → Ordering) (table : List Dictrec)
      → IsPartitioned cmp table
      → bsearch cmp table ≡ none
      → All (λ r. cmp r ≢ Ordering.eq) table

-- the reply that reaches the client, if the server lives
unfoldable pub delivered : Reaction → Option Dictrec
delivered server_exited = none
delivered (replied r) = some r

-- the answer for what the table has
unfoldable pub local_answer : Option Bytes → Dictrec → Answer × Dictrec
local_answer none sought = (not_found, sought)
local_answer (some text) sought = (found, record sought { text = text })

-- the outcome of the client for it
unfoldable pub remote_outcome : Option Bytes → Dictrec → Outcome
remote_outcome none sought = answered not_found (record sought { text = codes "XXXX" })
remote_outcome (some text) sought =
    answered (if str_eq text (codes "XXXX") then not_found else found)
      (record sought { text = text })

outcome_of :
    (definition : Option Bytes) (sought : Dictrec)
    → remote_lookup true (λ s. some (reply_of (local_answer definition sought))) sought
      ≡ remote_outcome definition sought
unfolding remote_lookup reply_of local_answer remote_outcome str_eq
outcome_of none sought = refl
outcome_of (some text) sought = ground arith

module _ (bsearch : (Dictrec → Ordering) → List Dictrec → Option Dictrec)
    (laws : BsearchLaws bsearch) (table : List Dictrec) (sorted : IsSorted table) where
  -- In a table in the order of `strcmp`, in which no word occurs twice, the search by `bsearch` finds
  -- what the table has for a word.
  lookup-definition :
      (sought : Dictrec)
      → lookup bsearch table sought ≡ local_answer (definition_in table sought.word) sought
  unfolding lookup local_answer
  lookup-definition sought = elim (Option-cases (bsearch (dict_cmp sought.word) table)) [
    | inl nothing ↦
        let absent =
          laws.miss (dict_cmp sought.word) table (IsSorted-IsPartitioned sought.word table sorted)
            nothing in
        rw (lookup, nothing, definition_in-none table sought.word absent) refl
    | inr (r, e) ↦
        let (m, same) = laws.hit (dict_cmp sought.word) table r e in
        rw (lookup, e, dict_cmp_eq sought.word r same, definition_in-Mem table r sorted m) refl
  ]

  -- Where no call of ZeroMQ fails, the client is told what the table of the server has for the
  -- word; but a definition that reads "XXXX" is taken for none. The words of the table are in the
  -- order of `strcmp`, none occurs twice, and `bsearch` does what is documented of it.
  pub remote_lookup-serve :
      (sought : Dictrec)
      → remote_lookup true (λ s. delivered (serve bsearch table true (some s))) sought
        ≡ remote_outcome (definition_in table sought.word) sought
  unfolding remote_lookup serve delivered
  remote_lookup-serve sought =
      rw (lookup-definition sought) (outcome_of (definition_in table sought.word) sought)
