-- ===== src/Dictionary/Remote.antt =====
-- hw11: the dictionary behind a ZeroMQ socket. lookup5.c searches a table that is mapped into memory,
-- zmq_ipc_server.c answers requests from it, lookup7.c asks the server.
pub mod Table
pub mod Agreement
use nsysu_network_applicatio.Prelude.{
  ℕ, Bool, true, false, Bytes, codes, List, [], ◌∷◌, Option, none, some, ltb, str_eq, if◌then◌else◌,
}
use Prim.Native.Nat.{Ordering}
use nsysu_network_applicatio.Dictionary.Lookup.{Answer, found, not_found}

-- A record, whose fields each end in a NUL.
pub record Dictrec : Type 0 where
  pub word : Bytes
  pub text : Bytes

-- The sign of `strcmp`.
unfoldable pub strcmp : Bytes → Bytes → Ordering
strcmp [] [] = Ordering.eq
strcmp [] (b ∷ t) = Ordering.lt
strcmp (a ∷ s) [] = Ordering.gt
strcmp (a ∷ s) (b ∷ t) =
    let rest = strcmp s t in if ltb a b then Ordering.lt else if ltb b a then Ordering.gt else rest

unfoldable pub dict_cmp : Bytes → Dictrec → Ordering
unfolding strcmp
dict_cmp word r = strcmp word r.word

-- What a client's `lookup` comes to.
pub data Outcome : Type 0 where
  exited : Outcome
  answered : Answer → Dictrec → Outcome

-- What the server does with a request.
pub data Reaction : Type 0 where
  server_exited : Reaction
  replied : Dictrec → Reaction

-- the record that is sent for the answer of `lookup`
unfoldable pub reply_of : Answer × Dictrec → Dictrec
reply_of (found, tryit) = tryit
reply_of (not_found, tryit) = record tryit { text = codes "XXXX" }

-- `bsearch` of the C library is a parameter: what a key compares to, and the table.
module _ (bsearch : (Dictrec → Ordering) → List Dictrec → Option Dictrec) where
  -- `lookup` of lookup5.c, once the table is mapped
  unfoldable pub lookup : List Dictrec → Dictrec → Answer × Dictrec
  lookup table sought = elim (bsearch (dict_cmp sought.word) table) [
    | none ↦ (not_found, sought)
    | some r ↦ (found, record sought { text = r.text })
  ]

  -- A turn of the server's loop: the request (none where `zmq_recv` fails), and whether `zmq_send`
  -- succeeds.
  unfoldable pub serve : List Dictrec → Bool → Option Dictrec → Reaction
  unfolding lookup reply_of
  serve table sent none = server_exited
  serve table sent (some tryit) =
      if sent then replied (reply_of (lookup table tryit)) else server_exited

-- `lookup` of lookup7.c, once the socket is connected: whether `zmq_send` succeeds, and what is
-- received for what was sent.
unfoldable pub remote_lookup : Bool → (Dictrec → Option Dictrec) → Dictrec → Outcome
remote_lookup sent receive sought =
    if sent
    then elim (receive sought) [
      | none ↦ exited
      | some r ↦ if str_eq r.text (codes "XXXX") then answered not_found r else answered found r
    ]
    else exited
