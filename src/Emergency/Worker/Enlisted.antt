-- ===== src/Emergency/Worker/Enlisted.antt =====
-- What the dispatcher makes of the messages of a worker.
use nsysu_network_applicatio.Prelude.{
  ℕ, zero, suc, ◌≡◌, ◌<◌, refl, ap, ◌∙◌, false, Bool, true, Bytes, codes, List, [], ◌∷◌, ◌++◌,
  append_assoc, ok, str_eq, >>=-returns, ◌==◌, ◌&&◌, arith, inl, inr, Bool-cases,
}
use nsysu_network_applicatio.Prelude.Int.{ℤ, pos, negsuc}
use native.Mathlib.Decide.{dec_lt}
use nsysu_network_applicatio.Emergency.Dispatcher.{atoi, buffered, report, ready, result}
use nsysu_network_applicatio.Queue.Fifo
use nsysu_network_applicatio.Emergency.Worker.{
  Sent, to_dispatcher, to_broker, Round, copy, identity, is_set, release, request, round, rounds,
  work,
}

-- `worker_queue` behind the messages of one worker
unfoldable pub heard : Bytes → List ℤ → List Sent → List ℤ
heard id queue [] = queue
heard id queue (to_dispatcher event ∷ sent) =
    heard id (report queue (buffered id) (buffered event)) sent
heard id queue (to_broker id_frame request ∷ sent) = heard id queue sent

abbrev is_zero : ℤ → Bool
is_zero (pos n) = n == 0
is_zero (negsuc n) = false

is_zero_sound : (a : ℤ) → is_zero a ≡ true → a ≡ pos 0
is_zero_sound (pos n) h = ground arith
is_zero_sound (negsuc n) h = cc

done_unheard :
    (queue : List ℤ) (id : Bytes) → report queue id (buffered (codes "DONE" ++ 0 ∷ [])) ≡ queue
unfolding report buffered str_eq ready result
done_unheard queue id = refl

ready_heard :
    (queue : List ℤ) (id : Bytes)
    → report queue id (buffered (codes "READY" ++ 0 ∷ [])) ≡ queue ++ atoi id ∷ []
unfolding report buffered str_eq ready Fifo.push
ready_heard queue id = refl

-- a round that comes to its end, from its parts
pub round-eq-ok :
    (header : Bytes) (r : Round) {sent : List Sent}
    → round header r ≡ ok sent
    → (task permission : Bytes) × (copy 12 r.event ≡ ok task)
      × (copy 4 r.reply ≡ ok permission)
      × (sent
          ≡ to_broker header task
            ∷ (release permission r.reply ++ to_dispatcher (codes "DONE" ++ 0 ∷ []) ∷ []))
unfolding round request
round-eq-ok header r h =
    let (asked, whole, h') = >>=-returns (request header r.event) _ h in
    let (task, got, e) = >>=-returns (copy 12 r.event) _ whole in
    let (permission, answered, h'') = >>=-returns (copy 4 r.reply) _ h' in
    (task, permission, got, answered, cc)

-- the requests and releases, and "DONE", leave the queue
release_unheard :
    (id : Bytes) (queue : List ℤ) (permission reply : Bytes) (sent : List Sent)
    → heard id queue (release permission reply ++ sent) ≡ heard id queue sent
unfolding release heard
release_unheard id queue permission reply sent = elim (Bool-cases (is_set permission)) [
  | inl set ↦ rw set refl
  | inr clear ↦ rw clear refl
]

round_unheard :
    (id : Bytes) (queue : List ℤ) (header task permission reply : Bytes) (sent : List Sent)
    → heard id queue (
        (to_broker header task
          ∷ (release permission reply ++ to_dispatcher (codes "DONE" ++ 0 ∷ []) ∷ []))
        ++ sent)
      ≡ heard id queue sent
unfolding heard
round_unheard id queue header task permission reply sent =
    rw (append_assoc (release permission reply) (to_dispatcher (codes "DONE" ++ 0 ∷ []) ∷ []) sent)
      (release_unheard id queue permission reply _
        ∙ ap (λ q. heard id q sent) (done_unheard queue (buffered id)))

rounds_unheard :
    (id : Bytes) (queue : List ℤ) (header : Bytes) (rs : List Round) {sent : List Sent}
    → rounds header rs ≡ ok sent
    → heard id queue sent ≡ queue
unfolding rounds heard
rounds_unheard id queue header [] {sent} h = let e : [] ≡ sent = cc in rw (← e) refl
rounds_unheard id queue header (r ∷ rs) {sent} h =
    let (first, one, h') = >>=-returns (round header r) _ h in
    let (others, more, h'') = >>=-returns (rounds header rs) _ h' in
    let (task, permission, _, _, e) = round-eq-ok header r one in
    let whole : sent ≡ first ++ others = cc in
    rw (whole, e)
      (round_unheard id queue header task permission r.reply others
        ∙ rounds_unheard id queue header rs more)

-- whether the identities of the first `count` workers are all read as 0
zeros : ℕ → Bool
zeros zero = true
zeros (suc count) = is_zero (atoi (buffered (identity count))) && zeros count

zeros-identity :
    (count i : ℕ) → i < count → zeros count ≡ true → atoi (buffered (identity i)) ≡ pos 0
unfolding zeros
zeros-identity zero i h z = elim h [ ]
zeros-identity (suc count) i h z =
    let last : is_zero (atoi (buffered (identity count))) ≡ true = ground arith in
    let others : zeros count ≡ true = ground arith in
    elim (dec_lt i count) [
      | yes below ↦ zeros-identity count i below others
      | no same ↦
          let e : i ≡ count = omega arith in
          rw e (is_zero_sound (atoi (buffered (identity count))) last)
    ]

-- An identity that starts with a byte below the digits is read as 0.
below_digits : zeros 48 ≡ true
unfolding zeros atoi buffered identity
below_digits = refl

-- Whatever tasks a worker does and whatever the broker answers, the dispatcher enters it into its
-- queue once, for READY, and not again for the DONE of any task; and a worker with a number below
-- 48 is entered as 0. The frames that it receives are as long as the code reads.
pub heard-work :
    (i : ℕ) (queue : List ℤ) (header : Bytes) (rs : List Round) {sent : List Sent}
    → i < 48
    → work header rs ≡ ok sent
    → heard (identity i) queue sent ≡ queue ++ pos 0 ∷ []
unfolding work heard
heard-work i queue header rs {sent} h e =
    let (others, more, e') = >>=-returns (rounds header rs) _ e in
    let whole : sent ≡ to_dispatcher (codes "READY" ++ 0 ∷ []) ∷ others = cc in
    rw whole (
      ap (λ q. heard (identity i) q others) (ready_heard queue (buffered (identity i)))
      ∙ rounds_unheard (identity i) (queue ++ atoi (buffered (identity i)) ∷ []) header rs more
      ∙ ap (λ v. queue ++ v ∷ []) (zeros-identity 48 i h below_digits))
