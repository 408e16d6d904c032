-- ===== src/PipeListing/Sound.antt =====
-- What holds of parent, pipe and child in every schedule.
use nsysu_network_applicatio.Prelude.{
  ℕ, zero, suc, ◌+◌, ◌<◌, ◌≤◌, ◌≡◌, refl, sym, ap, ◌∙◌, Bool, true, false, Bytes, List, [], ◌∷◌,
  ◌++◌, append_assoc, some, length, length-append, take, drop, arith, inl, inr, Option-cases,
  Bool-cases, ◌≢◌,
}
use mathlib.Core.Path.{subst}
use nsysu_network_applicatio.PipeListing.{
  Phase, waiting, reading, done, System, start, Move, child_writes, child_exits, parent, write,
  exit, read, parent_step, step, or_stay, run,
}

take-drop : (n : ℕ) (xs : Bytes) → take n xs ++ drop n xs ≡ xs
take-drop zero xs = refl
take-drop (suc n) [] = refl
take-drop (suc n) (x ∷ xs) = ap (λ l. x ∷ l) (take-drop n xs)

-- whether the parent has come out of `waitpid`
abbrev pub has_waited : Phase → Bool
has_waited waiting = false
has_waited reading = true
has_waited done = true

abbrev pub is_done : Phase → Bool
is_done waiting = false
is_done reading = false
is_done done = true

done_waited : (p : Phase) → is_done p ≡ true → has_waited p ≡ true
done_waited waiting h = cc
done_waited reading h = cc
done_waited done h = refl

-- Nothing is lost on the way, and the parent reads only behind the exit of a child all of whose output
-- found room in the pipe.
pub record IsSound (capacity : ℕ) (output : Bytes) (s : System) : Type 0 where
  pub whole : s.printed ++ (s.held ++ s.left) ≡ output
  pub room : length s.held ≤ capacity
  pub all_written : s.exited ≡ true → s.left ≡ []
  pub waited : has_waited s.phase ≡ true → (s.exited ≡ true) × (length output ≤ capacity)
  pub unprinted : has_waited s.phase ≡ false → s.printed ≡ []
  pub emptied : is_done s.phase ≡ true → s.held ≡ []

start-IsSound : (capacity : ℕ) (output : Bytes) → IsSound capacity output (start output)
unfolding start
start-IsSound capacity output = record {
  whole = refl;
  room = omega arith;
  all_written = λ h. cc;
  waited = λ h. cc;
  unprinted = λ h. refl;
  emptied = λ h. cc;
}

length-take_exact : (n : ℕ) (xs : Bytes) → n ≤ length xs → length (take n xs) ≡ n
length-take_exact zero xs h = refl
length-take_exact (suc n) [] h = absurd (omega arith)
length-take_exact (suc n) (x ∷ xs) h = omega (arith, length-take_exact n xs (omega arith))

-- a write that happens
write-eq-some :
    (capacity n : ℕ) (s : System) {s' : System}
    → write capacity n s ≡ some s'
    → (0 < n)
      × (n ≤ length s.left)
      × (length s.held + n ≤ capacity)
      × (record s { left = drop n s.left; held = s.held ++ take n s.left } ≡ s')
unfolding write
write-eq-some capacity n s h = ground arith

write-IsSound :
    (capacity n : ℕ) (output : Bytes) (s : System) {s' : System}
    → IsSound capacity output s
    → write capacity n s ≡ some s'
    → IsSound capacity output s'
write-IsSound capacity n output s {s'} v h =
    let (positive, enough, fits, e) = write-eq-some capacity n s h in
    let still : s.exited ≢ true = λ x. absurd (omega (arith, ap length (v.all_written x))) in
    rw (← e) (record {
      whole =
          ap (λ l. s.printed ++ l)
            (append_assoc s.held (take n s.left) (drop n s.left)
              ∙ ap (λ l. s.held ++ l) (take-drop n s.left))
          ∙ v.whole;
      room = omega (arith, length-append s.held (take n s.left), length-take_exact n s.left enough);
      all_written = λ x. absurd (still x);
      waited = v.waited;
      unprinted = v.unprinted;
      emptied = λ x. absurd (still (v.waited (done_waited s.phase x)).0);
    })

exit-IsSound :
    (capacity : ℕ) (output : Bytes) (s : System) (left : Bytes) {s' : System}
    → s.left ≡ left
    → IsSound capacity output s
    → exit s left ≡ some s'
    → IsSound capacity output s'
unfolding exit
exit-IsSound capacity output s [] {s'} e v h =
    let e' : record s { exited = true } ≡ s' = ground arith in
    rw (← e') (record {
      whole = v.whole;
      room = v.room;
      all_written = λ x. e;
      waited = λ x. (refl, (v.waited x).1);
      unprinted = v.unprinted;
      emptied = v.emptied;
    })
exit-IsSound capacity output s (_ ∷ _) e v h = cc

-- The parent comes out of `waitpid`: the whole output stands in the pipe.
wake-IsSound :
    (capacity : ℕ) (output : Bytes) (s : System)
    → s.phase ≡ waiting
    → s.exited ≡ true
    → IsSound capacity output s
    → IsSound capacity output (record s { phase = reading })
wake-IsSound capacity output s e x v =
    let nothing : s.printed ≡ [] = v.unprinted (rw e refl) in
    let fits : length output ≤ capacity = omega (
      arith,
      ap length v.whole,
      length-append s.printed (s.held ++ s.left),
      length-append s.held s.left,
      ap length nothing,
      ap length (v.all_written x),
      v.room,
    ) in
    record {
      whole = v.whole;
      room = v.room;
      all_written = v.all_written;
      waited = λ h. (x, fits);
      unprinted = λ h. cc;
      emptied = λ h. cc;
    }

taken-IsSound :
    (capacity k : ℕ) (output : Bytes) (s : System)
    → s.phase ≡ reading
    → IsSound capacity output s
    → IsSound capacity output
        (record s { held = drop k s.held; printed = s.printed ++ take k s.held })
taken-IsSound capacity k output s p v =
    let w = v.waited (rw p refl) in
    record {
      whole =
          append_assoc s.printed (take k s.held) (drop k s.held ++ s.left)
          ∙ ap (λ l. s.printed ++ l)
              (sym (append_assoc (take k s.held) (drop k s.held) s.left)
                ∙ ap (λ l. l ++ s.left) (take-drop k s.held))
          ∙ v.whole;
      room = omega (
        arith,
        v.room,
        ap length (take-drop k s.held),
        length-append (take k s.held) (drop k s.held),
      );
      all_written = v.all_written;
      waited = λ x. w;
      unprinted = λ x. let x' : true ≡ false = rw p at x in cc;
      emptied = λ x. let x' : false ≡ true = rw p at x in cc;
    }

read-IsSound :
    (capacity : ℕ) (output : Bytes) (s : System) (held : Bytes) {s' : System}
    → s.held ≡ held
    → s.phase ≡ reading
    → IsSound capacity output s
    → read s held ≡ some s'
    → IsSound capacity output s'
unfolding read
read-IsSound capacity output s [] {s'} e p v h =
    let e' : record s { phase = done } ≡ s' = ground arith in
    let w = v.waited (rw p refl) in
    rw (← e') (record {
      whole = v.whole;
      room = v.room;
      all_written = v.all_written;
      waited = λ x. w;
      unprinted = λ x. cc;
      emptied = λ x. e;
    })
read-IsSound capacity output s (b ∷ held) {s'} e p v h =
    let e' : record s { held = drop 1024 (b ∷ held); printed = s.printed ++ take 1024 (b ∷ held) }
        ≡ s' =
      cc in
    let v' = taken-IsSound capacity 1024 output s p v in
    subst (IsSound capacity output)
      (ap (λ l. record s { held = drop 1024 l; printed = s.printed ++ take 1024 l }) e ∙ e') v'

parent_step-IsSound :
    (capacity : ℕ) (output : Bytes) (s : System) (p : Phase) {s' : System}
    → s.phase ≡ p
    → IsSound capacity output s
    → parent_step s p ≡ some s'
    → IsSound capacity output s'
unfolding parent_step
parent_step-IsSound capacity output s waiting {s'} e v h = elim (Bool-cases s.exited) [
  | inl x ↦
      let e' : record s { phase = reading } ≡ s' = ground arith in
      rw (← e') (wake-IsSound capacity output s e x v)
  | inr x ↦ absurd (ground arith)
]
parent_step-IsSound capacity output s reading e v h =
    read-IsSound capacity output s s.held refl e v h
parent_step-IsSound capacity output s done e v h = cc

step-IsSound :
    (capacity : ℕ) (output : Bytes) (m : Move) (s : System) {s' : System}
    → IsSound capacity output s
    → step capacity m s ≡ some s'
    → IsSound capacity output s'
unfolding step
step-IsSound capacity output (child_writes n) s v h = write-IsSound capacity n output s v h
step-IsSound capacity output child_exits s v h = exit-IsSound capacity output s s.left refl v h
step-IsSound capacity output parent s v h = parent_step-IsSound capacity output s s.phase refl v h

run-IsSound :
    (capacity : ℕ) (output : Bytes) (ms : List Move) (s : System)
    → IsSound capacity output s
    → IsSound capacity output (run capacity ms s)
unfolding run or_stay
run-IsSound capacity output [] s v = v
run-IsSound capacity output (m ∷ ms) s v = elim (Option-cases (step capacity m s)) [
  | inl still ↦ rw still (run-IsSound capacity output ms s v)
  | inr (s', moved) ↦
      rw moved (run-IsSound capacity output ms s' (step-IsSound capacity output m s v moved))
]

pub reached-IsSound :
    (capacity : ℕ) (output : Bytes) (ms : List Move)
    → IsSound capacity output (run capacity ms (start output))
reached-IsSound capacity output ms =
    run-IsSound capacity output ms (start output) (start-IsSound capacity output)
