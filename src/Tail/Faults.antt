-- ===== src/Tail/Faults.antt =====
-- What becomes of every run.
use nsysu_network_applicatio.Prelude.{
  ℕ, zero, suc, ◌+◌, ◌≤◌, ◌<◌, ◌≡◌, refl, ap, ◌∙◌, Bool, true, false, ◌&&◌, Bytes, [], ◌∷◌, ◌++◌,
  map, length, length-append, length-drop, take, drop, replicate, Option, none, some, ok, fault,
  ◌>>=◌, out_of_bounds, uninitialised, leb, if◌then◌else◌, arith, inl, inr, ◌⊎◌, Bool-cases,
}
use nsysu_network_applicatio.Prelude.Int.{ℤ, pos, leb_ℤ, ◌-ℤ◌}
use nsysu_network_applicatio.Tail.{
  Memory, malloc, memcpy, terminate, print, Tail, read, find, copied, prepend, round, goes_on, loop,
  start, tail,
}

length-take_exact : (n : ℕ) (xs : Memory) → n ≤ length xs → length (take n xs) ≡ n
length-take_exact zero xs h = refl
length-take_exact (suc n) [] h = absurd (omega arith)
length-take_exact (suc n) (x ∷ xs) h = omega (arith, length-take_exact n xs (omega arith))

length-replicate : (n : ℕ) → length (replicate {A = Option ℕ} n none) ≡ n
length-replicate zero = refl
length-replicate (suc n) = ap suc (length-replicate n)

length-malloc : (n : ℕ) → length (malloc n) ≡ n
unfolding malloc
length-malloc n = length-replicate n

abbrev written : Memory → ℕ → Memory → Memory
written block offset bytes = take offset block ++ (bytes ++ drop (offset + length bytes) block)

length-written :
    (block : Memory) (offset : ℕ) (bytes : Memory)
    → offset + length bytes ≤ length block
    → length (written block offset bytes) ≡ length block
length-written block offset bytes h = omega (
  arith,
  length-append (take offset block) (bytes ++ drop (offset + length bytes) block),
  length-append bytes (drop (offset + length bytes) block),
  length-take_exact offset block (omega arith),
  length-drop (offset + length bytes) block,
)

-- A copy stays within its block, or ends the run.
memcpy_cases :
    (block : Memory) (offset : ℕ) (bytes : Memory)
    → (memcpy block offset bytes ≡ fault out_of_bounds)
      ⊎ ((block' : Memory) × (memcpy block offset bytes ≡ ok block')
          × (length block' ≡ length block))
unfolding memcpy
memcpy_cases block offset bytes = elim (Bool-cases (leb (offset + length bytes) (length block))) [
  | inr past ↦ inl (rw past refl)
  | inl within ↦
      inr (
        written block offset bytes,
        rw within refl,
        length-written block offset bytes (ground arith),
      )
]

-- The NUL is written one byte behind the block.
terminate_faults :
    (block : Memory) (i : ℕ) → length block ≤ i → terminate block i ≡ fault out_of_bounds
unfolding terminate
terminate_faults block i h = ground arith

prepend_faults :
    (buffer : Bytes) (t : Tail) (found : ℕ × ℕ × Option ℕ)
    → prepend buffer t found ≡ fault out_of_bounds
unfolding prepend
prepend_faults buffer t (count, read_this_time, end_pos) =
    let size : ℕ = t.outputlen + read_this_time + 1 in
    let found : Memory = map (λ c. some c) (copied buffer read_this_time end_pos) in
    elim (memcpy_cases (malloc size) read_this_time (take t.outputlen t.output)) [
      | inl past ↦ rw past refl
      | inr (moved, move, as_long) ↦ rw move (elim (memcpy_cases moved 0 found) [
        | inl past ↦ rw past refl
        | inr (whole, copy, as_long') ↦
            rw copy
              (terminate_faults whole size (omega (arith, as_long, as_long', length-malloc size)))
      ])
    ]

round_faults :
    (showlines : ℤ) (file : Bytes) (t : Tail) → round showlines file t ≡ fault out_of_bounds
unfolding round
round_faults showlines file t =
    rw (prepend_faults (read file t) t (find showlines (read file t) t)) refl

-- whether the loop is entered
abbrev is_entered : ℤ → Bytes → Bool
is_entered showlines file = leb 1 (length file) && leb_ℤ (pos 1) showlines

goes_on-start :
    (showlines : ℤ) (size : ℕ)
    → goes_on showlines (start size) ≡ leb 1 size && leb_ℤ (pos 1) showlines
unfolding goes_on start ◌-ℤ◌
goes_on-start showlines zero = refl
goes_on-start showlines (suc size) = ground arith

loop_entered :
    (fuel : ℕ) (showlines : ℤ) (file : Bytes) (t : Tail)
    → 0 < fuel
    → goes_on showlines t ≡ true
    → loop fuel showlines file t ≡ fault out_of_bounds
unfolding loop
loop_entered zero showlines file t f h = elim f [ ]
loop_entered (suc fuel) showlines file t f h = rw (h, round_faults showlines file t) refl

loop_left :
    (fuel : ℕ) (showlines : ℤ) (file : Bytes) (t : Tail)
    → 0 < fuel
    → goes_on showlines t ≡ false
    → loop fuel showlines file t ≡ ok t
unfolding loop
loop_left zero showlines file t f h = elim f [ ]
loop_left (suc fuel) showlines file t f h = rw h refl

start_unwritten : (size : ℕ) → print (start size).output ≡ fault uninitialised
unfolding start malloc print
start_unwritten size = refl

-- No run of the program is without undefined behaviour: where a file has a byte and a line of it is
-- asked for, the first round of the loop writes behind its allocation; else a byte is printed that was
-- not written.
pub tail_lem :
    (showlines : ℤ) (file : Bytes)
    → tail showlines file
      ≡ fault
          (if leb 1 (length file) && leb_ℤ (pos 1) showlines then out_of_bounds else uninitialised)
unfolding tail
tail_lem showlines file = elim (Bool-cases (is_entered showlines file)) [
  | inl entered ↦ rw entered (
      ap (λ m. m >>= λ t. print t.output)
        (loop_entered (length file + 2) showlines file (start (length file)) (omega arith)
          (goes_on-start showlines (length file) ∙ entered)))
  | inr left ↦ rw left (
      ap (λ m. m >>= λ t. print t.output)
        (loop_left (length file + 2) showlines file (start (length file)) (omega arith)
          (goes_on-start showlines (length file) ∙ left))
      ∙ start_unwritten (length file))
]
