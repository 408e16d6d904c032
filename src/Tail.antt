-- ===== src/Tail.antt =====
-- hw3/tail.c: the last lines of a file, read from its end in pieces of 1024 bytes. The options and the
-- opening of the file are left out.
pub mod Faults
pub mod Tests
use nsysu_network_applicatio.Prelude.{
  ℕ, zero, suc, ◌+◌, ◌-◌, Bool, true, false, ◌&&◌, Bytes, List, [], ◌∷◌, ◌++◌, map, length, take,
  drop, set, replicate, Option, none, some, Run, ok, fault, ◌>>=◌, out_of_bounds, uninitialised,
  out_of_fuel, ltb, leb, ◌==◌, if◌then◌else◌,
}
use nsysu_network_applicatio.Prelude.Int.{ℤ, pos, negsuc, leb_ℤ, ◌+ℤ◌, ◌-ℤ◌}

-- Memory: none is a byte that was not written.
abbrev pub Memory : Type 0
Memory = List (Option ℕ)

pub malloc : ℕ → Memory
malloc n = replicate n none

-- `memcpy` to an offset of a block
pub memcpy : Memory → ℕ → Memory → Run Memory
memcpy block offset bytes =
    if leb (offset + length bytes) (length block)
    then ok (take offset block ++ (bytes ++ drop (offset + length bytes) block))
    else fault out_of_bounds

-- `block[i] = '\0'`
pub terminate : Memory → ℕ → Run Memory
terminate block i = if ltb i (length block) then ok (set block i (some 0)) else fault out_of_bounds

-- `printf("%s", block)`
pub print : Memory → Run Bytes
print [] = fault out_of_bounds
print (none ∷ block) = fault uninitialised
print (some c ∷ block) = elim (c == 0) [
  | true ↦ ok []
  | false ↦ do rest ← print block; ok (c ∷ rest)
]

-- The variables of `main`, with the offset of the file; an `endPos` of -1 is `none`.
pub record Tail : Type 0 where
  pub output : Memory
  pub outputlen : ℕ
  pub count : ℕ
  pub is_read_end : Bool
  pub end_pos : Option ℕ
  pub remaining : ℤ
  pub offset : ℕ

-- The loop over a piece from its end, of which the bytes are given backwards: `count`, `readThisTime`
-- and `endPos` behind it.
pub scan : ℤ → Bytes → ℕ → ℕ → Option ℕ → ℕ × ℕ × Option ℕ
scan showlines [] count read_this_time end_pos = (count, read_this_time, end_pos)
scan showlines (c ∷ before) count read_this_time end_pos =
    let counted : ℕ = if c == 10 then count + 1 else count in
    let rest = scan showlines before counted (read_this_time + 1) end_pos in
    if leb_ℤ showlines (pos counted) && leb_ℤ (pos counted) showlines
    then (counted, read_this_time, some (length before))
    else rest

pub reversed : Bytes → Bytes → Bytes
reversed [] done = done
reversed (c ∷ s) done = reversed s (c ∷ done)

-- what is copied out of the piece, by `endPos`
pub copied : Bytes → ℕ → Option ℕ → Bytes
copied buffer read_this_time none = take read_this_time buffer
copied buffer read_this_time (some end_pos) = drop (end_pos + 1) buffer

to_size : ℤ → ℕ
to_size (pos n) = n
to_size (negsuc n) = 0

-- `read` at the offset, of 1024 bytes or of `pos`
pub read : Bytes → Tail → Bytes
unfolding to_size
read file t = take (if t.is_read_end then to_size t.remaining else 1024) (drop t.offset file)

-- `output` behind a piece: what was found in it, in front of what there was.
pub prepend : Bytes → Tail → (found : ℕ × ℕ × Option ℕ) → Run Memory
prepend buffer t (count, read_this_time, end_pos) = do
  let temp = malloc (t.outputlen + read_this_time + 1)
  moved ← memcpy temp read_this_time (take t.outputlen t.output)
  whole ← memcpy moved 0 (map (λ c. some c) (copied buffer read_this_time end_pos))
  terminate whole (t.outputlen + read_this_time + 1)

-- the move of the offset at the end of a round, from behind what was read
seek : ℤ → ℕ → ℕ
seek remaining offset =
    if leb_ℤ (pos 0) (remaining -ℤ pos 1024)
    then if leb 2048 offset then offset - 2048 else offset
    else 0

-- The variables behind a round, for the bytes that were read and what was found in them.
advance : Tail → Bytes → ℕ × ℕ × Option ℕ → Memory → Tail
advance t buffer (count, read_this_time, end_pos) output =
    let remaining : ℤ = t.remaining -ℤ pos 1024 in
    record {
      output = output;
      outputlen = t.outputlen + read_this_time;
      count = count;
      is_read_end = if leb_ℤ (pos 0) (remaining -ℤ pos 1024) then t.is_read_end else true;
      end_pos = end_pos;
      remaining = remaining;
      offset = seek remaining (t.offset + length buffer);
    }

pub find : ℤ → Bytes → Tail → ℕ × ℕ × Option ℕ
find showlines buffer t = scan showlines (reversed buffer []) t.count 0 t.end_pos

-- A round of the `while`.
pub round : ℤ → Bytes → Tail → Run Tail
round showlines file t = do
  let buffer = read file t
  let found = find showlines buffer t
  output ← prepend buffer t found
  ok (advance t buffer found output)

-- `pos >= 0 && count < showlines`
pub goes_on : ℤ → Tail → Bool
goes_on showlines t = leb_ℤ (pos 0) t.remaining && leb_ℤ (pos (t.count + 1)) showlines

pub loop : ℕ → ℤ → Bytes → Tail → Run Tail
loop zero showlines file t = fault out_of_fuel
loop (suc fuel) showlines file t =
    let rest = (do t' ← round showlines file t; loop fuel showlines file t') in
    if goes_on showlines t then rest else ok t

-- in front of the loop
pub start : ℕ → Tail
unfolding malloc
start file_size = record {
  output = malloc 1;
  outputlen = 0;
  count = 0;
  is_read_end = ltb file_size 1025;
  end_pos = none;
  remaining = pos file_size -ℤ pos 1;
  offset = if ltb file_size 1025 then 0 else file_size - 1024;
}

-- What is printed of a file; a round takes 1024 bytes of it.
pub tail : ℤ → Bytes → Run Bytes
tail showlines file = do
  t ← loop (length file + 2) showlines file (start (length file))
  print t.output
