-- ===== src/Copy.antt =====
-- hw2/cp.c: a file is copied byte by byte, and a zero byte is left out as a hole.
pub mod Copied
pub mod Tests
use nsysu_network_applicatio.Prelude.{
  ℕ, zero, suc, ◌+◌, ◌-◌, Bytes, List, [], ◌∷◌, ◌++◌, length, take, drop, replicate, Option, none,
  some, Run, ok, fault, ◌>>=◌, out_of_bounds, ◌==◌, leb, ltb, if◌then◌else◌,
}

-- The bytes of the destination that were written, and none where nothing was: the holes.
abbrev pub Sparse : Type 0
Sparse = List (Option ℕ)

-- The destination with its offset, which stands at the end of the bytes or `ahead` of it.
pub record Destination : Type 0 where
  pub content : Sparse
  pub ahead : ℕ

-- `write` of a byte at the offset; what it skipped is a hole
unfoldable pub write_byte : ℕ → Destination → Destination
write_byte b d = record {
  content = d.content ++ (replicate d.ahead none ++ some b ∷ []);
  ahead = 0;
}

-- `lseek(fd_dst, 1, SEEK_CUR)`
unfoldable pub skip_byte : Destination → Destination
skip_byte d = record d { ahead = d.ahead + 1 }

-- The loop over the buffer, of which `num` bytes were read.
pub copy_loop : Bytes → Destination → Destination
unfolding write_byte skip_byte
copy_loop [] d = d
copy_loop (b ∷ bs) d = copy_loop bs (if b == 0 then skip_byte d else write_byte b d)

-- `ftruncate`, which cuts or adds a hole
unfoldable pub ftruncate : ℕ → Sparse → Sparse
ftruncate size content = take size content ++ replicate (size - length content) none

-- `main` from the two open files on, with a buffer of `room` bytes, in which a NUL is put behind what
-- was read.
unfoldable pub copy : ℕ → Bytes → Run Sparse
unfolding ftruncate
copy room source =
    let read = take room source in
    if ltb (length read) room
    then ok
        (ftruncate (length source) (copy_loop read (record { content = []; ahead = 0 })).content)
    else fault out_of_bounds

-- what a reader of the file gets: a hole is read as zeros
unfoldable pub contents : Sparse → Bytes
contents [] = []
contents (none ∷ s) = 0 ∷ contents s
contents (some b ∷ s) = b ∷ contents s
