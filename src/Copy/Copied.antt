-- ===== src/Copy/Copied.antt =====
-- The copy is the source, with a hole for each zero byte.
use nsysu_network_applicatio.Prelude.{
  ℕ, zero, suc, ◌+◌, ◌-◌, ◌≤◌, ◌≡◌, refl, ap, ap₂, ◌∙◌, sym, Bytes, [], ◌∷◌, ◌++◌, length, take,
  replicate, Option, none, some, ok, fault, out_of_bounds, ◌==◌, ltb, if◌then◌else◌, arith, false,
  inl, inr, Bool-cases, append_assoc, append-nil, length-append, take_all, ltb→lt,
}
use nsysu_network_applicatio.Copy.{
  Sparse, Destination, write_byte, skip_byte, copy_loop, ftruncate, copy, contents,
}

-- A hole for a zero byte, and a written byte for any other.
unfoldable pub holed : Bytes → Sparse
holed [] = []
holed (b ∷ bs) = (if b == 0 then none else some b) ∷ holed bs

-- the destination with a hole up to the offset
unfoldable pub reached : Destination → Sparse
reached d = d.content ++ replicate d.ahead none

length-holes : (n : ℕ) → length (replicate {A = Option ℕ} n none) ≡ n
length-holes zero = refl
length-holes (suc n) = omega (arith, length-holes n)

holes-snoc : (n : ℕ) → replicate {A = Option ℕ} (suc n) none ≡ replicate n none ++ none ∷ []
holes-snoc zero = refl
holes-snoc (suc n) = ap (λ l. none ∷ l) (holes-snoc n)

reached-skip : (d : Destination) → reached (skip_byte d) ≡ reached d ++ none ∷ []
unfolding reached skip_byte
reached-skip d =
    let next : d.ahead + 1 ≡ suc d.ahead = omega arith in
    rw (next, holes-snoc d.ahead)
      (sym (append_assoc d.content (replicate d.ahead none) (none ∷ [])))

reached-write : (b : ℕ) (d : Destination) → reached (write_byte b d) ≡ reached d ++ some b ∷ []
unfolding reached write_byte
reached-write b d =
    append-nil (write_byte b d).content
    ∙ sym (append_assoc d.content (replicate d.ahead none) (some b ∷ []))

reached-copy_loop :
    (bs : Bytes) (d : Destination) → reached (copy_loop bs d) ≡ reached d ++ holed bs
unfolding copy_loop holed
reached-copy_loop [] d = sym (append-nil (reached d))
reached-copy_loop (b ∷ bs) d = elim (Bool-cases (b == 0)) [
  | inl hole ↦ rw hole (
      reached-copy_loop bs (skip_byte d)
      ∙ rw (reached-skip d) (append_assoc (reached d) (none ∷ []) (holed bs)))
  | inr byte ↦ rw byte (
      reached-copy_loop bs (write_byte b d)
      ∙ rw (reached-write b d) (append_assoc (reached d) (some b ∷ []) (holed bs)))
]

length-holed : (bs : Bytes) → length (holed bs) ≡ length bs
unfolding holed
length-holed [] = refl
length-holed (b ∷ bs) = omega (arith, length-holed bs)

-- A hole put behind makes up what the offset is ahead.
ftruncate-reached :
    (d : Destination) (size : ℕ) → length (reached d) ≡ size → ftruncate size d.content ≡ reached d
unfolding ftruncate reached
ftruncate-reached d size e =
    let all : length d.content ≤ size =
      omega (arith, length-append d.content (replicate d.ahead none)) in
    let left : size - length d.content ≡ d.ahead =
      omega (arith, length-append d.content (replicate d.ahead none), length-holes d.ahead) in
    rw (take_all size d.content all, left) refl

contents-holed : (bs : Bytes) → contents (holed bs) ≡ bs
unfolding contents holed
contents-holed [] = refl
contents-holed (b ∷ bs) = elim (Bool-cases (b == 0)) [
  | inl hole ↦
      let zero_byte : 0 ≡ b = ground arith in
      rw hole (ap₂ (λ c l. c ∷ l) zero_byte (contents-holed bs))
  | inr byte ↦ rw byte (ap (λ l. b ∷ l) (contents-holed bs))
]

copy_loop-holed :
    (source : Bytes)
    → ftruncate (length source) (copy_loop source (record { content = []; ahead = 0 })).content
      ≡ holed source
unfolding reached
copy_loop-holed source =
    let d = copy_loop source (record { content = []; ahead = 0 }) in
    let all : reached d ≡ holed source =
      reached-copy_loop source (record { content = []; ahead = 0 }) in
    ftruncate-reached d (length source) (ap length all ∙ length-holed source) ∙ all

length-take_full : (n : ℕ) (xs : Bytes) → n ≤ length xs → length (take n xs) ≡ n
length-take_full zero xs h = refl
length-take_full (suc n) [] h = absurd (omega arith)
length-take_full (suc n) (x ∷ xs) h = omega (arith, length-take_full n xs (omega arith))

not_below : (n : ℕ) → ltb n n ≡ false
not_below n = ground arith

-- A file that is shorter than the buffer is copied: each of its zero bytes is a hole of the copy, the
-- others are written, and the copy reads like the file. A file that fills the buffer makes the
-- program write behind it.
pub copy-holed :
    (room : ℕ) (source : Bytes)
    → (copy room source
        ≡ (if ltb (length source) room then ok (holed source) else fault out_of_bounds))
      × (contents (holed source) ≡ source)
unfolding copy
copy-holed room source = (
  elim (Bool-cases (ltb (length source) room)) [
    | inl shorter ↦
        let below = ltb→lt (length source) room shorter in
        rw (take_all room source (omega arith), shorter) (ap (λ c. ok c) (copy_loop-holed source))
    | inr full ↦
        let fills : room ≤ length source = ground arith in
        rw (length-take_full room source fills, not_below room, full) refl
  ],
  contents-holed source,
)
