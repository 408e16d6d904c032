-- ===== src/Tee/Copied.antt =====
-- What is copied.
use nsysu_network_applicatio.Prelude.{
  ℕ, zero, suc, ◌<◌, ◌≤◌, ◌≡◌, refl, ap, ◌∙◌, Bytes, List, [], ◌∷◌, ◌++◌, length, take, take_all,
  Option, some, ok, fault, out_of_bounds, lt→ltb, arith,
}
use nsysu_network_applicatio.Tee.{copied, is_append, written, output, copy_out, tee}

length-take_past : (n : ℕ) (xs : Bytes) → n ≤ length xs → length (take n xs) ≡ n
length-take_past zero xs h = refl
length-take_past (suc n) [] h = absurd (omega arith)
length-take_past (suc n) (x ∷ xs) h = omega (arith, length-take_past n xs (omega arith))

fits :
    (room : ℕ) (old : Bytes → Option Bytes) (program filename content buf : Bytes)
    → old filename ≡ some content
    → length buf < room
    → (copy_out room old [] (program ∷ filename ∷ []) buf ≡ ok (copied filename buf buf))
      × (copy_out room old (b'a' ∷ []) (program ∷ (b'-' ∷ b'a' ∷ []) ∷ filename ∷ []) buf
          ≡ ok (copied filename (content ++ buf) buf))
unfolding copy_out output is_append written
fits room old program filename content buf e h =
    (rw (lt→ltb (length buf) room h, e) refl, rw (lt→ltb (length buf) room h, e) refl)

-- An input that fits into the buffer goes to the file, behind its content with -a and in place of it
-- without, and to the screen; one that fills the buffer makes the program write behind it.
pub tee_lem :
    (room : ℕ) (old : Bytes → Option Bytes) (program filename content input : Bytes)
    → old filename ≡ some content
    → (length input < room
        → (tee room old [] (program ∷ filename ∷ []) input ≡ ok (copied filename input input))
          × (tee room old (b'a' ∷ []) (program ∷ (b'-' ∷ b'a' ∷ []) ∷ filename ∷ []) input
              ≡ ok (copied filename (content ++ input) input)))
      × (room ≤ length input
          → (opts : List ℕ) (argv : List Bytes)
          → tee room old opts argv input ≡ fault out_of_bounds)
unfolding tee
tee_lem room old program filename content input e = (
  λ h.
      let whole : take room input ≡ input = take_all room input (omega arith) in
      let (plain, append) = fits room old program filename content input e h in
      (
        ap (copy_out room old [] (program ∷ filename ∷ [])) whole ∙ plain,
        ap (copy_out room old (b'a' ∷ []) (program ∷ (b'-' ∷ b'a' ∷ []) ∷ filename ∷ [])) whole
            ∙ append,
      ),
  λ h opts argv. unfold copy_out in rw (length-take_past room input h) (ground arith),
)
