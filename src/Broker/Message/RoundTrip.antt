-- ===== src/Broker/Message/RoundTrip.antt =====
-- The number of a task is read back from the text that carries it.
use nsysu_network_applicatio.Prelude.{
  ℕ, zero, suc, ◌^◌, ◌<◌, ◌≡◌, ◌≢◌, refl, true, Bytes, codes, [], ◌∷◌, ◌++◌, take, length, All, ok,
  arith, some, length-append,
}
use nsysu_network_applicatio.Prelude.Int.{pos}
use nsysu_network_applicatio.Prelude.Decimal.{
  decimal, is_digit, read_digits, read-decimal, decimal_head, decimal-All, length-decimal,
}
use nsysu_network_applicatio.Broker.Message.{
  task_text, until_nul, clip, skip_space, scan_int, scan_task, get_task_id, worker_task_id,
}

-- A string in a buffer is cut at its NUL.
until_nul-take :
    (k : ℕ) (s rest : Bytes)
    → All (λ c. c ≢ 0) s
    → length s < k
    → until_nul (take k (s ++ 0 ∷ rest)) ≡ s
unfolding until_nul
until_nul-take zero s rest h l = absurd (omega arith)
until_nul-take (suc k) [] rest h l = refl
until_nul-take (suc k) (c ∷ s) rest h l = ground (arith, until_nul-take k s rest h.1)

nonzero-digits : (s : Bytes) → All (λ c. is_digit c ≡ true) s → All (λ c. c ≢ 0) s
unfolding is_digit
nonzero-digits [] h = tt
nonzero-digits (c ∷ s) h = (ground arith, nonzero-digits s h.1)

nonzero-append : (s t : Bytes) → All (λ c. c ≢ 0) s → All (λ c. c ≢ 0) t → All (λ c. c ≢ 0) (s ++ t)
nonzero-append [] t h k = k
nonzero-append (c ∷ s) t h k = (h.0, nonzero-append s t h.1 k)

nonzero_text : (n : ℕ) → All (λ c. c ≢ 0) (task_text (pos n))
unfolding task_text
nonzero_text n =
    let number = nonzero-digits (decimal n) (decimal-All n) in
    nonzero-append (codes "TASK ") (decimal n ++ (codes " : This is message " ++ decimal n))
      (omega arith)
      (nonzero-append (decimal n) (codes " : This is message " ++ decimal n) number
        (nonzero-append (codes " : This is message ") (decimal n) (omega arith) number))

length_text : (n : ℕ) → n < 2 ^ 31 → length (task_text (pos n)) < 79
unfolding task_text
length_text n h = omega (
  arith,
  length-append (decimal n) (codes " : This is message " ++ decimal n),
  length-decimal 9 n (omega arith),
)

scan_decimal :
    (n : ℕ) (rest : Bytes) → scan_int (skip_space (decimal n ++ 32 ∷ rest)) ≡ some (pos n)
unfolding scan_int skip_space is_digit read_digits
scan_decimal n rest =
    let (c, s, e, d) = decimal_head n in
    let value = read-decimal n (32 ∷ rest) in rw e (ground arith)

scan_text : (n : ℕ) → scan_task (task_text (pos n)) ≡ some (pos n)
unfolding scan_task task_text
scan_text n = scan_decimal n (codes ": This is message " ++ decimal n)

-- The identifier of a task survives its way through the text: what `snprintf` wrote into a buffer
-- of 80 bytes, whatever stands behind the NUL, is cut to a string from which the broker and the
-- worker both read the identifier again. It is a number of 31 bits.
pub task_id_survives :
    (n : ℕ) (junk : Bytes)
    → n < 2 ^ 31
    → get_task_id (clip (task_text (pos n) ++ 0 ∷ junk)) ≡ pos n
      × worker_task_id (clip (task_text (pos n) ++ 0 ∷ junk)) ≡ ok (pos n)
unfolding get_task_id worker_task_id clip
task_id_survives n junk h =
    rw (until_nul-take 79 (task_text (pos n)) junk (nonzero_text n) (length_text n h), scan_text n)
      (refl, refl)
