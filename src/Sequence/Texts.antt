-- ===== src/Sequence/Texts.antt =====
-- The texts of sequence numbers are read back.
use blp_cache.Sequence.{
  extracted, converted, SequenceNumber, fetch_add, next_as_string, all_digits, seq_to_uint64_t,
}
use blp_cache.Decimal.RoundTrip.{
  to_string-All, IsDigit, read_number-to_string_all, read_number-StartsRun, digits-StartsRun,
  StartsRun,
}
use blp_cache.Decimal.{in_unsigned, stoull, read_digits, to_string}
use blp_cache.Prelude.{
  All, Bool, Bytes, Option, [], ap, arith, false, length, ltb, none, refl, replicate, some, suc,
  sym, true, zero, ℕ, ◌++◌, ◌+◌, ◌<◌, ◌^◌, ◌∙◌, ◌∷◌, ◌≡◌, ◌≤◌,
}

zeros-digits : (k : ℕ) (s : Bytes) → read_digits 0 (replicate k b'0' ++ s) ≡ read_digits 0 s
unfolding read_digits
zeros-digits zero s = refl
zeros-digits (suc k) s = zeros-digits k s

zeros-StartsRun : (k : ℕ) (s : Bytes) → StartsRun s → StartsRun (replicate k b'0' ++ s)
zeros-StartsRun zero s h = h
zeros-StartsRun (suc k) s h = (omega arith, omega arith)

to_string-StartsRun : (n : ℕ) → n < 2 ^ 64 → StartsRun (to_string n)
unfolding to_string
to_string-StartsRun n h = digits-StartsRun 20 n [] (omega arith)

read_digits-to_string : (n : ℕ) → n < 2 ^ 64 → read_digits 0 (to_string n) ≡ n
read_digits-to_string n h = ap (number_read) (
    sym (read_number-StartsRun (to_string n) (to_string-StartsRun n h))
    ∙ read_number-to_string_all n h)
  where
    number_read : Option (Bool × ℕ) → ℕ
    number_read none = 0
    number_read (some (negative, m)) = m

stoull-zeros : (k n : ℕ) → n < 2 ^ 64 → stoull (replicate k b'0' ++ to_string n) ≡ some n
unfolding stoull in_unsigned
stoull-zeros k n h =
    let number = zeros-digits k (to_string n) ∙ read_digits-to_string n h in
    rw
      (
        read_number-StartsRun (replicate k b'0' ++ to_string n)
            (zeros-StartsRun k (to_string n) (to_string-StartsRun n h)),
        number,
      )
      (ground arith)

all_digits-All : (s : Bytes) → All IsDigit s → all_digits s ≡ true
unfolding all_digits
all_digits-All [] h = refl
all_digits-All (c ∷ s) (d, h) = ground (arith, all_digits-All s h)

all_digits-zeros : (k : ℕ) (s : Bytes) → all_digits (replicate k b'0' ++ s) ≡ all_digits s
unfolding all_digits
all_digits-zeros zero s = refl
all_digits-zeros (suc k) s = all_digits-zeros k s

length-zeros : (k : ℕ) (s : Bytes) → length (replicate k b'0' ++ s) ≡ k + length s
length-zeros zero s = omega arith
length-zeros (suc k) s = omega (arith, length-zeros k s)

-- The text that `next_as_string` returns, and that text behind as many zeros as make it 20 bytes or
-- fewer, is read back by `seq_to_uint64_t` as the number before the increment.
pub seq_to_uint64_t-next_as_string :
    (s : SequenceNumber) (k : ℕ)
    → s.sequence < 2 ^ 64
    → k + length (next_as_string s).0 ≤ 20
    → seq_to_uint64_t (replicate k b'0' ++ (next_as_string s).0) ≡ converted s.sequence
unfolding seq_to_uint64_t next_as_string fetch_add
seq_to_uint64_t-next_as_string s k h short =
    let text = to_string s.sequence in
    let digits_only = all_digits-zeros k text ∙ all_digits-All text (to_string-All s.sequence h) in
    let size = length-zeros k text in
    let fits : ltb 20 (length (replicate k b'0' ++ text)) ≡ false = ground arith in
    rw (fits, seq_to_uint64_t, digits_only, stoull-zeros k s.sequence h) (unfold extracted in refl)
