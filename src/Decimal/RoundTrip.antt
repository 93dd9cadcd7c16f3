-- ===== src/Decimal/RoundTrip.antt =====
-- Printing a number and reading it back.
use blp_cache.Prelude.{
  All, Bool-cases, Bytes, [], ap, append-nil, arith, false, inl, inr, length, ltb, refl, some, suc,
  sym, zero, ℕ, ◌%◌, ◌*◌, ◌++◌, ◌+◌, ◌-◌, ◌/◌, ◌<◌, ◌^◌, ◌∙◌, ◌∷◌, ◌≡◌, ◌≤◌,
}
use blp_cache.Prelude.Int.{pos}
use blp_cache.Decimal.{
  in_unsigned, stoull, stoll, stol, in_signed, digits, to_string, is_digit, skip_space, read_digits,
  magnitude, signed_number, read_number, stoi,
}

abbrev pub IsDigit : ℕ → Type 0
IsDigit c = (b'0' ≤ c) × (c ≤ b'9')

abbrev pub ten_pow : ℕ → ℕ
ten_pow zero = 1
ten_pow (suc k) = 10 * ten_pow k

-- A text that a run of digits ends at.
abbrev pub EndsRun : Bytes → Type 0
EndsRun [] = Unit
EndsRun (c ∷ s) = is_digit c ≡ false

read_digits-digit :
    (n c : ℕ) (s : Bytes) → IsDigit c → read_digits n (c ∷ s) ≡ read_digits (n * 10 + (c - b'0')) s
unfolding read_digits
read_digits-digit n c s h = ground arith

read_digits-end : (n : ℕ) (s : Bytes) → EndsRun s → read_digits n s ≡ n
unfolding read_digits
read_digits-end n [] h = refl
read_digits-end n (c ∷ s) h = ground arith

-- Reading the digits of `n` and what follows them is reading what follows, behind `n`.
read_digits-digits :
    (fuel n : ℕ) (out : Bytes)
    → n < ten_pow fuel
    → 0 < fuel
    → read_digits 0 (digits fuel n out) ≡ read_digits n out
unfolding digits
read_digits-digits zero n out h p = absurd (omega arith)
read_digits-digits (suc fuel) n out h p = elim (Bool-cases (ltb n 10)) [
  | inl e ↦ rw e (
      read_digits-digit 0 (b'0' + n) out (ground arith) ∙ ap (λ k. read_digits k out) (omega arith))
  | inr e ↦ rw e (
      read_digits-digits fuel (n / 10) ((b'0' + n % 10) ∷ out) (omega arith) (fuel_pos fuel e h)
      ∙ read_digits-digit (n / 10) (b'0' + n % 10) out (omega arith)
      ∙ ap (λ k. read_digits k out) (omega arith))
]
  where
    fuel_pos : (k : ℕ) → ltb n 10 ≡ false → n < ten_pow (suc k) → 0 < k
    fuel_pos zero e h = absurd (ground arith)
    fuel_pos (suc k) e h = omega arith

-- The first byte of the digits is a digit.
abbrev pub StartsRun : Bytes → Type 0
StartsRun [] = ⊥
StartsRun (c ∷ s) = IsDigit c

digits-StartsRun_out : (fuel n : ℕ) (out : Bytes) → StartsRun out → StartsRun (digits fuel n out)
unfolding digits
digits-StartsRun_out zero n out h = h
digits-StartsRun_out (suc fuel) n out h = elim (Bool-cases (ltb n 10)) [
  | inl e ↦ rw e (ground arith)
  | inr e ↦ rw e (digits-StartsRun_out fuel (n / 10) _ (omega arith))
]

pub digits-StartsRun : (fuel n : ℕ) (out : Bytes) → 0 < fuel → StartsRun (digits fuel n out)
unfolding digits
digits-StartsRun zero n out p = absurd (omega arith)
digits-StartsRun (suc fuel) n out p = elim (Bool-cases (ltb n 10)) [
  | inl e ↦ rw e (ground arith)
  | inr e ↦ rw e (digits-StartsRun_out fuel (n / 10) _ (omega arith))
]

digits-append :
    (fuel n : ℕ) (out rest : Bytes) → digits fuel n out ++ rest ≡ digits fuel n (out ++ rest)
unfolding digits
digits-append zero n out rest = refl
digits-append (suc fuel) n out rest =
    ground (arith, digits-append fuel (n / 10) ((b'0' + n % 10) ∷ out) rest)

-- A text that starts with a digit is read from its first byte on.
pub read_number-StartsRun :
    (s : Bytes) → StartsRun s → read_number s ≡ some (false, read_digits 0 s)
unfolding read_number signed_number magnitude skip_space
read_number-StartsRun [] h = absurd h
read_number-StartsRun (c ∷ s) h = ground arith

-- The print of a number, with anything behind it that is no digit, is read as the number.
pub read_number-to_string :
    (n : ℕ) (rest : Bytes)
    → n < 2 ^ 64
    → EndsRun rest
    → read_number (to_string n ++ rest) ≡ some (false, n)
unfolding to_string
read_number-to_string n rest h e = rw (digits-append 20 n [] rest) (
    read_number-StartsRun (digits 20 n rest) (digits-StartsRun 20 n rest (omega arith))
    ∙ ap (λ k. some (false, k))
        (read_digits-digits 20 n rest (omega arith) (omega arith) ∙ read_digits-end n rest e))

pub read_number-to_string_all : (n : ℕ) → n < 2 ^ 64 → read_number (to_string n) ≡ some (false, n)
read_number-to_string_all n h =
    ap read_number (sym (append-nil (to_string n))) ∙ read_number-to_string n [] h tt

pub stoi-to_string : (n : ℕ) → n < 2 ^ 31 → stoi (to_string n) ≡ some (pos n)
unfolding stoi in_signed
stoi-to_string n h = rw (read_number-to_string_all n (omega arith)) (ground arith)

pub stol-to_string : (n : ℕ) → n < 2 ^ 63 → stol (to_string n) ≡ some (pos n)
unfolding stol in_signed
stol-to_string n h = rw (read_number-to_string_all n (omega arith)) (ground arith)

pub stoll-to_string : (n : ℕ) → n < 2 ^ 63 → stoll (to_string n) ≡ some (pos n)
unfolding stoll in_signed
stoll-to_string n h = rw (read_number-to_string_all n (omega arith)) (ground arith)

-- An unsigned number of 64 bits is read back, whatever stands behind its digits.
pub stoull-to_string :
    (n : ℕ) (rest : Bytes) → n < 2 ^ 64 → EndsRun rest → stoull (to_string n ++ rest) ≡ some n
unfolding stoull in_unsigned
stoull-to_string n rest h e = rw (read_number-to_string n rest h e) (ground arith)

-- The bytes of a print are digits.
digits-All :
    (fuel n : ℕ) (out : Bytes)
    → All IsDigit out
    → n < ten_pow fuel
    → All IsDigit (digits fuel n out)
unfolding digits
digits-All zero n out h b = h
digits-All (suc fuel) n out h b = elim (Bool-cases (ltb n 10)) [
  | inl e ↦ rw e ((ground arith, h))
  | inr e ↦ rw e (digits-All fuel (n / 10) _ ((omega arith, h)) (omega arith))
]

pub to_string-All : (n : ℕ) → n < 2 ^ 64 → All IsDigit (to_string n)
unfolding to_string
to_string-All n h = digits-All 20 n [] tt (omega arith)

digits-length : (fuel n : ℕ) (out : Bytes) → length (digits fuel n out) ≤ fuel + length out
unfolding digits
digits-length zero n out = omega arith
digits-length (suc fuel) n out = ground (arith, digits-length fuel (n / 10) ((b'0' + n % 10) ∷ out))

pub length-to_string : (n : ℕ) → length (to_string n) ≤ 20
unfolding to_string
length-to_string n = omega (arith, digits-length 20 n [])
