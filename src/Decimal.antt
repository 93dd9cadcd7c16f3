-- ===== src/Decimal.antt =====
-- What the source uses of the C++ library to print and read numbers: `std::to_string` of an
-- unsigned number, and `std::stoi`, `std::stol`, `std::stoll` and `std::stoull` in base ten, where
-- `none` is the exception that each caller catches (`invalid_argument` or `out_of_range`).
pub mod RoundTrip
mod Tests
use blp_cache.Prelude.{
  Bool, Bytes, Option, [], false, if◌then◌else◌, leb, ltb, none, some, suc, true, zero, ℕ, ◌%◌,
  ◌&&◌, ◌*◌, ◌+◌, ◌-◌, ◌/◌, ◌==◌, ◌^◌, ◌||◌, ◌∷◌, ◌>>=◌,
}
use blp_cache.Prelude.Int.{ℤ, signed}

-- The digits of `n`, last one first written, in front of `out`; `fuel` bounds their number.
unfoldable pub digits : ℕ → ℕ → Bytes → Bytes
digits zero n out = out
digits (suc fuel) n out =
    let rest = digits fuel (n / 10) ((b'0' + n % 10) ∷ out) in
    if ltb n 10 then (b'0' + n) ∷ out else rest

-- A number of 64 bits has at most twenty digits.
unfoldable pub to_string : ℕ → Bytes
to_string n = digits 20 n []

abbrev pub is_digit : ℕ → Bool
is_digit c = leb b'0' c && leb c b'9'

-- `isspace` in the C locale.
abbrev pub is_space : ℕ → Bool
is_space c = c == 32 || leb 9 c && leb c 13

unfoldable pub skip_space : Bytes → Bytes
skip_space [] = []
skip_space (c ∷ s) = let rest = skip_space s in if is_space c then rest else c ∷ s

-- The longest run of digits, read behind the number `n`.
unfoldable pub read_digits : ℕ → Bytes → ℕ
read_digits n [] = n
read_digits n (c ∷ s) =
    let rest = read_digits (n * 10 + (c - b'0')) s in if is_digit c then rest else n

-- At least one digit is wanted.
unfoldable pub magnitude : Bytes → Option ℕ
unfolding read_digits
magnitude [] = none
magnitude (c ∷ s) = if is_digit c then some (read_digits 0 (c ∷ s)) else none

-- A sign (`true` for a minus) and a magnitude; what stands behind the digits is not looked at.
unfoldable pub signed_number : Bytes → Option (Bool × ℕ)
unfolding magnitude
signed_number [] = none
signed_number (c ∷ s) =
    if c == b'-'
    then (do m ← magnitude s; some (true, m))
    else if c == b'+'
    then (do m ← magnitude s; some (false, m))
    else (do m ← magnitude (c ∷ s); some (false, m))

unfoldable pub read_number : Bytes → Option (Bool × ℕ)
unfolding skip_space signed_number
read_number s = signed_number (skip_space s)

-- A signed result of `w` + 1 bits, refused out of range.
unfoldable pub in_signed : ℕ → Bool × ℕ → Option ℤ
in_signed half (negative, m) =
    if leb m (if negative then half else half - 1) then some (signed negative m) else none

unfoldable pub stoi : Bytes → Option ℤ
stoi s = do r ← read_number s; in_signed (2 ^ 31) r

unfoldable pub stol : Bytes → Option ℤ
stol s = do r ← read_number s; in_signed (2 ^ 63) r

-- `long long` has the range of `long` on the platforms of the build file.
unfoldable pub stoll : Bytes → Option ℤ
stoll s = do r ← read_number s; in_signed (2 ^ 63) r

-- `strtoull` negates the magnitude behind a minus sign in 64 bits.
unfoldable pub in_unsigned : Bool × ℕ → Option ℕ
in_unsigned (negative, m) =
    if ltb m (2 ^ 64) then some (if negative then (2 ^ 64 - m) % 2 ^ 64 else m) else none

unfoldable pub stoull : Bytes → Option ℕ
stoull s = do r ← read_number s; in_unsigned r
