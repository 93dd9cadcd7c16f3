-- ===== src/Sequence.antt =====
-- `SequenceNumber` and `seq_to_uint64_t`, src/common/sequence_number.h and sequence_number.cpp.
pub mod Texts
pub mod Calls
mod Tests
use blp_cache.Decimal.{to_string, stoull, is_digit}
use blp_cache.Prelude.{
  Bool, Bytes, Option, [], if◌then◌else◌, length, ltb, none, not, some, true, ℕ, ◌%◌, ◌&&◌, ◌+◌,
  ◌^◌, ◌∷◌,
}

pub record SequenceNumber : Type 0 where
  pub sequence : ℕ

abbrev pub new_sequence : SequenceNumber
new_sequence = record { sequence = 0 }

abbrev pub current : SequenceNumber → ℕ
current s = s.sequence

-- `fetch_add(1)`: the number before the addition, and the object.
unfoldable pub fetch_add : SequenceNumber → ℕ × SequenceNumber
fetch_add s = (s.sequence, record { sequence = (s.sequence + 1) % 2 ^ 64 })

unfoldable pub next_number : SequenceNumber → ℕ × SequenceNumber
next_number = fetch_add

-- The padded text is written to a stream that is dropped.
unfoldable pub next_as_string : SequenceNumber → Bytes × SequenceNumber
next_as_string s = let (value, s') = fetch_add s in (to_string value, s')

-- What `seq_to_uint64_t` returns, or which exception it throws.
pub data Converted : Type 0 where
  converted : ℕ → Converted
  too_long : Converted
  non_digit : Converted
  conversion_failed : Converted

unfoldable pub all_digits : Bytes → Bool
all_digits [] = true
all_digits (c ∷ s) = is_digit c && all_digits s

unfoldable pub extracted : Option ℕ → Converted
extracted none = conversion_failed
extracted (some value) = converted value

-- Of a text of digits, `>>` reads what `std::stoull` reads, and fails where that throws.
unfoldable pub seq_to_uint64_t : Bytes → Converted
seq_to_uint64_t str =
    if ltb 20 (length str)
    then too_long
    else if not (all_digits str)
    then non_digit
    else extracted (stoull str)
