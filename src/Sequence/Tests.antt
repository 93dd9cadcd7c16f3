-- ===== src/Sequence/Tests.antt =====
-- Sequence numbers at work.
use blp_cache.Decimal.{digits, to_string}
use blp_cache.Sequence.{converted, seq_to_uint64_t, fetch_add, next_as_string, SequenceNumber}
use blp_cache.Sequence.Texts.{seq_to_uint64_t-next_as_string}
use blp_cache.Prelude.{arith, replicate, ◌++◌, ◌-◌, ◌^◌, ◌≡◌}

-- One call before the numbers start again.
abbrev late : SequenceNumber
late = record { sequence = 2 ^ 64 - 1 }

seq_to_uint64_t-next_as_string_example :
    seq_to_uint64_t (replicate 17 b'0' ++ (next_as_string (record { sequence = 107 })).0)
    ≡ converted 107
unfolding next_as_string fetch_add to_string digits
seq_to_uint64_t-next_as_string_example =
    seq_to_uint64_t-next_as_string (record { sequence = 107 }) 17 (omega arith) (omega arith)
