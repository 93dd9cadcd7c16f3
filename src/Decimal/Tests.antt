-- ===== src/Decimal/Tests.antt =====
-- Runs of the readers and the printer.
use blp_cache.Prelude.{[], codes, none, refl, some, ◌-◌, ◌^◌, ◌≡◌}
use blp_cache.Prelude.Int.{pos, negsuc}
use blp_cache.Decimal.{to_string, digits, stoi, stol, stoull, read_number, in_signed, in_unsigned}

printed : to_string (2 ^ 64 - 1) ≡ codes "18446744073709551615"
unfolding to_string digits
printed = refl

printed_zero : to_string 0 ≡ codes "0"
unfolding to_string digits
printed_zero = refl

read_unsigned :
    (stoull (codes "-1") ≡ some (2 ^ 64 - 1))
    × (stoull (codes " 12\t-1") ≡ some 12)
    × (stoull (codes "18446744073709551616") ≡ none)
    × (stoull (codes "b\t-1") ≡ none)
unfolding stoull read_number in_unsigned
read_unsigned = (refl, refl, refl, refl)

read_signed :
    (stoi (codes "-3") ≡ some (negsuc 2))
    × (stoi (codes "2147483648") ≡ none)
    × (stol (codes "2147483648") ≡ some (pos 2147483648))
    × (stol [] ≡ none)
unfolding stoi stol read_number in_signed
read_signed = (refl, refl, refl, refl)
