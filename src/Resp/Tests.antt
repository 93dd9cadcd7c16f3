-- ===== src/Resp/Tests.antt =====
-- Runs of the printer and the parser of records.
use blp_cache.Resp.RoundTrip.{try_parse-serialize}
use blp_cache.Prelude.{[], arith, codes, length, refl, ◌++◌, ◌∷◌, ◌≡◌}
use blp_cache.Resp.{
  Command, serialize, bulk_strings, bulk_string, try_parse, opening, array, bulks, bulk, payload,
  header, line, at_crlf, at_marker, need, find_crlf, frame, no_frame, thrown,
}
use blp_cache.Decimal.{to_string, digits, stoi, stol, read_number, in_signed}

set_command :
    serialize (codes "SET" ∷ codes "k" ∷ codes "a\r\n" ∷ [])
    ≡ codes "*3\r\n$3\r\nSET\r\n$1\r\nk\r\n$3\r\na\r\n\r\n"
unfolding serialize bulk_strings bulk_string to_string digits
set_command = refl

parse_examples :
    (try_parse (codes "*2\r\n$3\r\nDEL\r\n$2\r\n\r\n\r\n*1")
      ≡ frame (codes "DEL" ∷ codes "\r\n" ∷ []) 21)
    × (try_parse (codes "*2\r\n$3\r\nDEL\r\n$2\r\n\r\n") ≡ no_frame)
    × (try_parse (codes "*1\r\n$-1\r\n") ≡ frame ([] ∷ []) 9)
    × (try_parse (codes "*-1\r\n") ≡ thrown)
unfolding try_parse opening array bulks bulk payload header line at_crlf at_marker need find_crlf
    stoi stol read_number in_signed
parse_examples = (refl, refl, refl, refl)

abbrev del_command : Command
del_command = codes "DEL" ∷ codes "\r\n" ∷ []

try_parse-serialize_example :
    try_parse (serialize del_command ++ codes "*1")
    ≡ frame del_command (length (serialize del_command))
unfolding serialize bulk_strings bulk_string to_string digits
try_parse-serialize_example =
    try_parse-serialize del_command (codes "*1") (omega arith) (omega arith)
