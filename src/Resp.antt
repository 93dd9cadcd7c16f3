-- ===== src/Resp.antt =====
-- The record format of the append-only file: `serializeToRESP`, `findCRLF` and `tryParseRESPArray`
-- of src/common/aof.cpp. A place in the buffer is the number of bytes before it with the bytes from
-- it on, so `buf[pos]` is the first byte of `rest`.
mod Tests
pub mod Cursors
pub mod Stable
pub mod Frames
pub mod RoundTrip
use blp_cache.Decimal.{to_string, stoi, stol}
use blp_cache.Prelude.{
  Bool, Bytes, List, Option, [], drop, false, if◌then◌else◌, leb, length, none, some, suc, take,
  zero, ℕ, ◌%◌, ◌&&◌, ◌++◌, ◌+◌, ◌==◌, ◌^◌, ◌∷◌, ◌>>=◌,
}
use mathlib.Core.Option
use blp_cache.Prelude.Int.{ℤ, pos, negsuc}

-- A command: its name and arguments.
abbrev pub Command : Type 0
Command = List Bytes

abbrev pub crlf : Bytes
crlf = 13 ∷ 10 ∷ []

-- One round of the loop of `serializeToRESP`.
unfoldable pub bulk_string : Bytes → Bytes
bulk_string p = b'$' ∷ (to_string (length p) ++ (crlf ++ (p ++ crlf)))

unfoldable pub bulk_strings : List Bytes → Bytes
bulk_strings [] = []
bulk_strings (p ∷ parts) = bulk_string p ++ bulk_strings parts

unfoldable pub serialize : Command → Bytes
serialize parts = b'*' ∷ (to_string (length parts) ++ (crlf ++ bulk_strings parts))

-- `findCRLF(buf, len, start)`, counted from `start`; `none` is `npos`.
unfoldable pub find_crlf : Bytes → Option ℕ
find_crlf [] = none
find_crlf (a ∷ []) = none
find_crlf (a ∷ b ∷ s) =
    let later = Option.map suc (find_crlf (b ∷ s)) in if a == 13 && b == 10 then some 0 else later

pub record Cursor : Type 0 where
  pub len : ℕ
  pub place : ℕ
  pub rest : Bytes

abbrev pub start : Bytes → Cursor
start buf = record { len = length buf; place = 0; rest = buf }

-- `pos += n`
abbrev pub move : ℕ → Cursor → Cursor
move n c = record c { place = c.place + n; rest = drop n c.rest }

-- The closure `need`: the sum is a `size_t`.
unfoldable pub need : Cursor → ℕ → Bool
need c n = leb ((c.place + n) % 2 ^ 64) c.len

unfoldable pub at_marker : ℕ → Bytes → Bool
at_marker marker [] = false
at_marker marker (b ∷ s) = b == marker

unfoldable pub at_crlf : Bytes → Bool
at_crlf (a ∷ b ∷ s) = a == 13 && b == 10
at_crlf _ = false

-- The text up to the next CRLF, and the place behind it.
unfoldable pub line : Cursor → Option (Bytes × Cursor)
line c = Option.map (λ rn. (take rn c.rest, move (rn + 2) c)) (find_crlf c.rest)

-- A marker (`*` or `$`) and the text of the number behind it.
unfoldable pub header : ℕ → Cursor → Option (Bytes × Cursor)
header marker c = if need c 1 && at_marker marker c.rest then line (move 1 c) else none

-- The bytes of a bulk string, its CRLF checked.
unfoldable pub payload : ℤ → Cursor → Option (Bytes × Cursor)
payload (negsuc n) c = some ([], c)
payload (pos n) c =
    let behind = move n c in
    if need c (n + 2) && (need behind 2 && at_crlf behind.rest)
    then some (take n c.rest, move 2 behind)
    else none

-- One round of the loop of `tryParseRESPArray`.
unfoldable pub bulk : Cursor → Option (Bytes × Cursor)
bulk c = do (text, behind) ← header b'$' c; slen ← stol text; payload slen behind

-- `no_frame` is a false return, and `thrown` an exception that leaves the function.
pub data Parse : Type 0 where
  frame : Command → ℕ → Parse
  no_frame : Parse
  thrown : Parse

unfoldable pub bulks : ℕ → Cursor → List Bytes → Parse
bulks zero c parts = frame parts c.place
bulks (suc rounds) c parts = elim (bulk c) [
  | none ↦ no_frame
  | some (p, c') ↦ bulks rounds c' (parts ++ (p ∷ []))
]

-- `parts.reserve(num)` of a negative number asks for more than any vector can hold, and throws.
unfoldable pub array : ℤ → Cursor → Parse
array (negsuc n) c = thrown
array (pos n) c = bulks n c []

unfoldable pub opening : Bytes → Option (ℤ × Cursor)
opening buf = do (text, behind) ← header b'*' (start buf); num ← stoi text; some (num, behind)

unfoldable pub try_parse : Bytes → Parse
try_parse buf = elim (opening buf) [ none ↦ no_frame | some (num, behind) ↦ array num behind ]
