-- ===== src/Protocol.antt =====
-- The messages between master and replica, src/replica/protocol.h, on a little-endian host.
pub mod Entity
mod Tests
use blp_cache.Wire.{be_bytes, be_value}
use blp_cache.Prelude.{
  Bool, Bytes, Option, [], drop, false, if◌then◌else◌, leb, length, none, some, take, true, ℕ, ◌%◌,
  ◌++◌, ◌^◌, ◌>>=◌,
}

-- `DataEntity`: a replicated change.
pub record DataEntity : Type 0 where
  pub sequence : ℕ
  pub key : Bytes
  pub value : Bytes
  pub cmd : Bytes

abbrev pub blank_entity : DataEntity
blank_entity = record { sequence = 0; key = []; value = []; cmd = [] }

-- A text behind its length, which is cut to 32 bits.
unfoldable pub put_text : Bytes → Bytes
put_text s = be_bytes 4 (length s % 2 ^ 32) ++ s

unfoldable pub serialize_entity : DataEntity → Bytes
serialize_entity e =
    be_bytes 8 e.sequence ++ (put_text e.cmd ++ (put_text e.key ++ put_text e.value))

-- The first `n` bytes and the rest, if there are as many: `off + n > len` refuses.
unfoldable pub take_bytes : ℕ → Bytes → Option (Bytes × Bytes)
take_bytes n s = if leb n (length s) then some (take n s, drop n s) else none

-- A length of 32 bits, and as many bytes.
unfoldable pub take_text : Bytes → Option (Bytes × Bytes)
take_text s = do (size, rest) ← take_bytes 4 s; take_bytes (be_value 0 size) rest

unfoldable pub read_value : DataEntity → Option (Bytes × Bytes) → Bool × DataEntity
read_value e none = (false, e)
read_value e (some (value, rest)) = (true, record e { value = value })

unfoldable pub read_key : DataEntity → Option (Bytes × Bytes) → Bool × DataEntity
read_key e none = (false, e)
read_key e (some (key, rest)) = read_value (record e { key = key }) (take_text rest)

unfoldable pub read_cmd : DataEntity → Option (Bytes × Bytes) → Bool × DataEntity
read_cmd e none = (false, e)
read_cmd e (some (cmd, rest)) = read_key (record e { cmd = cmd }) (take_text rest)

unfoldable pub read_sequence : DataEntity → Option (Bytes × Bytes) → Bool × DataEntity
read_sequence e none = (false, e)
read_sequence e (some (seq, rest)) =
    read_cmd (record e { sequence = be_value 0 seq }) (take_text rest)

-- `deserialize(data, len)` of an object: the result, and the object, with the fields that were read
-- before a refusal.
unfoldable pub deserialize : DataEntity → Bytes → Bool × DataEntity
deserialize e input = read_sequence e (take_bytes 8 input)
