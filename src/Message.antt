-- ===== src/Message.antt =====
-- `Message` of src/replica/protocol.h: how a message is sent and received, and the loops that send and
-- receive them, on a little-endian host.
pub mod Transfer
pub mod Receipt
pub mod Oversize
mod Tests
use blp_cache.Wire.{be_value, be_bytes, byte_swap64}
use blp_cache.Socket.{and_then, send_all, recv_all, Net}
use blp_cache.Protocol.{DataEntity, serialize_entity, deserialize}
use blp_cache.Prelude.{
  Bool, Bytes, [], false, if◌then◌else◌, length, none, replicate, some, suc, true, zero, ℕ, ◌%◌,
  ◌*◌, ◌++◌, ◌+◌, ◌-◌, ◌^◌, ◌∷◌,
}

-- The values of `MessageType`. A received byte is kept whatever it is.
abbrev pub full_sync : ℕ
full_sync = 1

abbrev pub incr_sync : ℕ
incr_sync = 2

abbrev pub heartbeat : ℕ
heartbeat = 3

abbrev pub ack : ℕ
ack = 4

abbrev pub magic_number : ℕ
magic_number = 0x9798

pub record Message : Type 0 where
  pub kind : ℕ
  pub magic : ℕ
  pub len : ℕ
  pub offset : ℕ
  pub payload : Bytes

-- `Message m;`
abbrev pub blank_message : Message
blank_message = record { kind = ack; magic = magic_number; len = 0; offset = 0; payload = [] }

-- `fromDataEntity(t, e)`
unfoldable pub from_data_entity : ℕ → DataEntity → Message
from_data_entity kind e = record {
  kind = kind;
  magic = magic_number;
  len = length (serialize_entity e);
  offset = e.sequence;
  payload = serialize_entity e;
}

-- `toDataEntity(e)`
unfoldable pub to_data_entity : Message → DataEntity → Bool × DataEntity
to_data_entity m e = deserialize e m.payload

unfoldable pub send_payload : Bytes → Net Bool
send_payload [] s = some (true, s)
send_payload (b ∷ payload) s = send_all (b ∷ payload) s

-- `sendToSocket`: the offset is cut to one byte.
unfoldable pub send_message : Message → Net Bool
send_message m = and_then (send_all ((m.kind % 256) ∷ [])) (
    and_then (send_all ((m.offset % 256) ∷ [])) (
      and_then (send_all (be_bytes 2 m.magic))
        (and_then (send_all (be_bytes 8 m.len)) (send_payload m.payload))))

-- The number that the bytes of an integer in memory stand for.
unfoldable pub in_memory : Bytes → ℕ
in_memory [] = 0
in_memory (b ∷ s) = b + 256 * in_memory s

-- A part of `recvFromSocket`: receive `size` bytes, return false on failure, else store them and go on.
unfoldable pub receive :
    ℕ
    → (Bytes → Message → Message)
    → (Message → Net (Bool × Message))
    → Message
    → Net (Bool × Message)
receive size store rest m s = elim (recv_all size s) [
  | none ↦ none
  | some ((ok, got), s') ↦ if ok then rest (store got m) s' else some ((false, m), s')
]

-- The payload is resized and received; a failed call leaves zeros in what did not arrive.
unfoldable pub receive_payload : ℕ → Message → Net (Bool × Message)
receive_payload zero m s = some ((true, record m { payload = [] }), s)
receive_payload (suc size) m s = elim (recv_all (suc size) s) [
  | none ↦ none
  | some ((ok, got), s') ↦
      some ((ok, record m { payload = got ++ replicate (suc size - length got) 0 }), s')
]

-- `recvFromSocket`: `be64toh` is applied to the offset's byte and to the two bytes of the magic number,
-- whose result is cut to 16 bits; `len` is not written.
unfoldable pub receive_length : Message → Net (Bool × Message)
receive_length m s = elim (recv_all 8 s) [
  | none ↦ none
  | some ((ok, got), s') ↦
      if ok then receive_payload (be_value 0 got) m s' else some ((false, m), s')
]

unfoldable pub receive_message : Message → Net (Bool × Message)
receive_message =
    receive 1 (λ got m. record m { kind = in_memory got })
      (receive 1 (λ got m. record m { offset = byte_swap64 (in_memory got) })
        (receive 2 (λ got m. record m { magic = byte_swap64 (in_memory got) % 2 ^ 16 })
          receive_length))
