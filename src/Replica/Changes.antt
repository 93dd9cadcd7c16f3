-- ===== src/Replica/Changes.antt =====
-- A change on the master arrives at the replica as the same change.
use blp_cache.Protocol.Entity.{deserialize-serialize_entity}
use blp_cache.Protocol.{serialize_entity, blank_entity, deserialize, DataEntity}
use blp_cache.Aof.{Aof}
use blp_cache.Db.{remove, put, Storage, LevelDb}
use blp_cache.Message.{Message, from_data_entity, to_data_entity}
use blp_cache.Replica.{
  message, apply_entity, apply_message, entity_message, on_del, on_set, on_command,
}
use blp_cache.Prelude.{
  Bool, Bytes, [], ap, append-nil, arith, codes, length, refl, same, sym, true, ℕ, ◌<◌, ◌^◌, ◌∙◌,
  ◌∷◌, ◌≡◌,
}

-- A `SET` of three parts and a `DEL` of two become messages from which the replica reads, whatever it
-- read before, exactly the change: for a `SET` it puts the value under the key, and for a `DEL` it
-- removes the key. The texts are shorter than 2 ^ 32 bytes, and the offset is below 2 ^ 64.
pub apply_message-on_command :
    {l : LevelDb} (wake : Aof → Aof) (db : Storage l) (offset : ℕ) (key value : Bytes)
    → offset < 2 ^ 64
    → length key < 2 ^ 32
    → length value < 2 ^ 32
    → ((m : Message) × (on_command offset (codes "SET" ∷ key ∷ value ∷ []) ≡ message m)
        × (apply_message wake db m ≡ (put wake db key value).1))
      × ((m : Message) × (on_command offset (codes "DEL" ∷ key ∷ []) ≡ message m)
          × (apply_message wake db m ≡ (remove wake db key).1))
unfolding on_command on_set on_del entity_message apply_message apply_entity to_data_entity
    from_data_entity same
apply_message-on_command {l} wake db offset key value small_offset small_key small_value = (
  (_, refl, ap (apply_second) (read (codes "SET") value (omega arith) small_value)),
  (_, refl, ap (apply_second) (read (codes "DEL") [] (omega arith) (omega arith))),
)
  where
    apply_second : Bool × DataEntity → Storage l
    apply_second p = apply_entity wake db p.1

    read :
        (cmd v : Bytes)
        → length cmd < 2 ^ 32
        → length v < 2 ^ 32
        → deserialize blank_entity
            (serialize_entity (record { sequence = offset; key = key; value = v; cmd = cmd }))
          ≡ (true, record { sequence = offset; key = key; value = v; cmd = cmd })
    read cmd v c h =
        ap (deserialize blank_entity) (sym (append-nil _))
        ∙ deserialize-serialize_entity blank_entity _ []
            (record { sequence = small_offset; cmd = c; key = small_key; value = h })
