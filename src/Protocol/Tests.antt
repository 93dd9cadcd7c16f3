-- ===== src/Protocol/Tests.antt =====
-- A change that is serialized and read back.
use blp_cache.Wire.{be_value}
use blp_cache.Protocol.{
  take_text, read_value, read_key, read_cmd, read_sequence, take_bytes, serialize_entity,
  blank_entity, deserialize, DataEntity,
}
use blp_cache.Protocol.Entity.{deserialize_sound, deserialize-serialize_entity}
use blp_cache.Prelude.{Bytes, [], arith, codes, refl, true, ◌++◌, ◌∷◌, ◌≡◌}

abbrev change : DataEntity
change = record { sequence = 7; key = codes "k"; value = codes "v"; cmd = codes "SET" }

abbrev change_bytes : Bytes
change_bytes =
    0 ∷ 0 ∷ 0 ∷ 0 ∷ 0 ∷ 0 ∷ 0 ∷ 7 ∷ 0 ∷ 0 ∷ 0 ∷ 3 ∷ 83 ∷ 69 ∷ 84 ∷ 0 ∷ 0 ∷ 0 ∷ 1 ∷ 107 ∷ 0 ∷ 0 ∷ 0
    ∷ 1 ∷ 118 ∷ []

deserialize-serialize_entity_example :
    deserialize blank_entity (serialize_entity change ++ codes "x") ≡ (true, change)
deserialize-serialize_entity_example =
    deserialize-serialize_entity blank_entity change (codes "x")
      (record { sequence = omega arith; cmd = omega arith; key = omega arith; value = omega arith })

deserialize_sound_example :
    (r : Bytes) × (change_bytes ≡ serialize_entity (deserialize blank_entity change_bytes).1 ++ r)
unfolding deserialize take_bytes read_sequence read_cmd read_key read_value take_text be_value
deserialize_sound_example = deserialize_sound blank_entity change_bytes (omega arith) refl
