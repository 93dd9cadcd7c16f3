-- ===== src/Replica/Stream.antt =====
-- A stream of changes from the master's listener to the storage of the replica.
use blp_cache.Message.Receipt.{receive_message-Receives}
use blp_cache.Message.Transfer.{send_message-all, Sends, Receives, on_wire}
use blp_cache.Socket.{Socket}
use blp_cache.Aof.{Aof}
use blp_cache.Wire.{be_bytes, length-be_bytes}
use blp_cache.Resp.{Command}
use blp_cache.Db.{remove, put, Storage, LevelDb}
use blp_cache.Protocol.Entity.{deserialize-serialize_entity, IsSmall}
use blp_cache.Protocol.{blank_entity, deserialize, serialize_entity, put_text, DataEntity}
use blp_cache.Replica.{
  replica_rounds, send_reactions, entity_message, replica_round, apply_message, on_del,
  apply_entity, on_set, on_command, message,
}
use blp_cache.Message.{blank_message, to_data_entity, from_data_entity, Message, incr_sync}
use blp_cache.Prelude.{
  All, Bool, Bytes, List, [], ap, append-nil, append_assoc, arith, codes, length, length-append,
  map, refl, same, some, sym, true, ℕ, ◌%◌, ◌++◌, ◌+◌, ◌<◌, ◌^◌, ◌∙◌, ◌∷◌, ◌≡◌,
}

pub data Change : Type 0 where
  set_change : (key value : Bytes) → Change
  del_change : (key : Bytes) → Change

-- The command that the log holds for a change, and what the master's storage makes of it.
abbrev pub logged_change : Change → Command
logged_change (set_change key value) = codes "SET" ∷ key ∷ value ∷ []
logged_change (del_change key) = codes "DEL" ∷ key ∷ []

abbrev pub IsSmallChange : Change → Type 0
IsSmallChange (set_change key value) = (length key < 2 ^ 32) × (length value < 2 ^ 32)
IsSmallChange (del_change key) = length key < 2 ^ 32

abbrev pub change_entity : ℕ → Change → DataEntity
change_entity offset (set_change key value) = record {
  sequence = offset;
  key = key;
  value = value;
  cmd = codes "SET";
}
change_entity offset (del_change key) = record {
  sequence = offset;
  key = key;
  value = [];
  cmd = codes "DEL";
}

abbrev pub change_message : ℕ → Change → Message
change_message offset c = from_data_entity incr_sync (change_entity offset c)

pub change_entity-IsSmall :
    (offset : ℕ) (c : Change) → offset < 2 ^ 64 → IsSmallChange c → IsSmall (change_entity offset c)
change_entity-IsSmall offset (set_change key value) h (k, v) = record {
  sequence = h;
  cmd = omega arith;
  key = k;
  value = v;
}
change_entity-IsSmall offset (del_change key) h k = record {
  sequence = h;
  cmd = omega arith;
  key = k;
  value = omega arith;
}

on_command-change :
    (offset : ℕ) (c : Change)
    → on_command offset (logged_change c) ≡ message (change_message offset c)
unfolding on_command on_set on_del entity_message same
on_command-change offset (set_change key value) = refl
on_command-change offset (del_change key) = refl

length-put_text : (s : Bytes) → length (put_text s) ≡ 4 + length s
unfolding put_text
length-put_text s =
    length-append (be_bytes 4 (length s % 2 ^ 32)) s
    ∙ ap (λ (n : ℕ). n + length s) (length-be_bytes 4 (length s % 2 ^ 32))

length-serialize_entity :
    (e : DataEntity)
    → length (serialize_entity e) ≡ 20 + length e.cmd + length e.key + length e.value
unfolding serialize_entity
length-serialize_entity e = omega (
  arith,
  length-be_bytes 8 e.sequence,
  length-append (be_bytes 8 e.sequence) (put_text e.cmd ++ (put_text e.key ++ put_text e.value)),
  length-append (put_text e.cmd) (put_text e.key ++ put_text e.value),
  length-append (put_text e.key) (put_text e.value),
  length-put_text e.cmd,
  length-put_text e.key,
  length-put_text e.value,
)

pub small_len : (e : DataEntity) → IsSmall e → length (serialize_entity e) < 2 ^ 64
small_len e small = omega (arith, length-serialize_entity e, small.cmd, small.key, small.value)

deserialize-change :
    (offset : ℕ) (c : Change)
    → IsSmall (change_entity offset c)
    → deserialize blank_entity (serialize_entity (change_entity offset c))
      ≡ (true, change_entity offset c)
deserialize-change offset c small =
    ap (deserialize blank_entity) (sym (append-nil _))
    ∙ deserialize-serialize_entity blank_entity (change_entity offset c) [] small

-- The bytes of the messages for some changes, and how many those are.
abbrev pub stream : ℕ → List Change → Bytes
stream offset [] = []
stream offset (c ∷ cs) = on_wire (change_message offset c) ++ stream offset cs

abbrev pub stream_size : ℕ → List Change → ℕ
stream_size offset [] = 0
stream_size offset (c ∷ cs) =
    12 + (length (serialize_entity (change_entity offset c)) + stream_size offset cs)

-- The master's side: the callbacks send exactly the stream, where the kernel makes progress.
send_reactions-changes :
    (offset : ℕ) (cs : List Change) (s : Socket)
    → Sends s (stream_size offset cs)
    → (t : Socket) × (send_reactions (map (on_command offset) (map logged_change cs)) s ≡ some t)
      × (t.wire ≡ s.wire ++ stream offset cs)
unfolding send_reactions
send_reactions-changes offset [] s h = (s, refl, sym (append-nil s.wire))
send_reactions-changes offset (c ∷ cs) s h =
    let (t, e, w, left) =
      send_message-all (change_message offset c) (stream_size offset cs) s
        (unfold from_data_entity in h) in
    let (u, f, x) = send_reactions-changes offset cs t left in
    (
      u,
      rw (on_command-change offset c, send_reactions, e) f,
      x
          ∙ ap (λ (b : Bytes). b ++ stream offset cs) w
          ∙ append_assoc s.wire (on_wire (change_message offset c)) (stream offset cs),
    )

module _ {l : LevelDb} (wake : Aof → Aof) where
  abbrev pub changed : Storage l → Change → Storage l
  changed db (set_change key value) = (put wake db key value).1
  changed db (del_change key) = (remove wake db key).1

  abbrev pub changed_all : Storage l → List Change → Storage l
  changed_all db [] = db
  changed_all db (c ∷ cs) = changed_all (changed db c) cs

  apply_entity-change :
      (db : Storage l) (offset : ℕ) (c : Change)
      → apply_entity wake db (change_entity offset c) ≡ changed db c
  unfolding apply_entity same
  apply_entity-change db offset (set_change key value) = refl
  apply_entity-change db offset (del_change key) = refl

  apply_message-change :
      (db : Storage l) (offset : ℕ) (c : Change) (m : Message)
      → m.kind ≡ incr_sync
      → m.payload ≡ serialize_entity (change_entity offset c)
      → IsSmall (change_entity offset c)
      → apply_message wake db m ≡ changed db c
  unfolding apply_message to_data_entity
  apply_message-change db offset c m e p small =
      let read : (to_data_entity m blank_entity).1 ≡ change_entity offset c =
        ap (λ (b : Bytes). (deserialize blank_entity b).1) p
        ∙ ap (λ (o : Bool × DataEntity). o.1) (deserialize-change offset c small) in
      rw (e, apply_message) (ap (apply_entity wake db) read ∙ apply_entity-change db offset c)

  -- One change, received by the replica.
  pub replica_round-change :
      (db : Storage l) (offset : ℕ) (c : Change) (r : Bytes) (n : ℕ) (s : Socket)
      → offset < 2 ^ 64
      → IsSmallChange c
      → s.incoming ≡ on_wire (change_message offset c) ++ r
      → Receives s (12 + (length (serialize_entity (change_entity offset c)) + n))
      → (t : Socket) × (replica_round wake db s ≡ some (changed db c, t))
        × (t.incoming ≡ r)
        × Receives t n
  unfolding replica_round from_data_entity
  replica_round-change db offset c r n s h small i enough =
      let small' = change_entity-IsSmall offset c h small in
      let (t, e, j, left) =
        receive_message-Receives (change_message offset c) blank_message r n s refl
          (small_len (change_entity offset c) small') i enough in
      (
        t,
        rw (e, replica_round)
            (ap (λ (d : Storage l). some (d, t))
              (apply_message-change db offset c _ refl refl small')),
        j,
        left,
      )

  pub replica_rounds-stream :
      (offset : ℕ) (cs : List Change) (db : Storage l) (s : Socket)
      → offset < 2 ^ 64
      → All IsSmallChange cs
      → s.incoming ≡ stream offset cs
      → Receives s (stream_size offset cs)
      → (t : Socket) × (replica_rounds (length cs) wake db s ≡ some (changed_all db cs, t))
        × (t.incoming ≡ [])
  unfolding replica_rounds
  replica_rounds-stream offset [] db s h small i enough = (s, refl, i)
  replica_rounds-stream offset (c ∷ cs) db s h (small, smalls) i enough =
      let (t, e, j, left) =
        replica_round-change db offset c (stream offset cs) (stream_size offset cs) s h small i
          enough in
      let (u, f, k) = replica_rounds-stream offset cs (changed db c) t h smalls j left in
      (u, rw (e, replica_rounds) f, k)

  -- The changes that one listener reads behind the offset become, on the replica, the same changes: with
  -- sends that make progress, its callbacks send exactly `stream`, a message for each change; when this
  -- arrives, and the replica's receives make progress, as many rounds of its loop put and remove the same
  -- keys and values in the same order, and take every byte. The texts are shorter than 2 ^ 32 bytes, the
  -- offset is below 2 ^ 64, and an answer of the kernel for each byte is enough.
  pub replica_rounds-send_reactions :
      (offset : ℕ) (cs : List Change) (db : Storage l) (s r : Socket)
      → offset < 2 ^ 64
      → All IsSmallChange cs
      → s.wire ≡ []
      → r.incoming ≡ stream offset cs
      → Sends s (stream_size offset cs)
      → Receives r (stream_size offset cs)
      → (t : Socket) × (u : Socket) × (send_reactions
            (map (on_command offset) (map logged_change cs))
            s
          ≡ some t)
        × (t.wire ≡ r.incoming)
        × (replica_rounds (length cs) wake db r ≡ some (changed_all db cs, u))
        × (u.incoming ≡ [])
  replica_rounds-send_reactions offset cs db s r h small empty arrives sends receives =
      let (t, e, w) = send_reactions-changes offset cs s sends in
      let (u, f, k) = replica_rounds-stream offset cs db r h small arrives receives in
      (t, u, e, w ∙ ap (λ (b : Bytes). b ++ stream offset cs) empty ∙ sym arrives, f, k)
