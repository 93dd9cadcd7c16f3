-- ===== src/Replica.antt =====
-- Replication: the listener of the master (src/replica/server.cpp), `startReplica` of the replica
-- (src/replica/replicate.cpp), and `start_heartbeat` and `send_ack` of protocol.h.
pub mod Changes
pub mod CatchUp
pub mod Client
pub mod Sessions
pub mod Master
pub mod Silence
pub mod Stream
pub mod Operations
pub mod Shadow
pub mod Consistency
pub mod Threads
mod Tests
use blp_cache.Socket.Events.{connect_attempts}
use blp_cache.Aof.{get_current_offset, Aof}
use blp_cache.Db.{put, remove, Storage, LevelDb}
use blp_cache.Recover.{read_commands_from_offset, Kernel}
use blp_cache.Socket.{Net, Socket}
use blp_cache.Resp.{Command}
use mathlib.Core.Option
use blp_cache.Message.{
  receive_message, to_data_entity, incr_sync, heartbeat, from_data_entity, Message, blank_message,
  send_message,
}
use blp_cache.Protocol.{DataEntity, blank_entity}
use blp_cache.Prelude.{
  Bool, Bytes, List, Option, [], codes, if◌then◌else◌, length, map, none, same, some, suc, zero, ℕ,
  ◌==◌, ◌∷◌,
}

-- What the callback does with a command that was read: nothing, a message for the replica, or an access
-- behind the end of `parts`.
pub data Reaction : Type 0 where
  ignored : Reaction
  message : Message → Reaction
  out_of_range : Reaction

unfoldable pub entity_message : ℕ → Bytes → Bytes → Bytes → Reaction
entity_message offset cmd key value =
    message (
      from_data_entity incr_sync
        (record { sequence = offset; key = key; value = value; cmd = cmd }))

unfoldable pub on_set : ℕ → List Bytes → Reaction
on_set offset (key ∷ value ∷ args) = entity_message offset (codes "SET") key value
on_set offset _ = out_of_range

unfoldable pub on_del : ℕ → List Bytes → Reaction
on_del offset (key ∷ args) = entity_message offset (codes "DEL") key []
on_del offset [] = out_of_range

-- The callback that `readCommandsFromOffset` runs for each command behind `offset_to_read`.
unfoldable pub on_command : ℕ → Command → Reaction
on_command offset [] = ignored
on_command offset (cmd ∷ args) =
    if same cmd (codes "SET")
    then on_set offset args
    else if same cmd (codes "DEL")
    then on_del offset args
    else ignored

-- The listener that `startServer` registers for a replica: what it does with each command that it
-- reads, in order. It takes the stored offset from the log first and reads the file later: the two
-- arguments, the log and the kernel with what it reads, are those of two moments.
unfoldable pub on_append : Kernel → Aof → List Reaction
on_append k a =
    let offset = get_current_offset a in
    map (on_command offset) (read_commands_from_offset k offset).1

-- A change that arrived, put into the database of the replica. The result of `toDataEntity` is not
-- looked at.
unfoldable pub apply_entity : {l : LevelDb} → (Aof → Aof) → Storage l → DataEntity → Storage l
apply_entity wake db e =
    if length e.cmd == 0
    then db
    else if same e.cmd (codes "DEL")
    then (remove wake db e.key).1
    else if same e.cmd (codes "SET")
    then (put wake db e.key e.value).1
    else db

-- What a replica does with a message.
unfoldable pub apply_message : {l : LevelDb} → (Aof → Aof) → Storage l → Message → Storage l
apply_message wake db m =
    if m.kind == incr_sync then apply_entity wake db (to_data_entity m blank_entity).1 else db

-- One round of the inner loop of `startReplica`: the result of `recvFromSocket` is not looked at.
unfoldable pub replica_round :
    {l : LevelDb} → (Aof → Aof) → Storage l → Socket → Option (Storage l × Socket)
replica_round wake db s =
    Option.map (λ (r : (Bool × Message) × Socket). (apply_message wake db r.0.1, r.1))
      (receive_message blank_message s)

-- What the callbacks of one listener send, in order: a failed send is only printed. `none` where a send
-- never returns, and where a callback reads behind the end of `parts`.
unfoldable pub send_reactions : List Reaction → Socket → Option Socket
send_reactions [] s = some s
send_reactions (ignored ∷ rest) s = send_reactions rest s
send_reactions (message m ∷ rest) s = elim (send_message m s) [
  | none ↦ none
  | some (ok, s') ↦ send_reactions rest s'
]
send_reactions (out_of_range ∷ rest) s = none

-- So many rounds of the inner loop of `startReplica`, which has no other end.
unfoldable pub replica_rounds :
    {l : LevelDb} → ℕ → (Aof → Aof) → Storage l → Socket → Option (Storage l × Socket)
replica_rounds zero wake db s = some (db, s)
replica_rounds (suc rounds) wake db s = elim (replica_round wake db s) [
  | none ↦ none
  | some (db', s') ↦ replica_rounds rounds wake db' s'
]

-- `start_heartbeat`: how the loop stands after at most so many rounds.
pub data Beat : Type 0 where
  left_loop : Socket → Beat
  still_looping : Socket → Beat
  stuck : Beat

abbrev pub heartbeat_message : Message
heartbeat_message = record blank_message { kind = heartbeat }

unfoldable pub heartbeat_rounds : ℕ → Socket → Beat
heartbeat_rounds zero s = still_looping s
heartbeat_rounds (suc rounds) s = elim (send_message heartbeat_message s) [
  | none ↦ stuck
  | some (ok, s') ↦ let again = heartbeat_rounds rounds s' in if ok then left_loop s' else again
]

-- `send_ack`; the offset is not sent.
unfoldable pub send_ack : ℕ → Net Bool
send_ack offset = send_message blank_message

-- How `startReplica` stands: trying to connect, or connected, with its heartbeat thread and its storage and
-- connection behind some rounds; and how many descriptors are open.
pub data ClientRun (l : LevelDb) : Type 1 where
  retrying : ℕ → ClientRun l
  connected : ℕ → Beat → Option (Storage l × Socket) → ClientRun l

-- `startReplica` up to its first connection, which has no end but by an exception. The heartbeat thread
-- only sends on the connection, and the loop only receives, so each is taken by itself.
unfoldable pub start_replica :
    {l : LevelDb}
    → List (Bool × Bool)
    → (beats rounds : ℕ) → (Aof → Aof)
    → Storage l
    → Socket
    → ClientRun l
start_replica attempts beats rounds wake db s =
    let (reached, open_sockets) = connect_attempts 0 attempts in
    if reached
    then connected open_sockets (heartbeat_rounds beats s) (replica_rounds rounds wake db s)
    else retrying open_sockets
