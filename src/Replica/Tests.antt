-- ===== src/Replica/Tests.antt =====
-- Changes that are replicated, a listener at the end of the file, and the connections of both sides.
use blp_cache.Resp.RoundTrip.{try_parse-take-serialize}
use blp_cache.Replica.Silence.{on_append-between}
use blp_cache.Db.Memory.{waits}
use blp_cache.Resp.{bulk_string, bulk_strings, Command, serialize}
use blp_cache.Decimal.{digits, to_string}
use blp_cache.Wire.{be_bytes}
use blp_cache.Protocol.{put_text, serialize_entity}
use blp_cache.Replica.Stream.{Change, set_change, del_change, stream, changed_all, logged_change}
use blp_cache.Message.Transfer.{on_wire}
use blp_cache.Db.Memory.{memory}
use blp_cache.Replica.{
  connected, start_replica, replica_rounds, send_reactions, heartbeat_message, left_loop,
  on_command, on_append,
}
use blp_cache.Replica.CatchUp.{queued_all}
use blp_cache.Replica.Consistency.{replica_shows_same}
use blp_cache.Replica.Operations.{Operation, putting, expiring, getting, after_all, logs_all}
use blp_cache.Db.Memory.{memory-IsLevelDb, memory-AlwaysPuts, memory-AlwaysDeletes}
use blp_cache.Db.Cleaner.{visible}
use blp_cache.Replica.Client.{start_replica-stream}
use blp_cache.Replica.Master.{handle_replica}
use blp_cache.Replica.Master.Rounds.{handle_replica-stream, EndsAs, Round}
use blp_cache.Recover.{opened, Kernel}
use blp_cache.Socket.{Socket}
use blp_cache.Aof.{get_current_offset, default_options, Aof}
use blp_cache.Db.{
  split_tab, actual_value, log_command, impl_get, loaded, expire, impl_put, put, Storage,
}
use blp_cache.Aof.System.{System, here, next, append, appended, gathering, writing}
use blp_cache.Aof.{append_raw_async}
use blp_cache.Prelude.{
  Bytes, List, [], arith, codes, concat, false, if◌then◌else◌, inl, length, map, none, refl,
  replicate, same, some, take, true, ℕ, ◌++◌, ◌∷◌, ◌≡◌,
}

abbrev log : Aof
log = record {
  opts = default_options;
  queue = codes "b" ∷ [];
  stop_flag = false;
  listeners = [];
  fd_open = true;
  writer_started = true;
  written_offset = 2;
}

abbrev empty : Storage memory
empty = record { database = λ j. none; is_open = true; aof = log }

-- What the file has got when the listener reads it: a command, and a torn record.
abbrev got : List Command
got = (codes "SET" ∷ codes "k" ∷ codes "v" ∷ []) ∷ []

abbrev torn : Bytes
torn = take 4 (serialize (codes "DEL" ∷ codes "k" ∷ []))

-- The kernel reads these bytes behind the first two of the file.
abbrev reads_on : Kernel
reads_on = record {
  open_file = opened;
  file_size = some 2;
  chunks = concat (map serialize got) ∷ torn ∷ [];
  read_error = false;
  ftruncate = λ m n. true;
  seek_set = λ n. true;
  seek_end = some 2;
}

abbrev threes : Socket
threes = record {
  sends = 3 ∷ 3 ∷ 3 ∷ 3 ∷ 3 ∷ 3 ∷ 3 ∷ 3 ∷ 3 ∷ 3 ∷ 3 ∷ 3 ∷ [];
  recvs = [];
  wire = [];
  incoming = [];
}

abbrev changes : List Change
changes = set_change (codes "k") (codes "v") ∷ del_change (codes "k") ∷ []

abbrev sixes : List ℕ
sixes = replicate 80 6

abbrev master : Socket
master = record { sends = sixes; recvs = []; wire = []; incoming = [] }

abbrev replica : Socket
replica = record { sends = []; recvs = sixes; wire = []; incoming = stream 2 changes }

-- Both storages hold a value that is to expire at the time 8.
abbrev expiring_soon : Storage memory
expiring_soon = record empty {
  database = λ j. if same (codes "k") j then some (codes "v\t8\t-1") else none;
}

-- A new key, an `expire` of it, and a `get` that takes the old key out.
abbrev operations : List Operation
operations =
    putting (codes "m") (codes "w") ∷ expiring 6 (codes "m") 20 ∷ getting 9 (codes "k") ∷ []

abbrev logged : List Change
logged = set_change (codes "m") (codes "w") ∷ set_change (codes "m") (codes "w\t26") ∷ []

logs_all-operations : logs_all waits expiring_soon operations ≡ logged
unfolding put impl_put expire loaded impl_get log_command actual_value split_tab to_string digits
    same
logs_all-operations = refl

abbrev sending : Socket
sending = record { sends = replicate 120 6; recvs = []; wire = []; incoming = [] }

abbrev receiving : Socket
receiving = record { sends = []; recvs = replicate 120 6; wire = []; incoming = stream 2 logged }

replica_shows_same_example :
    let changes = logs_all waits expiring_soon operations in
    ((after_all waits expiring_soon operations).aof ≡ queued_all log changes)
    × ((t : Socket) × (send_reactions (map (on_command 2) (map logged_change changes)) sending
          ≡ some t)
        × (t.wire ≡ receiving.incoming))
    × ((end : Storage memory) × (u : Socket) × (replica_rounds
            (length changes)
            waits
            expiring_soon
            receiving
          ≡ some (end, u))
        × (visible 9 end (codes "k")
            ≡ visible 9 (after_all waits expiring_soon operations) (codes "k")))
unfolding put impl_put expire loaded impl_get log_command actual_value split_tab to_string digits
    same serialize_entity put_text be_bytes
replica_shows_same_example =
    replica_shows_same memory-IsLevelDb memory-AlwaysPuts memory-AlwaysDeletes waits waits 2 9
      operations expiring_soon expiring_soon sending receiving (codes "k")
      (record { first_open = refl; second_open = refl; covered = λ j. inl refl })
      (tt, (tt, (omega arith, tt))) refl (omega arith) (omega arith)
      ((omega arith, omega arith), ((omega arith, omega arith), tt)) refl refl
      (omega arith, omega arith) (omega arith, omega arith)

-- A log whose file has two bytes, and an append to it.
abbrev quiet : System
quiet = record {
  aof = log;
  batch = [];
  file = codes "ab";
  synced = 2;
  last_fsync = 0;
  phase = gathering;
  accepted = [];
}

on_append-between_example :
    on_append reads_on (appended quiet (codes "c")).aof
    ≡ map (on_command (get_current_offset (appended quiet (codes "c")).aof)) got
unfolding appended append_raw_async serialize to_string digits bulk_strings bulk_string
on_append-between_example =
    on_append-between reads_on got torn (codes "ab" ++ (concat (map serialize got) ++ torn))
      {s = quiet} (record { at_end = λ h. refl }) (next here (append (codes "c") refl))
      (λ h. gathering_ne h) refl
      (try_parse-take-serialize (codes "DEL" ∷ codes "k" ∷ []) 4 (omega arith) (omega arith)
        (omega arith))
      refl refl refl (omega arith) (omega arith)
  where
    gathering_ne : gathering ≡ writing → ⊥
    gathering_ne h = cc

-- A heartbeat that arrives 12 seconds behind the start, in a round that ends at once.
abbrev beats : List Round
beats = (heartbeat_message, record { noted = 12000; ending = 12001 }) ∷ []

abbrev beating : Socket
beating = record {
  sends = replicate 12 3;
  recvs = replicate 12 3;
  wire = [];
  incoming = on_wire heartbeat_message;
}

handle_replica-stream_example :
    EndsAs (some 12000) (handle_replica (record { noted = 12000; ending = 12001 } ∷ []) 0 beating)
unfolding be_bytes
handle_replica-stream_example =
    handle_replica-stream beats 0 beating ((refl, omega arith), tt) refl (omega arith, omega arith)
      (omega arith, omega arith)

-- A connection at which the two changes arrive, and a heartbeat can be sent.
abbrev arriving : Socket
arriving = record threes { recvs = replicate 100 3; incoming = stream 2 changes }

start_replica-stream_example :
    (t : Socket) × (u : Socket) × (start_replica
        ((true, false) ∷ (true, true) ∷ [])
        4
        2
        waits
        empty
        arriving
      ≡ connected 2 (left_loop t) (some (changed_all waits empty changes, u)))
    × (t.wire ≡ [] ++ on_wire heartbeat_message)
    × (u.incoming ≡ [])
unfolding serialize_entity be_bytes put_text
start_replica-stream_example =
    start_replica-stream waits ((true, false) ∷ []) 3 2 changes empty arriving ((refl, refl), tt)
      (omega arith) ((omega arith, omega arith), (omega arith, tt)) refl (omega arith, omega arith)
      (omega arith, omega arith)
