-- ===== src/Lib.antt =====
-- BlpCache: a key-value server over LevelDB with an append-only file (AOF), speaking the Redis
-- protocol, that replicates its changes from a master to replicas. A client's command reaches a handler
-- (src/service), the handler the storage (src/core/db.cpp), which logs each change in the AOF
-- (src/common/aof.cpp) before it stores it in LevelDB. A thread of the AOF writes the queued records to
-- the file; a recovery reads them back. The master's listener (src/replica/server.cpp) reads new
-- records and sends them to a replica (src/replica/replicate.cpp), which applies them to its storage.
--
-- The files, and the code that each models:
--   Prelude       Boolean tests, lists, texts and signed integers over the native numbers
--   Decimal       `std::to_string`, `std::stoi`, `std::stol`, `std::stoll`, `std::stoull`: documented
--                 behaviour of the C++ library in base ten, with the ranges of a 64-bit host
--   Resp          `serializeToRESP`, `findCRLF`, `tryParseRESPArray` of src/common/aof.cpp. A `Cursor` is the
--                 buffer behind `pos`, with `pos` and `len`
--   Recover       `recoverFromAOF`, `readCommandsFromOffset` of the same file. `Kernel` holds what the system calls of
--                 one call answer; the chunks of `read` are a list
--   Aof           the class `Aof` of src/common/aof.h: the queue, its appends, listeners, `startWriter`, `stop`
--   Aof/Writer    the parts of `writerLoop`: the batch, the loop over `writev`, the sync policy
--   Aof/System    the AOF with its thread as a step relation: each step is what happens under the mutex,
--                 or one system call or test outside of it, and the steps of all threads come in any
--                 order; Aof/System/Failure adds the step of a `writev` that fails
--   Db            `LevelDBWrapper` of src/core/db.cpp over an abstract LevelDB (the record `LevelDb`, with
--                 the laws `IsLevelDb`), the time of `now_sec` being an argument
--   Db/Interface  the operations of `LevelDBWrapper` (src/core/db.h) as a record, which the service uses and
--                 Db/Wrapper fills; Db/Table is the abstract table that fills it too
--   Db/Iterator   the loop of `ttl_cleaner` of src/core/db.cpp over LevelDB's iterator (the record `Iterates`)
--   Db/Clients    threads inside `get` and `expire` of src/core/db.cpp at once, each between its read and its
--                 action
--   Wire          integers in network byte order on a little-endian host
--   Protocol      `DataEntity` of src/replica/protocol.h
--   Socket        `send_all`, `recv_all` of src/common/socket_utils.cpp; the counts that the kernel returns
--                 are lists, and a call that waits for a missing answer is `none`
--   Message       `Message` of src/replica/protocol.h
--   Replica       the listener of src/replica/server.cpp, `startReplica` of src/replica/replicate.cpp, and
--                 `start_heartbeat` and `send_ack` of protocol.h; Replica/Master `handle_replica` and the loop
--                 of `startServer`; Replica/Master/Oversize the same connection where `resize` may throw,
--                 with the lengths that can be allocated as a parameter
--   Replica/Sessions  `startReplica` over several connections, where `resize` may throw
--   Replica/Threads  threads inside `put` and `remove` of src/core/db.cpp at once, with the writer of the log, as a
--                 step relation
--   Service       the handlers of src/service/cmd_*.cpp and `RedisServiceImpl`; a connection is its session
--                 with the storage, and a list of requests is answered in order
--   Service/Registry  `init_redis_service` with `AddCommandHandler`, over the table of brpc (the record
--                 `Brpc`, with the law `IsBrpc`)
--   Ring          `RingBuffer` of src/common/ring_buffer.h and src/common/ring_buffer.cpp
--   Config        `trim`, `init` and the registered fields of src/common/config.cpp and config.h; a file is
--                 its bytes, and the values that the fields point to stand in the fields; Config/Lists
--                 prints a vector
--   Sequence      `SequenceNumber` and `seq_to_uint64_t` of src/common/sequence_number.h and .cpp
--   Socket/Events `recv_all_with_event` of src/common/socket_utils.cpp in its two variants, and the making of
--                 sockets with its failures
--   Db/Setup      `init_db`, `init`, write batches and snapshots of src/core/db.cpp; what they call of LevelDB
--                 is the record `LevelDbCalls`
--   Program       `main` of src/blp.cpp until it serves: the record `Environment` holds what the machine
--                 answers, and `Outcome` how the start ends
-- Each `Tests` file runs the definitions on concrete data and applies the theorems to it.
--
-- Bounds and fuel. A number of `size_t` or `uint64_t` is a natural number; where the source wraps or
-- casts, `% 2 ^ w` is written out, and a theorem names the bound under which nothing overflows (a record
-- of fewer than 2 ^ 31 parts and 2 ^ 62 bytes, texts below 2 ^ 32 bytes). The loop of the drain over
-- the buffer has as many rounds as the buffer has bytes, and each frame takes at least three. `digits`
-- has a round for each digit. The loops over `writev`, `send` and `recv` recur on the list of the
-- kernel's answers. `start_heartbeat` and the loops of a connection run for a given number of
-- rounds, or of readings of the clock.
--
-- Not modelled: the flags, the logging, the start of brpc and its choice of a handler; LevelDB and
-- brpc, which are parameters or not reached; the sleeps; what `main` does behind `RunUntilAskedToQuit`;
-- and an allocation that fails, but for the `resize` of `recvFromSocket` (so a large positive count of a
-- record only reserves, where a negative one throws). src/common/status.h is an empty class.
pub mod Prelude
pub mod Decimal
pub mod Resp
pub mod Recover
pub mod Aof
pub mod Db
pub mod Wire
pub mod Protocol
pub mod Socket
pub mod Message
pub mod Replica
pub mod Service
pub mod Ring
pub mod Config
pub mod Sequence
pub mod Program
