-- ===== src/Replica/Sessions.antt =====
-- `startReplica` of src/replica/replicate.cpp over several connections: an exception in the inner loop is
-- caught, the descriptor stays open, and the outer loop connects again.
pub mod Recovery
mod Tests
use blp_cache.Socket.Events.{connect_attempts}
use blp_cache.Aof.{Aof}
use blp_cache.Message.Oversize.{throws}
use blp_cache.Replica.{replica_round, LevelDb, Storage, Socket}
use blp_cache.Prelude.{Bool, List, [], if◌then◌else◌, none, some, suc, zero, ℕ, ◌∷◌}

-- How the inner loop of a connection stands: left by an exception, still going on, or waiting for a receive
-- that never returns.
pub data InnerLoop (l : LevelDb) : Type 0 where
  thrown : Storage l → InnerLoop l
  going_on : Storage l → Socket → InnerLoop l
  stuck_receiving : InnerLoop l

-- What the outer loop meets: failed and successful attempts to connect, then the connection and for how many
-- rounds it is followed.
pub record Link : Type 0 where
  pub attempts : List (Bool × Bool)
  pub rounds : ℕ
  pub socket : Socket

-- How `startReplica` stands: connecting, in a connection, or waiting in it for ever; with the descriptors that
-- are open.
pub data ReplicaRun (l : LevelDb) : Type 0 where
  connecting : ℕ → Storage l → ReplicaRun l
  in_connection : ℕ → Storage l → Socket → ReplicaRun l
  never_returning : ReplicaRun l

-- Which lengths can be allocated depends on the machine.
module _ {l : LevelDb} (allocates : ℕ → Bool) (wake : Aof → Aof) where
  unfoldable pub inner_loop : ℕ → Storage l → Socket → InnerLoop l
  inner_loop zero db s = going_on db s
  inner_loop (suc rounds) db s =
      if throws allocates s then thrown db else elim (replica_round wake db s) [
        | none ↦ stuck_receiving
        | some (db', s') ↦ inner_loop rounds db' s'
      ]

  -- The sleeps of three seconds are left out; `close(sockfd)` is never reached.
  unfoldable pub replica_runs : List Link → ℕ → Storage l → ReplicaRun l
  replica_runs [] open_sockets db = connecting open_sockets db
  replica_runs (c ∷ connections) open_sockets db =
      let (reached, still_open) = connect_attempts open_sockets c.attempts in
      if reached
      then elim (inner_loop c.rounds db c.socket) [
        | thrown db' ↦ replica_runs connections still_open db'
        | going_on db' s ↦ in_connection still_open db' s
        | stuck_receiving ↦ never_returning
      ]
      else connecting still_open db
