-- ===== src/Replica/Consistency.antt =====
-- From the operations on a master to what a replica's clients are shown.
use blp_cache.Replica.Shadow.{Shadows, AreTimely, after_all-Shadows, visible-Shadows}
use blp_cache.Replica.Operations.{Operation, after_all, logs_all, after_all-aof}
use blp_cache.Replica.CatchUp.{queued_all}
use blp_cache.Replica.Stream.{
  stream, stream_size, changed_all, IsSmallChange, logged_change, replica_rounds-send_reactions,
}
use blp_cache.Replica.{replica_rounds, send_reactions, on_command}
use blp_cache.Message.Transfer.{Sends, Receives}
use blp_cache.Socket.{Socket}
use blp_cache.Db.Refine.{AlwaysPuts}
use blp_cache.Db.Cleaner.{AlwaysDeletes, visible}
use blp_cache.Db.{Storage, LevelDb, IsLevelDb}
use blp_cache.Aof.{Aof}
use blp_cache.Prelude.{
  All, Bytes, List, [], false, length, map, same, some, ℕ, ◌+◌, ◌<◌, ◌^◌, ◌≡◌, ◌≤◌,
}

module _ {l : LevelDb} (law : IsLevelDb l) (puts : AlwaysPuts l) (deletes : AlwaysDeletes l)
    (wake other : Aof → Aof) where
  -- A master over a LevelDB whose writes succeed runs any operations, gets and passes of the cleaner that
  -- take expired keys out included, with room in the queue of its log. Then the log has queued a record for
  -- each `put`, `remove` and successful `expire`, in order; and where the listener reads these records
  -- behind an offset, its messages arrive, and the replica showed the same before, the replica's loop has
  -- stored them after a round for each, and then a client of the replica is shown for any key what a client
  -- of the master is shown, at any time that no operation has passed. The entries of the cleaner are
  -- overtaken by nothing but removals, the texts are shorter than 2 ^ 32 bytes, the offset is below 2 ^ 64,
  -- and the kernel's answers make progress and are enough.
  pub replica_shows_same :
      (offset now : ℕ) (os : List Operation) (master replica : Storage l) (s r : Socket) (k : Bytes)
      → Shadows now master replica
      → AreTimely wake now master os
      → master.aof.stop_flag ≡ false
      → length master.aof.queue + length (logs_all wake master os)
        ≤ master.aof.opts.max_queue_entries
      → offset < 2 ^ 64
      → All IsSmallChange (logs_all wake master os)
      → s.wire ≡ []
      → r.incoming ≡ stream offset (logs_all wake master os)
      → Sends s (stream_size offset (logs_all wake master os))
      → Receives r (stream_size offset (logs_all wake master os))
      → let changes = logs_all wake master os in
        ((after_all wake master os).aof ≡ queued_all master.aof changes)
        × ((t : Socket) × (send_reactions (map (on_command offset) (map logged_change changes)) s
              ≡ some t)
            × (t.wire ≡ r.incoming))
        × ((end : Storage l) × (u : Socket) × (replica_rounds (length changes) other replica r
              ≡ some (end, u))
            × (visible now end k ≡ visible now (after_all wake master os) k))
  replica_shows_same offset now os master replica s r k same timely open_log room h small empty
        arrives sends receives =
      let changes = logs_all wake master os in
      let (t, u, e, w, f, _) =
        replica_rounds-send_reactions other offset changes replica s r h small empty arrives sends
          receives in
      let end = after_all-Shadows law puts deletes wake other now os master replica timely same in
      (
        after_all-aof wake os master open_log room,
        (t, e, w),
        (
          changed_all other replica changes,
          u,
          f,
          visible-Shadows law puts deletes wake other now _ _ k end,
        ),
      )
