-- ===== src/Program/Lifecycle.antt =====
-- A run of the program from its start to a stop of its log, and the recovery behind it.
use blp_cache.Aof.System.EndToEnd.{recover-System}
use blp_cache.Recover.Results.{Reads}
use blp_cache.Program.Start.{main-IsFaithful, started}
use blp_cache.Recover.Log.{AreShort, logged}
use blp_cache.Aof.System.{ended, writing, gathering, Reach, System}
use blp_cache.Recover.{finishes, recover, Kernel}
use blp_cache.Resp.{serialize, Command}
use blp_cache.Config.{FieldMap}
use blp_cache.Db.Setup.{LevelDbCalls}
use blp_cache.Db.{LevelDb}
use blp_cache.Program.{main, serves, Served, Environment}
use blp_cache.Prelude.{
  Bool, Bytes, List, Option, length, map, none, some, true, ◌++◌, ◌<◌, ◌^◌, ◌≡◌, ◌⊎◌,
}

module _ {Double : Type 0} (stod : Bytes → Option Double) {l : LevelDb}
    (calls : LevelDbCalls l) where
  -- Where `main` comes to serve over a file that holds commands of earlier runs, all on the disk, and after any
  -- steps of any threads, with no failed write, the log is told to stop while the writer is gathering or
  -- writing, and the writer leaves its loop: a recovery of the file executes the commands of the earlier runs
  -- and behind them all that this run accepted, in order. The commands have fewer than 2 ^ 31 parts each and
  -- fewer than 2 ^ 62 bytes in all, and the kernel reads the file back.
  pub main-recover :
      (env : Environment l) (blank : l.Database) (fields : FieldMap Double) (old cs : List Command)
      (r : Served l) (k : Kernel) (truncate : Bool) {s t : System}
      → env.aof_end ≡ some (length (logged old))
      → main stod calls env blank fields ≡ serves r
      → Reach (started r.log (logged old)) s
      → s.aof.stop_flag ≡ true
      → (s.phase ≡ gathering) ⊎ (s.phase ≡ writing)
      → Reach s t
      → t.phase ≡ ended
      → t.accepted ≡ map serialize cs
      → Reads k t.file
      → AreShort (old ++ cs)
      → length t.file < 2 ^ 62
      → recover k truncate ≡ finishes k (old ++ cs) none
  main-recover env blank fields old cs r k truncate {s} at started_up runs stop at_work ends e took
        reads short small =
      let (faithful, _) =
        main-IsFaithful stod calls env blank fields (logged old) r s at started_up runs in
      recover-System k truncate old cs faithful stop at_work ends e took reads short small
