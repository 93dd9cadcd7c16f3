-- ===== src/Replica/Threads/Tests.antt =====
-- Two threads over a database in memory.
use blp_cache.Aof.{append_raw_async, append_command_async}
use blp_cache.Resp.{serialize}
use blp_cache.Db.Memory.{waits, empty}
use blp_cache.Replica.Threads.{
  takes, writer_takes, log_accepts, Threads, ThreadReach, all_quiet, logs, stores, moved, unmoved,
  thread_logs, thread_stores,
}
use blp_cache.Replica.Threads.Order.{IsOldest, IsAny, threads_in_order}
use blp_cache.Replica.Threads.Race.{threads_diverge}
use blp_cache.Replica.Stream.{logged_change, changed_all, set_change}
use blp_cache.Db.Memory.{memory, memory-IsLevelDb, memory-AlwaysPuts, memory-AlwaysDeletes}
use blp_cache.Db.Cleaner.{visible}
use blp_cache.Db.{log_command, impl_get}
use blp_cache.Prelude.{[], arith, codes, map, refl, same, some, ◌++◌, ◌∷◌, ◌≡◌}

-- Two threads with different keys; the second stores first, and then the writer takes both records.
abbrev stored_apart : Threads memory
stored_apart = thread_stores waits (set_change (codes "k") (codes "v")) [] (
    thread_stores waits (set_change (codes "m") (codes "w"))
      (set_change (codes "k") (codes "v") ∷ [])
      (thread_logs waits (set_change (codes "m") (codes "w"))
        (thread_logs waits (set_change (codes "k") (codes "v")) (all_quiet empty))))

abbrev apart : Threads memory
apart = writer_takes stored_apart

apart-ThreadReach : ThreadReach waits IsOldest (all_quiet empty) apart
unfolding thread_logs thread_stores same
apart-ThreadReach =
    moved
      (moved
        (moved
          (moved (moved unmoved (logs (set_change (codes "k") (codes "v")) refl))
            (logs (set_change (codes "m") (codes "w")) refl))
          (stores (set_change (codes "m") (codes "w")) (set_change (codes "k") (codes "v") ∷ []) []
            refl (refl, tt) refl))
        (stores (set_change (codes "k") (codes "v")) [] [] refl tt refl))
      (takes refl)

threads_in_order_example :
    (apart.taken ++ apart.storage.aof.queue
      ≡ empty.aof.queue ++ map serialize (map logged_change apart.logged))
    × (impl_get apart.storage (codes "k")
        ≡ impl_get (changed_all waits empty apart.logged) (codes "k"))
unfolding thread_logs thread_stores log_accepts append_command_async append_raw_async log_command
    writer_takes
threads_in_order_example =
    threads_in_order memory-IsLevelDb memory-AlwaysPuts memory-AlwaysDeletes waits waits empty empty
      apart (codes "k") refl refl (λ k. refl) (record { open_log = refl; room = omega arith })
      apart-ThreadReach refl

threads_diverge_example :
    (t : Threads memory) × ThreadReach waits IsAny (all_quiet empty) t
    × (t.pending ≡ [])
    × (t.logged ≡ set_change (codes "k") (codes "v") ∷ set_change (codes "k") (codes "w") ∷ [])
    × (t.storage.aof.queue
        ≡ serialize (codes "SET" ∷ codes "k" ∷ codes "v" ∷ [])
          ∷ serialize (codes "SET" ∷ codes "k" ∷ codes "w" ∷ [])
          ∷ [])
    × (visible 5 t.storage (codes "k") ≡ some (codes "v"))
    × (visible 5 (changed_all waits empty t.logged) (codes "k") ≡ some (codes "w"))
threads_diverge_example =
    threads_diverge memory-IsLevelDb memory-AlwaysPuts memory-AlwaysDeletes waits waits empty empty
      5 (codes "k") (codes "v") (codes "w") refl refl
      (record { open_log = refl; room = omega arith }) (omega arith, tt) (omega arith, tt)
