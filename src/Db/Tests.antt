-- ===== src/Db/Tests.antt =====
-- Runs of the storage over a database in memory, and the theorems at them.
use blp_cache.Db.Memory.{log, waits}
use blp_cache.Db.Split.{timed}
use blp_cache.Db.Memory.{memory-AlwaysDeletes, memory-IsLevelDb, memory}
use blp_cache.Db.Cleaner.{clean_loses_put, visible-clean, visible}
use blp_cache.Db.Expiry.{get-expire}
use blp_cache.Db.{
  split_tab, signed64, clean, impl_remove, ttl, expire, Storage, loaded, put, impl_put, impl_get,
  get, log_command,
}
use blp_cache.Prelude.{
  Bytes, [], arith, codes, false, if◌then◌else◌, inl, leb, none, refl, same, some, true, ◌-◌, ◌∷◌,
  ◌≡◌,
}
use blp_cache.Prelude.Int.{negsuc}

abbrev holding : Bytes → Bytes → Storage memory
holding key value = record {
  database = λ j. if same key j then some value else none;
  is_open = true;
  aof = log;
}

get-expire_example :
    let s = holding (codes "k") (codes "v\t-1") in
    let t = (expire waits 100 s (codes "k") 10).1 in
    (get 105 t (codes "k") []
      ≡ (if leb 110 105 then (false, [], (impl_remove t (codes "k")).1) else (true, codes "v", t)))
    × (ttl 105 t (codes "k") ≡ (if leb 110 105 then negsuc 1 else signed64 (110 - 105)))
unfolding expire put impl_put log_command loaded impl_get impl_remove same
get-expire_example =
    get-expire memory-IsLevelDb waits (holding (codes "k") (codes "v\t-1")) 100 10 (codes "k") []
      (codes "v\t-1") (codes "v") (codes "-1") refl (unfold split_tab in refl) (omega arith) refl
      105

-- The value expired at second 50, and is revived at second 100.
abbrev stale : Storage memory
stale = holding (codes "k") (timed (codes "v") 50)

visible-clean_example :
    visible 100 (clean stale ((100, codes "k", timed (codes "v") 50) ∷ [])) (codes "k")
    ≡ visible 100 stale (codes "k")
unfolding impl_get same
visible-clean_example =
    visible-clean memory-IsLevelDb memory-AlwaysDeletes 100 stale
      ((100, codes "k", timed (codes "v") 50) ∷ []) (codes "k") (omega arith, inl refl, tt)

clean_loses_put_example :
    let after = (put waits stale (codes "k") (codes "w")).1 in
    (visible 100 after (codes "k") ≡ some (codes "w"))
    × (visible 100 (clean after ((100, codes "k", timed (codes "v") 50) ∷ [])) (codes "k") ≡ none)
unfolding put impl_put log_command
clean_loses_put_example =
    clean_loses_put memory-IsLevelDb memory-AlwaysDeletes waits 100 100 50 stale (codes "k")
      (codes "w") (codes "v") (omega arith) (omega arith) (omega arith) (omega arith) refl
