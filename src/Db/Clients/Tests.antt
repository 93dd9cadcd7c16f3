-- ===== src/Db/Clients/Tests.antt =====
-- Threads inside the storage at once, in examples.
use blp_cache.Db.Memory.{log, waits}
use blp_cache.Db.Clients.Races.{expire_overwrites_put}
use blp_cache.Db.Clients.Reads.{happen_all-visible}
use blp_cache.Db.Memory.{memory-AlwaysDeletes, memory-AlwaysPuts, memory-IsLevelDb, memory}
use blp_cache.Db.{impl_get, split_tab, Storage}
use blp_cache.Db.Cleaner.{visible}
use blp_cache.Db.Clients.{ends, happen, puts_value, starts_expire, happen_all, starts_get, Event}
use blp_cache.Prelude.{
  List, [], arith, codes, if◌then◌else◌, none, refl, same, some, true, ◌∷◌, ◌≡◌,
}

-- The value expired at second 50.
abbrev stale : Storage memory
stale = record {
  database = λ j. if same (codes "k") j then some (codes "v\t50\t-1") else none;
  is_open = true;
  aof = log;
}

-- Two threads read the old value, one removes the key, and another key is put in between.
abbrev events : List Event
events =
    starts_get 0 (codes "k")
    ∷ starts_get 1 (codes "k")
    ∷ puts_value (codes "m") (codes "w")
    ∷ ends 0 60
    ∷ starts_expire 2 (codes "m") 5
    ∷ ends 1 61
    ∷ ends 2 62
    ∷ []

happen_all-visible_example :
    visible 100
      (happen_all waits (record { storage = stale; pending = λ i. none }) events).storage
      (codes "k")
    ≡ visible 100 stale (codes "k")
happen_all-visible_example =
    happen_all-visible memory-IsLevelDb memory-AlwaysPuts memory-AlwaysDeletes waits 100 (codes "k")
      stale events refl
      (
        tt,
        (
          tt,
          (
            unfold same in refl,
            (omega arith, (unfold same in refl, (omega arith, (omega arith, tt)))),
          ),
        ),
      )

expire_overwrites_put_example :
    let mid =
      happen_all waits
        (record { storage = stale; pending = λ i. none })
        (starts_expire 0 (codes "k") 10 ∷ puts_value (codes "k") (codes "w") ∷ []) in
    (visible 100 mid.storage (codes "k") ≡ some (codes "w"))
    × (visible 100 (happen waits mid (ends 0 100)).storage (codes "k") ≡ some (codes "v"))
unfolding impl_get
expire_overwrites_put_example =
    expire_overwrites_put memory-IsLevelDb memory-AlwaysPuts memory-AlwaysDeletes waits 100 10 stale
      (codes "k") (codes "w") (codes "v\t50\t-1") (codes "v") (codes "50\t-1") refl
      (unfold same in refl) (unfold split_tab in refl) (omega arith) (omega arith) (omega arith)
