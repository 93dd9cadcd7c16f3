-- ===== src/Db/Memory.antt =====
-- A log with an empty queue, and a database in memory that keeps LevelDB's promises, for the examples.
use blp_cache.Aof.{default_options, Aof}
use blp_cache.Db.Refine.{AlwaysPuts}
use blp_cache.Db.Cleaner.{AlwaysDeletes}
use blp_cache.Db.{Storage, LevelDb, IsLevelDb}
use blp_cache.Prelude.{Bytes, Option, [], false, if◌then◌else◌, none, refl, same, some, true}

abbrev pub memory : LevelDb
memory = record {
  Database = Bytes → Option Bytes;
  db_get = λ d k. d k;
  db_put = λ d k v. (true, λ j. if same k j then some v else d j);
  db_delete = λ d k. (true, λ j. if same k j then none else d j);
}

abbrev pub memory-IsLevelDb : IsLevelDb memory
memory-IsLevelDb = record { get-put = λ d k v j ok. refl; get-delete = λ d k j ok. refl }

abbrev pub memory-AlwaysDeletes : AlwaysDeletes memory
memory-AlwaysDeletes = record { deletes = λ d k. refl }

abbrev pub memory-AlwaysPuts : AlwaysPuts memory
memory-AlwaysPuts = record { puts = λ d k v. refl }

abbrev pub log : Aof
log = record {
  opts = default_options;
  queue = [];
  stop_flag = false;
  listeners = [];
  fd_open = true;
  writer_started = true;
  written_offset = 0;
}

-- A wait in which nothing happens.
abbrev pub waits : Aof → Aof
waits a = a

abbrev pub empty : Storage memory
empty = record { database = λ j. none; is_open = true; aof = log }
