-- ===== src/Db/Wrapper.antt =====
-- `LevelDBWrapper` as an implementation of the interface that the service uses.
use blp_cache.Aof.{Aof}
use blp_cache.Db.Interface.{StorageApi}
use blp_cache.Db.{Storage, LevelDb, put, get, remove, ttl, expire}

abbrev pub wrapper : {l : LevelDb} → (Aof → Aof) → StorageApi (Storage l)
wrapper wake = record {
  put = put wake;
  get = get;
  remove = remove wake;
  ttl = ttl;
  expire = expire wake;
}
