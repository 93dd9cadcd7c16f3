-- ===== src/Db/Setup.antt =====
-- How a database is opened, and the calls of LevelDBWrapper that only hand on to LevelDB.
use blp_cache.Aof.{Aof}
use mathlib.Core.Option
use blp_cache.Db.{LevelDb, Storage}
use blp_cache.Prelude.{
  Bool, Bytes, Option, Option-cases, false, if◌then◌else◌, inl, inr, none, refl, some, true, ℕ, ◌%◌,
  ◌*◌, ◌^◌, ◌≡◌,
}

-- The `leveldb::Options` that `Impl::init` sets; sizes are in bytes.
pub record OpenOptions : Type 0 where
  pub create_if_missing : Bool
  pub error_if_exists : Bool
  pub block_cache : ℕ
  pub write_buffer_size : ℕ
  pub max_open_files : ℕ
  pub bloom_bits : ℕ

-- More of what the source calls of LevelDB: `DB::Open`, which gives nothing where its status is not OK,
-- write batches and snapshots.
pub record LevelDbCalls (l : LevelDb) : Type 1 where
  pub Batch : Type 0
  pub Snapshot : Type 0
  pub db_open : OpenOptions → Bytes → Option l.Database
  pub db_write : l.Database → Batch → Bool × l.Database
  pub db_snapshot : l.Database → Snapshot × l.Database
  pub db_release : l.Database → Snapshot → l.Database

-- `init`: the sizes are in MB, and are multiplied in 64 bits.
unfoldable pub open_options : (cache_mb write_buffer_mb max_open_files : ℕ) → OpenOptions
open_options cache_mb write_buffer_mb max_open_files = record {
  create_if_missing = true;
  error_if_exists = false;
  block_cache = cache_mb * 1024 * 1024 % 2 ^ 64;
  write_buffer_size = write_buffer_mb * 1024 * 1024 % 2 ^ 64;
  max_open_files = max_open_files;
  bloom_bits = 10;
}

module _ {l : LevelDb} (calls : LevelDbCalls l) where
  unfoldable pub impl_init :
      (cache_mb write_buffer_mb max_open_files : ℕ) → Bytes → Storage l → Bool × Storage l
  impl_init cache_mb write_buffer_mb max_open_files path s =
      elim (calls.db_open (open_options cache_mb write_buffer_mb max_open_files) path) [
        | none ↦ (false, record s { is_open = false })
        | some d ↦ (true, record s { database = d; is_open = true })
      ]

  -- The constructor: no database is open. `blank` stands where there is none.
  unfoldable pub new_storage : l.Database → Aof → Storage l
  new_storage blank aof = record { database = blank; is_open = false; aof = aof }

  -- `init_db`; `none` is a null pointer.
  unfoldable pub init_db : l.Database → Bytes → Aof → Option (Storage l)
  init_db blank path aof =
      let (ok, s) = impl_init 256 128 2000 path (new_storage blank aof) in
      if ok then some s else none

  -- `writeBatch`: nothing is logged.
  unfoldable pub write_batch : Storage l → calls.Batch → Bool × Storage l
  write_batch s batch =
      if s.is_open
      then (
        (calls.db_write s.database batch).0,
        record s { database = (calls.db_write s.database batch).1 },
      )
      else (false, s)

  -- `createSnapshot`; `none` is a null pointer.
  unfoldable pub create_snapshot : Storage l → Option calls.Snapshot × Storage l
  create_snapshot s =
      if s.is_open
      then (
        some (calls.db_snapshot s.database).0,
        record s { database = (calls.db_snapshot s.database).1 },
      )
      else (none, s)

  unfoldable pub release_snapshot : Storage l → Option calls.Snapshot → Storage l
  release_snapshot s none = s
  release_snapshot s (some snapshot) =
      if s.is_open then record s { database = calls.db_release s.database snapshot } else s

  -- A storage that `init_db` returns is open, over the database that LevelDB opened and the given log;
  -- it returns none exactly where LevelDB opens none.
  pub init_db_lem :
      (blank : l.Database) (path : Bytes) (aof : Aof)
      → init_db blank path aof
        ≡ Option.map
            (λ (d : l.Database). record { database = d; is_open = true; aof = aof })
            (calls.db_open (open_options 256 128 2000) path)
  unfolding init_db impl_init new_storage
  init_db_lem blank path aof =
      elim (Option-cases (calls.db_open (open_options 256 128 2000) path)) [
        | inl e ↦ rw (e, impl_init) refl
        | inr (d, e) ↦ rw (e, impl_init) refl
      ]
