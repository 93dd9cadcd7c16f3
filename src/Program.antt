-- ===== src/Program.antt =====
-- The start of the program: `main` of src/blp.cpp, and the fields that src/common/config.cpp defines.
-- The flags, the printing and brpc's own start are not modelled; `std::stod` is a parameter.
pub mod Start
pub mod Lifecycle
mod Tests
use blp_cache.Aof.{Options, Aof, make}
use blp_cache.Config.{text, number, flag, double, Field, FieldMap, make_field, register, find_field}
use blp_cache.Config
use blp_cache.Db.{LevelDb, Storage}
use blp_cache.Db.Setup.{LevelDbCalls, init_db}
use blp_cache.Prelude.Int.{ℤ, pos}
use blp_cache.Prelude.{
  Bool, Bytes, Option, [], codes, false, if◌then◌else◌, none, replicate, same, some, ℕ, ◌*◌, ◌++◌,
  ◌^◌, ◌>>=◌,
}

module _ {Double : Type 0} (stod : Bytes → Option Double) where
  -- A `DEFINE_Int16` or `DEFINE_String`: the field is made with its default and registered.
  unfoldable pub define_int16 : FieldMap Double → Bytes → Bytes → Option (FieldMap Double)
  define_int16 fields name default = do
    f ← make_field stod (codes "int16_t") name (number (pos 0)) default false
    some (register fields name f)

  unfoldable pub define_string : FieldMap Double → Bytes → Bytes → Option (FieldMap Double)
  define_string fields name default = do
    f ← make_field stod (codes "std::string") name (text []) default false
    some (register fields name f)

  unfoldable pub defined_fields : Option (FieldMap Double)
  defined_fields = do
    a ← define_int16 [] (codes "port") (codes "6479")
    b ← define_int16 a (codes "replica_port") (codes "6480")
    c ← define_string b (codes "replicate_host") (codes "127.0.0.1")
    define_string c (codes "model") (codes "master")

module _ {Double : Type 0} where
  unfoldable pub text_of : Option (Field Double) → Bytes
  text_of none = []
  text_of (some f) = elim f.stored [ text s ↦ s | flag b ↦ [] | number n ↦ [] | double d ↦ [] ]

  unfoldable pub number_of : Option (Field Double) → ℤ
  number_of none = pos 0
  number_of (some f) = elim f.stored [
    | text s ↦ pos 0
    | flag b ↦ pos 0
    | number n ↦ n
    | double d ↦ pos 0
  ]

-- The options of `main`.
abbrev pub main_options : Options
main_options = record {
  max_queue_entries = 2 ^ 14;
  max_batch_entries = 256;
  max_batch_bytes = 128 * 1024;
  flush_interval = 100;
  durability_mode = 1;
  periodic_fsync_interval = 1000;
}

pub data Role : Type 0 where
  as_master as_replica : Role

unfoldable pub role_of : Bytes → Option Role
role_of model =
    if same model (codes "master")
    then some as_master
    else if same model (codes "replicate")
    then some as_replica
    else none

module _ (l : LevelDb) where
  -- What the machine answers: `BLP_HOME`, the bytes of the configuration file, how the log opens and where
  -- it ends, and whether brpc starts on a port.
  pub record Environment : Type 0 where
    pub home : Option Bytes
    pub conf : Bytes → Option Bytes
    pub aof_opens : Bytes → Bool
    pub aof_end : Option ℕ
    pub starts : ℤ → Bool

  -- What a process that serves clients holds.
  pub record Served : Type 0 where
    pub role : Role
    pub model : Bytes
    pub log : Aof
    pub storage : Storage l

  -- How `main` comes out: with an exception, with `return -1`, or serving.
  pub data Outcome : Type 0 where
    uncaught : Outcome
    exits : Outcome
    serves : Served → Outcome

module _ {l : LevelDb} where
  unfoldable pub serve_as : Bytes → Aof → Storage l → Option Role → Outcome l
  serve_as model log storage none = exits
  serve_as model log storage (some role) =
      serves (record { role = role; model = model; log = log; storage = storage })

module _ {Double : Type 0} (stod : Bytes → Option Double) {l : LevelDb}
    (calls : LevelDbCalls l) where
  -- Behind the configuration: the log, the database, the server and the role.
  unfoldable pub start_storage :
      Environment l → l.Database → Bytes → FieldMap Double → Aof → Outcome l
  start_storage env blank home fields log =
      elim (init_db calls blank (home ++ codes "/data/db") log) [
        | none ↦ exits
        | some storage ↦
            if env.starts (number_of (find_field fields (codes "port")))
            then (let model = text_of (find_field fields (codes "model")) in
                serve_as model log storage (role_of model))
            else exits
      ]

  unfoldable pub start_log : Environment l → l.Database → Bytes → FieldMap Double → Outcome l
  start_log env blank home fields =
      elim (make main_options (env.aof_opens (home ++ codes "/data/appendonly.aof")) env.aof_end) [
        | none ↦ uncaught
        | some log ↦ start_storage env blank home fields log
      ]

  -- `main`, with the fields as they were defined. `std::string` of a null pointer is an exception.
  unfoldable pub main_at : Environment l → l.Database → FieldMap Double → Option Bytes → Outcome l
  main_at env blank fields none = uncaught
  main_at env blank fields (some home) =
      let (ok, fields') = Config.init stod (env.conf (home ++ codes "/conf/blp.conf")) fields in
      let started = start_log env blank home fields' in if ok then started else uncaught

  unfoldable pub main : Environment l → l.Database → FieldMap Double → Outcome l
  main env blank fields = main_at env blank fields env.home
