-- ===== src/Program/Tests.antt =====
-- A start of a master with a small configuration file.
use blp_cache.Program.Lifecycle.{main-recover}
use blp_cache.Aof.Writer.{advance, take_batch, leaves, collect, sync_batch, store_offset}
use blp_cache.Recover.{opened, finishes, recover, Kernel}
use blp_cache.Resp.{bulk_string, bulk_strings, serialize, Command}
use blp_cache.Decimal.{digits, to_string, in_signed, read_number, stoi}
use blp_cache.Prelude.Int.{pos}
use blp_cache.Aof.{append_raw_async, make}
use blp_cache.Aof.System.{
  finish, write, gather, left, request_stop, append, gathered, written, told_to_stop, next,
  finished, Reach, System, appended, here,
}
use blp_cache.Aof.System.Faithful.{IsFaithful}
use blp_cache.Aof.System.Synced.{IsSynced}
use blp_cache.Db.Memory.{memory}
use blp_cache.Db.Setup.{init_db, impl_init, new_storage, LevelDbCalls}
use blp_cache.Config.{
  Field, init, store_field, set_value, assign, lines_from, lines, find_last_not_of,
  find_first_not_of, trim, split_equals, is_skipped, read_line, int16, read_lines, find_field,
  register, convert, make_field, number, text, FieldMap,
}
use blp_cache.Program.Start.{main-serves, started, fresh_log}
use blp_cache.Program.{
  as_replica, serves, number_of, text_of, role_of, serve_as, start_storage, define_string,
  start_log, main_at, define_int16, main, defined_fields, Served, Environment, as_master,
}
use blp_cache.Prelude.{
  Bytes, List, Option, [], arith, codes, false, inl, none, refl, same, some, true, ◌↔◌, ◌∷◌, ◌≡◌,
}

abbrev no_doubles : Bytes → Option (Unit {0})
no_doubles s = none

abbrev calls : LevelDbCalls memory
calls = record {
  Batch = List (Bytes × Bytes);
  Snapshot = Bytes → Option Bytes;
  db_open = λ options path. some (λ j. none);
  db_write = λ d batch. (true, d);
  db_snapshot = λ d. (d, d);
  db_release = λ d snapshot. d;
}

abbrev environment : Environment memory
environment = record {
  home = some (codes "/blp");
  conf = λ path. some (codes "model = master\n");
  aof_opens = λ path. true;
  aof_end = some 0;
  starts = λ port. true;
}

abbrev defaults : FieldMap (Unit {0})
defaults =
    (
      codes "model",
      record {
        kind = codes "std::string";
        name = codes "model";
        stored = text (codes "master");
        defval = codes "master";
        valmutable = false;
      },
    )
    ∷ (
      codes "replicate_host",
      record {
        kind = codes "std::string";
        name = codes "replicate_host";
        stored = text (codes "127.0.0.1");
        defval = codes "127.0.0.1";
        valmutable = false;
      },
    )
    ∷ (
      codes "replica_port",
      record {
        kind = codes "int16_t";
        name = codes "replica_port";
        stored = number (pos 6480);
        defval = codes "6480";
        valmutable = false;
      },
    )
    ∷ (
      codes "port",
      record {
        kind = codes "int16_t";
        name = codes "port";
        stored = number (pos 6479);
        defval = codes "6479";
        valmutable = false;
      },
    )
    ∷ []

defaults_defined : defined_fields no_doubles ≡ some defaults
unfolding defined_fields define_int16 define_string make_field convert register find_field same stoi
    int16 read_number in_signed
defaults_defined = refl

abbrev nothing : memory.Database
nothing j = none

abbrev served : Served memory
served = record {
  role = as_master;
  model = codes "master";
  log = fresh_log 0;
  storage = record { database = nothing; is_open = true; aof = fresh_log 0 };
}

-- The process of a master takes one command, and its log is stopped.
abbrev ping : Command
ping = codes "DEL" ∷ codes "k" ∷ []

abbrev stopped : System
stopped = told_to_stop (appended (started (fresh_log 0) []) (serialize ping))

abbrev left_over : System
left_over = finished 5 (written 20 (gathered stopped))

started-stopped : Reach (started (fresh_log 0) []) stopped
started-stopped = next (next here (append (serialize ping) refl)) (request_stop refl)

stopped-left_over : Reach stopped left_over
unfolding appended told_to_stop gathered collect take_batch written advance finished serialize
    bulk_strings bulk_string to_string digits append_raw_async
stopped-left_over =
    next (next (next here (gather refl refl)) (write 20 refl (omega arith) refl))
      (finish 5 refl refl refl)

-- A kernel that reads the file back in one chunk.
abbrev reads_back : Kernel
reads_back = record {
  open_file = opened;
  file_size = some 20;
  chunks = serialize ping ∷ [];
  read_error = false;
  ftruncate = λ _ _. true;
  seek_set = λ _. true;
  seek_end = some 20;
}

main-served : main no_doubles calls environment nothing defaults ≡ serves served
unfolding main main_at start_log start_storage serve_as role_of text_of number_of init read_lines
    read_line is_skipped split_equals trim find_first_not_of find_last_not_of lines lines_from
    assign find_field set_value convert store_field same init_db impl_init new_storage make
main-served = refl

-- The field of the model behind the file.
abbrev model_field : Field (Unit {0})
model_field = record {
  kind = codes "std::string";
  name = codes "model";
  stored = text (codes "master");
  defval = codes "master";
  valmutable = false;
}

main-serves_example :
    (served.model ≡ codes "master")
    × ((served.role ≡ as_master) ↔ (same (codes "master") (codes "master") ≡ true))
    × ((served.role ≡ as_replica) ↔ (same (codes "master") (codes "replicate") ≡ true))
    × (served.storage.is_open ≡ true)
    × (served.storage.aof ≡ served.log)
    × IsFaithful [] (started (fresh_log 0) [])
    × IsSynced (started (fresh_log 0) [])
unfolding init read_lines read_line is_skipped split_equals trim find_first_not_of find_last_not_of
    lines lines_from assign find_field set_value convert store_field same
main-serves_example =
    main-serves no_doubles calls environment nothing defaults (codes "/blp") [] (codes "master")
      model_field served (started (fresh_log 0) []) refl refl refl refl main-served here

main-recover_example : recover reads_back true ≡ finishes reads_back (ping ∷ []) none
unfolding finished store_offset sync_batch leaves left written gathered collect take_batch
    told_to_stop appended append_raw_async serialize bulk_strings bulk_string to_string digits
    advance
main-recover_example =
    main-recover no_doubles calls environment nothing defaults [] (ping ∷ []) served reads_back true
      refl main-served started-stopped refl (inl refl) stopped-left_over refl refl
      (record { opens = refl; sized = refl; nonempty = omega arith; whole = refl; no_error = refl })
      (omega arith) (omega arith)
