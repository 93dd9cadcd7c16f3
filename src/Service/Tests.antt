-- ===== src/Service/Tests.antt =====
-- Requests on a connection over a database in memory.
use blp_cache.Db.Memory.{log, waits}
use blp_cache.Service.Registry.{lookup, Brpc, IsBrpc}
use blp_cache.Prelude.Int.{pos, negsuc}
use blp_cache.Decimal.{digits, in_signed, stoll, in_unsigned, read_number, stoull, to_string}
use blp_cache.Db.Memory.{memory-AlwaysDeletes, memory-AlwaysPuts, memory-IsLevelDb, memory}
use blp_cache.Db.{never, split_tab, impl_get, log_command, impl_put, Storage, put}
use blp_cache.Db.Refine.{Represents, Holds-if}
use blp_cache.Db.Table.{Entry, Table, table}
use blp_cache.Service.Promise.{answer_all-table}
use blp_cache.Service.Access.{gives_password, unlocks, answer_all-locked, IsError}
use blp_cache.Service.Commands.{answer_all-set_get, unlocked_at}
use blp_cache.Db.Wrapper.{wrapper}
use blp_cache.Service.{
  error_reply, next_session, wrong_count, seconds64, expire_seconds, expire_args, set_args,
  get_args, on_master, check_session, guarded, run, answer, Handler, integer_reply, string_reply,
  null_reply, status_reply, Request, answer_all, Connection, auth_handler, get_handler, set_handler,
  ttl_handler, expire_handler,
}
use blp_cache.Prelude.{
  All, Bytes, List, [], arith, codes, if◌then◌else◌, none, refl, same, some, true, ◌∷◌, ◌≡◌,
}

abbrev storage : Storage memory
storage = record {
  database = λ j. if same (codes "k") j then some (codes "v\t-1") else none;
  is_open = true;
  aof = log;
}

-- A wrong password, and a change that is not allowed.
abbrev intruder : List Request
intruder =
    record { time = 5; handler = auth_handler; args = codes "auth" ∷ codes "guess" ∷ [] }
    ∷ record { time = 6; handler = set_handler; args = codes "set" ∷ codes "k" ∷ codes "w" ∷ [] }
    ∷ []

abbrev fresh : Connection (Storage memory)
fresh = record { session = none; storage = storage }

answer_all-locked_example :
    All IsError (answer_all (wrapper waits) (codes "master") fresh intruder).0
    × ((answer_all (wrapper waits) (codes "master") fresh intruder).1 ≡ fresh)
unfolding unlocks gives_password same
answer_all-locked_example =
    answer_all-locked (wrapper waits) (codes "master") storage intruder (refl, (refl, tt))

-- The password, then a read.
abbrev owner : List Request
owner =
    record { time = 5; handler = auth_handler; args = codes "auth" ∷ codes "123456" ∷ [] }
    ∷ record { time = 6; handler = get_handler; args = codes "get" ∷ codes "k" ∷ [] }
    ∷ []

answer_all-set_get_example :
    answer_all (wrapper waits) (codes "master") (unlocked_at storage) (
      record { time = 1; handler = set_handler; args = codes "set" ∷ codes "k" ∷ codes "w" ∷ [] }
      ∷ record { time = 2; handler = get_handler; args = codes "get" ∷ codes "k" ∷ [] }
      ∷ record { time = 3; handler = ttl_handler; args = codes "ttl" ∷ codes "k" ∷ [] }
      ∷ [])
    ≡ (
      status_reply (codes "OK") ∷ string_reply (codes "w") ∷ integer_reply (negsuc 0) ∷ [],
      unlocked_at (put waits storage (codes "k") (codes "w")).1,
    )
unfolding put impl_put log_command
answer_all-set_get_example =
    answer_all-set_get memory-IsLevelDb waits storage (codes "set") (codes "get") (codes "ttl")
      (codes "k") (codes "w") 1 2 3 (omega arith) refl

-- A table that is a list.
abbrev listed : Brpc
listed = record {
  Table = List (Bytes × Handler);
  add = λ t name h. (name, h) ∷ t;
  find = λ t name. lookup name t;
}

listed-IsBrpc : IsBrpc listed
listed-IsBrpc = record { find_add = λ t name other h absent. refl }

-- The storage stands for a table with one entry.
abbrev entry : Entry
entry = record { value = codes "v"; expires = never }

abbrev entries : Table
entries j = if same (codes "k") j then some entry else none

storage-Represents : Represents storage entries
unfolding impl_get split_tab stoull read_number in_unsigned
storage-Represents = record {
  opened = refl;
  holds = λ j.
      Holds-if (same (codes "k") j) (some (codes "v\t-1")) none (some entry) none
        (record { behind = codes "-1"; parts = refl; time = refl }) tt;
}

-- An `expire`, a `get` when the time has come, a `set`, and a `get` without a key.
abbrev visits : List Request
visits =
    record {
      time = 5;
      handler = expire_handler;
      args = codes "expire" ∷ codes "k" ∷ codes "3" ∷ [];
    }
    ∷ record { time = 9; handler = get_handler; args = codes "get" ∷ codes "k" ∷ [] }
    ∷ record { time = 10; handler = set_handler; args = codes "set" ∷ codes "k" ∷ codes "w" ∷ [] }
    ∷ record { time = 11; handler = get_handler; args = codes "get" ∷ [] }
    ∷ []

answer_all-table_example :
    let session = some (codes "123456") in
    let served =
      answer_all
        (wrapper waits)
        (codes "master")
        (record { session = session; storage = storage })
        visits in
    let promised =
      answer_all table (codes "master") (record { session = session; storage = entries }) visits in
    (served.0 ≡ promised.0)
    × (served.1.session ≡ promised.1.session)
    × Represents served.1.storage promised.1.storage
answer_all-table_example =
    answer_all-table memory-IsLevelDb memory-AlwaysPuts memory-AlwaysDeletes waits (codes "master")
      visits (some (codes "123456")) storage entries (tt, (tt, ((omega arith, tt), (tt, tt))))
      storage-Represents

-- What the table answers.
answer_all-visits :
    (answer_all table
      (codes "master")
      (record { session = some (codes "123456"); storage = entries })
      visits).0
    ≡ integer_reply (pos 1)
      ∷ null_reply
      ∷ status_reply (codes "OK")
      ∷ error_reply (codes "Expect 1 arg for 'get', actually 0")
      ∷ []
unfolding answer_all answer run guarded check_session on_master get_args set_args expire_args
    expire_seconds seconds64 stoll read_number in_signed wrong_count to_string digits same
    next_session
answer_all-visits = refl
