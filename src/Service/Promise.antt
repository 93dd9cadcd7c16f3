-- ===== src/Service/Promise.antt =====
-- What the server promises its clients: the replies of a table with times of expiry.
use blp_cache.Service.Refine.{answer_all-Simulation, SetsAllowed}
use blp_cache.Service.{answer_all, Request, Session}
use blp_cache.Db.Refine.{AlwaysPuts, Represents, wrapper-Simulation}
use blp_cache.Db.Wrapper.{wrapper}
use blp_cache.Db.Table.{Table, table}
use blp_cache.Db.Split.{LacksTab}
use blp_cache.Db.Cleaner.{AlwaysDeletes}
use blp_cache.Db.{Storage, LevelDb, IsLevelDb}
use blp_cache.Aof.{Aof}
use blp_cache.Prelude.{All, Bytes, List, ◌≡◌}

module _ {l : LevelDb} (law : IsLevelDb l) (puts : AlwaysPuts l) (deletes : AlwaysDeletes l)
    (wake : Aof → Aof) where
  -- Over a LevelDB whose writes succeed, on any node, with any session, for any requests whose `set`
  -- values have no tab: every reply is that of a table of values with times of expiry to the same
  -- requests, errors included, and the stored texts stand for the table's entries again. In the table an
  -- entry whose time has come is not shown, but is there until a `get` of its key, and `expire` gives it
  -- a new time.
  pub answer_all-table :
      (model : Bytes) (requests : List Request) (session : Session) (s : Storage l) (t : Table)
      → All (λ (q : Request). SetsAllowed LacksTab q.handler q.args) requests
      → Represents s t
      → let served =
          answer_all (wrapper wake) model (record { session = session; storage = s }) requests in
        let promised =
          answer_all table model (record { session = session; storage = t }) requests in
        (served.0 ≡ promised.0)
        × (served.1.session ≡ promised.1.session)
        × Represents served.1.storage promised.1.storage
  answer_all-table model requests session s t clean r =
      answer_all-Simulation (wrapper wake) table Represents LacksTab
        (wrapper-Simulation law puts deletes wake) model requests session s t clean r
