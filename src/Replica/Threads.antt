-- ===== src/Replica/Threads.antt =====
-- Threads of the server inside `put` and `remove` of src/core/db.cpp at once: a thread logs its change under
-- the mutex of the log, and stores it under that of the database, and between the two other threads run, the
-- writer of the log among them.
pub mod Log
pub mod Order
pub mod Race
mod Tests
use blp_cache.Aof.Writer.{collect}
use blp_cache.Resp.{Command}
use blp_cache.Replica.Stream.{changed, Change, set_change, del_change, logged_change}
use blp_cache.Db.{impl_put, impl_remove, log_command, put, remove, Storage, LevelDb, forever_suffix}
use blp_cache.Aof.{append_command_blocking, append_command_async, Aof}
use blp_cache.Prelude.{Bool, Bytes, List, [], if◌then◌else◌, refl, true, ◌++◌, ◌∷◌, ◌≡◌}

-- The second half of `put` and `remove`.
unfoldable pub store_change : {l : LevelDb} → Change → Storage l → Storage l
store_change (set_change key value) s = (impl_put s key (value ++ forever_suffix)).1
store_change (del_change key) s = (impl_remove s key).1

module _ (l : LevelDb) where
  -- The storage with its log, the changes that threads are to store, and those that the log accepted, each
  -- in the order in which the threads were at the log; and the payloads that the writer has taken.
  pub record Threads : Type 0 where
    pub storage : Storage l
    pub pending : List Change
    pub logged : List Change
    pub taken : List Bytes

-- The writer takes a batch from the queue.
unfoldable pub writer_takes : {l : LevelDb} → Threads l → Threads l
writer_takes s =
    let (batch, aof) = collect s.storage.aof in
    record s { storage = record s.storage { aof = aof }; taken = s.taken ++ batch }

module _ {l : LevelDb} (wake : Aof → Aof) where
  -- Whether the log takes a command: both appends refuse it once the log is stopped, and then the thread
  -- goes on to store its change.
  unfoldable pub log_accepts : Storage l → Command → Bool
  log_accepts s cmd =
      let first = append_command_async s.aof cmd in
      if first.accepted then true else (append_command_blocking wake first.aof cmd).accepted

  unfoldable pub thread_logs : Change → Threads l → Threads l
  thread_logs c s = record {
    storage = log_command wake s.storage (logged_change c);
    pending = s.pending ++ (c ∷ []);
    logged = if log_accepts s.storage (logged_change c) then s.logged ++ (c ∷ []) else s.logged;
    taken = s.taken;
  }

  unfoldable pub thread_stores : Change → List Change → Threads l → Threads l
  thread_stores c others s = record s { storage = store_change c s.storage; pending = others }

  -- A step of some thread. `Next` says which of the pending changes may be stored, from those whose
  -- threads were at the log before.
  pub data ThreadStep (Next : Change → List Change → Type 0) (s t : Threads l) : Type 0 where
    logs : (c : Change) → t ≡ thread_logs c s → ThreadStep Next s t
    stores :
        (c : Change) (before behind : List Change)
        → s.pending ≡ before ++ (c ∷ behind)
        → Next c before
        → t ≡ thread_stores c (before ++ behind) s
        → ThreadStep Next s t
    takes : t ≡ writer_takes s → ThreadStep Next s t

  pub data ThreadReach (Next : Change → List Change → Type 0) (s : Threads l)
      : Threads l → Type 0 where
    unmoved : ThreadReach Next s s
    moved : {t u : Threads l} → ThreadReach Next s t → ThreadStep Next t u → ThreadReach Next s u

-- One thread alone: the two halves are the operation.
store_change-log_command :
    {l : LevelDb} (wake : Aof → Aof) (c : Change) (s : Storage l)
    → store_change c (log_command wake s (logged_change c)) ≡ changed wake s c
unfolding store_change put remove
store_change-log_command wake (set_change key value) s = refl
store_change-log_command wake (del_change key) s = refl

-- No thread is in an operation.
abbrev pub all_quiet : {l : LevelDb} → Storage l → Threads l
all_quiet s = record { storage = s; pending = []; logged = []; taken = [] }
