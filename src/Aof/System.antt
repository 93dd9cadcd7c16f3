-- ===== src/Aof/System.antt =====
-- The log with its writer thread, as the steps that its threads can take in any order: appends, the
-- request to stop, and the parts of a round of `writerLoop` (src/common/aof.cpp) between which the
-- mutex is free.
pub mod Faithful
pub mod EndToEnd
pub mod Crash
pub mod Synced
pub mod Stop
pub mod Failure
pub mod Bounds
pub mod Offset
use blp_cache.Aof.{Aof, Append, Io, append_raw_async, append_raw_blocking, can_proceed}
use blp_cache.Aof.Writer.{
  collect, advance, offered, store_offset, sync_batch, leaves, idle, last_sync,
}
use blp_cache.Prelude.{
  Bytes, List, [], if◌then◌else◌, length, none, some, take, true, ℕ, ◌++◌, ◌==◌, ◌∷◌, ◌≡◌, ◌≤◌,
}

-- Where the writer thread is: about to gather a batch, behind an empty one with the test of `stop_flag_`
-- ahead, writing a batch, or out of its loop.
pub data Phase : Type 0 where
  gathering testing writing ended : Phase

-- The object, the buffers of the batch that are not written yet, the bytes of the file, how many of
-- them the last `fsync` covered and when it was; and the payloads accepted so far, oldest first.
pub record System : Type 0 where
  pub aof : Aof
  pub batch : List Bytes
  pub file : Bytes
  pub synced : ℕ
  pub last_fsync : ℕ
  pub phase : Phase
  pub accepted : List Bytes

abbrev record_append : System → Bytes → Append → System
record_append s payload r = record s {
  aof = r.aof;
  accepted = if r.accepted then s.accepted ++ (payload ∷ []) else s.accepted;
}

-- `appendRawAsync`, by any thread.
unfoldable pub appended : System → Bytes → System
appended s payload = record_append s payload (append_raw_async s.aof payload)

-- The end of `appendRawBlocking`, at a state at which its wait is over.
unfoldable pub appended_waited : System → Bytes → System
appended_waited s payload = record_append s payload (append_raw_blocking (λ a. a) s.aof payload)

-- The first part of `stop`.
unfoldable pub told_to_stop : System → System
told_to_stop s = record s { aof = record s.aof { stop_flag = true } }

-- A batch is taken. Where it is empty the mutex is free before `stop_flag_` is tested.
unfoldable pub gathered : System → System
gathered s =
    let (batch, aof) = collect s.aof in
    record s { aof = aof; batch = batch; phase = if length batch == 0 then testing else writing }

-- One call of `writev` that wrote `n` bytes.
unfoldable pub written : ℕ → System → System
written n s = record s { file = s.file ++ take n (offered s.batch); batch = advance n s.batch }

abbrev synced_by : List Io → System → ℕ
synced_by [] s = s.synced
synced_by (_ ∷ _) s = length s.file

-- The way out of the loop.
unfoldable pub left : System → System
left s = record s { synced = synced_by (last_sync s.aof.opts) s; phase = ended }

-- Behind an empty batch: the thread leaves its loop, or goes on waiting, where need be with a sync.
unfoldable pub tested : ℕ → System → System
tested now s = elim (idle s.aof now s.last_fsync) [
  | none ↦ left s
  | some (at, io) ↦ record s { synced = synced_by io s; last_fsync = at; phase = gathering }
]

-- Behind the last `writev` of a batch: the offset, the sync policy and the test of `stop_flag_`. The
-- file is open for appending, so `lseek` gives its length.
unfoldable pub finished : ℕ → System → System
finished now s =
    let aof = store_offset (some (length s.file)) s.aof in
    let (at, io) = sync_batch aof.opts now s.last_fsync in
    let t = record s { aof = aof; synced = synced_by io s; last_fsync = at; phase = gathering } in
    if leaves aof then left t else t

-- The steps of a run in which no `writev` fails.
pub data Step (s t : System) : Type 0 where
  append : (payload : Bytes) → t ≡ appended s payload → Step s t
  append_waited :
      (payload : Bytes) → can_proceed s.aof ≡ true → t ≡ appended_waited s payload → Step s t
  request_stop : t ≡ told_to_stop s → Step s t
  gather : s.phase ≡ gathering → t ≡ gathered s → Step s t
  test : (now : ℕ) → s.phase ≡ testing → t ≡ tested now s → Step s t
  write : (n : ℕ) → s.phase ≡ writing → n ≤ length (offered s.batch) → t ≡ written n s → Step s t
  finish : (now : ℕ) → s.phase ≡ writing → s.batch ≡ [] → t ≡ finished now s → Step s t

pub data Reach (s : System) : System → Type 0 where
  here : Reach s s
  next : {t u : System} → Reach s t → Step t u → Reach s u
