-- ===== src/Aof/Writer.antt =====
-- The writer thread: `writerLoop` of src/common/aof.cpp, one function for each part of a round. The
-- kernel's answers to `writev`, `lseek` and the clock are parameters.
pub mod Batch
pub mod Writev
use blp_cache.Aof.{Aof, Options, Io, fsync}
use blp_cache.Prelude.{
  Bool, Bytes, List, Option, [], concat, drop, if◌then◌else◌, leb, length, ltb, none, some, take, ℕ,
  ◌&&◌, ◌++◌, ◌+◌, ◌-◌, ◌==◌, ◌∷◌,
}

-- The loop that moves payloads from the queue to the batch, `count` of them with `bytes` bytes there.
unfoldable pub take_batch : Options → ℕ → ℕ → List Bytes → List Bytes × List Bytes
take_batch opts count bytes [] = ([], [])
take_batch opts count bytes (s ∷ queue) =
    let (batch, rest) = take_batch opts (count + 1) (bytes + length s) queue in
    if ltb count opts.max_batch_entries && ltb bytes opts.max_batch_bytes
    then (s ∷ batch, rest)
    else ([], s ∷ queue)

-- The part of a round under the mutex: the batch, and the object with the queue that is left.
unfoldable pub collect : Aof → List Bytes × Aof
collect a = let (batch, rest) = take_batch a.opts 0 0 a.queue in (batch, record a { queue = rest })

-- `IOV_MAX_SLICE`
abbrev pub iov_max_slice : ℕ
iov_max_slice = 64

-- The inner loop: `remaining` bytes of the buffers were written. An index into the buffers with the
-- moved start of the first is the list of what is left.
unfoldable pub advance : ℕ → List Bytes → List Bytes
advance remaining [] = []
advance remaining (iov ∷ iovs) =
    let next = advance (remaining - length iov) iovs in
    if remaining == 0
    then iov ∷ iovs
    else if leb (length iov) remaining
    then next
    else drop remaining iov ∷ iovs

-- What a call of `writev` returns: a count of bytes, `EINTR`, or another error.
pub data Written : Type 0 where
  wrote : ℕ → Written
  interrupted : Written
  write_error : Written

-- Where the loop over the buffers stands when it ends, or when no further answer is given: the bytes
-- in the file and, unless it is done, the buffers left.
pub data Progress : Type 0 where
  done : Bytes → Progress
  failed : Bytes → List Bytes → Progress
  waiting : Bytes → List Bytes → Progress

-- The bytes that one call of `writev` is offered.
abbrev pub offered : List Bytes → Bytes
offered iovs = concat (take iov_max_slice iovs)

-- `while (idx < iovs.size())`: one answer of the kernel for each call.
unfoldable pub write_all : List Written → Bytes → List Bytes → Progress
write_all answers file [] = done file
write_all [] file (iov ∷ iovs) = waiting file (iov ∷ iovs)
write_all (interrupted ∷ answers) file (iov ∷ iovs) = write_all answers file (iov ∷ iovs)
write_all (write_error ∷ answers) file (iov ∷ iovs) = failed file (iov ∷ iovs)
write_all (wrote n ∷ answers) file (iov ∷ iovs) =
    write_all answers (file ++ take n (offered (iov ∷ iovs))) (advance n (iov ∷ iovs))

-- What an idle round does: `none` where the thread leaves its loop, else the time of the last sync
-- and what is done to the file.
unfoldable pub idle : Aof → ℕ → ℕ → Option (ℕ × List Io)
idle a now last_fsync =
    if a.stop_flag
    then none
    else if a.opts.durability_mode == 2
        && (leb a.opts.periodic_fsync_interval (now - last_fsync) && a.fd_open)
    then some (now, fsync ∷ [])
    else some (last_fsync, [])

-- The sync policy behind a batch.
unfoldable pub sync_batch : Options → ℕ → ℕ → ℕ × List Io
sync_batch opts now last_fsync =
    if opts.durability_mode == 1
    then (now, fsync ∷ [])
    else if opts.durability_mode == 2 && leb opts.periodic_fsync_interval (now - last_fsync)
    then (now, fsync ∷ [])
    else (last_fsync, [])

-- The new `written_offset_`, from what `lseek` gives.
unfoldable pub store_offset : Option ℕ → Aof → Aof
store_offset none a = a
store_offset (some cur) a = record a { written_offset = cur }

-- Whether the thread leaves its loop behind a batch.
unfoldable pub leaves : Aof → Bool
leaves a = a.stop_flag && (length a.queue == 0)

-- What happens on leaving the loop.
unfoldable pub last_sync : Options → List Io
last_sync opts = if ltb 0 opts.durability_mode then fsync ∷ [] else []
