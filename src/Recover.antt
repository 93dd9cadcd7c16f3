-- ===== src/Recover.antt =====
-- Reading the append-only file back: `recoverFromAOF` and `readCommandsFromOffset` of
-- src/common/aof.cpp. What the kernel answers to `open`, `fstat`, `read`, `lseek` and `ftruncate`
-- is a parameter; `exec_fn` is called with the commands of `executed`, in that order.
pub mod Loop
pub mod Chunks
pub mod Log
pub mod Cuts
pub mod Results
mod Tests
use blp_cache.Resp.{Command, frame, no_frame, thrown, try_parse}
use blp_cache.Prelude.{
  Bool, Bytes, List, Option, [], drop, false, if◌then◌else◌, length, none, not, some, suc, true,
  zero, ℕ, ◌++◌, ◌+◌, ◌==◌, ◌∷◌,
}

-- Where the inner loop stands: the commands executed, the bytes they took and the bytes left; or an
-- exception has left the function.
pub data Drained : Type 0 where
  stopped : List Command → ℕ → Bytes → Drained
  escaped : List Command → Drained

unfoldable pub after : List Command → ℕ → Drained → Drained
after done n (stopped more m left) = stopped (done ++ more) (n + m) left
after done n (escaped more) = escaped (done ++ more)

-- `while (true) { ... tryParseRESPArray ... }` over the bytes of `stream_buf` from `parsed` on. Each
-- round but the last takes bytes away, so the fuel of `drain` is enough.
unfoldable pub drain_rounds : ℕ → Bytes → Drained
drain_rounds zero buf = stopped [] 0 buf
drain_rounds (suc fuel) buf = elim (try_parse buf) [
  | frame parts consumed ↦ after (parts ∷ []) consumed (drain_rounds fuel (drop consumed buf))
  | no_frame ↦ stopped [] 0 buf
  | thrown ↦ escaped []
]

unfoldable pub drain : Bytes → Drained
drain buf = drain_rounds (suc (length buf)) buf

-- One round of the outer loop, with the bytes that one call of `read` returned.
unfoldable pub read_chunk : Drained → Bytes → Drained
read_chunk (stopped done n left) chunk = after done n (drain (left ++ chunk))
read_chunk (escaped done) chunk = escaped done

unfoldable pub read_chunks : Drained → List Bytes → Drained
read_chunks s [] = s
read_chunks s (chunk ∷ chunks) = read_chunks (read_chunk s chunk) chunks

-- How `open` ends, and the two modes that src/common/aof.cpp opens the file in.
pub data Opened : Type 0 where
  opened no_such_file open_error : Opened

pub data Mode : Type 0 where
  read_only write_append : Mode

-- What the kernel answers during one call. `chunks` are the results of `read` before its last call,
-- which returns 0 or, where `read_error` is true, -1.
pub record Kernel : Type 0 where
  pub open_file : Opened
  pub file_size : Option ℕ
  pub chunks : List Bytes
  pub read_error : Bool
  pub ftruncate : Mode → ℕ → Bool
  pub seek_set : ℕ → Bool
  pub seek_end : Option ℕ

pub data Return : Type 0 where
  returned : Bool → Return
  exception : Return

-- What a call did: its result, the commands executed, the length that it cut the file to, and the
-- new `written_offset_` if it stored one.
pub record Recovery : Type 0 where
  pub result : Return
  pub executed : List Command
  pub cut_to : Option ℕ
  pub stored_offset : Option ℕ

abbrev pub quits : Bool → List Command → Recovery
quits b done = record { result = returned b; executed = done; cut_to = none; stored_offset = none }

-- The end of `recoverFromAOF`, once the tail has been dealt with.
abbrev pub finishes : Kernel → List Command → Option ℕ → Recovery
finishes k done cut = record {
  result = returned true;
  executed = done;
  cut_to = cut;
  stored_offset = k.seek_end;
}

-- `if (!stream_buf.empty())`
unfoldable pub handle_tail : Kernel → Bool → List Command → ℕ → Bytes → Recovery
handle_tail k truncate done last_good [] = finishes k done none
handle_tail k truncate done last_good (b ∷ tail) =
    if truncate
    then (if k.ftruncate read_only last_good
        then finishes k done (some last_good)
        else quits false done)
    else finishes k done none

unfoldable pub recover_scanned : Kernel → Bool → Drained → Recovery
recover_scanned k truncate (escaped done) = record {
  result = exception;
  executed = done;
  cut_to = none;
  stored_offset = none;
}
recover_scanned k truncate (stopped done last_good left) =
    if k.read_error then quits false done else handle_tail k truncate done last_good left

unfoldable pub recover_sized : Kernel → Bool → Option ℕ → Recovery
recover_sized k truncate none = quits false []
recover_sized k truncate (some size) =
    if size == 0
    then quits true []
    else recover_scanned k truncate (read_chunks (stopped [] 0 []) k.chunks)

-- `recoverFromAOF(exec_fn, truncate_incomplete_tail)`
unfoldable pub recover : Kernel → Bool → Recovery
recover k truncate = elim k.open_file [
  | opened ↦ recover_sized k truncate k.file_size
  | no_such_file ↦ quits true []
  | open_error ↦ quits false []
]

unfoldable pub read_scanned : Kernel → Drained → Return × List Command
read_scanned k (escaped done) = (exception, done)
read_scanned k (stopped done n left) = (returned (not k.read_error), done)

-- `readCommandsFromOffset(offset, exec_fn)`: the chunks are read from the offset on.
unfoldable pub read_commands_from_offset : Kernel → ℕ → Return × List Command
read_commands_from_offset k offset = elim k.open_file [
  | opened ↦
      if k.seek_set offset
      then read_scanned k (read_chunks (stopped [] 0 []) k.chunks)
      else (returned false, [])
  | no_such_file ↦ (returned false, [])
  | open_error ↦ (returned false, [])
]
