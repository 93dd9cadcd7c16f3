-- ===== src/Aof.antt =====
-- The class `Aof` of src/common/aof.h and src/common/aof.cpp: the bounded queue of payloads between
-- the threads that append and the writer thread. An operation takes the object and returns it
-- changed, beside its result; each runs under the mutex `mu_` of the source.
pub mod Queue
pub mod Writer
pub mod System
mod Tests
use blp_cache.Resp.{Command, serialize}
use blp_cache.Prelude.{
  Bool, Bytes, List, Option, [], false, if◌then◌else◌, leb, length, ltb, none, some, true, ℕ, ◌++◌,
  ◌||◌, ◌∷◌, ◌>>=◌,
}

-- `Options`; the intervals are in milliseconds.
pub record Options : Type 0 where
  pub max_queue_entries : ℕ
  pub max_batch_entries : ℕ
  pub max_batch_bytes : ℕ
  pub flush_interval : ℕ
  pub durability_mode : ℕ
  pub periodic_fsync_interval : ℕ

abbrev pub default_options : Options
default_options = record {
  max_queue_entries = 65536;
  max_batch_entries = 512;
  max_batch_bytes = 65536;
  flush_interval = 200;
  durability_mode = 1;
  periodic_fsync_interval = 1000;
}

-- A registered callback, by the number of its registrant.
abbrev pub Listener : Type 0
Listener = ℕ

-- The fields of the class that its operations change. `fd_open` is `fd_ >= 0`.
pub record Aof : Type 0 where
  pub opts : Options
  pub queue : List Bytes
  pub stop_flag : Bool
  pub listeners : List Listener
  pub fd_open : Bool
  pub writer_started : Bool
  pub written_offset : ℕ

-- What an append returns: whether the payload was queued, the object, and the callbacks that
-- `notifyListeners` made, in order.
pub record Append : Type 0 where
  pub accepted : Bool
  pub aof : Aof
  pub called : List Listener

-- `notifyListeners`: the callbacks that are made, over a copy of the listeners. What they throw is caught.
abbrev pub notify_listeners : Aof → List Listener
notify_listeners a = a.listeners

-- `queue_.push_back`, then `notifyListeners`.
unfoldable pub enqueue : Aof → Bytes → Append
enqueue a payload = record {
  accepted = true;
  aof = record a { queue = a.queue ++ (payload ∷ []) };
  called = notify_listeners a;
}

abbrev pub refuses : Aof → Append
refuses a = record { accepted = false; aof = a; called = [] }

-- `appendRawAsync`
unfoldable pub append_raw_async : Aof → Bytes → Append
unfolding enqueue
append_raw_async a payload =
    if a.stop_flag
    then refuses a
    else if leb a.opts.max_queue_entries (length a.queue)
    then refuses a
    else enqueue a payload

-- The predicate that `cv_space_.wait` waits for.
abbrev pub can_proceed : Aof → Bool
can_proceed a = a.stop_flag || ltb (length a.queue) a.opts.max_queue_entries

-- `appendRawBlocking`. `wake a` is the object at the end of the wait, if there is one to wait for.
unfoldable pub append_raw_blocking : (Aof → Aof) → Aof → Bytes → Append
unfolding enqueue
append_raw_blocking wake a payload =
    let a' = if can_proceed a then a else wake a in
    if a'.stop_flag then refuses a' else enqueue a' payload

-- `appendCommandAsync`
unfoldable pub append_command_async : Aof → Command → Append
append_command_async a parts = append_raw_async a (serialize parts)

-- `appendCommandBlocking`
unfoldable pub append_command_blocking : (Aof → Aof) → Aof → Command → Append
append_command_blocking wake a parts = append_raw_blocking wake a (serialize parts)

unfoldable pub register_listener : Aof → Listener → Aof
register_listener a cb = record a { listeners = a.listeners ++ (cb ∷ []) }

abbrev pub get_current_offset : Aof → ℕ
get_current_offset a = a.written_offset

-- `startWriter`; the second part says whether it started a thread.
unfoldable pub start_writer : Aof → Aof × Bool
start_writer a =
    if a.writer_started
    then (a, false)
    else (record a { stop_flag = false; writer_started = true }, true)

-- `openFile`, from the offset of the file's end, which `lseek` may not give; `none` is the exception.
unfoldable pub open_file : Aof → Bool → Option ℕ → Option Aof
open_file a false seek = none
open_file a true none = some (record a { fd_open = true })
open_file a true (some cur) = some (record a { fd_open = true; written_offset = cur })

-- The constructor: the file is opened, and the writer started.
unfoldable pub make : Options → Bool → Option ℕ → Option Aof
unfolding open_file start_writer
make opts opens seek = do
  a ←
      open_file
        (record {
          opts = opts;
          queue = [];
          stop_flag = false;
          listeners = [];
          fd_open = false;
          writer_started = false;
          written_offset = 0;
        })
        opens seek
  some (start_writer a).0

-- What `stop` does to the file.
pub data Io : Type 0 where
  fsync close_file : Io

unfoldable pub close_down : Aof → Aof × List Io
close_down a =
    if a.fd_open
    then (
      record a { writer_started = false; fd_open = false },
      if ltb 0 a.opts.durability_mode then fsync ∷ close_file ∷ [] else close_file ∷ [],
    )
    else (record a { writer_started = false }, [])

-- `stop`. `joined` is the object once the writer thread, told to stop, has ended.
unfoldable pub stop : (Aof → Aof) → Aof → Aof × List Io
unfolding close_down
stop joined a = if a.stop_flag then (a, []) else close_down (joined (record a { stop_flag = true }))
