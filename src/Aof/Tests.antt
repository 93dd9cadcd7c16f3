-- ===== src/Aof/Tests.antt =====
-- A run of the log, and the theorems at it.
use blp_cache.Aof.System.Crash.{recover-crash, Recovered}
use blp_cache.Aof.System.Synced.{Reach-IsSynced, IsSynced}
use blp_cache.Aof.System.Stop.{stop_keeps_all, stop_loses_payload}
use blp_cache.Aof.System.Failure.{AnyReach, failed, at_start, later, fine, write_fails}
use blp_cache.Aof.System.Failure.Gap.{failed_write_leaves_gap}
use blp_cache.Aof.System.Bounds.{IsBounded, AnyReach-IsBounded}
use blp_cache.Aof.System.EndToEnd.{recover-System}
use blp_cache.Recover.{finishes, recover, opened, Kernel}
use blp_cache.Aof.System.Faithful.{Reach-IsFaithful, IsFaithful}
use blp_cache.Aof.Writer.Writev.{write_all-done}
use blp_cache.Decimal.{digits, to_string}
use blp_cache.Resp.{bulk_string, bulk_strings, serialize, Command}
use blp_cache.Aof.Writer.{
  leaves, sync_batch, write_all, Written, store_offset, interrupted, wrote, done, take_batch,
  collect, advance,
}
use blp_cache.Aof.System.{
  left, ended, Reach, written, gathered, told_to_stop, finished, appended, System, append,
  request_stop, gather, write, finish, gathering, here, next,
}
use blp_cache.Aof.{append_raw_async, make, Options, Aof}
use blp_cache.Prelude.{
  Bytes, List, [], arith, codes, concat, false, inl, length, none, refl, some, take, true, ◌++◌,
  ◌<◌, ◌∷◌, ◌≡◌, ◌≢◌,
}

abbrev small_options : Options
small_options = record {
  max_queue_entries = 2;
  max_batch_entries = 2;
  max_batch_bytes = 100;
  flush_interval = 100;
  durability_mode = 1;
  periodic_fsync_interval = 1000;
}

abbrev fresh : Aof
fresh = record {
  opts = small_options;
  queue = [];
  stop_flag = false;
  listeners = 7 ∷ [];
  fd_open = true;
  writer_started = true;
  written_offset = 0;
}

fresh_made : make small_options true (some 0) ≡ some (record fresh { listeners = [] })
unfolding make
fresh_made = refl

abbrev begin : System
begin = record {
  aof = fresh;
  batch = [];
  file = [];
  synced = 0;
  last_fsync = 0;
  phase = gathering;
  accepted = [];
}

abbrev ping : Command
ping = codes "DEL" ∷ codes "k" ∷ []

-- The command is queued, then the log is stopped, and the writer writes it in two writes.
abbrev run_end : System
run_end =
    finished 5 (written 12 (written 8 (gathered (told_to_stop (appended begin (serialize ping))))))

-- The state at which it is stopped.
abbrev closing : System
closing = told_to_stop (appended begin (serialize ping))

closing-Reach : Reach begin closing
closing-Reach = next (next here (append (serialize ping) refl)) (request_stop refl)

run_end-closing : Reach closing run_end
unfolding appended told_to_stop gathered collect take_batch written advance finished serialize
    bulk_strings bulk_string to_string digits append_raw_async
run_end-closing =
    next
      (next (next (next here (gather refl refl)) (write 8 refl (omega arith) refl))
        (write 12 refl (omega arith) refl))
      (finish 5 refl refl refl)

begin-IsFaithful : IsFaithful [] begin
begin-IsFaithful = record {
  bytes = refl;
  idle = λ _. refl;
  over = λ e. cc;
  offset = omega arith;
  some_entries = omega arith;
  some_bytes = omega arith;
}

closing-IsFaithful : IsFaithful [] closing
closing-IsFaithful = Reach-IsFaithful [] begin-IsFaithful closing-Reach

Reach-IsFaithful_example : IsFaithful [] run_end
Reach-IsFaithful_example = Reach-IsFaithful [] closing-IsFaithful run_end-closing

stop_keeps_all_example :
    (run_end.file ≡ [] ++ concat run_end.accepted)
    × (0 < run_end.aof.opts.durability_mode → run_end.synced ≡ length run_end.file)
unfolding finished store_offset sync_batch leaves left written gathered collect take_batch
    told_to_stop appended append_raw_async serialize bulk_strings bulk_string to_string digits
    advance
stop_keeps_all_example = stop_keeps_all [] closing-IsFaithful refl (inl refl) run_end-closing refl

stop_loses_payload_example :
    (t : System) × Reach begin t
    × (t.phase ≡ ended)
    × (t.accepted ≡ begin.accepted ++ (serialize ping ∷ []))
    × (t.aof.queue ≡ serialize ping ∷ [])
    × (t.file ≡ begin.file)
stop_loses_payload_example = stop_loses_payload begin (serialize ping) refl refl refl (omega arith)

-- A kernel that reads a file of 20 bytes in one chunk.
abbrev reads_back : Bytes → Kernel
reads_back file = record {
  open_file = opened;
  file_size = some (length file);
  chunks = file ∷ [];
  read_error = false;
  ftruncate = λ _ _. true;
  seek_set = λ _. true;
  seek_end = some (length file);
}

recover-System_example :
    recover (reads_back (serialize ping)) true
    ≡ finishes (reads_back (serialize ping)) (ping ∷ []) none
unfolding finished store_offset sync_batch leaves left written gathered collect take_batch
    told_to_stop appended append_raw_async serialize bulk_strings bulk_string to_string digits
    advance
recover-System_example =
    recover-System (reads_back (serialize ping)) true [] (ping ∷ []) closing-IsFaithful refl
      (inl refl) run_end-closing refl refl
      (record { opens = refl; sized = refl; nonempty = omega arith; whole = refl; no_error = refl })
      (omega arith) (omega arith)

-- The first write of the run has put 8 of the 20 bytes into the file, and the machine stops.
abbrev crashed : System
crashed = written 8 (gathered (told_to_stop (appended begin (serialize ping))))

crashed-Reach : Reach begin crashed
unfolding appended told_to_stop gathered collect take_batch written advance serialize bulk_strings
    bulk_string to_string digits append_raw_async
crashed-Reach =
    next
      (next (next (next here (append (serialize ping) refl)) (request_stop refl))
        (gather refl refl))
      (write 8 refl (omega arith) refl)

recover-crash_example :
    Recovered (reads_back (take 5 crashed.file)) true (ping ∷ []) (take 5 crashed.file)
unfolding written gathered collect take_batch told_to_stop appended append_raw_async serialize
    bulk_strings bulk_string to_string digits advance
recover-crash_example =
    recover-crash (reads_back (take 5 crashed.file)) true (ping ∷ []) 5 begin-IsFaithful
      crashed-Reach refl (omega arith) (omega arith) (omega arith)
      (record { opens = refl; sized = refl; nonempty = omega arith; whole = refl; no_error = refl })

begin-IsSynced : IsSynced begin
begin-IsSynced = record { each_batch = refl; all_synced = λ _. refl; within = omega arith }

joined : {s t u : System} → Reach s t → Reach t u → Reach s u
joined r here = r
joined r (next q st) = next (joined r q) st

Reach-IsSynced_example : IsSynced run_end
Reach-IsSynced_example = Reach-IsSynced begin-IsSynced (joined closing-Reach run_end-closing)

-- The queue is full, and the writer empties it.
abbrev full : Aof
full = record fresh { queue = codes "a" ∷ codes "b" ∷ [] }

abbrev emptied : Aof → Aof
emptied a = record a { queue = [] }

abbrev answers : List Written
answers = wrote 1 ∷ interrupted ∷ wrote 2 ∷ wrote 1 ∷ []

abbrev buffers : List Bytes
buffers = codes "ab" ∷ codes "cd" ∷ []

write_all-done_example :
    write_all (wrote 1 ∷ interrupted ∷ wrote 1 ∷ wrote 1 ∷ wrote 1 ∷ []) [] buffers
    ≡ done ([] ++ concat buffers)
unfolding advance
write_all-done_example =
    write_all-done (wrote 1 ∷ interrupted ∷ wrote 1 ∷ wrote 1 ∷ wrote 1 ∷ []) [] buffers
      (omega arith) (omega arith) (omega arith) (omega arith)

-- A payload is taken, and its write fails.
abbrev broken : System
broken = failed (gathered (appended begin (serialize ping)))

broken-AnyReach : AnyReach begin broken
unfolding appended append_raw_async gathered collect take_batch serialize bulk_strings bulk_string
    to_string digits
broken-AnyReach =
    later (later (later at_start (fine (append (serialize ping) refl))) (fine (gather refl refl)))
      (write_fails refl (λ h. cons_ne (serialize ping) h) refl)
  where
    cons_ne : (b : Bytes) → b ∷ [] ≢ []
    cons_ne b h = cc

failed_write_leaves_gap_example :
    (t : System) × AnyReach begin t
    × (t.phase ≡ ended)
    × (t.accepted ≡ begin.accepted ++ (codes "a" ∷ codes "b" ∷ []))
    × (t.file ≡ begin.file ++ codes "b")
failed_write_leaves_gap_example =
    failed_write_leaves_gap begin (codes "a") (codes "b") refl refl refl (omega arith) (omega arith)
      (omega arith) (omega arith)

AnyReach-IsBounded_example : IsBounded broken
AnyReach-IsBounded_example =
    AnyReach-IsBounded (record { queued = omega arith; taken = omega arith }) broken-AnyReach
