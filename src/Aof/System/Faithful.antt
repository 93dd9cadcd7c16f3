-- ===== src/Aof/System/Faithful.antt =====
-- The log is faithful: what was accepted is in the file, in the batch or in the queue, in order.
use blp_cache.Aof.Writer.Batch.{collect_lem}
use blp_cache.Aof.Writer.Writev.{advance-total}
use blp_cache.Aof.Writer.{sync_batch, collect, idle, leaves, advance, store_offset, offered}
use blp_cache.Aof.{Aof, append_raw_blocking, append_raw_async}
use blp_cache.Aof.System.{
  here, next, finish, write, gather, request_stop, append_waited, append, next, Step, Reach,
  told_to_stop, appended_waited, finished, gathered, appended, written, System, gathering, writing,
  ended, tested, testing, test, left,
}
use blp_cache.Prelude.{
  Bytes, List, [], ap, append_assoc, arith, concat, concat-append, length, length-append,
  length-zero, refl, sym, take, true, ℕ, ◌++◌, ◌<◌, ◌∙◌, ◌∷◌, ◌≡◌, ◌≢◌, ◌≤◌,
}

-- What holds of every state between two steps, where the file was `initial` at the start.
pub record IsFaithful (initial : Bytes) (s : System) : Type 0 where
  pub bytes : s.file ++ (concat s.batch ++ concat s.aof.queue) ≡ initial ++ concat s.accepted
  pub idle : s.phase ≢ writing → s.batch ≡ []
  pub over : s.phase ≡ ended → s.aof.stop_flag ≡ true
  pub offset : s.aof.written_offset ≤ length s.file
  pub some_entries : 0 < s.aof.opts.max_batch_entries
  pub some_bytes : 0 < s.aof.opts.max_batch_bytes

regroup : (a b c d : Bytes) → a ++ (b ++ (c ++ d)) ≡ (a ++ (b ++ c)) ++ d
regroup a b c d = simp append_assoc

module _ (initial : Bytes) {s : System} (v : IsFaithful initial s) where
  queued-bytes :
      (payload : Bytes)
      → s.file ++ (concat s.batch ++ concat (s.aof.queue ++ (payload ∷ [])))
        ≡ initial ++ concat (s.accepted ++ (payload ∷ []))
  queued-bytes payload =
      let more_bytes = payload ++ [] in
      ap (λ t. s.file ++ (concat s.batch ++ t)) (concat-append s.aof.queue (payload ∷ []))
      ∙ regroup s.file (concat s.batch) (concat s.aof.queue) more_bytes
      ∙ ap (λ t. t ++ more_bytes) v.bytes
      ∙ append_assoc initial (concat s.accepted) more_bytes
      ∙ ap (λ t. initial ++ t) (sym (concat-append s.accepted (payload ∷ [])))

  appended-IsFaithful : (payload : Bytes) → IsFaithful initial (appended s payload)
  unfolding appended append_raw_async
  appended-IsFaithful payload = record {
    bytes = ground (arith, v.bytes, queued-bytes payload);
    idle = v.idle;
    over = λ e. ground (arith, v.over e);
    offset = ground (arith, v.offset);
    some_entries = ground (arith, v.some_entries);
    some_bytes = ground (arith, v.some_bytes);
  }

  appended_waited-IsFaithful : (payload : Bytes) → IsFaithful initial (appended_waited s payload)
  unfolding appended_waited append_raw_blocking
  appended_waited-IsFaithful payload = record {
    bytes = ground (arith, v.bytes, queued-bytes payload);
    idle = v.idle;
    over = λ e. ground (arith, v.over e);
    offset = ground (arith, v.offset);
    some_entries = ground (arith, v.some_entries);
    some_bytes = ground (arith, v.some_bytes);
  }

  told_to_stop-IsFaithful : IsFaithful initial (told_to_stop s)
  unfolding told_to_stop
  told_to_stop-IsFaithful = record {
    bytes = v.bytes;
    idle = v.idle;
    over = λ e. refl;
    offset = v.offset;
    some_entries = v.some_entries;
    some_bytes = v.some_bytes;
  }

  written-IsFaithful :
      (n : ℕ) → s.phase ≡ writing → n ≤ length (offered s.batch) → IsFaithful initial (written n s)
  unfolding written
  written-IsFaithful n w fits = record {
    bytes =
        sym (
          append_assoc (s.file ++ take n (offered s.batch)) (concat (advance n s.batch))
            (concat s.aof.queue))
        ∙ ap (λ t. t ++ concat s.aof.queue) (advance-total n s.file s.batch fits)
        ∙ append_assoc s.file (concat s.batch) (concat s.aof.queue)
        ∙ v.bytes;
    idle = λ h. absurd (h w);
    over = v.over;
    offset = omega (arith, v.offset, length-append s.file (take n (offered s.batch)));
    some_entries = v.some_entries;
    some_bytes = v.some_bytes;
  }

  finished-IsFaithful :
      (now : ℕ) → s.phase ≡ writing → s.batch ≡ [] → IsFaithful initial (finished now s)
  unfolding finished store_offset sync_batch leaves left
  finished-IsFaithful now w empty = record {
    bytes = ground (arith, v.bytes);
    idle = λ h. ground (arith, empty);
    over = λ e. ground arith;
    offset = ground arith;
    some_entries = ground (arith, v.some_entries);
    some_bytes = ground (arith, v.some_bytes);
  }

  gathered-IsFaithful : s.phase ≡ gathering → IsFaithful initial (gathered s)
  unfolding gathered
  gathered-IsFaithful g =
      let (moved, rest, _, limits) = collect_lem s.aof in
      let batch = (collect s.aof).0 in
      let b = (collect s.aof).1 in
      let was_empty : s.batch ≡ [] = v.idle (λ h. gathering_ne (sym g ∙ h)) in
      let same_options : b.opts ≡ s.aof.opts = ap (λ (a : Aof). a.opts) rest in
      let same_offset : b.written_offset ≡ s.aof.written_offset =
        ap (λ (a : Aof). a.written_offset) rest in
      record {
        bytes =
            ap (λ t. s.file ++ t) (sym (concat-append batch b.queue) ∙ ap concat moved)
            ∙ ap (λ (t : List Bytes). s.file ++ (concat t ++ concat s.aof.queue)) (sym was_empty)
            ∙ v.bytes;
        idle = λ h. length-zero batch (ground arith);
        over = λ e. ground arith;
        offset = ground (arith, v.offset);
        some_entries = ground (arith, v.some_entries);
        some_bytes = ground (arith, v.some_bytes);
      }
    where
      gathering_ne : gathering ≡ writing → ⊥
      gathering_ne h = cc

  tested-IsFaithful : (now : ℕ) → s.phase ≡ testing → IsFaithful initial (tested now s)
  unfolding tested idle left
  tested-IsFaithful now g =
      let empty : s.batch ≡ [] = v.idle (λ h. testing_ne (sym g ∙ h)) in
      record {
        bytes = ground (arith, v.bytes);
        idle = λ h. ground (arith, empty);
        over = λ e. ground arith;
        offset = ground (arith, v.offset);
        some_entries = ground (arith, v.some_entries);
        some_bytes = ground (arith, v.some_bytes);
      }
    where
      testing_ne : testing ≡ writing → ⊥
      testing_ne h = cc

-- Every step of a run without a failed write keeps the log faithful.
pub Step-IsFaithful :
    (initial : Bytes) {s t : System} → Step s t → IsFaithful initial s → IsFaithful initial t
Step-IsFaithful initial (append p e) v = rw e (appended-IsFaithful initial v p)
Step-IsFaithful initial (append_waited p w e) v = rw e (appended_waited-IsFaithful initial v p)
Step-IsFaithful initial (request_stop e) v = rw e (told_to_stop-IsFaithful initial v)
Step-IsFaithful initial (gather g e) v = rw e (gathered-IsFaithful initial v g)
Step-IsFaithful initial (test now g e) v = rw e (tested-IsFaithful initial v now g)
Step-IsFaithful initial (write n w fits e) v = rw e (written-IsFaithful initial v n w fits)
Step-IsFaithful initial (finish now w b e) v = rw e (finished-IsFaithful initial v now w b)

-- In every order of steps of any threads, with no failed write: the bytes of the file, then those of
-- the batch, then those of the queue are the bytes at the start and then the accepted payloads, in the
-- order of acceptance; outside of a batch none of its bytes is left; a writer leaves its loop only where
-- the log was stopped; and the stored offset never passes the end of the file.
pub Reach-IsFaithful :
    (initial : Bytes) {s t : System} → IsFaithful initial s → Reach s t → IsFaithful initial t
Reach-IsFaithful initial v here = v
Reach-IsFaithful initial v (next r st) = Step-IsFaithful initial st (Reach-IsFaithful initial v r)
