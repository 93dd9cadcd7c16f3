-- ===== src/Aof/System/Stop.antt =====
-- What is in the file when the writer has left its loop.
use blp_cache.Aof.Writer.Batch.{collect_lem}
use blp_cache.Aof.Writer.{collect, idle, leaves, store_offset, sync_batch, take_batch, last_sync}
use blp_cache.Aof.{Aof, append_raw_blocking, append_raw_async}
use blp_cache.Aof.System.Faithful.{IsFaithful, Reach-IsFaithful}
use blp_cache.Aof.System.{
  here, next, finish, write, gather, request_stop, append_waited, append, Step, Reach, told_to_stop,
  appended_waited, finished, gathered, appended, written, System, gathering, writing, ended, tested,
  testing, test, left,
}
use blp_cache.Prelude.{
  Bytes, List, List-cases, [], ap, append-nil, ap₂, arith, concat, false, inl, inr, length,
  length-zero, refl, sym, true, ℕ, ◌++◌, ◌<◌, ◌∙◌, ◌∷◌, ◌≡◌, ◌≢◌, ◌≤◌, ◌⊎◌,
}

-- The log was told to stop, and the writer is not behind an empty batch while a payload is queued.
pub record IsClosing (s : System) : Type 0 where
  pub stopped : s.aof.stop_flag ≡ true
  pub before_test : s.phase ≡ testing → s.aof.queue ≡ []
  pub at_end : s.phase ≡ ended → s.aof.queue ≡ []
  pub on_disk : s.phase ≡ ended → 0 < s.aof.opts.durability_mode → s.synced ≡ length s.file

module _ {s : System} (v : IsClosing s) where
  appended-IsClosing : (payload : Bytes) → IsClosing (appended s payload)
  unfolding appended append_raw_async
  appended-IsClosing payload = record {
    stopped = ground (arith, v.stopped);
    before_test = λ e. ground (arith, v.stopped, v.before_test e);
    at_end = λ e. ground (arith, v.stopped, v.at_end e);
    on_disk = λ e d. v.on_disk e (ground (arith, v.stopped));
  }

  appended_waited-IsClosing : (payload : Bytes) → IsClosing (appended_waited s payload)
  unfolding appended_waited append_raw_blocking
  appended_waited-IsClosing payload = record {
    stopped = ground (arith, v.stopped);
    before_test = λ e. ground (arith, v.stopped, v.before_test e);
    at_end = λ e. ground (arith, v.stopped, v.at_end e);
    on_disk = λ e d. v.on_disk e (ground (arith, v.stopped));
  }

  told_to_stop-IsClosing : IsClosing (told_to_stop s)
  unfolding told_to_stop
  told_to_stop-IsClosing = record {
    stopped = refl;
    before_test = v.before_test;
    at_end = v.at_end;
    on_disk = v.on_disk;
  }

  written-IsClosing : (n : ℕ) → s.phase ≡ writing → IsClosing (written n s)
  unfolding written
  written-IsClosing n w = record {
    stopped = v.stopped;
    before_test = v.before_test;
    at_end = v.at_end;
    on_disk = λ e. absurd (writing_ne (sym w ∙ e));
  }
    where
      writing_ne : writing ≡ ended → ⊥
      writing_ne h = cc

  finished-IsClosing : (now : ℕ) → IsClosing (finished now s)
  unfolding finished store_offset sync_batch leaves left last_sync
  finished-IsClosing now = record {
    stopped = ground (arith, v.stopped);
    before_test = λ e. ground arith;
    at_end = λ e. length-zero (finished now s).aof.queue (ground arith);
    on_disk = λ e d. ground arith;
  }

  tested-IsClosing : (now : ℕ) → s.phase ≡ testing → IsClosing (tested now s)
  unfolding tested idle left last_sync
  tested-IsClosing now g =
      let empty = v.before_test g in
      record {
        stopped = ground (arith, v.stopped);
        before_test = λ e. ground (arith, v.stopped, empty);
        at_end = λ e. ground (arith, v.stopped, empty);
        on_disk = λ e d. ground (arith, v.stopped);
      }

  gathered-IsClosing : (initial : Bytes) → IsFaithful initial s → IsClosing (gathered s)
  unfolding gathered
  gathered-IsClosing initial f =
      let (_, rest, _, limits) = collect_lem s.aof in
      let batch = (collect s.aof).0 in
      let b = (collect s.aof).1 in
      let same_flag : b.stop_flag ≡ s.aof.stop_flag = ap (λ (a : Aof). a.stop_flag) rest in
      record {
        stopped = same_flag ∙ v.stopped;
        before_test = λ e. nothing_left batch b limits (ground arith);
        at_end = λ e. ground arith;
        on_disk = λ e. ground arith;
      }
    where
      nothing_left :
          (batch : List Bytes) (b : Aof)
          → (b.queue ≢ []
              → (s.aof.opts.max_batch_entries ≤ length batch)
                ⊎ (s.aof.opts.max_batch_bytes ≤ length (concat batch)))
          → length batch ≡ 0
          → b.queue ≡ []
      nothing_left batch b limits none_taken = elim (List-cases b.queue) [
        | inl e ↦ e
        | inr ne ↦
            let empty : batch ≡ [] = length-zero batch none_taken in
            let no_bytes : length (concat batch) ≡ 0 = rw empty refl in
            absurd (elim (limits ne) [
              | inl h ↦ omega (arith, f.some_entries)
              | inr h ↦ omega (arith, f.some_bytes)
            ])
      ]

Step-IsClosing :
    (initial : Bytes) {s t : System} → Step s t → IsFaithful initial s → IsClosing s → IsClosing t
Step-IsClosing initial (append p e) f v = rw e (appended-IsClosing v p)
Step-IsClosing initial (append_waited p w e) f v = rw e (appended_waited-IsClosing v p)
Step-IsClosing initial (request_stop e) f v = rw e (told_to_stop-IsClosing v)
Step-IsClosing initial (gather g e) f v = rw e (gathered-IsClosing v initial f)
Step-IsClosing initial (test now g e) f v = rw e (tested-IsClosing v now g)
Step-IsClosing initial (write n w fits e) f v = rw e (written-IsClosing v n w)
Step-IsClosing initial (finish now w b e) f v = rw e (finished-IsClosing v now)

Reach-IsClosing :
    (initial : Bytes) {s t : System} → IsFaithful initial s → IsClosing s → Reach s t → IsClosing t
Reach-IsClosing initial f v here = v
Reach-IsClosing initial f v (next r st) =
    Step-IsClosing initial st (Reach-IsFaithful initial f r) (Reach-IsClosing initial f v r)

ended-bytes :
    (initial : Bytes) {s : System}
    → IsFaithful initial s
    → s.phase ≡ ended
    → s.aof.queue ≡ []
    → s.file ≡ initial ++ concat s.accepted
ended-bytes initial {s} v e no_queue =
    let no_batch = v.idle (λ h. ended_ne (sym e ∙ h)) in
    sym (append-nil s.file)
    ∙ ap₂ (λ (b q : List Bytes). s.file ++ (concat b ++ concat q)) (sym no_batch) (sym no_queue)
    ∙ v.bytes
  where
    ended_ne : ended ≡ writing → ⊥
    ended_ne h = cc

-- Where the log was told to stop while the writer was gathering or writing, from a faithful state and with
-- no failed write: once the writer has left its loop, the file is exactly the bytes at the start followed
-- by every payload that was accepted, in order, and but for `durability_mode` 0 all of it is synced.
pub stop_keeps_all :
    (initial : Bytes) {s t : System}
    → IsFaithful initial s
    → s.aof.stop_flag ≡ true
    → (s.phase ≡ gathering) ⊎ (s.phase ≡ writing)
    → Reach s t
    → t.phase ≡ ended
    → (t.file ≡ initial ++ concat t.accepted)
      × (0 < t.aof.opts.durability_mode → t.synced ≡ length t.file)
stop_keeps_all initial {s} {t} f stop at r e =
    let closing : IsClosing s = record {
      stopped = stop;
      before_test = λ h. ground arith;
      at_end = λ h. ground arith;
      on_disk = λ h. ground arith;
    } in
    let closed = Reach-IsClosing initial f closing r in
    (ended-bytes initial (Reach-IsFaithful initial f r) e (closed.at_end e), closed.on_disk e)

-- From every state in which the writer is about to gather, the queue is empty, and appends are accepted,
-- there is a run that accepts a given payload and ends with it in the queue and not in the file: the
-- payload is appended and the log stopped between the writer's empty batch and its test of `stop_flag_`.
pub stop_loses_payload :
    (s : System) (payload : Bytes)
    → s.phase ≡ gathering
    → s.aof.queue ≡ []
    → s.aof.stop_flag ≡ false
    → 0 < s.aof.opts.max_queue_entries
    → (t : System) × Reach s t
      × (t.phase ≡ ended)
      × (t.accepted ≡ s.accepted ++ (payload ∷ []))
      × (t.aof.queue ≡ payload ∷ [])
      × (t.file ≡ s.file)
unfolding gathered collect take_batch tested idle left told_to_stop appended append_raw_async
stop_loses_payload s payload g no_queue open_log room =
    let one = gathered s in
    let two = appended one payload in
    let three = told_to_stop two in
    let took : one.phase ≡ testing = rw no_queue refl in
    (
      tested 0 three,
      next (next (next (next here (gather g refl)) (append payload refl)) (request_stop refl))
          (test 0 took refl),
      refl,
      ground arith,
      ground arith,
      refl,
    )
