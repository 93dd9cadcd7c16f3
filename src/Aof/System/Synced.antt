-- ===== src/Aof/System/Synced.antt =====
-- Which bytes of the file are on the disk, where each batch is synced (`durability_mode` 1, which
-- src/blp.cpp sets).
use blp_cache.Aof.Writer.Batch.{collect_lem}
use blp_cache.Aof.Writer.{collect, idle, leaves, last_sync, sync_batch, store_offset, offered}
use blp_cache.Aof.{Options, Aof, append_raw_blocking, append_raw_async}
use blp_cache.Aof.System.{
  gathering, written, Step, gathered, Reach, appended, writing, appended_waited, finished,
  told_to_stop, System, append, append_waited, request_stop, gather, write, finish, here, next,
  test, tested, testing, left,
}
use blp_cache.Prelude.{Bytes, ap, arith, length, length-append, sym, take, ℕ, ◌∙◌, ◌≡◌, ◌≢◌, ◌≤◌}

-- Between two rounds of the writer all bytes are synced, and never more than there are.
pub record IsSynced (s : System) : Type 0 where
  pub each_batch : s.aof.opts.durability_mode ≡ 1
  pub all_synced : s.phase ≢ writing → s.synced ≡ length s.file
  pub within : s.synced ≤ length s.file

module _ {s : System} (v : IsSynced s) where
  appended-IsSynced : (payload : Bytes) → IsSynced (appended s payload)
  unfolding appended append_raw_async
  appended-IsSynced payload = record {
    each_batch = ground (arith, v.each_batch);
    all_synced = v.all_synced;
    within = v.within;
  }

  appended_waited-IsSynced : (payload : Bytes) → IsSynced (appended_waited s payload)
  unfolding appended_waited append_raw_blocking
  appended_waited-IsSynced payload = record {
    each_batch = ground (arith, v.each_batch);
    all_synced = v.all_synced;
    within = v.within;
  }

  told_to_stop-IsSynced : IsSynced (told_to_stop s)
  unfolding told_to_stop
  told_to_stop-IsSynced = record {
    each_batch = v.each_batch;
    all_synced = v.all_synced;
    within = v.within;
  }

  gathered-IsSynced : s.phase ≡ gathering → IsSynced (gathered s)
  unfolding gathered
  gathered-IsSynced g =
      let (moved, rest, _, limits) = collect_lem s.aof in
      let same_options : (collect s.aof).1.opts ≡ s.aof.opts = ap (λ (a : Aof). a.opts) rest in
      let was_synced = v.all_synced (λ h. gathering_ne (sym g ∙ h)) in
      record {
        each_batch = ap (λ (o : Options). o.durability_mode) same_options ∙ v.each_batch;
        all_synced = λ _. was_synced;
        within = v.within;
      }
    where
      gathering_ne : gathering ≡ writing → ⊥
      gathering_ne h = cc

  written-IsSynced : (n : ℕ) → s.phase ≡ writing → IsSynced (written n s)
  unfolding written
  written-IsSynced n w = record {
    each_batch = v.each_batch;
    all_synced = λ h. absurd (h w);
    within = omega (arith, v.within, length-append s.file (take n (offered s.batch)));
  }

  finished-IsSynced : (now : ℕ) → IsSynced (finished now s)
  unfolding finished store_offset sync_batch leaves left last_sync
  finished-IsSynced now = record {
    each_batch = ground (arith, v.each_batch);
    all_synced = λ _. ground (arith, v.each_batch);
    within = ground (arith, v.each_batch);
  }

  tested-IsSynced : (now : ℕ) → s.phase ≡ testing → IsSynced (tested now s)
  unfolding tested idle left last_sync
  tested-IsSynced now g =
      let whole = v.all_synced (λ h. testing_ne (sym g ∙ h)) in
      record {
        each_batch = ground (arith, v.each_batch);
        all_synced = λ _. ground (arith, v.each_batch, whole);
        within = ground (arith, v.each_batch, v.within);
      }
    where
      testing_ne : testing ≡ writing → ⊥
      testing_ne h = cc

Step-IsSynced : {s t : System} → Step s t → IsSynced s → IsSynced t
Step-IsSynced (append p e) v = rw e (appended-IsSynced v p)
Step-IsSynced (append_waited p w e) v = rw e (appended_waited-IsSynced v p)
Step-IsSynced (request_stop e) v = rw e (told_to_stop-IsSynced v)
Step-IsSynced (gather g e) v = rw e (gathered-IsSynced v g)
Step-IsSynced (test now g e) v = rw e (tested-IsSynced v now g)
Step-IsSynced (write n w fits e) v = rw e (written-IsSynced v n w)
Step-IsSynced (finish now w b e) v = rw e (finished-IsSynced v now)

-- Where each batch is synced: after any steps of any threads, with no failed write, from a state in which
-- all bytes of the file are synced, they are all synced again whenever the writer is not in the middle of
-- a batch, and never more bytes count as synced than the file has.
pub Reach-IsSynced : {s t : System} → IsSynced s → Reach s t → IsSynced t
Reach-IsSynced v here = v
Reach-IsSynced v (next r st) = Step-IsSynced st (Reach-IsSynced v r)
