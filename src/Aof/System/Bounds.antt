-- ===== src/Aof/System/Bounds.antt =====
-- How much the log keeps in memory.
use blp_cache.Aof.Writer.Batch.{collect_lem}
use blp_cache.Aof.Writer.{collect, advance, idle, store_offset, sync_batch}
use blp_cache.Aof.{can_proceed, Aof, append_raw_blocking, append_raw_async}
use blp_cache.Aof.System.Failure.{AnyReach, failed, at_start, later, fine, write_fails}
use blp_cache.Aof.System.{
  Step, append, append_waited, request_stop, gather, test, write, finish, appended, appended_waited,
  told_to_stop, gathered, tested, left, written, finished, System,
}
use blp_cache.Prelude.{
  Bytes, List, [], ap, arith, length, length-append, true, ℕ, ◌-◌, ◌∷◌, ◌≡◌, ◌≤◌,
}

-- The queue and the batch are within the two limits of the options.
pub record IsBounded (s : System) : Type 0 where
  pub queued : length s.aof.queue ≤ s.aof.opts.max_queue_entries
  pub taken : length s.batch ≤ s.aof.opts.max_batch_entries

length-advance : (n : ℕ) (iovs : List Bytes) → length (advance n iovs) ≤ length iovs
unfolding advance
length-advance n [] = omega arith
length-advance n (iov ∷ iovs) = ground (arith, length-advance (n - length iov) iovs)

module _ {s : System} (v : IsBounded s) where
  appended-IsBounded : (payload : Bytes) → IsBounded (appended s payload)
  unfolding appended append_raw_async
  appended-IsBounded payload =
      let one_more = length-append s.aof.queue (payload ∷ []) in
      record { queued = ground (arith, v.queued, one_more); taken = ground (arith, v.taken) }

  appended_waited-IsBounded :
      (payload : Bytes) → can_proceed s.aof ≡ true → IsBounded (appended_waited s payload)
  unfolding appended_waited append_raw_blocking
  appended_waited-IsBounded payload proceeds =
      let one_more = length-append s.aof.queue (payload ∷ []) in
      record {
        queued = ground (arith, v.queued, one_more, proceeds);
        taken = ground (arith, v.taken);
      }

  gathered-IsBounded : IsBounded (gathered s)
  unfolding gathered
  gathered-IsBounded =
      let (moved, rest, few, _) = collect_lem s.aof in
      let same_options : (collect s.aof).1.opts ≡ s.aof.opts = ap (λ (a : Aof). a.opts) rest in
      let sizes = length-append (collect s.aof).0 (collect s.aof).1.queue in
      let parts = ap (λ (q : List Bytes). length q) moved in
      record { queued = rw same_options (omega (arith, v.queued)); taken = rw same_options few }

  tested-IsBounded : (now : ℕ) → IsBounded (tested now s)
  unfolding tested idle left
  tested-IsBounded now = record {
    queued = ground (arith, v.queued);
    taken = ground (arith, v.taken);
  }

  written-IsBounded : (n : ℕ) → IsBounded (written n s)
  unfolding written
  written-IsBounded n = record {
    queued = v.queued;
    taken = omega (arith, v.taken, length-advance n s.batch);
  }

  finished-IsBounded : (now : ℕ) → IsBounded (finished now s)
  unfolding finished store_offset sync_batch left
  finished-IsBounded now = record {
    queued = ground (arith, v.queued);
    taken = ground (arith, v.taken);
  }

failed-IsBounded : {s : System} → IsBounded s → IsBounded (failed s)
unfolding failed
failed-IsBounded v = record { queued = v.queued; taken = omega arith }

told_to_stop-IsBounded : {s : System} → IsBounded s → IsBounded (told_to_stop s)
unfolding told_to_stop
told_to_stop-IsBounded v = record { queued = v.queued; taken = v.taken }

Step-IsBounded : {s t : System} → Step s t → IsBounded s → IsBounded t
Step-IsBounded (append p e) v = rw e (appended-IsBounded v p)
Step-IsBounded (append_waited p w e) v = rw e (appended_waited-IsBounded v p w)
Step-IsBounded (request_stop e) v = rw e (told_to_stop-IsBounded v)
Step-IsBounded (gather g e) v = rw e (gathered-IsBounded v)
Step-IsBounded (test now g e) v = rw e (tested-IsBounded v now)
Step-IsBounded (write n w fits e) v = rw e (written-IsBounded v n)
Step-IsBounded (finish now w b e) v = rw e (finished-IsBounded v now)

-- In every order of steps of any threads, failed writes included: a queue and a batch that are within
-- `max_queue_entries` and `max_batch_entries` at the start are so at every moment.
pub AnyReach-IsBounded : {s t : System} → IsBounded s → AnyReach s t → IsBounded t
AnyReach-IsBounded v at_start = v
AnyReach-IsBounded v (later r (fine st)) = Step-IsBounded st (AnyReach-IsBounded v r)
AnyReach-IsBounded v (later r (write_fails w b e)) =
    rw e (failed-IsBounded (AnyReach-IsBounded v r))
