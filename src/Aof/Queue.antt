-- ===== src/Aof/Queue.antt =====
-- What the appends promise: a bounded queue that takes payloads in order, and refuses without a trace.
use blp_cache.Aof.{
  fsync, close_file, refuses, can_proceed, stop, append_raw_blocking, Aof, append_raw_async,
}
use blp_cache.Prelude.{
  Bytes, [], arith, false, if◌then◌else◌, length, length-append, not, refl, true, ◌++◌, ◌<◌, ◌==◌,
  ◌↔◌, ◌∷◌, ◌≡◌, ◌≤◌,
}

abbrev pub IsBounded : Aof → Type 0
IsBounded a = length a.queue ≤ a.opts.max_queue_entries

-- An append that does not wait queues the payload at the end and calls every listener once, in the
-- order of registration, exactly when the log is not stopped and the queue is below its bound.
-- Otherwise it changes nothing and calls nobody. A bounded queue stays bounded.
pub append_raw_async_lem :
    (a : Aof) (payload : Bytes)
    → let r = append_raw_async a payload in
      ((r.accepted ≡ true) ↔ ((a.stop_flag ≡ false) × (length a.queue < a.opts.max_queue_entries)))
      × (r.aof ≡ record a { queue = if r.accepted then a.queue ++ (payload ∷ []) else a.queue })
      × (r.called ≡ (if r.accepted then a.listeners else []))
      × (IsBounded a → IsBounded r.aof)
unfolding append_raw_async
append_raw_async_lem a payload = (
  (λ h. ground arith, λ h. ground arith),
  ground arith,
  ground arith,
  λ h. ground (arith, length-append a.queue (payload ∷ [])),
)

-- The wait of a blocking append ends where its predicate holds. Then the payload is queued unless the
-- log is stopped, a full queue is never extended, and every listener is called exactly when it is.
pub append_raw_blocking_lem :
    (wake : Aof → Aof) (a : Aof) (payload : Bytes)
    → can_proceed (wake a) ≡ true
    → let woken = if can_proceed a then a else wake a in
      let r = append_raw_blocking wake a payload in
      (r.accepted ≡ not woken.stop_flag)
      × (r.aof ≡ record woken {
        queue = if woken.stop_flag then woken.queue else woken.queue ++ (payload ∷ []);
      })
      × (r.called ≡ (if r.accepted then woken.listeners else []))
      × (r.accepted ≡ true → IsBounded r.aof)
unfolding append_raw_blocking
append_raw_blocking_lem wake a payload w = (
  ground arith,
  ground arith,
  ground arith,
  λ h.
      ground
        (arith, length-append a.queue (payload ∷ []), length-append (wake a).queue (payload ∷ [])),
)

-- What joining the writer thread leaves alone.
pub record Joins (joined : Aof → Aof) : Type 0 where
  pub still_stopped : (b : Aof) → b.stop_flag ≡ true → (joined b).stop_flag ≡ true
  pub same_file : (b : Aof) → (joined b).fd_open ≡ b.fd_open
  pub same_options : (b : Aof) → (joined b).opts ≡ b.opts

-- The first call of `stop` stops the log for good, with no writer and no open file: an open file is
-- closed, behind an `fsync` unless the durability mode is 0. A further call changes nothing and
-- touches no file.
pub stop_lem :
    (joined later : Aof → Aof) (a : Aof)
    → a.stop_flag ≡ false
    → Joins joined
    → let (b, io) = stop joined a in
      (b.stop_flag ≡ true)
      × (b.fd_open ≡ false)
      × (b.writer_started ≡ false)
      × (io ≡ (
          if a.fd_open
          then (if a.opts.durability_mode == 0 then close_file ∷ [] else fsync ∷ close_file ∷ [])
          else []))
      × (stop later b ≡ (b, []))
unfolding stop
stop_lem joined later a s j =
    let told : Aof = record a { stop_flag = true } in
    let k = j.still_stopped told refl in
    let f : (joined told).fd_open ≡ a.fd_open = j.same_file told in
    let o : (joined told).opts ≡ a.opts = j.same_options told in
    (ground arith, ground arith, ground arith, ground arith, ground arith)

-- A stopped log takes nothing: an append that does not wait and one that waits both fail and change
-- nothing.
pub stopped_refuses :
    (wake : Aof → Aof) (a : Aof) (payload : Bytes)
    → a.stop_flag ≡ true
    → (append_raw_async a payload ≡ refuses a) × (append_raw_blocking wake a payload ≡ refuses a)
unfolding append_raw_async append_raw_blocking
stopped_refuses wake a payload s = (ground arith, ground arith)
